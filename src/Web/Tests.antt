-- ===== src/Web/Tests.antt =====
-- Runs of the browser's reducer and lists on small data, and examples of what is proved of them.
use telecode.Base.{
  ℕ, String, Bool, true, false, Option, none, some, List, [], ◌∷◌, map, ◌≡◌, refl, inl, inr, arith,
  All, In,
}
use telecode.Protocol.Status.{SessionStatus, SessionOrigin}
use telecode.Protocol.Message.{MessageType}
use telecode.Protocol.Json.{Json, json_text, object, field, empty, array, exhausted}
use telecode.Protocol.Envelope.{Envelope}
use telecode.Web.Transcript.{
  TranscriptEntry, SessionState, permission, DecisionState, ViewStatus, wire, is_ended,
}
use telecode.Web.Transcript.Fold.{apply_envelope, undelivered_text}
use telecode.Web.Transcript.Actions.{Behavior}
use telecode.Web.Transcript.Log.{ViewOp, received, said, decided, run_op, run}
use telecode.Web.Transcript.Lifecycle.{Advances}
use telecode.Web.Transcript.Lifecycle.Advance.{run_op-Advances}
use telecode.Web.Transcript.Keys.{IsKeyed, run-IsKeyed}
use telecode.Web.Transcript.Earned.{IsEarned, run-IsEarned}
use telecode.Web.Transcript.Undelivered.{without_reply, failed_action-restores}
use telecode.Web.Transcript.Ended.{IsSettled, apply_all, ended_stays}
use telecode.Web.Rows.{SessionRow}
use telecode.Web.Threads.{ThreadRow, build_thread_rows}
use telecode.Web.Threads.Coverage.{shown_all, ids_of, build_thread_rows_covers}
use telecode.Web.Inbox.{build_inbox_asks}
use telecode.Web.Inbox.Exact.{named}

abbrev frame : MessageType → Json → Envelope
frame type payload = record {
  user_id = "ada";
  device_id = "laptop";
  session_id = some "s1";
  type = type;
  nonce = "";
  status = none;
  sender_public_key = none;
  payload = payload;
}

abbrev ask_frame : Envelope
ask_frame = frame MessageType.agent_permission_request (
    object (
      field "requestId" (json_text "r1")
        (field "toolName" (json_text "Bash") (field "input" (object empty) empty))))

abbrev error_frame : Envelope
error_frame = frame MessageType.relay_error (
    object (
      field "code" (json_text "device_offline")
        (field "regarding" (json_text "permission.decision") empty)))

abbrev end_frame : Envelope
end_frame = frame MessageType.session_ended (object (field "status" (json_text "done") empty))

abbrev status_frame : Envelope
status_frame =
    frame MessageType.session_status (object (field "status" (json_text "running") empty))

abbrev empty_history : Envelope
empty_history =
    frame MessageType.session_history (
      object
        (field "status" (json_text "offline_paused") (field "entries" (array exhausted) empty)))

-- The human approves, and then the end of the session arrives; the last operation stands first.
abbrev approved_log : List ViewOp
approved_log =
    received 30 end_frame ∷ decided "r1" Behavior.allow ∷ received 20 ask_frame ∷ said 10 "go" ∷ []

asked : SessionState
asked = run (received 20 ask_frame ∷ said 10 "go" ∷ [])

is_approved : TranscriptEntry → Bool
is_approved (permission p) = elim p.decision [ DecisionState.approved ↦ true | _ ↦ false ]
is_approved _ = false

approved_runs : map is_approved (run approved_log).entries ≡ false ∷ true ∷ []
unfolding run is_approved
approved_runs = refl

-- Without the human's act the end of the session leaves the ask rejected.
ended_undecided :
    map is_approved (run (received 30 end_frame ∷ received 20 ask_frame ∷ [])).entries ≡ false ∷ []
unfolding run is_approved
ended_undecided = refl

run_op-Advances_example :
    Advances (decided "r1" Behavior.allow) asked (run_op (decided "r1" Behavior.allow) asked)
run_op-Advances_example = run_op-Advances (decided "r1" Behavior.allow) asked

run-IsKeyed_example : IsKeyed (run approved_log)
run-IsKeyed_example = run-IsKeyed approved_log

run-IsEarned_example : All (IsEarned approved_log) (run approved_log).entries
run-IsEarned_example = run-IsEarned approved_log

failed_action-restores_example :
    let t = run_op (received 30 error_frame) (run_op (decided "r1" Behavior.allow) asked) in
    (map without_reply t.entries ≡ map without_reply asked.entries)
    × (t.delivery_error ≡ some undelivered_text)
unfolding asked run
failed_action-restores_example =
    failed_action-restores (decided "r1" Behavior.allow) 30 error_frame asked tt
      ((tt, λ a. absurd a), (((λ e. cc, λ e. cc), λ a. refl), tt)) refl refl

ended_stays_example :
    let t = apply_envelope 30 end_frame asked in
    let u = apply_all ((40, error_frame) ∷ (50, status_frame) ∷ (60, empty_history) ∷ []) t in
    All IsSettled t.entries
    × (is_ended t.status ≡ true)
    × (u.entries ≡ t.entries)
    × (u.status ≡ t.status)
unfolding asked run
ended_stays_example =
    ended_stays 30 end_frame asked
      ((40, error_frame) ∷ (50, status_frame) ∷ (60, empty_history) ∷ []) refl (omega arith)
      (inl refl, (inr (inl refl), (inr (inr (refl, _, refl, refl)), tt)))

abbrev session_row : String → Option String → ViewStatus → ℕ → SessionRow
session_row id parent status at = record {
  id = id;
  title = none;
  status = status;
  device_id = some "laptop";
  device_name = none;
  origin = SessionOrigin.launched;
  is_continuation = false;
  parent_session_id = parent;
  repo = none;
  cwd = none;
  created_at = at;
  last_activity_at = at;
}

-- A session that was taken over twice, and a cycle.
abbrev linked_rows : List SessionRow
linked_rows =
    session_row "root" none (wire SessionStatus.done) 1
    ∷ session_row "left" (some "root") (wire SessionStatus.running) 2
    ∷ session_row "right" (some "root") (wire SessionStatus.awaiting_input) 3
    ∷ session_row "a" (some "b") (wire SessionStatus.waiting_local) 4
    ∷ session_row "b" (some "a") (wire SessionStatus.done) 5
    ∷ []

segments_of_threads : Option (List ThreadRow) → List (List String)
segments_of_threads none = []
segments_of_threads (some threads) = map (λ t. map (λ s. s.session_id) t.segments) threads

-- The session `root` stands in the segments of two threads.
taken_over_twice :
    segments_of_threads (build_thread_rows linked_rows)
    ≡ ("root" ∷ "left" ∷ []) ∷ ("root" ∷ "right" ∷ []) ∷ [] ∷ [] ∷ []
unfolding build_thread_rows segments_of_threads
taken_over_twice = refl

build_thread_rows_covers_example :
    (threads : List ThreadRow) × (build_thread_rows linked_rows ≡ some threads)
    × ((row : SessionRow) → In row linked_rows → In row.id (shown_all threads))
    × All (λ id. In id (ids_of linked_rows)) (shown_all threads)
build_thread_rows_covers_example = build_thread_rows_covers linked_rows

abbrev live_sessions : List (String × SessionState)
live_sessions =
    ("s1", run (received 20 ask_frame ∷ [])) ∷ ("s2", run (received 10 ask_frame ∷ [])) ∷ []

-- The ask that came first stands first.
oldest_first :
    map named (build_inbox_asks (λ id. none) (λ id. none) live_sessions)
    ≡ ("s2", "r1") ∷ ("s1", "r1") ∷ []
unfolding build_inbox_asks run
oldest_first = refl
