-- ===== src/Daemon/Gates/Modes.antt =====
-- packages/daemon/src/daemon.ts: the gates leave the permission mode of a session alone.
use telecode.Base.{
  String, Bool, true, false, Option, none, some, List, [], ◌∷◌, filter, ◌≡◌, ◌∙◌, refl, sym, ap,
  subst, inl, inr, ◌⊎◌, ◌==◌, ==_iff, string_eq, Bool-cases, Option-cases,
}
use telecode.Base.Dict.{get, set, delete, get-set}
use telecode.Protocol.Json.{Json}
use telecode.Protocol.Status.{SessionStatus}
use telecode.Protocol.Frames.{AnswerItem, PermissionRequest, Question}
use telecode.Protocol.History.{HistoryEntry, Verdict, permission, question}
use telecode.Protocol.Replies.{
  ControlAction, permission_decision_payload, question_answer_payload, control_payload,
}
use telecode.Daemon.Policy.{PermissionMode}
use telecode.Daemon.Gates.{
  SessionRecord, Daemon, record_for, record_entry, set_status, in_transcript,
  settle_permission_entry, settle_question_entry, decide_entry, recorded_answers, mode_of,
  auto_approve_by_policy, open_gate, request_permission, request_question_answer,
}
use telecode.Daemon.Gates.Settle.{
  GateOp, tool_requested, question_raised, permission_timeout, question_timeout, decision_arrived,
  answer_arrived, control_arrived, stopping, permission_timed_out, question_timed_out,
  decision_received, answer_received, is_owned_by, deny_entries, verdict_of, stop_turn,
  handle_control, control_received, stop, run_op, run,
}

-- The mode of a session by the records that the daemon starts with: `default` where there is none.
abbrev pub IsModeOf : List (String × SessionRecord) → Option String → PermissionMode → Type 0
IsModeOf records none mode = mode ≡ PermissionMode.default
IsModeOf records (some id) mode =
    ((rec : SessionRecord) × (get id records ≡ some rec) × (mode ≡ rec.permission_mode))
    ⊎ ((get id records ≡ none) × (mode ≡ PermissionMode.default))

pub started-IsModeOf :
    (records : List (String × SessionRecord)) (s : Option String)
    → IsModeOf records s (mode_of s records)
started-IsModeOf records none = refl
started-IsModeOf records (some id) = elim (Option-cases (get id records)) [
  | inl n ↦ inr (n, rw (n, mode_of) refl)
  | inr (rec, e) ↦ inl (rec, e, rw (e, mode_of) refl)
]

-- The daemon without a gate that is taken out, and with a session that has ended.
abbrev without_permission : String → Daemon → Daemon
without_permission r d = record d { pending_permissions = delete r d.pending_permissions }

abbrev without_question : String → Daemon → Daemon
without_question r d = record d { pending_questions = delete r d.pending_questions }

abbrev marked : String → Daemon → Daemon
marked id d = record d { ended_sessions = id ∷ d.ended_sessions }

module _ (s : Option String) where
  -- A record that keeps the session's mode.
  mode-set :
      (id : String) (rec : SessionRecord) (d : Daemon)
      → rec.permission_mode ≡ mode_of (some id) d.session_records
      → mode_of s (set id rec d.session_records) ≡ mode_of s d.session_records
  mode-set id rec d e = by_session s
    where
      by_session :
          (s : Option String)
          → mode_of s (set id rec d.session_records) ≡ mode_of s d.session_records
      by_session none = refl
      by_session (some j) =
          rw (mode_of, get-set id j rec d.session_records)
            (elim (Bool-cases (id == j)) [
              | inl t ↦ rw t (e ∙ ap (λ i. mode_of (some i) d.session_records) ((==_iff id j).0 t))
              | inr t ↦ rw t refl
            ])

  record_for_mode :
      (id : String) (d : Daemon)
      → (record_for id d).permission_mode ≡ mode_of (some id) d.session_records
  unfolding record_for
  record_for_mode id d = elim (Option-cases (get id d.session_records)) [
    | inl n ↦ rw (n, record_for, mode_of) refl
    | inr (rec, e) ↦ rw (e, record_for, mode_of) refl
  ]

  mode-set_status :
      (session : Option String) (status : SessionStatus) (d : Daemon)
      → mode_of s (set_status session status d).session_records ≡ mode_of s d.session_records
  unfolding set_status
  mode-set_status none status d = refl
  mode-set_status (some id) status d =
      mode-set id (record (record_for id d) { status = status }) d (record_for_mode id d)

  mode-record_entry :
      (session : Option String) (e : HistoryEntry) (d : Daemon)
      → mode_of s (record_entry session e d).session_records ≡ mode_of s d.session_records
  unfolding record_entry
  mode-record_entry none e d = refl
  mode-record_entry (some id) e d = mode-set id _ d (record_for_mode id d)

  mode-in_transcript :
      (id : String) (f : List HistoryEntry → List HistoryEntry) (d : Daemon)
      → mode_of s (in_transcript id f d).session_records ≡ mode_of s d.session_records
  mode-in_transcript id f d = elim (Option-cases (get id d.session_records)) [
    | inl n ↦ rw (n, in_transcript) refl
    | inr (rec, e) ↦
        rw (e, in_transcript)
          (mode-set id (record rec { transcript = f rec.transcript }) d (rw (e, mode_of) refl))
  ]

  mode-settle_permission_entry :
      (session : Option String) (r : String) (v : Verdict) (d : Daemon)
      → mode_of s (settle_permission_entry session r v d).session_records
        ≡ mode_of s d.session_records
  unfolding settle_permission_entry
  mode-settle_permission_entry none r v d = refl
  mode-settle_permission_entry (some id) r v d =
      let f = decide_entry r v in
      mode-set_status (some id) SessionStatus.running (in_transcript id f d)
      ∙ mode-in_transcript id f d

  mode-settle_question_entry :
      (session : Option String) (r : String) (given : Option (List AnswerItem)) (d : Daemon)
      → mode_of s (settle_question_entry session r given d).session_records
        ≡ mode_of s d.session_records
  unfolding settle_question_entry
  mode-settle_question_entry none r given d = refl
  mode-settle_question_entry (some id) r given d =
      let f = recorded_answers r given in
      mode-set_status (some id) SessionStatus.running (in_transcript id f d)
      ∙ mode-in_transcript id f d

  mode-request_permission :
      (session : Option String) (r : PermissionRequest) (d : Daemon)
      → mode_of s (request_permission session r d).session_records ≡ mode_of s d.session_records
  unfolding request_permission open_gate
  mode-request_permission session r d = elim (Option-cases (auto_approve_by_policy session r d)) [
    | inl n ↦
        rw (n, request_permission)
          (let entry : HistoryEntry = permission (record {
            request_id = r.request_id;
            tool_name = r.tool_name;
            input = r.input;
            diff_stat = r.diff_stat;
            decision = Verdict.pending;
            ts = r.ts;
          }) in
            mode-set_status session SessionStatus.awaiting_input (record_entry session entry d)
            ∙ mode-record_entry session entry d)
    | inr (decision, e) ↦ rw (e, request_permission) refl
  ]

  mode-request_question_answer :
      (session : Option String) (q : Question) (d : Daemon)
      → mode_of s (request_question_answer session q d).session_records
        ≡ mode_of s d.session_records
  unfolding request_question_answer
  mode-request_question_answer session q d =
      let entry : HistoryEntry = question (record {
        request_id = q.request_id;
        questions = q.questions;
        answers = none;
        ts = q.ts;
      }) in
      mode-set_status session SessionStatus.awaiting_input (record_entry session entry d)
      ∙ mode-record_entry session entry d

  mode-permission_timed_out :
      (r : String) (d : Daemon)
      → mode_of s (permission_timed_out r d).session_records ≡ mode_of s d.session_records
  unfolding permission_timed_out
  mode-permission_timed_out r d = elim (Option-cases (get r d.pending_permissions)) [
    | inl n ↦ rw (n, permission_timed_out) refl
    | inr (session, e) ↦
        rw (e, permission_timed_out)
          (mode-settle_permission_entry session r Verdict.deny (without_permission r d))
  ]

  mode-question_timed_out :
      (r : String) (d : Daemon)
      → mode_of s (question_timed_out r d).session_records ≡ mode_of s d.session_records
  unfolding question_timed_out
  mode-question_timed_out r d = elim (Option-cases (get r d.pending_questions)) [
    | inl n ↦ rw (n, question_timed_out) refl
    | inr (session, e) ↦
        rw (e, question_timed_out)
          (mode-settle_question_entry session r none (without_question r d))
  ]

  mode-decision_received :
      (session : Option String) (payload : Json) (d : Daemon)
      → mode_of s (decision_received session payload d).session_records
        ≡ mode_of s d.session_records
  unfolding decision_received
  mode-decision_received session payload d =
      elim (Option-cases (permission_decision_payload payload)) [
        | inl n ↦ rw (n, decision_received) refl
        | inr ((r, decision), e) ↦ elim (Option-cases (get r d.pending_permissions)) [
          | inl n ↦ rw (e, n, decision_received) refl
          | inr (owner, o) ↦
              rw (e, o, decision_received)
                (mode-settle_permission_entry session r (verdict_of decision)
                  (without_permission r d))
        ]
      ]

  mode-answer_received :
      (session : Option String) (payload : Json) (d : Daemon)
      → mode_of s (answer_received session payload d).session_records ≡ mode_of s d.session_records
  unfolding answer_received
  mode-answer_received session payload d = elim (Option-cases (question_answer_payload payload)) [
    | inl n ↦ rw (n, answer_received) refl
    | inr ((r, given), e) ↦ elim (Option-cases (get r d.pending_questions)) [
      | inl n ↦ rw (e, n, answer_received) refl
      | inr (owner, o) ↦
          rw (e, o, answer_received)
            (mode-settle_question_entry session r (some given) (without_question r d))
    ]
  ]

  mode-stop_turn :
      (id reason : String) (d : Daemon)
      → mode_of s (stop_turn id reason d).session_records ≡ mode_of s d.session_records
  unfolding stop_turn
  mode-stop_turn id reason d =
      mode-in_transcript id (deny_entries (filter (is_owned_by id) d.pending_permissions)) d

  mode-handle_control :
      (session : Option String) (action : ControlAction) (in_flight : Bool) (d : Daemon)
      → mode_of s (handle_control session action in_flight d).session_records
        ≡ mode_of s d.session_records
  unfolding handle_control
  mode-handle_control none action in_flight d = refl
  mode-handle_control (some id) ControlAction.interrupt in_flight d =
      mode-stop_turn id "interrupted by operator" d
  mode-handle_control (some id) ControlAction.end true d =
      mode-stop_turn id "session ended by operator" (marked id d)
  mode-handle_control (some id) ControlAction.end false d =
      mode-set_status (some id) SessionStatus.done
        (stop_turn id "session ended by operator" (marked id d))
      ∙ mode-stop_turn id "session ended by operator" (marked id d)

  mode-control_received :
      (session : Option String) (payload : Json) (in_flight : Bool) (d : Daemon)
      → mode_of s (control_received session payload in_flight d).session_records
        ≡ mode_of s d.session_records
  unfolding control_received
  mode-control_received session payload in_flight d =
      elim (Option-cases (control_payload payload)) [
        | inl n ↦ rw (n, control_received) refl
        | inr (action, e) ↦
            rw (e, control_received) (mode-handle_control session action in_flight d)
      ]

  mode-run_op :
      (op : GateOp) (d : Daemon)
      → mode_of s (run_op op d).session_records ≡ mode_of s d.session_records
  unfolding run_op stop
  mode-run_op (tool_requested session r) d = mode-request_permission session r d
  mode-run_op (question_raised session q) d = mode-request_question_answer session q d
  mode-run_op (permission_timeout r) d = mode-permission_timed_out r d
  mode-run_op (question_timeout r) d = mode-question_timed_out r d
  mode-run_op (decision_arrived session payload) d = mode-decision_received session payload d
  mode-run_op (answer_arrived session payload) d = mode-answer_received session payload d
  mode-run_op (control_arrived session payload in_flight) d =
      mode-control_received session payload in_flight d
  mode-run_op stopping d = refl

  -- Whatever happens at the gates, a session's mode is that of the records at the start.
  pub run-IsModeOf :
      (records : List (String × SessionRecord)) (log : List GateOp)
      → IsModeOf records s (mode_of s (run records log).session_records)
  unfolding run
  run-IsModeOf records [] = started-IsModeOf records s
  run-IsModeOf records (op ∷ log) =
      subst (IsModeOf records s) (sym (mode-run_op op (run records log))) (run-IsModeOf records log)
