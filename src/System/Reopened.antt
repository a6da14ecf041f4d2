-- ===== src/System/Reopened.antt =====
-- A question that a session's end has left without an answer, in a view that is backfilled later.
use telecode.Base.{
  ℕ, String, true, false, Option, none, some, List, [], ◌∷◌, filter, ◌≡◌, ◌∙◌, refl, sym, ap, subst,
  inl, inr, In, Bool-cases, ◌==◌, string_eq,
}
use telecode.Base.Dict.{get}
use telecode.Protocol.Message.{MessageType}
use telecode.Protocol.Envelope.{Envelope}
use telecode.Protocol.Status.{SessionStatus}
use telecode.Protocol.Replies.{ControlAction}
use telecode.Protocol.History.{
  HistoryEntry, Verdict, RecordedQuestion, permission, question, history_payload,
}
use telecode.Daemon.Gates.{SessionRecord, Daemon, history_payload_for, decide_entry}
use telecode.Daemon.Gates.Settle.{is_owned_by, deny_entries, stop_turn, handle_control}
use telecode.Web.Transcript.{TranscriptEntry, SessionState, is_ended, QuestionEntry, AnswerState}
use telecode.Web.Transcript.Fold.{apply_envelope}
use telecode.System.Backfill.{
  map_history-question, backfilled, history_of_held, In-length, get-set_status, get-in_transcript,
}

In-decide_entry :
    (r : String) (v : Verdict) (q : RecordedQuestion) (es : List HistoryEntry)
    → In (question q) es
    → In (question q) (decide_entry r v es)
unfolding decide_entry
In-decide_entry r v q [] m = absurd m
In-decide_entry r v q (permission p ∷ es) (inl e) = absurd cc
In-decide_entry r v q (permission p ∷ es) (inr m) = elim (Bool-cases (p.request_id == r)) [
  | inl t ↦ rw t (inr m)
  | inr t ↦ rw t (inr (In-decide_entry r v q es m))
]
In-decide_entry r v q (_ ∷ es) (inl e) = inl e
In-decide_entry r v q (_ ∷ es) (inr m) = inr (In-decide_entry r v q es m)

In-deny_entries :
    (gates : List (String × Option String)) (q : RecordedQuestion) (es : List HistoryEntry)
    → In (question q) es
    → In (question q) (deny_entries gates es)
unfolding deny_entries
In-deny_entries [] q es m = m
In-deny_entries ((r, owner) ∷ gates) q es m =
    In-deny_entries gates q (decide_entry r Verdict.deny es) (In-decide_entry r Verdict.deny q es m)

-- When the operator ends a session in which no turn is in flight while a question is without an
-- answer, a view that is backfilled with the daemon's record afterwards shows the session as ended
-- and that question as pending.
pub ended_question_reopens :
    (id : String) (d : Daemon) (rec : SessionRecord) (q : RecordedQuestion) (now : ℕ) (e : Envelope)
    (s : SessionState)
    → get id d.session_records ≡ some rec
    → In (question q) rec.transcript
    → q.answers ≡ none
    → e.type ≡ MessageType.session_history
    → history_payload e.payload
      ≡ some (history_payload_for (some id) (handle_control (some id) ControlAction.end false d))
    → let t = apply_envelope now e s in
      (is_ended t.status ≡ true)
      × (x : QuestionEntry) × In (TranscriptEntry.question x) t.entries
      × (x.request_id ≡ q.request_id)
      × (x.answer ≡ AnswerState.pending)
unfolding handle_control stop_turn
ended_question_reopens id d rec q now e s hr hi hn ht hh =
    let gates = filter (is_owned_by id) d.pending_permissions in
    let ended = record d { ended_sessions = id ∷ d.ended_sessions } in
    let stopped = stop_turn id "session ended by operator" ended in
    let held : get id stopped.session_records
        ≡ some (record rec { transcript = deny_entries gates rec.transcript }) =
      get-in_transcript id (deny_entries gates) ended rec hr in
    let done = get-set_status id SessionStatus.done stopped _ held in
    let sent = history_of_held id (handle_control (some id) ControlAction.end false d) _ done in
    let recorded = In-deny_entries gates q rec.transcript hi in
    let shown = backfilled now e _ s ht (hh ∙ ap some sent) (In-length _ _ recorded) in
    let (x, entry, request, open_) = map_history-question 0 q _ recorded hn in
    (
      rw shown.1 refl,
      x,
      subst (λ es. In (TranscriptEntry.question x) es) (sym shown.0) entry,
      request,
      open_,
    )
