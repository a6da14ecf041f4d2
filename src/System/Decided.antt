-- ===== src/System/Decided.antt =====
-- A permission from the view's click to the daemon's record and back to a reloaded view.
use telecode.Base.{
  ℕ, String, Option, none, some, List, [], ◌∷◌, ◌≡◌, ◌∙◌, refl, sym, ap, subst, inl, inr, In,
  Bool-cases, ◌==◌, ==_iff, string_eq,
}
use telecode.Base.Dict.{get, delete}
use telecode.Protocol.Json.{Json}
use telecode.Protocol.Message.{MessageType}
use telecode.Protocol.Envelope.{Envelope}
use telecode.Protocol.Status.{SessionStatus}
use telecode.Protocol.Replies.{OperatorDecision, permission_decision_payload}
use telecode.Protocol.History.{
  HistoryEntry, Verdict, RecordedPermission, permission, history_payload,
}
use telecode.Daemon.Gates.{
  Decision, permission_resolved, SessionRecord, Daemon, history_payload_for, decide_entry,
  settle_permission_entry, in_transcript, resolve,
}
use telecode.Daemon.Gates.Settle.{decision_received, to_permission_decision, verdict_of}
use telecode.Web.Transcript.{
  TranscriptEntry, SessionState, wire, PermissionEntry, DecisionState, recorded_decision,
}
use telecode.Web.Transcript.Fold.{apply_envelope}
use telecode.System.Backfill.{
  map_history-permission, backfilled, history_of_held, In-length, get-set_status, get-in_transcript,
}

In-decide_entry :
    (r : String) (v : Verdict) (p : RecordedPermission) (es : List HistoryEntry)
    → In (permission p) es
    → p.request_id ≡ r
    → (x : RecordedPermission) × In (permission x) (decide_entry r v es)
      × (x.request_id ≡ r)
      × (x.decision ≡ v)
unfolding decide_entry
In-decide_entry r v p [] m e = absurd m
In-decide_entry r v p (f ∷ es) (inl q) e =
    rw (← q) (rw ((==_iff p.request_id r).1 e) (_, inl refl, e, refl))
In-decide_entry r v p (permission f ∷ es) (inr m) e = elim (Bool-cases (f.request_id == r)) [
  | inl t ↦ rw t (_, inl refl, (==_iff f.request_id r).0 t, refl)
  | inr t ↦ rw t (let (x, k, i, d) = In-decide_entry r v p es m e in (x, inr k, i, d))
]
In-decide_entry r v p (_ ∷ es) (inr m) e =
    let (x, k, i, d) = In-decide_entry r v p es m e in (x, inr k, i, d)

-- What a reply makes of the gate, and what a view shows of it.
abbrev pub IsOutcome : OperatorDecision → Decision → DecisionState → Type 0
IsOutcome (OperatorDecision.allow input) resolution shown =
    (resolution ≡ Decision.allow input) × (shown ≡ DecisionState.approved)
IsOutcome (OperatorDecision.deny (some message)) resolution shown =
    (resolution ≡ Decision.deny message) × (shown ≡ DecisionState.rejected)
IsOutcome (OperatorDecision.deny none) resolution shown =
    (resolution ≡ Decision.deny "Denied by the operator") × (shown ≡ DecisionState.rejected)

decision-IsOutcome :
    (reply : OperatorDecision)
    → IsOutcome reply (to_permission_decision reply) (recorded_decision (verdict_of reply))
unfolding to_permission_decision
decision-IsOutcome (OperatorDecision.allow input) = (refl, refl)
decision-IsOutcome (OperatorDecision.deny (some message)) = (refl, refl)
decision-IsOutcome (OperatorDecision.deny none) = (refl, refl)

-- The operator's reply to a gate of a session that the daemon holds, with the gate's entry in its
-- record: where the reply allows the request, the gate is resolved with an allowance and the reply's
-- input, and any view that is then backfilled with the daemon's record shows the request as approved;
-- where it denies it, the gate is resolved with a denial and the reply's message, or a fixed one if it
-- has none, and the view shows the request as rejected; and the view's session is running.
pub decision_is_shown :
    (id r : String) (payload : Json) (decision : OperatorDecision) (d : Daemon)
    (rec : SessionRecord) (p : RecordedPermission) (owner : Option String) (now : ℕ) (e : Envelope)
    (s : SessionState)
    → permission_decision_payload payload ≡ some (r, decision)
    → get r d.pending_permissions ≡ some owner
    → get id d.session_records ≡ some rec
    → In (permission p) rec.transcript
    → p.request_id ≡ r
    → e.type ≡ MessageType.session_history
    → history_payload e.payload
      ≡ some (history_payload_for (some id) (decision_received (some id) payload d))
    → let t = apply_envelope now e s in
      (resolution : Decision) × (x : PermissionEntry) × In
        (permission_resolved r resolution)
        (decision_received (some id) payload d).resolved
      × (t.status ≡ wire SessionStatus.running)
      × In (TranscriptEntry.permission x) t.entries
      × (x.request_id ≡ r)
      × IsOutcome decision resolution x.decision
unfolding decision_received settle_permission_entry
decision_is_shown id r payload decision d rec p owner now e s hp hg hr hi hq ht hh =
    let v = verdict_of decision in
    let taken = record d { pending_permissions = delete r d.pending_permissions } in
    let resolution = permission_resolved r (to_permission_decision decision) in
    let settled = resolve resolution (settle_permission_entry (some id) r v taken) in
    let same : decision_received (some id) payload d ≡ settled =
      rw (hp, hg, decision_received) refl in
    let held =
      get-set_status id SessionStatus.running (in_transcript id (decide_entry r v) taken) _
        (get-in_transcript id (decide_entry r v) taken rec hr) in
    let sent = ap (history_payload_for (some id)) same ∙ history_of_held id settled _ held in
    let (x, recorded, named, verdict) = In-decide_entry r v p rec.transcript hi hq in
    let shown = backfilled now e _ s ht (hh ∙ ap some sent) (In-length _ _ recorded) in
    let (y, entry, same_request, same_verdict) = map_history-permission 0 x _ recorded in
    (
      to_permission_decision decision,
      y,
      subst (λ (b : Daemon). In resolution b.resolved) (sym same) (inl refl),
      shown.1,
      subst (λ es. In (TranscriptEntry.permission y) es) (sym shown.0) entry,
      same_request ∙ named,
      subst (IsOutcome decision (to_permission_decision decision))
          (sym (same_verdict ∙ ap recorded_decision verdict)) (decision-IsOutcome decision),
    )
