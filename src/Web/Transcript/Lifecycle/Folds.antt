-- ===== src/Web/Transcript/Lifecycle/Folds.antt =====
-- apps/web/src/lib/session.ts: what each case of applyEnvelope does to the entries.
use telecode.Base.{
  ℕ, suc, [], ◌∷◌, ◌++◌, length, ◌≡◌, ◌∙◌, refl, sym, inl, inr, arith, Bool-cases, Option-cases,
  subst, ◌==◌, ◌&&◌, ltb, nat_eq,
}
use telecode.Base.Pointwise.{Pointwise, Pointwise-map, Pointwise-map-map}
use telecode.Protocol.Message.{MessageType}
use telecode.Protocol.Envelope.{Envelope}
use telecode.Protocol.Frames.{
  notice_payload, message_payload, tool_use_payload, permission_payload, question_payload,
  handover_payload,
}
use telecode.Protocol.History.{history_payload}
use telecode.Web.Transcript.{
  numbered, TranscriptEntry, SessionState, confirm, close_gate, confirm_in_flight_actions,
  close_open_gates,
}
use telecode.Web.Transcript.Fold.{
  append_entry, append_ask, fold_delivered, fold_notice, fold_started, fold_message, fold_tool_use,
  fold_permission, fold_question, fold_handover, fold_status, fold_ended, fold_history,
  confirmed_base,
}
use telecode.Web.Transcript.Log.{ViewOp, received}
use telecode.Web.Transcript.Lifecycle.{
  IsDelivered, IsEnd, Evolves, Advances, kept, grown, rebuilt, key_of, IsPending,
}
use telecode.Web.Transcript.Lifecycle.Moves.{confirm-Evolves, close_gate-confirm-Evolves}

confirmed :
    (op : ViewOp)
    → IsDelivered op
    → (type : MessageType) (s : SessionState)
    → Pointwise (Evolves op) s.entries (confirmed_base type s).entries
unfolding confirmed_base confirm_in_flight_actions
confirmed op d type s = Pointwise-map confirm (confirm-Evolves op d) s.entries

-- The frames that leave the confirmed entries alone.
module _ (op : ViewOp) (d : IsDelivered op) (type : MessageType) (s : SessionState) where
  unchanged :
      (t : SessionState)
      → t.entries ≡ (confirmed_base type s).entries
      → t.seq ≡ s.seq
      → Advances op s t
  unchanged t e k = kept (rw e (confirmed op d type s)) k

  appended :
      (x : TranscriptEntry) (t : SessionState)
      → t.entries ≡ (confirmed_base type s).entries ++ (x ∷ [])
      → t.seq ≡ suc s.seq
      → key_of x ≡ numbered s.seq
      → IsPending x
      → Advances op s t
  appended x t e k own new =
      grown (confirmed_base type s).entries x (confirmed op d type s) own new e k

  fold_message-Advances :
      (now : ℕ) (e : Envelope) → Advances op s (fold_message now e (confirmed_base type s))
  unfolding fold_message append_entry confirmed_base
  fold_message-Advances now e = elim (Option-cases (message_payload e.payload)) [
    | inl n ↦ rw (n, fold_message) (unchanged _ refl refl)
    | inr (p, h) ↦ rw (h, fold_message) (appended _ _ refl refl refl tt)
  ]

  fold_tool_use-Advances :
      (now : ℕ) (e : Envelope) → Advances op s (fold_tool_use now e (confirmed_base type s))
  unfolding fold_tool_use append_entry confirmed_base
  fold_tool_use-Advances now e = elim (Option-cases (tool_use_payload e.payload)) [
    | inl n ↦ rw (n, fold_tool_use) (unchanged _ refl refl)
    | inr (p, h) ↦ rw (h, fold_tool_use) (appended _ _ refl refl refl tt)
  ]

  fold_permission-Advances :
      (now : ℕ) (e : Envelope) → Advances op s (fold_permission now e (confirmed_base type s))
  unfolding fold_permission append_ask append_entry confirmed_base
  fold_permission-Advances now e = elim (Option-cases (permission_payload e.payload)) [
    | inl n ↦ rw (n, fold_permission) (unchanged _ refl refl)
    | inr (p, h) ↦ rw (h, fold_permission) (appended _ _ refl refl refl refl)
  ]

  fold_question-Advances :
      (now : ℕ) (e : Envelope) → Advances op s (fold_question now e (confirmed_base type s))
  unfolding fold_question append_ask append_entry confirmed_base
  fold_question-Advances now e = elim (Option-cases (question_payload e.payload)) [
    | inl n ↦ rw (n, fold_question) (unchanged _ refl refl)
    | inr (p, h) ↦ rw (h, fold_question) (appended _ _ refl refl refl refl)
  ]

  fold_handover-Advances :
      (now : ℕ) (e : Envelope) → Advances op s (fold_handover now e (confirmed_base type s))
  unfolding fold_handover append_ask append_entry confirmed_base
  fold_handover-Advances now e = elim (Option-cases (handover_payload e.payload)) [
    | inl n ↦ rw (n, fold_handover) (unchanged _ refl refl)
    | inr (p, h) ↦ rw (h, fold_handover) (appended _ _ refl refl refl refl)
  ]

  fold_notice-Advances : (e : Envelope) → Advances op s (fold_notice e (confirmed_base type s))
  unfolding fold_notice confirmed_base
  fold_notice-Advances e = elim (Option-cases (notice_payload e.payload)) [
    | inl n ↦ rw (n, fold_notice) (unchanged _ refl refl)
    | inr (p, h) ↦ rw (h, fold_notice) (unchanged _ refl refl)
  ]

  fold_status-Advances : (e : Envelope) → Advances op s (fold_status e (confirmed_base type s))
  unfolding fold_status confirmed_base
  fold_status-Advances e = unchanged _ (ground arith) (ground arith)

  fold_ended-Advances :
      (e : Envelope) → IsEnd op → Advances op s (fold_ended e (confirmed_base type s))
  unfolding fold_ended confirmed_base confirm_in_flight_actions close_open_gates
  fold_ended-Advances e n =
      kept (Pointwise-map-map confirm close_gate (close_gate-confirm-Evolves op d n) s.entries) refl

  fold_history-Advances :
      (now : ℕ) (e : Envelope)
      → op ≡ received now e
      → e.type ≡ MessageType.session_history
      → Advances op s (fold_history e (confirmed_base type s))
  unfolding fold_history confirmed_base
  fold_history-Advances now e o k = elim (Option-cases (history_payload e.payload)) [
    | inl n ↦ rw (n, fold_history) (unchanged _ refl refl)
    | inr (p, h) ↦
        elim (Bool-cases
          (length p.entries == 0 && ltb 0 (length (confirmed_base type s).entries))) [
            | inl t ↦ rw (h, t, fold_history) (unchanged _ refl refl)
            | inr t ↦ rw (h, t, fold_history) (rebuilt o k h refl refl)
          ]
  ]

  pub fold_delivered-Advances :
      (now : ℕ) (e : Envelope)
      → op ≡ received now e
      → e.type ≡ type
      → Advances op s (fold_delivered type now e (confirmed_base type s))
  unfolding fold_delivered
  fold_delivered-Advances now e o k = by_type type refl
    where
      by_type :
          (u : MessageType)
          → type ≡ u
          → Advances op s (fold_delivered u now e (confirmed_base type s))
      by_type MessageType.agent_notice u = fold_notice-Advances e
      by_type MessageType.session_started u =
          unchanged _ (unfold fold_started in refl) (unfold fold_started confirmed_base in refl)
      by_type MessageType.agent_message u = fold_message-Advances now e
      by_type MessageType.agent_tool_use u = fold_tool_use-Advances now e
      by_type MessageType.agent_permission_request u = fold_permission-Advances now e
      by_type MessageType.agent_question u = fold_question-Advances now e
      by_type MessageType.agent_handover u = fold_handover-Advances now e
      by_type MessageType.session_status u = fold_status-Advances e
      by_type MessageType.session_ended u = fold_ended-Advances e (subst IsEnd (sym o) (k ∙ u))
      by_type MessageType.session_history u = fold_history-Advances now e o (k ∙ u)
      by_type _ u = unchanged _ refl (unfold confirmed_base in refl)
