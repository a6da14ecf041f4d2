-- ===== src/Web/Inbox/Exact.antt =====
-- apps/web/src/lib/inbox.ts: the inbox has exactly the open asks, the oldest first.
use telecode.Base.{String, Option, none, some, List, [], ◌∷◌, ◌++◌}
use telecode.Web.Transcript.{
  TranscriptEntry, SessionState, permission, question, handover, DecisionState, AnswerState,
  HandoverState,
}
use telecode.Web.Inbox.{InboxAsk}

-- The request of an ask that still waits for the human or for the daemon.
abbrev pub open_request : TranscriptEntry → Option String
open_request (permission p) = elim p.decision [
  | DecisionState.approved ↦ none
  | DecisionState.rejected ↦ none
  | _ ↦ some p.request_id
]
open_request (question q) = elim q.answer [
  | AnswerState.answered ↦ none
  | AnswerState.closed ↦ none
  | _ ↦ some q.request_id
]
open_request (handover h) = elim h.state [
  | HandoverState.submitted ↦ none
  | HandoverState.closed ↦ none
  | _ ↦ some h.request_id
]
open_request _ = none

abbrev pub open_requests : String → List TranscriptEntry → List (String × String)
open_requests id [] = []
open_requests id (e ∷ entries) =
    let rest = open_requests id entries in
    elim (open_request e) [ none ↦ rest | some r ↦ (id, r) ∷ rest ]

abbrev pub all_open : List (String × SessionState) → List (String × String)
all_open [] = []
all_open ((id, s) ∷ live) = open_requests id s.entries ++ all_open live

abbrev pub named : InboxAsk → String × String
named a = (a.session_id, a.request_id)
