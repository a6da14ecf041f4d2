-- ===== src/Web/Transcript/Actions.antt =====
-- apps/web/src/lib/session.ts: what the human does in the view, and the link to a continuation.
use telecode.Base.{
  ℕ, String, Bool, true, false, not, Option, some, List, [], ◌∷◌, map, find, reverse, is_some,
  if◌then◌else◌, ◌&&◌, ◌==◌, string_eq,
}
use telecode.Protocol.Status.{SessionStatus}
use telecode.Protocol.Frames.{AnswerItem}
use telecode.Web.Transcript.{
  wire, DecisionState, AnswerState, HandoverState, TranscriptEntry, SessionState, user, permission,
  question, handover,
}
use telecode.Web.Transcript.Fold.{append_entry}

unfoldable pub append_user_message : ℕ → String → SessionState → SessionState
unfolding append_entry
append_user_message now said s =
    append_entry (λ id. user (record { id = id; text = said; at = some now })) s

-- `'allow' | 'deny'`.
pub data Behavior : Type 0 where
  allow deny : Behavior

unfoldable pub decide : String → Behavior → TranscriptEntry → TranscriptEntry
decide request behavior (permission p) = permission (
    if p.request_id == request
    then record p {
      decision = elim behavior [
        | Behavior.allow ↦ DecisionState.approving
        | Behavior.deny ↦ DecisionState.rejecting
      ];
    }
    else p)
decide request behavior e = e

unfoldable pub mark_deciding : String → Behavior → SessionState → SessionState
unfolding decide
mark_deciding request behavior s = record s {
  status = wire SessionStatus.running;
  entries = map (decide request behavior) entries;
}
  where
    open s use {entries}

unfoldable pub give_answers : String → List AnswerItem → TranscriptEntry → TranscriptEntry
give_answers request answers (question q) = question (
    if q.request_id == request
    then record q { answer = AnswerState.answering; answers = some answers }
    else q)
give_answers request answers e = e

unfoldable pub mark_answering : String → List AnswerItem → SessionState → SessionState
unfolding give_answers
mark_answering request answers s = record s {
  status = wire SessionStatus.running;
  entries = map (give_answers request answers) entries;
}
  where
    open s use {entries}

unfoldable pub take_over : String → String → TranscriptEntry → TranscriptEntry
take_over request reply (handover h) = handover (
    if h.request_id == request
    then record h { state = HandoverState.submitting; answer_text = some reply }
    else h)
take_over request reply e = e

unfoldable pub mark_handover_submitting : String → String → SessionState → SessionState
unfolding take_over
mark_handover_submitting request reply s = record s {
  entries = map (take_over request reply) entries;
}
  where
    open s use {entries}

abbrev is_pending_permission : TranscriptEntry → Bool
is_pending_permission (permission p) = elim p.decision [ DecisionState.pending ↦ true | _ ↦ false ]
is_pending_permission _ = false

unfoldable pub pending_permission : SessionState → Option TranscriptEntry
pending_permission s = find is_pending_permission s.entries

abbrev is_pending_question : TranscriptEntry → Bool
is_pending_question (question q) = elim q.answer [ AnswerState.pending ↦ true | _ ↦ false ]
is_pending_question _ = false

unfoldable pub pending_question : SessionState → Option TranscriptEntry
pending_question s = find is_pending_question s.entries

abbrev is_pending_handover : TranscriptEntry → Bool
is_pending_handover (handover h) = elim h.state [ HandoverState.pending ↦ true | _ ↦ false ]
is_pending_handover _ = false

unfoldable pub pending_handover : SessionState → Option TranscriptEntry
pending_handover s = find is_pending_handover s.entries

abbrev pub is_taken_over : HandoverState → Bool
is_taken_over HandoverState.submitting = true
is_taken_over HandoverState.submitted = true
is_taken_over _ = false

unfoldable pub is_linkable : TranscriptEntry → Bool
is_linkable (handover h) = not (is_some h.child_session_id) && is_taken_over h.state
is_linkable _ = false

abbrev pub with_child : String → TranscriptEntry → TranscriptEntry
with_child child (handover h) = handover (record h { child_session_id = some child })
with_child child e = e

-- The pass over the entries, the newest first, with the flag `linked`.
unfoldable pub link_first : String → List TranscriptEntry → List TranscriptEntry × Bool
unfolding is_linkable
link_first child [] = ([], false)
link_first child (e ∷ es) =
    let rest = link_first child es in
    if is_linkable e then (with_child child e ∷ es, true) else (e ∷ rest.0, rest.1)

unfoldable pub link_handover_child : String → SessionState → SessionState
unfolding link_first
link_handover_child child s =
    let linked = link_first child (reverse s.entries) in
    if linked.1 then record s { entries = reverse linked.0 } else s
