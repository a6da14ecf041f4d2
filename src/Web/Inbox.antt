-- ===== src/Web/Inbox.antt =====
-- apps/web/src/lib/inbox.ts: the asks that wait for the human, over the live sessions.
pub mod Exact
use telecode.Base.{
  ℕ, String, Bool, true, false, Option, none, some, List, [], ◌∷◌, ◌++◌, leb, or_else,
  if◌then◌else◌,
}
use telecode.Base.Sorting.{sort_by}
use telecode.Protocol.Json.{Fields}
use telecode.Protocol.Frames.{DiffStat, QuestionItem}
use telecode.Web.Transcript.{
  TranscriptEntry, SessionState, PermissionEntry, QuestionEntry, HandoverEntry, DecisionState,
  AnswerState, HandoverState,
}
use telecode.Web.Rows.{pick_display_title, first_real_prompt_text}

-- What the three kinds of ask do not share.
pub data Ask : Type 0 where
  permission :
      (tool_name : String) (input : Fields) (diff_stat : Option DiffStat) (decision : DecisionState)
      → Ask
  question : (prompt : String) → Ask
  handover : (question : String) → Ask

pub record InboxAsk : Type 0 where
  pub session_id : String
  pub session_title : Option String
  pub device_name : Option String
  pub request_id : String
  pub asked_at : Option ℕ
  pub ask : Ask

pub record AskContext : Type 0 where
  pub session_id : String
  pub session_title : Option String
  pub device_name : Option String

abbrev ask_in : AskContext → String → Option ℕ → Ask → InboxAsk
ask_in context request at ask = record {
  session_id = context.session_id;
  session_title = context.session_title;
  device_name = context.device_name;
  request_id = request;
  asked_at = at;
  ask = ask;
}

unfoldable pub permission_ask : PermissionEntry → AskContext → Option InboxAsk
permission_ask p context = elim p.decision [
  | DecisionState.approved ↦ none
  | DecisionState.rejected ↦ none
  | d ↦ some (ask_in context p.request_id p.at (Ask.permission p.tool_name p.input p.diff_stat d))
]

abbrev first_prompt : List QuestionItem → String
first_prompt [] = "The agent has a question for you."
first_prompt (q ∷ qs) = q.question

unfoldable pub question_ask : QuestionEntry → AskContext → Option InboxAsk
question_ask q context = elim q.answer [
  | AnswerState.answered ↦ none
  | AnswerState.closed ↦ none
  | _ ↦ some (ask_in context q.request_id q.at (Ask.question (first_prompt q.questions)))
]

unfoldable pub handover_ask : HandoverEntry → AskContext → Option InboxAsk
handover_ask h context = elim h.state [
  | HandoverState.submitted ↦ none
  | HandoverState.closed ↦ none
  | _ ↦ some (ask_in context h.request_id h.at (Ask.handover h.question))
]

unfoldable pub ask_for : TranscriptEntry → AskContext → Option InboxAsk
unfolding permission_ask question_ask handover_ask
ask_for (TranscriptEntry.permission p) context = permission_ask p context
ask_for (TranscriptEntry.question q) context = question_ask q context
ask_for (TranscriptEntry.handover h) context = handover_ask h context
ask_for _ context = none

unfoldable pub asks_of : List TranscriptEntry → AskContext → List InboxAsk
unfolding ask_for
asks_of [] context = []
asks_of (e ∷ entries) context =
    let rest = asks_of entries context in
    elim (ask_for e context) [ none ↦ rest | some a ↦ a ∷ rest ]

-- Waited longest first; an unknown time counts as 0.
abbrev pub by_asked_at : InboxAsk → InboxAsk → Bool
by_asked_at a b = leb (or_else a.asked_at 0) (or_else b.asked_at 0)

module _ (title_of device_name_of : String → Option String) where
  -- The two loops, over the sessions and over their entries.
  unfoldable pub collect_asks : List (String × SessionState) → List InboxAsk
  unfolding asks_of pick_display_title first_real_prompt_text
  collect_asks [] = []
  collect_asks ((id, state) ∷ live) =
      asks_of state.entries (record {
        session_id = id;
        session_title =
            pick_display_title (title_of id ∷ first_real_prompt_text state.entries ∷ []);
        device_name = device_name_of id;
      })
      ++ collect_asks live

  unfoldable pub build_inbox_asks : List (String × SessionState) → List InboxAsk
  unfolding collect_asks sort_by
  build_inbox_asks live = sort_by by_asked_at (collect_asks live)
