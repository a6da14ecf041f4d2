-- ===== src/Protocol/History.antt =====
-- packages/protocol/src/session.ts: the payload of `session.history`.
use telecode.Base.{ℕ, String, Option, none, some, List, if◌then◌else◌, leb, length, ◌==◌, string_eq}
use telecode.Protocol.Status.{SessionStatus, session_status_of_text}
use telecode.Protocol.Json.{Json, Fields, json_text, prop}
use telecode.Protocol.Payload.{◌>>=◌, nonempty_text, any_text, fields_of, optional}
use telecode.Protocol.Frames.{
  DiffStat, QuestionItem, AnswerItem, array_of, timestamp, diff_stat, question_item, answer_item,
}

-- The recorded verdict of a gate.
pub data Verdict : Type 0 where
  pending allow deny : Verdict

verdict_of : Json → Option Verdict
verdict_of (json_text s) =
    if s == "pending"
    then some pending
    else if s == "allow"
    then some allow
    else if s == "deny"
    then some deny
    else none
verdict_of _ = none

pub record RecordedPermission : Type 0 where
  pub request_id : String
  pub tool_name : String
  pub input : Fields
  pub diff_stat : Option DiffStat
  pub decision : Verdict
  pub ts : Option ℕ

pub record RecordedQuestion : Type 0 where
  pub request_id : String
  pub questions : List QuestionItem
  pub answers : Option (List AnswerItem)
  pub ts : Option ℕ

pub record RecordedHandover : Type 0 where
  pub request_id : String
  pub question : String
  pub summary : String
  pub answer_text : Option String
  pub ts : Option ℕ

-- `sessionHistoryEntrySchema`.
pub data HistoryEntry : Type 0 where
  user : (text : String) (ts : Option ℕ) → HistoryEntry
  message : (text : String) (ts : Option ℕ) → HistoryEntry
  tool : (tool_name : String) (input : Fields) (ts : Option ℕ) → HistoryEntry
  permission : RecordedPermission → HistoryEntry
  question : RecordedQuestion → HistoryEntry
  handover : RecordedHandover → HistoryEntry

recorded_permission : Fields → Option HistoryEntry
unfolding prop timestamp diff_stat verdict_of
recorded_permission fields = do
  request_id ← prop "requestId" fields >>= nonempty_text
  tool_name ← prop "toolName" fields >>= nonempty_text
  input ← prop "input" fields >>= fields_of
  stat ← optional diff_stat (prop "diffStat" fields)
  decision ← prop "decision" fields >>= verdict_of
  ts ← timestamp fields
  some (
      permission (record {
        request_id = request_id;
        tool_name = tool_name;
        input = input;
        diff_stat = stat;
        decision = decision;
        ts = ts;
      }))

-- `.min(1)` of an array.
nonempty : {A : Type 0} → List A → Option (List A)
nonempty list = if leb 1 (length list) then some list else none

recorded_question : Fields → Option HistoryEntry
unfolding prop timestamp array_of nonempty question_item answer_item
recorded_question fields = do
  request_id ← prop "requestId" fields >>= nonempty_text
  questions ← prop "questions" fields >>= array_of question_item >>= nonempty
  given ← optional (array_of answer_item) (prop "answers" fields)
  ts ← timestamp fields
  some (
      question
        (record { request_id = request_id; questions = questions; answers = given; ts = ts }))

recorded_handover : Fields → Option HistoryEntry
unfolding prop timestamp any_text
recorded_handover fields = do
  request_id ← prop "requestId" fields >>= nonempty_text
  asked ← prop "question" fields >>= nonempty_text
  summary ← prop "summary" fields >>= any_text
  answer_text ← optional nonempty_text (prop "answerText" fields)
  ts ← timestamp fields
  some (
      handover (record {
        request_id = request_id;
        question = asked;
        summary = summary;
        answer_text = answer_text;
        ts = ts;
      }))

recorded_text : (String → Option ℕ → HistoryEntry) → Fields → Option HistoryEntry
unfolding prop timestamp any_text
recorded_text make fields = do
  s ← prop "text" fields >>= any_text
  ts ← timestamp fields
  some (make s ts)

recorded_tool : Fields → Option HistoryEntry
unfolding prop timestamp
recorded_tool fields = do
  tool_name ← prop "toolName" fields >>= nonempty_text
  input ← prop "input" fields >>= fields_of
  ts ← timestamp fields
  some (tool tool_name input ts)

-- The union is discriminated by `kind`.
by_kind : String → Fields → Option HistoryEntry
unfolding recorded_text recorded_tool recorded_permission recorded_question recorded_handover
by_kind kind fields =
    if kind == "user"
    then recorded_text user fields
    else if kind == "message"
    then recorded_text message fields
    else if kind == "tool"
    then recorded_tool fields
    else if kind == "permission"
    then recorded_permission fields
    else if kind == "question"
    then recorded_question fields
    else if kind == "handover"
    then recorded_handover fields
    else none

unfoldable pub history_entry : Json → Option HistoryEntry
unfolding prop by_kind any_text
history_entry j = do
  fields ← fields_of j
  kind ← prop "kind" fields >>= any_text
  by_kind kind fields

status_of : Json → Option SessionStatus
unfolding session_status_of_text
status_of (json_text s) = session_status_of_text s
status_of _ = none

pub record History : Type 0 where
  pub status : SessionStatus
  pub entries : List HistoryEntry

unfoldable pub history_payload : Json → Option History
unfolding prop status_of array_of history_entry
history_payload j = do
  fields ← fields_of j
  status ← prop "status" fields >>= status_of
  entries ← prop "entries" fields >>= array_of history_entry
  some (record { status = status; entries = entries })
