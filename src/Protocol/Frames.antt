-- ===== src/Protocol/Frames.antt =====
-- packages/protocol/src/session.ts: the payloads that a session's transcript is made of, and the
-- schemas by which a browser reads them.
use telecode.Base.{
  ℕ, String, Bool, ◌&&◌, ◌||◌, Option, none, some, List, [], ◌∷◌, if◌then◌else◌, leb, length,
  is_some, or_else, string_eq,
}
use telecode.Base.Text.{units}
use telecode.Protocol.Json.{Json, Items, Fields, json_text, boolean, array, item, exhausted, prop}
use telecode.Protocol.Payload.{
  ◌>>=◌, nonempty_text, any_text, text_within, fields_of, optional, natural_of, one_of,
}

-- `z.string().max(max)`.
text_up_to : ℕ → Json → Option String
unfolding units
text_up_to max (json_text s) = if leb (units s) max then some s else none
text_up_to max _ = none

boolean_of : Json → Option Bool
boolean_of (boolean b) = some b
boolean_of _ = none

list_of : {A : Type 0} → (Json → Option A) → Items → Option (List A)
list_of p exhausted = some []
list_of p (item j rest) = do a ← p j; rest' ← list_of p rest; some (a ∷ rest')

-- `z.array(schema)`.
unfoldable pub array_of : {A : Type 0} → (Json → Option A) → Json → Option (List A)
unfolding list_of
array_of p (array items) = list_of p items
array_of p _ = none

-- `.min(least).max(most)` of an array.
unfoldable pub sized : {A : Type 0} → ℕ → ℕ → List A → Option (List A)
sized least most list =
    if leb least (length list) && leb (length list) most then some list else none

unfoldable pub timestamp : Fields → Option (Option ℕ)
unfolding prop
timestamp fields = optional natural_of (prop "ts" fields)

pub record DiffStat : Type 0 where
  pub added : ℕ
  pub removed : ℕ

unfoldable pub diff_stat : Json → Option DiffStat
unfolding prop
diff_stat j = do
  fields ← fields_of j
  added ← prop "added" fields >>= natural_of
  removed ← prop "removed" fields >>= natural_of
  some (record { added = added; removed = removed })

pub record QuestionOption : Type 0 where
  pub label : String
  pub description : Option String

question_option : Json → Option QuestionOption
unfolding prop text_within text_up_to
question_option j = do
  fields ← fields_of j
  label ← prop "label" fields >>= text_within 256
  description ← optional (text_up_to 2000) (prop "description" fields)
  some (record { label = label; description = description })

pub record QuestionItem : Type 0 where
  pub question : String
  pub header : String
  pub multi_select : Bool
  pub options : List QuestionOption

unfoldable pub question_item : Json → Option QuestionItem
unfolding prop text_within boolean_of array_of sized question_option
question_item j = do
  fields ← fields_of j
  question ← prop "question" fields >>= text_within 4000
  header ← prop "header" fields >>= text_within 120
  multi_select ← prop "multiSelect" fields >>= boolean_of
  options ← prop "options" fields >>= array_of question_option >>= sized 1 20
  some (record {
    question = question;
    header = header;
    multi_select = multi_select;
    options = options;
  })

pub record AnswerItem : Type 0 where
  pub selected_labels : List String
  pub other_text : Option String

-- The refinement: at least a label or a text.
refined : AnswerItem → Option AnswerItem
refined a = if leb 1 (length a.selected_labels) || is_some a.other_text then some a else none

-- `questionAnswerItemSchema`, whose labels are by default none.
unfoldable pub answer_item : Json → Option AnswerItem
unfolding refined prop text_within array_of sized
answer_item j = do
  fields ← fields_of j
  labels ←
      optional (λ v. array_of (text_within 256) v >>= sized 0 20) (prop "selectedLabels" fields)
  other ← optional (text_within 4000) (prop "otherText" fields)
  refined (record { selected_labels = or_else labels []; other_text = other })

unfoldable pub notice_payload : Json → Option String
unfolding prop text_within
notice_payload j = do fields ← fields_of j; prop "message" fields >>= text_within 2000

-- `relayErrorPayloadSchema`: the type of the frame that was not delivered.
unfoldable pub relay_error_payload : Json → Option String
unfolding prop one_of
relay_error_payload j = do
  fields ← fields_of j
  code ← prop "code" fields >>= one_of ("device_offline" ∷ [])
  prop "regarding" fields >>= nonempty_text

pub record AgentMessage : Type 0 where
  pub text : String
  pub ts : Option ℕ

unfoldable pub message_payload : Json → Option AgentMessage
unfolding prop any_text timestamp
message_payload j = do
  fields ← fields_of j
  text ← prop "text" fields >>= any_text
  ts ← timestamp fields
  some (record { text = text; ts = ts })

pub record ToolUse : Type 0 where
  pub tool_name : String
  pub input : Fields
  pub ts : Option ℕ

unfoldable pub tool_use_payload : Json → Option ToolUse
unfolding prop timestamp
tool_use_payload j = do
  fields ← fields_of j
  tool_name ← prop "toolName" fields >>= nonempty_text
  input ← prop "input" fields >>= fields_of
  ts ← timestamp fields
  some (record { tool_name = tool_name; input = input; ts = ts })

pub record PermissionRequest : Type 0 where
  pub request_id : String
  pub tool_name : String
  pub input : Fields
  pub diff_stat : Option DiffStat
  pub ts : Option ℕ

unfoldable pub permission_payload : Json → Option PermissionRequest
unfolding prop timestamp diff_stat
permission_payload j = do
  fields ← fields_of j
  request_id ← prop "requestId" fields >>= nonempty_text
  tool_name ← prop "toolName" fields >>= nonempty_text
  input ← prop "input" fields >>= fields_of
  stat ← optional diff_stat (prop "diffStat" fields)
  ts ← timestamp fields
  some (record {
    request_id = request_id;
    tool_name = tool_name;
    input = input;
    diff_stat = stat;
    ts = ts;
  })

pub record Question : Type 0 where
  pub request_id : String
  pub questions : List QuestionItem
  pub ts : Option ℕ

unfoldable pub question_payload : Json → Option Question
unfolding prop timestamp array_of sized question_item
question_payload j = do
  fields ← fields_of j
  request_id ← prop "requestId" fields >>= nonempty_text
  questions ← prop "questions" fields >>= array_of question_item >>= sized 1 10
  ts ← timestamp fields
  some (record { request_id = request_id; questions = questions; ts = ts })

pub record Handover : Type 0 where
  pub request_id : String
  pub question : String
  pub summary : String
  pub ts : Option ℕ

unfoldable pub handover_payload : Json → Option Handover
unfolding prop timestamp text_within text_up_to
handover_payload j = do
  fields ← fields_of j
  request_id ← prop "requestId" fields >>= nonempty_text
  question ← prop "question" fields >>= text_within 8000
  summary ← prop "summary" fields >>= text_up_to 8000
  ts ← timestamp fields
  some (record { request_id = request_id; question = question; summary = summary; ts = ts })
