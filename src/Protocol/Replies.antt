-- ===== src/Protocol/Replies.antt =====
-- packages/protocol/src/session.ts: the operator's replies and controls, and their schemas.
use telecode.Base.{String, Option, none, some, List, if◌then◌else◌, ◌==◌, string_eq}
use telecode.Protocol.Json.{Json, Fields, json_text, prop}
use telecode.Protocol.Payload.{◌>>=◌, nonempty_text, any_text, fields_of, optional}
use telecode.Protocol.Frames.{AnswerItem, array_of, answer_item, sized}

-- What `permission.decision` says on `behavior`.
pub data OperatorDecision : Type 0 where
  allow : (updated_input : Option Fields) → OperatorDecision
  deny : (message : Option String) → OperatorDecision

by_behavior : String → Fields → Option OperatorDecision
unfolding prop any_text
by_behavior behavior fields =
    if behavior == "allow"
    then optional fields_of (prop "updatedInput" fields) >>= (λ input. some (allow input))
    else if behavior == "deny"
    then optional any_text (prop "message" fields) >>= (λ message. some (deny message))
    else none

unfoldable pub permission_decision_payload : Json → Option (String × OperatorDecision)
unfolding prop any_text by_behavior
permission_decision_payload j = do
  fields ← fields_of j
  behavior ← prop "behavior" fields >>= any_text
  request_id ← prop "requestId" fields >>= nonempty_text
  decision ← by_behavior behavior fields
  some (request_id, decision)

unfoldable pub question_answer_payload : Json → Option (String × List AnswerItem)
unfolding prop array_of answer_item sized
question_answer_payload j = do
  fields ← fields_of j
  request_id ← prop "requestId" fields >>= nonempty_text
  given ← prop "answers" fields >>= array_of answer_item >>= sized 1 10
  some (request_id, given)

pub data ControlAction : Type 0 where
  end interrupt : ControlAction

action_of : Json → Option ControlAction
action_of (json_text s) =
    if s == "end" then some end else if s == "interrupt" then some interrupt else none
action_of _ = none

unfoldable pub control_payload : Json → Option ControlAction
unfolding prop action_of
control_payload j = do fields ← fields_of j; prop "action" fields >>= action_of
