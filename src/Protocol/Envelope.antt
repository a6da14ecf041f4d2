-- ===== src/Protocol/Envelope.antt =====
-- packages/protocol/src/envelope.ts: the frame that every message travels in.
use telecode.Base.{String, Option}
use telecode.Protocol.Json.{Json}
use telecode.Protocol.Message.{MessageType}
use telecode.Protocol.Status.{SessionStatus}

-- `Envelope`, less its version.
pub record Envelope : Type 0 where
  pub user_id : String
  pub device_id : String
  pub session_id : Option String
  pub type : MessageType
  pub nonce : String
  pub status : Option SessionStatus
  pub sender_public_key : Option String
  pub payload : Json
