-- ===== src/Protocol.antt =====
-- packages/protocol/src: the wire contract that the web app, the relay and the daemon share.
pub mod Status
pub mod Message
pub mod Json
pub mod Envelope
pub mod Payload
pub mod Prompt
pub mod Frames
pub mod History
pub mod Replies
