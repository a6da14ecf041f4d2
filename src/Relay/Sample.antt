-- ===== src/Relay/Sample.antt =====
-- A small state of the relay for its tests: Ann's laptop, which has a daemon and one browser, and Bob.
use telecode.Base.{
  ℕ, String, true, false, Option, none, some, [], ◌∷◌, ◌==◌, string_eq, nat_eq, if◌then◌else◌,
}
use telecode.Base.Ranks.{rank}
use telecode.Protocol.Json.{Json, json_text, array, object, item, exhausted, field, empty}
use telecode.Protocol.Message.{MessageType}
use telecode.Protocol.Payload.{Role, daemon, browser}
use telecode.Protocol.Status.{SessionStatus, SessionOrigin}
use telecode.Sessions.{Row, Table}
use telecode.Devices.{Device}
use telecode.Relay.Hub.{Envelope, Peer, Hub, Environment, channel_key}

abbrev pub env : Environment
env = record {
  is_uuid = λ s. true;
  uuid_value = rank;
  stringify = λ j. "{}";
  verify_channel_token = λ token. if token == "ann-token" then some "ann" else none;
  hash = λ token. token;
  fails_to_receive = λ socket. false;
  max_frames = 2;
  max_sessions = 2;
}

abbrev pub row : String → String → SessionStatus → ℕ → Row
row id user status at = record {
  id = id;
  user_id = user;
  device_id = "laptop";
  title = none;
  status = status;
  origin = SessionOrigin.launched;
  parent_session_id = none;
  cwd = none;
  sealed_meta = none;
  sealed_meta_nonce = none;
  sealed_title = none;
  sealed_title_nonce = none;
  archived_at = none;
  created_at = at;
  updated_at = at;
  ended_at = none;
}

abbrev pub rows : Table
rows =
    row "s1" "ann" SessionStatus.running 10
    ∷ row "s2" "ann" SessionStatus.awaiting_input 12
    ∷ row "s3" "ann" SessionStatus.starting 14
    ∷ row "s4" "bob" SessionStatus.running 11
    ∷ []

abbrev pub peer : Role → String → Peer
peer role user = record {
  role = role;
  channel = channel_key user "laptop";
  user_id = user;
  device_id = "laptop";
}

-- Socket 1 is the daemon, 2 the browser.
abbrev pub hub : Hub
hub = record {
  daemons = ("ann:laptop", 1) ∷ [];
  browsers = ("ann:laptop", 2 ∷ []) ∷ [];
  peers = (1, peer daemon "ann") ∷ (2, peer browser "ann") ∷ [];
  cache = [];
  sessions = rows;
  devices = [];
  sent = [];
  closed = [];
  pushed = [];
}

abbrev pub envelope : MessageType → String → Option String → Json → Envelope
envelope type user session payload = record {
  user_id = user;
  device_id = "laptop";
  session_id = session;
  type = type;
  nonce = "";
  status = none;
  sender_public_key = none;
  payload = payload;
}

abbrev pub held : Json
held = object (field "heldSessionIds" (array (item (json_text "s1") exhausted)) empty)

abbrev pub reconcile : Envelope
reconcile = envelope MessageType.session_reconcile "ann" none held

abbrev pub answer : Envelope
answer = envelope MessageType.question_answer "ann" (some "s2") (object empty)

abbrev pub forged : Envelope
forged = envelope MessageType.session_ended "bob" (some "s4") (object empty)

abbrev pub browser_hello : Envelope
browser_hello =
    envelope MessageType.hello "ann" none
      (object (field "role" (json_text "browser") (field "token" (json_text "ann-token") empty)))

-- The laptop's row, and a daemon's hello with its token.
abbrev pub laptop : Device
laptop = record {
  id = "laptop";
  user_id = "ann";
  name = "Ann's laptop";
  public_key = none;
  os = none;
  device_token_hash = "dt";
  last_seen_at = none;
  revoked_at = none;
  created_at = 1;
}

abbrev pub daemon_hello : Envelope
daemon_hello =
    envelope MessageType.hello "ann" none
      (object (field "role" (json_text "daemon") (field "token" (json_text "dt") empty)))
