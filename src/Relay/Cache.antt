-- ===== src/Relay/Cache.antt =====
-- apps/relay/src/relay.ts: the bounded per-session ciphertext cache. Frames are the forwarded texts.
pub mod Bounds
pub mod Channels
pub mod Latest
use telecode.Base.{
  ℕ, ◌+◌, ◌*◌, String, Bool, true, false, ◌≡◌, Option, none, some, List, [], ◌∷◌, ◌++◌,
  if◌then◌else◌, ltb, leb, length, ◌==◌, string_eq,
}
use telecode.Base.Dict.{get, set, delete}
use telecode.Base.Text.{units}
use telecode.Protocol.Message.{MessageType}

-- CACHEABLE_TYPES.
abbrev pub is_cacheable : MessageType → Bool
is_cacheable MessageType.session_started = true
is_cacheable MessageType.agent_message = true
is_cacheable MessageType.agent_tool_use = true
is_cacheable MessageType.agent_permission_request = true
is_cacheable MessageType.agent_question = true
is_cacheable MessageType.agent_handover = true
is_cacheable MessageType.session_ended = true
is_cacheable MessageType.session_key = true
is_cacheable MessageType.session_meta = true
is_cacheable MessageType.session_changes = true
is_cacheable _ = false

-- MAX_CACHED_CHANGES_FRAME_CHARS.
abbrev pub max_cached_changes_frame_chars : ℕ
max_cached_changes_frame_chars = 256 * 1024

pub record Entry : Type 0 where
  pub channel : String
  pub key : Option String
  pub meta : Option String
  pub changes : Option String
  pub stream : List String

abbrev pub Cache : Type 0
Cache = List (String × Entry)

abbrev pub new_entry : String → Entry
new_entry channel = record {
  channel = channel;
  key = none;
  meta = none;
  changes = none;
  stream = [];
}

-- `Array.prototype.shift`.
abbrev pub shift : List String → List String
shift [] = []
shift (f ∷ fs) = fs

abbrev pub push_bounded : ℕ → List String → String → List String
push_bounded max_frames stream frame =
    let pushed = stream ++ frame ∷ [] in
    if ltb max_frames (length pushed) then shift pushed else pushed

-- The slot that a frame of each type goes to.
unfoldable pub record_frame : ℕ → MessageType → String → Entry → Entry
unfolding units
record_frame max_frames MessageType.session_key frame e = record e { key = some frame }
record_frame max_frames MessageType.session_meta frame e = record e { meta = some frame }
record_frame max_frames MessageType.session_changes frame e =
    if leb (units frame) max_cached_changes_frame_chars
    then record e { changes = some frame }
    else e
record_frame max_frames _ frame e = record e { stream = push_bounded max_frames e.stream frame }

-- The first key of a `Map` is the oldest.
abbrev pub evict_oldest : Cache → Cache
evict_oldest [] = []
evict_oldest ((oldest, e) ∷ cache) = delete oldest ((oldest, e) ∷ cache)

abbrev pub make_room : ℕ → Cache → Cache
make_room max_sessions cache = if leb max_sessions (length cache) then evict_oldest cache else cache

unfoldable pub cache_frame : ℕ → ℕ → String → String → MessageType → String → Cache → Cache
unfolding get set delete
cache_frame max_frames max_sessions session channel type frame cache = elim (get session cache) [
  | none ↦
      set session (record_frame max_frames type frame (new_entry channel))
        (make_room max_sessions cache)
  | some e ↦ set session (record_frame max_frames type frame e) cache
]

abbrev pub option_list : Option String → List String
option_list none = []
option_list (some frame) = frame ∷ []

abbrev pub entry_frames : Entry → List String
entry_frames e = option_list e.key ++ (option_list e.meta ++ (option_list e.changes ++ e.stream))

-- What a subscribing browser on `channel` is sent.
unfoldable pub replay_cache : String → String → Cache → List String
unfolding get
replay_cache session channel cache = elim (get session cache) [
  | none ↦ []
  | some e ↦ if e.channel == channel then entry_frames e else []
]
