-- ===== src/Relay/Cache/Bounds.antt =====
-- The cache stays within its bounds.
use telecode.Base.{
  ℕ, ◌+◌, ◌-◌, ◌≤◌, max, String, ◌≡◌, some, [], ◌∷◌, arith, leb, length, length-append, All, ◌==◌,
  string_eq, Bool-cases, Option-cases, inl, inr, ==-self,
}
use telecode.Base.Dict.{get, set, delete, has, length-set, length-delete-le}
use telecode.Protocol.Message.{MessageType}
use telecode.Relay.Cache.{
  Entry, Cache, new_entry, record_frame, evict_oldest, make_room, cache_frame,
}

abbrev IsShort : ℕ → String × Entry → Type 0
IsShort max_frames (session, e) = length e.stream ≤ max_frames

pub record IsBounded (max_frames max_sessions : ℕ) (cache : Cache) : Type 0 where
  pub sessions : length cache ≤ max 1 max_sessions
  pub frames : All (IsShort max_frames) cache

module _ (max_frames : ℕ) where
  record_frame-short :
      (type : MessageType) (frame : String) (e : Entry)
      → length e.stream ≤ max_frames
      → length (record_frame max_frames type frame e).stream ≤ max_frames
  unfolding record_frame
  record_frame-short MessageType.session_key frame e h = h
  record_frame-short MessageType.session_changes frame e h = ground arith
  record_frame-short MessageType.session_meta frame e h = h
  record_frame-short _ frame e h = ground (arith, length-append e.stream (frame ∷ []))

  All-set :
      (session : String) (e : Entry) (cache : Cache)
      → length e.stream ≤ max_frames
      → All (IsShort max_frames) cache
      → All (IsShort max_frames) (set session e cache)
  unfolding set
  All-set session e [] h a = (h, tt)
  All-set session e ((j, x) ∷ cache) h a = elim (Bool-cases (j == session)) [
    | inl same ↦ rw same (h, a.1)
    | inr other ↦ rw other (a.0, All-set session e cache h a.1)
  ]

  All-delete :
      (session : String) (cache : Cache)
      → All (IsShort max_frames) cache
      → All (IsShort max_frames) (delete session cache)
  unfolding delete
  All-delete session [] a = tt
  All-delete session ((j, x) ∷ cache) a = elim (Bool-cases (j == session)) [
    | inl same ↦ rw same (All-delete session cache a.1)
    | inr other ↦ rw other (a.0, All-delete session cache a.1)
  ]

  All-get :
      (session : String) (e : Entry) (cache : Cache)
      → All (IsShort max_frames) cache
      → get session cache ≡ some e
      → length e.stream ≤ max_frames
  unfolding get
  All-get session e [] a h = cc
  All-get session e ((j, x) ∷ cache) a h = ground (arith, All-get session e cache a.1)

  All-make_room :
      (max_sessions : ℕ) (cache : Cache)
      → All (IsShort max_frames) cache
      → All (IsShort max_frames) (make_room max_sessions cache)
  All-make_room max_sessions cache a = elim (Bool-cases (leb max_sessions (length cache))) [
    | inl full ↦ rw full (evicted cache a)
    | inr free ↦ rw free a
  ]
    where
      evicted : (c : Cache) → All (IsShort max_frames) c → All (IsShort max_frames) (evict_oldest c)
      evicted [] b = tt
      evicted ((k, x) ∷ c) b = All-delete k ((k, x) ∷ c) b

length-evict_oldest : (cache : Cache) → length (evict_oldest cache) ≤ length cache - 1
unfolding delete
length-evict_oldest [] = omega arith
length-evict_oldest ((k, e) ∷ cache) = ground (arith, ==-self k, length-delete-le k cache)

length-set_le :
    (session : String) (e : Entry) (cache : Cache) → length (set session e cache) ≤ length cache + 1
length-set_le session e cache = ground (arith, length-set session e cache)

length-set_found :
    (session : String) (e x : Entry) (cache : Cache)
    → get session cache ≡ some x
    → length (set session e cache) ≡ length cache
unfolding has
length-set_found session e x cache h = ground (arith, length-set session e cache)

-- Caching a frame keeps at most `max_sessions` sessions, one where that is 0, and at most
-- `max_frames` frames in the stream of each.
pub cache_frame-IsBounded :
    (max_frames max_sessions : ℕ) (session channel : String) (type : MessageType) (frame : String)
    (cache : Cache)
    → IsBounded max_frames max_sessions cache
    → IsBounded max_frames max_sessions
        (cache_frame max_frames max_sessions session channel type frame cache)
unfolding cache_frame
cache_frame-IsBounded max_frames max_sessions session channel type frame cache b =
    elim (Option-cases (get session cache)) [
      | inl e ↦
          rw (e, cache_frame)
            (record {
              sessions = ground (
                arith,
                length-set_le session (record_frame max_frames type frame (new_entry channel))
                    (make_room max_sessions cache),
                length-evict_oldest cache,
              );
              frames =
                  All-set max_frames session _ _
                    (record_frame-short max_frames type frame (new_entry channel) (omega arith))
                    (All-make_room max_frames max_sessions cache b.frames);
            })
      | inr (x, e) ↦
          rw (e, cache_frame)
            (record {
              sessions = omega (
                arith,
                length-set_found session (record_frame max_frames type frame x) x cache e,
              );
              frames =
                  All-set max_frames session _ cache
                    (record_frame-short max_frames type frame x
                      (All-get max_frames session x cache b.frames e))
                    b.frames;
            })
    ]
