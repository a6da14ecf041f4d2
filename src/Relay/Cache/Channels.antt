-- ===== src/Relay/Cache/Channels.antt =====
-- Which channels' frames a subscriber can be sent.
use telecode.Base.{
  ℕ, suc, ◌<◌, String, Bool, true, false, ◌≡◌, refl, ap, sym, map, filter, ◌∙◌, some, List, [], ◌∷◌,
  ◌++◌, arith, ltb, leb, length, All, All-append, In, In-append_right, ◌==◌, string_eq, eq_iff,
  Bool-cases, Option-cases, inl, inr, ==-self, subst,
}
use mathlib.Core.Option.{some-injective}
use telecode.Base.Dict.{get, set, delete, get-set}
use telecode.Protocol.Message.{MessageType}
use telecode.Relay.Cache.{
  Entry, Cache, new_entry, push_bounded, shift, record_frame, evict_oldest, make_room, cache_frame,
  entry_frames, option_list, replay_cache,
}

-- A frame that a daemon on a channel sends for a session.
pub record Arrival : Type 0 where
  pub session : String
  pub channel : String
  pub type : MessageType
  pub frame : String

unfoldable pub cache_all : ℕ → ℕ → List Arrival → Cache → Cache
cache_all max_frames max_sessions [] cache = cache
cache_all max_frames max_sessions (a ∷ arrivals) cache =
    cache_all max_frames max_sessions arrivals
      (cache_frame max_frames max_sessions a.session a.channel a.type a.frame cache)

-- The types whose frames go to the ring.
abbrev pub is_streamed : MessageType → Bool
is_streamed MessageType.session_key = false
is_streamed MessageType.session_meta = false
is_streamed MessageType.session_changes = false
is_streamed _ = true

module _ (owner : String → String) (Sent : String → String → Type 0) where
  abbrev IsOwned : String × Entry → Type 0
  IsOwned (session, e) =
      (e.channel ≡ owner session)
      × All (Sent e.channel) (option_list e.key)
      × All (Sent e.channel) (option_list e.meta)
      × All (Sent e.channel) (option_list e.changes)
      × All (Sent e.channel) e.stream

  abbrev IsHonest : Arrival → Type 0
  IsHonest a = (a.channel ≡ owner a.session) × Sent a.channel a.frame

  All-shift : (P : String → Type 0) (fs : List String) → All P fs → All P (shift fs)
  All-shift P [] h = h
  All-shift P (f ∷ fs) h = h.1

  push_bounded-All :
      (P : String → Type 0) (max_frames : ℕ) (stream : List String) (frame : String)
      → All P stream
      → P frame
      → All P (push_bounded max_frames stream frame)
  push_bounded-All P max_frames stream frame h k =
      let pushed = All-append P stream (frame ∷ []) h (k, tt) in
      ground (arith, pushed, All-shift P (stream ++ frame ∷ []) pushed)

  record_frame-IsOwned :
      (max_frames : ℕ) (session : String) (type : MessageType) (frame : String) (e : Entry)
      → IsOwned (session, e)
      → Sent e.channel frame
      → IsOwned (session, record_frame max_frames type frame e)
  unfolding record_frame
  record_frame-IsOwned max_frames session MessageType.session_key frame e h k =
      (h.0, (k, tt), h.2, h.3, h.4)
  record_frame-IsOwned max_frames session MessageType.session_meta frame e h k =
      (h.0, h.1, (k, tt), h.3, h.4)
  record_frame-IsOwned max_frames session MessageType.session_changes frame e h k = ground arith
  record_frame-IsOwned max_frames session _ frame e h k =
      (h.0, h.1, h.2, h.3, push_bounded-All (Sent e.channel) max_frames e.stream frame h.4 k)

  set-All :
      (session : String) (e : Entry) (cache : Cache)
      → IsOwned (session, e)
      → All IsOwned cache
      → All IsOwned (set session e cache)
  unfolding set
  set-All session e [] h a = (h, tt)
  set-All session e ((j, x) ∷ cache) h a = elim (Bool-cases (j == session)) [
    | inl same ↦ rw same (h, a.1)
    | inr other ↦ rw other (a.0, set-All session e cache h a.1)
  ]

  delete-All :
      (session : String) (cache : Cache) → All IsOwned cache → All IsOwned (delete session cache)
  unfolding delete
  delete-All session [] a = tt
  delete-All session ((j, x) ∷ cache) a = elim (Bool-cases (j == session)) [
    | inl same ↦ rw same (delete-All session cache a.1)
    | inr other ↦ rw other (a.0, delete-All session cache a.1)
  ]

  get-IsOwned :
      (session : String) (e : Entry) (cache : Cache)
      → All IsOwned cache
      → get session cache ≡ some e
      → IsOwned (session, e)
  unfolding get
  get-IsOwned session e [] a h = cc
  get-IsOwned session e ((j, x) ∷ cache) a h = elim (Bool-cases (j == session)) [
    | inl same ↦
        let here : x ≡ e = some-injective _ _ (rw (same, get) at h) in
        subst (λ y. IsOwned (session, y)) here
          (subst (λ k. IsOwned (k, x)) ((eq_iff j session).0 same) a.0)
    | inr other ↦ get-IsOwned session e cache a.1 (rw (other, get) at h)
  ]

  make_room-All :
      (max_sessions : ℕ) (cache : Cache)
      → All IsOwned cache
      → All IsOwned (make_room max_sessions cache)
  make_room-All max_sessions cache a = elim (Bool-cases (leb max_sessions (length cache))) [
    | inl full ↦ rw full (evicted cache a)
    | inr free ↦ rw free a
  ]
    where
      evicted : (c : Cache) → All IsOwned c → All IsOwned (evict_oldest c)
      evicted [] b = tt
      evicted ((k, x) ∷ c) b = delete-All k ((k, x) ∷ c) b

  cache_frame-All :
      (max_frames max_sessions : ℕ) (a : Arrival) (cache : Cache)
      → IsHonest a
      → All IsOwned cache
      → All IsOwned (cache_frame max_frames max_sessions a.session a.channel a.type a.frame cache)
  unfolding cache_frame
  cache_frame-All max_frames max_sessions a cache h c = elim (Option-cases (get a.session cache)) [
    | inl e ↦
        rw (e, cache_frame)
          (set-All a.session _ _
            (record_frame-IsOwned max_frames a.session a.type a.frame (new_entry a.channel)
              (h.0, tt, tt, tt, tt) h.1)
            (make_room-All max_sessions cache c))
    | inr (x, e) ↦
        let owned = get-IsOwned a.session x cache c e in
        rw (e, cache_frame)
          (set-All a.session _ cache
            (record_frame-IsOwned max_frames a.session a.type a.frame x owned
              (subst (λ ch. Sent ch a.frame) (h.0 ∙ sym owned.0) h.1))
            c)
  ]

  cache_all-All :
      (max_frames max_sessions : ℕ) (arrivals : List Arrival) (cache : Cache)
      → All IsHonest arrivals
      → All IsOwned cache
      → All IsOwned (cache_all max_frames max_sessions arrivals cache)
  unfolding cache_all
  cache_all-All max_frames max_sessions [] cache h c = c
  cache_all-All max_frames max_sessions (a ∷ arrivals) cache h c =
      cache_all-All max_frames max_sessions arrivals _ h.1
        (cache_frame-All max_frames max_sessions a cache h.0 c)

  replay-All :
      (session channel : String) (cache : Cache)
      → All IsOwned cache
      → All (Sent channel) (replay_cache session channel cache)
  unfolding replay_cache
  replay-All session channel cache c = elim (Option-cases (get session cache)) [
    | inl e ↦ rw (e, replay_cache) tt
    | inr (x, e) ↦
        rw (e, replay_cache)
          (elim (Bool-cases (x.channel == channel)) [
            | inl same ↦
                let (_, key, meta, changes, stream) = get-IsOwned session x cache c e in
                rw same (
                  subst (λ ch. All (Sent ch) (entry_frames x)) ((eq_iff _ _).0 same)
                    (All-append _ _ _ key
                      (All-append _ _ _ meta (All-append _ _ _ changes stream))))
            | inr other ↦ rw other tt
          ])
  ]

-- The frames that arrived on a channel.
abbrev pub arrived : String → List Arrival → List String
arrived channel arrivals = map (λ a. a.frame) (filter (λ a. a.channel == channel) arrivals)

In-arrived :
    (a : Arrival) (arrivals : List Arrival)
    → In a arrivals
    → In a.frame (arrived a.channel arrivals)
In-arrived a [] m = absurd m
In-arrived a (b ∷ arrivals) (inl e) =
    let same : (b.channel == a.channel) ≡ true =
      (eq_iff b.channel a.channel).1 (ap (λ (x : Arrival). x.channel) (sym e)) in
    rw same (inl (ap (λ (x : Arrival). x.frame) e))
In-arrived a (b ∷ arrivals) (inr m) = elim (Bool-cases (b.channel == a.channel)) [
  | inl same ↦ rw same (inr (In-arrived a arrivals m))
  | inr other ↦ rw other (In-arrived a arrivals m)
]

-- If every session's frames arrive on one channel, its owner's, then a subscriber is sent only
-- frames that arrived on its own channel, whichever session it names.
pub replay_cache-In-arrived :
    (owner : String → String) (max_frames max_sessions : ℕ) (arrivals : List Arrival)
    (session channel : String)
    → All (λ a. a.channel ≡ owner a.session) arrivals
    → All
        (λ frame. In frame (arrived channel arrivals))
        (replay_cache session channel (cache_all max_frames max_sessions arrivals []))
replay_cache-In-arrived owner max_frames max_sessions arrivals session channel h =
    replay-All owner Sent session channel _ (
      cache_all-All owner Sent max_frames max_sessions arrivals []
        (honest arrivals h (λ a m. In-arrived a arrivals m)) tt)
  where
    Sent : String → String → Type 0
    Sent ch frame = In frame (arrived ch arrivals)

    honest :
        (bs : List Arrival)
        → All (λ a. a.channel ≡ owner a.session) bs
        → ((a : Arrival) → In a bs → Sent a.channel a.frame)
        → All (IsHonest owner Sent) bs
    honest [] p q = tt
    honest (b ∷ bs) p q = ((p.0, q b (inl refl)), honest bs p.1 (λ a m. q a (inr m)))

pub record_frame-streamed :
    (max_frames : ℕ) (type : MessageType) (frame : String) (e : Entry)
    → is_streamed type ≡ true
    → record_frame max_frames type frame e
      ≡ record e { stream = push_bounded max_frames e.stream frame }
unfolding record_frame
record_frame-streamed max_frames MessageType.session_key frame e h = cc
record_frame-streamed max_frames MessageType.session_meta frame e h = cc
record_frame-streamed max_frames MessageType.session_changes frame e h = cc
record_frame-streamed max_frames _ frame e h = refl

In-push_bounded :
    (max_frames : ℕ) (stream : List String) (frame : String)
    → 0 < max_frames
    → In frame (push_bounded max_frames stream frame)
In-push_bounded max_frames [] frame h =
    let fits : ltb max_frames 1 ≡ false = ground arith in rw fits (inl refl)
In-push_bounded max_frames (f ∷ stream) frame h =
    let last = In-append_right frame stream (frame ∷ []) (inl refl) in
    elim (Bool-cases (ltb max_frames (suc (length (stream ++ frame ∷ []))))) [
      | inl full ↦ rw full last
      | inr free ↦ rw free (inr last)
    ]

-- The cache does not compare the channel of a frame with that of the session's entry: a streamed
-- frame that names a cached session is replayed to the subscribers of the channel that the entry was
-- made on, from whichever channel the frame arrived, if the ring holds any frame.
pub cache_frame_crosses :
    (max_frames max_sessions : ℕ) (session foreign : String) (type : MessageType) (frame : String)
    (cache : Cache) (e : Entry)
    → 0 < max_frames
    → is_streamed type ≡ true
    → get session cache ≡ some e
    → In frame (
        replay_cache session e.channel
          (cache_frame max_frames max_sessions session foreign type frame cache))
unfolding cache_frame replay_cache
cache_frame_crosses max_frames max_sessions session foreign type frame cache e pos streamed found =
    let after = get-set session session (record_frame max_frames type frame e) cache in
    let placed = In-push_bounded max_frames e.stream frame pos in
    rw (found, cache_frame)
      (rw
        (
          after,
          ==-self session,
          record_frame-streamed max_frames type frame e streamed,
          ==-self e.channel,
          replay_cache,
        )
        (In-append_right frame (option_list e.key) _ (
          In-append_right frame (option_list e.meta) _
            (In-append_right frame (option_list e.changes) _ placed))))
