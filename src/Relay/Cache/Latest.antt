-- ===== src/Relay/Cache/Latest.antt =====
-- What the cache holds of a session, against the whole history of its frames.
use telecode.Base.{
  ℕ, zero, suc, ◌-◌, ◌≤◌, String, Bool, true, false, ◌≡◌, refl, ap, sym, ◌∙◌, Option, none, some,
  List, [], ◌∷◌, ◌++◌, arith, if◌then◌else◌, ltb, leb, length, length-append, length-drop, drop,
  string_eq, Bool-cases, inl, inr, ==-self, append_assoc, append-nil,
}
use telecode.Base.Dict.{get, get-set}
use telecode.Base.Text.{units}
use telecode.Protocol.Message.{MessageType}
use telecode.Relay.Cache.{
  Entry, Cache, new_entry, push_bounded, shift, record_frame, cache_frame, option_list,
  replay_cache, max_cached_changes_frame_chars, make_room,
}
use telecode.Relay.Cache.Channels.{Arrival, cache_all, is_streamed}

abbrev pub History : Type 0
History = List (MessageType × String)

-- The frame of the last entry that passes a test.
abbrev pub latest : (MessageType → String → Bool) → History → Option String
latest p [] = none
latest p ((t, f) ∷ fs) = elim (latest p fs) [
  | none ↦ if p t f then some f else none
  | some g ↦ some g
]

abbrev pub is_key : MessageType → String → Bool
is_key MessageType.session_key f = true
is_key _ f = false

abbrev pub is_meta : MessageType → String → Bool
is_meta MessageType.session_meta f = true
is_meta _ f = false

abbrev pub is_small_changes : MessageType → String → Bool
is_small_changes MessageType.session_changes f = leb (units f) max_cached_changes_frame_chars
is_small_changes _ f = false

abbrev pub streamed : History → List String
streamed [] = []
streamed ((t, f) ∷ fs) = if is_streamed t then f ∷ streamed fs else streamed fs

abbrev pub last_n : ℕ → List String → List String
last_n n fs = drop (length fs - n) fs

drop-nil : (n : ℕ) → drop {A = String} n [] ≡ []
drop-nil zero = refl
drop-nil (suc n) = refl

drop-append : (n : ℕ) (xs ys : List String) → n ≤ length xs → drop n (xs ++ ys) ≡ drop n xs ++ ys
drop-append zero xs ys h = refl
drop-append (suc n) [] ys h = absurd (omega arith)
drop-append (suc n) (x ∷ xs) ys h = drop-append n xs ys (omega arith)

drop-suc : (n : ℕ) (xs : List String) → drop (suc n) xs ≡ shift (drop n xs)
drop-suc zero [] = refl
drop-suc zero (x ∷ xs) = refl
drop-suc (suc n) [] = refl
drop-suc (suc n) (x ∷ xs) = drop-suc n xs

-- Pushing onto a full ring forgets its oldest frame.
push_bounded-last_n :
    (n : ℕ) (xs : List String) (f : String)
    → push_bounded n (last_n n xs) f ≡ last_n n (xs ++ f ∷ [])
push_bounded-last_n n xs f = elim (Bool-cases (ltb (length xs) n)) [
  | inl short ↦
      let none_out : length xs - n ≡ 0 = ground arith in
      let still : length (xs ++ f ∷ []) - n ≡ 0 = ground (arith, length-append xs (f ∷ [])) in
      let fits : ltb n (length (xs ++ f ∷ [])) ≡ false =
        ground (arith, length-append xs (f ∷ [])) in
      rw (none_out, still, fits)
  | inr long ↦
      let one_more : length (xs ++ f ∷ []) - n ≡ suc (length xs - n) =
        ground (arith, length-append xs (f ∷ [])) in
      let full : ltb n (length (drop (length xs - n) xs ++ f ∷ [])) ≡ true =
        ground (
          arith,
          length-append (drop (length xs - n) xs) (f ∷ []),
          length-drop (length xs - n) xs,
        ) in
      rw (one_more, full)
        (sym (
          drop-suc (length xs - n) (xs ++ f ∷ [])
          ∙ ap shift (drop-append (length xs - n) xs (f ∷ []) (omega arith))))
]

latest-append :
    (p : MessageType → String → Bool) (fs : History) (t : MessageType) (f : String)
    → latest p (fs ++ (t, f) ∷ []) ≡ (if p t f then some f else latest p fs)
latest-append p [] t f = refl
latest-append p ((u, g) ∷ fs) t f = ground (arith, latest-append p fs t f)

streamed-append :
    (fs : History) (t : MessageType) (f : String)
    → streamed (fs ++ (t, f) ∷ []) ≡ (if is_streamed t then streamed fs ++ f ∷ [] else streamed fs)
streamed-append [] t f = refl
streamed-append ((u, g) ∷ fs) t f = elim (Bool-cases (is_streamed u)) [
  | inl in_ring ↦
      rw (in_ring, streamed-append fs t f)
        (elim (Bool-cases (is_streamed t)) [ inl e ↦ rw e | inr e ↦ rw e ])
  | inr other ↦ rw (other, streamed-append fs t f)
]

module _ (max_frames : ℕ) (channel : String) where
  abbrev pub of_history : History → Entry
  of_history fs = record {
    channel = channel;
    key = latest is_key fs;
    meta = latest is_meta fs;
    changes = latest is_small_changes fs;
    stream = last_n max_frames (streamed fs);
  }

  after_ring : History → MessageType → String → List String
  after_ring fs t f =
      if is_streamed t
      then push_bounded max_frames (last_n max_frames (streamed fs)) f
      else last_n max_frames (streamed fs)

  ring-append :
      (fs : History) (t : MessageType) (f : String)
      → last_n max_frames (streamed (fs ++ (t, f) ∷ [])) ≡ after_ring fs t f
  unfolding after_ring
  ring-append fs t f = rw (streamed-append fs t f) (elim (Bool-cases (is_streamed t)) [
    | inl e ↦ rw e (sym (push_bounded-last_n max_frames (streamed fs) f))
    | inr e ↦ rw e
  ])

  of_history-append :
      (fs : History) (t : MessageType) (f : String)
      → of_history (fs ++ (t, f) ∷ []) ≡ record {
        channel = channel;
        key = if is_key t f then some f else latest is_key fs;
        meta = if is_meta t f then some f else latest is_meta fs;
        changes = if is_small_changes t f then some f else latest is_small_changes fs;
        stream = after_ring fs t f;
      }
  of_history-append fs t f i = record {
    channel = channel;
    key = latest-append is_key fs t f i;
    meta = latest-append is_meta fs t f i;
    changes = latest-append is_small_changes fs t f i;
    stream = ring-append fs t f i;
  }

  record_frame-of_history :
      (fs : History) (t : MessageType) (f : String)
      → record_frame max_frames t f (of_history fs) ≡ of_history (fs ++ (t, f) ∷ [])
  unfolding record_frame after_ring
  record_frame-of_history fs MessageType.session_key f =
      sym (of_history-append fs MessageType.session_key f)
  record_frame-of_history fs MessageType.session_meta f =
      sym (of_history-append fs MessageType.session_meta f)
  record_frame-of_history fs MessageType.session_changes f =
      rw (of_history-append fs MessageType.session_changes f)
        (elim (Bool-cases (leb (units f) max_cached_changes_frame_chars)) [
          | inl e ↦ rw e
          | inr e ↦ rw e
        ])
  record_frame-of_history fs t f = sym (of_history-append fs t f)

  new_entry-of_history : new_entry channel ≡ of_history []
  new_entry-of_history i = record {
    channel = channel;
    key = none;
    meta = none;
    changes = none;
    stream = sym (drop-nil (0 - max_frames)) i;
  }

  abbrev pub arrivals : String → History → List Arrival
  arrivals session [] = []
  arrivals session ((t, f) ∷ fs) =
      record { session = session; channel = channel; type = t; frame = f } ∷ arrivals session fs

  module _ (max_sessions : ℕ) (session : String) where
    get-cache_frame :
        (before : History) (t : MessageType) (f : String) (cache : Cache)
        → get session cache ≡ some (of_history before)
        → get session (cache_frame max_frames max_sessions session channel t f cache)
          ≡ some (of_history (before ++ (t, f) ∷ []))
    unfolding cache_frame
    get-cache_frame before t f cache h =
        rw (h, cache_frame)
          (rw
            (
              get-set session session (record_frame max_frames t f (of_history before)) cache,
              ==-self session,
            )
            (ap some (record_frame-of_history before t f)))

    get-cache_frame_new :
        (t : MessageType) (f : String) (cache : Cache)
        → get session cache ≡ none
        → get session (cache_frame max_frames max_sessions session channel t f cache)
          ≡ some (of_history ((t, f) ∷ []))
    unfolding cache_frame
    get-cache_frame_new t f cache h =
        rw (h, cache_frame)
          (rw
            (
              get-set session session (record_frame max_frames t f (new_entry channel))
                  (make_room max_sessions cache),
              ==-self session,
            )
            (ap some (
              ap (record_frame max_frames t f) new_entry-of_history
              ∙ record_frame-of_history [] t f)))

    get-cache_all :
        (before fs : History) (cache : Cache)
        → get session cache ≡ some (of_history before)
        → get session (cache_all max_frames max_sessions (arrivals session fs) cache)
          ≡ some (of_history (before ++ fs))
    unfolding cache_all
    get-cache_all before [] cache h = rw (append-nil before) h
    get-cache_all before ((t, f) ∷ fs) cache h =
        let step : get session (cache_frame max_frames max_sessions session channel t f cache)
            ≡ some (of_history (before ++ (t, f) ∷ [])) =
          get-cache_frame before t f cache h in
        get-cache_all (before ++ (t, f) ∷ []) fs _ step
        ∙ ap (λ xs. some (of_history xs)) (append_assoc before ((t, f) ∷ []) fs)

-- From a cache that does not know the session, after any history of its frames on one channel, a
-- subscriber of that channel is sent the last key, the last metadata, the last summary of changes
-- that is within the size bound, and then the last `max_frames` frames of the other types in the
-- order of their arrival.
pub replay_cache-latest :
    (max_frames max_sessions : ℕ) (session channel : String) (fs : History) (cache : Cache)
    → get session cache ≡ none
    → replay_cache session channel
        (cache_all max_frames max_sessions (arrivals max_frames channel session fs) cache)
      ≡ option_list (latest is_key fs)
        ++ (option_list (latest is_meta fs)
            ++ (option_list (latest is_small_changes fs) ++ last_n max_frames (streamed fs)))
unfolding replay_cache cache_all
replay_cache-latest max_frames max_sessions session channel [] cache h =
    rw (h, replay_cache) (sym (drop-nil (0 - max_frames)))
replay_cache-latest max_frames max_sessions session channel ((t, f) ∷ fs) cache h = rw (
  get-cache_all max_frames channel max_sessions session ((t, f) ∷ []) fs _
      (get-cache_frame_new max_frames channel max_sessions session t f cache h),
  replay_cache,
  ==-self channel,
)
