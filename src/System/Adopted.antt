-- ===== src/System/Adopted.antt =====
-- packages/daemon/src/daemon.ts and apps/relay/src/relay.ts: a session of the machine is announced,
-- registered and acknowledged.
use telecode.Base.{
  ℕ, String, none, some, [], ◌∷◌, ◌++◌, ◌≡◌, refl, inl, inr, In, In-append_left, In-append_right,
  Option-cases, ==-self, string_eq, ◌∙◌,
}
use telecode.Base.Dict.{get, set, get-set}
use telecode.Protocol.Json.{Json, json_text, object, field, empty}
use telecode.Protocol.Message.{MessageType}
use telecode.Protocol.Payload.{Adopted, adopted_payload, text_within}
use telecode.Protocol.Status.{SessionOrigin}
use telecode.Sessions.{Row, Table, NewSession, create_session}
use telecode.Relay.Hub.{
  Envelope, Frame, Hub, Environment, channel_key, broadcast_to_browsers, announcement,
  write_session,
}
use telecode.Relay.Daemon.{adopt, announced, announce as announce_row}
use telecode.Relay.Isolation.Frames.{broadcast-sessions}
use telecode.Sessions.Mutation.{apply}
use telecode.Daemon.Adoption.{
  AdoptedSessions, promised, settle, announce, ensure_adopted, resolve_ack, is_pending,
  telecode_id_for, handle_adopted_ack,
}
use telecode.Daemon.Adoption.Late.{ensure_announces}

-- The payload of the announcement, and of its acknowledgement.
abbrev pub ref_payload : String → Json
ref_payload claude_id = object (field "clientRef" (json_text claude_id) empty)

abbrev ref_of : String → Adopted
ref_of claude_id = record { client_ref = claude_id; title = none; cwd = none }

ref_parsed :
    (claude_id : String)
    → text_within 256 (json_text claude_id) ≡ some claude_id
    → adopted_payload (ref_payload claude_id) ≡ some (ref_of claude_id)
unfolding adopted_payload
ref_parsed claude_id e = simp (e, adopted_payload) refl

-- An acknowledgement of what was just announced binds it and settles its promise.
ack_binds :
    (claude_id id : String) (a : AdoptedSessions)
    → text_within 256 (json_text claude_id) ≡ some claude_id
    → let b = handle_adopted_ack (some id) (ref_payload claude_id) (announce claude_id a) in
      (telecode_id_for claude_id b ≡ some id) × In (a.promises, some id) b.settled
unfolding telecode_id_for handle_adopted_ack is_pending resolve_ack settle
ack_binds claude_id id a e =
    let waits : get claude_id (set claude_id a.promises a.pending) ≡ some a.promises =
      get-set claude_id claude_id a.promises a.pending ∙ rw (==-self claude_id) refl in
    let bound : get claude_id (set claude_id id a.by_claude_id) ≡ some id =
      get-set claude_id claude_id id a.by_claude_id ∙ rw (==-self claude_id) refl in
    simp (ref_parsed claude_id e, waits, bound, handle_adopted_ack, is_pending, settle)
      (refl, inl refl)

broadcast-sent :
    (env : Environment) (channel : String) (frame : Frame) (x : ℕ × Frame) (h : Hub)
    → In x h.sent
    → In x (broadcast_to_browsers env channel frame h).sent
unfolding broadcast_to_browsers
broadcast-sent env channel frame x h m = elim (Option-cases (get channel h.browsers)) [
  | inl n ↦ rw (n, broadcast_to_browsers) m
  | inr (w, e) ↦ rw (e, broadcast_to_browsers) (In-append_left x h.sent _ m)
]

ensure_promised :
    (claude_id : String) (a : AdoptedSessions)
    → get claude_id a.by_claude_id ≡ none
    → get claude_id a.pending ≡ none
    → ((ensure_adopted claude_id a).0 ≡ announce claude_id a)
      × ((ensure_adopted claude_id a).1 ≡ promised a.promises)
unfolding ensure_adopted
ensure_promised k a n m = (ensure_announces k a n m, simp (n, m, ensure_adopted) refl)

external_row :
    (id : String) (now : ℕ) (s : NewSession) (rows : Table)
    → s.origin ≡ some SessionOrigin.external
    → (r : Row) × In r (create_session id now s rows)
      × (r.id ≡ id)
      × (r.user_id ≡ s.user_id)
      × (r.device_id ≡ s.device_id)
      × (r.origin ≡ SessionOrigin.external)
unfolding create_session
external_row id now s rows e =
    rw e (_, In-append_right _ rows (_ ∷ []) (inl refl), refl, refl, refl, refl)

-- The relay's part: the row is the new last one, and the daemon is told.
adopt-acks :
    (env : Environment) (now : ℕ) (id claude_id : String) (e : Envelope) (h : Hub) (daemon : ℕ)
    → text_within 256 (json_text claude_id) ≡ some claude_id
    → e.payload ≡ ref_payload claude_id
    → get (channel_key e.user_id e.device_id) h.daemons ≡ some daemon
    → let after = adopt env now id e h in
      In
        (
          daemon,
          announcement MessageType.session_adopted e.user_id e.device_id id (ref_payload claude_id),
        )
        after.sent
      × (after.sessions
          ≡ create_session id now
              (announced SessionOrigin.external none e (ref_of claude_id))
              h.sessions)
unfolding adopt announce_row write_session apply
adopt-acks env now id claude_id e h daemon within said joined =
    let parsed : adopted_payload e.payload ≡ some (ref_of claude_id) =
      rw said (ref_parsed claude_id within) in
    let channel = channel_key e.user_id e.device_id in
    let ack : ℕ × Frame = (
      daemon,
      announcement MessageType.session_adopted e.user_id e.device_id id (ref_payload claude_id),
    ) in
    let told : Hub = record h {
      sessions =
          create_session id now (announced SessionOrigin.external none e (ref_of claude_id))
            h.sessions;
      sent = h.sent ++ (ack ∷ []);
    } in
    simp (parsed, adopt, joined)
      (
        broadcast-sent env channel ack.1 ack told
            (In-append_right ack h.sent (ack ∷ []) (inl refl)),
        broadcast-sessions env channel ack.1 told,
      )

-- A session of the machine that the daemon does not know and does not wait for, announced by a daemon
-- that is connected: the daemon waits for a new promise; the relay adds an external row of the
-- daemon's user and device under the new id, and sends the daemon an acknowledgement; and on its
-- payload the daemon binds the session to that id and settles the promise with it.
pub adoption_is_paired :
    (env : Environment) (now : ℕ) (id claude_id : String) (a : AdoptedSessions) (e : Envelope)
    (h : Hub) (daemon : ℕ)
    → text_within 256 (json_text claude_id) ≡ some claude_id
    → get claude_id a.by_claude_id ≡ none
    → get claude_id a.pending ≡ none
    → e.payload ≡ ref_payload claude_id
    → get (channel_key e.user_id e.device_id) h.daemons ≡ some daemon
    → let after = adopt env now id e h in
      let waits = ensure_adopted claude_id a in
      let paired = handle_adopted_ack (some id) (ref_payload claude_id) waits.0 in
      (waits.1 ≡ promised a.promises)
      × In
          (
            daemon,
            announcement MessageType.session_adopted e.user_id e.device_id id
                (ref_payload claude_id),
          )
          after.sent
      × ((r : Row) × In r after.sessions
          × (r.id ≡ id)
          × (r.user_id ≡ e.user_id)
          × (r.device_id ≡ e.device_id)
          × (r.origin ≡ SessionOrigin.external))
      × (telecode_id_for claude_id paired ≡ some id)
      × In (a.promises, some id) paired.settled
adoption_is_paired env now id claude_id a e h daemon within unknown idle said joined =
    let (told, rows) = adopt-acks env now id claude_id e h daemon within said joined in
    let (bound, settled) = ack_binds claude_id id a within in
    let (waits, promise) = ensure_promised claude_id a unknown idle in
    (
      promise,
      told,
      rw rows (
          external_row id now (announced SessionOrigin.external none e (ref_of claude_id))
            h.sessions refl),
      rw waits bound,
      rw waits settled,
    )
