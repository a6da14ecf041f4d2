-- ===== src/Relay/Effects/Daemon.antt =====
-- The daemon's route, and both routes of a socket, are made of the small effects.
use telecode.Base.{
  ℕ, String, false, ◌≡◌, refl, Option, none, some, List, [], ◌∷◌, any, filter, Bool-cases,
  Option-cases, inl, inr, string_eq, nat_eq,
}
use telecode.Base.Dict.{get}
use telecode.Protocol.Json.{Fields, object}
use telecode.Protocol.Message.{MessageType}
use telecode.Protocol.Payload.{
  Role, daemon, browser, Adopted, running, waiting_local, reconcile_payload, adopted_payload,
  chained_payload,
}
use telecode.Protocol.Status.{EndStatus, SessionStatus, SessionOrigin}
use telecode.Sessions.{Row}
use telecode.Sessions.Mutation.{Change, creates, ends, runs, awaits_input, seals_meta}
use telecode.Sessions.Pages.{list_by_user}
use telecode.Sessions.Consistent.{has_id}
use telecode.Sessions.Invariant.{IsFresh}
use telecode.Relay.Cache.{is_cacheable}
use telecode.Relay.Hub.{
  Envelope, forwarded, Hub, Environment, channel_key, send, broadcast_to_browsers, write_session,
  session_ended_frame, announcement, link_pong_frame,
}
use telecode.Relay.Effects.{IsClosed, on_session-Kept, by_browser_type-Kept}
use telecode.Relay.Socket.{by_role, route}
use telecode.Relay.Browser.{route_from_browser}
use telecode.Relay.Daemon.{
  is_stale, needs_restart_payload, announced, resolve_ended_status, resolve_reported_status,
  storable_sealed_meta, retire, reconcile_sessions, announce, adopt, chain,
}
use telecode.Relay.Daemon.Route.{
  cache, cached, cached_and_told, tell_browsers, own_channel, on_session, report, gated,
  push_awaiting_input, by_daemon_type, route_from_daemon, describe, conclude, report_status,
}

module _ (env : Environment) (e : Envelope) (sender : ℕ) (Kept : Hub → Type 0)
    (closed : IsClosed env e sender Kept) where
  retire-Kept :
      (now : ℕ) (rows : List Row) (h : Hub)
      → Kept h
      → Kept (retire env now e.user_id e.device_id rows h)
  unfolding retire
  retire-Kept now [] h k = k
  retire-Kept now (row ∷ rows) h k =
      let c = ends row.id EndStatus.needs_restart in
      let h₁ = write_session e.user_id now c h in
      let channel = channel_key e.user_id e.device_id in
      let frame =
        session_ended_frame e.user_id e.device_id row.id SessionStatus.needs_restart
          needs_restart_payload in
      retire-Kept now rows (broadcast_to_browsers env channel frame h₁)
        (closed.tells frame h₁ (closed.writes now c h tt k))

  reconcile-Kept : (now : ℕ) (h : Hub) → Kept h → Kept (reconcile_sessions env now e h)
  unfolding reconcile_sessions
  reconcile-Kept now h k = elim (Option-cases (reconcile_payload e.payload)) [
    | inl p ↦ rw (p, reconcile_sessions) k
    | inr (held, p) ↦
        rw (p, reconcile_sessions)
          (retire-Kept now
            (filter (is_stale e.device_id held) (list_by_user env.uuid_value e.user_id h.sessions))
            h k)
  ]

  announce-Kept :
      (now : ℕ) (id : String) (type : MessageType) (origin : SessionOrigin) (parent : Option String)
      (a : Adopted) (ack fields : Fields) (h : Hub)
      → any (has_id id) h.sessions ≡ false
      → Kept h
      → Kept (announce env now id type (announced origin parent e a) ack fields h)
  unfolding announce
  announce-Kept now id type origin parent a ack fields h fresh k =
      let c = creates id (announced origin parent e a) in
      let h₁ = write_session e.user_id now c h in
      let channel = channel_key e.user_id e.device_id in
      let k₁ : Kept h₁ = closed.writes now c h fresh k in
      let frame = announcement type e.user_id e.device_id id (object fields) in
      let acked = elim (get channel h₁.daemons) as (λ _. Hub) [
        | none ↦ h₁
        | some d ↦ send d (announcement type e.user_id e.device_id id (object ack)) h₁
      ] in
      let k₂ : Kept acked = elim (Option-cases (get channel h₁.daemons)) [
        | inl g ↦ rw (g, acked) k₁
        | inr (d, g) ↦
            rw (g, acked)
              (closed.reaches d (announcement type e.user_id e.device_id id (object ack)) h₁ g k₁)
      ] in
      closed.tells frame acked k₂

  adopt-Kept :
      (now : ℕ) (id : String) (h : Hub)
      → any (has_id id) h.sessions ≡ false
      → Kept h
      → Kept (adopt env now id e h)
  unfolding adopt
  adopt-Kept now id h fresh k = elim (Option-cases (adopted_payload e.payload)) [
    | inl p ↦ rw (p, adopt) k
    | inr (a, p) ↦
        rw (p, adopt) (announce-Kept now id _ SessionOrigin.external none a _ _ h fresh k)
  ]

  chain-Kept :
      (now : ℕ) (id : String) (h : Hub)
      → any (has_id id) h.sessions ≡ false
      → Kept h
      → Kept (chain env now id e h)
  unfolding chain
  chain-Kept now id h fresh k = elim (Option-cases (chained_payload env.is_uuid e.payload)) [
    | inl p ↦ rw (p, chain) k
    | inr ((a, parent), p) ↦
        rw (p, chain) (announce-Kept now id _ SessionOrigin.launched (some parent) a _ _ h fresh k)
  ]

  cached-Kept : (text : String) (h : Hub) → Kept h → Kept (cached env e text h)
  unfolding cached
  cached-Kept text h k = elim (Option-cases e.session_id) [
    | inl s ↦ rw (s, cached) k
    | inr (session, s) ↦ elim (Bool-cases (is_cacheable e.type)) [
      | inl c ↦ rw (s, cached, c) (closed.caches session e.type text h k)
      | inr c ↦ rw (s, cached, c) k
    ]
  ]

  told-Kept : (text : String) (h : Hub) → Kept h → Kept (tell_browsers env e text h)
  told-Kept text h k = closed.tells (forwarded text) h k

  cached_and_told-Kept : (text : String) (h : Hub) → Kept h → Kept (cached_and_told env e text h)
  cached_and_told-Kept text h k = told-Kept text (cached env e text h) (cached-Kept text h k)

  -- One write for the session that the frame names, if it names one.
  write_if-Kept :
      (now : ℕ) (c : String → Change) (h : Hub)
      → ((session : String) → IsFresh (c session) h.sessions)
      → Kept h
      → Kept (on_session e (λ session x. write_session e.user_id now (c session) x) h)
  write_if-Kept now c h fresh k =
      on_session-Kept env e sender Kept closed
        (λ session x. write_session e.user_id now (c session) x) h
        (λ session. closed.writes now (c session) h (fresh session) k) k

  describe-Kept : (now : ℕ) (text : String) (h : Hub) → Kept h → Kept (describe env now e text h)
  unfolding describe
  describe-Kept now text h k = elim (Option-cases e.session_id) [
    | inl s ↦ rw (s, describe) k
    | inr (session, s) ↦ elim (Option-cases (storable_sealed_meta env.stringify e)) [
      | inl p ↦ rw (s, describe, p) k
      | inr (blob, p) ↦
          let c = seals_meta session blob e.nonce in
          let h₁ = write_session e.user_id now c h in
          rw (s, describe, p)
            (told-Kept text (cache env session (own_channel e) e.type text h₁)
              (closed.caches session e.type text h₁ (closed.writes now c h tt k)))
    ]
  ]

  conclude-Kept : (now : ℕ) (text : String) (h : Hub) → Kept h → Kept (conclude env now e text h)
  unfolding conclude
  conclude-Kept now text h k =
      write_if-Kept now (λ session. ends session (resolve_ended_status e))
        (cached_and_told env e text h) (λ session. tt) (cached_and_told-Kept text h k)

  report_status-Kept :
      (now : ℕ) (text : String) (h : Hub) → Kept h → Kept (report_status env now e text h)
  unfolding report_status
  report_status-Kept now text h k = elim (Option-cases (resolve_reported_status e)) [
    | inl p ↦ rw (p, report_status) k
    | inr (running, p) ↦
        rw (p, report_status)
          (told-Kept text _ (write_if-Kept now (report running) h (λ session. tt) k))
    | inr (waiting_local, p) ↦
        rw (p, report_status)
          (told-Kept text _ (write_if-Kept now (report waiting_local) h (λ session. tt) k))
  ]

  gated-Kept : (now : ℕ) (h : Hub) → Kept h → Kept (gated now e h)
  gated-Kept now h k = elim (Option-cases e.session_id) [
    | inl s ↦ rw (s, gated) k
    | inr (session, s) ↦
        rw (s, gated)
          (closed.pushes session (write_session e.user_id now (awaits_input session) h)
            (closed.writes now (awaits_input session) h tt k))
  ]

  by_daemon_type-Kept :
      (now : ℕ) (id : String) (type : MessageType) (text : String) (h : Hub)
      → any (has_id id) h.sessions ≡ false
      → Kept h
      → Kept (by_daemon_type env now id type e text h)
  unfolding by_daemon_type
  by_daemon_type-Kept now id MessageType.viewer_presence text h fresh k = k
  by_daemon_type-Kept now id MessageType.device_presence text h fresh k = k
  by_daemon_type-Kept now id MessageType.relay_error text h fresh k = k
  by_daemon_type-Kept now id MessageType.session_title text h fresh k = k
  by_daemon_type-Kept now id MessageType.session_reconcile text h fresh k = reconcile-Kept now h k
  by_daemon_type-Kept now id MessageType.session_adopted text h fresh k =
      elim (Option-cases e.session_id) [
        | inl s ↦ rw (s, by_daemon_type) (adopt-Kept now id h fresh k)
        | inr (session, s) ↦ rw (s, by_daemon_type) k
      ]
  by_daemon_type-Kept now id MessageType.session_chained text h fresh k =
      elim (Option-cases e.session_id) [
        | inl s ↦ rw (s, by_daemon_type) (chain-Kept now id h fresh k)
        | inr (session, s) ↦ rw (s, by_daemon_type) k
      ]
  by_daemon_type-Kept now id MessageType.session_meta text h fresh k = describe-Kept now text h k
  by_daemon_type-Kept now id MessageType.session_ended text h fresh k = conclude-Kept now text h k
  by_daemon_type-Kept now id MessageType.session_status text h fresh k =
      report_status-Kept now text h k
  by_daemon_type-Kept now id MessageType.session_started text h fresh k =
      cached_and_told-Kept text
        (on_session e (λ session x. write_session e.user_id now (runs session) x) h)
        (write_if-Kept now runs h (λ session. tt) k)
  by_daemon_type-Kept now id MessageType.agent_permission_request text h fresh k =
      cached_and_told-Kept text (gated now e h) (gated-Kept now h k)
  by_daemon_type-Kept now id MessageType.agent_question text h fresh k =
      cached_and_told-Kept text (gated now e h) (gated-Kept now h k)
  by_daemon_type-Kept now id MessageType.agent_handover text h fresh k =
      cached_and_told-Kept text (gated now e h) (gated-Kept now h k)
  by_daemon_type-Kept now id MessageType.agent_notice text h fresh k =
      cached_and_told-Kept text
        (on_session e (λ session x. push_awaiting_input e.user_id session x) h)
        (on_session-Kept env e sender Kept closed
          (λ session x. push_awaiting_input e.user_id session x) h
          (λ session. closed.pushes session h k) k)
  by_daemon_type-Kept now id _ text h fresh k = cached_and_told-Kept text h k

  by_role-Kept :
      (now : ℕ) (id : String) (role : Role) (text : String) (h : Hub)
      → any (has_id id) h.sessions ≡ false
      → Kept h
      → Kept (by_role env now id role sender e text h)
  unfolding by_role route_from_browser route_from_daemon
  by_role-Kept now id browser text h fresh k =
      by_browser_type-Kept env e sender Kept closed now id text e.type
        (get (own_channel e) h.daemons) h refl fresh k
  by_role-Kept now id daemon text h fresh k = by_daemon_type-Kept now id e.type text h fresh k

  pub route-Kept :
      (now : ℕ) (id : String) (role : Role) (type : MessageType) (text : String) (h : Hub)
      → any (has_id id) h.sessions ≡ false
      → Kept h
      → Kept (route env now id role sender type e text h)
  unfolding route
  route-Kept now id role MessageType.link_ping text h fresh k =
      closed.answers (link_pong_frame e.user_id e.device_id) h k
  route-Kept now id role MessageType.link_pong text h fresh k = k
  route-Kept now id role _ text h fresh k = by_role-Kept now id role text h fresh k
