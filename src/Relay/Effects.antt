-- ===== src/Relay/Effects.antt =====
-- What a frame may do to the state, as a closure of the small effects of both routes: a property of
-- states that each effect keeps is kept by every route.
pub mod Daemon
use telecode.Base.{
  ℕ, String, Bool, true, false, ◌≡◌, ◌≢◌, refl, sym, ap, subst, ◌∙◌, Option, none, some, List, [],
  ◌∷◌, ◌&&◌, any, filter, if◌then◌else◌, arith, Bool-cases, Option-cases, inl, inr, ◌==◌, string_eq,
  nat_eq, eq_iff,
}
use telecode.Base.Dict.{get, set}
use telecode.Protocol.Message.{MessageType}
use telecode.Protocol.Payload.{
  Role, daemon, browser, running, waiting_local, reconcile_payload, adopted_payload,
  chained_payload, hello_payload,
}
use telecode.Protocol.Status.{EndStatus, SessionStatus}
use telecode.Sessions.{Row, Table, NewSession}
use telecode.Sessions.Mutation.{
  Change, creates, ends, runs, waits_locally, awaits_input, seals_meta,
}
use telecode.Sessions.Consistent.{IsConsistent, has_id}
use telecode.Sessions.Invariant.{IsFresh, apply-IsConsistent}
use telecode.Sessions.Tenancy.{of_user, apply_isolated}
use telecode.Relay.Cache.{is_cacheable}
use telecode.Relay.Hub.{
  Envelope, Frame, forwarded, Hub, Environment, channel_key, send, broadcast_to_browsers,
  notify_daemon_viewer_presence, write_session, replay, session_ended_frame, announcement,
  relay_error_frame,
}
use telecode.Relay.Browser.{
  launch, deliver, deliver_action, replayed, undeliverable_reply, send_undeliverable_reply,
  by_browser_type, new_session, offline_payload, route_from_browser, resumed,
}
use telecode.Relay.Daemon.{
  resolve_ended_status, resolve_reported_status, storable_sealed_meta, retire, reconcile_sessions,
  announce, adopt, chain,
}
use telecode.Relay.Daemon.Route.{
  cache, cached, cached_and_told, tell_browsers, own_channel, on_session, describe, conclude,
  push_awaiting_input, report_status, by_daemon_type, route_from_daemon,
}

-- The effects that a frame on the channel of `e`, from the socket `sender`, is made of.
pub record IsClosed (env : Environment) (e : Envelope) (sender : ℕ) (Kept : Hub → Type 0)
    : Type 0 where
  pub writes :
      (now : ℕ) (c : Change) (h : Hub)
      → IsFresh c h.sessions
      → Kept h
      → Kept (write_session e.user_id now c h)
  pub tells :
      (frame : Frame) (h : Hub) → Kept h → Kept (broadcast_to_browsers env (own_channel e) frame h)
  pub reaches :
      (receiver : ℕ) (frame : Frame) (h : Hub)
      → get (own_channel e) h.daemons ≡ some receiver
      → Kept h
      → Kept (send receiver frame h)
  pub answers : (frame : Frame) (h : Hub) → Kept h → Kept (send sender frame h)
  pub caches :
      (session : String) (type : MessageType) (text : String) (h : Hub)
      → Kept h
      → Kept (cache env session (own_channel e) type text h)
  pub pushes :
      (session : String) (h : Hub) → Kept h → Kept (push_awaiting_input e.user_id session h)
  pub replays :
      (session : String) (h : Hub) → Kept h → Kept (replay session (own_channel e) sender h)

module _ (env : Environment) (e : Envelope) (sender : ℕ) (Kept : Hub → Type 0)
    (closed : IsClosed env e sender Kept) where
  pub on_session-Kept :
      (f : String → Hub → Hub) (h : Hub)
      → ((session : String) → Kept (f session h))
      → Kept h
      → Kept (on_session e f h)
  on_session-Kept f h each k = elim (Option-cases e.session_id) [
    | inl s ↦ rw (s, on_session) k
    | inr (session, s) ↦ rw (s, on_session) (each session)
  ]

  module _ (now : ℕ) (id text : String) where
    deliver-Kept :
        (d : Option ℕ) (h : Hub)
        → get (own_channel e) h.daemons ≡ d
        → Kept h
        → Kept (deliver e text sender d h)
    unfolding deliver send_undeliverable_reply
    deliver-Kept none h g k = elim (Option-cases e.session_id) [
      | inl s ↦ rw (s, send_undeliverable_reply) k
      | inr (session, s) ↦ elim (Option-cases (undeliverable_reply e.type)) [
        | inl u ↦ rw (s, send_undeliverable_reply, u) k
        | inr (regarding, u) ↦
            rw (s, send_undeliverable_reply, u)
              (closed.answers (relay_error_frame e.user_id e.device_id session regarding) h k)
      ]
    ]
    deliver-Kept (some d) h g k = closed.reaches d (forwarded text) h g k

    replayed-Kept : (h : Hub) → Kept h → Kept (replayed e sender h)
    unfolding replayed
    replayed-Kept h k = elim (Option-cases e.session_id) [
      | inl s ↦ rw (s, replayed) k
      | inr (session, s) ↦ rw (s, replayed) (closed.replays session h k)
    ]

    launch-Kept :
        (d : Option ℕ) (h : Hub)
        → get (own_channel e) h.daemons ≡ d
        → any (has_id id) h.sessions ≡ false
        → Kept h
        → Kept (launch env now id e d h)
    unfolding launch write_session
    launch-Kept none h g fresh k =
        let c = creates id (new_session e) in
        let h₁ = write_session e.user_id now c h in
        let h₂ = write_session e.user_id now (ends id EndStatus.error) h₁ in
        let frame =
          session_ended_frame e.user_id e.device_id id SessionStatus.error offline_payload in
        closed.tells frame h₂
          (closed.writes now (ends id EndStatus.error) h₁ tt (closed.writes now c h fresh k))
    launch-Kept (some d) h g fresh k =
        let c = creates id (new_session e) in
        closed.reaches d _ (write_session e.user_id now c h) g (closed.writes now c h fresh k)

    deliver_action-Kept :
        (d : Option ℕ) (h : Hub)
        → get (own_channel e) h.daemons ≡ d
        → Kept h
        → Kept (deliver_action now e text sender d h)
    unfolding deliver_action write_session
    deliver_action-Kept none h g k = deliver-Kept none h g k
    deliver_action-Kept (some d) h g k =
        deliver-Kept (some d) (resumed now e h) (same_daemons ∙ g) (
          on_session-Kept (λ session x. write_session e.user_id now (runs session) x) h
            (λ session. closed.writes now (runs session) h tt k) k)
      where
        same_daemons : get (own_channel e) (resumed now e h).daemons ≡ get (own_channel e) h.daemons
        same_daemons = elim (Option-cases e.session_id) [
          | inl s ↦ rw (s, resumed) refl
          | inr (session, s) ↦ rw (s, resumed) refl
        ]

    replayed_daemons :
        (h : Hub)
        → get (own_channel e) (replayed e sender h).daemons ≡ get (own_channel e) h.daemons
    unfolding replayed replay
    replayed_daemons h = elim (Option-cases e.session_id) [
      | inl s ↦ rw (s, replayed) refl
      | inr (session, s) ↦ rw (s, replayed) refl
    ]

    pub by_browser_type-Kept :
        (type : MessageType) (d : Option ℕ) (h : Hub)
        → get (own_channel e) h.daemons ≡ d
        → any (has_id id) h.sessions ≡ false
        → Kept h
        → Kept (by_browser_type env now id type e text sender d h)
    unfolding by_browser_type
    by_browser_type-Kept MessageType.session_subscribe d h g fresh k =
        deliver-Kept d (replayed e sender h) (replayed_daemons h ∙ g) (replayed-Kept h k)
    by_browser_type-Kept MessageType.session_launch d h g fresh k = launch-Kept d h g fresh k
    by_browser_type-Kept MessageType.viewer_presence d h g fresh k = k
    by_browser_type-Kept MessageType.device_presence d h g fresh k = k
    by_browser_type-Kept MessageType.relay_error d h g fresh k = k
    by_browser_type-Kept MessageType.session_title d h g fresh k = k
    by_browser_type-Kept MessageType.permission_decision d h g fresh k = deliver_action-Kept d h g k
    by_browser_type-Kept MessageType.question_answer d h g fresh k = deliver_action-Kept d h g k
    by_browser_type-Kept MessageType.user_message d h g fresh k = deliver_action-Kept d h g k
    by_browser_type-Kept _ d h g fresh k = deliver-Kept d h g k
