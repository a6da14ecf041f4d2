-- ===== src/Relay/Daemon/Route.antt =====
-- apps/relay/src/relay.ts: `routeFromDaemon`.
use telecode.Base.{ℕ, String, none, some, [], ◌∷◌, ◌++◌, if◌then◌else◌, string_eq}
use telecode.Protocol.Message.{MessageType}
use telecode.Protocol.Payload.{Reported, running, waiting_local}
use telecode.Sessions.Mutation.{Change, ends, runs, waits_locally, awaits_input, seals_meta}
use telecode.Relay.Cache.{is_cacheable, cache_frame}
use telecode.Relay.Hub.{
  Envelope, forwarded, Hub, Environment, channel_key, broadcast_to_browsers, write_session,
}
use telecode.Relay.Daemon.{
  resolve_ended_status, resolve_reported_status, storable_sealed_meta, reconcile_sessions, adopt,
  chain,
}

-- `cacheFrame` on the shared cache.
unfoldable pub cache : Environment → String → String → MessageType → String → Hub → Hub
unfolding cache_frame
cache env session channel type text h = record h {
  cache = cache_frame env.max_frames env.max_sessions session channel type text h.cache;
}

abbrev pub own_channel : Envelope → String
own_channel e = channel_key e.user_id e.device_id

abbrev pub tell_browsers : Environment → Envelope → String → Hub → Hub
tell_browsers env e text h = broadcast_to_browsers env (own_channel e) (forwarded text) h

unfoldable pub cached : Environment → Envelope → String → Hub → Hub
unfolding cache
cached env e text h = elim e.session_id [
  | none ↦ h
  | some session ↦
      if is_cacheable e.type then cache env session (own_channel e) e.type text h else h
]

abbrev pub cached_and_told : Environment → Envelope → String → Hub → Hub
cached_and_told env e text h = tell_browsers env e text (cached env e text h)

abbrev pub on_session : Envelope → (String → Hub → Hub) → Hub → Hub
on_session e f h = elim e.session_id [ none ↦ h | some session ↦ f session h ]

abbrev pub push_awaiting_input : String → String → Hub → Hub
push_awaiting_input user session h = record h { pushed = h.pushed ++ (user, session) ∷ [] }

-- `session.meta`: stored, cached and told, or dropped.
unfoldable pub describe : Environment → ℕ → Envelope → String → Hub → Hub
unfolding storable_sealed_meta write_session cache broadcast_to_browsers
describe env now e text h =
    on_session e
      (λ session h. elim (storable_sealed_meta env.stringify e) [
        | none ↦ h
        | some blob ↦ tell_browsers env e text (
            cache env session (own_channel e) e.type text
              (write_session e.user_id now (seals_meta session blob e.nonce) h))
      ])
      h

-- `session.ended`: the browsers are told before the row is written.
unfoldable pub conclude : Environment → ℕ → Envelope → String → Hub → Hub
unfolding resolve_ended_status write_session broadcast_to_browsers cached
conclude env now e text h =
    on_session e
      (λ session h. write_session e.user_id now (ends session (resolve_ended_status e)) h)
      (cached_and_told env e text h)

abbrev pub report : Reported → String → Change
report running session = runs session
report waiting_local session = waits_locally session

-- `session.status`: the row is written before the browsers are told.
unfoldable pub report_status : Environment → ℕ → Envelope → String → Hub → Hub
unfolding resolve_reported_status write_session broadcast_to_browsers
report_status env now e text h = elim (resolve_reported_status e) [
  | none ↦ h
  | some reported ↦
      tell_browsers env e text
        (on_session e (λ session h. write_session e.user_id now (report reported session) h) h)
]

-- A gate pauses the session, and the user is pinged.
abbrev pub gated : ℕ → Envelope → Hub → Hub
gated now e h =
    on_session e
      (λ session h.
        push_awaiting_input e.user_id session
          (write_session e.user_id now (awaits_input session) h))
      h

unfoldable pub by_daemon_type :
    Environment → ℕ → String → MessageType → Envelope → String → Hub → Hub
unfolding reconcile_sessions adopt chain describe conclude report_status write_session cached
    broadcast_to_browsers
by_daemon_type env now id MessageType.viewer_presence e text h = h
by_daemon_type env now id MessageType.device_presence e text h = h
by_daemon_type env now id MessageType.relay_error e text h = h
by_daemon_type env now id MessageType.session_title e text h = h
by_daemon_type env now id MessageType.session_reconcile e text h = reconcile_sessions env now e h
by_daemon_type env now id MessageType.session_adopted e text h = elim e.session_id [
  | none ↦ adopt env now id e h
  | some _ ↦ h
]
by_daemon_type env now id MessageType.session_chained e text h = elim e.session_id [
  | none ↦ chain env now id e h
  | some _ ↦ h
]
by_daemon_type env now id MessageType.session_meta e text h = describe env now e text h
by_daemon_type env now id MessageType.session_ended e text h = conclude env now e text h
by_daemon_type env now id MessageType.session_status e text h = report_status env now e text h
by_daemon_type env now id MessageType.session_started e text h =
    cached_and_told env e text
      (on_session e (λ session h. write_session e.user_id now (runs session) h) h)
by_daemon_type env now id MessageType.agent_permission_request e text h =
    cached_and_told env e text (gated now e h)
by_daemon_type env now id MessageType.agent_question e text h =
    cached_and_told env e text (gated now e h)
by_daemon_type env now id MessageType.agent_handover e text h =
    cached_and_told env e text (gated now e h)
by_daemon_type env now id MessageType.agent_notice e text h =
    cached_and_told env e text
      (on_session e (λ session h. push_awaiting_input e.user_id session h) h)
by_daemon_type env now id _ e text h = cached_and_told env e text h

unfoldable pub route_from_daemon : Environment → ℕ → String → Envelope → String → Hub → Hub
unfolding by_daemon_type
route_from_daemon env now id e text h = by_daemon_type env now id e.type e text h
