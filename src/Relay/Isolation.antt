-- ===== src/Relay/Isolation.antt =====
-- The frames of a socket write to the rows of its own user alone.
pub mod Frames
use telecode.Base.{
  ℕ, String, Bool, true, false, ◌≡◌, ◌≢◌, refl, sym, ap, subst, ◌∙◌, Option, none, some, List, [],
  ◌∷◌, ◌&&◌, any, filter, if◌then◌else◌, arith, Bool-cases, Option-cases, inl, inr, ◌==◌, string_eq,
  nat_eq, eq_iff,
}
use telecode.Base.Dict.{get, set}
use telecode.Protocol.Message.{MessageType}
use telecode.Protocol.Payload.{
  Role, daemon, browser, running, waiting_local, reconcile_payload, adopted_payload,
  chained_payload, hello_payload,
}
use telecode.Protocol.Status.{EndStatus, SessionStatus}
use telecode.Sessions.{Row, Table, NewSession}
use telecode.Sessions.Mutation.{
  Change, creates, ends, runs, waits_locally, awaits_input, seals_meta,
}
use telecode.Sessions.Consistent.{IsConsistent, has_id}
use telecode.Sessions.Invariant.{IsFresh, apply-IsConsistent}
use telecode.Sessions.Tenancy.{of_user, apply_isolated}
use telecode.Relay.Cache.{is_cacheable}
use telecode.Relay.Hub.{
  Envelope, Frame, forwarded, Hub, Environment, channel_key, send, broadcast_to_browsers,
  notify_daemon_viewer_presence, write_session, replay, session_ended_frame, announcement,
}
use telecode.Relay.Browser.{
  launch, deliver, deliver_action, replayed, undeliverable_reply, send_undeliverable_reply,
  by_browser_type, new_session, offline_payload, route_from_browser, resumed,
}
use telecode.Relay.Daemon.{
  resolve_ended_status, resolve_reported_status, storable_sealed_meta, retire, reconcile_sessions,
  announce, adopt, chain,
}
use telecode.Relay.Daemon.Route.{
  cache, cached, cached_and_told, tell_browsers, own_channel, on_session, describe, conclude,
  report_status, by_daemon_type, route_from_daemon,
}
use telecode.Relay.Effects.{IsClosed}

-- What the writes for one user leave of the table: it is consistent, and the rows of the other user
-- are those they were.
pub record IsConfined (other : String) (before after : Table) : Type 0 where
  pub consistent : IsConsistent after
  pub untouched : of_user other after ≡ of_user other before

module _ (e : Envelope) (other : String) (apart : e.user_id ≢ other) (env : Environment)
    (before : Table) where
  -- A state that the user's writes have led to.
  abbrev pub IsKept : Hub → Type 0
  IsKept h = IsConfined other before h.sessions

  write_session-IsKept :
      (now : ℕ) (c : Change) (h : Hub)
      → IsFresh c h.sessions
      → IsKept h
      → IsKept (write_session e.user_id now c h)
  unfolding write_session
  write_session-IsKept now c h fresh k = record {
    consistent = apply-IsConsistent e.user_id now c h.sessions fresh k.consistent;
    untouched = apply_isolated e.user_id other now c h.sessions apart k.consistent ∙ k.untouched;
  }

  broadcast-IsKept :
      (channel : String) (frame : Frame) (h : Hub)
      → IsKept h
      → IsKept (broadcast_to_browsers env channel frame h)
  unfolding broadcast_to_browsers
  broadcast-IsKept channel frame h k = elim (Option-cases (get channel h.browsers)) [
    | inl g ↦ rw (g, broadcast_to_browsers) k
    | inr (b, g) ↦ rw (g, broadcast_to_browsers) k
  ]

  pub IsKept-IsClosed : (sender : ℕ) → IsClosed env e sender IsKept
  unfolding cache replay
  IsKept-IsClosed sender = record {
    writes = λ now c h. write_session-IsKept now c h;
    tells = λ frame h. broadcast-IsKept (own_channel e) frame h;
    reaches = λ receiver frame h g k. k;
    answers = λ frame h k. k;
    caches = λ session type text h k. k;
    pushes = λ session h k. k;
    replays = λ session h k. k;
  }
