-- ===== src/Relay/Isolation/Frames.antt =====
-- The frames of a socket, whatever they say, write to the rows of its own user alone.
use telecode.Base.{
  ℕ, String, Bool, true, false, ◌≡◌, ◌≢◌, refl, sym, ap, ◌∙◌, Option, none, some, ◌&&◌, any, length,
  ltb, not, is_some, arith, Bool-cases, Option-cases, inl, inr, ◌==◌, string_eq, nat_eq, eq_iff,
}
use telecode.Base.Dict.{get}
use telecode.Protocol.Payload.{Role, daemon, browser, hello_payload}
use telecode.Sessions.Consistent.{IsConsistent, has_id}
use telecode.Relay.Hub.{
  Envelope, Frame, presence_frame, Hub, Environment, channel_key, broadcast_to_browsers,
  notify_daemon_viewer_presence,
}
use telecode.Relay.Isolation.{IsConfined, IsKept, IsKept-IsClosed}
use telecode.Relay.Effects.Daemon.{route-Kept}
use telecode.Relay.Socket.{
  is_own, is_hello, watching, touched, browser_admitted, daemon_admitted, daemon_joined,
  browser_joined, register_daemon, register_browser, greet, handle_hello, handle_later,
  handle_frame,
}

pub broadcast-sessions :
    (env : Environment) (channel : String) (frame : Frame) (h : Hub)
    → (broadcast_to_browsers env channel frame h).sessions ≡ h.sessions
unfolding broadcast_to_browsers
broadcast-sessions env channel frame h = elim (Option-cases (get channel h.browsers)) [
  | inl g ↦ rw (g, broadcast_to_browsers) refl
  | inr (b, g) ↦ rw (g, broadcast_to_browsers) refl
]

pub notify-sessions :
    (user device : String) (online : Bool) (h : Hub)
    → (notify_daemon_viewer_presence user device online h).sessions ≡ h.sessions
unfolding notify_daemon_viewer_presence
notify-sessions user device online h =
    elim (Option-cases (get (channel_key user device) h.daemons)) [
      | inl g ↦ rw (g, notify_daemon_viewer_presence) refl
      | inr (d, g) ↦ rw (g, notify_daemon_viewer_presence) refl
    ]

register_daemon-sessions :
    (env : Environment) (socket : ℕ) (e : Envelope) (h : Hub)
    → (register_daemon env socket e h).sessions ≡ h.sessions
unfolding register_daemon
register_daemon-sessions env socket e h =
    let channel = channel_key e.user_id e.device_id in
    let online = presence_frame e.user_id e.device_id true in
    let joined = daemon_joined socket e h in
    let reached = broadcast_to_browsers env channel online joined in
    notify-sessions e.user_id e.device_id (ltb 0 (length (watching channel reached))) reached
    ∙ broadcast-sessions env channel online joined

register_browser-sessions :
    (socket : ℕ) (e : Envelope) (h : Hub) → (register_browser socket e h).sessions ≡ h.sessions
unfolding register_browser
register_browser-sessions socket e h =
    elim (Bool-cases (length (watching (channel_key e.user_id e.device_id) h) == 0)) [
      | inl c ↦
          rw (c, register_browser)
            (notify-sessions e.user_id e.device_id true (browser_joined socket e h))
      | inr c ↦ rw (c, register_browser) refl
    ]

greet-sessions :
    (env : Environment) (now : ℕ) (available : Bool) (socket : ℕ) (e : Envelope) (role : Role)
    (token : Option String) (h : Hub)
    → (greet env now available socket e role token h).sessions ≡ h.sessions
unfolding greet
greet-sessions env now available socket e browser token h =
    elim (Bool-cases (browser_admitted env e token)) [
      | inl c ↦ rw c (register_browser-sessions socket e h)
      | inr c ↦ rw c refl
    ]
greet-sessions env now available socket e daemon token h =
    elim (Bool-cases (not available && is_some token)) [
      | inl c ↦ rw c refl
      | inr c ↦ elim (Bool-cases (daemon_admitted env e token h)) [
        | inl a ↦ rw (c, a) (register_daemon-sessions env socket e (touched e.device_id now h))
        | inr a ↦ rw (c, a) refl
      ]
    ]

pub handle_hello-sessions :
    (env : Environment) (now : ℕ) (available : Bool) (socket : ℕ) (e : Envelope) (h : Hub)
    → (handle_hello env now available socket e h).sessions ≡ h.sessions
unfolding handle_hello
handle_hello-sessions env now available socket e h = elim (Option-cases (get socket h.peers)) [
  | inr (peer, g) ↦ rw (g, handle_hello) refl
  | inl g ↦ elim (Option-cases (hello_payload e.payload)) [
    | inl p ↦ rw (g, handle_hello, p) refl
    | inr ((role, token), p) ↦
        rw (g, handle_hello, p) (greet-sessions env now available socket e role token h)
  ]
]

-- The user whose identity the socket's hello has bound, if it has said hello.
abbrev pub acts_for : ℕ → Hub → Option String
acts_for socket h = elim (get socket h.peers) [ none ↦ none | some peer ↦ some peer.user_id ]

handle_later-IsConfined :
    (env : Environment) (now : ℕ) (id : String) (socket : ℕ) (e : Envelope) (text other : String)
    (h : Hub)
    → acts_for socket h ≢ some other
    → any (has_id id) h.sessions ≡ false
    → IsConsistent h.sessions
    → IsConfined other h.sessions (handle_later env now id socket e text h).sessions
unfolding handle_later
handle_later-IsConfined env now id socket e text other h apart fresh c =
    let same : IsConfined other h.sessions h.sessions = record {
      consistent = c;
      untouched = refl;
    } in
    elim (Option-cases (get socket h.peers)) [
      | inl g ↦ rw (g, handle_later) same
      | inr (peer, g) ↦ elim (Bool-cases (is_own e peer)) [
        | inr o ↦ rw (g, handle_later, o) same
        | inl o ↦
            let own : e.user_id ≡ peer.user_id = ground (arith, eq_iff e.user_id peer.user_id) in
            let acts : acts_for socket h ≡ some peer.user_id = rw (g, acts_for) refl in
            let differs : e.user_id ≢ other = λ s. apart (acts ∙ ap some (sym own ∙ s)) in
            rw (g, handle_later, o)
              (route-Kept env e socket (IsKept e other differs env h.sessions)
                (IsKept-IsClosed e other differs env h.sessions socket) now id peer.role e.type text
                h fresh same)
      ]
    ]

-- Whatever a socket sends, the sessions of every user but the one its hello was authenticated for
-- are untouched, and the table stays consistent; before a hello it writes to no session at all. The
-- table is consistent and the id for a new row is fresh.
pub handle_frame-IsConfined :
    (env : Environment) (now : ℕ) (id : String) (available : Bool) (socket : ℕ)
    (parsed : Option Envelope) (text other : String) (h : Hub)
    → acts_for socket h ≢ some other
    → any (has_id id) h.sessions ≡ false
    → IsConsistent h.sessions
    → IsConfined other h.sessions (handle_frame env now id available socket parsed text h).sessions
unfolding handle_frame
handle_frame-IsConfined env now id available socket none text other h apart fresh c = record {
  consistent = c;
  untouched = refl;
}
handle_frame-IsConfined env now id available socket (some e) text other h apart fresh c =
    elim (Bool-cases (is_hello e.type)) [
      | inl t ↦
          rw (t, handle_hello-sessions env now available socket e h)
            (record { consistent = c; untouched = refl })
      | inr t ↦ rw t (handle_later-IsConfined env now id socket e text other h apart fresh c)
    ]
