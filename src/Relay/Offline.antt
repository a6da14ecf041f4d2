-- ===== src/Relay/Offline.antt =====
-- What a browser is told when the channel has no daemon.
use telecode.Base.{ℕ, String, ◌≡◌, some, List, [], ◌∷◌, ◌++◌, string_eq}
use telecode.Relay.Hub.{Envelope, Frame, Hub, relay_error_frame}
use telecode.Relay.Browser.{undeliverable_reply}

-- The sender is told that its action was not delivered, last of all, and nothing else is changed.
abbrev pub IsRefused : ℕ → Frame → Hub → Hub → Type 0
IsRefused socket refusal before after =
    (after ≡ record before { sent = after.sent })
    × ((replies : List (ℕ × Frame)) × (after.sent ≡ replies ++ (socket, refusal) ∷ []))

module _ (e : Envelope) (session regarding : String) (names : e.session_id ≡ some session)
    (answers : undeliverable_reply e.type ≡ some regarding) where
  abbrev refusal : Frame
  refusal = relay_error_frame e.user_id e.device_id session regarding
