-- ===== src/Daemon/Adoption.antt =====
-- packages/daemon/src/adopt/adopted-sessions.ts and is-adoption-allowed.ts, with handleAdoptedAck and
-- the start of handleHookEvent of daemon.ts: how sessions that run on the machine are adopted.
pub mod Changes
pub mod Bindings
pub mod Promises
pub mod Late
use Prim.Native.Char.{code}
use Prim.Native.String.{String}
use telecode.Base.{
  ℕ, suc, Bool, true, false, not, ◌&&◌, ◌||◌, Option, none, some, List, [], ◌∷◌, any, is_some,
  if◌then◌else◌, ◌==◌, nat_eq, string_eq,
}
use telecode.Base.Dict.{get, set, delete}
use telecode.Protocol.Json.{Json}
use telecode.Protocol.Payload.{adopted_payload}

pub record AdoptSettings : Type 0 where
  pub enabled : Bool
  pub denylist : List String

-- `text.startsWith(entry + sep)`, with the separator `/`.
unfoldable pub is_beneath : String → String → Bool
is_beneath String.[] String.[] = false
is_beneath String.[] (String.◌∷◌ c cs) = code c == 47
is_beneath (String.◌∷◌ e es) String.[] = false
is_beneath (String.◌∷◌ e es) (String.◌∷◌ c cs) = (code e == code c) && is_beneath es cs

unfoldable pub is_adoption_allowed : AdoptSettings → Option String → Bool
unfolding is_beneath
is_adoption_allowed settings none = settings.enabled
is_adoption_allowed settings (some cwd) =
    settings.enabled
    && not (any (λ entry. (cwd == entry) || is_beneath entry cwd) settings.denylist)

-- The manager's maps. A waiter is the number of its promise, the promises are counted from 0, and
-- their settlements and the announcements are the logs of what the manager calls.
pub record AdoptedSessions : Type 0 where
  pub by_claude_id : List (String × String)
  pub pending : List (String × ℕ)
  pub promises : ℕ
  pub settled : List (ℕ × Option String)
  pub announced : List String

-- What a caller of `ensureAdopted` gets: an id, or a promise.
pub data Awaited : Type 0 where
  known : (telecode_id : String) → Awaited
  promised : (promise : ℕ) → Awaited

unfoldable pub settle : String → String → AdoptedSessions → AdoptedSessions
unfolding get set delete
settle claude_id telecode_id a =
    let bound = record a { by_claude_id = set claude_id telecode_id by_claude_id } in
    elim (get claude_id pending) [
      | none ↦ bound
      | some waiter ↦ record bound {
        pending = delete claude_id pending;
        settled = (waiter, some telecode_id) ∷ settled;
      }
    ]
  where
    open a use {by_claude_id, pending, settled}

-- A promise that nobody has, and its announcement.
abbrev pub announce : String → AdoptedSessions → AdoptedSessions
announce claude_id a = record a {
  pending = set claude_id promises pending;
  promises = suc promises;
  announced = claude_id ∷ announced;
}
  where
    open a use {pending, promises, announced}

unfoldable pub ensure_adopted : String → AdoptedSessions → AdoptedSessions × Awaited
unfolding get set
ensure_adopted claude_id a = elim (get claude_id a.by_claude_id) [
  | some id ↦ (a, known id)
  | none ↦ elim (get claude_id a.pending) [
    | some waiter ↦ (a, promised waiter)
    | none ↦ (announce claude_id a, promised a.promises)
  ]
]

-- The timer of a waiter, which `settle` clears: it fires while the waiter is pending.
unfoldable pub ack_timed_out : String → AdoptedSessions → AdoptedSessions
unfolding get delete
ack_timed_out claude_id a = elim (get claude_id pending) [
  | none ↦ a
  | some waiter ↦ record a {
    pending = delete claude_id pending;
    settled = (waiter, none) ∷ settled;
  }
]
  where
    open a use {pending, settled}

unfoldable pub resolve_ack : String → String → AdoptedSessions → AdoptedSessions
unfolding settle
resolve_ack client_ref telecode_id a = settle client_ref telecode_id a

unfoldable pub restore : String → String → AdoptedSessions → AdoptedSessions
unfolding settle
restore claude_id telecode_id a = settle claude_id telecode_id a

unfoldable pub is_pending : String → AdoptedSessions → Bool
unfolding get
is_pending claude_id a = is_some (get claude_id a.pending)

unfoldable pub telecode_id_for : String → AdoptedSessions → Option String
unfolding get
telecode_id_for claude_id a = get claude_id a.by_claude_id

-- `handleAdoptedAck` on the session and the payload of the envelope.
unfoldable pub handle_adopted_ack : Option String → Json → AdoptedSessions → AdoptedSessions
unfolding adopted_payload is_pending resolve_ack
handle_adopted_ack none payload a = a
handle_adopted_ack (some session) payload a = elim (adopted_payload payload) [
  | none ↦ a
  | some ack ↦ if is_pending ack.client_ref a then resolve_ack ack.client_ref session a else a
]

-- `handleHookEvent` up to the adoption, for the events that adopt: nothing where the policy keeps
-- telecode out.
unfoldable pub hook_event :
    AdoptSettings → String → Option String → AdoptedSessions → AdoptedSessions × Option Awaited
unfolding telecode_id_for is_adoption_allowed ensure_adopted
hook_event settings claude_id cwd a =
    let (after, awaited) = ensure_adopted claude_id a in
    if not (is_some (telecode_id_for claude_id a)) && not (is_adoption_allowed settings cwd)
    then (a, none)
    else (after, some awaited)
