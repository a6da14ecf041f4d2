-- ===== src/Daemon/Adoption/Changes.antt =====
-- packages/daemon/src/adopt/adopted-sessions.ts: the runs of the manager, and the few changes that
-- an event can make.
use telecode.Base.{
  ℕ, suc, String, not, ◌&&◌, Option, none, some, List, [], ◌∷◌, ◌≡◌, refl, inl, inr, is_some,
  Bool-cases, Option-cases, string_eq,
}
use telecode.Base.Dict.{get, set, delete}
use telecode.Protocol.Json.{Json}
use telecode.Protocol.Payload.{adopted_payload}
use telecode.Daemon.Adoption.{
  AdoptSettings, AdoptedSessions, settle, ensure_adopted, ack_timed_out, resolve_ack, restore,
  is_pending, telecode_id_for, handle_adopted_ack, hook_event, is_adoption_allowed,
}

-- What happens to the manager once the daemon runs.
pub data AdoptOp : Type 0 where
  hooked : AdoptSettings → (claude_id : String) → (cwd : Option String) → AdoptOp
  acked : (session : Option String) → Json → AdoptOp
  timed_out : (claude_id : String) → AdoptOp

unfoldable pub run_op : AdoptOp → AdoptedSessions → AdoptedSessions
unfolding hook_event handle_adopted_ack ack_timed_out
run_op (hooked settings claude_id cwd) a = (hook_event settings claude_id cwd a).0
run_op (acked session payload) a = handle_adopted_ack session payload a
run_op (timed_out claude_id) a = ack_timed_out claude_id a

abbrev pub no_sessions : AdoptedSessions
no_sessions = record { by_claude_id = []; pending = []; promises = 0; settled = []; announced = [] }

-- The bindings of the persisted sessions, by the Claude id, are restored before anything happens.
unfoldable pub restored_all : List (String × String) → AdoptedSessions
unfolding restore
restored_all [] = no_sessions
restored_all ((claude_id, session) ∷ persisted) = restore claude_id session (restored_all persisted)

-- The log has the latest event first.
unfoldable pub run : List (String × String) → List AdoptOp → AdoptedSessions
unfolding restored_all run_op
run persisted [] = restored_all persisted
run persisted (op ∷ log) = run_op op (run persisted log)

-- A promise is made for a session that is neither known nor waited for, and is settled, by an id
-- that is bound then or by the timeout, while it is waited for.
pub data Change (a b : AdoptedSessions) : Type 0 where
  idle : b ≡ a → Change a b
  announces :
      (k : String)
      → get k a.by_claude_id ≡ none
      → get k a.pending ≡ none
      → b ≡ record a {
        pending = set k a.promises a.pending;
        promises = suc a.promises;
        announced = k ∷ a.announced;
      }
      → Change a b
  binds :
      (k : String) (waiter : ℕ) (id : String)
      → get k a.pending ≡ some waiter
      → b ≡ record a {
        by_claude_id = set k id a.by_claude_id;
        pending = delete k a.pending;
        settled = (waiter, some id) ∷ a.settled;
      }
      → Change a b
  fails :
      (k : String) (waiter : ℕ)
      → get k a.pending ≡ some waiter
      → b ≡ record a { pending = delete k a.pending; settled = (waiter, none) ∷ a.settled }
      → Change a b

ensure_adopted-Change : (k : String) (a : AdoptedSessions) → Change a (ensure_adopted k a).0
unfolding ensure_adopted
ensure_adopted-Change k a = elim (Option-cases (get k a.by_claude_id)) [
  | inr (id, e) ↦ idle (simp (e, ensure_adopted) refl)
  | inl n ↦ elim (Option-cases (get k a.pending)) [
    | inr (w, e) ↦ idle (simp (n, e, ensure_adopted) refl)
    | inl m ↦ announces k n m (simp (n, m, ensure_adopted) refl)
  ]
]

hook_event-Change :
    (settings : AdoptSettings) (k : String) (cwd : Option String) (a : AdoptedSessions)
    → Change a (hook_event settings k cwd a).0
unfolding hook_event
hook_event-Change settings k cwd a =
    elim (Bool-cases
      (not (is_some (telecode_id_for k a)) && not (is_adoption_allowed settings cwd))) [
        | inl t ↦ rw (t, hook_event) (idle refl)
        | inr t ↦ rw (t, hook_event) (ensure_adopted-Change k a)
      ]

handle_adopted_ack-Change :
    (session : Option String) (payload : Json) (a : AdoptedSessions)
    → Change a (handle_adopted_ack session payload a)
unfolding handle_adopted_ack is_pending resolve_ack settle
handle_adopted_ack-Change none payload a = idle refl
handle_adopted_ack-Change (some id) payload a = elim (Option-cases (adopted_payload payload)) [
  | inl n ↦ idle (simp (n, handle_adopted_ack) refl)
  | inr (ack, e) ↦ elim (Option-cases (get ack.client_ref a.pending)) [
    | inl n ↦ idle (simp (e, n, handle_adopted_ack, is_pending) refl)
    | inr (w, f) ↦
        binds ack.client_ref w id f (simp (e, f, handle_adopted_ack, is_pending, settle) refl)
  ]
]

ack_timed_out-Change : (k : String) (a : AdoptedSessions) → Change a (ack_timed_out k a)
unfolding ack_timed_out
ack_timed_out-Change k a = elim (Option-cases (get k a.pending)) [
  | inl n ↦ idle (simp (n, ack_timed_out) refl)
  | inr (w, e) ↦ fails k w e (simp (e, ack_timed_out) refl)
]

pub run_op-Change : (op : AdoptOp) (a : AdoptedSessions) → Change a (run_op op a)
unfolding run_op
run_op-Change (hooked settings k cwd) a = hook_event-Change settings k cwd a
run_op-Change (acked session payload) a = handle_adopted_ack-Change session payload a
run_op-Change (timed_out k) a = ack_timed_out-Change k a
