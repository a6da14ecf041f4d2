-- ===== src/Daemon/Adoption/Late.antt =====
-- packages/daemon/src/daemon.ts, handleAdoptedAck: an acknowledgement that comes after the timeout.
use telecode.Base.{ℕ, String, true, Option, none, some, ◌∷◌, ◌≡◌, refl, ap, ==-self, string_eq, ◌∙◌}
use telecode.Base.Dict.{get, delete, get-delete}
use telecode.Protocol.Json.{Json}
use telecode.Protocol.Payload.{Adopted, adopted_payload}
use telecode.Daemon.Adoption.{
  AdoptSettings, AdoptedSessions, ack_timed_out, is_pending, telecode_id_for, handle_adopted_ack,
  is_adoption_allowed, announce, ensure_adopted, hook_event,
}

timed_out_record :
    (k : String) (waiter : ℕ) (a : AdoptedSessions)
    → get k a.pending ≡ some waiter
    → ack_timed_out k a
      ≡ record a { pending = delete k a.pending; settled = (waiter, none) ∷ a.settled }
unfolding ack_timed_out
timed_out_record k waiter a e = simp (e, ack_timed_out) refl

ack_dropped :
    (session : String) (payload : Json) (ack : Adopted) (a : AdoptedSessions)
    → adopted_payload payload ≡ some ack
    → get ack.client_ref a.pending ≡ none
    → handle_adopted_ack (some session) payload a ≡ a
unfolding handle_adopted_ack is_pending
ack_dropped session payload ack a e n = simp (e, n, handle_adopted_ack, is_pending) refl

pub ensure_announces :
    (k : String) (a : AdoptedSessions)
    → get k a.by_claude_id ≡ none
    → get k a.pending ≡ none
    → (ensure_adopted k a).0 ≡ announce k a
unfolding ensure_adopted
ensure_announces k a n m = simp (n, m, ensure_adopted) refl

event_announces :
    (settings : AdoptSettings) (k : String) (cwd : Option String) (a : AdoptedSessions)
    → is_adoption_allowed settings cwd ≡ true
    → get k a.by_claude_id ≡ none
    → get k a.pending ≡ none
    → (hook_event settings k cwd a).0.announced ≡ k ∷ a.announced
unfolding hook_event telecode_id_for
event_announces settings k cwd a allowed unbound idle =
    simp (allowed, unbound, hook_event, telecode_id_for)
      (ap (λ (b : AdoptedSessions). b.announced) (ensure_announces k a unbound idle))

-- For a session that is waited for and not bound, in a directory that the policy allows: when its
-- acknowledgement comes only after the timeout, the id that the relay has made for it is dropped,
-- and the next hook event of the session announces it again.
pub late_ack_readopts :
    (settings : AdoptSettings) (claude_id session : String) (cwd : Option String) (payload : Json)
    (ack : Adopted) (waiter : ℕ) (a : AdoptedSessions)
    → is_adoption_allowed settings cwd ≡ true
    → get claude_id a.by_claude_id ≡ none
    → get claude_id a.pending ≡ some waiter
    → adopted_payload payload ≡ some ack
    → ack.client_ref ≡ claude_id
    → let late = handle_adopted_ack (some session) payload (ack_timed_out claude_id a) in
      let next = hook_event settings claude_id cwd late in
      (telecode_id_for claude_id late ≡ none) × (next.0.announced ≡ claude_id ∷ a.announced)
unfolding telecode_id_for
late_ack_readopts settings k session cwd payload ack w a allowed unbound waits parsed ref =
    let gone : get k (delete k a.pending) ≡ none = get-delete k k a.pending ∙ rw (==-self k) refl in
    let after : AdoptedSessions = record a {
      pending = delete k a.pending;
      settled = (w, none) ∷ a.settled;
    } in
    let dropped : handle_adopted_ack (some session) payload (ack_timed_out k a) ≡ after =
      ap (handle_adopted_ack (some session) payload) (timed_out_record k w a waits)
      ∙ ack_dropped session payload ack after parsed (rw ref gone) in
    rw dropped (unbound, event_announces settings k cwd after allowed unbound gone)
