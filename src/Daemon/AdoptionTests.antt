-- ===== src/Daemon/AdoptionTests.antt =====
-- packages/daemon/src/adopt/adopted-sessions.ts: runs of the manager on small data, and examples of
-- what is proved of it.
use telecode.Base.{String, true, false, none, some, List, [], ◌∷◌, ◌++◌, map, ◌≡◌, refl}
use telecode.Base.Dict.{get}
use telecode.Protocol.Json.{Json, json_text, object, field, empty}
use telecode.Protocol.Payload.{adopted_payload}
use telecode.Daemon.Adoption.{
  AdoptSettings, AdoptedSessions, is_adoption_allowed, ack_timed_out, is_pending, telecode_id_for,
  handle_adopted_ack, hook_event,
}
use telecode.Daemon.Adoption.Changes.{AdoptOp, hooked, acked, timed_out, run}
use telecode.Daemon.Adoption.Bindings.{announcements, bound_stays}
use telecode.Daemon.Adoption.Late.{late_ack_readopts}

abbrev settings : AdoptSettings
settings = record { enabled = true; denylist = "/a/secret" ∷ [] }

-- A denied directory and what is beneath it, but not its sibling.
denied :
    map
      (λ cwd. is_adoption_allowed settings (some cwd))
      ("/a/secret" ∷ "/a/secret/sub" ∷ "/a/secret-other" ∷ "/a" ∷ [])
    ≡ false ∷ false ∷ true ∷ true ∷ []
unfolding is_adoption_allowed
denied = refl

abbrev ack_of : String → Json
ack_of claude_id = object (field "clientRef" (json_text claude_id) empty)

-- Two hooks of one session, its acknowledgement, and one that nobody waits for.
abbrev early : List AdoptOp
early =
    acked (some "t9") (ack_of "c2")
    ∷ acked (some "t1") (ack_of "c1")
    ∷ hooked settings "c1" none
    ∷ hooked settings "c1" (some "/a/work")
    ∷ []

abbrev late : List AdoptOp
late = timed_out "c1" ∷ acked (some "t8") (ack_of "c1") ∷ hooked settings "c1" none ∷ []

abbrev bound_once : AdoptedSessions
bound_once = record {
  by_claude_id = ("c1", "t1") ∷ [];
  pending = [];
  promises = 1;
  settled = (0, some "t1") ∷ [];
  announced = "c1" ∷ [];
}

early_runs : run [] early ≡ bound_once
unfolding run adopted_payload
early_runs = refl

bound_stays_example :
    (telecode_id_for "c1" (run [] (late ++ early)) ≡ some "t1")
    × (announcements "c1" (run [] (late ++ early)) ≡ announcements "c1" (run [] early))
    × (is_pending "c1" (run [] (late ++ early)) ≡ false)
unfolding run adopted_payload telecode_id_for
bound_stays_example = bound_stays [] early late "c1" "t1" refl

abbrev waited_for : AdoptedSessions
waited_for = record {
  by_claude_id = [];
  pending = ("c1", 0) ∷ [];
  promises = 1;
  settled = [];
  announced = "c1" ∷ [];
}

late_ack_readopts_example :
    let late = handle_adopted_ack (some "t1") (ack_of "c1") (ack_timed_out "c1" waited_for) in
    let next = hook_event settings "c1" none late in
    (telecode_id_for "c1" late ≡ none) × (next.0.announced ≡ "c1" ∷ "c1" ∷ [])
unfolding adopted_payload is_adoption_allowed get
late_ack_readopts_example =
    late_ack_readopts settings "c1" "t1" none (ack_of "c1")
      (record { client_ref = "c1"; title = none; cwd = none }) 0 waited_for refl refl refl refl refl
