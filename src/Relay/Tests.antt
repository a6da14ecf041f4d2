-- ===== src/Relay/Tests.antt =====
-- The cache, the keepalive and the connection cap on small inputs.
use telecode.Base.{
  String, true, false, ◌≡◌, refl, List, [], ◌∷◌, ◌++◌, ◌==◌, string_eq, none, some, arith, All, In,
  ◌≤◌, if◌then◌else◌, not, suc, nat_eq,
}
use telecode.Base.Dict.{get, set, delete}
use telecode.Base.Text.{units}
use telecode.Protocol.Message.{MessageType}
use telecode.Relay.Cache.{Entry, Cache, record_frame, cache_frame, replay_cache}
use telecode.Relay.Cache.Bounds.{IsBounded, cache_frame-IsBounded}
use telecode.Relay.Cache.Channels.{
  Arrival, cache_all, arrived, replay_cache-In-arrived, cache_frame_crosses,
}
use telecode.Relay.Cache.Latest.{History, arrivals, replay_cache-latest}
use telecode.Relay.Heartbeat.{
  Event, inbound, sweeps, heartbeat_max_silent_rounds, on_connect, mark_inbound, sweep_socket,
  sweep, is_terminated, falls_silent, silence, is_terminated_iff, is_terminated_at_last,
}
use telecode.Relay.Connections.{
  Call, connects, closes, connect, close, run, no_connections, counted, count_open, run_counts,
}

abbrev entry : Entry
entry = record {
  channel = "ann::laptop";
  key = some "k1";
  meta = none;
  changes = none;
  stream = "f1" ∷ "f2" ∷ [];
}

abbrev cache : Cache
cache = ("s1", entry) ∷ []

writes : Unit {0}
unfolding get set delete units record_frame cache_frame replay_cache cache_all
    heartbeat_max_silent_rounds on_connect mark_inbound sweep_socket sweep is_terminated
    falls_silent connect close run no_connections
writes = tt

abbrev history : History
history =
    (MessageType.session_started, "f1")
    ∷ (MessageType.session_key, "k1")
    ∷ (MessageType.agent_message, "f2")
    ∷ (MessageType.session_key, "k2")
    ∷ (MessageType.session_changes, "c1")
    ∷ (MessageType.session_ended, "f3")
    ∷ []

cache_tests :
    (cache_frame 2 1 "s1" "ann::laptop" MessageType.agent_message "f3" cache
      ≡ ("s1", record entry { stream = "f2" ∷ "f3" ∷ [] }) ∷ [])
    × (cache_frame 2 1 "s2" "bob::desk" MessageType.session_meta "m" cache
        ≡ (
          "s2",
          record {
            channel = "bob::desk";
            key = none;
            meta = some "m";
            changes = none;
            stream = [];
          },
        )
          ∷ [])
    × (replay_cache "s1" "ann::laptop" cache ≡ "k1" ∷ "f1" ∷ "f2" ∷ [])
    × (replay_cache "s1" "bob::desk" cache ≡ [])
unfolding writes
cache_tests = (refl, refl, refl, refl)

cache_frame-IsBounded_example :
    IsBounded 2 1 (cache_frame 2 1 "s2" "bob::desk" MessageType.agent_message "f" cache)
cache_frame-IsBounded_example =
    cache_frame-IsBounded 2 1 "s2" "bob::desk" MessageType.agent_message "f" cache
      (record { sessions = ground arith; frames = ground arith })

abbrev mixed : List Arrival
mixed =
    record { session = "s1"; channel = "ann"; type = MessageType.agent_message; frame = "a" }
    ∷ record { session = "s2"; channel = "bob"; type = MessageType.agent_message; frame = "b" }
    ∷ []

abbrev owner_of : String → String
owner_of session = if session == "s1" then "ann" else "bob"

replay_cache-In-arrived_example :
    All (λ frame. In frame (arrived "ann" mixed)) (replay_cache "s1" "ann" (cache_all 4 4 mixed []))
replay_cache-In-arrived_example =
    replay_cache-In-arrived owner_of 4 4 mixed "s1" "ann" (refl, (refl, tt))

cache_frame_crosses_example : In "forged" (
    replay_cache "s1" "ann::laptop"
      (cache_frame 2 4 "s1" "bob::desk" MessageType.agent_message "forged" cache))
unfolding get
cache_frame_crosses_example =
    cache_frame_crosses 2 4 "s1" "bob::desk" MessageType.agent_message "forged" cache entry
      (omega arith) refl refl

replay_cache-latest_example :
    replay_cache "s1" "ann" (cache_all 2 4 (arrivals 2 "ann" "s1" history) [])
    ≡ "k2" ∷ "c1" ∷ "f2" ∷ "f3" ∷ []
unfolding writes
replay_cache-latest_example = replay_cache-latest 2 4 "s1" "ann" history [] refl

abbrev events : List Event
events = sweeps ∷ sweeps ∷ inbound ∷ sweeps ∷ sweeps ∷ []

heartbeat_tests :
    (is_terminated (heartbeat_max_silent_rounds none) on_connect events ≡ false)
    × (is_terminated (heartbeat_max_silent_rounds (some 0)) on_connect events ≡ true)
    × ((sweep 2 (λ socket. not (socket == 7)) ((6, on_connect) ∷ (7, on_connect) ∷ [])).1 ≡ 7 ∷ [])
unfolding writes
heartbeat_tests = (refl, refl, refl)

is_terminated_iff_example :
    is_terminated (heartbeat_max_silent_rounds none) on_connect events
    ≡ falls_silent (heartbeat_max_silent_rounds none) 0 events
is_terminated_iff_example = is_terminated_iff none events

is_terminated_at_last_example :
    is_terminated
      (heartbeat_max_silent_rounds (some 3))
      on_connect
      (events ++ silence (suc (heartbeat_max_silent_rounds (some 3))))
    ≡ true
is_terminated_at_last_example = is_terminated_at_last (some 3) events

abbrev calls : List Call
calls =
    connects 1 "10.0.0.1" ∷ connects 2 "10.0.0.1" ∷ connects 3 "10.0.0.1" ∷ closes 1 ∷ closes 3 ∷ []

connection_tests :
    (run 2 calls no_connections
      ≡ record { by_ip = ("10.0.0.1", 1) ∷ []; open_sockets = (2, "10.0.0.1") ∷ [] })
    × ((connect 2 3 "10.0.0.1"
          (run 2 (connects 1 "10.0.0.1" ∷ connects 2 "10.0.0.1" ∷ []) no_connections)).1
        ≡ false)
unfolding writes
connection_tests = (refl, refl)

run_counts_example :
    let c = run 2 calls no_connections in
    (get "10.0.0.1" c.by_ip ≡ counted (count_open "10.0.0.1" c.open_sockets))
    × (count_open "10.0.0.1" c.open_sockets ≤ 2)
run_counts_example = run_counts 2 calls "10.0.0.1"
