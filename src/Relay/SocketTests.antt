-- ===== src/Relay/SocketTests.antt =====
-- The relay on Ann's laptop, which has a daemon and one browser, and Bob's desk.
use telecode.Base.{
  true, false, ◌≡◌, ◌≢◌, refl, some, [], ◌∷◌, map, arith, string_eq, nat_eq, eq_iff,
}
use mathlib.Core.Option.{some-injective}
use telecode.Base.Dict.{get, set, delete, has}
use telecode.Base.Ranks.{rank}
use telecode.Base.Text.{units}
use telecode.Protocol.Json.{prop}
use telecode.Protocol.Payload.{
  daemon, role_of, text_within, hello_payload, texts_of, ids_of, reconcile_payload, adopted_of,
  adopted_payload, uuid_text, chained_payload, any_text, ended_status_of, ended_payload,
  reported_of, status_payload, one_of, kept, meta_payload,
}
use telecode.Protocol.Status.{SessionStatus, end_status_of, end_status_of_text}
use telecode.Sessions.{mark_ended, mark_running, create_session}
use telecode.Sessions.Mutation.{apply}
use telecode.Sessions.Pages.{list_by_user, newest_first, insert_newest}
use telecode.Sessions.Consistent.{IsConsistent}
use telecode.Devices.{find_active_by_token_hash, touch_last_seen}
use telecode.Relay.Cache.{cache_frame, replay_cache, record_frame}
use telecode.Relay.Sample.{
  env, rows, peer, hub, reconcile, answer, forged, browser_hello, laptop, daemon_hello,
}
use telecode.Relay.Reachable.{IsSound, started, starts, receives, Reachable-IsSound}
use telecode.Relay.Presence.{reconnection_stays_online}
use telecode.Relay.Hub.{
  forwarded, Hub, broadcast_to_browsers, notify_daemon_viewer_presence, replay, write_session,
  presence_frame, viewer_presence_frame, hello_ack_frame,
}
use telecode.Relay.Browser.{
  undeliverable_reply, send_undeliverable_reply, launch, deliver, deliver_action, replayed,
  by_browser_type, route_from_browser,
}
use telecode.Relay.Daemon.{retire, reconcile_sessions, announce, adopt, chain}
use telecode.Relay.Daemon.Route.{cache, cached, by_daemon_type, route_from_daemon, conclude}
use telecode.Relay.Socket.{
  daemon_admitted, register_daemon, register_browser, greet, handle_hello, by_role, route,
  handle_later, handle_frame, daemon_left, browser_left, handle_close,
}
use telecode.Relay.Delivery.{bound, IsRouted, IsOnChannel, handle_later-IsOnChannel}
use telecode.Relay.Isolation.{IsConfined}
use telecode.Relay.Isolation.Frames.{acts_for, handle_frame-IsConfined}
use telecode.Relay.Reconcile.{reconciled, reconcile_sessions_exact}

writes : Unit {0}
unfolding get set delete has rank units prop role_of text_within hello_payload texts_of ids_of
    reconcile_payload adopted_of adopted_payload uuid_text chained_payload any_text ended_status_of
    ended_payload reported_of status_payload one_of kept meta_payload end_status_of
    end_status_of_text mark_ended mark_running create_session apply list_by_user newest_first
    insert_newest find_active_by_token_hash touch_last_seen cache_frame replay_cache record_frame
    broadcast_to_browsers notify_daemon_viewer_presence replay write_session undeliverable_reply
    send_undeliverable_reply launch deliver deliver_action replayed by_browser_type
    route_from_browser retire reconcile_sessions announce adopt chain cache cached by_daemon_type
    route_from_daemon conclude daemon_admitted register_daemon register_browser greet handle_hello
    by_role route handle_later handle_frame daemon_left browser_left handle_close
writes = tt

socket_tests :
    (handle_frame env 20 "s9" true 1 (some forged) "forged" hub ≡ hub)
    × (handle_frame env 20 "s9" true 7 (some reconcile) "early" hub ≡ hub)
    × ((handle_frame env 20 "s9" true 3 (some browser_hello) "hello" hub).sent
        ≡ (3, hello_ack_frame "ann" "laptop") ∷ (3, presence_frame "ann" "laptop" true) ∷ [])
    × ((handle_frame env 20 "s9" true 2 (some browser_hello) "hello" hub).closed ≡ (2, 4001) ∷ [])
    × ((handle_frame env 20 "s9" true 2 (some answer) "answer" hub).sent
        ≡ (1, forwarded "answer") ∷ [])
    × ((handle_close env 20 1 hub).sent ≡ (2, presence_frame "ann" "laptop" false) ∷ [])
    × ((handle_close env 20 2 hub).sent ≡ (1, viewer_presence_frame "ann" "laptop" false) ∷ [])
    × (map (λ r. r.status) (handle_frame env 20 "s9" true 1 (some reconcile) "held" hub).sessions
        ≡ SessionStatus.running ∷ SessionStatus.needs_restart ∷ SessionStatus.starting
          ∷ SessionStatus.running ∷ [])
unfolding writes
socket_tests = (refl, refl, refl, refl, refl, refl, refl, refl)

rows-IsConsistent : IsConsistent rows
rows-IsConsistent = record {
  shelved = (refl, (refl, (refl, (refl, tt))));
  linked = (refl, (refl, (refl, (refl, tt))));
  unique = (refl, (refl, (refl, (refl, tt))));
}

ann_is_not_bob : acts_for 1 hub ≢ some "bob"
unfolding get
ann_is_not_bob h = ground (arith, eq_iff "ann" "bob", some-injective "ann" "bob" h)

handle_frame-IsConfined_example :
    IsConfined "bob" rows (handle_frame env 20 "s9" true 1 (some reconcile) "held" hub).sessions
handle_frame-IsConfined_example =
    handle_frame-IsConfined env 20 "s9" true 1 (some reconcile) "held" "bob" hub ann_is_not_bob refl
      rows-IsConsistent

reconcile_sessions_exact_example :
    (reconcile_sessions env 20 reconcile hub).sessions
    ≡ map (reconciled "ann" "laptop" ("s1" ∷ []) 20) rows
unfolding writes
reconcile_sessions_exact_example =
    reconcile_sessions_exact env 20 reconcile ("s1" ∷ []) hub refl rows-IsConsistent.unique

abbrev offline_hub : Hub
offline_hub = record hub { daemons = [] }

hub-IsRouted : IsRouted hub.peers hub.daemons hub.browsers
unfolding get bound
hub-IsRouted = record {
  identities = (refl, (refl, tt));
  daemons_bound = (refl, tt);
  browsers_bound = ((refl, tt), tt);
}

handle_later-IsOnChannel_example :
    IsOnChannel "ann:laptop" hub (handle_later env 20 "s9" 2 answer "answer" hub)
unfolding get bound
handle_later-IsOnChannel_example =
    handle_later-IsOnChannel env 20 "s9" 2 answer "answer" "ann:laptop" hub hub-IsRouted refl refl

abbrev reconnected : Hub
unfolding writes
reconnected = handle_hello env 20 true 3 daemon_hello (record hub { devices = laptop ∷ [] })

reconnection_stays_online_example :
    (get "ann:laptop" (handle_close env 21 1 reconnected).daemons ≡ some 3)
    × ((handle_close env 21 1 reconnected).sent ≡ reconnected.sent)
unfolding writes
reconnection_stays_online_example =
    reconnection_stays_online env 20 21 1 3 daemon_hello (some "dt") (peer daemon "ann")
      (record hub { devices = laptop ∷ [] }) refl refl refl refl refl refl refl

Reachable-IsSound_example :
    IsSound (handle_frame env 20 "s9" true 3 (some daemon_hello) "hello" (started (laptop ∷ [])))
Reachable-IsSound_example =
    Reachable-IsSound env
      (handle_frame env 20 "s9" true 3 (some daemon_hello) "hello" (started (laptop ∷ [])))
      (receives 20 "s9" true 3 (some daemon_hello) "hello" (started (laptop ∷ [])) refl
        (starts (laptop ∷ [])))
