-- ===== src/System/AdoptedTests.antt =====
-- A session of the machine, announced to the relay of the tests, and an example of what is proved.
use telecode.Base.{none, some, length, ◌≡◌, refl, In}
use telecode.Base.Dict.{get}
use telecode.Protocol.Message.{MessageType}
use telecode.Protocol.Payload.{text_within}
use telecode.Protocol.Status.{SessionOrigin}
use telecode.Sessions.{Row}
use telecode.Relay.Hub.{Envelope, announcement}
use telecode.Relay.Daemon.{adopt}
use telecode.Relay.Sample.{env, hub, envelope}
use telecode.Daemon.Adoption.{promised, ensure_adopted, telecode_id_for, handle_adopted_ack}
use telecode.Daemon.Adoption.Changes.{no_sessions}
use telecode.System.Adopted.{ref_payload, adoption_is_paired}

abbrev announced : Envelope
announced = envelope MessageType.session_adopted "ann" none (ref_payload "c1")

-- The daemon's acknowledgement, and the browser's copy.
adoption_sends : length (adopt env 20 "s9" announced hub).sent ≡ 2
unfolding adopt
adoption_sends = refl

adoption_is_paired_example :
    let after = adopt env 20 "s9" announced hub in
    let waits = ensure_adopted "c1" no_sessions in
    let paired = handle_adopted_ack (some "s9") (ref_payload "c1") waits.0 in
    (waits.1 ≡ promised 0)
    × In
        (1, announcement MessageType.session_adopted "ann" "laptop" "s9" (ref_payload "c1"))
        after.sent
    × ((r : Row) × In r after.sessions
        × (r.id ≡ "s9")
        × (r.user_id ≡ "ann")
        × (r.device_id ≡ "laptop")
        × (r.origin ≡ SessionOrigin.external))
    × (telecode_id_for "c1" paired ≡ some "s9")
    × In (0, some "s9") paired.settled
unfolding text_within get
adoption_is_paired_example =
    adoption_is_paired env 20 "s9" "c1" no_sessions announced hub 1 refl refl refl refl refl
