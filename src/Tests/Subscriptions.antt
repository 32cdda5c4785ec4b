-- ===== src/Tests/Subscriptions.antt =====
-- Subscriptions, publications and the worker's deliveries.
use kuksa_val.Channel.{same_channel}
use kuksa_val.External.{boost_text}
use kuksa_val.Json.{int, lookup}
use kuksa_val.Path.{from_vss, gen1_to_gen2}
use kuksa_val.Prelude.{◌≡◌, ◌≢◌, refl, true, false, List, [], ◌∷◌, ◌++◌, map, arith, All, Member}
use kuksa_val.Prelude.Int.{pos}
use kuksa_val.Subscription.State.{
  Handler, Notification, key_of, subscribe, unsubscribe, unsubscribe_all, publish, notify, find_key,
}
use kuksa_val.Subscription.Publishing.{subscribe-publish}
use kuksa_val.Subscription.Removal.{
  others, unsubscribe-publish, occurrences, unsubscribe_all_incomplete,
}
use kuksa_val.Subscription.Tables.{IsTable, subscribers}
use kuksa_val.Subscription.Worker.{Clients}
use kuksa_val.Tests.Fixtures.{
  sample_boost, sample_jsoncons, sample_clock, sample_uuids, driver, payload, note, twice,
  speed_key, handler_of, all_open,
}

abbrev after_publish : Handler
after_publish = record (handler_of twice) {
  publishers = (("Vehicle/Speed", int (pos 9)) ∷ []) ∷ [];
  buffer = note 7 driver ∷ note 8 driver ∷ [];
}

abbrev subscribed : Handler
subscribed = handler_of ((speed_key, (7, driver) ∷ []) ∷ [])

abbrev notified : Handler
notified = record subscribed {
  publishers = (("Vehicle/Speed", int (pos 9)) ∷ []) ∷ [];
  buffer = note 7 driver ∷ [];
}

subscribe-publish_example : Member (notify "uint8" payload (7, driver)) notified.buffer
unfolding subscribe publish from_vss gen1_to_gen2 boost_text lookup
subscribe-publish_example =
    subscribe-publish all_open 7 7 driver "Vehicle.Speed" "Vehicle/Speed" "value" "uint8" payload
      (handler_of []) subscribed notified refl refl refl

twice-IsTable : IsTable twice
twice-IsTable = (tt, (((λ q. omega arith), tt), (tt, tt)), tt)

abbrev one_left : Handler
one_left = record (handler_of ((speed_key, (8, driver) ∷ []) ∷ [])) {
  publishers = (("Vehicle/Speed", int (pos 9)) ∷ []) ∷ [];
  buffer = note 8 driver ∷ [];
}

unsubscribe-publish_example :
    (new : List Notification) × (one_left.buffer ≡ [] ++ new)
    × All (λ (n : Notification). n.id ≢ 7) new
    × (new
        ≡ map
            (notify "uint8" payload)
            (others 7 (subscribers (key_of (from_vss "Vehicle.Speed") "value") twice)))
unfolding publish unsubscribe from_vss boost_text lookup others
unsubscribe-publish_example =
    unsubscribe-publish 7 (from_vss "Vehicle.Speed") "uint8" "value" payload (handler_of twice)
      one_left twice-IsTable refl

unsubscribe_all_incomplete_example :
    (n : Notification) × Member n one_left.buffer × (same_channel n.channel driver ≡ true)
unfolding publish unsubscribe_all from_vss boost_text occurrences find_key lookup same_channel
unsubscribe_all_incomplete_example =
    unsubscribe_all_incomplete driver (from_vss "Vehicle.Speed") "uint8" "value" payload
      (handler_of twice) one_left (omega arith) refl

abbrev all_connected : Clients
all_connected = record { connected = λ n. true; has_stream = λ c n. false }
