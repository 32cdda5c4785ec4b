-- ===== src/Command/Subscribe/RoundTrip.antt =====
-- A subscription that is given back.
use kuksa_val.Channel.{KuksaChannel}
use kuksa_val.Command.{RequestValidator, request_text}
use kuksa_val.Command.Subscribe.{subscription_answer, unsubscribe_arguments, process_unsubscribe}
use kuksa_val.Exception.{ok}
use kuksa_val.External.{BoostText, Jsoncons, Clock, Uuids}
use kuksa_val.Json.{Json, find, str}
use kuksa_val.Path.{from_vss}
use kuksa_val.Prelude.{ℕ, String, ◌≡◌, true, some, [], ◌∷◌, arith, ==_iff}
use kuksa_val.Subscription.State.{
  Guards, Handler, Key, key_of, Subscriptions, Table, put_subscription, put_key, has_id, found_in,
  subscribe, unsubscribe,
}
use kuksa_val.Subscription.Publishing.{subscribe-subscriptions}

has_id-put_subscription :
    (id : ℕ) (channel : KuksaChannel) (subs : Subscriptions)
    → has_id id (put_subscription id channel subs) ≡ true
unfolding has_id put_subscription
has_id-put_subscription id channel [] = ground (arith, ==_iff id id)
has_id-put_subscription id channel ((i, c) ∷ subs) =
    ground (arith, ==_iff id id, has_id-put_subscription id channel subs)

found_in-put_key :
    (key : Key) (id : ℕ) (channel : KuksaChannel) (table : Table)
    → found_in id (put_key key id channel table) ≡ true
unfolding found_in put_key
found_in-put_key key id channel [] = ground (arith, has_id-put_subscription id channel [])
found_in-put_key key id channel ((k, subs) ∷ table) =
    ground (arith, has_id-put_subscription id channel subs, found_in-put_key key id channel table)

module _ ⦃J : Jsoncons⦄ ⦃C : Clock⦄ ⦃U : Uuids⦄ ⦃V : RequestValidator⦄ ⦃B : BoostText⦄
    (g : Guards) where
  -- A valid unsubscribe request with the identifier that a subscription has given out succeeds right
  -- after it, repeats the identifier in its answer, and leaves the table that unsubscribe makes.
  pub process_unsubscribe-subscribe :
      (id id' : ℕ) (channel : KuksaChannel) (path attribute request_id : String) (request : Json)
      (h h' : Handler)
      → subscribe g id channel path attribute h ≡ ok (id', h')
      → V.validate_unsubscribe request ≡ ok tt
      → request_text "requestId" request ≡ ok request_id
      → find "subscriptionId" request ≡ some (str (U.uuid_text id'))
      → process_unsubscribe request h'
        ≡ (ok (subscription_answer "unsubscribe" request_id id'), (unsubscribe id' h').1)
  unfolding process_unsubscribe unsubscribe_arguments request_text unsubscribe
  process_unsubscribe-subscribe id id' channel path attribute request_id request h h' subscribed
        valid read given =
      let (table, named) =
        subscribe-subscriptions g id id' channel path attribute h h' subscribed in
      let known : found_in id' h'.subscriptions ≡ true =
        rw (table, named)
          (found_in-put_key (key_of (from_vss path) attribute) id channel h.subscriptions) in
      rw
        (valid, read, given, J.as_string-str (U.uuid_text id'), U.uuid_of_text-uuid_text id', known)
