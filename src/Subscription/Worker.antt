-- ===== src/Subscription/Worker.antt =====
-- SubscriptionHandler::subThreadRunner, one round of its loop at a time, run without interruption.
-- `Subscription.Threads` has the locks and the other threads.
use kuksa_val.Channel.{KuksaChannel, is_grpc}
use kuksa_val.Exception.{not_an_object, Result, ok, err, ◌>>=◌}
use kuksa_val.External.{Jsoncons, Clock, Uuids}
use kuksa_val.Json.{Json, str, obj, Members, end, assign}
use kuksa_val.Prelude.{ℕ, zero, suc, String, ◌≡◌, Bool, List, [], ◌∷◌, if◌then◌else◌, All}
use kuksa_val.Response.{convert_time_stamp}
use kuksa_val.Subscription.State.{Notification, Handler, member_of, unsubscribe_all}

-- What a round does with a notification.
pub data Delivery : Type 0 where
  sent : (connection : ℕ) (message : String) → Delivery
  streamed : (id : ℕ) (datatype : String) (answer : Json) → Delivery
  no_stream : (id : ℕ) → Delivery
  connection_lost : (connection : ℕ) → Delivery

-- The server and the gRPC streams as the worker meets them: whether SendToConnection finds the
-- connection, and whether the channel's map of streams has the identifier.
pub record Clients : Type 0 where
  pub connected : ℕ → Bool
  pub has_stream : KuksaChannel → ℕ → Bool

abbrev pub members_of : Json → Result Members
members_of (obj ms) = ok ms
members_of _ = err (not_an_object "")

module _ ⦃J : Jsoncons⦄ ⦃C : Clock⦄ ⦃U : Uuids⦄ where
  -- The answer for a notification, with the time stamp of its datapoint as text.
  unfoldable pub answer_for : Notification → Result Json
  unfolding assign
  answer_for n = do
    payload ← members_of n.payload
    dp ← member_of "dp" n.payload
    datapoint ← members_of dp
    converted ← convert_time_stamp datapoint
    ok (
        obj (
          assign "data" (obj (assign "dp" (obj converted) payload)) (
            assign "subscriptionId" (str (U.uuid_text n.id))
              (assign "action" (str "subscription") end))))

  module _ (clients : Clients) where
    open clients use {connected, has_stream}

    unfoldable pub deliver_grpc : Notification → Json → Handler → Delivery × Handler
    deliver_grpc n answer h =
        if has_stream n.channel n.id
        then (streamed n.id n.datatype answer, h)
        else (no_stream n.id, h)

    unfoldable pub deliver_websocket : Notification → Json → Handler → Delivery × Handler
    deliver_websocket n answer h =
        if connected n.channel.connection_id
        then (sent n.channel.connection_id (J.dump_pretty answer), h)
        else (connection_lost n.channel.connection_id, unsubscribe_all n.channel h)

    unfoldable pub deliver : Notification → Json → Handler → Delivery × Handler
    unfolding deliver_grpc deliver_websocket
    deliver n answer h =
        if is_grpc n.channel.type_of_connection
        then deliver_grpc n answer h
        else deliver_websocket n answer h

    -- A round that finds the buffer not empty.
    unfoldable pub serve_front :
        Notification → List Notification → Handler → Result (Delivery × Handler)
    unfolding answer_for deliver
    serve_front n rest h = do
      answer ← answer_for n
      ok (deliver n answer (record h { buffer = rest }))

    -- A round on the queue as it is, and then the others; an empty queue ends the run.
    unfoldable pub round :
        (Handler → Result (List Delivery × Handler))
        → List Notification
        → Handler
        → Result (List Delivery × Handler)
    unfolding serve_front
    round others [] h = ok ([], h)
    round others (n ∷ rest) h = do
      (delivery, h') ← serve_front n rest h
      (later, h'') ← others h'
      ok (delivery ∷ later, h'')

    -- At most so many rounds of the loop, while nothing is published.
    unfoldable pub drain : ℕ → Handler → Result (List Delivery × Handler)
    unfolding round
    drain zero h = ok ([], h)
    drain (suc rounds) h = round (drain rounds) h.buffer h

    -- What is delivered for a notification depends on it and on the clients alone.
    unfoldable pub delivery_for : Notification → Json → Delivery
    delivery_for n answer =
        if is_grpc n.channel.type_of_connection
        then (if has_stream n.channel n.id then streamed n.id n.datatype answer else no_stream n.id)
        else (if connected n.channel.connection_id
            then sent n.channel.connection_id (J.dump_pretty answer)
            else connection_lost n.channel.connection_id)

    -- The deliveries match the notifications one for one, in order, each with its answer.
    pub data Delivers : List Notification → List Delivery → Type 0 where
      done : Delivers [] []
      next :
          {n : Notification} {rest : List Notification} {later : List Delivery} (answer : Json)
          → answer_for n ≡ ok answer
          → Delivers rest later
          → Delivers (n ∷ rest) (delivery_for n answer ∷ later)

    -- A queue whose notifications all have an answer.
    abbrev pub Answered : List Notification → Type 0
    Answered = All (λ n. (answer : Json) × (answer_for n ≡ ok answer))
