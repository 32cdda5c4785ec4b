-- ===== src/Grpc/Subscribe.antt =====
-- grpcHandler.cpp: the call subscribe, a stream of requests on one context.
use kuksa_val.Channel.{KuksaChannel}
use kuksa_val.Command.{RequestValidator}
use kuksa_val.Command.Subscribe.{process_subscribe, process_unsubscribe}
use kuksa_val.Exception.{Result, ok, err, ◌>>=◌}
use kuksa_val.External.{BoostText, Jsoncons, Clock, Uuids}
use kuksa_val.Grpc.{
  Service, Call, StreamChannel, subscription_channel, RequestType, Status, attribute_string,
  with_attribute, attribute_or_default, error_status,
}
use kuksa_val.Json.{Json, str, obj, Members, end, assign, contains}
use kuksa_val.Prelude.{
  ℕ, String, Bool, true, false, Option, none, some, List, [], ◌∷◌, ◌++◌, ◌==◌, if◌then◌else◌,
}
use kuksa_val.Prelude.Int.{pos}
use kuksa_val.Subscription.State.{Key, same_key, Guards, Handler, member_of, unsubscribe_all}
pub mod Isolation

-- kuksa::SubscribeRequest, with the identifiers that the random generator gives for the request
-- and for a new subscription.
pub record StreamRequest : Type 0 where
  pub type : RequestType
  pub path : String
  pub start : Bool
  pub request_id : ℕ
  pub new_id : ℕ

-- The variables of the loop: req_json, currentSubs, the channel's map of streams, the responses
-- written so far, and the handler of all subscriptions.
pub record Stream : Type 0 where
  pub request : Members
  pub current : List (Key × String)
  pub streams : List ℕ
  pub responses : List Status
  pub handler : Handler

-- currentSubs: find, operator[] and erase
unfoldable pub find_current : Key → List (Key × String) → Option String
unfolding same_key
find_current key [] = none
find_current key ((other, id) ∷ current) =
    if same_key other key then some id else find_current key current

unfoldable pub put_current : Key → String → List (Key × String) → List (Key × String)
unfolding same_key
put_current key id [] = (key, id) ∷ []
put_current key id ((other, old) ∷ current) =
    if same_key other key then (key, id) ∷ current else (other, old) ∷ put_current key id current

unfoldable pub erase_current : Key → List (Key × String) → List (Key × String)
unfolding same_key
erase_current key [] = []
erase_current key ((other, id) ∷ current) =
    if same_key other key then current else (other, id) ∷ erase_current key current

-- (*subsMap)[id] = stream and subsMap->erase(id)
unfoldable pub put_stream : ℕ → List ℕ → List ℕ
put_stream id [] = id ∷ []
put_stream id (other ∷ streams) =
    if other == id then other ∷ streams else other ∷ put_stream id streams

unfoldable pub erase_stream : ℕ → List ℕ → List ℕ
erase_stream id [] = []
erase_stream id (other ∷ streams) = if other == id then streams else other ∷ erase_stream id streams

abbrev pub stream_key : StreamRequest → Key
stream_key r = record { path = r.path; attribute = attribute_or_default (attribute_string r.type) }

abbrev pub respond : Status → Stream → Stream
respond status s = record s { responses = s.responses ++ status ∷ [] }

abbrev pub ok_status : String → Status
ok_status description = record { code = pos 200; description = description }

module _ ⦃J : Jsoncons⦄ ⦃U : Uuids⦄ where
  -- req_json of a subscribe request: an attribute that the type does not name stays as it was.
  unfoldable pub subscribe_members : StreamRequest → Members → Members
  unfolding assign
  subscribe_members r ms = with_attribute (attribute_string r.type) (
      assign "path" (str r.path) (
        assign "action" (str "subscribe") (assign "requestId" (str (U.uuid_text r.request_id)) ms)))

  unfoldable pub unsubscribe_members : StreamRequest → Members → Members
  unfolding assign
  unsubscribe_members r ms =
      assign "action" (str "unsubscribe") (assign "requestId" (str (U.uuid_text r.request_id)) ms)

  abbrev pub respond_if : Result Status → Stream → Stream
  respond_if (err e) s = s
  respond_if (ok status) s = respond status s

  abbrev pub with_stream : Result ℕ → Stream → Stream
  with_stream (err e) s = s
  with_stream (ok id) s = record s { streams = put_stream id s.streams }

  abbrev pub with_current : Key → Result String → Stream → Stream
  with_current key (err e) s = s
  with_current key (ok text) s =
      with_stream (U.uuid_of_text text) (record s { current = put_current key text s.current })

  -- What follows processSubscribe in the try block; an exception ends the block.
  unfoldable pub subscribe_answered : Key → Result Json → Stream → Stream
  unfolding error_status put_current put_stream
  subscribe_answered key (err e) s = s
  subscribe_answered key (ok answer) s =
      if contains "error" answer
      then respond_if (error_status answer) s
      else with_current key (do id ← member_of "subscriptionId" answer; J.as_string id)
          (respond (ok_status "Subscribe request successfully processed") s)

  -- Outside any try block: an exception ends the call.
  abbrev pub unsubscribe_failed : Result Status → Stream → Result (Unit {0}) × Stream
  unsubscribe_failed (err e) s = (err e, s)
  unsubscribe_failed (ok status) s = (ok tt, respond status s)

  abbrev pub unsubscribe_done : Key → Result ℕ → Stream → Result (Unit {0}) × Stream
  unsubscribe_done key (err e) s = (err e, s)
  unsubscribe_done key (ok id) s = (
    ok tt,
    respond (ok_status "Unsubscribe request successfully processed")
        (record s { streams = erase_stream id s.streams; current = erase_current key s.current }),
  )

  unfoldable pub unsubscribe_answered :
      Key → String → Result Json → Stream → Result (Unit {0}) × Stream
  unfolding error_status erase_stream erase_current
  unsubscribe_answered key text (err e) s = (err e, s)
  unsubscribe_answered key text (ok answer) s =
      if contains "error" answer
      then unsubscribe_failed (error_status answer) s
      else unsubscribe_done key (U.uuid_of_text text) s

  module _ ⦃C : Clock⦄ ⦃V : RequestValidator⦄ where
    abbrev pub unsubscribe_current : Key → Option String → Stream → Result (Unit {0}) × Stream
    unsubscribe_current key none s = (
      ok tt,
      respond
          (record {
            code = pos 400;
            description = "Subscribe request error. No valid subscription existed";
          })
          s,
    )
    unsubscribe_current key (some text) s =
        let request = assign "subscriptionId" (str text) s.request in
        let outcome = process_unsubscribe (obj request) s.handler in
        unsubscribe_answered key text outcome.0
          (record s { request = request; handler = outcome.1 })

    module _ ⦃B : BoostText⦄ (g : Guards) (channel : KuksaChannel) where
      abbrev pub start_request : StreamRequest → Stream → Stream
      start_request r s =
          let request = subscribe_members r s.request in
          let outcome = process_subscribe g r.new_id channel (obj request) s.handler in
          subscribe_answered (stream_key r) outcome.0
            (record s { request = request; handler = outcome.1 })

      abbrev pub unsubscribe_request : StreamRequest → Stream → Result (Unit {0}) × Stream
      unsubscribe_request r s =
          unsubscribe_current (stream_key r) (find_current (stream_key r) s.current)
            (record s { request = unsubscribe_members r s.request })

      -- The body of the loop.
      unfoldable pub stream_step : StreamRequest → Stream → Result (Unit {0}) × Stream
      unfolding subscribe_members unsubscribe_members process_subscribe process_unsubscribe
          subscribe_answered unsubscribe_answered find_current assign
      stream_step r s = if r.start then (ok tt, start_request r s) else unsubscribe_request r s

      abbrev pub has_no_streams : List ℕ → Bool
      has_no_streams [] = true
      has_no_streams (id ∷ streams) = false

      abbrev pub stream_next :
          (Stream → Result (Unit {0}) × Stream)
          → Result (Unit {0}) × Stream
          → Result (Unit {0}) × Stream
      stream_next next (err e, s) = (err e, s)
      stream_next next (ok tt, s) = if has_no_streams s.streams then (ok tt, s) else next s

      -- The loop over what the client sends, which ends with the last subscription.
      unfoldable pub stream_loop : List StreamRequest → Stream → Result (Unit {0}) × Stream
      unfolding stream_step
      stream_loop [] s = (ok tt, s)
      stream_loop (r ∷ requests) s = stream_next (stream_loop requests) (stream_step r s)

      -- The end of the call, which an exception skips.
      abbrev pub stream_closed : Result (Unit {0}) × Stream → Result (Unit {0}) × Stream
      stream_closed (err e, s) = (err e, s)
      stream_closed (ok tt, s) =
          (ok tt, record s { handler = unsubscribe_all channel s.handler; streams = [] })

      unfoldable pub stream_call :
          List StreamRequest → List ℕ → Handler → Result (Unit {0}) × Stream
      unfolding stream_loop
      stream_call requests streams handler = stream_closed (
          stream_loop requests (record {
            request = end;
            current = [];
            streams = streams;
            responses = [];
            handler = handler;
          }))

    -- The call subscribe, with what it leaves in the context's map of streams.
    abbrev pub put_streams : ℕ → List ℕ → List (ℕ × StreamChannel) → List (ℕ × StreamChannel)
    put_streams key streams [] = []
    put_streams key streams ((other, stream) ∷ contexts) =
        if other == key
        then (other, record stream { streams = streams }) ∷ contexts
        else (other, stream) ∷ put_streams key streams contexts

    module _ ⦃B : BoostText⦄ (g : Guards) where
      abbrev pub subscribe_checked :
          ℕ
          → List StreamRequest
          → Handler
          → Option StreamChannel × Service
          → (Result (Unit {0}) × Stream) × Service
      subscribe_checked key requests handler (none, svc) = (
        (
          ok tt,
          record {
            request = end;
            current = [];
            streams = [];
            responses = record { code = pos 404; description = "No Authorization!." } ∷ [];
            handler = handler;
          },
        ),
        svc,
      )
      subscribe_checked key requests handler (some stream, svc) =
          let outcome = stream_call g stream.channel requests stream.streams handler in
          (outcome, record svc { contexts = put_streams key outcome.1.streams svc.contexts })

      unfoldable pub subscribe_call :
          Call → List StreamRequest → Handler → Service → (Result (Unit {0}) × Stream) × Service
      unfolding stream_call subscription_channel
      subscribe_call call requests handler svc =
          subscribe_checked call.address requests handler (subscription_channel call svc)
