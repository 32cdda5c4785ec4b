-- ===== src/Command/Subscribe/Effects.antt =====
-- What requests to subscribe and to unsubscribe do to the table.
use kuksa_val.Channel.{KuksaChannel}
use kuksa_val.Command.{RequestValidator, invalid_request, request_text, try_extract_request_id}
use kuksa_val.Command.Subscribe.{
  SubscribeArguments, subscription_answer, subscribe_arguments, subscribe_error, subscribe_answer,
  invalid_subscribe, subscribe_request, subscribe_validated, process_subscribe, unsubscribe_answer,
  unsubscribe_id, unsubscribe_arguments, unsubscribe_texts, unsubscribe_validated,
  process_unsubscribe,
}
use kuksa_val.Exception.{
  Exception, schema_error, gen_exception, no_path_found_on_tree, no_permission, Result, ok, err,
  >>=-eq-ok, ok-injective,
}
use kuksa_val.External.{BoostText, Jsoncons, Clock, Uuids}
use kuksa_val.Json.{Json, Members, str, obj, contains, lookup, assign}
use kuksa_val.Path.{from_vss}
use kuksa_val.Prelude.{
  ℕ, String, ◌≡◌, refl, sym, ap, ◌∙◌, subst, Bool, true, false, ◌⊎◌, inl, inr, some,
}
use kuksa_val.Response.{
  error_answer, malformed_request, path_not_found, no_access, value_out_of_bounds,
}
use kuksa_val.Subscription.State.{
  Key, key_of, Handler, Guards, put_key, subscribe_guards, subscribe, erase_everywhere, unsubscribe,
}

module _ ⦃J : Jsoncons⦄ ⦃C : Clock⦄ ⦃U : Uuids⦄ ⦃V : RequestValidator⦄ where
  invalid_request-error :
      (action : String) (request answer : Json) (e : Exception)
      → invalid_request action request e ≡ ok answer
      → contains "error" answer ≡ true
  unfolding invalid_request malformed_request error_answer assign lookup
  invalid_request-error action request answer e h =
      let (_, _, done) = >>=-eq-ok (try_extract_request_id request) _ h in
      subst (λ x. contains "error" x ≡ true) (ok-injective done) refl

  invalid_subscribe-error :
      (request answer : Json) (e : Exception)
      → invalid_subscribe request e ≡ ok answer
      → contains "error" answer ≡ true
  invalid_subscribe-error request answer (schema_error msg) h =
      invalid_request-error "subscribe" request answer _ h
  invalid_subscribe-error request answer e h = invalid_request-error "get" request answer e h

  subscribe_error-error :
      (a : SubscribeArguments) (e : Exception) → contains "error" (subscribe_error a e) ≡ true
  unfolding subscribe_error path_not_found no_access value_out_of_bounds malformed_request
      error_answer assign lookup
  subscribe_error-error a (no_path_found_on_tree p) = refl
  subscribe_error-error a (no_permission msg) = refl
  subscribe_error-error a (gen_exception msg) = refl
  subscribe_error-error a e = refl

  -- Either nothing has changed and the answer, if there is one, has an error; or the table has the
  -- new subscription and the answer its identifier.
  pub data SubscribeOutcome (id : ℕ) (channel : KuksaChannel) (h : Handler)
      (r : Result Json × Handler) : Type 0 where
    refused :
        r.1 ≡ h
        → ((answer : Json) → r.0 ≡ ok answer → contains "error" answer ≡ true)
        → SubscribeOutcome id channel h r
    added :
        (request_id : String) (key : Key)
        → r ≡ (
          ok (subscription_answer "subscribe" request_id id),
          record h { subscriptions = put_key key id channel h.subscriptions },
        )
        → SubscribeOutcome id channel h r

  module _ ⦃B : BoostText⦄ (g : Guards) (id : ℕ) (channel : KuksaChannel) where
    answer-SubscribeOutcome :
        (a : SubscribeArguments) (h : Handler) (r : Result (ℕ × Handler))
        → subscribe g id channel a.path a.attribute h ≡ r
        → SubscribeOutcome id channel h (subscribe_answer a h r)
    unfolding subscribe
    answer-SubscribeOutcome a h (err e) q = refused refl (λ answer done.
        subst (λ x. contains "error" x ≡ true) (ok-injective done) (subscribe_error-error a e))
    answer-SubscribeOutcome a h (ok (id', h')) q =
        let (_, _, done) = >>=-eq-ok (subscribe_guards g channel a.path) _ q in
        added a.request_id (key_of (from_vss a.path) a.attribute) (
          ap (λ (x : ℕ × Handler). (ok (subscription_answer "subscribe" a.request_id x.0), x.1))
            (sym (ok-injective done)))

    request-SubscribeOutcome :
        (h : Handler) (r : Result SubscribeArguments)
        → SubscribeOutcome id channel h (subscribe_request g id channel h r)
    request-SubscribeOutcome h (err e) =
        refused refl
          (λ answer done. absurd (let q : Path (Result Json) (err e) (ok answer) = done in cc))
    request-SubscribeOutcome h (ok a) = answer-SubscribeOutcome a h _ refl

    validated-SubscribeOutcome :
        (request : Json) (h : Handler) (r : Result (Unit {0}))
        → SubscribeOutcome id channel h (subscribe_validated g id channel request h r)
    validated-SubscribeOutcome request h (err e) =
        refused refl (λ answer done. invalid_subscribe-error request answer e done)
    validated-SubscribeOutcome request h (ok tt) =
        request-SubscribeOutcome h (subscribe_arguments request)

    pub process_subscribe-SubscribeOutcome :
        (request : Json) (h : Handler)
        → SubscribeOutcome id channel h (process_subscribe g id channel request h)
    unfolding process_subscribe
    process_subscribe-SubscribeOutcome request h =
        validated-SubscribeOutcome request h (V.validate_subscribe request)

  -- The table is as before, or without the identifier.
  abbrev pub IsErased : ℕ → Handler → Handler → Type 0
  IsErased id h h' =
      (h'.subscriptions ≡ h.subscriptions)
      ⊎ (h'.subscriptions ≡ erase_everywhere id h.subscriptions)

  request_text-str :
      (key text : String) (ms : Members)
      → lookup key ms ≡ some (str text)
      → request_text key (obj ms) ≡ ok text
  unfolding request_text
  request_text-str key text ms h = rw (h, J.as_string-str text)

  unsubscribe_answer-subscriptions :
      (request_id : String) (id : ℕ) (r : Bool × Handler)
      → (unsubscribe_answer request_id id r).1.subscriptions ≡ r.1.subscriptions
  unsubscribe_answer-subscriptions request_id id (true, h) = refl
  unsubscribe_answer-subscriptions request_id id (false, h) = refl

  texts-IsErased :
      (request : Json) (id : ℕ) (h : Handler) (r : Result (String × String))
      → ((request_id text : String) → r ≡ ok (request_id, text) → text ≡ U.uuid_text id)
      → IsErased id h (unsubscribe_texts request h r).1
  unfolding unsubscribe
  texts-IsErased request id h (err e) named = inl refl
  texts-IsErased request id h (ok (request_id, text)) named =
      let known : U.uuid_of_text text ≡ ok id =
        ap U.uuid_of_text (named request_id text refl) ∙ U.uuid_of_text-uuid_text id in
      inr (
        ap (λ r. (unsubscribe_id request request_id h r).1.subscriptions) known
        ∙ unsubscribe_answer-subscriptions request_id id (unsubscribe id h))

  validated-IsErased :
      (ms : Members) (id : ℕ) (h : Handler) (r : Result (Unit {0}))
      → lookup "subscriptionId" ms ≡ some (str (U.uuid_text id))
      → IsErased id h (unsubscribe_validated (obj ms) h r).1
  unfolding unsubscribe_arguments
  validated-IsErased ms id h (err e) named = inl refl
  validated-IsErased ms id h (ok tt) named =
      texts-IsErased (obj ms) id h (unsubscribe_arguments (obj ms)) (λ request_id text q.
        let (rid, _, h₁) = >>=-eq-ok (request_text "requestId" (obj ms)) _ q in
        let (t, read, h₂) = >>=-eq-ok (request_text "subscriptionId" (obj ms)) _ h₁ in
        ap (λ (x : String × String). x.1) (sym (ok-injective h₂))
        ∙ ok-injective (sym read ∙ request_text-str "subscriptionId" (U.uuid_text id) ms named))

  -- An unsubscribe request that names this identifier takes no other one away.
  pub process_unsubscribe-IsErased :
      (ms : Members) (id : ℕ) (h : Handler)
      → lookup "subscriptionId" ms ≡ some (str (U.uuid_text id))
      → IsErased id h (process_unsubscribe (obj ms) h).1
  unfolding process_unsubscribe
  process_unsubscribe-IsErased ms id h named =
      validated-IsErased ms id h (V.validate_unsubscribe (obj ms)) named
