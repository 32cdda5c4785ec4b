-- ===== src/Command/Query/Unprivileged.antt =====
-- What the queries of a client without rights can change.
use kuksa_val.Access.{check_write_access}
use kuksa_val.Channel.{KuksaChannel}
use kuksa_val.Command.{RequestValidator}
use kuksa_val.Command.Authorize.{process_authorize}
use kuksa_val.Command.Authorize.Granting.{validate-unverified}
use kuksa_val.Command.Metadata.Permission.{process_updates_denied}
use kuksa_val.Command.Query.{
  World, Action, get_action, set_action, get_meta_data_action, update_meta_data_action,
  authorize_action, unsubscribe_action, subscribe_action, update_vss_tree_action, unknown_action,
  action_named, action_text, authorize_texts, authorize_with, perform, query_action, query_root,
  process_query, process_queries, guards_of,
}
use kuksa_val.Command.Set.{process_set}
use kuksa_val.Command.Set.Guarding.{process_set-IsPerformed}
use kuksa_val.Command.Subscribe.{
  SubscribeArguments, subscribe_request, subscribe_answer, subscribe_validated, process_subscribe,
  unsubscribe_answer, unsubscribe_id, unsubscribe_texts, unsubscribe_validated, process_unsubscribe,
}
use kuksa_val.Exception.{Result, ok, err, >>=-eq-ok, ok-injective}
use kuksa_val.External.{BoostText, Jsoncons, Regex, Clock, Uuids, Jwt}
use kuksa_val.Json.{Json}
use kuksa_val.Numbers.{Floats}
use kuksa_val.Path.{VssPath}
use kuksa_val.Prelude.{
  ℕ, String, ◌≡◌, ◌≢◌, refl, sym, ap, ◌∙◌, Bool, true, false, List, [], ◌∷◌, inl, inr, subst,
}
use kuksa_val.Sanitizer.Numeric.{Streams}
use kuksa_val.Database.Signals.{Server}
use kuksa_val.Subscription.State.{
  Guards, Handler, subscribe_guards, subscribe as subscribe_to, unsubscribe as unsubscribe_from,
}

module _ ⦃J : Jsoncons⦄ ⦃B : BoostText⦄ ⦃C : Clock⦄ ⦃U : Uuids⦄ ⦃V : RequestValidator⦄ where
  subscribe_answer-buffer :
      (a : SubscribeArguments) (h : Handler) (g : Guards) (id : ℕ) (channel : KuksaChannel)
      (r : Result (ℕ × Handler))
      → subscribe_to g id channel a.path a.attribute h ≡ r
      → (subscribe_answer a h r).1.buffer ≡ h.buffer
  unfolding subscribe_to
  subscribe_answer-buffer a h g id channel (err e) q = refl
  subscribe_answer-buffer a h g id channel (ok (id', h')) q =
      let (_, _, done) = >>=-eq-ok (subscribe_guards g channel a.path) _ q in
      ap (λ (x : ℕ × Handler). x.1.buffer) (sym (ok-injective done))

  subscribe_request-buffer :
      (g : Guards) (id : ℕ) (channel : KuksaChannel) (h : Handler) (r : Result SubscribeArguments)
      → (subscribe_request g id channel h r).1.buffer ≡ h.buffer
  subscribe_request-buffer g id channel h (err e) = refl
  subscribe_request-buffer g id channel h (ok a) = subscribe_answer-buffer a h g id channel _ refl

  subscribe_validated-buffer :
      (g : Guards) (id : ℕ) (channel : KuksaChannel) (request : Json) (h : Handler)
      (r : Result (Unit {0}))
      → (subscribe_validated g id channel request h r).1.buffer ≡ h.buffer
  subscribe_validated-buffer g id channel request h (err e) = refl
  subscribe_validated-buffer g id channel request h (ok tt) =
      subscribe_request-buffer g id channel h _

  process_subscribe-buffer :
      (g : Guards) (id : ℕ) (channel : KuksaChannel) (request : Json) (h : Handler)
      → (process_subscribe g id channel request h).1.buffer ≡ h.buffer
  unfolding process_subscribe
  process_subscribe-buffer g id channel request h =
      subscribe_validated-buffer g id channel request h _

  unsubscribe_answer-handler :
      (request_id : String) (id : ℕ) (r : Bool × Handler)
      → (unsubscribe_answer request_id id r).1 ≡ r.1
  unsubscribe_answer-handler request_id id (true, h) = refl
  unsubscribe_answer-handler request_id id (false, h) = refl

  unsubscribe_id-buffer :
      (request : Json) (request_id : String) (h : Handler) (r : Result ℕ)
      → (unsubscribe_id request request_id h r).1.buffer ≡ h.buffer
  unfolding unsubscribe_from
  unsubscribe_id-buffer request request_id h (err e) = refl
  unsubscribe_id-buffer request request_id h (ok id) =
      ap (λ (x : Handler). x.buffer)
        (unsubscribe_answer-handler request_id id (unsubscribe_from id h))

  unsubscribe_texts-buffer :
      (request : Json) (h : Handler) (r : Result (String × String))
      → (unsubscribe_texts request h r).1.buffer ≡ h.buffer
  unsubscribe_texts-buffer request h (err e) = refl
  unsubscribe_texts-buffer request h (ok (request_id, text)) =
      unsubscribe_id-buffer request request_id h (U.uuid_of_text text)

  unsubscribe_validated-buffer :
      (request : Json) (h : Handler) (r : Result (Unit {0}))
      → (unsubscribe_validated request h r).1.buffer ≡ h.buffer
  unsubscribe_validated-buffer request h (err e) = refl
  unsubscribe_validated-buffer request h (ok tt) = unsubscribe_texts-buffer request h _

  process_unsubscribe-buffer :
      (request : Json) (h : Handler) → (process_unsubscribe request h).1.buffer ≡ h.buffer
  unfolding process_unsubscribe
  process_unsubscribe-buffer request h = unsubscribe_validated-buffer request h _

-- Both trees and the queue of notifications are as they were.
abbrev pub IsKept : World → World → Type 0
IsKept w w' = (w'.server.db ≡ w.server.db) × (w'.server.handler.buffer ≡ w.server.handler.buffer)

module _ ⦃J : Jsoncons⦄ ⦃R : Regex⦄ where
  -- The channel may neither write to a path nor modify the tree.
  abbrev pub HasNoRights : KuksaChannel → Type 0
  HasNoRights channel =
      ((path : VssPath) → check_write_access channel path ≢ ok true) × (channel.modify_tree ≡ false)

module _ ⦃J : Jsoncons⦄ ⦃B : BoostText⦄ ⦃R : Regex⦄ ⦃S : Streams⦄ ⦃F : Floats⦄ ⦃C : Clock⦄
    ⦃V : RequestValidator⦄ where
  pub process_set-kept :
      (channel : KuksaChannel) (request : Json) (s : Server)
      → HasNoRights channel
      → (process_set channel request s).1 ≡ s
  process_set-kept channel request s (denied, plain) =
      elim (process_set-IsPerformed channel request s) [
        | inl kept ↦ kept
        | inr done ↦ absurd (denied done.arguments.path done.may_write)
      ]

module _ ⦃J : Jsoncons⦄ ⦃B : BoostText⦄ ⦃R : Regex⦄ ⦃S : Streams⦄ ⦃F : Floats⦄ ⦃C : Clock⦄
    ⦃U : Uuids⦄ ⦃V : RequestValidator⦄ ⦃W : Jwt⦄ (key : String) where
  authorize_with-IsKept :
      (w : World) (r : Result (String × String)) → IsKept w (authorize_with key w r).1
  authorize_with-IsKept w (err e) = (refl, refl)
  authorize_with-IsKept w (ok (token, request_id)) = (refl, refl)

  perform-IsKept :
      (fuel id : ℕ) (root : Json) (w : World) (action : Action)
      → HasNoRights w.channel
      → IsKept w (perform key fuel id root w action).1
  unfolding perform
  perform-IsKept fuel id root w get_action none_of = (refl, refl)
  perform-IsKept fuel id root w set_action none_of =
      let same = process_set-kept w.channel root w.server none_of in
      (ap (λ (s : Server). s.db) same, ap (λ (s : Server). s.handler.buffer) same)
  perform-IsKept fuel id root w get_meta_data_action none_of = (refl, refl)
  perform-IsKept fuel id root w update_meta_data_action (denied, plain) =
      ((process_updates_denied w.channel root w.server.db plain).1, refl)
  perform-IsKept fuel id root w authorize_action none_of =
      authorize_with-IsKept w (authorize_texts root)
  perform-IsKept fuel id root w unsubscribe_action none_of =
      (refl, process_unsubscribe-buffer root w.server.handler)
  perform-IsKept fuel id root w subscribe_action none_of =
      (refl, process_subscribe-buffer (guards_of w.server.db) id w.channel root w.server.handler)
  perform-IsKept fuel id root w update_vss_tree_action (denied, plain) =
      ((process_updates_denied w.channel root w.server.db plain).0, refl)
  perform-IsKept fuel id root w unknown_action none_of = (refl, refl)

  query_action-IsKept :
      (fuel id : ℕ) (root : Json) (w : World) (r : Result String)
      → HasNoRights w.channel
      → IsKept w (query_action key fuel id root w r).1
  query_action-IsKept fuel id root w (err e) none_of = (refl, refl)
  query_action-IsKept fuel id root w (ok action) none_of =
      perform-IsKept fuel id root w (action_named action) none_of

  query_root-IsKept :
      (fuel id : ℕ) (w : World) (r : Result Json)
      → HasNoRights w.channel
      → IsKept w (query_root key fuel id w r).1
  query_root-IsKept fuel id w (err e) none_of = (refl, refl)
  query_root-IsKept fuel id w (ok root) none_of =
      query_action-IsKept fuel id root w (action_text root) none_of

  -- No query of a client that may neither write to a path nor modify the tree, whatever its text,
  -- changes a tree or queues a notification.
  pub process_query-IsKept :
      (fuel id : ℕ) (req_json : String) (w : World)
      → HasNoRights w.channel
      → IsKept w (process_query key fuel id req_json w).1
  unfolding process_query
  process_query-IsKept fuel id req_json w none_of =
      query_root-IsKept fuel id w (J.parse req_json) none_of

  module _ (unverified : (token : String) → W.verify key token ≢ ok tt) where
    authorize_with-channel :
        (w : World) (r : Result (String × String)) → (authorize_with key w r).1.channel ≡ w.channel
    unfolding process_authorize
    authorize_with-channel w (err e) = refl
    authorize_with-channel w (ok (token, request_id)) =
        validate-unverified key w.channel token (unverified token)

    perform-channel :
        (fuel id : ℕ) (root : Json) (w : World) (action : Action)
        → (perform key fuel id root w action).1.channel ≡ w.channel
    unfolding perform
    perform-channel fuel id root w authorize_action =
        authorize_with-channel w (authorize_texts root)
    perform-channel fuel id root w _ = refl

    query_action-channel :
        (fuel id : ℕ) (root : Json) (w : World) (r : Result String)
        → (query_action key fuel id root w r).1.channel ≡ w.channel
    query_action-channel fuel id root w (err e) = refl
    query_action-channel fuel id root w (ok action) =
        perform-channel fuel id root w (action_named action)

    query_root-channel :
        (fuel id : ℕ) (w : World) (r : Result Json)
        → (query_root key fuel id w r).1.channel ≡ w.channel
    query_root-channel fuel id w (err e) = refl
    query_root-channel fuel id w (ok root) = query_action-channel fuel id root w (action_text root)

    -- If no token verifies by the server's key, no sequence of queries of a client that starts
    -- without rights changes a tree, queues a notification or changes the rights of the channel.
    pub process_queries-IsKept :
        (queries : List (ℕ × ℕ × String)) (w : World)
        → HasNoRights w.channel
        → IsKept w (process_queries key queries w)
          × ((process_queries key queries w).channel ≡ w.channel)
    unfolding process_queries process_query
    process_queries-IsKept [] w none_of = ((refl, refl), refl)
    process_queries-IsKept ((fuel, id, req_json) ∷ queries) w none_of =
        let w' = (process_query key fuel id req_json w).1 in
        let kept = process_query-IsKept fuel id req_json w none_of in
        let same = query_root-channel fuel id w (J.parse req_json) in
        let (later, still) =
          process_queries-IsKept queries w' (subst (λ c. HasNoRights c) (sym same) none_of) in
        ((later.0 ∙ kept.0, later.1 ∙ kept.1), still ∙ same)
