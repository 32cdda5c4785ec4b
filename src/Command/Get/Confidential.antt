-- ===== src/Command/Get/Confidential.antt =====
-- Which signals a get request discloses.
use kuksa_val.Channel.{KuksaChannel}
use kuksa_val.Command.{
  RequestValidator, invalid_request, try_extract_request_id, request_text, request_attribute,
}
use kuksa_val.Command.Get.{
  GetArguments, get_arguments, Collected, denied, datapoints, collect, get_answer, get_collected,
  get_leaves, get_request, get_validated, get_path, process_get,
}
use kuksa_val.Database.Leaves.{Leaves, found, thrown, out_of_fuel, leaf_paths}
use kuksa_val.Database.Nodes.{Database}
use kuksa_val.Exception.{Exception, not_set, Result, ok, err, >>=-eq-ok, ok-injective, ok-ne-err}
use kuksa_val.External.{BoostText, Jsoncons, Regex, Clock}
use kuksa_val.Json.{Json, Items, contains}
use kuksa_val.Path.{VssPath, from_vss}
use kuksa_val.Prelude.{ℕ, String, ◌≡◌, refl, sym, ap, ◌∙◌, subst, Bool, true, false, some, List}
use kuksa_val.Response.{malformed_request, not_set_response, error_answer}
use kuksa_val.Command.Get.Collecting.{Reads, error_answer-no_data, collect-Reads, collect-no_data}

module _ ⦃J : Jsoncons⦄ ⦃B : BoostText⦄ ⦃R : Regex⦄ ⦃C : Clock⦄ ⦃V : RequestValidator⦄ where
  -- What stands behind the data of an answer.
  pub record IsDisclosed (fuel : ℕ) (channel : KuksaChannel) (request : Json) (db : Database)
      (answer : Json) : Type 0 where
    pub arguments : GetArguments
    pub leaves : List VssPath
    pub dps : Items
    pub valid : V.validate_get request ≡ ok tt
    pub named : request_text "path" request ≡ ok arguments.path_text
    pub read : get_arguments arguments.path_text request ≡ ok arguments
    pub selected : leaf_paths fuel db (from_vss arguments.path_text) ≡ found leaves
    pub each : Reads channel arguments.attribute db leaves dps
    pub given : answer ≡ get_answer arguments dps

  not_both : {b : Bool} → b ≡ false → b ≡ true → ⊥
  not_both e h = cc

  get_collected-datapoints :
      (a : GetArguments) (r : Result Collected)
      → ((answer : Json) → r ≡ ok (denied answer) → contains "data" answer ≡ false)
      → contains "data" (get_collected a r) ≡ true
      → (dps : Items) × (r ≡ ok (datapoints dps)) × (get_collected a r ≡ get_answer a dps)
  unfolding get_collected error_answer malformed_request not_set_response
  get_collected-datapoints a (ok (denied answer)) empty_handed h =
      absurd (not_both (empty_handed answer refl) h)
  get_collected-datapoints a (ok (datapoints dps)) empty_handed h = (dps, refl, refl)
  get_collected-datapoints a (err (not_set msg)) empty_handed h =
      absurd (not_both (error_answer-no_data _ _ _ _) (h))
  get_collected-datapoints a (err e) empty_handed h =
      absurd (not_both (error_answer-no_data _ _ _ _) (h))

  get_leaves-IsDisclosed :
      (fuel : ℕ) (channel : KuksaChannel) (request : Json) (a : GetArguments) (db : Database)
      (l : Leaves) (answer : Json)
      → V.validate_get request ≡ ok tt
      → get_arguments a.path_text request ≡ ok a
      → request_text "path" request ≡ ok a.path_text
      → leaf_paths fuel db (from_vss a.path_text) ≡ l
      → get_leaves channel a db l ≡ some (ok answer)
      → contains "data" answer ≡ true
      → IsDisclosed fuel channel request db answer
  get_leaves-IsDisclosed fuel channel request a db (found leaves) answer valid read named selected h
        has =
      let same : get_collected a (collect channel a db leaves) ≡ answer = cc in
      let (dps, collected, given) =
        get_collected-datapoints a (collect channel a db leaves)
          (λ x e. collect-no_data channel a db leaves x e)
          (subst (λ x. contains "data" x ≡ true) (sym same) has) in
      record {
        arguments = a;
        leaves = leaves;
        dps = dps;
        valid = valid;
        named = named;
        read = read;
        selected = selected;
        each = collect-Reads channel a db leaves dps collected;
        given = sym same ∙ given;
      }
  get_leaves-IsDisclosed fuel channel request a db (thrown e) answer valid read named selected h
        has =
      let same : get_collected a (err e) ≡ answer = cc in
      let (dps, collected, _) =
        get_collected-datapoints a (err e) (λ x q. absurd (ok-ne-err (sym q)))
          (subst (λ x. contains "data" x ≡ true) (sym same) has) in
      absurd (ok-ne-err (sym collected))
  get_leaves-IsDisclosed fuel channel request a db out_of_fuel answer valid read named selected h
        has =
      cc

  get_arguments-path_text :
      (path_text : String) (request : Json) (a : GetArguments)
      → get_arguments path_text request ≡ ok a
      → a.path_text ≡ path_text
  unfolding get_arguments
  get_arguments-path_text path_text request a h =
      let (request_id, _, h₁) = >>=-eq-ok (request_text "requestId" request) _ h in
      let (attribute, _, h₂) = >>=-eq-ok (request_attribute request) _ h₁ in
      sym (ap (λ (x : GetArguments). x.path_text) (ok-injective h₂))

  get_request-IsDisclosed :
      (fuel : ℕ) (channel : KuksaChannel) (request : Json) (db : Database) (path_text : String)
      (r : Result GetArguments) (answer : Json)
      → V.validate_get request ≡ ok tt
      → get_arguments path_text request ≡ r
      → request_text "path" request ≡ ok path_text
      → get_request fuel channel db r ≡ some (ok answer)
      → contains "data" answer ≡ true
      → IsDisclosed fuel channel request db answer
  get_request-IsDisclosed fuel channel request db path_text (err e) answer valid read named h has =
      cc
  get_request-IsDisclosed fuel channel request db path_text (ok a) answer valid read named h has =
      get_leaves-IsDisclosed fuel channel request a db _ answer valid
        (ap (λ t. get_arguments t request) (get_arguments-path_text path_text request a read)
          ∙ read)
        (named ∙ ap ok (sym (get_arguments-path_text path_text request a read))) refl h has

  invalid_request-no_data :
      (action : String) (request : Json) (e : Exception) (answer : Json)
      → invalid_request action request e ≡ ok answer
      → contains "data" answer ≡ false
  unfolding invalid_request malformed_request
  invalid_request-no_data action request e answer h =
      let (request_id, _, h₁) = >>=-eq-ok (try_extract_request_id request) _ h in
      subst (λ x. contains "data" x ≡ false) (ok-injective h₁) (error_answer-no_data _ _ _ _)

  get_validated-IsDisclosed :
      (fuel : ℕ) (channel : KuksaChannel) (request : Json) (db : Database) (path_text : String)
      (r : Result (Unit {0})) (answer : Json)
      → V.validate_get request ≡ r
      → request_text "path" request ≡ ok path_text
      → get_validated fuel channel request db path_text r ≡ some (ok answer)
      → contains "data" answer ≡ true
      → IsDisclosed fuel channel request db answer
  get_validated-IsDisclosed fuel channel request db path_text (err e) answer valid named h has =
      absurd (not_both (invalid_request-no_data "get" request e answer cc) has)
  get_validated-IsDisclosed fuel channel request db path_text (ok tt) answer valid named h has =
      get_request-IsDisclosed fuel channel request db path_text _ answer valid refl named h has

  get_path-IsDisclosed :
      (fuel : ℕ) (channel : KuksaChannel) (request : Json) (db : Database) (r : Result String)
      (answer : Json)
      → request_text "path" request ≡ r
      → get_path fuel channel request db r ≡ some (ok answer)
      → contains "data" answer ≡ true
      → IsDisclosed fuel channel request db answer
  get_path-IsDisclosed fuel channel request db (err e) answer named h has = cc
  get_path-IsDisclosed fuel channel request db (ok path_text) answer named h has =
      get_validated-IsDisclosed fuel channel request db path_text _ answer refl named h has

  -- If the answer to a get request has data, the request was valid, and the data are those that
  -- getSignal gives for the leaves of its path, one for each in order; and the channel may read
  -- every one of these leaves.
  pub process_get-IsDisclosed :
      (fuel : ℕ) (channel : KuksaChannel) (request : Json) (db : Database) (answer : Json)
      → process_get fuel channel request db ≡ some (ok answer)
      → contains "data" answer ≡ true
      → IsDisclosed fuel channel request db answer
  unfolding process_get
  process_get-IsDisclosed fuel channel request db answer h has =
      get_path-IsDisclosed fuel channel request db (request_text "path" request) answer refl h has
