-- ===== src/Command/Get/Collecting.antt =====
-- What the loop over the leaves collects.
use kuksa_val.Access.{check_read_access}
use kuksa_val.Channel.{KuksaChannel, is_grpc}
use kuksa_val.Command.{RequestValidator}
use kuksa_val.Command.Get.{
  GetArguments, Collected, denied, datapoints, add_datapoint, read_leaf, visit_leaf, collect,
}
use kuksa_val.Database.Nodes.{Database, path_is_attributable}
use kuksa_val.Database.Signals.{get_signal}
use kuksa_val.Exception.{Result, ok, >>=-eq-ok, ok-injective}
use kuksa_val.External.{BoostText, Jsoncons, Regex, Clock}
use kuksa_val.Json.{Json, Items, nil, item, assign, lookup, contains}
use kuksa_val.Path.{VssPath, from_vss}
use kuksa_val.Prelude.{
  String, ◌≡◌, refl, sym, ap, ◌∙◌, subst, ◌⊎◌, Bool, true, false, not, List, [], ◌∷◌, if◌then◌else◌,
  arith, inl, inr,
}
use kuksa_val.Response.{no_access, error_answer}

module _ ⦃J : Jsoncons⦄ ⦃B : BoostText⦄ ⦃R : Regex⦄ ⦃C : Clock⦄ ⦃V : RequestValidator⦄ where
  -- One data point for each leaf, in order: what getSignal gives for it, and the channel may read
  -- the leaf.
  pub data Reads (channel : KuksaChannel) (attribute : String) (db : Database)
      : List VssPath → Items → Type 0 where
    no_leaves : Reads channel attribute db [] nil
    reads :
        {leaf : VssPath} {leaves : List VssPath} {dp : Json} {dps : Items}
        → check_read_access channel leaf ≡ ok true
        → get_signal db leaf attribute (not (is_grpc channel.type_of_connection)) ≡ ok dp
        → Reads channel attribute db leaves dps
        → Reads channel attribute db (leaf ∷ leaves) (item dp dps)

  add_datapoint-eq :
      (dp : Json) (c : Collected) (dps : Items)
      → add_datapoint dp c ≡ datapoints dps
      → (rest : Items) × (c ≡ datapoints rest) × (dps ≡ item dp rest)
  add_datapoint-eq dp (denied answer) dps h = cc
  add_datapoint-eq dp (datapoints rest) dps h = (rest, refl, cc)

  only_if_given :
      (b : Bool) (r : Result Collected) (answer : Json) (dps : Items)
      → (if b then r else ok (denied answer)) ≡ ok (datapoints dps)
      → (b ≡ true) × (r ≡ ok (datapoints dps))
  only_if_given true r answer dps h = (refl, h)
  only_if_given false r answer dps h = cc

  pub collect-Reads :
      (channel : KuksaChannel) (a : GetArguments) (db : Database) (leaves : List VssPath)
      (dps : Items)
      → collect channel a db leaves ≡ ok (datapoints dps)
      → Reads channel a.attribute db leaves dps
  unfolding collect visit_leaf read_leaf
  collect-Reads channel a db [] nil h = no_leaves
  collect-Reads channel a db [] (item dp dps) h = cc
  collect-Reads channel a db (leaf ∷ leaves) dps h =
      let (allowed, e₁, h₁) = >>=-eq-ok (check_read_access channel leaf) _ h in
      let (permitted, h₂) = only_if_given allowed _ _ dps h₁ in
      let (attributable, e₃, h₃) =
        >>=-eq-ok (path_is_attributable db (from_vss a.path_text) a.attribute) _ h₂ in
      let (_, h₄) = only_if_given attributable _ _ dps h₃ in
      let (dp, e₅, h₅) =
        >>=-eq-ok (get_signal db leaf a.attribute (not (is_grpc channel.type_of_connection))) _
          h₄ in
      let (c, e₆, h₆) = >>=-eq-ok (collect channel a db leaves) _ h₅ in
      let (rest, same, added) = add_datapoint-eq dp c dps (ok-injective h₆) in
      subst (Reads channel a.attribute db (leaf ∷ leaves)) (sym added)
        (reads (e₁ ∙ ap ok permitted) e₅ (collect-Reads channel a db leaves rest (e₆ ∙ ap ok same)))

  pub error_answer-no_data :
      (ts request_id action : String) (e : Json)
      → contains "data" (error_answer ts request_id action e) ≡ false
  unfolding error_answer assign lookup
  error_answer-no_data ts request_id action e = refl

  no_access-no_data :
      (request_id action msg : String) → contains "data" (no_access request_id action msg) ≡ false
  unfolding no_access
  no_access-no_data request_id action msg = error_answer-no_data _ request_id action _

  denied_or_rest :
      (b : Bool) (r : Result Collected) (x answer : Json)
      → (if b then r else ok (denied x)) ≡ ok (denied answer)
      → contains "data" x ≡ false
      → (r ≡ ok (denied answer)) ⊎ (contains "data" answer ≡ false)
  denied_or_rest true r x answer h without = inl h
  denied_or_rest false r x answer h without = inr (ground arith)

  add_datapoint-denied :
      (dp : Json) (c : Collected) (answer : Json)
      → add_datapoint dp c ≡ denied answer
      → c ≡ denied answer
  add_datapoint-denied dp (denied x) answer h = h
  add_datapoint-denied dp (datapoints rest) answer h = cc

  -- An early answer of the loop has no data.
  pub collect-no_data :
      (channel : KuksaChannel) (a : GetArguments) (db : Database) (leaves : List VssPath)
      (answer : Json)
      → collect channel a db leaves ≡ ok (denied answer)
      → contains "data" answer ≡ false
  unfolding collect visit_leaf read_leaf
  collect-no_data channel a db [] answer h = cc
  collect-no_data channel a db (leaf ∷ leaves) answer h =
      let (allowed, _, h₁) = >>=-eq-ok (check_read_access channel leaf) _ h in
      elim (denied_or_rest allowed _ _ answer h₁ (no_access-no_data _ _ _)) [
        | inr without ↦ without
        | inl h₂ ↦
            let (attributable, _, h₃) =
              >>=-eq-ok (path_is_attributable db (from_vss a.path_text) a.attribute) _ h₂ in
            elim (denied_or_rest attributable _ _ answer h₃ (no_access-no_data _ _ _)) [
              | inr without ↦ without
              | inl h₄ ↦
                  let (dp, _, h₅) =
                    >>=-eq-ok
                      (get_signal db leaf a.attribute (not (is_grpc channel.type_of_connection))) _
                      h₄ in
                  let (c, e, h₆) = >>=-eq-ok (collect channel a db leaves) _ h₅ in
                  collect-no_data channel a db leaves answer
                    (e ∙ ap ok (add_datapoint-denied dp c answer (ok-injective h₆)))
            ]
      ]
