-- ===== src/Database/Loading.antt =====
-- VssDatabase::initJsonTree, from the text of the file.
use kuksa_val.Database.Defaults.{apply_default_values, apply_default_values_idem}
use kuksa_val.Database.Nodes.{Database}
use kuksa_val.Exception.{not_an_object, Result, ok, err, ◌>>=◌, >>=-eq-ok, ok-injective}
use kuksa_val.External.{Jsoncons}
use kuksa_val.Json.{Json, obj, lookup, assign, find, lookup-assign}
use kuksa_val.Prelude.{String, ◌≡◌, sym, ap, ◌∙◌, some}
use kuksa_val.Subscription.State.{or_missing}

module _ ⦃J : Jsoncons⦄ where
  -- data_tree__["Vehicle"] with its defaults.
  unfoldable pub with_vehicle : Json → Result Json
  unfolding assign
  with_vehicle (obj ms) = do
    vehicle ← or_missing "Vehicle" (lookup "Vehicle" ms)
    vehicle' ← apply_default_values vehicle
    ok (obj (assign "Vehicle" vehicle' ms))
  with_vehicle _ = err (not_an_object "")

  unfoldable pub init_json_tree : String → Result Database
  unfolding with_vehicle
  init_json_tree text = do
    tree ← J.parse text
    data_tree ← with_vehicle tree
    ok (record { data_tree = data_tree; meta_tree = tree })

  with_vehicle-settled :
      (tree settled : Json)
      → with_vehicle tree ≡ ok settled
      → (vehicle : Json) × (find "Vehicle" settled ≡ some vehicle)
        × (apply_default_values vehicle ≡ ok vehicle)
  unfolding with_vehicle
  with_vehicle-settled (obj ms) settled h =
      let (vehicle, _, h₁) = >>=-eq-ok (or_missing "Vehicle" (lookup "Vehicle" ms)) _ h in
      let (vehicle', applied, h₂) = >>=-eq-ok (apply_default_values vehicle) _ h₁ in
      (
        vehicle',
        ap (find "Vehicle") (sym (ok-injective h₂))
            ∙ rw (lookup-assign "Vehicle" "Vehicle" vehicle' ms),
        apply_default_values_idem vehicle vehicle' applied,
      )
  with_vehicle-settled _ settled h = cc

  -- After loading, the metadata tree is that of the file, and the vehicle of the data tree has all
  -- its defaults: applying them once more changes nothing.
  pub init_json_tree-settled :
      (text : String) (db : Database)
      → init_json_tree text ≡ ok db
      → (J.parse text ≡ ok db.meta_tree)
        × (vehicle : Json) × (find "Vehicle" db.data_tree ≡ some vehicle)
        × (apply_default_values vehicle ≡ ok vehicle)
  unfolding init_json_tree
  init_json_tree-settled text db h =
      let (tree, parsed, h₁) = >>=-eq-ok (J.parse text) _ h in
      let (data_tree, settled, h₂) = >>=-eq-ok (with_vehicle tree) _ h₁ in
      let (vehicle, there, same) = with_vehicle-settled tree data_tree settled in
      (
        parsed ∙ ap (λ (x : Database). ok x.meta_tree) (ok-injective h₂),
        vehicle,
        ap (λ (x : Database). find "Vehicle" x.data_tree) (sym (ok-injective h₂)) ∙ there,
        same,
      )
