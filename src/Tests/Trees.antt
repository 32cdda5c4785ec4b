-- ===== src/Tests/Trees.antt =====
-- Loading a tree, walking over its leaves, and requests that update it.
use kuksa_val.Database.Leaves.{out_of_fuel, branch, inspect, leaf_paths}
use kuksa_val.Database.Termination.{Descends, leaf_paths-ends}
use kuksa_val.Exception.{Result, ok}
use kuksa_val.External.{boost_text, jsoncons}
use kuksa_val.Json.{Items, arr, nil, item, items, Json, str, obj, end, member, lookup}
use kuksa_val.Database.Nodes.{Database}
use kuksa_val.Path.{VssPath, from_json, from_vss}
use kuksa_val.Prelude.{
  later, ℕ, true, String, ◌≡◌, ◌≢◌, arith, str_eq, eq_iff, sym, ◌∙◌, Member, first, if◌then◌else◌,
  Bool-cases, inl, inr,
}
use kuksa_val.Tests.Fixtures.{
  speed_node, sample_boost, sample_jsoncons, sample_clock, sample_validator,
}

abbrev update_request : Json
update_request = obj (member "requestId" (str "3") (member "metadata" (obj end) end))

abbrev vehicle_path : String
vehicle_path = "$['Vehicle']"

-- A branch with one child.
abbrev branched : Database
branched = record {
  data_tree = obj (
      member vehicle_path (obj (member "type" (str "branch") end))
        (member "$['Vehicle']['children'][*]" speed_node end));
  meta_tree = obj end;
}

abbrev height : VssPath → ℕ
height path = if str_eq vehicle_path path.jsonpath then 1 else 0

only_one :
    (p : String) (vs : Items) (jpath : Json)
    → Path (Result Json) (ok (arr (item (str p) nil))) (ok (arr vs))
    → Member jpath (items vs)
    → jpath ≡ str p
only_one p nil jpath q m = cc
only_one p (item v nil) jpath q first = cc
only_one p (item v nil) jpath q (later m) = elim m [ ]
only_one p (item v (item w vs)) jpath q m = cc

not_any :
    (vs : Items) (jpath : Json)
    → Path (Result Json) (ok (arr nil)) (ok (arr vs))
    → Member jpath (items vs)
    → ⊥
not_any nil jpath q m = elim m [ ]
not_any (item v vs) jpath q m = cc

selects :
    (p : String) (vs : Items) (jpath : Json)
    → sample_jsoncons.json_query_paths branched.data_tree p ≡ ok (arr vs)
    → Member jpath (items vs)
    → jpath ≡ str p
unfolding jsoncons lookup
selects p vs jpath q m = elim (Bool-cases (str_eq vehicle_path p)) [
  | inl e ↦ only_one p vs jpath (rw e at q) m
  | inr e ↦ elim (Bool-cases (str_eq "$['Vehicle']['children'][*]" p)) [
    | inl e' ↦ only_one p vs jpath (rw (e, e') at q) m
    | inr e' ↦ absurd (not_any vs jpath (rw (e, e') at q) m)
  ]
]

is_vehicle :
    (p text : String)
    → inspect branched (str p) ≡ ok (branch text)
    → (str_eq vehicle_path p ≡ true) × (text ≡ p)
unfolding inspect jsoncons lookup
is_vehicle p text h = elim (Bool-cases (str_eq vehicle_path p)) [
  | inl e ↦ let h' = rw e at h in (e, cc)
  | inr e ↦ elim (Bool-cases (str_eq "$['Vehicle']['children'][*]" p)) [
    | inl e' ↦ absurd (cc (rw (e, e') at h))
    | inr e' ↦ absurd (cc (rw (e, e') at h))
  ]
]

branched-Descends : Descends branched height
unfolding from_json
branched-Descends path vs jpath text q m h =
    let same = selects path.jsonpath vs jpath q m in
    let (top, named) = is_vehicle path.jsonpath text (rw same at h) in
    let spelled : text ≡ vehicle_path = named ∙ sym ((eq_iff vehicle_path path.jsonpath).0 top) in
    rw (top, spelled) (omega arith)

leaf_paths-ends_example : leaf_paths 2 branched (from_vss "Vehicle") ≢ out_of_fuel
unfolding from_vss boost_text
leaf_paths-ends_example =
    leaf_paths-ends branched height 2 (from_vss "Vehicle") branched-Descends (omega arith)
