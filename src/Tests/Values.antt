-- ===== src/Tests/Values.antt =====
-- The sanitizer, time stamps, and signals that are written and read.
use kuksa_val.Database.Leaves.{leaf_paths}
use kuksa_val.Database.Branches.{IsLeaf, leaf_paths-IsLeaf}
use kuksa_val.Database.RoundTrip.{current, data_now, get_signal-set_signal}
use kuksa_val.Database.Signals.{set_signal, get_signal}
use kuksa_val.Exception.{ok}
use kuksa_val.External.{boost_text, jsoncons, clock}
use kuksa_val.Json.{Json, int, str, arr, obj, nil, item, items, end, member, lookup}
use kuksa_val.Numbers.{uint8, InRange}
use kuksa_val.Path.{from_vss, from_json}
use kuksa_val.Prelude.{◌≡◌, ◌↔◌, refl, All, [], ◌∷◌, arith, true, false}
use kuksa_val.Prelude.Int.{ℤ, pos}
use kuksa_val.Sanitizer.Arrays.{AllPass, check_and_sanitize_type-array, one_letter_datatype}
use kuksa_val.Sanitizer.Checks.{check_and_sanitize_type}
use kuksa_val.Sanitizer.DataTypes.{array, vss_type, take_text}
use kuksa_val.Sanitizer.Range.{WithinLimits, check_and_sanitize_type-integer}
use kuksa_val.Subscription.State.{publish}
use kuksa_val.Tests.Fixtures.{
  speed_json_path-IsNamePath, sample_boost, sample_jsoncons, sample_clock, sample_streams,
  sample_floats, speed_node, speed_json_path, database, server,
}

check_and_sanitize_type-integer_example :
    (check_and_sanitize_type speed_node (int (pos 9)) ≡ ok (int (pos 9))) ↔ (
      (n : ℤ) × (int (pos 9) ≡ int n)
      × (sample_jsoncons.as_integer uint8 (int (pos 9)) ≡ ok n)
      × InRange uint8 n
      × WithinLimits uint8 speed_node n)
unfolding lookup vss_type jsoncons
check_and_sanitize_type-integer_example =
    check_and_sanitize_type-integer uint8 "uint8" speed_node refl refl (int (pos 9)) (int (pos 9))

abbrev list_node : Json
list_node = obj (member "datatype" (str "uint8[]") end)

check_and_sanitize_type-array_example :
    (check_and_sanitize_type list_node (arr (item (int (pos 9)) nil))
      ≡ ok (arr (item (int (pos 9)) nil)))
    ↔ (AllPass "uint8" (items (item (int (pos 9)) nil))
        × (arr (item (int (pos 9)) nil) ≡ arr (item (int (pos 9)) nil)))
unfolding lookup vss_type jsoncons take_text
check_and_sanitize_type-array_example =
    check_and_sanitize_type-array "uint8[]" list_node refl refl (item (int (pos 9)) nil)
      (arr (item (int (pos 9)) nil))

abbrev short_node : Json
short_node = obj (member "datatype" (str "x") end)

one_letter_datatype_example :
    (vss_type "x" ≡ array) × (check_and_sanitize_type short_node (arr nil) ≡ ok (arr nil))
unfolding lookup jsoncons
one_letter_datatype_example = one_letter_datatype "x" short_node refl

get_signal-set_signal_example :
    (w : Json) × (check_and_sanitize_type speed_node (int (pos 9)) ≡ ok w)
    × (data_now (from_vss "Vehicle.Speed") "value" (int (pos 9))
        ≡ data_now (from_vss "Vehicle.Speed") "value" w)
    × (get_signal
          (set_signal (from_vss "Vehicle.Speed") "value" (int (pos 9)) server).1.db
          (from_vss "Vehicle.Speed")
          "value"
          false
        ≡ ok (data_now (from_vss "Vehicle.Speed") "value" (int (pos 9))))
unfolding lookup jsoncons from_vss clock set_signal boost_text check_and_sanitize_type publish
get_signal-set_signal_example =
    get_signal-set_signal (from_vss "Vehicle.Speed") "value" (int (pos 9)) speed_node
      (data_now (from_vss "Vehicle.Speed") "value" (int (pos 9))) server
      (set_signal (from_vss "Vehicle.Speed") "value" (int (pos 9)) server).1 current
      speed_json_path-IsNamePath (record { above = omega arith; below = omega arith })
      (record { above = omega arith; below = omega arith }) refl refl

leaf_paths-IsLeaf_example : All (IsLeaf database true) (from_json speed_json_path true ∷ [])
unfolding leaf_paths jsoncons lookup from_vss boost_text
leaf_paths-IsLeaf_example =
    leaf_paths-IsLeaf 1 database (from_vss "Vehicle.Speed") (from_json speed_json_path true ∷ [])
      refl
