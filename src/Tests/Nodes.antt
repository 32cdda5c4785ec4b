-- ===== src/Tests/Nodes.antt =====
-- Tokens of paths, metadata, and what a set leaves in the tree.
use kuksa_val.Database.MetaData.{get_meta_data, get_vss_tokens}
use kuksa_val.Database.MetaData.Bound.{IsAnswered, get_meta_data-IsAnswered}
use kuksa_val.Database.MetaData.Tokens.{get_vss_tokens-bracketed}
use kuksa_val.Database.RoundTrip.{current, data_now}
use kuksa_val.Database.Signals.{set_signal}
use kuksa_val.Database.Typing.{IsTyped, set_signal-IsTyped}
use kuksa_val.External.{boost_text, jsoncons, clock}
use kuksa_val.Json.{int, lookup}
use kuksa_val.Numbers.{uint8}
use kuksa_val.Path.{from_vss}
use kuksa_val.Sanitizer.Checks.{check_and_sanitize_type}
use kuksa_val.Sanitizer.DataTypes.{vss_type}
use kuksa_val.Subscription.State.{publish}
use kuksa_val.Path.Spelling.{NoChar-of}
use kuksa_val.Prelude.{String, ◌≡◌, refl, some, List, [], ◌∷◌, arith}
use kuksa_val.Prelude.Int.{pos}
use kuksa_val.Tests.Fixtures.{
  sample_boost, sample_jsoncons, sample_clock, sample_streams, sample_floats, database, server,
  speed_node, speed_json_path, speed_json_path-IsNamePath,
}

abbrev names : List String
names = "Vehicle" ∷ "children" ∷ "Speed" ∷ []

get_vss_tokens-bracketed_example : get_vss_tokens speed_json_path ≡ some names
get_vss_tokens-bracketed_example = get_vss_tokens-bracketed names (
  (NoChar-of b'[' "Vehicle" refl, NoChar-of b'\'' "Vehicle" refl),
  (
    (NoChar-of b'[' "children" refl, NoChar-of b'\'' "children" refl),
    ((NoChar-of b'[' "Speed" refl, NoChar-of b'\'' "Speed" refl), tt),
  ),
)

get_meta_data-IsAnswered_example :
    IsAnswered database (get_meta_data database (from_vss "Vehicle.Speed"))
unfolding get_vss_tokens jsoncons from_vss boost_text lookup
get_meta_data-IsAnswered_example =
    get_meta_data-IsAnswered database (from_vss "Vehicle.Speed") (omega arith)

set_signal-IsTyped_example :
    IsTyped uint8 speed_json_path "value" speed_node
      (set_signal (from_vss "Vehicle.Speed") "value" (int (pos 9)) server).1.db.data_tree
unfolding set_signal jsoncons from_vss boost_text lookup clock vss_type check_and_sanitize_type
    publish
set_signal-IsTyped_example =
    set_signal-IsTyped uint8 "uint8" (from_vss "Vehicle.Speed") "value" (int (pos 9)) speed_node
      (data_now (from_vss "Vehicle.Speed") "value" (int (pos 9))) server
      (set_signal (from_vss "Vehicle.Speed") "value" (int (pos 9)) server).1 current
      speed_json_path-IsNamePath refl refl refl refl
