-- ===== src/Tests/Requests.antt =====
-- Paths, permissions and the tree.
use kuksa_val.Access.{check_signal_access, channel_permissions, permission_for, exact_permission}
use kuksa_val.Access.Decision.{Source, check_signal_access_sound}
use kuksa_val.Exception.{ok}
use kuksa_val.External.{jsoncons, boost_text, IsNamePath, name_steps}
use kuksa_val.Json.{Json, lookup}
use kuksa_val.Path.{from_vss, gen1_to_gen2, gen2_to_gen1}
use kuksa_val.Path.Names.{nested, from_vss-IsNamePath}
use kuksa_val.Path.Spelling.{SameNode, from_vss_respelled, vssgen1path_slash}
use kuksa_val.Prelude.{◌<>◌, [], ◌∷◌, String, ◌≡◌, refl, true, ◌&&◌, NoChar, has_char, has_infix}
use kuksa_val.Tests.Fixtures.{sample_boost, sample_jsoncons, sample_regex, driver}

from_vss_respelled_example :
    SameNode (from_vss (gen2_to_gen1 "Vehicle/Speed")) (from_vss "Vehicle/Speed")
    × SameNode (from_vss (gen1_to_gen2 "Vehicle/Speed")) (from_vss "Vehicle/Speed")
    × NoChar b'.' (from_vss "Vehicle/Speed").vsspath
    × SameNode (from_vss (from_vss "Vehicle/Speed").vsspath) (from_vss "Vehicle/Speed")
from_vss_respelled_example = from_vss_respelled "Vehicle/Speed"

from_vss-IsNamePath_example :
    ((from_vss "Vehicle.Speed").jsonpath ≡ "$" <> name_steps ("Vehicle" ∷ nested ("Speed" ∷ [])))
    × IsNamePath (from_vss "Vehicle.Speed").jsonpath
unfolding boost_text gen1_to_gen2
from_vss-IsNamePath_example =
    from_vss-IsNamePath "Vehicle.Speed" "Vehicle" ("Speed" ∷ []) refl
      ((refl, refl, λ q. cc), ((refl, refl, λ q. cc), tt))

vssgen1path_slash_example :
    has_char b'/' (from_vss "Vehicle.Cabin/Door").vssgen1path
    ≡ (has_char b'.' "Vehicle.Cabin/Door" && has_char b'/' "Vehicle.Cabin/Door")
vssgen1path_slash_example = vssgen1path_slash "Vehicle.Cabin/Door"

check_signal_access_sound_example :
    (permissions : Json) × (value : String) × (channel_permissions driver ≡ ok permissions)
    × Source permissions "Vehicle.Speed" value
    × (has_infix "w" value ≡ true)
unfolding check_signal_access channel_permissions permission_for exact_permission jsoncons lookup
check_signal_access_sound_example = check_signal_access_sound driver "Vehicle.Speed" "w" refl refl
