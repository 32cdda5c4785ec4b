-- ===== src/Tests/Fixtures.antt =====
-- The inputs that the tests share: a tree with one signal, channels, subscriptions and systems.
use kuksa_val.Channel.{KuksaChannel, websocket_plain}
use kuksa_val.Database.Nodes.{Database}
use kuksa_val.Database.Signals.{Server}
use kuksa_val.Command.{RequestValidator}
use kuksa_val.Exception.{ok}
use kuksa_val.External.{
  IsNamePath, BoostText, Jsoncons, Regex, Clock, Uuids, Jwt, boost_text, jsoncons, regex, clock,
  uuids, jwt,
}
use kuksa_val.Json.{Json, int, str, obj, Members, end, member}
use kuksa_val.Numbers.{Floats}
use kuksa_val.Prelude.{refl, ℕ, String, true, false, [], ◌∷◌}
use kuksa_val.Prelude.Int.{pos}
use kuksa_val.Sanitizer.Numeric.{Streams}
use kuksa_val.Subscription.State.{Key, Table, Notification, Handler, Guards}

instance abbrev pub sample_boost : BoostText
sample_boost = boost_text

instance abbrev pub sample_jsoncons : Jsoncons
sample_jsoncons = jsoncons

instance abbrev pub sample_regex : Regex
sample_regex = regex

instance abbrev pub sample_clock : Clock
sample_clock = clock

instance abbrev pub sample_uuids : Uuids
sample_uuids = uuids

instance abbrev pub sample_jwt : Jwt
sample_jwt = jwt

instance abbrev pub sample_streams : Streams
sample_streams = record { show_integer = λ t n. "n"; show_float = λ n. "f"; show_double = λ n. "d" }

instance abbrev pub sample_floats : Floats
sample_floats = record {
  float_lt = λ a b. false;
  double_lt = λ a b. false;
  float_infinite = λ n. false;
  double_infinite = λ n. false;
  widen = λ n. n;
}

-- A signal of type uint8 with a largest value.
abbrev pub speed_members : Members
speed_members =
    member "type" (str "sensor")
      (member "datatype" (str "uint8") (member "max" (int (pos 200)) end))

abbrev pub speed_node : Json
speed_node = obj speed_members

abbrev pub speed_json_path : String
speed_json_path = "$['Vehicle']['children']['Speed']"

pub speed_json_path-IsNamePath : IsNamePath speed_json_path
speed_json_path-IsNamePath = record {
  first = "Vehicle";
  rest = "children" ∷ "Speed" ∷ [];
  names = ((refl, refl, λ q. cc), ((refl, refl, λ q. cc), ((refl, refl, λ q. cc), tt)));
  spelled = refl;
}

abbrev pub tree : Json
tree = obj (member speed_json_path speed_node end)

abbrev pub database : Database
database = record { data_tree = tree; meta_tree = tree }

abbrev pub client : ℕ → Json → KuksaChannel
client id permissions = record {
  connection_id = id;
  authorized = true;
  modify_tree = false;
  auth_token = "";
  permissions = permissions;
  type_of_connection = websocket_plain;
}

-- A client that may read and write the signal.
abbrev pub driver : KuksaChannel
driver = client 1 (str "Vehicle.Speed")

abbrev pub passenger : KuksaChannel
passenger = client 2 (str "{}")

-- A client that may change the tree.
abbrev pub admin : KuksaChannel
admin = record passenger { modify_tree = true }

abbrev pub speed_key : Key
speed_key = record { path = "Vehicle/Speed"; attribute = "value" }

abbrev pub handler_of : Table → Handler
handler_of table = record {
  subscriptions = table;
  buffer = [];
  publishers = [] ∷ [];
  thread_run = true;
}

-- Two subscriptions of one client to one signal.
abbrev pub twice : Table
twice = (speed_key, (7, driver) ∷ (8, driver) ∷ []) ∷ []

abbrev pub payload : Json
payload = obj (member "dp" (obj (member "value" (int (pos 9)) end)) end)

abbrev pub note : ℕ → KuksaChannel → Notification
note id channel = record { id = id; channel = channel; datatype = "uint8"; payload = payload }

abbrev pub server : Server
server = record { db = database; handler = handler_of twice }

-- Every path exists and may be read.
abbrev pub all_open : Guards
all_open = record {
  path_exists = λ path. ok true;
  path_is_readable = λ path. ok true;
  check_read_access = λ channel path. ok true;
}

instance abbrev pub sample_validator : RequestValidator
sample_validator = record {
  validate_get = λ request. ok tt;
  validate_set = λ request. ok tt;
  validate_subscribe = λ request. ok tt;
  validate_unsubscribe = λ request. ok tt;
  validate_update_metadata = λ request. ok tt;
  validate_update_vss_tree = λ request. ok tt;
  trim = λ text. text;
}
