-- ===== src/Subscription/State.antt =====
-- SubscriptionHandler: its state, and the operations that clients and the database call. A map is
-- a list of entries in the order in which an iteration meets them; log messages are left out.
use kuksa_val.Channel.{KuksaChannel, same_channel}
use kuksa_val.Exception.{
  no_path_found_on_tree, no_permission, key_not_found, Result, ok, err, ◌>>=◌, ◌>>◌, throw_if,
}
use kuksa_val.Json.{Json, find}
use kuksa_val.Path.{VssPath, from_vss}
use kuksa_val.External.{BoostText}
use kuksa_val.Prelude.{
  ℕ, String, ◌<>◌, Bool, false, not, ◌&&◌, ◌||◌, Option, none, some, List, [], ◌∷◌, ◌++◌, map, ◌==◌,
  if◌then◌else◌, str_eq,
}

-- subscription_keys
pub record Key : Type 0 where
  pub path : String
  pub attribute : String

abbrev pub key_of : VssPath → String → Key
key_of path attribute = record { path = path.vsspath; attribute = attribute }

unfoldable pub same_key : Key → Key → Bool
same_key p q = str_eq p.path q.path && str_eq p.attribute q.attribute

-- subscriptions_t: identifier and channel of each subscription to one key.
abbrev pub Subscriptions : Type 0
Subscriptions = List (ℕ × KuksaChannel)

abbrev pub Table : Type 0
Table = List (Key × Subscriptions)

-- An entry of the queue `buffer`.
pub record Notification : Type 0 where
  pub id : ℕ
  pub channel : KuksaChannel
  pub datatype : String
  pub payload : Json

-- `publishers` holds, for each IPublisher, the calls of its sendPathValue so far.
pub record Handler : Type 0 where
  pub subscriptions : Table
  pub buffer : List Notification
  pub publishers : List (List (String × Json))
  pub thread_run : Bool

-- subsforpath[id] = channel
unfoldable pub put_subscription : ℕ → KuksaChannel → Subscriptions → Subscriptions
put_subscription id channel [] = (id, channel) ∷ []
put_subscription id channel ((other, old) ∷ subs) =
    if other == id then (id, channel) ∷ subs else (other, old) ∷ put_subscription id channel subs

-- subscriptions[key][id] = channel
unfoldable pub put_key : Key → ℕ → KuksaChannel → Table → Table
unfolding put_subscription same_key
put_key key id channel [] = (key, put_subscription id channel []) ∷ []
put_key key id channel ((other, subs) ∷ table) =
    if same_key other key
    then (other, put_subscription id channel subs) ∷ table
    else (other, subs) ∷ put_key key id channel table

-- subscriptions.find(key)
unfoldable pub find_key : Key → Table → Option Subscriptions
unfolding same_key
find_key key [] = none
find_key key ((other, subs) ∷ table) = if same_key other key then some subs else find_key key table

-- What subscribe asks of the database and of the access checker.
pub record Guards : Type 0 where
  pub path_exists : VssPath → Result Bool
  pub path_is_readable : VssPath → Result Bool
  pub check_read_access : KuksaChannel → VssPath → Result Bool

module _ ⦃B : BoostText⦄ (g : Guards) where
  -- The tests of subscribe, each with what it throws.
  unfoldable pub subscribe_guards : KuksaChannel → String → Result (Unit {0})
  subscribe_guards channel path = do
    let vss_path = from_vss path
    exists ← g.path_exists vss_path
    throw_if (not exists) (no_path_found_on_tree path)
    readable ← g.path_is_readable vss_path
    throw_if (not readable) (
        no_path_found_on_tree
          (path <> " is not a sensor, actor or attribute leaf. Subscribe not supported"))
    allowed ← g.check_read_access channel vss_path
    throw_if (not allowed) (no_permission ("no permission to subscribe to path " <> path))

  -- subscribe, with the identifier that the random generator gives.
  unfoldable pub subscribe : ℕ → KuksaChannel → String → String → Handler → Result (ℕ × Handler)
  unfolding subscribe_guards put_key
  subscribe id channel path attribute h = do
    subscribe_guards channel path
    let table = put_key (key_of (from_vss path) attribute) id channel h.subscriptions
    ok (id, record h { subscriptions = table })

-- subsforpath.erase(subsforpath.find(id)), where the identifier is there.
unfoldable pub erase_id : ℕ → Subscriptions → Subscriptions
erase_id id [] = []
erase_id id ((other, channel) ∷ subs) =
    if other == id then subs else (other, channel) ∷ erase_id id subs

unfoldable pub has_id : ℕ → Subscriptions → Bool
has_id id [] = false
has_id id ((other, channel) ∷ subs) = (other == id) || has_id id subs

unfoldable pub found_in : ℕ → Table → Bool
unfolding has_id
found_in id [] = false
found_in id ((key, subs) ∷ table) = has_id id subs || found_in id table

unfoldable pub erase_everywhere : ℕ → Table → Table
unfolding erase_id
erase_everywhere id [] = []
erase_everywhere id ((key, subs) ∷ table) = (key, erase_id id subs) ∷ erase_everywhere id table

-- unsubscribe answers 0 (true) or -1 (false).
unfoldable pub unsubscribe : ℕ → Handler → Bool × Handler
unfolding found_in erase_everywhere
unsubscribe id h =
    (found_in id h.subscriptions, record h { subscriptions = erase_everywhere id h.subscriptions })

-- erase(find_if(…)): the first subscription of the channel.
unfoldable pub erase_channel : KuksaChannel → Subscriptions → Subscriptions
unfolding same_channel
erase_channel channel [] = []
erase_channel channel ((id, other) ∷ subs) =
    if same_channel other channel then subs else (id, other) ∷ erase_channel channel subs

unfoldable pub erase_channel_everywhere : KuksaChannel → Table → Table
unfolding erase_channel
erase_channel_everywhere channel [] = []
erase_channel_everywhere channel ((key, subs) ∷ table) =
    (key, erase_channel channel subs) ∷ erase_channel_everywhere channel table

unfoldable pub unsubscribe_all : KuksaChannel → Handler → Handler
unfolding erase_channel_everywhere
unsubscribe_all channel h = record h {
  subscriptions = erase_channel_everywhere channel h.subscriptions;
}

-- data["dp"][attr]
abbrev pub or_missing : String → Option Json → Result Json
or_missing k none = err (key_not_found k)
or_missing k (some v) = ok v

abbrev pub member_of : String → Json → Result Json
member_of k j = or_missing k (find k j)

abbrev pub notify : String → Json → ℕ × KuksaChannel → Notification
notify datatype payload sub = record {
  id = sub.0;
  channel = sub.1;
  datatype = datatype;
  payload = payload;
}

-- The loop over the subscriptions of the key, if there is one.
unfoldable pub push_all :
    Option Subscriptions → String → Json → List Notification → List Notification
push_all none datatype payload buffer = buffer
push_all (some subs) datatype payload buffer = buffer ++ map (notify datatype payload) subs

unfoldable pub publish : VssPath → String → String → Json → Handler → Result Handler
unfolding find_key push_all
publish path datatype attribute payload h = do
  dp ← member_of "dp" payload
  value ← member_of attribute dp
  ok (record h {
    publishers = map (λ sent. sent ++ (path.vsspath, value) ∷ []) h.publishers;
    buffer = push_all (find_key (key_of path attribute) h.subscriptions) datatype payload h.buffer;
  })
