-- ===== src/Database/Signals.antt =====
-- VssDatabase::setSignal and getSignal. What a failing setSignal has written stays written, so the
-- state comes back beside the error.
use kuksa_val.Exception.{gen_exception, not_set, not_an_object, Result, ok, err, ◌>>=◌}
use kuksa_val.External.{BoostText, Clock, Jsoncons}
use kuksa_val.Json.{Json, int, str, arr, obj, Members, end, find, lookup, assign, size, contains}
use kuksa_val.Numbers.{uint32, uint64, Floats}
use kuksa_val.Path.{VssPath, to_string}
use kuksa_val.Prelude.{String, ◌<>◌, Bool, true, false, Option, none, some, ◌==◌, if◌then◌else◌}
use kuksa_val.Prelude.Int.{pos}
use kuksa_val.Response.{add_time_stamp, convert_time_stamp}
use kuksa_val.Sanitizer.Numeric.{Streams, text_of}
use kuksa_val.Sanitizer.Checks.{check_and_sanitize_type}
use kuksa_val.Subscription.State.{Handler, publish, or_missing}
use kuksa_val.Database.Nodes.{Database, front}

-- The database with the subscription handler that it calls.
pub record Server : Type 0 where
  pub db : Database
  pub handler : Handler

module _ ⦃J : Jsoncons⦄ ⦃B : BoostText⦄ ⦃S : Streams⦄ ⦃F : Floats⦄ ⦃C : Clock⦄ where
  -- The node with the new value and its time stamp.
  unfoldable pub stamped : String → Json → Members → Members
  unfolding assign add_time_stamp
  stamped attr value node = add_time_stamp ("-" <> attr) (assign attr value node)

  unfoldable pub datapoint_of : String → Json → Members → Result Members
  unfolding assign
  datapoint_of attr value node = do
    ts_s ← or_missing "ts_s" (lookup ("ts_s-" <> attr) node)
    ts_ns ← or_missing "ts_ns" (lookup ("ts_ns-" <> attr) node)
    ok (assign "ts_ns" ts_ns (assign "ts_s" ts_s (assign attr value end)))

  -- The answer, and what is published.
  unfoldable pub data_of : VssPath → Members → Json
  unfolding assign
  data_of path datapoint =
      obj (assign "dp" (obj datapoint) (assign "path" (str (to_string path)) end))

  abbrev pub after_publish : Json → Server → Result Handler → Result Json × Server
  after_publish payload s (ok handler) = (ok payload, record s { handler = handler })
  after_publish payload s (err e) = (err e, s)

  abbrev pub after_datatype :
      VssPath → String → Json → Server → Result String → Result Json × Server
  after_datatype path attr payload s (ok datatype) =
      after_publish payload s (publish path datatype attr payload s.handler)
  after_datatype path attr payload s (err e) = (err e, s)

  abbrev pub after_datapoint :
      VssPath → String → Members → Server → Result Members → Result Json × Server
  after_datapoint path attr node s (ok datapoint) =
      after_datatype path attr (data_of path datapoint) s (text_of (lookup "datatype" node))
  after_datapoint path attr node s (err e) = (err e, s)

  -- After the tree has been replaced.
  unfoldable pub after_replace : VssPath → String → Json → Members → Server → Result Json × Server
  unfolding datapoint_of data_of
  after_replace path attr value node s =
      after_datapoint path attr node s (datapoint_of attr value node)

  abbrev pub members_of_node : Json → Result Members
  members_of_node (obj ms) = ok ms
  members_of_node _ = err (not_an_object "")

  -- The node's new members, the sanitized value and the new tree: all that may fail before
  -- anything is written.
  pub record Update : Type 0 where
    pub node : Members
    pub value : Json
    pub tree : Json

  unfoldable pub prepare : Database → VssPath → String → Json → Json → Result Update
  unfolding stamped
  prepare db path attr value element =
      if contains "datatype" element
      then (do
        sanitized ← check_and_sanitize_type element value
        members ← members_of_node element
        tree ← J.json_replace db.data_tree path.jsonpath (obj (stamped attr sanitized members))
        ok (record { node = stamped attr sanitized members; value = sanitized; tree = tree }))
      else err (gen_exception (path.vsspath <> "is invalid for set"))

  unfoldable pub apply_update : VssPath → String → Server → Result Update → Result Json × Server
  unfolding after_replace
  apply_update path attr s (err e) = (err e, s)
  apply_update path attr s (ok u) =
      after_replace path attr u.value u.node (record s { db = record s.db { data_tree = u.tree } })

  abbrev pub is_array : Json → Bool
  is_array (arr vs) = true
  is_array _ = false

  -- What the query found; a path that does not select exactly one node changes nothing.
  unfoldable pub set_found : VssPath → String → Json → Server → Result Json → Result Json × Server
  unfolding apply_update prepare assign
  set_found path attr value s (err e) = (err e, s)
  set_found path attr value s (ok (arr vs)) =
      if size (arr vs) == 1
      then apply_update path attr s
          (front (arr vs) >>= λ element. prepare s.db path attr value element)
      else (ok (obj (assign "path" (str (to_string path)) end)), s)
  set_found path attr value s (ok other) = (ok (obj (assign "path" (str (to_string path)) end)), s)

  unfoldable pub set_signal : VssPath → String → Json → Server → Result Json × Server
  unfolding set_found
  set_signal path attr value s =
      set_found path attr value s (J.json_query s.db.data_tree path.jsonpath)

module _ ⦃J : Jsoncons⦄ ⦃C : Clock⦄ where
  -- The member `attr`, as it is or as text.
  unfoldable pub read_value : VssPath → String → Bool → Option Json → Result Json
  read_value path attr as_string none =
      err (not_set ("Attribute " <> attr <> " on " <> path.vsspath <> " has not been set yet."))
  read_value path attr true (some value) = do text ← J.as_string value; ok (str text)
  read_value path attr false (some value) = ok value

  -- Both numbers of the time stamp, or zeros.
  unfoldable pub read_time : Option Json → Option Json → Members → Result Members
  unfolding assign
  read_time (some ts_s) (some ts_ns) datapoint = do
    sec ← J.as_integer uint64 ts_s
    nsec ← J.as_integer uint32 ts_ns
    ok (assign "ts_ns" (int nsec) (assign "ts_s" (int sec) datapoint))
  read_time _ _ datapoint =
      ok (assign "ts_ns" (int (pos 0)) (assign "ts_s" (int (pos 0)) datapoint))

  unfoldable pub signal_of : VssPath → String → Bool → Json → Result Json
  unfolding read_value read_time assign
  signal_of path attr as_string result = do
    value ← read_value path attr as_string (find attr result)
    timed ←
        read_time (find ("ts_s-" <> attr) result) (find ("ts_ns-" <> attr) result)
          (assign attr value end)
    datapoint ← if as_string then convert_time_stamp timed else ok timed
    ok (obj (assign "dp" (obj datapoint) (assign "path" (str (to_string path)) end)))

  unfoldable pub get_signal : Database → VssPath → String → Bool → Result Json
  unfolding signal_of
  get_signal db path attr as_string = do
    res ← J.json_query db.data_tree path.jsonpath
    result ← front res
    signal_of path attr as_string result
