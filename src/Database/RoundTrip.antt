-- ===== src/Database/RoundTrip.antt =====
-- Setting a signal and reading it back, and what a failed set leaves behind.
use kuksa_val.Exception.{Exception, Result, ok, err, >>=-eq-ok, ok-injective, ok-ne-err}
use kuksa_val.External.{BoostText, Clock, Jsoncons, IsNamePath}
use kuksa_val.Json.{
  Json, int, arr, obj, Members, item, nil, end, find, lookup, assign, lookup-assign, contains,
}
use kuksa_val.Numbers.{uint32, uint64, Floats, InRange}
use kuksa_val.Path.{VssPath}
use kuksa_val.Prelude.{
  String, ◌<>◌, ◌≡◌, inl, inr, refl, sym, ap, subst, ◌∙◌, false, some, [], ◌∷◌, ◌++◌, map,
  Bool-cases, ◌≢◌, str_eq, eq_iff,
}
use kuksa_val.Response.{add_time_stamp}
use kuksa_val.Sanitizer.Numeric.{Streams, text_of}
use kuksa_val.Sanitizer.Checks.{check_and_sanitize_type, check_with}
use kuksa_val.Subscription.State.{Handler, publish, member_of, push_all, find_key, key_of}
use kuksa_val.Database.Nodes.{Database}
use kuksa_val.Database.Signals.{
  Server, Update, stamped, datapoint_of, data_of, after_replace, prepare, apply_update, set_found,
  set_signal, get_signal, signal_of, read_time, members_of_node,
}

-- The attributes of a signal that pathIsAttributable lets a client set.
pub data IsAttribute : String → Type 0 where
  current : IsAttribute "value"
  target : IsAttribute "targetValue"

str_eq_other : (key other : String) → key ≢ other → str_eq other key ≡ false
str_eq_other key other different = elim (Bool-cases (str_eq other key)) [
  | inl same ↦ absurd (different (sym ((eq_iff other key).0 same)))
  | inr q ↦ q
]

module _ ⦃J : Jsoncons⦄ ⦃B : BoostText⦄ ⦃S : Streams⦄ ⦃F : Floats⦄ ⦃C : Clock⦄ where
  -- The node with the value and the two numbers of the clock, and else as it was.
  pub record IsStamped (attr : String) (w : Json) (ms node : Members) : Type 0 where
    pub value : lookup attr node ≡ some w
    pub seconds : lookup ("ts_s-" <> attr) node ≡ some (int C.seconds)
    pub nanoseconds : lookup ("ts_ns-" <> attr) node ≡ some (int C.nanoseconds)
    pub others :
        (key : String)
        → key ≢ attr
        → key ≢ ("ts_s-" <> attr)
        → key ≢ ("ts_ns-" <> attr)
        → lookup key node ≡ lookup key ms

  stamped-IsStamped :
      {attr : String}
      → IsAttribute attr
      → (w : Json) (ms : Members) → IsStamped attr w ms (stamped attr w ms)
  unfolding stamped add_time_stamp
  stamped-IsStamped current w ms = record {
    value = simp lookup-assign;
    seconds = simp lookup-assign;
    nanoseconds = simp lookup-assign;
    others = λ key a b c.
        simp (lookup-assign, str_eq_other key _ a, str_eq_other key _ b, str_eq_other key _ c);
  }
  stamped-IsStamped target w ms = record {
    value = simp lookup-assign;
    seconds = simp lookup-assign;
    nanoseconds = simp lookup-assign;
    others = λ key a b c.
        simp (lookup-assign, str_eq_other key _ a, str_eq_other key _ b, str_eq_other key _ c);
  }

  IsStamped-datatype :
      {attr : String} (a : IsAttribute attr) (w : Json) (ms node : Members)
      → IsStamped attr w ms node
      → lookup "datatype" node ≡ lookup "datatype" ms
  IsStamped-datatype current w ms node st = st.others "datatype" (λ q. cc) (λ q. cc) (λ q. cc)
  IsStamped-datatype target w ms node st = st.others "datatype" (λ q. cc) (λ q. cc) (λ q. cc)

  -- The answer of a set, and of a get right after it.
  abbrev pub datapoint_now : String → Json → Members
  datapoint_now attr w =
      assign "ts_ns" (int C.nanoseconds) (assign "ts_s" (int C.seconds) (assign attr w end))

  abbrev pub data_now : VssPath → String → Json → Json
  data_now path attr w = data_of path (datapoint_now attr w)

  datapoint_of-IsStamped :
      {attr : String} (w : Json) (ms node : Members)
      → IsStamped attr w ms node
      → datapoint_of attr w node ≡ ok (datapoint_now attr w)
  unfolding datapoint_of
  datapoint_of-IsStamped w ms node st = rw (st.seconds, st.nanoseconds)

  signal_of-IsStamped :
      {attr : String} (path : VssPath) (w : Json) (ms node : Members)
      → IsStamped attr w ms node
      → InRange uint64 C.seconds
      → InRange uint32 C.nanoseconds
      → signal_of path attr false (obj node) ≡ ok (data_now path attr w)
  unfolding signal_of data_of
  signal_of-IsStamped path w ms node st late small = rw (
    st.value,
    st.seconds,
    st.nanoseconds,
    read_time,
    J.as_integer-int uint64 C.seconds late,
    J.as_integer-int uint32 C.nanoseconds small,
  )

  publish-succeeds :
      (path : VssPath) (datatype attr : String) (payload dp v : Json) (h : Handler)
      → member_of "dp" payload ≡ ok dp
      → member_of attr dp ≡ ok v
      → (h' : Handler) × (publish path datatype attr payload h ≡ ok h')
  unfolding publish
  publish-succeeds path datatype attr payload dp v h has_dp has_value = (
    record h {
      publishers = map (λ sent. sent ++ (path.vsspath, v) ∷ []) h.publishers;
      buffer = push_all (find_key (key_of path attr) h.subscriptions) datatype payload h.buffer;
    },
    rw (has_dp, has_value),
  )

  publish-data_now :
      {attr : String} (a : IsAttribute attr) (path : VssPath) (datatype : String) (w : Json)
      (h : Handler)
      → (h' : Handler) × (publish path datatype attr (data_now path attr w) h ≡ ok h')
  unfolding data_of
  publish-data_now current path datatype w h =
      publish-succeeds path datatype _ _ (obj (datapoint_now "value" w)) w h (simp lookup-assign)
        (simp lookup-assign)
  publish-data_now target path datatype w h =
      publish-succeeds path datatype _ _ (obj (datapoint_now "targetValue" w)) w h
        (simp lookup-assign) (simp lookup-assign)

  -- What a set on a path that selects one node can come to: it is refused and nothing has changed,
  -- or the sanitized value and its time stamp are in the node, and the data have been published.
  pub data SetOutcome (path : VssPath) (attr : String) (value element : Json) (s : Server)
      (r : Result Json × Server) : Type 0 where
    refused : (e : Exception) → r ≡ (err e, s) → SetOutcome path attr value element s r
    stored :
        (w : Json) (ms node : Members) (tree : Json) (datatype : String) (handler : Handler)
        → IsStamped attr w ms node
        → element ≡ obj ms
        → check_and_sanitize_type element value ≡ ok w
        → J.json_replace s.db.data_tree path.jsonpath (obj node) ≡ ok tree
        → text_of (lookup "datatype" ms) ≡ ok datatype
        → publish path datatype attr (data_now path attr w) s.handler ≡ ok handler
        → r ≡ (
          ok (data_now path attr w),
          record { db = record s.db { data_tree = tree }; handler = handler },
        )
        → SetOutcome path attr value element s r

  -- What has been found out when nothing can fail any more.
  record Prepared (path : VssPath) (attr : String) (value element : Json) (db : Database)
      (u : Update) : Type 0 where
    members : Members
    is_object : element ≡ obj members
    sanitized : check_and_sanitize_type element value ≡ ok u.value
    node : u.node ≡ stamped attr u.value members
    tree :
        J.json_replace db.data_tree path.jsonpath (obj (stamped attr u.value members)) ≡ ok u.tree

  members_of_node-eq :
      (element : Json) (ms : Members) → members_of_node element ≡ ok ms → element ≡ obj ms
  members_of_node-eq (obj ms) ms' h = ap obj (ok-injective h)
  members_of_node-eq _ ms' h = absurd (ok-ne-err (sym h))

  prepare-Prepared :
      (db : Database) (path : VssPath) (attr : String) (value element : Json) (u : Update)
      → prepare db path attr value element ≡ ok u
      → Prepared path attr value element db u
  unfolding prepare
  prepare-Prepared db path attr value element u h =
      elim (Bool-cases (contains "datatype" element)) [
        | inr without ↦ absurd (ok-ne-err (sym (rw without at h)))
        | inl typed ↦
            let (w, sanitized, h₁) =
              >>=-eq-ok (check_and_sanitize_type element value) _ (rw typed at h) in
            let (ms, taken, h₂) = >>=-eq-ok (members_of_node element) _ h₁ in
            let (tree, replaced, h₃) =
              >>=-eq-ok (J.json_replace db.data_tree path.jsonpath (obj (stamped attr w ms))) _
                h₂ in
            let same = ok-injective h₃ in
            subst (Prepared path attr value element db) same (record {
              members = ms;
              is_object = members_of_node-eq element ms taken;
              sanitized = sanitized;
              node = refl;
              tree = replaced;
            })
      ]

  check-datatype :
      (element value w : Json)
      → check_and_sanitize_type element value ≡ ok w
      → (datatype : String) × (text_of (find "datatype" element) ≡ ok datatype)
  unfolding check_and_sanitize_type check_with
  check-datatype element value w h =
      let (datatype, read, _) = >>=-eq-ok (text_of (find "datatype" element)) _ h in
      (datatype, read)

  apply_update-SetOutcome :
      {attr : String} (a : IsAttribute attr) (path : VssPath) (value element : Json) (s : Server)
      (r : Result Update)
      → prepare s.db path attr value element ≡ r
      → SetOutcome path attr value element s (apply_update path attr s r)
  unfolding apply_update after_replace
  apply_update-SetOutcome a path value element s (err e) q = refused e refl
  apply_update-SetOutcome {attr} a path value element s (ok u) q =
      let p = prepare-Prepared s.db path attr value element u q in
      let st = stamped-IsStamped a u.value p.members in
      let (datatype, read) = check-datatype element value u.value p.sanitized in
      let typed : text_of (lookup "datatype" p.members) ≡ ok datatype =
        subst (λ (j : Json). text_of (find "datatype" j) ≡ ok datatype) p.is_object read in
      let (handler, published) = publish-data_now a path datatype u.value s.handler in
      stored u.value p.members (stamped attr u.value p.members) u.tree datatype handler st
        p.is_object p.sanitized p.tree typed published
        (rw (
          p.node,
          datapoint_of-IsStamped u.value p.members _ st,
          IsStamped-datatype a u.value p.members _ st,
          typed,
          published,
        ))

  pub set_signal-SetOutcome :
      (path : VssPath) (attr : String) (value element : Json) (s : Server)
      → IsAttribute attr
      → J.json_query s.db.data_tree path.jsonpath ≡ ok (arr (item element nil))
      → SetOutcome path attr value element s (set_signal path attr value s)
  unfolding set_signal set_found
  set_signal-SetOutcome path attr value element s a found =
      rw found (apply_update-SetOutcome a path value element s _ refl)

  get_signal-IsStamped :
      {attr : String} (path : VssPath) (w : Json) (ms node : Members) (db : Database)
      → IsStamped attr w ms node
      → InRange uint64 C.seconds
      → InRange uint32 C.nanoseconds
      → J.json_query db.data_tree path.jsonpath ≡ ok (arr (item (obj node) nil))
      → get_signal db path attr false ≡ ok (data_now path attr w)
  unfolding get_signal
  get_signal-IsStamped path w ms node db st late small found =
      rw found (signal_of-IsStamped path w ms node st late small)

  -- On a path of names that selects one node, and with a clock whose numbers fit their types, reading the
  -- value or target value of a signal right after it has been set gives the answer of the set: the
  -- path as the client wrote it, the sanitized value, and the two numbers of the clock.
  pub get_signal-set_signal :
      (path : VssPath) (attr : String) (value element data_out : Json) (s s' : Server)
      → IsAttribute attr
      → IsNamePath path.jsonpath
      → InRange uint64 C.seconds
      → InRange uint32 C.nanoseconds
      → J.json_query s.db.data_tree path.jsonpath ≡ ok (arr (item element nil))
      → set_signal path attr value s ≡ (ok data_out, s')
      → (w : Json) × (check_and_sanitize_type element value ≡ ok w)
        × (data_out ≡ data_now path attr w)
        × (get_signal s'.db path attr false ≡ ok data_out)
  get_signal-set_signal path attr value element data_out s s' a plain late small found h =
      outcome (set_signal-SetOutcome path attr value element s a found)
    where
      outcome :
          SetOutcome path attr value element s (set_signal path attr value s)
          → (w : Json) × (check_and_sanitize_type element value ≡ ok w)
            × (data_out ≡ data_now path attr w)
            × (get_signal s'.db path attr false ≡ ok data_out)
      outcome (refused e q) =
          absurd (ok-ne-err (ap (λ (r : Result Json × Server). r.0) (sym h ∙ q)))
      outcome (stored w ms node tree datatype handler st is_object sanitized replaced _ _ q) =
          let both = sym h ∙ q in
          let same : data_out ≡ data_now path attr w =
            ok-injective (ap (λ (r : Result Json × Server). r.0) both) in
          let new_tree : s'.db.data_tree ≡ tree =
            ap (λ (r : Result Json × Server). r.1.db.data_tree) both in
          let again : J.json_query s'.db.data_tree path.jsonpath ≡ ok (arr (item (obj node) nil)) =
            rw new_tree
              (J.query-replace s.db.data_tree tree element _ path.jsonpath plain found replaced) in
          (
            w,
            sanitized,
            same,
            get_signal-IsStamped path w ms node s'.db st late small again ∙ ap ok (sym same),
          )
