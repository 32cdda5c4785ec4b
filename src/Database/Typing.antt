-- ===== src/Database/Typing.antt =====
-- What the tree holds after a set of a signal of an integer type.
use kuksa_val.Database.RoundTrip.{IsAttribute, SetOutcome, refused, stored, set_signal-SetOutcome}
use kuksa_val.Database.Signals.{Server, set_signal}
use kuksa_val.Exception.{Result, ok, ok-ne-err}
use kuksa_val.External.{BoostText, Clock, Jsoncons, IsNamePath}
use kuksa_val.Json.{Json, Members, int, arr, obj, item, nil, find, lookup}
use kuksa_val.Numbers.{IntType, InRange, Floats}
use kuksa_val.Path.{VssPath}
use kuksa_val.Prelude.{String, ◌≡◌, ap, ◌∙◌, some, subst}
use kuksa_val.Prelude.Int.{ℤ}
use kuksa_val.Sanitizer.DataTypes.{integer, vss_type}
use kuksa_val.Sanitizer.Numeric.{Streams, text_of}
use kuksa_val.Sanitizer.Range.{WithinLimits, check_and_sanitize_type-integer}

module _ ⦃J : Jsoncons⦄ ⦃B : BoostText⦄ ⦃S : Streams⦄ ⦃F : Floats⦄ ⦃C : Clock⦄ where
  -- The path selects one node, whose attribute is a number of the type between the limits of the
  -- signal.
  pub record IsTyped (t : IntType) (path attr : String) (limits tree : Json) : Type 0 where
    pub number : ℤ
    pub fits : InRange t number
    pub within : WithinLimits t limits number
    pub node : Members
    pub selected : J.json_query tree path ≡ ok (arr (item (obj node) nil))
    pub held : lookup attr node ≡ some (int number)

  outcome-IsTyped :
      (t : IntType) (dt : String) (path : VssPath) (attr : String) (value element answer : Json)
      (s s' : Server)
      → IsAttribute attr
      → IsNamePath path.jsonpath
      → J.json_query s.db.data_tree path.jsonpath ≡ ok (arr (item element nil))
      → text_of (find "datatype" element) ≡ ok dt
      → vss_type dt ≡ integer t
      → SetOutcome path attr value element s (ok answer, s')
      → IsTyped t path.jsonpath attr element s'.db.data_tree
  outcome-IsTyped t dt path attr value element answer s s' a plain found named typed (refused e h) =
      absurd (ok-ne-err (ap (λ (x : Result Json × Server). x.0) h))
  outcome-IsTyped t dt path attr value element answer s s' a plain found named typed
        (stored w ms node tree datatype handler st is_object passed replaced read published h) =
      let (n, is_number, _, fits, within) =
        (check_and_sanitize_type-integer t dt element named typed value w).0 passed in
      record {
        number = n;
        fits = fits;
        within = within;
        node = node;
        selected =
            ap (λ (x : Result Json × Server). J.json_query x.1.db.data_tree path.jsonpath) h
            ∙ J.query-replace s.db.data_tree tree element (obj node) path.jsonpath plain found
                replaced;
        held = st.value ∙ ap some is_number;
      }

  -- After a successful set of the value or the target value of a signal of an integer type, on a
  -- path of names that selects one node, the tree holds for it a number of this type, between the limits of the signal, whatever the
  -- client has sent.
  pub set_signal-IsTyped :
      (t : IntType) (dt : String) (path : VssPath) (attr : String) (value element answer : Json)
      (s s' : Server)
      → IsAttribute attr
      → IsNamePath path.jsonpath
      → J.json_query s.db.data_tree path.jsonpath ≡ ok (arr (item element nil))
      → text_of (find "datatype" element) ≡ ok dt
      → vss_type dt ≡ integer t
      → set_signal path attr value s ≡ (ok answer, s')
      → IsTyped t path.jsonpath attr element s'.db.data_tree
  set_signal-IsTyped t dt path attr value element answer s s' a plain found named typed h =
      outcome-IsTyped t dt path attr value element answer s s' a plain found named typed (
        subst (λ r. SetOutcome path attr value element s r) h
          (set_signal-SetOutcome path attr value element s a found))
