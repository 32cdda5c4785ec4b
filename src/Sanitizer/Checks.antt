-- ===== src/Sanitizer/Checks.antt =====
-- VSSTypeSanitizer.cpp: texts, Booleans and arrays, and checkAndSanitizeType.
use kuksa_val.Exception.{out_of_bound, gen_exception, std_error, what, Result, ok, err, ◌>>=◌, ◌>>◌}
use kuksa_val.External.{BoostText, Jsoncons}
use kuksa_val.Json.{Json, bool, str, arr, obj, Items, nil, item, items, end, member, find}
use kuksa_val.Numbers.{Floats}
use kuksa_val.Prelude.{
  String, ◌<>◌, Bool, true, false, Option, none, some, List, [], ◌∷◌, if◌then◌else◌, str_eq,
}
use kuksa_val.Sanitizer.DataTypes.{
  VssType, integer, float, double_float, boolean, text, array, unsupported, vss_type, size_less_two,
  take_text,
}
use kuksa_val.Sanitizer.Numeric.{
  Streams, text_of, check_num_types, integer_num, float_num, double_num,
}

-- item.as_string() == val, a text against a JSON value.
abbrev pub is_text : String → Json → Bool
is_text s (str t) = str_eq s t
is_text s _ = false

-- json::array_range() throws for what is no array.
abbrev pub array_range : Json → Result (List Json)
array_range (arr vs) = ok (items vs)
array_range _ = err (std_error "Not an array")

module _ ⦃J : Jsoncons⦄ where
  open J use {as_string, print}

  -- checkEnumType: the definition's elements, as texts, against the value.
  unfoldable pub check_enum_items : List Json → Json → Result Bool
  check_enum_items [] val = ok false
  check_enum_items (allowed ∷ rest) val = do
    shown ← as_string allowed
    let later = check_enum_items rest val
    if is_text shown val then ok true else later

  unfoldable pub not_listed : Json → Json → Result (Unit {0})
  not_listed definition val = do
    shown ← as_string val
    err (out_of_bound (shown <> " is a defined enum value. Valid values are " <> print definition))

  unfoldable pub check_enum_type : Json → Json → Result (Unit {0})
  unfolding check_enum_items not_listed
  check_enum_type definition val = do
    listed ← array_range definition
    found ← check_enum_items listed val
    if found then ok tt else not_listed definition val

  unfoldable pub check_enum : Option Json → Json → Result (Unit {0})
  unfolding check_enum_type
  check_enum none val = ok tt
  check_enum (some definition) val = check_enum_type definition val

  module _ ⦃B : BoostText⦄ where
    unfoldable pub not_a_bool : Json → Result Json
    not_a_bool val = do
      shown ← as_string val
      err (out_of_bound (shown <> " is not a bool. Valid values are true and false "))

    unfoldable pub check_bool_type : Json → Result Json
    unfolding not_a_bool
    check_bool_type val = do
      quoted ← as_string val
      let v = B.erase_all quoted "\""
      if str_eq v "true"
          then ok (bool true)
          else if str_eq v "false"
          then ok (bool false)
          else not_a_bool val

    module _ ⦃S : Streams⦄ ⦃F : Floats⦄ where
      -- The catch clauses of checkArrayType; the value itself stays as it was.
      unfoldable pub array_result : String → Json → Result (Unit {0}) → Result Json
      array_result subdatatype val (ok _) = ok val
      array_result subdatatype val (err e) = err (
          out_of_bound (
            "Value "
            <> print val
            <> " can not be converted to defined type "
            <> subdatatype
            <> "[]. Reason: "
            <> what e))

      -- checkAndSanitizeType with the loop of checkArrayType over val, given the elements' type.
      unfoldable pub check_typed :
          VssType → String → (String → Result (Unit {0})) → Json → Json → Result Json
      unfolding check_num_types check_bool_type check_enum array_result
      check_typed (integer t) dt elements meta val = check_num_types (integer_num t) meta val
      check_typed float dt elements meta val = check_num_types float_num meta val
      check_typed double_float dt elements meta val = check_num_types double_num meta val
      check_typed boolean dt elements meta val = check_bool_type val
      check_typed text dt elements meta val = do
        check_enum (find "allowed" meta) val
        check_enum (find "enum" meta) val
        ok val
      check_typed array dt elements meta val =
          let subdatatype = take_text (size_less_two dt) dt in
          array_result subdatatype val (elements subdatatype)
      check_typed unsupported dt elements meta val =
          err (gen_exception ("The datatype " <> dt <> " is not supported "))

      unfoldable pub check_with : (String → Result (Unit {0})) → Json → Json → Result Json
      unfolding check_typed vss_type
      check_with elements meta val = do
        dt ← text_of (find "datatype" meta)
        check_typed (vss_type dt) dt elements meta val

      abbrev pub element_meta : String → Json
      element_meta subdatatype = obj (member "datatype" (str subdatatype) end)

      -- The loop of checkArrayType: each element is checked as a copy, which is dropped.
      unfoldable mutual
        unfolding check_with

        pub check_elements : Json → String → Result (Unit {0})
        check_elements (arr vs) subdatatype = check_items vs subdatatype
        check_elements _ subdatatype = err (std_error "Not an array")

        pub check_items : Items → String → Result (Unit {0})
        check_items nil subdatatype = ok tt
        check_items (item v vs) subdatatype =
            check_with (check_elements v) (element_meta subdatatype) v >> check_items vs subdatatype

      unfoldable pub check_and_sanitize_type : Json → Json → Result Json
      unfolding check_with check_elements
      check_and_sanitize_type meta val = check_with (check_elements val) meta val
