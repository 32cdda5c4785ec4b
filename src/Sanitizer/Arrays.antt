-- ===== src/Sanitizer/Arrays.antt =====
-- Arrays, enumerations and unknown data types.
use package.text.Mathlib.TextLemmas.{nil≢cons, tail-eq_of_cons-eq}
use kuksa_val.Exception.{
  Exception, out_of_bound, Result, ok, err, >>=-eq-ok, ok-injective, err-injective, ok-ne-err,
}
use kuksa_val.External.{BoostText, Jsoncons}
use kuksa_val.Json.{Json, arr, Items, nil, item, items, find}
use kuksa_val.Numbers.{Floats}
use kuksa_val.Prelude.{
  ◌≤◌, Char, String, ◌≡◌, ◌↔◌, refl, sym, ◌∙◌, ap, false, inl, inr, List, arith, All, Bool-cases,
  str_eq, eq_iff,
}
use kuksa_val.Sanitizer.DataTypes.{array, text, text_size, vss_type, take_text, size_less_two}
use kuksa_val.Sanitizer.Numeric.{Streams, text_of}
use kuksa_val.Sanitizer.Checks.{
  array_result, check_with, check_typed, check_elements, check_items, element_meta,
  check_and_sanitize_type,
}

one_letter_ne :
    (c d e : Char) (s : String) → String.◌∷◌ c String.[] ≡ String.◌∷◌ d (String.◌∷◌ e s) → ⊥
one_letter_ne c d e s h = nil≢cons (tail-eq_of_cons-eq h)

one_letter_unequal :
    (c : Char) (t : String) → 2 ≤ text_size t → str_eq (String.◌∷◌ c String.[]) t ≡ false
one_letter_unequal c String.[] long = absurd (omega arith)
one_letter_unequal c (String.◌∷◌ d String.[]) long = absurd (omega arith)
one_letter_unequal c (String.◌∷◌ d (String.◌∷◌ e s)) long =
    elim (Bool-cases (str_eq (String.◌∷◌ c String.[]) (String.◌∷◌ d (String.◌∷◌ e s)))) [
      | inl same ↦ absurd (one_letter_ne c d e s ((eq_iff _ _).0 same))
      | inr other ↦ other
    ]

one_letter_array : (c : Char) → vss_type (String.◌∷◌ c String.[]) ≡ array
unfolding vss_type
one_letter_array c =
    let differs = one_letter_unequal c in
    ground (
      arith,
      differs "uint8" (omega arith),
      differs "int8" (omega arith),
      differs "uint16" (omega arith),
      differs "int16" (omega arith),
      differs "uint32" (omega arith),
      differs "int32" (omega arith),
      differs "uint64" (omega arith),
      differs "int64" (omega arith),
      differs "float" (omega arith),
      differs "double" (omega arith),
      differs "boolean" (omega arith),
      differs "string" (omega arith),
    )

module _ ⦃J : Jsoncons⦄ ⦃B : BoostText⦄ ⦃S : Streams⦄ ⦃F : Floats⦄ where
  -- Each element passes the check of a signal of type `subdatatype` without limits.
  abbrev pub AllPass : String → List Json → Type 0
  AllPass subdatatype =
      All (λ v. (w : Json) × (check_and_sanitize_type (element_meta subdatatype) v ≡ ok w))

  check_items_sound :
      (vs : Items) (subdatatype : String)
      → check_items vs subdatatype ≡ ok tt
      → AllPass subdatatype (items vs)
  unfolding check_elements check_and_sanitize_type
  check_items_sound nil subdatatype h = tt
  check_items_sound (item v vs) subdatatype h =
      let (w, passed, rest) =
        >>=-eq-ok (check_and_sanitize_type (element_meta subdatatype) v) _ h in
      ((w, passed), check_items_sound vs subdatatype rest)

  check_items_complete :
      (vs : Items) (subdatatype : String)
      → AllPass subdatatype (items vs)
      → check_items vs subdatatype ≡ ok tt
  unfolding check_elements check_and_sanitize_type
  check_items_complete nil subdatatype h = refl
  check_items_complete (item v vs) subdatatype ((w, passed), rest) =
      rw passed (check_items_complete vs subdatatype rest)

  module _ (dt : String) (meta : Json) (named : text_of (find "datatype" meta) ≡ ok dt) where
    module _ (typed : vss_type dt ≡ array) where
      abbrev subtype : String
      subtype = take_text (size_less_two dt) dt

      check_array :
          (val : Json)
          → check_and_sanitize_type meta val ≡ array_result subtype val (check_elements val subtype)
      unfolding check_and_sanitize_type check_with check_typed
      check_array val = rw (named, typed)

      array_result_sound :
          (val : Json) (r : Result (Unit {0})) (w : Json)
          → array_result subtype val r ≡ ok w
          → (r ≡ ok tt) × (w ≡ val)
      unfolding array_result
      array_result_sound val (ok x) w h = (refl, sym (ok-injective h))
      array_result_sound val (err e) w h = cc

      -- An array passes exactly when each of its elements passes the check for the element type,
      -- and it is stored as it came: what the check makes of an element is dropped.
      pub check_and_sanitize_type-array :
          (vs : Items) (w : Json)
          → (check_and_sanitize_type meta (arr vs) ≡ ok w)
            ↔ (AllPass subtype (items vs) × (w ≡ arr vs))
      unfolding array_result check_elements
      check_and_sanitize_type-array vs w = (
        λ h.
            let (passed, same) =
              array_result_sound (arr vs) (check_items vs subtype) w
                (sym (check_array (arr vs)) ∙ h) in
            (check_items_sound vs subtype passed, same),
        λ (passes, same).
            check_array (arr vs)
            ∙ ap (array_result subtype (arr vs)) (check_items_complete vs subtype passes)
            ∙ ap ok (sym same),
      )

      -- Whatever an array, or a value that is none, is refused for, the refusal is an
      -- outOfBoundException.
      pub check_and_sanitize_type-array_err :
          (val : Json) (e : Exception)
          → check_and_sanitize_type meta val ≡ err e
          → (msg : String) × (e ≡ out_of_bound msg)
      unfolding array_result
      check_and_sanitize_type-array_err val e h =
          refused (check_elements val subtype) (sym (check_array val) ∙ h)
        where
          refused :
              (r : Result (Unit {0}))
              → array_result subtype val r ≡ err e
              → (msg : String) × (e ≡ out_of_bound msg)
          refused (ok x) q = absurd (ok-ne-err q)
          refused (err d) q = (_, sym (err-injective q))

  -- A data type whose name is a single character is taken for an array type, since its size less
  -- two wraps round to npos: an empty array passes, and no such name is reported as unsupported.
  pub one_letter_datatype :
      (c : Char) (meta : Json)
      → text_of (find "datatype" meta) ≡ ok (String.◌∷◌ c String.[])
      → (vss_type (String.◌∷◌ c String.[]) ≡ array)
        × (check_and_sanitize_type meta (arr nil) ≡ ok (arr nil))
  one_letter_datatype c meta named =
      let typed = one_letter_array c in
      (typed, (check_and_sanitize_type-array _ meta named typed nil (arr nil)).1 (tt, refl))
