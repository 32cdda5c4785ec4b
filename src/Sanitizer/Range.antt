-- ===== src/Sanitizer/Range.antt =====
-- What a value of an integer type satisfies once it has passed the check.
use kuksa_val.Exception.{Result, ok, err, >>=-eq-ok, ok-injective}
use kuksa_val.External.{BoostText, Jsoncons}
use kuksa_val.Json.{Json, int, find}
use kuksa_val.Numbers.{IntType, InRange, Floats}
use kuksa_val.Prelude.{
  String, ◌≡◌, ◌↔◌, refl, sym, ◌∙◌, ap, false, inl, inr, Option, none, some, arith, Bool-cases,
}
use kuksa_val.Prelude.Int.{ℤ, ◌≤ℤ◌, ltb_ℤ}
use kuksa_val.Sanitizer.DataTypes.{integer, vss_type}
use kuksa_val.Sanitizer.Numeric.{
  Streams, text_of, convert, check_min, check_max, too_low, too_high, check_num_types, integer_num,
}
use kuksa_val.Sanitizer.Checks.{check_with, check_typed, check_and_sanitize_type}

module _ ⦃J : Jsoncons⦄ where
  open J use {as_string, as_integer}

  -- The value lies between the limits of the metadata, where it has them; a limit that cannot be
  -- read in the signal's own type lets no value pass.
  pub record WithinLimits (t : IntType) (meta : Json) (n : ℤ) : Type 0 where
    pub least :
        (limit : Json)
        → find "min" meta ≡ some limit
        → (m : ℤ) × (as_integer t limit ≡ ok m) × (m ≤ℤ n)
    pub most :
        (limit : Json)
        → find "max" meta ≡ some limit
        → (m : ℤ) × (as_integer t limit ≡ ok m) × (n ≤ℤ m)

  module _ ⦃S : Streams⦄ (t : IntType) where
    too_low-ne-ok : (n : ℤ) (limit : Json) → too_low (integer_num t) n limit ≡ ok tt → ⊥
    unfolding too_low
    too_low-ne-ok n limit h = let (_, _, e) = >>=-eq-ok (J.as_double limit) _ h in cc

    too_high-ne-ok : (n : ℤ) (limit : Json) → too_high (integer_num t) n limit ≡ ok tt → ⊥
    unfolding too_high
    too_high-ne-ok n limit h = let (_, _, e) = >>=-eq-ok (J.as_double limit) _ h in cc

    not-ltb_ℤ : (a b : ℤ) → ltb_ℤ a b ≡ false → b ≤ℤ a
    not-ltb_ℤ a b h = ground arith

    check_min_sound :
        (n : ℤ) (limit : Json)
        → check_min (integer_num t) n (some limit) ≡ ok tt
        → (m : ℤ) × (as_integer t limit ≡ ok m) × (m ≤ℤ n)
    unfolding check_min
    check_min_sound n limit h =
        let (m, read, h') = >>=-eq-ok (as_integer t limit) _ h in
        elim (Bool-cases (ltb_ℤ n m)) [
          | inl low ↦ absurd (too_low-ne-ok n limit (rw low at h'))
          | inr fits ↦ (m, read, not-ltb_ℤ n m fits)
        ]

    check_max_sound :
        (n : ℤ) (limit : Json)
        → check_max (integer_num t) n (some limit) ≡ ok tt
        → (m : ℤ) × (as_integer t limit ≡ ok m) × (n ≤ℤ m)
    unfolding check_max
    check_max_sound n limit h =
        let (m, read, h') = >>=-eq-ok (as_integer t limit) _ h in
        elim (Bool-cases (ltb_ℤ m n)) [
          | inl high ↦ absurd (too_high-ne-ok n limit (rw high at h'))
          | inr fits ↦ (m, read, not-ltb_ℤ m n fits)
        ]

    convert_sound :
        (meta val : Json) (r : Result ℤ) (n : ℤ)
        → convert (integer_num t) meta val r ≡ ok n
        → r ≡ ok n
    unfolding convert
    convert_sound meta val (ok m) n h = h
    convert_sound meta val (err e) n h =
        let (_, _, e') = >>=-eq-ok (text_of (find "datatype" meta)) _ h in cc

    pub check_num_types_sound :
        (meta val w : Json)
        → check_num_types (integer_num t) meta val ≡ ok w
        → (n : ℤ) × (w ≡ int n) × (as_integer t val ≡ ok n) × InRange t n × WithinLimits t meta n
    unfolding check_num_types
    check_num_types_sound meta val w h =
        let (n, converted, h₁) =
          >>=-eq-ok (convert (integer_num t) meta val (as_integer t val)) _ h in
        let read = convert_sound meta val (as_integer t val) n converted in
        let (_, low, h₂) = >>=-eq-ok (check_min (integer_num t) n (find "min" meta)) _ h₁ in
        let (_, high, h₃) = >>=-eq-ok (check_max (integer_num t) n (find "max" meta)) _ h₂ in
        let (stored, again, last) = >>=-eq-ok (as_integer t val) _ h₃ in
        let same : stored ≡ n = ok-injective (sym again ∙ read) in
        (
          n,
          sym (ok-injective last) ∙ ap int same,
          read,
          J.as_integer-InRange t val n read,
          record {
            least = λ limit e. check_min_sound n limit (rw e at low);
            most = λ limit e. check_max_sound n limit (rw e at high);
          },
        )

    lt-flip : (a b : ℤ) → b ≤ℤ a → ltb_ℤ a b ≡ false
    lt-flip a b h = ground arith

    check_min_complete :
        (n : ℤ) (o : Option Json)
        → ((limit : Json) → o ≡ some limit → (m : ℤ) × (as_integer t limit ≡ ok m) × (m ≤ℤ n))
        → check_min (integer_num t) n o ≡ ok tt
    unfolding check_min
    check_min_complete n none h = refl
    check_min_complete n (some limit) h =
        let (m, read, fits) = h limit refl in rw (read, lt-flip n m fits)

    check_max_complete :
        (n : ℤ) (o : Option Json)
        → ((limit : Json) → o ≡ some limit → (m : ℤ) × (as_integer t limit ≡ ok m) × (n ≤ℤ m))
        → check_max (integer_num t) n o ≡ ok tt
    unfolding check_max
    check_max_complete n none h = refl
    check_max_complete n (some limit) h =
        let (m, read, fits) = h limit refl in rw (read, lt-flip m n fits)

    pub check_num_types_complete :
        (meta val : Json) (n : ℤ)
        → as_integer t val ≡ ok n
        → WithinLimits t meta n
        → check_num_types (integer_num t) meta val ≡ ok (int n)
    unfolding check_num_types convert
    check_num_types_complete meta val n read within = rw (
      read,
      check_min_complete n (find "min" meta) within.least,
      check_max_complete n (find "max" meta) within.most,
    )

  module _ ⦃B : BoostText⦄ ⦃S : Streams⦄ ⦃F : Floats⦄ where
    module _ (t : IntType) (dt : String) (meta : Json)
        (named : text_of (find "datatype" meta) ≡ ok dt) (typed : vss_type dt ≡ integer t) where
      check_integer :
          (val : Json) → check_and_sanitize_type meta val ≡ check_num_types (integer_num t) meta val
      unfolding check_and_sanitize_type check_with check_typed
      check_integer val = rw (named, typed)

      -- For a signal of an integer type, the check lets a value pass exactly when it converts to
      -- a number of that type that lies between the signal's limits; what is then stored is that
      -- number.
      pub check_and_sanitize_type-integer :
          (val w : Json)
          → (check_and_sanitize_type meta val ≡ ok w) ↔ (
              (n : ℤ) × (w ≡ int n)
              × (as_integer t val ≡ ok n)
              × InRange t n
              × WithinLimits t meta n)
      check_and_sanitize_type-integer val w = (
        λ h. check_num_types_sound t meta val w (sym (check_integer val) ∙ h),
        λ (n, stored, read, _, within).
            check_integer val
            ∙ check_num_types_complete t meta val n read within
            ∙ ap ok (sym stored),
      )

      -- For a signal of an integer type, checking a value that has passed once more changes nothing.
      pub check_and_sanitize_type_idem :
          (val w : Json)
          → check_and_sanitize_type meta val ≡ ok w
          → check_and_sanitize_type meta w ≡ ok w
      check_and_sanitize_type_idem val w h =
          let (n, stored, _, range, within) = (check_and_sanitize_type-integer val w).0 h in
          let read : as_integer t w ≡ ok n = rw stored (J.as_integer-int t n range) in
          (check_and_sanitize_type-integer w w).1 (n, stored, read, range, within)
