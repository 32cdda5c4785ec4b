-- ===== src/Sanitizer/Numeric.antt =====
-- VSSTypeSanitizer.cpp: checkNumTypes, for every arithmetic type.
use kuksa_val.Exception.{out_of_bound, key_not_found, what, throw_if, Result, ok, err, ◌>>=◌, ◌>>◌}
use kuksa_val.External.{Jsoncons}
use kuksa_val.Json.{Json, int, double, find}
use kuksa_val.Numbers.{IntType, Floats}
use kuksa_val.Prelude.{ℕ, String, ◌<>◌, Bool, false, Option, none, some, if◌then◌else◌}
use kuksa_val.Prelude.Int.{ℤ, ltb_ℤ}

-- What the template checkNumTypes<T> uses of its type argument.
pub record NumType (T : Type 0) : Type 0 where
  pub of_json : Json → Result T
  pub lt : T → T → Bool
  pub is_infinite : T → Bool
  pub to_json : T → Json
  pub show : T → String

-- What the output streams write for the numbers in a message.
pub record Streams : Type 0 where
  pub show_integer : IntType → ℤ → String
  pub show_float : ℕ → String
  pub show_double : ℕ → String

module _ ⦃J : Jsoncons⦄ where
  open J use {as_string, as_integer, as_double, print}

  -- meta[key].as<std::string>()
  abbrev pub text_of : Option Json → Result String
  text_of none = err (key_not_found "")
  text_of (some value) = as_string value

  module _ ⦃S : Streams⦄ where
    module _ {T : Type 0} (num : NumType T) where
      -- The two catch clauses around val.as<T>().
      unfoldable pub convert : Json → Json → Result T → Result T
      convert meta val (ok n) = ok n
      convert meta val (err e) = do
        datatype ← text_of (find "datatype" meta)
        err (
            out_of_bound (
              "Value "
              <> print val
              <> " can not be converted to defined type "
              <> datatype
              <> ". Reason: "
              <> what e))

      unfoldable pub too_low : T → Json → Result (Unit {0})
      too_low cval limit = do
        least ← as_double limit
        err (
            out_of_bound (
              "Value "
              <> num.show cval
              <> " is out of bounds. Allowed minimum is "
              <> S.show_double least))

      unfoldable pub check_min : T → Option Json → Result (Unit {0})
      unfolding too_low
      check_min cval none = ok tt
      check_min cval (some limit) = do
        least ← num.of_json limit
        if num.lt cval least then too_low cval limit else ok tt

      unfoldable pub too_high : T → Json → Result (Unit {0})
      too_high cval limit = do
        most ← as_double limit
        err (
            out_of_bound (
              "Value "
              <> num.show cval
              <> " is out of bounds. Allowed maximum is "
              <> S.show_double most))

      unfoldable pub check_max : T → Option Json → Result (Unit {0})
      unfolding too_high
      check_max cval none = ok tt
      check_max cval (some limit) = do
        most ← num.of_json limit
        if num.lt most cval then too_high cval limit else ok tt

      -- checkNumTypes<T>: the value that val holds afterwards.
      unfoldable pub check_num_types : Json → Json → Result Json
      unfolding convert check_min check_max
      check_num_types meta val = do
        cval ← convert meta val (num.of_json val)
        throw_if (num.is_infinite cval) (out_of_bound "Value out of bounds. Reason: Infinity")
        check_min cval (find "min" meta)
        check_max cval (find "max" meta)
        stored ← num.of_json val
        ok (num.to_json stored)

    abbrev pub integer_num : IntType → NumType ℤ
    integer_num t = record {
      of_json = as_integer t;
      lt = ltb_ℤ;
      is_infinite = λ n. false;
      to_json = int;
      show = S.show_integer t;
    }

    module _ ⦃F : Floats⦄ where
      abbrev pub float_num : NumType ℕ
      float_num = record {
        of_json = J.as_float;
        lt = F.float_lt;
        is_infinite = F.float_infinite;
        to_json = λ n. double (F.widen n);
        show = S.show_float;
      }

      abbrev pub double_num : NumType ℕ
      double_num = record {
        of_json = as_double;
        lt = F.double_lt;
        is_infinite = F.double_infinite;
        to_json = double;
        show = S.show_double;
      }
