-- ===== src/Exception.antt =====
-- include/exception.hpp, the exceptions of the libraries that the server catches by name, and the
-- result of code that may throw.
use kuksa_val.Prelude.{String, ◌≡◌, refl, sym, Bool, true, false, ◌<>◌}

-- The six classes of exception.hpp hold a message; the last six stand for exceptions of jsoncons
-- and of the standard library.
pub data Exception : Type 0 where
  no_path_found_on_tree : String → Exception
  gen_exception : String → Exception
  no_permission : String → Exception
  out_of_bound : String → Exception
  not_valid : String → Exception
  not_set : String → Exception
  schema_error : String → Exception
  ser_error : String → Exception
  key_not_found : String → Exception
  not_an_object : String → Exception
  jsonpath_error : String → Exception
  std_error : String → Exception

unfoldable pub what : Exception → String
what (no_path_found_on_tree path) = "Path " <> path <> " not found on the VSS Tree"
what (gen_exception msg) = msg
what (no_permission msg) = msg
what (out_of_bound msg) = msg
what (not_valid msg) = msg
what (not_set msg) = msg
what (schema_error msg) = msg
what (ser_error msg) = msg
what (key_not_found msg) = msg
what (not_an_object msg) = msg
what (jsonpath_error msg) = msg
what (std_error msg) = msg

-- What code that may throw comes to.
pub data Result {ℓ} (A : Type ℓ) : Type ℓ where
  err : Exception → Result A
  ok : A → Result A

pub ok-ne-err {ℓ} : {A : Type ℓ} {a : A} {e : Exception} → ok a ≡ err e → ⊥
ok-ne-err h = cc

-- An exception skips what comes next.
infixl 5 ◌>>=◌ ◌>>◌
abbrev pub ◌>>=◌ {ℓ₁ ℓ₂} :
    {A : Type ℓ₁} {B : Type ℓ₂} (done : Result A) (next : A → Result B) → Result B
err e >>= next = err e
ok a >>= next = next a

abbrev pub throw_if : Bool → Exception → Result (Unit {0})
throw_if false e = ok tt
throw_if true e = err e

abbrev pub ◌>>◌ {ℓ₁ ℓ₂} : {A : Type ℓ₁} {B : Type ℓ₂} → Result A → Result B → Result B
done >> next = done >>= λ _. next

-- If a sequence has succeeded, so have its two halves.
pub >>=-eq-ok {ℓ₁ ℓ₂} :
    {A : Type ℓ₁} {B : Type ℓ₂} (done : Result A) (next : A → Result B) {last : B}
    → (done >>= next) ≡ ok last
    → (between : A) × (done ≡ ok between) × (next between ≡ ok last)
>>=-eq-ok (err e) next h = absurd (ok-ne-err (sym h))
>>=-eq-ok (ok a) next h = (a, refl, h)

pub ok-injective {ℓ} : {A : Type ℓ} {a b : A} → ok a ≡ ok b → a ≡ b
ok-injective h = cc

pub err-injective {ℓ} : {A : Type ℓ} {d e : Exception} → Path (Result A) (err d) (err e) → d ≡ e
err-injective h = cc
