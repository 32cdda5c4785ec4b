-- ===== src/Command/Set/Guarding.antt =====
-- When a set request changes something.
use kuksa_val.Access.{check_write_access}
use kuksa_val.Channel.{KuksaChannel}
use kuksa_val.Command.{RequestValidator}
use kuksa_val.Database.Nodes.{Database, path_exists, path_is_writable, path_is_attributable}
use kuksa_val.Database.Signals.{Server, set_signal}
use kuksa_val.Exception.{Result, ok, err, >>=-eq-ok}
use kuksa_val.External.{BoostText, Jsoncons, Regex, Clock}
use kuksa_val.Json.{Json}
use kuksa_val.Numbers.{Floats}
use kuksa_val.Path.{to_string}
use kuksa_val.Prelude.{
  ◌<>◌, ◌≡◌, refl, ap, ◌∙◌, Bool, true, false, inl, inr, ◌⊎◌, Option, none, some, if◌then◌else◌,
}
use kuksa_val.Response.{no_access}
use kuksa_val.Sanitizer.Numeric.{Streams}
use kuksa_val.Command.Set.{
  SetArguments, set_arguments, attributable_guard, writable_guard, access_guard, set_guards,
  set_answer, set_guarded, set_request, set_validated, process_set,
}

module _ ⦃J : Jsoncons⦄ ⦃B : BoostText⦄ ⦃R : Regex⦄ ⦃S : Streams⦄ ⦃F : Floats⦄ ⦃C : Clock⦄
    ⦃V : RequestValidator⦄ where
  -- What holds when a request gets as far as setSignal, and what it then comes to.
  pub record IsPerformed (channel : KuksaChannel) (request : Json) (s : Server)
      (r : Result Json × Server) : Type 0 where
    pub arguments : SetArguments
    pub valid : V.validate_set request ≡ ok tt
    pub read : set_arguments request ≡ ok arguments
    pub exists : path_exists s.db arguments.path ≡ ok true
    pub may_write : check_write_access channel arguments.path ≡ ok true
    pub writable : path_is_writable s.db arguments.path ≡ ok true
    pub attributable : path_is_attributable s.db arguments.path arguments.attribute ≡ ok true
    pub written : r.1 ≡ (set_signal arguments.path arguments.attribute arguments.value s).1
    pub answer :
        r.0
        ≡ ok (
            set_answer arguments
              (set_signal arguments.path arguments.attribute arguments.value s).0)

  -- The guards let a request through only if all four tests succeed.
  record IsAllowed (channel : KuksaChannel) (a : SetArguments) (db : Database) : Type 0 where
    exists : path_exists db a.path ≡ ok true
    may_write : check_write_access channel a.path ≡ ok true
    writable : path_is_writable db a.path ≡ ok true
    attributable : path_is_attributable db a.path a.attribute ≡ ok true

  only_if_true :
      {A : Type 0} (b : Bool) (r : Result (Option A)) (x : A)
      → (if b then r else ok (some x)) ≡ ok none
      → (b ≡ true) × (r ≡ ok none)
  only_if_true true r x h = (refl, h)
  only_if_true false r x h = cc

  none_only_if :
      {A : Type 0} (b : Bool) (x : A) → ok (if b then none else some x) ≡ ok none → b ≡ true
  none_only_if true x h = refl
  none_only_if false x h = cc

  set_guards-IsAllowed :
      (channel : KuksaChannel) (a : SetArguments) (db : Database)
      → set_guards channel a db ≡ ok none
      → IsAllowed channel a db
  unfolding set_guards access_guard writable_guard attributable_guard
  set_guards-IsAllowed channel a db h =
      let (exists, e₁, h₁) = >>=-eq-ok (path_exists db a.path) _ h in
      let (is_there, h₂) = only_if_true exists _ _ h₁ in
      let (allowed, e₃, h₃) = >>=-eq-ok (check_write_access channel a.path) _ h₂ in
      let (permitted, h₄) = only_if_true allowed _ _ h₃ in
      let (writable, e₅, h₅) = >>=-eq-ok (path_is_writable db a.path) _ h₄ in
      let (is_leaf, h₆) = only_if_true writable _ _ h₅ in
      let (attributable, e₇, h₇) = >>=-eq-ok (path_is_attributable db a.path a.attribute) _ h₆ in
      record {
        exists = e₁ ∙ ap ok is_there;
        may_write = e₃ ∙ ap ok permitted;
        writable = e₅ ∙ ap ok is_leaf;
        attributable = e₇ ∙ ap ok (none_only_if attributable _ h₇);
      }

  set_guarded-cases :
      (channel : KuksaChannel) (request : Json) (a : SetArguments) (s : Server)
      (g : Result (Option Json))
      → V.validate_set request ≡ ok tt
      → set_arguments request ≡ ok a
      → set_guards channel a s.db ≡ g
      → ((set_guarded a s g).1 ≡ s) ⊎ IsPerformed channel request s (set_guarded a s g)
  unfolding set_guarded
  set_guarded-cases channel request a s (err e) valid read h = inl refl
  set_guarded-cases channel request a s (ok (some answer)) valid read h = inl refl
  set_guarded-cases channel request a s (ok none) valid read h =
      let p = set_guards-IsAllowed channel a s.db h in
      inr (record {
        arguments = a;
        valid = valid;
        read = read;
        exists = p.exists;
        may_write = p.may_write;
        writable = p.writable;
        attributable = p.attributable;
        written = refl;
        answer = refl;
      })

  set_request-cases :
      (channel : KuksaChannel) (request : Json) (s : Server) (r : Result SetArguments)
      → V.validate_set request ≡ ok tt
      → set_arguments request ≡ r
      → ((set_request channel s r).1 ≡ s) ⊎ IsPerformed channel request s (set_request channel s r)
  set_request-cases channel request s (err e) valid read = inl refl
  set_request-cases channel request s (ok a) valid read =
      set_guarded-cases channel request a s (set_guards channel a s.db) valid read refl

  set_validated-cases :
      (channel : KuksaChannel) (request : Json) (s : Server) (r : Result (Unit {0}))
      → V.validate_set request ≡ r
      → ((set_validated channel request s r).1 ≡ s)
        ⊎ IsPerformed channel request s (set_validated channel request s r)
  set_validated-cases channel request s (err e) valid = inl refl
  set_validated-cases channel request s (ok tt) valid =
      set_request-cases channel request s (set_arguments request) valid refl

  -- A set request changes nothing, unless it is valid, its path exists and names one sensor or
  -- actuator, the channel may write to it, and the attribute can be set; the state and the answer
  -- are then those of setSignal on the arguments of the request.
  pub process_set-IsPerformed :
      (channel : KuksaChannel) (request : Json) (s : Server)
      → ((process_set channel request s).1 ≡ s)
        ⊎ IsPerformed channel request s (process_set channel request s)
  unfolding process_set
  process_set-IsPerformed channel request s =
      set_validated-cases channel request s (V.validate_set request) refl

  -- A valid request to set an existing path that the channel may not write to is answered with
  -- 403 and changes nothing.
  pub process_set_denied :
      (channel : KuksaChannel) (request : Json) (a : SetArguments) (s : Server)
      → V.validate_set request ≡ ok tt
      → set_arguments request ≡ ok a
      → path_exists s.db a.path ≡ ok true
      → check_write_access channel a.path ≡ ok false
      → process_set channel request s
        ≡ (ok (no_access a.request_id "set" ("No write access to " <> to_string a.path)), s)
  unfolding process_set set_guards access_guard set_guarded
  process_set_denied channel request a s valid read there denied = rw (valid, read, there, denied)
