-- ===== src/Database/Defaults.antt =====
-- VssDatabase::applyDefaultValues: attributes with a default start with it as their value.
use kuksa_val.Exception.{std_error, Result, ok, err, ◌>>=◌, >>=-eq-ok, ok-injective, ok-ne-err}
use kuksa_val.External.{Jsoncons}
use kuksa_val.Json.{
  Json, null, bool, int, double, str, arr, obj, Members, end, member, lookup, assign, lookup-assign,
}
use kuksa_val.Prelude.{
  String, ◌≡◌, refl, sym, ap, ap₂, Bool, true, false, inl, inr, ◌⊎◌, Option, none, some, arith,
  if◌then◌else◌, str_eq, eq_iff, Bool-cases,
}
use kuksa_val.Database.Nodes.{is_the_text}

module _ ⦃J : Jsoncons⦄ where
  -- The default of an attribute, if the object is one and has one.
  abbrev pub default_if : Bool → Option Json → Option Json
  default_if true o = o
  default_if false o = none

  unfoldable pub default_of : Members → Option Json
  default_of ms = default_if (is_the_text "attribute" (lookup "type" ms)) (lookup "default" ms)

  -- tree.insert_or_assign("value", tree["default"].as<string>())
  unfoldable pub set_default : Members → Json → Result Json
  unfolding assign
  set_default ms default = do text ← J.as_string default; ok (obj (assign "value" (str text) ms))

  -- An attribute with a default takes it; anything else goes on to its children.
  unfoldable pub with_default : Option Json → Members → Result Members → Result Json
  unfolding set_default
  with_default (some default) ms walked = set_default ms default
  with_default none ms walked = do ms' ← walked; ok (obj ms')

  unfoldable pub member_after : String → Json → Result Json → Result Members → Result Members
  member_after k v visited rest = do
    v' ← if str_eq k "children" then visited else ok v
    rest' ← rest
    ok (member k v' rest')

  unfoldable mutual
    unfolding default_of with_default member_after

    pub apply_default_values : Json → Result Json
    apply_default_values (obj ms) = with_default (default_of ms) ms (walk ms)
    apply_default_values other = ok other

    -- The members of a node, of which only "children" is entered.
    pub walk : Members → Result Members
    walk end = ok end
    walk (member k v ms) = member_after k v (visit_children v) (walk ms)

    pub visit_children : Json → Result Json
    visit_children (obj children) = visit_each children >>= λ cs. ok (obj cs)
    visit_children _ = err (std_error "Not an object")

    pub visit_each : Members → Result Members
    visit_each end = ok end
    visit_each (member k v ms) = do
      v' ← apply_default_values v
      ms' ← visit_each ms
      ok (member k v' ms')

  assign-assign :
      (k : String) (v : Json) (ms : Members) → assign k v (assign k v ms) ≡ assign k v ms
  unfolding assign
  assign-assign k v end = ground (arith, eq_iff k k)
  assign-assign k v (member j w ms) = ground (arith, eq_iff k k, eq_iff j k, assign-assign k v ms)

  member_after-parts :
      (k : String) (v : Json) (visited : Result Json) (rest : Result Members) (ms : Members)
      → member_after k v visited rest ≡ ok ms
      → (v' : Json) × (rest' : Members) × (ms ≡ member k v' rest')
        × (rest ≡ ok rest')
        × (((str_eq k "children" ≡ true) × (visited ≡ ok v'))
            ⊎ ((str_eq k "children" ≡ false) × (v' ≡ v)))
  unfolding member_after
  member_after-parts k v visited rest ms h =
      let (v', went, h₁) = >>=-eq-ok (if str_eq k "children" then visited else ok v) _ h in
      let (rest', walked, h₂) = >>=-eq-ok rest _ h₁ in
      (
        v',
        rest',
        sym (ok-injective h₂),
        walked,
        elim (Bool-cases (str_eq k "children")) [
          | inl e ↦ inl (e, rw e at went)
          | inr e ↦ inr (e, sym (ok-injective (rw e at went)))
        ],
      )

  -- Walking the members leaves all but "children" as they are.
  lookup-walk :
      (k : String) (ms ms' : Members)
      → str_eq "children" k ≡ false
      → walk ms ≡ ok ms'
      → lookup k ms' ≡ lookup k ms
  unfolding walk lookup
  lookup-walk k end ms' other h = ap (lookup k) (sym (ok-injective h))
  lookup-walk k (member j v ms) ms' other h =
      let (v', rest', shape, walked, how) = member_after-parts j v _ _ ms' h in
      let ih = lookup-walk k ms rest' other walked in
      rw shape (elim how [
        | inl (named, _) ↦
            let j_children : j ≡ "children" = (eq_iff j "children").0 named in
            let apart : str_eq j k ≡ false = rw j_children other in rw apart ih
        | inr (_, same) ↦
            ap₂ (λ (x : Json) (o : Option Json). if str_eq j k then some x else o) same ih
      ])

  default_of-assign : (ms : Members) (v : Json) → default_of (assign "value" v ms) ≡ default_of ms
  unfolding default_of
  default_of-assign ms v = simp lookup-assign

  default_of-walk : (ms ms' : Members) → walk ms ≡ ok ms' → default_of ms' ≡ default_of ms
  unfolding default_of
  default_of-walk ms ms' h =
      rw (lookup-walk "type" ms ms' refl h, lookup-walk "default" ms ms' refl h)

  with_default-eq :
      (o : Option Json) (ms : Members) (walked : Result Members) (j : Json)
      → default_of ms ≡ o
      → walk ms ≡ walked
      → with_default o ms walked ≡ ok j
      → ((text : String) × (default : Json) × (o ≡ some default)
          × (J.as_string default ≡ ok text)
          × (j ≡ obj (assign "value" (str text) ms)))
        ⊎ ((ms' : Members) × (o ≡ none) × (walked ≡ ok ms') × (j ≡ obj ms'))
  unfolding with_default set_default
  with_default-eq (some default) ms walked j d w h =
      let (text, read, h') = >>=-eq-ok (J.as_string default) _ h in
      inl (text, default, refl, read, sym (ok-injective h'))
  with_default-eq none ms walked j d w h =
      let (ms', went, h') = >>=-eq-ok walked _ h in inr (ms', refl, went, sym (ok-injective h'))

  apply-obj :
      (ms : Members) → apply_default_values (obj ms) ≡ with_default (default_of ms) ms (walk ms)
  unfolding apply_default_values
  apply-obj ms = refl

  defaulted_again :
      (ms : Members) (text : String) (default : Json)
      → default_of ms ≡ some default
      → J.as_string default ≡ ok text
      → apply_default_values (obj (assign "value" (str text) ms))
        ≡ ok (obj (assign "value" (str text) ms))
  unfolding apply_default_values
  defaulted_again ms text default has read =
      rw (default_of-assign ms (str text), has, read, assign-assign "value" (str text) ms)

  mutual
    unfolding apply_default_values

    apply_idem : (j j' : Json) → apply_default_values j ≡ ok j' → apply_default_values j' ≡ ok j'
    apply_idem (obj ms) j' h = elim (with_default-eq (default_of ms) ms (walk ms) j' refl refl h) [
      | inl (text, default, has, read, shape) ↦ rw shape (defaulted_again ms text default has read)
      | inr (ms', has, walked, shape) ↦
          rw (shape, default_of-walk ms ms' walked, has, walk_idem ms ms' walked) refl
    ]
    apply_idem null j' h = rw (sym (ok-injective h))
    apply_idem (bool b) j' h = rw (sym (ok-injective h))
    apply_idem (int n) j' h = rw (sym (ok-injective h))
    apply_idem (double d) j' h = rw (sym (ok-injective h))
    apply_idem (str s) j' h = rw (sym (ok-injective h))
    apply_idem (arr vs) j' h = rw (sym (ok-injective h))

    walk_idem : (ms ms' : Members) → walk ms ≡ ok ms' → walk ms' ≡ ok ms'
    walk_idem end ms' h = rw (sym (ok-injective h))
    walk_idem (member k v ms) ms' h =
        let (v', rest', shape, walked, how) = member_after-parts k v _ _ ms' h in
        let again = walk_idem ms rest' walked in
        rw (shape, again)
          (elim how [
            | inl (named, visited) ↦ rw (named, visit_idem v v' visited)
            | inr (other, same) ↦ rw other
          ])

    visit_idem : (v v' : Json) → visit_children v ≡ ok v' → visit_children v' ≡ ok v'
    visit_idem (obj children) v' h =
        let (cs, visited, h') = >>=-eq-ok (visit_each children) _ h in
        rw (← ok-injective h', each_idem children cs visited)
    visit_idem null v' h = absurd (ok-ne-err (sym h))
    visit_idem (bool b) v' h = absurd (ok-ne-err (sym h))
    visit_idem (int n) v' h = absurd (ok-ne-err (sym h))
    visit_idem (double d) v' h = absurd (ok-ne-err (sym h))
    visit_idem (str s) v' h = absurd (ok-ne-err (sym h))
    visit_idem (arr vs) v' h = absurd (ok-ne-err (sym h))

    each_idem : (ms ms' : Members) → visit_each ms ≡ ok ms' → visit_each ms' ≡ ok ms'
    each_idem end ms' h = rw (sym (ok-injective h))
    each_idem (member k v ms) ms' h =
        let (v', applied, h₁) = >>=-eq-ok (apply_default_values v) _ h in
        let (rest', visited, h₂) = >>=-eq-ok (visit_each ms) _ h₁ in
        rw (← ok-injective h₂, apply_idem v v' applied, each_idem ms rest' visited)

  -- If the defaults can be applied to a tree, applying them to the result changes nothing.
  pub apply_default_values_idem :
      (j j' : Json) → apply_default_values j ≡ ok j' → apply_default_values j' ≡ ok j'
  apply_default_values_idem j j' h = apply_idem j j' h
