-- ===== src/Path/Names.antt =====
-- VSSPath.cpp, gen2tojson: which JSONPaths the paths of clients lead to.
use text.Mathlib.TextLemmas.{append_assoc, nil-append}
use kuksa_val.External.{BoostText, IsName, IsNamePath, name_steps}
use kuksa_val.Path.{json_steps, gen1_to_gen2, gen2_to_json, from_vss}
use kuksa_val.Path.Spelling.{vsspath-from_vss}
use kuksa_val.Prelude.{
  String, ◌≡◌, refl, sym, ap, ◌∙◌, true, false, List, [], ◌∷◌, All, ◌<>◌, str_eq, eq_iff, is_name,
  Bool-cases, inl, inr,
}

-- The names on the way to a node, where each but the first is a child.
abbrev pub nested : List String → List String
nested [] = []
nested (name ∷ names) = "children" ∷ name ∷ nested names

true-ne-false : true ≡ false → ⊥
true-ne-false h = cc

IsName-star : (name : String) → IsName name → str_eq name "*" ≡ false
IsName-star name h = elim (Bool-cases (str_eq name "*")) [
  | inl star ↦ absurd (true-ne-false (sym h.0 ∙ ap (λ n. is_name n) ((eq_iff name "*").0 star)))
  | inr q ↦ q
]

bracketed : (name rest : String) → ("['" <> name <> "']") <> rest ≡ "['" <> name <> "']" <> rest
bracketed name rest =
    append_assoc "['" (name <> "']") rest ∙ ap (λ s. "['" <> s) (append_assoc name "']" rest)

children-IsName : IsName "children"
children-IsName = (refl, refl, λ q. cc)

nested-IsName : (names : List String) → All IsName names → All IsName (nested names)
nested-IsName [] h = tt
nested-IsName (name ∷ names) h = (children-IsName, (h.0, nested-IsName names h.1))

json_steps-nested :
    (names : List String) → All IsName names → json_steps false names ≡ name_steps (nested names)
unfolding json_steps
json_steps-nested [] h = refl
json_steps-nested (name ∷ names) h = rw (IsName-star name h.0) (
    ap (λ s. "['children']" <> s)
      (bracketed name _ ∙ ap (λ s. "['" <> name <> "']" <> s) (json_steps-nested names h.1))
    ∙ bracketed "children" (name_steps (name ∷ nested names)))

json_steps-name_steps :
    (first : String) (names : List String)
    → All IsName (first ∷ names)
    → json_steps true (first ∷ names) ≡ name_steps (first ∷ nested names)
unfolding json_steps
json_steps-name_steps first names h = rw (IsName-star first h.0) (
    nil-append _
    ∙ bracketed first _
    ∙ ap (λ s. "['" <> first <> "']" <> s) (json_steps-nested names h.1))

module _ ⦃B : BoostText⦄ where
  -- A path of a client, with dots or slashes, whose elements are names leads to a JSONPath that
  -- selects by names alone: the elements in brackets, each but the first behind 'children'.
  pub from_vss-IsNamePath :
      (s first : String) (names : List String)
      → B.split_slash (gen1_to_gen2 s) ≡ first ∷ names
      → All IsName (first ∷ names)
      → ((from_vss s).jsonpath ≡ "$" <> name_steps (first ∷ nested names))
        × IsNamePath (from_vss s).jsonpath
  unfolding from_vss gen2_to_json
  from_vss-IsNamePath s first names split h =
      let spelled =
        ap (λ vss. "$" <> json_steps true (B.split_slash vss)) (vsspath-from_vss s)
        ∙ ap (λ elements. "$" <> json_steps true elements) split
        ∙ ap (λ steps. "$" <> steps) (json_steps-name_steps first names h) in
      (
        spelled,
        record {
          first = first;
          rest = nested names;
          names = (h.0, nested-IsName names h.1);
          spelled = spelled;
        },
      )
