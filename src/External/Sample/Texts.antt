-- ===== src/External/Sample/Texts.antt =====
-- The text functions of Boost, run.
use Prim.Native.String
use text.Mathlib.TextEquality.{Char-path}
use text.Mathlib.TextLemmas.{nil-append, cons-append}
use kuksa_val.Prelude.{
  ℕ, zero, suc, ◌-◌, Char, code, String, ◌≡◌, refl, sym, ◌∙◌, ap, ap₂, false, inl, inr, List, [],
  ◌∷◌, arith, ◌<>◌, ◌==◌, ==_iff, if◌then◌else◌, Bool-cases, is_prefix, has_infix, All, NoChar,
  join_slash,
}
use kuksa_val.External.Interfaces.{BoostText}

-- Puts a character in front of the first text.
cons_head : Char → List String → List String
cons_head c [] = String.◌∷◌ c String.[] ∷ []
cons_head c (s ∷ ss) = String.◌∷◌ c s ∷ ss

pub split_slash : String → List String
unfolding cons_head
split_slash String.[] = String.[] ∷ []
split_slash (String.◌∷◌ c s) =
    let rest = split_slash s in if code c == b'/' then String.[] ∷ rest else cons_head c rest

join-cons_head :
    (c : Char) (ss : List String) → join_slash (cons_head c ss) ≡ String.◌∷◌ c (join_slash ss)
unfolding cons_head
join-cons_head c [] = refl
join-cons_head c (s ∷ []) = refl
join-cons_head c (s ∷ t ∷ ss) = cons-append c s _

data IsCons : List String → Type 0 where
  is_cons : (s : String) (ss : List String) → IsCons (s ∷ ss)

cons_head-IsCons : (c : Char) (ss : List String) → IsCons (cons_head c ss)
unfolding cons_head
cons_head-IsCons c [] = is_cons _ _
cons_head-IsCons c (s ∷ ss) = is_cons _ _

split-IsCons : (s : String) → IsCons (split_slash s)
unfolding split_slash
split-IsCons String.[] = is_cons _ _
split-IsCons (String.◌∷◌ c s) = elim (Bool-cases (code c == b'/')) [
  | inl e ↦ rw e (is_cons _ _)
  | inr e ↦ rw e (cons_head-IsCons c (split_slash s))
]

join-nil-cons :
    (ss : List String) → IsCons ss → join_slash (String.[] ∷ ss) ≡ String.◌∷◌ "/" (join_slash ss)
join-nil-cons ss (is_cons t ts) =
    nil-append _ ∙ (cons-append "/" String.[] _ ∙ ap (String.◌∷◌ "/") (nil-append _))

pub join-split : (s : String) → join_slash (split_slash s) ≡ s
unfolding split_slash
join-split String.[] = refl
join-split (String.◌∷◌ c s) = elim (Bool-cases (code c == b'/')) [
  | inl e ↦ rw e (
      join-nil-cons _ (split-IsCons s)
      ∙ ap₂ String.◌∷◌ (Char-path "/" c (sym ((==_iff (code c) b'/').0 e))) (join-split s))
  | inr e ↦ rw e (join-cons_head c (split_slash s) ∙ ap (String.◌∷◌ c) (join-split s))
]

cons_head-NoChar :
    (c : Char) (ss : List String)
    → (code c == b'/') ≡ false
    → All (NoChar b'/') ss
    → All (NoChar b'/') (cons_head c ss)
unfolding cons_head
cons_head-NoChar c [] e h = (((λ q. ground arith), tt), tt)
cons_head-NoChar c (s ∷ ss) e h = (((λ q. ground arith), h.0), h.1)

pub split-NoChar : (s : String) → All (NoChar b'/') (split_slash s)
unfolding split_slash
split-NoChar String.[] = (tt, tt)
split-NoChar (String.◌∷◌ c s) = elim (Bool-cases (code c == b'/')) [
  | inl e ↦ rw e (tt, split-NoChar s)
  | inr e ↦ rw e (cons_head-NoChar c (split_slash s) e (split-NoChar s))
]

-- Replaces each occurrence of `search`, from the left; `skip` characters of one are still to pass.
replace_from : String → String → ℕ → String → String
replace_from search format skip String.[] = String.[]
replace_from search format (suc skip) (String.◌∷◌ c s) = replace_from search format skip s
replace_from search format zero (String.◌∷◌ c s) =
    let hit = replace_from search format (String.count search - 1) s in
    let miss = replace_from search format 0 s in
    if is_prefix search (String.◌∷◌ c s) then format <> hit else String.◌∷◌ c miss

replace_all : String → String → String → String
unfolding replace_from
replace_all text search format = replace_from search format 0 text

drop_text : ℕ → String → String
drop_text zero s = s
drop_text (suc n) String.[] = String.[]
drop_text (suc n) (String.◌∷◌ c s) = drop_text n s

erase_first : String → String → String
unfolding drop_text
erase_first String.[] search = String.[]
erase_first (String.◌∷◌ c s) search =
    let rest = erase_first s search in
    if is_prefix search (String.◌∷◌ c s)
    then drop_text (String.count search) (String.◌∷◌ c s)
    else String.◌∷◌ c rest

erase_last : String → String → String
unfolding drop_text
erase_last String.[] search = String.[]
erase_last (String.◌∷◌ c s) search =
    let rest = erase_last s search in
    if has_infix search s
    then String.◌∷◌ c rest
    else if is_prefix search (String.◌∷◌ c s)
    then drop_text (String.count search) (String.◌∷◌ c s)
    else String.◌∷◌ c s

unfoldable pub boost_text : BoostText
unfolding split_slash replace_all erase_first erase_last
boost_text = record {
  split_slash = split_slash;
  erase_all = λ text search. replace_all text search "";
  erase_first = erase_first;
  erase_last = erase_last;
  replace_all = replace_all;
  join-split = join-split;
  split-NoChar = split-NoChar;
}
