-- ===== src/Path/Spelling.antt =====
-- How the spellings of one path agree.
use text.Mathlib.TextEquality.{Char-path}
use kuksa_val.Prelude.{
  ℕ, Char, code, String, ◌≡◌, refl, sym, ap, ap₂, ◌∙◌, ◌≢◌, false, inl, inr, arith, ◌==◌, ◌&&◌,
  NoChar, has_char, Bool-cases,
}
use kuksa_val.External.{BoostText}
use kuksa_val.Path.{
  VssPath, to_string, replace_char, gen1_to_gen2, gen2_to_gen1, gen2_to_json, from_vss,
}

pub NoChar-of : (n : ℕ) (s : String) → has_char n s ≡ false → NoChar n s
NoChar-of n String.[] h = tt
NoChar-of n (String.◌∷◌ c s) h = (ground arith, NoChar-of n s (ground arith))

has_char_of : (n : ℕ) (s : String) → NoChar n s → has_char n s ≡ false
has_char_of n String.[] h = refl
has_char_of n (String.◌∷◌ c s) h = ground (arith, has_char_of n s h.1)

-- Where the character does not occur, nothing is replaced.
replace_char_absent :
    (n : ℕ) (to : Char) (s : String) → has_char n s ≡ false → replace_char n to s ≡ s
unfolding replace_char
replace_char_absent n to String.[] h = refl
replace_char_absent n to (String.◌∷◌ c s) h =
    ap₂ String.◌∷◌ (ground arith) (replace_char_absent n to s (ground arith))

replace_char-NoChar :
    (n : ℕ) (to : Char) (s : String) → code to ≢ n → NoChar n (replace_char n to s)
unfolding replace_char
replace_char-NoChar n to String.[] h = tt
replace_char-NoChar n to (String.◌∷◌ c s) h = (ground arith, replace_char-NoChar n to s h)

replace_char_self : (n : ℕ) (to : Char) (s : String) → code to ≡ n → replace_char n to s ≡ s
unfolding replace_char
replace_char_self n to String.[] h = refl
replace_char_self n to (String.◌∷◌ c s) h = elim (Bool-cases (code c == n)) [
  | inl e ↦ rw e (ap₂ String.◌∷◌ (Char-path to c (ground arith)) (replace_char_self n to s h))
  | inr e ↦ rw e (ap (String.◌∷◌ c) (replace_char_self n to s h))
]

-- Replacing n by m and then m by k is replacing both by k.
replace_char_twice :
    (n m : ℕ) (a b : Char) (s : String)
    → code a ≡ m
    → replace_char m b (replace_char n a s) ≡ replace_char m b (replace_char n b s)
unfolding replace_char
replace_char_twice n m a b String.[] h = refl
replace_char_twice n m a b (String.◌∷◌ c s) h =
    ap₂ String.◌∷◌ (ground arith) (replace_char_twice n m a b s h)

pub gen1_to_gen2-gen2_to_gen1 : (s : String) → gen1_to_gen2 (gen2_to_gen1 s) ≡ gen1_to_gen2 s
unfolding gen1_to_gen2 gen2_to_gen1
gen1_to_gen2-gen2_to_gen1 s =
    replace_char_twice b'/' b'.' "." "/" s refl
    ∙ ap (replace_char b'.' "/") (replace_char_self b'/' "/" s refl)

pub gen1_to_gen2-NoChar : (s : String) → NoChar b'.' (gen1_to_gen2 s)
unfolding gen1_to_gen2
gen1_to_gen2-NoChar s = replace_char-NoChar b'.' "/" s (omega arith)

gen1_to_gen2_idem : (s : String) → gen1_to_gen2 (gen1_to_gen2 s) ≡ gen1_to_gen2 s
unfolding gen1_to_gen2
gen1_to_gen2_idem s =
    replace_char_absent b'.' "/" _
      (has_char_of b'.' _ (replace_char-NoChar b'.' "/" s (omega arith)))

-- Two paths that stand for the same node: the database reads the JSON spelling, subscriptions and
-- operator== the Gen2 spelling.
abbrev pub SameNode : VssPath → VssPath → Type 0
SameNode p q = (p.vsspath ≡ q.vsspath) × (p.jsonpath ≡ q.jsonpath)

module _ ⦃B : BoostText⦄ where
  pub vsspath-from_vss : (s : String) → (from_vss s).vsspath ≡ gen1_to_gen2 s
  unfolding from_vss gen1_to_gen2
  vsspath-from_vss s = elim (Bool-cases (has_char b'.' s)) [
    | inl e ↦ rw e
    | inr e ↦ rw e (sym (replace_char_absent b'.' "/" s e))
  ]

  pub jsonpath-from_vss : (s : String) → (from_vss s).jsonpath ≡ gen2_to_json (gen1_to_gen2 s)
  unfolding from_vss
  jsonpath-from_vss s = ap gen2_to_json (vsspath-from_vss s)

  SameNode-of :
      (s t : String) → gen1_to_gen2 s ≡ gen1_to_gen2 t → SameNode (from_vss s) (from_vss t)
  SameNode-of s t e = (
    vsspath-from_vss s ∙ e ∙ sym (vsspath-from_vss t),
    jsonpath-from_vss s ∙ ap gen2_to_json e ∙ sym (jsonpath-from_vss t),
  )

  -- Whatever the input, writing all its slashes as dots, or all its dots as slashes, leads
  -- fromVSS to the same node; the Gen2 spelling that it stores holds no dot, and fromVSS of the
  -- stored spelling is that node again.
  pub from_vss_respelled :
      (s : String)
      → SameNode (from_vss (gen2_to_gen1 s)) (from_vss s)
        × SameNode (from_vss (gen1_to_gen2 s)) (from_vss s)
        × NoChar b'.' (from_vss s).vsspath
        × SameNode (from_vss (from_vss s).vsspath) (from_vss s)
  from_vss_respelled s = (
    SameNode-of _ _ (gen1_to_gen2-gen2_to_gen1 s),
    SameNode-of _ _ (gen1_to_gen2_idem s),
    rw (vsspath-from_vss s) (gen1_to_gen2-NoChar s),
    SameNode-of _ _ (ap gen1_to_gen2 (vsspath-from_vss s) ∙ gen1_to_gen2_idem s),
  )

  -- to_string gives back the spelling that the client sent, character by character.
  pub to_string-from_vss : (s : String) → to_string (from_vss s) ≡ s
  unfolding to_string from_vss
  to_string-from_vss s = ground arith

  -- The Gen1 spelling that permissions are checked on still holds a slash exactly when the input
  -- mixes dots and slashes.
  pub vssgen1path_slash :
      (s : String) → has_char b'/' (from_vss s).vssgen1path ≡ (has_char b'.' s && has_char b'/' s)
  unfolding from_vss gen2_to_gen1
  vssgen1path_slash s = elim (Bool-cases (has_char b'.' s)) [
    | inl e ↦ rw e
    | inr e ↦ rw e (has_char_of b'/' _ (replace_char-NoChar b'/' "." s (omega arith)))
  ]
