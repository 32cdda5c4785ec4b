-- ===== src/Database/MetaData/Tokens.antt =====
-- The tokens of a JSON path, and when getMetaData comes to an answer.
use kuksa_val.Database.MetaData.{
  opens, closes, cut, strtok, add_token, delimiter_after, token_loop, text_length, get_vss_tokens,
}
use kuksa_val.Prelude.{
  ℕ, zero, suc, ◌≤◌, ◌+◌, code, String, ◌≡◌, ◌≢◌, ◌∙◌, refl, ap, Bool, true, false, not, Option,
  none, some, List, [], ◌∷◌, arith, All, NoChar, Char, Bool-cases, inl, inr,
}

abbrev pub followed_by : String → String → String
followed_by String.[] t = t
followed_by (String.◌∷◌ c s) t = String.◌∷◌ c (followed_by s t)

-- The text that a JSONPath query gives for a node, behind the $: ['a']['b'].
abbrev pub bracketed : List String → String
bracketed [] = ""
bracketed (name ∷ names) =
    String.◌∷◌ "["
      (String.◌∷◌ "'" (followed_by name (String.◌∷◌ "'" (String.◌∷◌ "]" (bracketed names)))))

-- A name that is not empty and has neither a bracket that opens nor a quote.
abbrev pub IsName : String → Type 0
IsName String.[] = ⊥
IsName (String.◌∷◌ c s) = NoChar b'[' (String.◌∷◌ c s) × NoChar b'\'' (String.◌∷◌ c s)

cut-name :
    (name rest : String)
    → NoChar b'[' name
    → NoChar b'\'' name
    → cut opens (followed_by name (String.◌∷◌ "'" rest)) ≡ (name, rest)
unfolding cut
cut-name String.[] rest a b = refl
cut-name (String.◌∷◌ c s) rest (a, no_a) (b, no_b) = ground (arith, cut-name s rest no_a no_b)

strtok-name :
    (name rest : String)
    → IsName name
    → strtok opens (followed_by name (String.◌∷◌ "'" rest)) ≡ some (name, rest)
unfolding strtok
strtok-name String.[] rest h = absurd h
strtok-name (String.◌∷◌ c s) rest ((a, no_a), (b, no_b)) =
    ground (arith, cut-name (String.◌∷◌ c s) rest (a, no_a) (b, no_b))

length-followed_by : (s t : String) → text_length (followed_by s t) ≡ text_length s + text_length t
length-followed_by String.[] t = omega arith
length-followed_by (String.◌∷◌ c s) t = omega (arith, length-followed_by s t)

-- The loop behind a name, with fuel for the rest of the path.
loop-names :
    (names : List String) (fuel : ℕ)
    → All IsName names
    → text_length (bracketed names) ≤ fuel
    → token_loop fuel false (strtok closes (String.◌∷◌ "]" (bracketed names))) ≡ some names
unfolding token_loop strtok cut
loop-names [] zero h enough = refl
loop-names [] (suc fuel) h enough = refl
loop-names (name ∷ names) zero h enough = absurd (omega arith)
loop-names (name ∷ names) (suc zero) h enough = absurd (omega arith)
loop-names (name ∷ names) (suc (suc fuel)) (h, hs) enough = ap (add_token false "[") (
    ap (token_loop (suc fuel) true) (strtok-name name _ h)
    ∙ ap (add_token true name) (
        loop-names names fuel hs (
          omega (
            arith,
            length-followed_by name (String.◌∷◌ "'" (String.◌∷◌ "]" (bracketed names))),
            enough,
          ))))

-- getVSSTokens gives the names of a path in brackets, where each name is not empty and holds
-- neither a quote nor a bracket that opens.
pub get_vss_tokens-bracketed :
    (names : List String)
    → All IsName names
    → get_vss_tokens (String.◌∷◌ "$" (bracketed names)) ≡ some names
unfolding get_vss_tokens token_loop strtok cut
get_vss_tokens-bracketed [] h = refl
get_vss_tokens-bracketed (name ∷ names) (h, hs) = ap (add_token false "$") (
    ap
      (token_loop
        (suc (
          suc (text_length (followed_by name (String.◌∷◌ "'" (String.◌∷◌ "]" (bracketed names)))))))
        true)
      (strtok-name name _ h)
    ∙ ap (add_token true name) (
        loop-names names
          (suc (text_length (followed_by name (String.◌∷◌ "'" (String.◌∷◌ "]" (bracketed names))))))
          hs
          (omega
            (arith, length-followed_by name (String.◌∷◌ "'" (String.◌∷◌ "]" (bracketed names)))))))

-- The text behind a token is shorter.
cut-length : (delimiter : ℕ → Bool) (s : String) → text_length (cut delimiter s).1 ≤ text_length s
unfolding cut
cut-length delimiter String.[] = omega arith
cut-length delimiter (String.◌∷◌ c s) = ground (arith, cut-length delimiter s)

abbrev rest_length : Option (String × String) → ℕ
rest_length none = 0
rest_length (some (token, rest)) = suc (text_length rest)

cut-shortens :
    (delimiter : ℕ → Bool) (c : Char) (s : String)
    → delimiter (code c) ≡ false
    → text_length (cut delimiter (String.◌∷◌ c s)).1 ≤ text_length s
unfolding cut
cut-shortens delimiter c s h = ground (arith, h, cut-length delimiter s)

strtok-length :
    (delimiter : ℕ → Bool) (s : String) → rest_length (strtok delimiter s) ≤ text_length s
unfolding strtok
strtok-length delimiter String.[] = omega arith
strtok-length delimiter (String.◌∷◌ c s) = elim (Bool-cases (delimiter (code c))) [
  | inl h ↦ ground (arith, h, strtok-length delimiter s)
  | inr h ↦ ground (arith, h, cut-shortens delimiter c s h)
]

add_token-ends :
    (even : Bool) (token : String) (o : Option (List String))
    → o ≢ none
    → add_token even token o ≢ none
add_token-ends even token none h = h
add_token-ends even token (some tokens) h = λ q. cc

loop-ends :
    (fuel : ℕ) (even : Bool) (found : Option (String × String))
    → rest_length found ≤ fuel
    → token_loop fuel even found ≢ none
unfolding token_loop
loop-ends fuel even none enough = λ q. cc
loop-ends zero even (some (token, rest)) enough = absurd (omega arith)
loop-ends (suc fuel) even (some (token, rest)) enough = add_token-ends even token _ (
    loop-ends fuel (not even) (strtok (delimiter_after even) rest)
      (omega (arith, strtok-length (delimiter_after even) rest, enough)))

pub get_vss_tokens-ends : (path : String) → get_vss_tokens path ≢ none
unfolding get_vss_tokens
get_vss_tokens-ends path =
    loop-ends (text_length path) false (strtok opens path) (strtok-length opens path)
