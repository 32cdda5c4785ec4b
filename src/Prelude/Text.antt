-- ===== src/Prelude/Text.antt =====
-- Texts: concatenation, and a search for one text in another.
use Prim.Native.String
use Prim.Native.String.{String}
use Prim.Native.Char.{code}
use Prim.Native.Nat.{ℕ}
use mathlib.Core.Logic.{◌≢◌}
use mathlib.Core.List.{List, [], ◌∷◌}
use mathlib.Core.Bool.{Bool, true, false, ◌&&◌, ◌||◌}
use kuksa_val.Prelude.Tests.{◌==◌, leb}

infixr 60 ◌<>◌
abbrev pub ◌<>◌ : String → String → String
s <> t = String.◌++◌ s t

abbrev pub is_prefix : String → String → Bool
is_prefix String.[] t = true
is_prefix (String.◌∷◌ c s) String.[] = false
is_prefix (String.◌∷◌ c s) (String.◌∷◌ d t) = (code c == code d) && is_prefix s t

-- `t.find(s) != npos`.
abbrev pub has_infix : String → String → Bool
has_infix s String.[] = is_prefix s String.[]
has_infix s (String.◌∷◌ c t) = is_prefix s (String.◌∷◌ c t) || has_infix s t

abbrev pub is_empty : String → Bool
is_empty String.[] = true
is_empty (String.◌∷◌ c s) = false

-- A text without the character of this code.
abbrev pub NoChar : ℕ → String → Type 0
NoChar n String.[] = Unit
NoChar n (String.◌∷◌ c s) = (code c ≢ n) × NoChar n s

abbrev pub has_char : ℕ → String → Bool
has_char n String.[] = false
has_char n (String.◌∷◌ c s) = (code c == n) || has_char n s

-- The texts with a slash between each two.
abbrev pub join_slash : List String → String
join_slash [] = ""
join_slash (s ∷ []) = s
join_slash (s ∷ t ∷ ts) = s <> "/" <> join_slash (t ∷ ts)

-- Letters, digits and the underscore.
abbrev pub is_name_char : ℕ → Bool
is_name_char n =
    (leb b'0' n && leb n b'9')
    || (leb b'A' n && leb n b'Z')
    || (leb b'a' n && leb n b'z')
    || (n == b'_')

abbrev pub is_name : String → Bool
is_name String.[] = true
is_name (String.◌∷◌ c s) = is_name_char (code c) && is_name s
