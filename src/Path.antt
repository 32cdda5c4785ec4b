-- ===== src/Path.antt =====
-- VSSPath.cpp and VSSPath.hpp: one path in its Gen2, Gen1 and JSON spelling.
pub mod Spelling
pub mod Names
use Prim.Native.String
use kuksa_val.External.{BoostText}
use kuksa_val.Prelude.{
  ℕ, Char, code, String, Bool, true, false, List, [], ◌∷◌, ◌++◌, ◌<>◌, ◌==◌, ◌||◌, str_eq,
  if◌then◌else◌, has_char,
}

pub record VssPath : Type 0 where
  pub vsspath : String
  pub vssgen1path : String
  pub jsonpath : String
  pub gen1 : Bool

-- VSSPath::operator== looks at the Gen2 spelling alone.
unfoldable pub same_path : VssPath → VssPath → Bool
same_path p q = str_eq p.vsspath q.vsspath

-- VSSPath::to_string
unfoldable pub to_string : VssPath → String
to_string p = if p.gen1 then p.vssgen1path else p.vsspath

-- std::replace over a whole string; the first code is the one replaced.
unfoldable pub replace_char : ℕ → Char → String → String
replace_char from to String.[] = String.[]
replace_char from to (String.◌∷◌ c s) =
    String.◌∷◌ (if code c == from then to else c) (replace_char from to s)

unfoldable pub gen1_to_gen2 : String → String
unfolding replace_char
gen1_to_gen2 input = replace_char b'.' "/" input

unfoldable pub gen2_to_gen1 : String → String
unfolding replace_char
gen2_to_gen1 input = replace_char b'/' "." input

-- The loop of gen2tojson over the elements, and what it writes to the stream.
unfoldable pub json_steps : Bool → List String → String
json_steps first [] = ""
json_steps first (element ∷ elements) =
    (if first then "" else "['children']")
    <> (if str_eq element "*" then "[*]" else "['" <> element <> "']")
    <> json_steps false elements

module _ ⦃B : BoostText⦄ where
  open B use {split_slash, erase_all, erase_first, erase_last, replace_all}

  unfoldable pub gen2_to_json : String → String
  unfolding json_steps
  gen2_to_json input = "$" <> json_steps true (split_slash input)

  unfoldable pub json_to_gen2 : String → String
  json_to_gen2 input =
      let unnested = erase_all (erase_all input "['children']") "'" in
      erase_last (erase_first (replace_all unnested "][" "/") "$[") "]"

  -- VSSPath::fromVSS: an input without "." is taken for a Gen2 path.
  unfoldable pub from_vss : String → VssPath
  unfolding gen1_to_gen2 gen2_to_gen1 gen2_to_json
  from_vss input =
      let gen1 = has_char b'.' input in
      let vss = if gen1 then gen1_to_gen2 input else input in
      record {
        vsspath = vss;
        vssgen1path = if gen1 then input else gen2_to_gen1 input;
        jsonpath = gen2_to_json vss;
        gen1 = gen1;
      }

  unfoldable pub from_vss_gen2 : String → VssPath
  unfolding gen2_to_gen1 gen2_to_json
  from_vss_gen2 input = record {
    vsspath = input;
    vssgen1path = gen2_to_gen1 input;
    jsonpath = gen2_to_json input;
    gen1 = false;
  }

  unfoldable pub from_vss_gen1 : String → VssPath
  unfolding gen1_to_gen2 gen2_to_json
  from_vss_gen1 input =
      let vss = gen1_to_gen2 input in
      record { vsspath = vss; vssgen1path = input; jsonpath = gen2_to_json vss; gen1 = true }

  unfoldable pub from_json : String → Bool → VssPath
  unfolding gen2_to_gen1 json_to_gen2
  from_json input gen1 =
      let vss = json_to_gen2 input in
      record { vsspath = vss; vssgen1path = gen2_to_gen1 vss; jsonpath = input; gen1 = gen1 }
