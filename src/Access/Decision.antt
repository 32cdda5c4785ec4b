-- ===== src/Access/Decision.antt =====
-- When access is granted.
use mathlib.Core.Bool.{false≢true}
use kuksa_val.Access.{
  expand_stars, text_or_empty, exact_permission, matched_permission, pattern_permission,
  permission_for, channel_permissions, check_signal_access, object_range,
}
use kuksa_val.Channel.{KuksaChannel}
use kuksa_val.Exception.{ok, >>=-eq-ok, ok-injective}
use kuksa_val.External.{Jsoncons, Regex}
use kuksa_val.Json.{Json, obj, find, lookup, Members, members}
use kuksa_val.Prelude.{
  String, ap, sym, ◌∙◌, ◌≡◌, refl, ◌⊎◌, inl, inr, true, false, none, some, List, [], ◌∷◌, arith,
  Member, first, later, has_infix, is_empty, All, if◌then◌else◌, Bool-cases, Option-cases,
}

module _ ⦃J : Jsoncons⦄ ⦃R : Regex⦄ where
  open J use {as_string}
  open R use {regex_match}

  -- An entry of the list whose pattern matches the path, and its value as text.
  pub record MatchedBy (path : String) (entries : List (String × Json)) (value : String)
      : Type 0 where
    pub key : String
    pub entry : Json
    pub listed : Member (key, entry) entries
    pub matches : regex_match (expand_stars key) path ≡ ok true
    pub text : as_string entry ≡ ok value

  MatchedBy-later :
      {path : String} {entries : List (String × Json)} {value : String} (e : String × Json)
      → MatchedBy path entries value
      → MatchedBy path (e ∷ entries) value
  MatchedBy-later e m = record {
    key = m.key;
    entry = m.entry;
    listed = later m.listed;
    matches = m.matches;
    text = m.text;
  }

  matched_permission_sound :
      (path found : String) (entries : List (String × Json)) (value : String)
      → matched_permission path found entries ≡ ok value
      → (value ≡ found) ⊎ MatchedBy path entries value
  unfolding matched_permission
  matched_permission_sound path found [] value h = inl (ground arith)
  matched_permission_sound path found ((key, entry) ∷ rest) value h =
      let (b, tested, h') = >>=-eq-ok (regex_match (expand_stars key) path) _ h in
      let (found', taken, h'') = >>=-eq-ok (if b then as_string entry else ok found) _ h' in
      elim (matched_permission_sound path found' rest value h'') [
        | inr m ↦ inr (MatchedBy-later (key, entry) m)
        | inl same ↦ elim (Bool-cases b) [
          | inl hit ↦ inr (record {
            key = key;
            entry = entry;
            listed = first;
            matches = ground arith;
            text = ground arith;
          })
          | inr miss ↦ inl (ground arith)
        ]
      ]

  -- What an access decision rests on: a value for the path itself, or that of a matching pattern.
  pub data Source (permissions : Json) (path value : String) : Type 0 where
    exact :
        (entry : Json)
        → find path permissions ≡ some entry
        → as_string entry ≡ ok value
        → is_empty value ≡ false
        → Source permissions path value
    pattern_of :
        (entries : List (String × Json))
        → object_range permissions ≡ ok entries
        → MatchedBy path entries value
        → Source permissions path value

  no_text : (value : String) → text_or_empty none ≡ ok value → is_empty value ≡ false → ⊥
  no_text value h full = false≢true (sym full ∙ sym (ap is_empty (ok-injective h)))

  exact_permission_sound :
      (permissions : Json) (path value : String)
      → exact_permission permissions path ≡ ok value
      → is_empty value ≡ false
      → (entry : Json) × (find path permissions ≡ some entry) × (as_string entry ≡ ok value)
  unfolding exact_permission
  exact_permission_sound permissions path value h full =
      elim (Option-cases (find path permissions)) [
        | inl missing ↦ absurd (no_text value (rw missing at h) full)
        | inr (entry, here) ↦ (entry, here, rw here at h)
      ]

  permission_for-Source :
      (permissions : Json) (path value : String)
      → permission_for permissions path ≡ ok value
      → (is_empty value ≡ true) ⊎ Source permissions path value
  unfolding permission_for pattern_permission
  permission_for-Source permissions path value h =
      let (v, looked, h') = >>=-eq-ok (exact_permission permissions path) _ h in
      elim (Bool-cases (is_empty v)) [
        | inr full ↦
            let (entry, here, text) = exact_permission_sound permissions path v looked full in
            let same : v ≡ value = ground arith in
            inr (exact entry here (rw same at text) (rw same at full))
        | inl empty ↦
            let (entries, listed, h'') = >>=-eq-ok (object_range permissions) _ (rw empty at h') in
            elim (matched_permission_sound path "" entries value h'') [
              | inl none_found ↦ inl (rw none_found)
              | inr m ↦ inr (pattern_of entries listed m)
            ]
      ]

  has_infix-empty :
      (required value : String)
      → is_empty required ≡ false
      → is_empty value ≡ true
      → has_infix required value ≡ false
  has_infix-empty String.[] value h e = ground arith
  has_infix-empty (String.◌∷◌ c s) String.[] h e = refl
  has_infix-empty (String.◌∷◌ c s) (String.◌∷◌ d t) h e = ground arith

  -- Access by a required letter that is not empty is granted only by an entry of the channel's permissions: one for the very path, or
  -- one whose pattern, with each star read as any text, matches the path; and its value contains
  -- the letter that is required.
  pub check_signal_access_sound :
      (channel : KuksaChannel) (path required : String)
      → is_empty required ≡ false
      → check_signal_access channel path required ≡ ok true
      → (permissions : Json) × (value : String) × (channel_permissions channel ≡ ok permissions)
        × Source permissions path value
        × (has_infix required value ≡ true)
  unfolding check_signal_access
  check_signal_access_sound channel path required asked h =
      let (permissions, parsed, h') = >>=-eq-ok (channel_permissions channel) _ h in
      let (value, found, h'') = >>=-eq-ok (permission_for permissions path) _ h' in
      let holds : has_infix required value ≡ true = ground arith in
      elim (permission_for-Source permissions path value found) [
        | inl empty ↦ absurd (ground (arith, has_infix-empty required value asked empty))
        | inr source ↦ (permissions, value, parsed, source, holds)
      ]

  matched_permission_none :
      (path found : String) (entries : List (String × Json))
      → All (λ e. regex_match (expand_stars e.0) path ≡ ok false) entries
      → matched_permission path found entries ≡ ok found
  unfolding matched_permission
  matched_permission_none path found [] h = refl
  matched_permission_none path found ((key, entry) ∷ rest) h =
      rw (h.0) (matched_permission_none path found rest h.1)

  -- Deny by default, for a required letter that is not empty: with no entry for the path and no pattern that matches it, the answer is no.
  pub check_signal_access_denied :
      (channel : KuksaChannel) (path required : String) (ms : Members)
      → is_empty required ≡ false
      → channel_permissions channel ≡ ok (obj ms)
      → lookup path ms ≡ none
      → All (λ e. regex_match (expand_stars e.0) path ≡ ok false) (members ms)
      → check_signal_access channel path required ≡ ok false
  unfolding check_signal_access permission_for pattern_permission exact_permission
  check_signal_access_denied channel path required ms asked parsed missing unmatched =
      rw (parsed, missing, matched_permission_none path "" (members ms) unmatched)
        (ap ok (has_infix-empty required "" asked refl))

  -- A value for the very path that is a text and not empty decides alone, whatever the patterns say.
  pub check_signal_access_exact :
      (channel : KuksaChannel) (path required value : String) (ms : Members) (entry : Json)
      → channel_permissions channel ≡ ok (obj ms)
      → lookup path ms ≡ some entry
      → as_string entry ≡ ok value
      → is_empty value ≡ false
      → check_signal_access channel path required ≡ ok (has_infix required value)
  unfolding check_signal_access permission_for exact_permission
  check_signal_access_exact channel path required value ms entry parsed here text full =
      rw (parsed, here, text, full)
