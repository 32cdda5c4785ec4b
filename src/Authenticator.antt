-- ===== src/Authenticator.antt =====
-- Authenticator.cpp: tokens, and the rights that a token gives to a channel. A function that may
-- throw after it has changed the channel returns the channel beside its result.
pub mod Grants
use kuksa_val.Access.{object_range}
use kuksa_val.Channel.{KuksaChannel}
use kuksa_val.Database.Nodes.{is_the_text}
use kuksa_val.Exception.{Result, ok, err, ◌>>=◌, ◌>>◌}
use kuksa_val.External.{Jsoncons, Jwt}
use kuksa_val.Json.{Json, str, obj, Members, end, assign, lookup}
use kuksa_val.Numbers.{int32}
use kuksa_val.Prelude.{
  zero, String, Bool, true, false, ◌||◌, Option, none, some, List, [], ◌∷◌, if◌then◌else◌,
}
use kuksa_val.Prelude.Int.{ℤ, pos, negsuc, ltb_ℤ}
use kuksa_val.Subscription.State.{or_missing}

-- The token texts that a channel may write or read by.
unfoldable pub is_permission : Json → Bool
is_permission value =
    is_the_text "rw" (some value)
    || is_the_text "wr" (some value)
    || is_the_text "w" (some value)
    || is_the_text "r" (some value)

-- The loop over the claim "kuksa-vss": entries with other values are left out.
unfoldable pub keep_permissions : List (String × Json) → Members → Members
unfolding is_permission assign
keep_permissions [] kept = kept
keep_permissions ((key, value) ∷ rest) kept =
    keep_permissions rest (if is_permission value then assign key value kept else kept)

-- ret == -1
abbrev pub is_minus_one : ℤ → Bool
is_minus_one (negsuc zero) = true
is_minus_one _ = false

module _ ⦃J : Jsoncons⦄ ⦃W : Jwt⦄ where
  -- claims[e.first] = e.second.to_json().to_str()
  unfoldable pub text_claims : List (String × Json) → Members → Members
  unfolding assign
  text_claims [] claims = claims
  text_claims ((key, value) ∷ rest) claims =
      text_claims rest (assign key (str (W.to_str value)) claims)

  -- What has to succeed before the channel is touched.
  unfoldable pub verified_claims : String → String → Result (List (String × Json))
  verified_claims key token = do claims ← W.decode token; W.rs256 key; W.verify key token; ok claims

  -- claims["exp"].as<int>()
  unfoldable pub expiry : List (String × Json) → Result ℤ
  unfolding text_claims lookup
  expiry claims = do
    exp ← or_missing "exp" (lookup "exp" (text_claims claims end))
    J.as_integer int32 exp

  abbrev pub ttl_or_minus_one : Result ℤ → ℤ
  ttl_or_minus_one (ok ttl) = ttl
  ttl_or_minus_one (err e) = negsuc 0

  abbrev pub accept_token : KuksaChannel → String → Result (List (String × Json)) → ℤ × KuksaChannel
  accept_token channel token (err e) = (negsuc 0, channel)
  accept_token channel token (ok claims) =
      (ttl_or_minus_one (expiry claims), record channel { authorized = true; auth_token = token })

  -- validateToken, with the public key
  unfoldable pub validate_token : String → KuksaChannel → String → ℤ × KuksaChannel
  unfolding verified_claims expiry
  validate_token key channel token = accept_token channel token (verified_claims key token)

  -- The claims as resolvePermissions reads them: printed and parsed again.
  unfoldable pub json_claims : List (String × Json) → Members → Result Members
  unfolding assign
  json_claims [] claims = ok claims
  json_claims ((key, value) ∷ rest) claims = do
    parsed ← J.parse (W.serialize value)
    json_claims rest (assign key parsed claims)

  abbrev pub flag_of : Option Json → Result Bool
  flag_of none = ok false
  flag_of (some value) = J.as_bool value

  abbrev pub permissions_in : Option Json → Result Members
  permissions_in none = ok end
  permissions_in (some permissions) = do
    entries ← object_range permissions
    ok (keep_permissions entries end)

  abbrev pub with_permissions : KuksaChannel → Result Members → Result (Unit {0}) × KuksaChannel
  with_permissions channel (err e) = (err e, channel)
  with_permissions channel (ok permissions) =
      (ok tt, record channel { permissions = str (J.dump_pretty (obj permissions)) })

  abbrev pub with_modify : KuksaChannel → Members → Result Bool → Result (Unit {0}) × KuksaChannel
  with_modify channel claims (err e) = (err e, channel)
  with_modify channel claims (ok modify) =
      with_permissions (if modify then record channel { modify_tree = true } else channel)
        (permissions_in (lookup "kuksa-vss" claims))

  abbrev pub with_claims : KuksaChannel → Result Members → Result (Unit {0}) × KuksaChannel
  with_claims channel (err e) = (err e, channel)
  with_claims channel (ok claims) =
      with_modify channel claims (flag_of (lookup "modifyTree" claims))

  -- The claims of the channel's token.
  unfoldable pub token_claims : String → Result Members
  unfolding json_claims
  token_claims token = do decoded ← W.decode token; json_claims decoded end

  unfoldable pub resolve_permissions : KuksaChannel → Result (Unit {0}) × KuksaChannel
  unfolding token_claims keep_permissions lookup
  resolve_permissions channel = with_claims channel (token_claims channel.auth_token)

  abbrev pub resolved : ℤ → Result (Unit {0}) × KuksaChannel → Result ℤ × KuksaChannel
  resolved ttl (ok done, channel) = (ok ttl, channel)
  resolved ttl (err e, channel) = (err e, channel)

  abbrev pub validate_expiry : ℤ × KuksaChannel → Result ℤ × KuksaChannel
  validate_expiry (ttl, channel) =
      if ltb_ℤ (pos 0) ttl then resolved ttl (resolve_permissions channel) else (ok ttl, channel)

  unfoldable pub validate : String → KuksaChannel → String → Result ℤ × KuksaChannel
  unfolding validate_token resolve_permissions
  validate key channel token = validate_expiry (validate_token key channel token)

  abbrev pub still_valid : ℤ × KuksaChannel → Bool × KuksaChannel
  still_valid (ret, channel) =
      if is_minus_one ret then (false, record channel { authorized = false }) else (true, channel)

  -- isStillValid
  unfoldable pub is_still_valid : String → KuksaChannel → Bool × KuksaChannel
  unfolding validate_token
  is_still_valid key channel = still_valid (validate_token key channel channel.auth_token)
