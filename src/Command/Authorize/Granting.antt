-- ===== src/Command/Authorize/Granting.antt =====
-- What an authorize request does to its channel.
use kuksa_val.Authenticator.{
  verified_claims, expiry, validate_token, with_permissions, with_modify, with_claims, token_claims,
  resolve_permissions, resolved, validate_expiry, validate,
}
use kuksa_val.Authenticator.Grants.{TokenOutcome, rejected, verified, validate_token-TokenOutcome}
use kuksa_val.Channel.{KuksaChannel}
use kuksa_val.Command.Authorize.{invalid_token, authorize_answer, process_authorize}
use kuksa_val.Exception.{Exception, Result, ok, err, ok-injective}
use kuksa_val.External.{Jsoncons, Clock, Jwt}
use kuksa_val.Json.{Json, Members, contains, lookup, assign}
use kuksa_val.Prelude.{String, ◌≡◌, ◌≢◌, refl, sym, ap, ◌∙◌, Bool, true, false, subst, List}
use kuksa_val.Prelude.Int.{ℤ, pos, negsuc, ltb_ℤ}
use kuksa_val.Response.{error_answer}

-- The channel is signed in by this token.
abbrev pub HoldsToken : String → KuksaChannel → Type 0
HoldsToken token channel = (channel.authorized ≡ true) × (channel.auth_token ≡ token)

module _ ⦃J : Jsoncons⦄ ⦃W : Jwt⦄ where
  with_permissions-HoldsToken :
      (token : String) (channel : KuksaChannel) (r : Result Members)
      → HoldsToken token channel
      → HoldsToken token (with_permissions channel r).1
  with_permissions-HoldsToken token channel (err e) h = h
  with_permissions-HoldsToken token channel (ok ms) h = h

  with_modify-HoldsToken :
      (token : String) (channel : KuksaChannel) (claims : Members) (r : Result Bool)
      → HoldsToken token channel
      → HoldsToken token (with_modify channel claims r).1
  with_modify-HoldsToken token channel claims (err e) h = h
  with_modify-HoldsToken token channel claims (ok true) h =
      with_permissions-HoldsToken token (record channel { modify_tree = true }) _ h
  with_modify-HoldsToken token channel claims (ok false) h =
      with_permissions-HoldsToken token channel _ h

  with_claims-HoldsToken :
      (token : String) (channel : KuksaChannel) (r : Result Members)
      → HoldsToken token channel
      → HoldsToken token (with_claims channel r).1
  with_claims-HoldsToken token channel (err e) h = h
  with_claims-HoldsToken token channel (ok claims) h =
      with_modify-HoldsToken token channel claims _ h

  resolved-HoldsToken :
      (token : String) (ttl : ℤ) (r : Result (Unit {0}) × KuksaChannel)
      → HoldsToken token r.1
      → HoldsToken token (resolved ttl r).1
  resolved-HoldsToken token ttl (err e, channel) h = h
  resolved-HoldsToken token ttl (ok tt, channel) h = h

  validate_expiry-HoldsToken :
      (token : String) (ttl : ℤ) (channel : KuksaChannel) (late : Bool)
      → ltb_ℤ (pos 0) ttl ≡ late
      → HoldsToken token channel
      → HoldsToken token (validate_expiry (ttl, channel)).1
  unfolding resolve_permissions
  validate_expiry-HoldsToken token ttl channel true late h = simp late (
      resolved-HoldsToken token ttl (resolve_permissions channel)
        (with_claims-HoldsToken token channel (token_claims channel.auth_token) h))
  validate_expiry-HoldsToken token ttl channel false late h = simp late h

  -- What validate comes to: a rejected token leaves the channel as it was, any other is the
  -- channel's afterwards.
  pub data Validated (key : String) (channel : KuksaChannel) (token : String)
      (r : Result ℤ × KuksaChannel) : Type 0 where
    refused : r ≡ (ok (negsuc 0), channel) → Validated key channel token r
    signed_in : W.verify key token ≡ ok tt → HoldsToken token r.1 → Validated key channel token r

  expiry-Validated :
      (key : String) (channel : KuksaChannel) (token : String) (r : ℤ × KuksaChannel)
      → TokenOutcome key channel token r
      → Validated key channel token (validate_expiry r)
  expiry-Validated key channel token r (rejected e) = refused (ap validate_expiry e)
  expiry-Validated key channel token r (verified claims decoded passed e) =
      subst (λ (x : ℤ × KuksaChannel). Validated key channel token (validate_expiry x)) (sym e)
        (signed_in passed (validate_expiry-HoldsToken token _ _ _ refl (refl, refl)))

  pub validate-Validated :
      (key : String) (channel : KuksaChannel) (token : String)
      → Validated key channel token (validate key channel token)
  unfolding validate
  validate-Validated key channel token =
      expiry-Validated key channel token _ (validate_token-TokenOutcome key channel token)

  -- A key by which no token verifies leaves every channel as it was.
  pub validate-unverified :
      (key : String) (channel : KuksaChannel) (token : String)
      → W.verify key token ≢ ok tt
      → (validate key channel token).1 ≡ channel
  validate-unverified key channel token never = elim (validate-Validated key channel token) [
    | refused e ↦ ap (λ (x : Result ℤ × KuksaChannel). x.1) e
    | signed_in passed held ↦ absurd (never passed)
  ]

  module _ ⦃C : Clock⦄ where
    true-ne-false : true ≡ false → ⊥
    true-ne-false h = cc

    authorize_answer-refused :
        (request_id : String) (answer : Json)
        → authorize_answer request_id (ok (negsuc 0)) ≡ ok answer
        → contains "error" answer ≡ true
    unfolding invalid_token error_answer assign lookup
    authorize_answer-refused request_id answer h =
        subst (λ x. contains "error" x ≡ true) (ok-injective h) refl

    -- If an authorize request is answered without an error, its token has been verified by the
    -- key, and the channel is authorized and holds this token.
    pub process_authorize-HoldsToken :
        (key : String) (channel : KuksaChannel) (request_id token : String) (answer : Json)
        → (process_authorize key channel request_id token).0 ≡ ok answer
        → contains "error" answer ≡ false
        → (W.verify key token ≡ ok tt)
          × HoldsToken token (process_authorize key channel request_id token).1
    unfolding process_authorize
    process_authorize-HoldsToken key channel request_id token answer h fine =
        elim (validate-Validated key channel token) [
          | signed_in passed held ↦ (passed, held)
          | refused e ↦ absurd (
              true-ne-false (
                sym (
                  authorize_answer-refused request_id answer (
                    ap (λ (x : Result ℤ × KuksaChannel). authorize_answer request_id x.0) (sym e)
                    ∙ h))
                ∙ fine))
        ]

    -- If a token verifies but its expiry cannot be read as a number, the request is answered with
    -- 401, and the channel is authorized and holds the token all the same.
    pub process_authorize_unreadable :
        (key : String) (channel : KuksaChannel) (request_id token : String)
        (claims : List (String × Json)) (e : Exception)
        → verified_claims key token ≡ ok claims
        → expiry claims ≡ err e
        → process_authorize key channel request_id token ≡ (
          ok (invalid_token request_id),
          record channel { authorized = true; auth_token = token },
        )
    unfolding process_authorize validate validate_token
    process_authorize_unreadable key channel request_id token claims e passed unreadable =
        rw (passed, unreadable)
