-- ===== src/Authenticator/Grants.antt =====
-- What a token has to be before it changes the rights of a channel, and which rights it gives.
use kuksa_val.Access.{object_range}
use kuksa_val.Authenticator.{
  is_permission, keep_permissions, verified_claims, expiry, ttl_or_minus_one, accept_token,
  validate_token, flag_of, permissions_in, with_permissions, with_modify, with_claims, token_claims,
  resolve_permissions, resolved, validate_expiry, validate,
}
use kuksa_val.Channel.{KuksaChannel}
use kuksa_val.Exception.{Exception, Result, ok, err, >>=-eq-ok, ok-injective, ok-ne-err}
use kuksa_val.External.{Jsoncons, Jwt}
use kuksa_val.Json.{Json, str, obj, Members, end, assign, lookup, lookup-assign}
use kuksa_val.Prelude.{
  String, ◌≡◌, refl, sym, ap, subst, ◌∙◌, Bool, true, false, ◌⊎◌, inl, inr, Option, none, some,
  List, [], ◌∷◌, if◌then◌else◌, Member, first, later, arith, Bool-cases, str_eq, eq_iff,
}
use kuksa_val.Prelude.Int.{ℤ, pos, negsuc, ltb_ℤ}

-- An entry of the kept permissions stands in the claim with one of the four values, or was there
-- before.
keep_permissions-Member :
    (entries : List (String × Json)) (kept : Members) (k : String) (v : Json)
    → lookup k (keep_permissions entries kept) ≡ some v
    → (lookup k kept ≡ some v) ⊎ (Member (k, v) entries × (is_permission v ≡ true))
unfolding keep_permissions
keep_permissions-Member [] kept k v h = inl h
keep_permissions-Member ((key, value) ∷ rest) kept k v h =
    elim (keep_permissions-Member rest (if is_permission value then assign key value kept else kept)
      k v h) [
        | inr (m, right) ↦ inr (later m, right)
        | inl before ↦ kept_before (is_permission value) refl before
      ]
  where
    kept_before :
        (b : Bool)
        → is_permission value ≡ b
        → lookup k (if b then assign key value kept else kept) ≡ some v
        → (lookup k kept ≡ some v)
          ⊎ (Member (k, v) ((key, value) ∷ rest) × (is_permission v ≡ true))
    kept_before false right before = inl before
    kept_before true right before = elim (Bool-cases (str_eq key k)) [
      | inr other ↦ inl (rw (lookup-assign key k value kept, other) at before)
      | inl same ↦
          let held : some value ≡ some v = rw (lookup-assign key k value kept, same) at before in
          let stored : value ≡ v = cc in
          let named = (eq_iff key k).0 same in
          inr (
            subst (λ n. Member (n, v) ((key, value) ∷ rest)) named
                (subst (λ w. Member (key, w) ((key, value) ∷ rest)) stored first),
            subst (λ w. is_permission w ≡ true) stored right,
          )
    ]

module _ ⦃J : Jsoncons⦄ ⦃W : Jwt⦄ (key : String) where
  -- A token either is rejected and leaves the channel as it was, or has been verified by the key;
  -- the channel then holds this token, and its permissions and its right to modify the tree
  -- are as before.
  pub data TokenOutcome (channel : KuksaChannel) (token : String) (r : ℤ × KuksaChannel)
      : Type 0 where
    rejected : r ≡ (negsuc 0, channel) → TokenOutcome channel token r
    verified :
        (claims : List (String × Json))
        → W.decode token ≡ ok claims
        → W.verify key token ≡ ok tt
        → r ≡ (
          ttl_or_minus_one (expiry claims),
          record channel { authorized = true; auth_token = token },
        )
        → TokenOutcome channel token r

  accept_token-TokenOutcome :
      (channel : KuksaChannel) (token : String) (r : Result (List (String × Json)))
      → verified_claims key token ≡ r
      → TokenOutcome channel token (accept_token channel token r)
  unfolding verified_claims
  accept_token-TokenOutcome channel token (err e) h = rejected refl
  accept_token-TokenOutcome channel token (ok claims) h =
      let (decoded, e₁, h₁) = >>=-eq-ok (W.decode token) _ h in
      let (_, _, h₂) = >>=-eq-ok (W.rs256 key) _ h₁ in
      let (_, e₃, h₃) = >>=-eq-ok (W.verify key token) _ h₂ in verified claims (e₁ ∙ h₃) e₃ refl

  pub validate_token-TokenOutcome :
      (channel : KuksaChannel) (token : String)
      → TokenOutcome channel token (validate_token key channel token)
  unfolding validate_token
  validate_token-TokenOutcome channel token =
      accept_token-TokenOutcome channel token (verified_claims key token) refl

  -- Where the permissions that a channel has got come from.
  pub record IsGranted (token : String) (channel : KuksaChannel) : Type 0 where
    pub permissions : Members
    pub held : channel.permissions ≡ str (J.dump_pretty (obj permissions))
    pub claims : Members
    pub read : token_claims token ≡ ok claims
    pub claimed :
        (k : String) (v : Json)
        → lookup k permissions ≡ some v
        → (claim : Json) × (entries : List (String × Json)) × (lookup "kuksa-vss" claims
            ≡ some claim)
          × (object_range claim ≡ ok entries)
          × Member (k, v) entries
          × (is_permission v ≡ true)
    pub modify : channel.modify_tree ≡ true → flag_of (lookup "modifyTree" claims) ≡ ok true

  permissions_in-claimed :
      (o : Option Json) (ms : Members) (k : String) (v : Json)
      → permissions_in o ≡ ok ms
      → lookup k ms ≡ some v
      → (claim : Json) × (entries : List (String × Json)) × (o ≡ some claim)
        × (object_range claim ≡ ok entries)
        × Member (k, v) entries
        × (is_permission v ≡ true)
  unfolding lookup
  permissions_in-claimed none ms k v h found =
      let gone : lookup k end ≡ some v =
        subst (λ m. lookup k m ≡ some v) (sym (ok-injective h)) found in
      cc
  permissions_in-claimed (some claim) ms k v h found =
      let (entries, ranged, h₁) = >>=-eq-ok (object_range claim) _ h in
      elim (keep_permissions-Member entries end k v
        (subst (λ m. lookup k m ≡ some v) (sym (ok-injective h₁)) found)) [
          | inl before ↦ let gone : Path (Option Json) none (some v) = before in cc
          | inr (m, right) ↦ (claim, entries, refl, ranged, m, right)
        ]

  thrown-ne-done :
      {e : Exception} {c c' : KuksaChannel}
      → Path (Result (Unit {0}) × KuksaChannel) (err e, c) (ok tt, c')
      → ⊥
  thrown-ne-done h = ok-ne-err (sym (ap (λ (x : Result (Unit {0}) × KuksaChannel). x.0) h))

  with_permissions-IsGranted :
      (token : String) (channel channel' : KuksaChannel) (claims : Members) (r : Result Members)
      → token_claims token ≡ ok claims
      → (channel.modify_tree ≡ true → flag_of (lookup "modifyTree" claims) ≡ ok true)
      → permissions_in (lookup "kuksa-vss" claims) ≡ r
      → with_permissions channel r ≡ (ok tt, channel')
      → IsGranted token channel'
  with_permissions-IsGranted token channel channel' claims (err e) read modify taken h =
      absurd (thrown-ne-done h)
  with_permissions-IsGranted token channel channel' claims (ok ms) read modify taken h =
      let same = ap (λ (x : Result (Unit {0}) × KuksaChannel). x.1) h in
      record {
        permissions = ms;
        held = ap (λ (c : KuksaChannel). c.permissions) (sym same);
        claims = claims;
        read = read;
        claimed =
            λ k v found. permissions_in-claimed (lookup "kuksa-vss" claims) ms k v taken found;
        modify = λ m. modify (ap (λ (c : KuksaChannel). c.modify_tree) same ∙ m);
      }

  with_modify-IsGranted :
      (token : String) (channel channel' : KuksaChannel) (claims : Members) (r : Result Bool)
      → channel.modify_tree ≡ false
      → token_claims token ≡ ok claims
      → flag_of (lookup "modifyTree" claims) ≡ r
      → with_modify channel claims r ≡ (ok tt, channel')
      → IsGranted token channel'
  with_modify-IsGranted token channel channel' claims (err e) plain read flag h =
      absurd (thrown-ne-done h)
  with_modify-IsGranted token channel channel' claims (ok true) plain read flag h =
      with_permissions-IsGranted token (record channel { modify_tree = true }) channel' claims _
        read (λ m. flag) refl h
  with_modify-IsGranted token channel channel' claims (ok false) plain read flag h =
      with_permissions-IsGranted token channel channel' claims _ read (λ m. cc) refl h

  with_claims-IsGranted :
      (token : String) (channel channel' : KuksaChannel) (r : Result Members)
      → channel.modify_tree ≡ false
      → token_claims token ≡ r
      → with_claims channel r ≡ (ok tt, channel')
      → IsGranted token channel'
  with_claims-IsGranted token channel channel' (err e) plain read h = absurd (thrown-ne-done h)
  with_claims-IsGranted token channel channel' (ok claims) plain read h =
      with_modify-IsGranted token channel channel' claims _ plain read refl h

  resolved-ok :
      (ttl n : ℤ) (r : Result (Unit {0}) × KuksaChannel) (channel' : KuksaChannel)
      → resolved ttl r ≡ (ok n, channel')
      → (r ≡ (ok tt, channel')) × (ttl ≡ n)
  resolved-ok ttl n (ok tt, channel) channel' h = (
    ap (λ (x : Result ℤ × KuksaChannel). (ok tt, x.1)) h,
    ok-injective (ap (λ (x : Result ℤ × KuksaChannel). x.0) h),
  )
  resolved-ok ttl n (err e, channel) channel' h =
      absurd (ok-ne-err (sym (ap (λ (x : Result ℤ × KuksaChannel). x.0) h)))

  minus_one_not_positive : (n : ℤ) → negsuc 0 ≡ n → ltb_ℤ (pos 0) n ≡ true → ⊥
  minus_one_not_positive n e h = ground arith

  true-ne-false : true ≡ false → ⊥
  true-ne-false h = cc

  validate_expiry-IsGranted :
      (channel channel' : KuksaChannel) (token : String) (n : ℤ) (r : ℤ × KuksaChannel)
      → channel.modify_tree ≡ false
      → TokenOutcome channel token r
      → validate_expiry r ≡ (ok n, channel')
      → ltb_ℤ (pos 0) n ≡ true
      → (W.verify key token ≡ ok tt) × IsGranted token channel'
  unfolding token_claims resolve_permissions
  validate_expiry-IsGranted channel channel' token n r plain (rejected e) h positive =
      let h' : Path (Result ℤ × KuksaChannel) (ok (negsuc 0), channel) (ok n, channel') =
        rw e at h in
      absurd (
        minus_one_not_positive n (ok-injective (ap (λ (x : Result ℤ × KuksaChannel). x.0) h'))
          positive)
  validate_expiry-IsGranted channel channel' token n r plain (verified claims decoded passed e) h
        positive =
      let ttl = ttl_or_minus_one (expiry claims) in
      let channel₁ : KuksaChannel = record channel { authorized = true; auth_token = token } in
      let h' : validate_expiry (ttl, channel₁) ≡ (ok n, channel') = rw e at h in
      elim (Bool-cases (ltb_ℤ (pos 0) ttl)) [
        | inl late ↦
            let (done, _) =
              resolved-ok ttl n (resolve_permissions channel₁) channel' (rw late at h') in
            (
              passed,
              with_claims-IsGranted token channel₁ channel' (token_claims token) plain refl done,
            )
        | inr early ↦
            let h₂ : Path (Result ℤ × KuksaChannel) (ok ttl, channel₁) (ok n, channel') =
              rw early at h' in
            let same = ok-injective (ap (λ (x : Result ℤ × KuksaChannel). x.0) h₂) in
            absurd (true-ne-false (sym positive ∙ ap (ltb_ℤ (pos 0)) (sym same) ∙ early))
      ]

  -- If validate answers with a positive expiry to a channel that could not modify the tree, the
  -- token has been verified by the key; every permission that the channel now holds is an entry
  -- of the token's claim "kuksa-vss" with one of the values rw, wr, w and r; and the channel can
  -- modify the tree only if the token claims so.
  pub validate-IsGranted :
      (channel channel' : KuksaChannel) (token : String) (n : ℤ)
      → channel.modify_tree ≡ false
      → validate key channel token ≡ (ok n, channel')
      → ltb_ℤ (pos 0) n ≡ true
      → (W.verify key token ≡ ok tt) × IsGranted token channel'
  unfolding validate
  validate-IsGranted channel channel' token n plain h positive =
      validate_expiry-IsGranted channel channel' token n _ plain
        (validate_token-TokenOutcome channel token) h positive
