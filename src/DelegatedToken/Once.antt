-- ===== src/DelegatedToken/Once.antt =====
-- A delegated token is accepted once.
use mathlib.Core.Path.{subst}
use tea_tax_product.Prelude.{
  ℕ, ◌*◌, String, ◌≡◌, refl, sym, ap, ◌∙◌, ◌⊎◌, inl, inr, true, List, [], ◌∷◌, arith, any,
  any-append, Bool-cases, Option-cases,
}
use tea_tax_product.Prelude.Enum.{◌===◌, string_eq}
use tea_tax_product.DelegatedToken.{
  DelegatedTokenPayload, VerifyDelegatedTokenOptions, RevokedToken, Jwt, is_revoked, check_payload,
  consume_jti, finish, verify_payload, check_claims, verify_jwt, verify_delegated_token,
}

not_both :
    (x : String ⊎ DelegatedTokenPayload) (error : String) (p : DelegatedTokenPayload)
    → x ≡ inl error
    → x ≡ inr p
    → ⊥
not_both x error p e h = ground arith

-- A payload that passes the checks.
passed :
    (payload p : DelegatedTokenPayload) (o : VerifyDelegatedTokenOptions)
    (revoked : List RevokedToken)
    → check_payload payload o revoked ≡ inr p
    → payload ≡ p
unfolding check_payload
passed payload p o revoked h = ground arith

consumed :
    (payload : DelegatedTokenPayload) (revoked : List RevokedToken)
    → is_revoked payload.jti (consume_jti payload revoked) ≡ true
unfolding consume_jti any
consumed payload revoked = elim (Bool-cases (is_revoked payload.jti revoked)) [
  | inl old ↦ rw old old
  | inr new ↦ rw new (
      ground (
        arith,
        any-append (λ row. row.jti === payload.jti) revoked
            (record { jti = payload.jti; expires_at = payload.exp * 1000 } ∷ []),
        string_eq.test_iff payload.jti payload.jti,
      ))
]

refused :
    (payload : DelegatedTokenPayload) (o : VerifyDelegatedTokenOptions)
    (revoked : List RevokedToken)
    → is_revoked payload.jti revoked ≡ true
    → verify_payload (inr payload) o revoked ≡ (inl "Token already used", revoked)
unfolding verify_payload check_payload finish
refused payload o revoked h = rw h refl

-- A token that verifyJwt lets through has the claims that it encodes.
module _ (jwt : Jwt) (token : String) (revoked : List RevokedToken) where
  check_claims-cases :
      (seconds : ℕ) (payload : DelegatedTokenPayload)
      → ((error : String) × (check_claims seconds payload revoked ≡ inl error))
        ⊎ (check_claims seconds payload revoked ≡ inr payload)
  unfolding check_claims
  check_claims-cases seconds payload = ground arith

  verify_jwt-cases :
      ((error : String) × (verify_jwt jwt token revoked ≡ inl error))
      ⊎ (verify_jwt jwt token revoked ≡ inr (jwt.payload_of token))
  unfolding verify_jwt
  verify_jwt-cases = elim (Option-cases (jwt.token_error token)) [
    | inl e ↦ rw (e, verify_jwt) (check_claims-cases jwt.seconds (jwt.payload_of token))
    | inr (error, e) ↦ inl (error, rw (e, verify_jwt) refl)
  ]

  -- A token whose jti is in the table is refused, and the table stays.
  pub verify_delegated_token-revoked :
      (o : VerifyDelegatedTokenOptions)
      → is_revoked (jwt.payload_of token).jti revoked ≡ true
      → (error : String) × (verify_delegated_token jwt token o revoked ≡ (inl error, revoked))
  unfolding verify_delegated_token verify_payload
  verify_delegated_token-revoked o h = elim verify_jwt-cases [
    | inl (error, e) ↦ (error, ap (λ r. verify_payload r o revoked) e)
    | inr e ↦ (
      "Token already used",
      ap (λ r. verify_payload r o revoked) e ∙ refused (jwt.payload_of token) o revoked h,
    )
  ]

  finish-consumed :
      (checked : String ⊎ DelegatedTokenPayload) (payload p : DelegatedTokenPayload)
      (o : VerifyDelegatedTokenOptions)
      → check_payload payload o revoked ≡ checked
      → (finish checked revoked).0 ≡ inr p
      → is_revoked payload.jti (finish checked revoked).1 ≡ true
  unfolding finish
  finish-consumed (inl e) payload p o c h = absurd (ground arith)
  finish-consumed (inr q) payload p o c h =
      subst (λ r. is_revoked payload.jti (consume_jti r revoked) ≡ true)
        (passed payload q o revoked c) (consumed payload revoked)

  -- A token that is accepted has its jti in the table from then on.
  pub verify_delegated_token-consumed :
      (o : VerifyDelegatedTokenOptions) (p : DelegatedTokenPayload)
      → (verify_delegated_token jwt token o revoked).0 ≡ inr p
      → is_revoked (jwt.payload_of token).jti (verify_delegated_token jwt token o revoked).1 ≡ true
  unfolding verify_delegated_token verify_payload
  verify_delegated_token-consumed o p h = elim verify_jwt-cases [
    | inl (error, e) ↦ absurd (not_both _ error p (ap (λ r. (verify_payload r o revoked).0) e) h)
    | inr e ↦
        let payload = jwt.payload_of token in
        subst (λ r. is_revoked payload.jti (verify_payload r o revoked).1 ≡ true) (sym e)
          (finish-consumed (check_payload payload o revoked) payload p o refl
            (sym (ap (λ r. (verify_payload r o revoked).0) e) ∙ h))
  ]

-- A token that was accepted is refused by every later verification that starts when the first has ended, under whatever
-- keys, at whatever time, and for whatever task it is presented, with whatever table of revoked tokens, as long as that
-- still has the jti, which the first verification put there. The token encodes the same claims both times. The refusal
-- leaves the table as it is.
pub verify_delegated_token-once :
    (jwt later : Jwt) (token : String) (o o' : VerifyDelegatedTokenOptions)
    (revoked rows : List RevokedToken) (p : DelegatedTokenPayload)
    → later.payload_of token ≡ jwt.payload_of token
    → (verify_delegated_token jwt token o revoked).0 ≡ inr p
    → (is_revoked (jwt.payload_of token).jti (verify_delegated_token jwt token o revoked).1 ≡ true
        → is_revoked (jwt.payload_of token).jti rows ≡ true)
    → (error : String) × (verify_delegated_token later token o' rows ≡ (inl error, rows))
verify_delegated_token-once jwt later token o o' revoked rows p same h kept =
    verify_delegated_token-revoked later token rows o' (
      subst (λ payload. is_revoked payload.jti rows ≡ true) (sym same)
        (kept (verify_delegated_token-consumed jwt token revoked o p h)))
