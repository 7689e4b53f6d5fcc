-- ===== src/Tests/DelegatedToken.antt =====
-- Delegated tokens at a concrete payload.
use tea_tax_product.Prelude.{ℕ, String, ◌≡◌, refl, inl, inr, true, none, List, [], ◌∷◌, ◌++◌}
use tea_tax_product.DelegatedToken.{
  DelegatedTokenPayload, VerifyDelegatedTokenOptions, RevokedToken, Jwt, is_revoked,
  verify_delegated_token,
}
use tea_tax_product.DelegatedToken.Once.{verify_delegated_token-once}

abbrev pub payload : DelegatedTokenPayload
payload = record {
  sub = "u-1";
  task_id = "t-1";
  agent_type = "coding";
  jti = "j-1";
  scope = "task_result";
  exp = 900;
}

abbrev expected : VerifyDelegatedTokenOptions
expected = record {
  expected_task_id = "t-1";
  expected_agent_type = "coding";
  expected_created_by = "u-1";
}

-- Every token is well formed and signed, and encodes the payload.
abbrev pub signed : ℕ → Jwt
signed seconds = record {
  token_error = λ token. none;
  payload_of = λ token. payload;
  seconds = seconds;
}

accepted : (verify_delegated_token (signed 10) "x" expected []).0 ≡ inr payload
unfolding verify_delegated_token tea_tax_product.Prelude.any
accepted = refl

abbrev other_row : RevokedToken
other_row = record { jti = "j-2"; expires_at = 7 }

abbrev later_rows : List RevokedToken
later_rows = (verify_delegated_token (signed 10) "x" expected []).1 ++ other_row ∷ []

later_rows-kept : is_revoked "j-1" later_rows ≡ true
unfolding verify_delegated_token tea_tax_product.Prelude.any
later_rows-kept = refl

verify_delegated_token-once_example :
    (error : String) × (verify_delegated_token (signed 20) "x" expected later_rows
      ≡ (inl error, later_rows))
verify_delegated_token-once_example =
    verify_delegated_token-once (signed 10) (signed 20) "x" expected expected [] later_rows payload
      refl accepted (λ e. later_rows-kept)

-- The second use meets the revocation check of verifyJwt first.
second_use :
    (verify_delegated_token
      (signed 20)
      "x"
      expected
      (verify_delegated_token (signed 10) "x" expected []).1).0
    ≡ inl "Token revoked"
unfolding verify_delegated_token tea_tax_product.Prelude.any
second_use = refl

expired : (verify_delegated_token (signed 901) "x" expected []).0 ≡ inl "Token expired"
unfolding verify_delegated_token
expired = refl
