-- ===== src/DelegatedToken.antt =====
-- apps/server/src/auth/delegated-token.ts: the checks of a delegated token and its consumption.
-- verifyJwt of apps/server/src/auth/jwt.ts is modelled but for the decoding of the token and its ES256 signature, which
-- are parameters; isRevoked is that of packages/db/revocation.ts. The table revoked_tokens is the list of its rows.
pub mod Once
use tea_tax_product.Prelude.{
  ℕ, ◌*◌, ltb, ◌==◌, ◌&&◌, String, ◌⊎◌, inl, inr, Bool, not, Option, none, some, List, [], ◌∷◌,
  ◌++◌, any, if◌then◌else◌,
}
use tea_tax_product.Prelude.Enum.{◌===◌, string_eq}

pub record DelegatedTokenPayload : Type 0 where
  pub sub : String
  pub task_id : String
  pub agent_type : String
  pub jti : String
  pub scope : String
  pub exp : ℕ

pub record VerifyDelegatedTokenOptions : Type 0 where
  pub expected_task_id : String
  pub expected_agent_type : String
  pub expected_created_by : String

-- `expires_at` in milliseconds
pub record RevokedToken : Type 0 where
  pub jti : String
  pub expires_at : ℕ

abbrev pub is_revoked : String → List RevokedToken → Bool
is_revoked jti revoked = any (λ row. row.jti === jti) revoked

-- The checks after the signature, in their order.
unfoldable pub check_payload :
    DelegatedTokenPayload
    → VerifyDelegatedTokenOptions
    → List RevokedToken
    → String ⊎ DelegatedTokenPayload
check_payload payload o revoked =
    if is_revoked payload.jti revoked
    then inl "Token already used"
    else if not (payload.task_id === o.expected_task_id)
    then inl "Token task_id mismatch"
    else if not (payload.agent_type === o.expected_agent_type)
    then inl "Token agent_type mismatch"
    else if not (payload.sub === o.expected_created_by)
    then inl "Token sub mismatch"
    else if not (payload.scope === "task_result")
    then inl "Token scope is not task_result"
    else inr payload

-- INSERT INTO revoked_tokens ... ON CONFLICT (jti) DO NOTHING
unfoldable pub consume_jti : DelegatedTokenPayload → List RevokedToken → List RevokedToken
consume_jti payload revoked =
    if is_revoked payload.jti revoked
    then revoked
    else revoked ++ record { jti = payload.jti; expires_at = payload.exp * 1000 } ∷ []

-- Inserts only after every check has passed.
unfoldable pub finish :
    String ⊎ DelegatedTokenPayload
    → List RevokedToken
    → (String ⊎ DelegatedTokenPayload) × List RevokedToken
unfolding consume_jti
finish (inl error) revoked = (inl error, revoked)
finish (inr payload) revoked = (inr payload, consume_jti payload revoked)

unfoldable pub verify_payload :
    String ⊎ DelegatedTokenPayload
    → VerifyDelegatedTokenOptions
    → List RevokedToken
    → (String ⊎ DelegatedTokenPayload) × List RevokedToken
unfolding check_payload finish
verify_payload (inl error) o revoked = (inl error, revoked)
verify_payload (inr payload) o revoked = finish (check_payload payload o revoked) revoked

-- What verifyJwt reads at the time of a call: the error of the token's form or signature under the keys that are
-- active then, the claims that the token encodes (one that is missing is a text that no check expects), and the clock in
-- seconds.
pub record Jwt : Type 0 where
  pub token_error : String → Option String
  pub payload_of : String → DelegatedTokenPayload
  pub seconds : ℕ

-- The claims exp and jti; 0 and the empty text count as absent.
unfoldable pub check_claims :
    ℕ → DelegatedTokenPayload → List RevokedToken → String ⊎ DelegatedTokenPayload
check_claims seconds payload revoked =
    if not (payload.exp == 0) && ltb payload.exp seconds
    then inl "Token expired"
    else if not (payload.jti === "") && is_revoked payload.jti revoked
    then inl "Token revoked"
    else inr payload

unfoldable pub verify_jwt : Jwt → String → List RevokedToken → String ⊎ DelegatedTokenPayload
unfolding check_claims
verify_jwt jwt token revoked = elim (jwt.token_error token) [
  | some error ↦ inl error
  | none ↦ check_claims jwt.seconds (jwt.payload_of token) revoked
]

unfoldable pub verify_delegated_token :
    Jwt
    → String
    → VerifyDelegatedTokenOptions
    → List RevokedToken
    → (String ⊎ DelegatedTokenPayload) × List RevokedToken
unfolding verify_payload verify_jwt
verify_delegated_token jwt token o revoked = verify_payload (verify_jwt jwt token revoked) o revoked
