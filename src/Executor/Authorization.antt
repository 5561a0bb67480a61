-- ===== src/Executor/Authorization.antt =====
-- How the agent authorizes a client: agent.go, `authorizeAgentJWT`, and agent_server.go, `authFunc`.
use kubejob.Prelude.{
  ℕ, String, ◌<>◌, ◌≡◌, refl, ap, ◌∙◌, true, false, not, Option, none, some, inl, inr, str_eq,
  eq_iff, eq_refl, is_empty, if◌then◌else◌, arith,
}
use kubejob.Errors.{Err, Result, ok, err, plain, wrapped, Result-cases}
use kubejob.Agent.{AgentConfig, public_key_env}
use kubejob.Cluster.{Cluster}
use kubejob.Executor.Command.{agent_jwt_issuer, issue_jwt}

-- What `agentAuthUnaryInterceptor` and `agentAuthStreamInterceptor` put in the metadata of a call.
abbrev pub authorization : String → String
authorization signed_token = "Bearer " <> signed_token

-- `decode_pem` is jwk.DecodePEM, and `parse` is jwt.Parse with a key for RS256, which gives the
-- issuer of a token that the key verifies.
module _ (decode_pem : String → Result ℕ) (parse : String → ℕ → Result String) where
  abbrev with_issuer : Result String → Result String
  with_issuer (err e) = err (wrapped "failed to verify token" e)
  with_issuer (ok issuer) =
      if not (str_eq issuer agent_jwt_issuer)
      then err (plain ("unknown issuer " <> issuer))
      else ok issuer

  abbrev with_key : String → Result ℕ → Result String
  with_key signed (err e) = err (wrapped "failed to decode public key" e)
  with_key signed (ok key) = with_issuer (parse signed key)

  -- `authorizeAgentJWT`, with the value of the environment variable; the issuer of the token.
  unfoldable pub authorize_agent_jwt : String → String → Result String
  authorize_agent_jwt public_key signed =
      if is_empty public_key
      then err (plain "failed to get public key to authorize token")
      else with_key signed (decode_pem public_key)

  abbrev authorized : Result String → Option Err
  authorized (err e) = some e
  authorized (ok issuer) = none

  -- `authFunc`, with what `AuthFromMD` finds for "Bearer" in the metadata.
  unfoldable pub auth_func : String → Result String → Option Err
  auth_func public_key (err e) = some (wrapped "failed to get authorization token" e)
  auth_func public_key (ok signed) = authorized (authorize_agent_jwt public_key signed)

  -- The agent lets in only calls with a token that the decoded public key verifies and that names
  -- the issuer of the client.
  pub auth_func-none :
      (public_key : String) (found : Result String)
      → auth_func public_key found ≡ none
      → (signed : String) × (key : ℕ) × (found ≡ ok signed)
        × (decode_pem public_key ≡ ok key)
        × (parse signed key ≡ ok agent_jwt_issuer)
  unfolding auth_func authorize_agent_jwt
  auth_func-none public_key (err e) h = absurd (cc h)
  auth_func-none public_key (ok signed) h = elim (Result-cases (decode_pem public_key)) [
    | inr (x, e) ↦ absurd (ground arith)
    | inl (key, e) ↦ elim (Result-cases (parse signed key)) [
      | inr (x, f) ↦ absurd (ground arith)
      | inl (issuer, f) ↦
          let right : str_eq issuer agent_jwt_issuer ≡ true = ground arith in
          (signed, key, refl, e, f ∙ ap ok ((eq_iff issuer agent_jwt_issuer).0 right))
    ]
  ]

  module _ {W : Type 0} (k : Cluster W) (key public_key : ℕ) where
    -- What signing and parsing are documented to do for a pair of keys: a token that was built for an
    -- issuer and signed with the private key is verified by the public key, with its issuer.
    abbrev pub Verifies : Type 0
    Verifies =
        (issuer : String) (token : ℕ) (signed : String) (w w1 w2 w3 : W)
        → k.build_token issuer w ≡ (ok token, w1)
        → k.sign_token token key w2 ≡ (ok signed, w3)
        → parse signed public_key ≡ ok issuer

    -- If the public key verifies what the private key signs, the agent lets in a call with a token
    -- that `IssueJWT` has signed, where its environment has the text of that public key, which is not
    -- empty.
    pub issue_jwt-authorized :
        (c : AgentConfig) (signed : String) (w w' : W)
        → c.private_key ≡ key
        → is_empty c.public_key_pem ≡ false
        → decode_pem c.public_key_pem ≡ ok public_key
        → Verifies
        → issue_jwt k c w ≡ (ok signed, w')
        → auth_func (public_key_env c).value (ok signed) ≡ none
    unfolding issue_jwt auth_func authorize_agent_jwt public_key_env
    issue_jwt-authorized c signed w w' own full decoded verifies issued =
        elim (Result-cases (k.build_token agent_jwt_issuer w).0) [
          | inr (x, e) ↦ absurd (ground arith)
          | inl (token, e) ↦
              let w1 = (k.build_token agent_jwt_issuer w).1 in
              let signing : k.sign_token token key w1 ≡ (ok signed, (k.sign_token token key w1).1) =
                ground arith in
              let parsed =
                verifies agent_jwt_issuer token signed w w1 w1 _ (ground arith) signing in
              ground (arith, parsed, eq_refl agent_jwt_issuer)
        ]
