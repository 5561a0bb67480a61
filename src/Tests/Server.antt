-- ===== src/Tests/Server.antt =====
-- The agent's server and its authorization at concrete inputs.
use kubejob.Prelude.{
  eq_iff, sym, ap, subst, arith, ◌<>◌, ℕ, String, ◌≡◌, refl, true, none, some, List, [], ◌∷◌,
  str_eq, if◌then◌else◌,
}
use kubejob.Errors.{Result, ok, err, plain, err_command_from_agent}
use kubejob.Agent.{public_key_env, enabled, lookup}
use kubejob.Cluster.{Cluster}
use kubejob.Executor.Command.{Target, enabled_agent, exec_with_retry, issue_jwt}
use kubejob.Executor.Authorization.{auth_func, auth_func-none, Verifies, issue_jwt-authorized}
use kubejob.Server.{CommandRun, server_exec, agent_failure-once}
use kubejob.Tests.Data.{recorder, Calls, agent_config, executor_of, main_container}

-- A library that verifies the texts that carry the right mark.
abbrev decode_pem : String → Result ℕ
decode_pem pem = if str_eq pem "pem" then ok 2 else err (plain "not a key")

abbrev parse : String → ℕ → Result String
parse signed key =
    if str_eq signed "token of kubejob" then ok "kubejob" else err (plain "bad token")

lets_in : auth_func decode_pem parse "pem" (ok "token of kubejob") ≡ none
unfolding auth_func kubejob.Executor.Authorization.authorize_agent_jwt
lets_in = refl

auth_func-none_example :
    (signed : String) × (key : ℕ) × (ok "token of kubejob" ≡ ok signed)
    × (decode_pem "pem" ≡ ok key)
    × (parse signed key ≡ ok "kubejob")
auth_func-none_example = auth_func-none decode_pem parse "pem" (ok "token of kubejob") lets_in

abbrev signer : Cluster Calls
signer = record recorder {
  build_token =
      λ issuer w. if str_eq issuer "kubejob" then (ok 1, w) else (err (plain "issuer"), w);
  sign_token = λ token key w. (ok "token of kubejob", w);
}

-- One command at a time, which fails.
abbrev run : String → List String → List String → String → Calls → CommandRun × Calls
run name args env dir w = (
  record { output = "out"; exit_code = some 2; error = some "exit status 2"; seconds = 1 },
  ("run " <> name) ∷ w,
)

abbrev serving : Cluster Calls
serving = record recorder {
  grpc_exec = λ conn req w. elim (server_exec [] run req w).0 [
    | some res ↦ (ok res, (server_exec [] run req w).1)
    | none ↦ (err (plain "unavailable"), w)
  ];
}

abbrev agent_target : Target
agent_target = record (executor_of main_container).target { agent_cfg = some agent_config }

signer-Verifies : Verifies decode_pem parse signer 1 2
signer-Verifies issuer token signed w w1 w2 w3 built signing =
    let same : "token of kubejob" ≡ signed = ground arith in
    let right : str_eq issuer "kubejob" ≡ true = ground arith in
    subst (λ s. parse s 2 ≡ ok issuer) same (ap ok (sym ((eq_iff issuer "kubejob").0 right)))

issued : issue_jwt signer agent_config [] ≡ (ok "token of kubejob", [])
unfolding issue_jwt
issued = refl

issue_jwt-authorized_example :
    auth_func decode_pem parse (public_key_env agent_config).value (ok "token of kubejob") ≡ none
issue_jwt-authorized_example =
    issue_jwt-authorized decode_pem parse signer 1 2 agent_config "token of kubejob" [] [] refl refl
      refl signer-Verifies issued

agent_enabled : enabled_agent agent_target ≡ true
unfolding enabled_agent enabled lookup
agent_enabled = refl

agent_failure-once_example :
    exec_with_retry serving agent_target ("go" ∷ "version" ∷ []) []
    ≡ (record { out = "out"; err = some (err_command_from_agent "exit status 2") }, "run go" ∷ [])
agent_failure-once_example =
    agent_failure-once [] run serving agent_target "go" "exit status 2" ("version" ∷ [])
      (record { output = "out"; exit_code = some 2; error = some "exit status 2"; seconds = 1 }) 8 1
      [] [] ("run go" ∷ []) agent_enabled refl refl refl refl refl
      (λ req res v served. ground arith)
