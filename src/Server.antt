-- ===== src/Server.antt =====
-- agent_server.go: how the agent runs a command, and what its client makes of the response.
use kubejob.Prelude.{
  ◌∙◌, ap, ℕ, suc, String, ◌<>◌, ◌≡◌, refl, true, false, not, Option, none, some, List, [], ◌∷◌,
  ◌++◌, map, is_empty, ◌==◌, arith,
}
use kubejob.Kube.{EnvVar}
use kubejob.Errors.{is_exit_error, ok, err_command_from_agent}
use kubejob.Cluster.{Cluster, ExecRequest, ExecResponse}
use kubejob.Executor.Retry.{exec_once-agent_failed, retry_loop-final}
use kubejob.Executor.Command.{
  Target, enabled_agent, connection_of, client_working_dir, exec_with_retry, retry_loop,
}

-- `cmd.Run` of os/exec: what the command printed, its exit code if it was started, the text of the
-- error if there is one, and the seconds that it took. The code is the bits of an int32, so that -1
-- after a signal is 2 ^ 32 - 1.
pub record CommandRun : Type 0 where
  pub output : String
  pub exit_code : Option ℕ
  pub error : Option String
  pub seconds : ℕ

abbrev env_line : EnvVar → String
env_line e = e.name <> ("=" <> e.value)

abbrev error_message : Option String → String
error_message none = ""
error_message (some text) = text

-- The response, or `none` for the panic on a `ProcessState` that is nil.
abbrev pub response : CommandRun → Option ExecResponse
response r = elim r.exit_code [
  | none ↦ none
  | some code ↦ some (record {
    output = r.output;
    success = code == 0;
    exit_code = code;
    error_message = error_message r.error;
    elapsed_time_sec = r.seconds;
  })
]

module _ {W : Type 0} (environ : List String)
    (run : String → List String → List String → String → W → CommandRun × W) where
  abbrev responded : CommandRun × W → Option ExecResponse × W
  responded (r, w) = (response r, w)

  -- `(*AgentServer).Exec`; an empty command is a panic too.
  unfoldable pub server_exec : ExecRequest → W → Option ExecResponse × W
  server_exec req w = elim req.command [
    | [] ↦ (none, w)
    | name ∷ args ↦ responded (run name args (environ ++ map env_line req.env) req.working_dir w)
  ]

  -- If the calls of the client reach the agent's server, a command that the agent could start and
  -- that failed with a nonempty text is tried once: `execWithRetry` returns what it printed with the
  -- agent's text as its error, however many rounds, at least one, are granted.
  pub agent_failure-once :
      (k : Cluster W) (t : Target) (name text : String) (args : List String) (r : CommandRun)
      (rounds code : ℕ) (w w1 w2 : W)
      → enabled_agent t ≡ true
      → k.start_backoff k.exec_retry_count w ≡ (suc rounds, w1)
      → run name args (environ ++ []) (client_working_dir t) w1 ≡ (r, w2)
      → r.exit_code ≡ some (suc code)
      → r.error ≡ some text
      → is_empty text ≡ false
      → ((req : ExecRequest) (res : ExecResponse) (v : W)
          → server_exec req w1 ≡ (some res, v)
          → k.grpc_exec (connection_of t) req w1 ≡ (ok res, v))
      → exec_with_retry k t (name ∷ args) w
        ≡ (record { out = r.output; err = some (err_command_from_agent text) }, w2)
  unfolding exec_with_retry server_exec is_exit_error
  agent_failure-once k t name text args r rounds code w w1 w2 on start ran exits fails full serves =
      let req : ExecRequest = record {
        command = name ∷ args;
        env = [];
        working_dir = client_working_dir t;
      } in
      let res : ExecResponse = record {
        output = r.output;
        success = false;
        exit_code = suc code;
        error_message = text;
        elapsed_time_sec = r.seconds;
      } in
      let answer : response r ≡ some res = ground arith in
      let served : server_exec req w1 ≡ (some res, w2) =
        ap responded ran ∙ ap (λ o. (o, w2)) answer in
      let first =
        exec_once-agent_failed k t (name ∷ args) res w1 w2 on (serves req res w2 served) refl in
      let final : is_exit_error (err_command_from_agent text) ≡ true = ground arith in
      ap (λ s. retry_loop k t (name ∷ args) s.0 (record { out = ""; err = none }) s.1) start
      ∙ retry_loop-final k t (name ∷ args) rounds (record { out = ""; err = none }) w1 _ w2 first
          (ap not final)
