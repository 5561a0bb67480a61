-- ===== src/Executor/Command.antt =====
-- executor.go: one command in a container, over the Kubernetes API or through the agent, and the
-- retries; agent_client.go: `NewAgentClient`, `Exec` and `Stop`; agent.go: `IssueJWT`.
use kubejob.Prelude.{
  ℕ, zero, suc, String, ◌<>◌, Bool, true, false, not, Option, none, some, List, [], ◌∷◌, is_some,
  sprint, if◌then◌else◌,
}
use kubejob.Kube.{Pod, PodStatus, Container, EnvVar, unset}
use kubejob.Errors.{
  Err, Result, ok, err, wrapped, err_command, err_command_from_agent, is_exit_error,
}
use kubejob.Agent.{AgentConfig}
use kubejob.Template.{uses_agent}
use kubejob.Cluster.{Cluster, ExecOptions, StreamResult, ExecResponse}
use kubejob.Executor.Normalize.{normalize_cmd}

pub record AgentClient : Type 0 where
  pub server_pod : Pod
  pub working_dir : String
  pub client : ℕ

-- Where an executor runs its commands. `pod` and `agent_client` are nil until `setPod`.
pub record Target : Type 0 where
  pub container : Container
  pub container_idx : ℕ
  pub pod : Option Pod
  pub agent_cfg : Option AgentConfig
  pub agent_port : ℕ
  pub agent_client : Option AgentClient

abbrev zero_status : PodStatus
zero_status = record {
  phase = unset;
  pod_ip = "";
  init_container_statuses = [];
  container_statuses = [];
}

abbrev zero_pod : Pod
zero_pod = record {
  name = "";
  namespace = "";
  labels = [];
  spec = record { init_containers = []; containers = []; restart_policy = "" };
  status = zero_status;
}

-- The pod and the client of a target. Go panics where they are nil; the executors that a handler is
-- given have them.
abbrev pub pod_of : Target → Pod
pod_of t = elim t.pod [ none ↦ zero_pod | some pod ↦ pod ]

abbrev pub connection_of : Target → ℕ
connection_of t = elim t.agent_client [ none ↦ 0 | some c ↦ c.client ]

abbrev pub client_working_dir : Target → String
client_working_dir t = elim t.agent_client [ none ↦ "" | some c ↦ c.working_dir ]

unfoldable pub enabled_agent : Target → Bool
unfolding uses_agent
enabled_agent t = uses_agent t.agent_cfg t.container.name

-- What a command printed, and its error.
pub record Outcome : Type 0 where
  pub out : String
  pub err : Option Err

abbrev pub agent_jwt_issuer : String
agent_jwt_issuer = "kubejob"

-- Whether the loop of `execWithRetry` goes on after this outcome.
abbrev pub retryable : Option Err → Bool
retryable none = false
retryable (some e) = not (is_exit_error e)

module _ {W : Type 0} (k : Cluster W) where
  signed : Result String × W → Result String × W
  signed (ok token, w) = (ok token, w)
  signed (err e, w) = (err (wrapped "job: failed to sign token" e), w)

  -- agent.go, `IssueJWT`
  unfoldable pub issue_jwt : AgentConfig → W → Result String × W
  unfolding signed
  issue_jwt c w =
      let (r, w') = k.build_token agent_jwt_issuer w in
      elim r [
        | ok token ↦ signed (k.sign_token token c.private_key w')
        | err e ↦ (err (wrapped "job: failed to create jwt token" e), w')
      ]

  -- agent_client.go, `NewAgentClient`
  new_agent_client : Pod → ℕ → String → String → W → Result AgentClient × W
  new_agent_client pod listen_port working_dir signed_token w =
      let (r, w') = k.grpc_dial (pod.status.pod_ip <> (":" <> sprint listen_port)) signed_token w in
      elim r [
        | ok conn ↦ (ok (record { server_pod = pod; working_dir = working_dir; client = conn }), w')
        | err e ↦ (err (wrapped "job: failed to dial grpc" e), w')
      ]

  connected : Target → Result AgentClient × W → Option Err × Target × W
  connected t (ok client, w) = (none, record t { agent_client = some client }, w)
  connected t (err e, w) = (some (wrapped "failed to create agent client" e), t, w)

  authorized : Pod → AgentConfig → Target → Result String × W → Option Err × Target × W
  unfolding connected new_agent_client
  authorized pod c t (ok token, w) =
      connected t (new_agent_client pod t.agent_port t.container.working_dir token w)
  authorized pod c t (err e, w) = (some e, t, w)

  dial : Pod → Option AgentConfig → Target → W → Option Err × Target × W
  unfolding authorized issue_jwt
  dial pod none t w = (none, t, w)
  dial pod (some c) t w = authorized pod c t (issue_jwt c w)

  -- executor.go, `setPod`
  unfoldable pub set_target_pod : Target → Pod → W → Option Err × Target × W
  unfolding dial
  set_target_pod t pod w =
      let t' : Target = record t { pod = some pod } in
      if enabled_agent t' then dial pod t'.agent_cfg t' w else (none, t', w)

  -- agent_client.go, `Stop`
  unfoldable pub agent_client_stop : ℕ → W → Option Err × W
  agent_client_stop conn w =
      let (e, w') = k.grpc_finish conn w in
      elim e [ none ↦ (none, w') | some x ↦ (some (wrapped "job: failed to finish agent" x), w') ]

  -- agent_client.go, `Exec`
  unfoldable pub agent_client_exec :
      Target → List String → List EnvVar → W → Result ExecResponse × W
  agent_client_exec t command env w =
      k.grpc_exec (connection_of t)
        (record { command = command; env = env; working_dir = client_working_dir t }) w

  unfoldable pub agent_outcome : Result ExecResponse × W → Outcome × W
  agent_outcome (err e, w) = (record { out = ""; err = some e }, w)
  agent_outcome (ok res, w) = (
    record {
      out = res.output;
      err = if res.success then none else some (err_command_from_agent res.error_message);
    },
    w,
  )

  stream_outcome : StreamResult × W → Outcome × W
  stream_outcome (s, w) = (
    record {
      out = s.output;
      err =
          if is_some s.writer_err
          then some (err_command s.reader_err s.writer_err)
          else if is_some s.reader_err
          then some (err_command s.reader_err s.writer_err)
          else none;
    },
    w,
  )

  exec_options : Target → List String → ExecOptions
  exec_options t cmd = record {
    namespace = (pod_of t).namespace;
    pod_name = (pod_of t).name;
    container = t.container.name;
    command = "sh" ∷ "-c" ∷ normalize_cmd cmd ∷ [];
    stdin = false;
  }

  shell_exec : ExecOptions → W → Outcome × W
  unfolding stream_outcome
  shell_exec opts w =
      let (e, w') = k.new_spdy_executor opts w in
      elim e [
        | some x ↦
            (record { out = ""; err = some (wrapped "job: failed to create spdy executor" x) }, w')
        | none ↦ stream_outcome (k.stream opts w')
      ]

  -- executor.go, `exec`
  unfoldable pub exec_once : Target → List String → W → Outcome × W
  unfolding agent_outcome agent_client_exec shell_exec exec_options
  exec_once t cmd w =
      if enabled_agent t
      then agent_outcome (agent_client_exec t cmd [] w)
      else shell_exec (exec_options t cmd) w

  -- The loop, with the rounds that the policy grants.
  unfoldable pub retry_loop : Target → List String → ℕ → Outcome → W → Outcome × W
  retry_loop t cmd zero last w = (last, w)
  retry_loop t cmd (suc rounds) last w =
      let (o, w') = exec_once t cmd w in
      elim (retryable o.err) [ true ↦ retry_loop t cmd rounds o w' | false ↦ (o, w') ]

  -- executor.go, `execWithRetry`
  unfoldable pub exec_with_retry : Target → List String → W → Outcome × W
  unfolding retry_loop
  exec_with_retry t cmd w =
      let (rounds, w') = k.start_backoff k.exec_retry_count w in
      retry_loop t cmd rounds (record { out = ""; err = none }) w'
