-- ===== src/Init/Setup.antt =====
-- `setupInitContainers` of executor.go and `setupPreInitContainer` of preinit.go share these steps.
use kubejob.Prelude.{ℕ, suc, false, Option, none, some, List, [], ◌∷◌, ◌++◌, if◌then◌else◌}
use kubejob.Kube.{Container}
use kubejob.Errors.{Err, Result, ok, err}
use kubejob.Agent.{AgentConfig, enabled, public_key_env, new_allocated_port}
use kubejob.Template.{job_template_command_container}
use kubejob.Executor.{JobExecutor}
use kubejob.Init.{JobInit}

abbrev with_port :
    AgentConfig → Container → Result ℕ × AgentConfig → Result (Container × ℕ) × Option AgentConfig
with_port a c (err e, a') = (err e, some a')
with_port a c (ok port, a') =
    (ok (record c { env = c.env ++ public_key_env a' ∷ [] }, port), some a')

-- The container with the public key in its environment, and its port; port 0 with no agent. The
-- configuration comes back with the last port that it handed out.
unfoldable pub assign_port :
    Option AgentConfig → Container → Result (Container × ℕ) × Option AgentConfig
assign_port none c = (ok (c, 0), none)
assign_port (some a) c =
    if enabled a c.name then with_port a c (new_allocated_port a) else (ok (c, 0), some a)

-- Of the shared configuration an executor reads what no later call changes.
unfoldable pub new_executor : Container → ℕ → Option AgentConfig → ℕ → JobExecutor
new_executor c idx agent_cfg agent_port = record {
  target = record {
    container = c;
    container_idx = idx;
    pod = none;
    agent_cfg = agent_cfg;
    agent_port = agent_port;
    agent_client = none;
  };
  command = c.command;
  args = c.args;
  is_running = false;
  stopped = false;
  err = none;
}

module _ {W : Type 0} where
  unfoldable pub add_container : ℕ → Container → ℕ → Option AgentConfig → JobInit W → JobInit W
  add_container idx c port cfg j = record j {
    executors = j.executors ++ new_executor c idx cfg port ∷ [];
    containers = j.containers ++ job_template_command_container c cfg port ∷ [];
  }

  unfoldable pub setup_loop :
      ℕ
      → List Container
      → JobInit W
      → Option AgentConfig
      → Option Err × JobInit W × Option AgentConfig
  unfolding add_container
  setup_loop idx [] j cfg = (none, j, cfg)
  setup_loop idx (c ∷ cs) j cfg =
      let (r, cfg') = assign_port cfg c in
      elim r [
        | ok (c', port) ↦ setup_loop (suc idx) cs (add_container idx c' port cfg' j) cfg'
        | err e ↦ (some e, j, cfg')
      ]

  -- `setupInitContainers`, for the init containers of the job.
  unfoldable pub setup_init_containers :
      List Container → JobInit W → Option AgentConfig → Option Err × JobInit W × Option AgentConfig
  unfolding setup_loop
  setup_init_containers init_containers j cfg = setup_loop 0 init_containers j cfg
