-- ===== src/Init/Recognition.antt =====
-- Which containers `isReplacedCommand` of executor.go takes for its own.
use kubejob.Prelude.{
  ℕ, String, ◌<◌, ◌≡◌, refl, ap, ◌∙◌, true, false, not, Option, none, some, List, [], ◌∷◌, map,
  arith, All, length, eq_refl,
}
use kubejob.Kube.{Pod, Container, ContainerStatus}
use kubejob.Agent.{AgentConfig, enabled}
use kubejob.Template.{uses_agent, path_of, job_template_command_container, job_command_template}
use kubejob.Cluster.{Cluster}
use kubejob.Init.{JobInit, proceed, is_replaced_command, visit_containers, visit_statuses, run}

-- With the agent configuration of the job, every container that the job prepares is recognised.
pub template-is_replaced :
    (cfg : Option AgentConfig) (c : Container) (port : ℕ)
    → is_replaced_command cfg (job_template_command_container c cfg port) ≡ true
unfolding job_template_command_container is_replaced_command
template-is_replaced cfg c port =
    ground (arith, eq_refl (path_of cfg c.name), eq_refl job_command_template)

-- With no agent configuration, one that waits with the agent is not.
pub template-not_replaced :
    (cfg : Option AgentConfig) (c : Container) (port : ℕ)
    → is_replaced_command none (job_template_command_container c cfg port)
      ≡ not (uses_agent cfg c.name)
unfolding job_template_command_container is_replaced_command uses_agent
template-not_replaced cfg c port = ground (arith, eq_refl job_command_template)

abbrev pub Unrecognised : {W : Type 0} → JobInit W → List Container → Type 0
Unrecognised j = All λ c. is_replaced_command j.agent_cfg c ≡ false

module _ {W : Type 0} (k : Cluster W) where
  visit-Unrecognised :
      (pod : Pod) (name : String) (cs : List Container) (j : JobInit W) (w : W)
      → Unrecognised j cs
      → visit_containers k pod name cs j w ≡ (proceed, j, w)
  unfolding visit_containers
  visit-Unrecognised pod name [] j w h = refl
  visit-Unrecognised pod name (c ∷ cs) j w h =
      ground (arith, visit-Unrecognised pod name cs j w h.1)

  statuses-Unrecognised :
      (pod : Pod) (ss : List ContainerStatus) (j : JobInit W) (w : W)
      → Unrecognised j pod.spec.init_containers
      → visit_statuses k pod ss j w ≡ (proceed, j, w)
  unfolding visit_statuses
  statuses-Unrecognised pod [] j w h = refl
  statuses-Unrecognised pod (s ∷ ss) j w h = ground (
    arith,
    visit-Unrecognised pod s.name pod.spec.init_containers j w h,
    statuses-Unrecognised pod ss j w h,
  )

  agent-Unrecognised :
      (cfg : AgentConfig) (cs : List Container) (port : Container → ℕ) (j : JobInit W)
      → j.agent_cfg ≡ none
      → All (λ c. enabled cfg c.name ≡ true) cs
      → Unrecognised j (map (λ c. job_template_command_container c (some cfg) (port c)) cs)
  unfolding uses_agent
  agent-Unrecognised cfg [] port j h all = tt
  agent-Unrecognised cfg (c ∷ cs) port j h all = (
    rw h (template-not_replaced (some cfg) c (port c) ∙ ap not all.0),
    agent-Unrecognised cfg cs port j h all.1,
  )

  -- A `jobInit` with no agent configuration, which is how `SetInitContainerExecutionHandler` makes
  -- it, never runs its handler in a pod whose init containers all wait with the agent: a run changes
  -- nothing, whatever the statuses, and as long as an executor is unused it is not done either.
  pub agent_init_never_handled :
      (cfg : AgentConfig) (cs : List Container) (port : Container → ℕ) (pod : Pod) (j : JobInit W)
      (w : W)
      → j.agent_cfg ≡ none
      → All (λ c. enabled cfg c.name ≡ true) cs
      → pod.spec.init_containers
        ≡ map (λ c. job_template_command_container c (some cfg) (port c)) cs
      → j.step_num < length j.executors
      → run k j pod w ≡ (proceed, j, w)
  unfolding run
  agent_init_never_handled cfg cs port pod j w h all e unused =
      let idle : Unrecognised j pod.spec.init_containers =
        rw e (agent-Unrecognised cfg cs port j h all) in
      ground (arith, statuses-Unrecognised pod pod.status.init_container_statuses j w idle)
