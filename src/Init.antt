-- ===== src/Init.antt =====
-- executor.go, from `jobInit` on: the hook that runs a handler in each init container.
pub mod Setup
pub mod Recognition
pub mod Order
pub mod Prepared
use kubejob.Prelude.{
  member, arith, ◌≡◌, ℕ, zero, suc, ◌+◌, String, Bool, true, false, not, ◌&&◌, ◌||◌, Option, none,
  some, List, [], ◌∷◌, ◌++◌, length, get_elem?, set, leb, str_eq, if◌then◌else◌,
}
use kubejob.Kube.{Pod, PodStatus, Container, ContainerStatus, phase_eq, pending}
use kubejob.Errors.{Err, plain, wrapped}
use kubejob.Agent.{AgentConfig}
use kubejob.Template.{uses_agent, path_of, job_command_template}
use kubejob.Cluster.{Cluster}
use kubejob.Executor.{JobExecutor, set_pod, stop}

-- `JobInitContainerExecutionHandler`: code of the user, which may change the executor.
abbrev pub Handler : Type 0 → Type 0
Handler W = JobExecutor → W → Option Err × JobExecutor × W

pub record JobInit (W : Type 0) : Type 0 where
  pub done : Bool
  pub containers : List Container
  pub executors : List JobExecutor
  pub executed : List String
  pub step_num : ℕ
  pub handler : Handler W
  pub agent_cfg : Option AgentConfig

-- How a run ends: normally, with an error, or with an index out of range.
pub data Signal : Type 0 where
  proceed : Signal
  fail : Err → Signal
  panic : Signal

abbrev head_is : List String → String → Bool
head_is [] s = false
head_is (x ∷ xs) s = str_eq x s

abbrev pub no_words : List String → Bool
no_words [] = true
no_words (x ∷ xs) = false

-- `isReplacedCommand`, with the agent configuration of the `jobInit`.
unfoldable pub is_replaced_command : Option AgentConfig → Container → Bool
is_replaced_command agent_cfg c =
    if no_words c.command
    then false
    else if uses_agent agent_cfg c.name
    then head_is c.command (path_of agent_cfg c.name)
    else head_is c.args job_command_template

module _ {W : Type 0} where
  -- `SetInitContainerExecutionHandler`; nil is `none`.
  unfoldable pub set_init_container_execution_handler : Option (Handler W) → Option (JobInit W)
  set_init_container_execution_handler none = none
  set_init_container_execution_handler (some handler) = some (record {
    done = false;
    containers = [];
    executors = [];
    executed = [];
    step_num = 0;
    handler = handler;
    agent_cfg = none;
  })

  -- `needsToRun`
  unfoldable pub needs_to_run : Option (JobInit W) → PodStatus → Bool
  needs_to_run none status = false
  needs_to_run (some j) status = not j.done && phase_eq status.phase pending

  abbrev pub put_executor : JobInit W → JobExecutor → JobInit W
  put_executor j e = record j { executors = set j.executors j.step_num e }

  stopped_one : JobInit W → String → Option Err × JobExecutor × W → Signal × JobInit W × W
  stopped_one j name (some x, e, w) = (fail x, put_executor j e, w)
  stopped_one j name (none, e, w) = (
    proceed,
    record (put_executor j e) { step_num = suc j.step_num; executed = name ∷ j.executed },
    w,
  )

  -- A loop goes on only after `proceed`.
  abbrev pub then_go :
      Signal × JobInit W × W → (JobInit W → W → Signal × JobInit W × W) → Signal × JobInit W × W
  then_go (proceed, j, w) f = f j w
  then_go (fail x, j, w) f = (fail x, j, w)
  then_go (panic, j, w) f = (panic, j, w)

  abbrev pub mark_done : JobInit W → W → Signal × JobInit W × W
  mark_done j w =
      (proceed, if leb (length j.executors) j.step_num then record j { done = true } else j, w)

pub needs_to_run-done :
    {W : Type 0} (j : JobInit W) (status : PodStatus)
    → needs_to_run (some j) status ≡ true
    → j.done ≡ false
unfolding needs_to_run
needs_to_run-done j status h = ground arith

module _ {W : Type 0} (k : Cluster W) where
  handled_one : JobInit W → String → Option Err × JobExecutor × W → Signal × JobInit W × W
  unfolding stopped_one
  handled_one j name (some x, e, w) = (fail x, put_executor j e, w)
  handled_one j name (none, e, w) = stopped_one j name (stop k e w)

  placed_one : JobInit W → String → Option Err × JobExecutor × W → Signal × JobInit W × W
  unfolding handled_one
  placed_one j name (some x, e, w) =
      (fail (wrapped "job: failed to set corev1.Pod to executor instance" x), put_executor j e, w)
  placed_one j name (none, e, w) = handled_one j name (j.handler e w)

  -- The innermost block of `run`: `exec := j.executors[j.stepNum]` and what is done with it.
  pub handle : JobInit W → Pod → String → W → Signal × JobInit W × W
  unfolding placed_one
  handle j pod name w = elim (get_elem? j.executors j.step_num) [
    | none ↦ (panic, j, w)
    | some e ↦ placed_one j name (set_pod k e pod w)
  ]

  -- The loop over the init containers of the pod, for one running container.
  pub visit_containers : Pod → String → List Container → JobInit W → W → Signal × JobInit W × W
  visit_containers pod name [] j w = (proceed, j, w)
  visit_containers pod name (c ∷ cs) j w =
      then_go
        (if str_eq c.name name && is_replaced_command j.agent_cfg c
          then handle j pod name w
          else (proceed, j, w))
        (visit_containers pod name cs)

  -- The loop over the statuses of the init containers.
  pub visit_statuses : Pod → List ContainerStatus → JobInit W → W → Signal × JobInit W × W
  visit_statuses pod [] j w = (proceed, j, w)
  visit_statuses pod (s ∷ ss) j w =
      then_go
        (if s.state.running && not (member j.executed s.name)
          then visit_containers pod s.name pod.spec.init_containers j w
          else (proceed, j, w))
        (visit_statuses pod ss)

  -- `run`
  unfoldable pub run : JobInit W → Pod → W → Signal × JobInit W × W
  unfolding visit_statuses visit_containers handle
  run j pod w =
      if j.done
      then (proceed, j, w)
      else then_go (visit_statuses pod pod.status.init_container_statuses j w) mark_done
