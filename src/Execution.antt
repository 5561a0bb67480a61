-- ===== src/Execution.antt =====
-- executor.go, `RunWithExecutionHandler`: the containers wait, and a handler is given their executors
-- once the pod is running.
pub mod Callback
pub mod Outcome
pub mod Waiting
use kubejob.Prelude.{
  ℕ, suc, String, Bool, true, false, ◌||◌, Option, none, some, is_some, List, [], ◌∷◌, ◌++◌, str_eq,
  if◌then◌else◌,
}
use kubejob.Kube.{Pod, Container, BatchJob}
use kubejob.Errors.{Err, Result, ok, err, wrapped, failed_job, nil}
use kubejob.Agent.{AgentConfig, enabled, installed_path, public_key_env, new_allocated_port}
use kubejob.Template.{replace_command_by_agent_command, replace_command_by_job_template}
use kubejob.Cluster.{Cluster}
use kubejob.Executor.{JobExecutor, set_pod, stop}
use kubejob.Init.Setup.{new_executor}
use kubejob.Watch.{Task, Verdict, next, returns, panics}
use kubejob.Job.{Job}
use kubejob.Job

abbrev with_agent :
    AgentConfig → Container → Result ℕ × AgentConfig → Result (Container × ℕ) × Option AgentConfig
with_agent a c (err e, a') = (err e, some a')
with_agent a c (ok port, a') =
    let d = replace_command_by_agent_command c (installed_path a' c.name) port in
    (ok (record d { env = d.env ++ public_key_env a' ∷ [] }, port), some a')

-- The container of the job as it is changed in place, and the port of its agent.
unfoldable pub waiting_container :
    Option AgentConfig → Container → Result (Container × ℕ) × Option AgentConfig
waiting_container none c = (ok (replace_command_by_job_template c, 0), none)
waiting_container (some a) c =
    if enabled a c.name
    then with_agent a c (new_allocated_port a)
    else (ok (replace_command_by_job_template c, 0), some a)

-- The loop over the containers of the job: the error that it returns, the containers, changed up to
-- there, and their executors. The executors have the containers as they were before.
unfoldable pub setup_containers :
    ℕ
    → List Container
    → Option AgentConfig
    → Option Err × List Container × List JobExecutor × Option AgentConfig
setup_containers idx [] cfg = (none, [], [], cfg)
setup_containers idx (c ∷ cs) cfg =
    let (r, cfg') = waiting_container cfg c in
    let (e, ds, es, cfg'') = setup_containers (suc idx) cs cfg' in
    elim r [
      | err x ↦ (some x, c ∷ cs, [], cfg')
      | ok (d, port) ↦ (e, d ∷ ds, new_executor c idx cfg' port ∷ es, cfg'')
    ]

-- `executorMap`: of two executors for one name, the later one is kept.
abbrev pub find_executor : List JobExecutor → String → Option JobExecutor
find_executor [] name = none
find_executor (e ∷ es) name = elim (find_executor es name) [
  | some d ↦ some d
  | none ↦ if str_eq e.target.container.name name then some e else none
]

-- `JobExecutionHandler`: code of the user, which works with the executors.
abbrev pub JobExecutionHandler : Type 0 → Type 0
JobExecutionHandler W = List JobExecutor → W → Option Err × List JobExecutor × W

-- What the callback leaves.
pub record Called (W : Type 0) : Type 0 where
  pub result : Option Err
  pub executors : List JobExecutor
  pub exists_err_container : Bool
  pub force_stop : Bool
  pub world : W

module _ {W : Type 0} (k : Cluster W) where
  -- The loop over the containers of the pod. A container that the job does not know was injected.
  unfoldable pub place_executors :
      List JobExecutor → Pod → List Container → W → Option Err × List JobExecutor × Bool × W
  place_executors all pod [] w = (none, [], false, w)
  place_executors all pod (c ∷ cs) w = elim (find_executor all c.name) [
    | none ↦ let (r, es, force, w') = place_executors all pod cs w in (r, es, true, w')
    | some e ↦
        let (r, e', w') = set_pod k e pod w in
        let (r', es, force, w'') = place_executors all pod cs w' in
        elim r [
          | some x ↦
              (some (wrapped "failed to set corev1.Pod to executor instance" x), [], false, w')
          | none ↦ (r', e' ∷ es, force, w'')
        ]
  ]

  -- The deferred loop: whether an executor has an error, whether a stop fails, and the executors.
  unfoldable pub stop_executors : List JobExecutor → W → Bool × Bool × List JobExecutor × W
  stop_executors [] w = (false, false, [], w)
  stop_executors (e ∷ es) w =
      let (r, e', w') = stop k e w in
      let (failed, force, es', w'') = stop_executors es w' in
      (is_some e.err || failed, is_some r || force, e' ∷ es', w'')

  abbrev handled : (W → W) → Bool → Option Err × List JobExecutor × W → Called W
  handled cancel_fn injected (r, es, w) =
      let (failed, force, es', w') = stop_executors es w in
      record {
        result = r;
        executors = es';
        exists_err_container = failed;
        force_stop = injected || force;
        world = if injected || force then cancel_fn w' else w';
      }

  abbrev placed :
      (W → W) → JobExecutionHandler W → Option Err × List JobExecutor × Bool × W → Called W
  placed cancel_fn handler (some x, es, injected, w) = record {
    result = some x;
    executors = es;
    exists_err_container = false;
    force_stop = false;
    world = w;
  }
  placed cancel_fn handler (none, es, injected, w) = handled cancel_fn injected (handler es w)

  -- `podRunningCallback`
  unfoldable pub call_back : (W → W) → JobExecutionHandler W → List JobExecutor → Pod → W → Called W
  call_back cancel_fn handler all pod w =
      placed cancel_fn handler (place_executors all pod pod.spec.containers w)

-- `callbackPod` and `existsErrContainer`, which the callback writes and the end of the run reads:
-- `none` until the callback is called.
abbrev pub Noted : Type 0
Noted = Option (Pod × Bool)

abbrev pub exists_err : Noted → Bool
exists_err none = false
exists_err (some (pod, failed)) = failed

-- Where the world keeps these variables.
pub record Variables (W : Type 0) : Type 0 where
  pub read : W → Noted
  pub write : Noted → W → W

abbrev pub with_containers : {W : Type 0} → Job W → List Container → Option AgentConfig → Job W
with_containers j cs cfg = record j {
  batch = record j.batch { spec = record j.batch.spec { containers = cs } };
  agent_cfg = cfg;
}

abbrev pub end_of_run : {W : Type 0} → Noted → Verdict × W → Verdict × W
end_of_run (some (pod, true)) (returns none, w) = (returns (some (failed_job pod nil)), w)
end_of_run noted r = r

module _ {W : Type 0} (k : Cluster W) (v : Variables W) (cancel_fn : W → W)
    (handler : JobExecutionHandler W) where
  -- The callback as the watch loop's goroutine calls it.
  unfoldable pub pod_running_callback : List JobExecutor → Pod → W → Option Err × W
  pod_running_callback all pod w =
      let c = call_back k cancel_fn handler all pod w in
      let failed = exists_err (v.read w) || c.exists_err_container in
      (c.result, v.write (some (pod, failed)) c.world)

  -- What follows the loop over the containers.
  pub after_setup :
      ((Pod → W → Option Err × W) → Option Err → List Task → W → Option Err × W)
      → Bool
      → (W → W)
      → Job W
      → W
      → Option Err × List Container × List JobExecutor × Option AgentConfig
      → Verdict × W
  after_setup join cancelled interrupted j w (some x, cs, es, cfg) = (returns (some x), w)
  after_setup join cancelled interrupted j w (none, cs, es, cfg) =
      let j' : Job W = with_containers j cs cfg in
      let r =
        Job.run k (join (pod_running_callback es)) cancelled interrupted j' (v.write none w) in
      end_of_run (v.read r.1) r

  -- `runWithExecutionHandler`. `join` is `eg.Wait` for a job with the given callback, and the other
  -- arguments are those of `Run`. The call of `DisableCommandLog` concerns the echo of commands, which
  -- the executors take as an argument. `RunWithExecutionHandler` waits for its result in every case.
  unfoldable pub run_with_execution_handler :
      ((Pod → W → Option Err × W) → Option Err → List Task → W → Option Err × W)
      → Bool
      → (W → W)
      → Job W
      → W
      → Verdict × W
  unfolding after_setup
  run_with_execution_handler join cancelled interrupted j w =
      after_setup join cancelled interrupted j w
        (setup_containers 0 j.batch.spec.containers j.agent_cfg)
