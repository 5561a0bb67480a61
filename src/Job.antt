-- ===== src/Job.antt =====
-- job.go: `Run`, `wait` and `cleanup`. Debug and warning lines are left out: Logs has them.
pub mod Cleanup
pub mod Lifetime
use kubejob.Prelude.{
  ℕ, String, ◌<>◌, Bool, true, false, Option, none, some, List, [], ◌∷◌, ◌++◌, if◌then◌else◌,
}
use kubejob.Kube.{Pod, BatchJob, Container}
use kubejob.Errors.{
  Err, Result, ok, err, plain, wrapped, joined, err_cleanup, err_job_creation, err_job_watch,
}
use kubejob.Agent.{AgentConfig, lookup, or_empty}
use kubejob.Cluster.{Cluster}
use kubejob.Logs.{ContainerLogger}
use kubejob.Init.{JobInit}
use kubejob.Init.Setup.{setup_init_containers}
use kubejob.PreInit.{PreInit, setup_pre_init_container}
use kubejob.Watch.{Loop, Task, Verdict, next, returns, panics, watch_events, start_loop}

abbrev pub selector_label : String
selector_label = "kubejob.io/id"

-- The fields of `Job` that these methods use; `batch` is the embedded `*batchv1.Job`.
pub record Job (W : Type 0) : Type 0 where
  pub batch : BatchJob
  pub pre_init : Option (PreInit W)
  pub job_init : Option (JobInit W)
  pub container_logger : Option (ContainerLogger W)
  pub agent_cfg : Option AgentConfig

module _ {W : Type 0} where
  abbrev pub set_container_logger : Job W → ContainerLogger W → Job W
  set_container_logger j logger = record j { container_logger = some logger }

  abbrev pub use_agent : Job W → AgentConfig → Job W
  use_agent j cfg = record j { agent_cfg = some cfg }

abbrev label_of : Option (List (String × String)) → String
label_of none = ""
label_of (some labels) = or_empty (lookup selector_label labels)

unfoldable pub label_selector : BatchJob → String
label_selector batch = selector_label <> ("=" <> label_of batch.labels)

abbrev pub add_error : List Err → String → Option Err → List Err
add_error errs text none = errs
add_error errs text (some e) = errs ++ wrapped text e ∷ []

abbrev pub cleanup_result : String → List Err → Option Err
cleanup_result job_name [] = none
cleanup_result job_name (e ∷ errs) = some (err_cleanup job_name (e ∷ errs))

-- The result `e` of `Run` with that of its deferred cleanup.
abbrev pub combine : Option Err → Option Err → Option Err
combine e none = e
combine none (some c) = some c
combine (some e) (some c) = some (joined e c)

abbrev pub set_init_containers : BatchJob → List Container → BatchJob
set_init_containers b cs = record b { spec = record b.spec { init_containers = cs } }

module _ {W : Type 0} where
  -- The changes of `Run` to the job before it is created: the hook first, then the pre-init step.
  hook_init_containers : Option (JobInit W) → Job W → Option Err × Job W
  hook_init_containers none j = (none, j)
  hook_init_containers (some i) j =
      let (e, i', cfg) = setup_init_containers j.batch.spec.init_containers i j.agent_cfg in
      elim e [
        | some x ↦ (some x, record j { job_init = some i'; agent_cfg = cfg })
        | none ↦ (
          none,
          record j {
            batch = set_init_containers j.batch i'.containers;
            agent_cfg = cfg;
            job_init = some (elim j.pre_init [
              | none ↦ i'
              | some p ↦ record i' { executed = p.container.name ∷ i'.executed }
            ]);
          },
        )
      ]

  add_pre_init_container : Option (PreInit W) → Job W → Option Err × Job W
  add_pre_init_container none j = (none, j)
  add_pre_init_container (some p) j =
      let (e, p', cfg) = setup_pre_init_container p j.agent_cfg in
      elim e [
        | some x ↦ (some x, record j { pre_init = some p'; agent_cfg = cfg })
        | none ↦ (
          none,
          record j {
            batch = set_init_containers j.batch (p'.container ∷ j.batch.spec.init_containers);
            pre_init = some p';
            agent_cfg = cfg;
          },
        )
      ]

  abbrev unless_failed : Option Err × Job W → (Job W → Option Err × Job W) → Option Err × Job W
  unless_failed (some x, j) f = (some x, j)
  unless_failed (none, j) f = f j

  unfoldable pub prepare : Job W → Option Err × Job W
  unfolding hook_init_containers add_pre_init_container
  prepare j =
      unless_failed (hook_init_containers j.job_init j)
        (λ j'. add_pre_init_container j'.pre_init j')

module _ {W : Type 0} (k : Cluster W) where
  unfoldable pub delete_pods : List Pod → List Err → W → List Err × W
  delete_pods [] errs w = (errs, w)
  delete_pods (pod ∷ pods) errs w =
      let (e, w') = k.delete_pod pod.name w in
      delete_pods pods (add_error errs ("failed to delete pod " <> pod.name) e) w'

  delete_listed : String → List Err → Option (List Pod) → W → Option Err × W
  delete_listed job_name errs none w = (cleanup_result job_name errs, w)
  delete_listed job_name errs (some []) w = (cleanup_result job_name errs, w)
  delete_listed job_name errs (some (pod ∷ pods)) w =
      let (errs', w') = delete_pods (pod ∷ pods) errs w in (cleanup_result job_name errs', w')

  -- `cleanup`
  unfoldable pub cleanup : BatchJob → W → Option Err × W
  unfolding delete_listed
  cleanup batch w =
      let (e, w1) = k.delete_job batch.name w in
      let (pods, e', w2) = k.list_pods (label_selector batch) w1 in
      delete_listed batch.name
        (add_error (add_error [] "failed to delete job" e) "failed to list pod" e') pods w2

  -- What the loop's function returned, joined with the goroutines that it started: `eg.Wait`.
  joined_with : (Option Err → List Task → W → Option Err × W) → Verdict × Loop W × W → Verdict × W
  joined_with join (next, s, w) = (next, w)
  joined_with join (panics, s, w) = (panics, w)
  joined_with join (returns e, s, w) = let (e', w') = join e s.tasks w in (returns e', w')

  module _ (join : Option Err → List Task → W → Option Err × W) where
    -- `wait` and `watchLoop`
    unfoldable pub wait : Job W → W → Verdict × W
    unfolding joined_with
    wait j w =
        let (r, w') = k.watch (label_selector j.batch) w in
        elim r [
          | err e ↦ (returns (some (err_job_watch j.batch.name e)), w')
          | ok events ↦
              joined_with join
                (watch_events k events (start_loop j.pre_init j.job_init j.container_logger) w')
        ]

    -- The deferred function. A panic of another goroutine ends the process instead.
    with_cleanup : BatchJob → Verdict × W → Verdict × W
    with_cleanup batch (next, w) = (next, w)
    with_cleanup batch (panics, w) = (panics, w)
    with_cleanup batch (returns e, w) = let (c, w') = cleanup batch w in (returns (combine e c), w')

    created : Bool → (W → W) → Job W → Result String × W → Verdict × W
    unfolding with_cleanup
    created cancelled interrupted j (err e, w) =
        (returns (some (err_job_creation j.batch.name j.batch.generate_name e)), w)
    created cancelled interrupted j (ok name, w) =
        let j' : Job W = record j { batch = record j.batch { name = name } } in
        let waited = wait j' w in
        with_cleanup j'.batch (if cancelled then (returns none, interrupted w) else waited)

    run_prepared : Bool → (W → W) → Option Err × Job W → W → Verdict × W
    unfolding created
    run_prepared cancelled interrupted (some x, j) w = (returns (some x), w)
    run_prepared cancelled interrupted (none, j) w =
        created cancelled interrupted j (k.create_job j.batch w)

    -- `Run`. `cancelled` says which case of the `select` is taken; if it is that of the context,
    -- `interrupted` is what the goroutine of `wait` does before the cleanup.
    unfoldable pub run : Bool → (W → W) → Job W → W → Verdict × W
    unfolding run_prepared
    run cancelled interrupted j w = run_prepared cancelled interrupted (prepare j) w
