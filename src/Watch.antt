-- ===== src/Watch.antt =====
-- job.go, `watchLoop`: the state machine over the events of the job's pods. The goroutines that the
-- loop starts are listed as tasks; they share nothing with the loop but the world.
pub mod Tasks
pub mod Outcome
use kubejob.Prelude.{
  String, Bool, true, false, not, ◌&&◌, Option, none, some, List, [], ◌∷◌, is_some, if◌then◌else◌,
}
use kubejob.Kube.{
  Pod, PodStatus, PodPhase, ContainerStatus, EventObject, pod_object, other_object, unset, pending,
  running, succeeded, failed, unknown, phase_eq,
}
use kubejob.Errors.{Err, plain, failed_job, nil}
use kubejob.Cluster.{Cluster}
use kubejob.Logs.{ContainerLogger}
use kubejob.Init.{JobInit, Signal, proceed, fail, panic}
use kubejob.Init
use kubejob.PreInit.{PreInit}
use kubejob.PreInit

-- `watch_pending` runs `watchPodPendingPhase`; the other two are the functions given to `once`,
-- for a running pod and for one that has ended.
pub data Task : Type 0 where
  watch_pending : String → Task
  run_pod : Pod → Task
  stream_ended_pod : Pod → Task

pub record Loop (W : Type 0) : Type 0 where
  pub pre_init : Option (PreInit W)
  pub job_init : Option (JobInit W)
  pub logger : Option (ContainerLogger W)
  pub phase : PodPhase
  pub once : Bool
  pub once_watch_pending_phase : Bool
  -- newest first
  pub tasks : List Task

-- What an event does to the loop's function: go on, return an error or nil, or panic.
pub data Verdict : Type 0 where
  next : Verdict
  returns : Option Err → Verdict
  panics : Verdict

unfoldable pub is_ready_all_containers : List ContainerStatus → Bool
is_ready_all_containers [] = true
is_ready_all_containers (s ∷ ss) = if not s.ready then false else is_ready_all_containers ss

abbrev pub err_pre_init_not_called : Err
err_pre_init_not_called = plain "job: preinit step wasn't called but changed pod phase to running"

abbrev pub err_init_hook_not_called : Err
err_init_hook_not_called =
    plain "job: init containers hook wasn't called but changed pod phase to running"

abbrev verdict_of : Signal → Verdict
verdict_of proceed = next
verdict_of (fail x) = returns (some x)
verdict_of panic = panics

module _ {W : Type 0} where
  -- `j.preInit != nil && !j.preInit.done`, and the same of `jobInit`
  abbrev pub pre_init_open : Option (PreInit W) → Bool
  pre_init_open none = false
  pre_init_open (some p) = not p.done

  abbrev pub job_init_open : Option (JobInit W) → Bool
  job_init_open none = false
  job_init_open (some j) = not j.done

  unfoldable pub start_watch_pending : Pod → Loop W → Loop W
  start_watch_pending pod s =
      if s.once_watch_pending_phase
      then s
      else record s { once_watch_pending_phase = true; tasks = watch_pending pod.name ∷ s.tasks }

  unfoldable pub start_once : Task → Loop W → Loop W
  start_once t s = if s.once then s else record s { once = true; tasks = t ∷ s.tasks }

  -- The end of an iteration.
  abbrev pub remember : Pod → Loop W → Verdict × Loop W
  remember pod s = (next, record s { phase = pod.status.phase })

  -- `case corev1.PodRunning`
  on_running : Pod → Loop W → Verdict × Loop W
  unfolding start_once
  on_running pod s =
      if pre_init_open s.pre_init
      then (returns (some err_pre_init_not_called), s)
      else if job_init_open s.job_init
      then (returns (some err_init_hook_not_called), s)
      else if not (is_ready_all_containers pod.status.container_statuses)
      then (next, s)
      else remember pod (start_once (run_pod pod) s)

  on_phase : PodPhase → Pod → Loop W → Verdict × Loop W
  unfolding on_running start_once
  on_phase running pod s = on_running pod s
  on_phase succeeded pod s = (returns none, start_once (stream_ended_pod pod) s)
  on_phase failed pod s = (returns (some (failed_job pod nil)), start_once (stream_ended_pod pod) s)
  on_phase unset pod s = remember pod s
  on_phase pending pod s = remember pod s
  on_phase unknown pod s = remember pod s

  -- The loop's body from `if pod.Status.Phase == phase` on.
  unfoldable pub switch_phase : Pod → Loop W → Verdict × Loop W
  unfolding on_phase
  switch_phase pod s =
      if phase_eq pod.status.phase s.phase then (next, s) else on_phase pod.status.phase pod s

  abbrev pub with_world : Verdict × Loop W → W → Verdict × Loop W × W
  with_world (v, s) w = (v, s, w)

  abbrev after_pre_init : Loop W → PreInit.Step W → Verdict × Loop W × W
  after_pre_init s (sig, p, logger, w) =
      (verdict_of sig, record s { pre_init = some p; logger = logger }, w)

  abbrev after_job_init : Loop W → Signal × JobInit W × W → Verdict × Loop W × W
  after_job_init s (sig, j, w) = (verdict_of sig, record s { job_init = some j }, w)

  -- An early return ends the iteration.
  abbrev pub and_then :
      Verdict × Loop W × W → (Loop W → W → Verdict × Loop W × W) → Verdict × Loop W × W
  and_then (next, s, w) f = f s w
  and_then (returns e, s, w) f = (returns e, s, w)
  and_then (panics, s, w) f = (panics, s, w)

  unfoldable pub start_loop :
      Option (PreInit W) → Option (JobInit W) → Option (ContainerLogger W) → Loop W
  start_loop p j logger = record {
    pre_init = p;
    job_init = j;
    logger = logger;
    phase = unset;
    once = false;
    once_watch_pending_phase = false;
    tasks = [];
  }

module _ {W : Type 0} (k : Cluster W) where
  pre_init_step : Option (PreInit W) → Pod → Loop W → W → Verdict × Loop W × W
  pre_init_step none pod s w = (next, s, w)
  pre_init_step (some p) pod s w =
      if PreInit.needs_to_run (some p) pod.status
      then after_pre_init s (PreInit.run k p s.logger pod w)
      else (next, s, w)

  -- The step of `jobInit`, with what follows it; the `continue` leaves the iteration.
  job_init_step : Option (JobInit W) → Pod → Loop W → W → Verdict × Loop W × W
  job_init_step none pod s w = with_world (switch_phase pod s) w
  job_init_step (some j) pod s w =
      if Init.needs_to_run (some j) pod.status
      then if pre_init_open s.pre_init
        then (next, s, w)
        else and_then (after_job_init s (Init.run k j pod w))
            (λ t v. with_world (switch_phase pod t) v)
      else with_world (switch_phase pod s) w

  -- One iteration of the loop.
  unfoldable pub watch_event : EventObject → Loop W → W → Verdict × Loop W × W
  unfolding start_watch_pending pre_init_step job_init_step
  watch_event other_object s w = (returns none, s, w)
  watch_event (pod_object pod) s w =
      let t = start_watch_pending pod s in
      and_then (pre_init_step t.pre_init pod t w) (λ u v. job_init_step u.job_init pod u v)

  -- The loop over the events until the channel is closed.
  unfoldable pub watch_events : List EventObject → Loop W → W → Verdict × Loop W × W
  watch_events [] s w = (returns none, s, w)
  watch_events (event ∷ events) s w = and_then (watch_event event s w) (watch_events events)
