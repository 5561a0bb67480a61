-- ===== src/Watch/Tasks.antt =====
-- Which goroutines `watchLoop` of job.go starts, and when.
use kubejob.Prelude.{
  ℕ, suc, ◌≡◌, refl, true, false, Bool, Option, none, some, List, [], ◌∷◌, arith, All, inl, inr,
  Bool-cases, if◌then◌else◌,
}
use kubejob.Kube.{
  Pod, PodPhase, EventObject, pod_object, other_object, unset, pending, running, succeeded, failed,
  unknown, phase_eq,
}
use kubejob.Cluster.{Cluster}
use kubejob.Logs.{ContainerLogger}
use kubejob.Init.{JobInit, Signal, proceed, fail, panic}
use kubejob.Init
use kubejob.PreInit.{PreInit}
use kubejob.PreInit
use kubejob.Watch.{
  Loop, Task, Verdict, next, returns, panics, watch_pending, run_pod, stream_ended_pod,
  is_ready_all_containers, pre_init_open, job_init_open, start_watch_pending, start_once, remember,
  on_running, on_phase, switch_phase, and_then, after_job_init, pre_init_step, job_init_step,
  watch_event, watch_events, start_loop,
}

-- How many tasks watch the pending phase, and how many are started by `once`.
pub watchers : List Task → ℕ
watchers [] = 0
watchers (watch_pending name ∷ ts) = suc (watchers ts)
watchers (run_pod pod ∷ ts) = watchers ts
watchers (stream_ended_pod pod ∷ ts) = watchers ts

pub main_tasks : List Task → ℕ
main_tasks [] = 0
main_tasks (watch_pending name ∷ ts) = main_tasks ts
main_tasks (run_pod pod ∷ ts) = suc (main_tasks ts)
main_tasks (stream_ended_pod pod ∷ ts) = suc (main_tasks ts)

pub runs_pod : List Task → Bool
runs_pod [] = false
runs_pod (watch_pending name ∷ ts) = runs_pod ts
runs_pod (run_pod pod ∷ ts) = true
runs_pod (stream_ended_pod pod ∷ ts) = runs_pod ts

abbrev pub IsReady : Task → Type 0
IsReady (watch_pending name) = Unit {0}
IsReady (run_pod pod) =
    (phase_eq pod.status.phase running ≡ true)
    × (is_ready_all_containers pod.status.container_statuses ≡ true)
IsReady (stream_ended_pod pod) = Unit {0}

abbrev pub flag : Bool → ℕ
flag b = if b then 1 else 0

pub record IsSound {W : Type 0} (s : Loop W) : Type 0 where
  -- Each of the two is started once, and its flag says so.
  pub one_watcher : watchers s.tasks ≡ flag s.once_watch_pending_phase
  pub one_main_task : main_tasks s.tasks ≡ flag s.once
  -- A pod is run only when it is running, its containers are ready and both hooks are done.
  pub ready : All IsReady s.tasks
  pub hooks_done :
      runs_pod s.tasks ≡ true
      → (pre_init_open s.pre_init ≡ false) × (job_init_open s.job_init ≡ false)

module _ {W : Type 0} where
  start_watch_pending-IsSound :
      (pod : Pod) (s : Loop W) → IsSound s → IsSound (start_watch_pending pod s)
  unfolding start_watch_pending watchers main_tasks runs_pod
  start_watch_pending-IsSound pod s v = ground arith

  on_running-IsSound :
      (pod : Pod) (s : Loop W)
      → phase_eq pod.status.phase running ≡ true
      → IsSound s
      → IsSound (on_running pod s).1
  unfolding on_running watchers main_tasks runs_pod
  on_running-IsSound pod s h v = ground arith

  ended-IsSound :
      (pod : Pod) (s : Loop W) → IsSound s → IsSound (start_once (stream_ended_pod pod) s)
  unfolding start_once watchers main_tasks runs_pod
  ended-IsSound pod s v = ground arith

  remember-IsSound : (pod : Pod) (s : Loop W) → IsSound s → IsSound (remember pod s).1
  remember-IsSound pod s v = record {
    one_watcher = v.one_watcher;
    one_main_task = v.one_main_task;
    ready = v.ready;
    hooks_done = v.hooks_done;
  }

  on_phase-IsSound :
      (p : PodPhase) (pod : Pod) (s : Loop W)
      → pod.status.phase ≡ p
      → IsSound s
      → IsSound (on_phase p pod s).1
  unfolding on_phase
  on_phase-IsSound unset pod s h v = remember-IsSound pod s v
  on_phase-IsSound pending pod s h v = remember-IsSound pod s v
  on_phase-IsSound running pod s h v = on_running-IsSound pod s (rw h) v
  on_phase-IsSound succeeded pod s h v = ended-IsSound pod s v
  on_phase-IsSound failed pod s h v = ended-IsSound pod s v
  on_phase-IsSound unknown pod s h v = remember-IsSound pod s v

  switch_phase-IsSound : (pod : Pod) (s : Loop W) → IsSound s → IsSound (switch_phase pod s).1
  unfolding switch_phase
  switch_phase-IsSound pod s v = elim (Bool-cases (phase_eq pod.status.phase s.phase)) [
    | inl same ↦ rw (same, switch_phase) v
    | inr other ↦ rw (other, switch_phase) (on_phase-IsSound pod.status.phase pod s refl v)
  ]

  abbrev Sound : Verdict × Loop W × W → Type 0
  Sound r = IsSound r.1

  and_then-IsSound :
      (r : Verdict × Loop W × W) (f : Loop W → W → Verdict × Loop W × W)
      → Sound r
      → ((s : Loop W) (w : W) → IsSound s → Sound (f s w))
      → Sound (and_then r f)
  and_then-IsSound (next, s, w) f v step = step s w v
  and_then-IsSound (returns e, s, w) f v step = v
  and_then-IsSound (panics, s, w) f v step = v

module _ {W : Type 0} (k : Cluster W) where
  pre_init_step-IsSound :
      (o : Option (PreInit W)) (pod : Pod) (s : Loop W) (w : W)
      → s.pre_init ≡ o
      → IsSound s
      → Sound (pre_init_step k o pod s w)
  unfolding pre_init_step PreInit.needs_to_run
  pre_init_step-IsSound none pod s w h v = v
  pre_init_step-IsSound (some p) pod s w h v = ground arith

  after_job_init-IsSound :
      (s : Loop W) (j : JobInit W) (r : Signal × JobInit W × W)
      → s.job_init ≡ some j
      → j.done ≡ false
      → IsSound s
      → Sound (after_job_init s r)
  after_job_init-IsSound s j r h fresh v = ground arith

  job_init_step-IsSound :
      (o : Option (JobInit W)) (pod : Pod) (s : Loop W) (w : W)
      → s.job_init ≡ o
      → IsSound s
      → Sound (job_init_step k o pod s w)
  unfolding job_init_step
  job_init_step-IsSound none pod s w h v = switch_phase-IsSound pod s v
  job_init_step-IsSound (some j) pod s w h v =
      elim (Bool-cases (Init.needs_to_run (some j) pod.status)) [
        | inr idle ↦ rw (idle, job_init_step) (switch_phase-IsSound pod s v)
        | inl due ↦ elim (Bool-cases (pre_init_open s.pre_init)) [
          | inl wait ↦ rw (due, wait, job_init_step) v
          | inr free ↦
              rw (due, free, job_init_step)
                (and_then-IsSound (after_job_init s (Init.run k j pod w)) _
                  (after_job_init-IsSound s j (Init.run k j pod w) h (fresh due) v)
                  (λ t u t_sound. switch_phase-IsSound pod t t_sound))
        ]
      ]
    where
      fresh : Init.needs_to_run (some j) pod.status ≡ true → j.done ≡ false
      fresh due = ground (arith, Init.needs_to_run-done j pod.status due)

  watch_event-IsSound :
      (event : EventObject) (s : Loop W) (w : W) → IsSound s → Sound (watch_event k event s w)
  unfolding watch_event
  watch_event-IsSound other_object s w v = v
  watch_event-IsSound (pod_object pod) s w v =
      let t = start_watch_pending pod s in
      and_then-IsSound (pre_init_step k t.pre_init pod t w) _
        (pre_init_step-IsSound t.pre_init pod t w refl (start_watch_pending-IsSound pod s v))
        (λ u x u_sound. job_init_step-IsSound u.job_init pod u x refl u_sound)

  watch_events-IsSound :
      (events : List EventObject) (s : Loop W) (w : W)
      → IsSound s
      → Sound (watch_events k events s w)
  unfolding watch_events
  watch_events-IsSound [] s w v = v
  watch_events-IsSound (event ∷ events) s w v =
      and_then-IsSound (watch_event k event s w) (watch_events k events)
        (watch_event-IsSound event s w v) (watch_events-IsSound events)

  -- Over any events, the loop starts the watch of the pending phase at most once and the work on a
  -- pod at most once, each exactly if its flag is set. Where it started the work on a running pod,
  -- that pod was running with all containers ready, and the pre-init step and the hook of the init
  -- containers, if there are any, are done.
  pub watch_events-start-IsSound :
      (p : Option (PreInit W)) (j : Option (JobInit W)) (logger : Option (ContainerLogger W))
      (events : List EventObject) (w : W)
      → IsSound (watch_events k events (start_loop p j logger) w).1
  unfolding start_loop watchers main_tasks runs_pod
  watch_events-start-IsSound p j logger events w =
      watch_events-IsSound events (start_loop p j logger) w
        (record { one_watcher = refl; one_main_task = refl; ready = tt; hooks_done = λ h. cc })
