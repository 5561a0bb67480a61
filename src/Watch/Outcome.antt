-- ===== src/Watch/Outcome.antt =====
-- What `watchLoop` of job.go returns, and which work it starts, for a job with no pre-init step and
-- no hook for the init containers.
use kubejob.Prelude.{
  sym, ap, ◌∙◌, inr, inl, Bool-cases, ◌≢◌, ◌≡◌, refl, true, false, Bool, Option, none, some, List,
  [], ◌∷◌, arith, if◌then◌else◌,
}
use kubejob.Kube.{
  Pod, PodPhase, EventObject, pod_object, other_object, unset, pending, running, succeeded, failed,
  unknown,
}
use kubejob.Errors.{Err, failed_job, nil}
use kubejob.Cluster.{Cluster}
use kubejob.Logs.{ContainerLogger}
use kubejob.Watch.{
  and_then, Loop, Task, Verdict, next, returns, panics, watch_pending, run_pod, stream_ended_pod,
  is_ready_all_containers, watch_event, watch_events, start_loop, with_world, start_watch_pending,
  switch_phase,
}

-- The first event that ends the watch decides: a pod that has failed gives an error.
result_at : PodPhase → Pod → Option Err → Option Err
result_at succeeded pod rest = none
result_at failed pod rest = some (failed_job pod nil)
result_at unset pod rest = rest
result_at pending pod rest = rest
result_at running pod rest = rest
result_at unknown pod rest = rest

pub result_of : List EventObject → Option Err
unfolding result_at
result_of [] = none
result_of (other_object ∷ events) = none
result_of (pod_object pod ∷ events) = result_at pod.status.phase pod (result_of events)

-- The first pod that is running with all containers ready, or that has ended, is worked on.
task_at : PodPhase → Pod → Option Task → Option Task
task_at succeeded pod rest = some (stream_ended_pod pod)
task_at failed pod rest = some (stream_ended_pod pod)
task_at running pod rest =
    if is_ready_all_containers pod.status.container_statuses then some (run_pod pod) else rest
task_at unset pod rest = rest
task_at pending pod rest = rest
task_at unknown pod rest = rest

pub task_of : List EventObject → Option Task
unfolding task_at
task_of [] = none
task_of (other_object ∷ events) = none
task_of (pod_object pod ∷ events) = task_at pod.status.phase pod (task_of events)

pub main_task : List Task → Option Task
main_task [] = none
main_task (watch_pending name ∷ ts) = main_task ts
main_task (run_pod pod ∷ ts) = some (run_pod pod)
main_task (stream_ended_pod pod ∷ ts) = some (stream_ended_pod pod)

-- Between two events: no hooks, and the last phase is that of no ended pod, and that of a running
-- one only if its work was started.
record IsPlain {W : Type 0} (s : Loop W) : Type 0 where
  no_pre_init : s.pre_init ≡ none
  no_job_init : s.job_init ≡ none
  not_succeeded : s.phase ≢ succeeded
  not_failed : s.phase ≢ failed
  started : s.phase ≡ running → s.once ≡ true
  idle : s.once ≡ false → main_task s.tasks ≡ none

-- The work that is started, by now or by the events to come.
abbrev work : {W : Type 0} → Loop W → Option Task → Option Task
work s later = if s.once then main_task s.tasks else later

ends : PodPhase → Bool
ends succeeded = true
ends failed = true
ends _ = false

ends-result_at :
    (p : PodPhase) (pod : Pod) (rest : Option Err)
    → result_at p pod rest ≡ (if ends p then result_at p pod none else rest)
unfolding result_at ends
ends-result_at p pod rest = ground arith

ends-task_at :
    (p : PodPhase) (pod : Pod) (rest : Option Task)
    → ends p ≡ true
    → task_at p pod rest ≡ task_at p pod none
unfolding task_at ends
ends-task_at p pod rest h = ground arith

module _ {W : Type 0} where
  start_watch_pending-IsPlain :
      (pod : Pod) (s : Loop W) → IsPlain s → IsPlain (start_watch_pending pod s)
  unfolding start_watch_pending main_task
  start_watch_pending-IsPlain pod s v = ground arith

  work-start_watch_pending :
      (pod : Pod) (s : Loop W) (later : Option Task)
      → work (start_watch_pending pod s) later ≡ work s later
  unfolding start_watch_pending main_task
  work-start_watch_pending pod s later = ground arith

  -- A phase that does not end the watch: the loop goes on, and what it has started is as specified.
  abbrev GoesOn : Pod → Loop W → Verdict × Loop W → Type 0
  GoesOn pod s r =
      (r.0 ≡ next)
      × IsPlain r.1
      × ((later : Option Task) → work r.1 later ≡ work s (task_at pod.status.phase pod later))

  abbrev Ends : Pod → Loop W → Verdict × Loop W → Type 0
  Ends pod s r =
      (r.0 ≡ returns (result_at pod.status.phase pod none))
      × (main_task r.1.tasks ≡ work s (task_at pod.status.phase pod none))

  switch_phase-GoesOn :
      (pod : Pod) (s : Loop W)
      → ends pod.status.phase ≡ false
      → IsPlain s
      → GoesOn pod s (switch_phase pod s)
  unfolding switch_phase task_at ends main_task
  switch_phase-GoesOn pod s h v = (ground arith, ground arith, λ later. ground arith)

  switch_phase-Ends :
      (pod : Pod) (s : Loop W)
      → ends pod.status.phase ≡ true
      → IsPlain s
      → Ends pod s (switch_phase pod s)
  unfolding switch_phase task_at result_at ends main_task
  switch_phase-Ends pod s h v = ground arith

module _ {W : Type 0} where
  and_then_next :
      (r : Verdict × Loop W) (w : W) (f : Loop W → W → Verdict × Loop W × W)
      → r.0 ≡ next
      → and_then (with_world r w) f ≡ f r.1 w
  and_then_next (next, s) w f h = refl
  and_then_next (returns e, s) w f h = cc
  and_then_next (panics, s) w f h = cc

  and_then_returns :
      (r : Verdict × Loop W) (w : W) (f : Loop W → W → Verdict × Loop W × W) (e : Option Err)
      → r.0 ≡ returns e
      → and_then (with_world r w) f ≡ (returns e, r.1, w)
  and_then_returns (next, s) w f e h = cc
  and_then_returns (returns x, s) w f e h = cc
  and_then_returns (panics, s) w f e h = cc

module _ {W : Type 0} (k : Cluster W) where
  plain_event :
      (pod : Pod) (s : Loop W) (w : W)
      → IsPlain s
      → watch_event k (pod_object pod) s w
        ≡ with_world (switch_phase pod (start_watch_pending pod s)) w
  unfolding watch_event start_watch_pending
  plain_event pod s w v = ground arith

  -- Against the specification by the events alone.
  abbrev pub Agrees : List EventObject → Loop W → Verdict × Loop W × W → Type 0
  Agrees events s r =
      (r.0 ≡ returns (result_of events)) × (main_task r.1.tasks ≡ work s (task_of events))

  pod_case :
      (pod : Pod) (events : List EventObject) (s : Loop W) (w : W)
      → IsPlain s
      → ((t : Loop W) (u : W) → IsPlain t → Agrees events t (watch_events k events t u))
      → Agrees (pod_object pod ∷ events) s (watch_events k (pod_object pod ∷ events) s w)
  unfolding watch_events result_of task_of
  pod_case pod events s w v rest =
      let t = start_watch_pending pod s in
      let r = switch_phase pod t in
      let plain = start_watch_pending-IsPlain pod s v in
      let earlier = work-start_watch_pending pod s in
      elim (Bool-cases (ends pod.status.phase)) [
        | inl over ↦
            let (result, task) = switch_phase-Ends pod t over plain in
            rw (plain_event pod s w v, and_then_returns r w (watch_events k events) _ result)
              (
                ap returns (sym (ended_result over)),
                task
                    ∙ earlier _
                    ∙ ap (work s) (sym (ends-task_at pod.status.phase pod (task_of events) over)),
              )
        | inr more ↦
            let (goes, still, works) = switch_phase-GoesOn pod t more plain in
            let (result, task) = rest r.1 w still in
            rw (plain_event pod s w v, and_then_next r w (watch_events k events) goes)
              (
                result ∙ ap returns (sym (open_result more)),
                task ∙ works (task_of events) ∙ earlier _,
              )
      ]
    where
      ended_result :
          ends pod.status.phase ≡ true
          → result_at pod.status.phase pod (result_of events) ≡ result_at pod.status.phase pod none
      ended_result h = ends-result_at pod.status.phase pod (result_of events) ∙ rw h

      open_result :
          ends pod.status.phase ≡ false
          → result_at pod.status.phase pod (result_of events) ≡ result_of events
      open_result h = ends-result_at pod.status.phase pod (result_of events) ∙ rw h

  watch_events-Agrees :
      (events : List EventObject) (s : Loop W) (w : W)
      → IsPlain s
      → Agrees events s (watch_events k events s w)
  unfolding watch_events watch_event result_of task_of
  watch_events-Agrees [] s w v = (refl, ground arith)
  watch_events-Agrees (other_object ∷ events) s w v = (refl, ground arith)
  watch_events-Agrees (pod_object pod ∷ events) s w v =
      pod_case pod events s w v (watch_events-Agrees events)

  -- For a job with no pre-init step and no hook, whatever the events, the loop returns what the
  -- first event decides that ends the watch (nil for a pod that succeeded or an object of another
  -- type, a `FailedJob` for a pod that failed), and nil if there is none; and the work that it has
  -- started is that on the first pod that is running with all containers ready or has ended.
  pub watch_events-start-Agrees :
      (logger : Option (ContainerLogger W)) (events : List EventObject) (w : W)
      → let r = watch_events k events (start_loop none none logger) w in
        (r.0 ≡ returns (result_of events)) × (main_task r.1.tasks ≡ task_of events)
  unfolding start_loop main_task
  watch_events-start-Agrees logger events w =
      watch_events-Agrees events (start_loop none none logger) w (record {
        no_pre_init = refl;
        no_job_init = refl;
        not_succeeded = λ e. cc;
        not_failed = λ e. cc;
        started = λ e. cc;
        idle = λ e. refl;
      })
