-- ===== src/Pending.antt =====
-- job.go, `watchPodPendingPhase`: polls a pod that starts, until it runs or starts for too long.
pub mod Timeout
use kubejob.Prelude.{
  ℕ, ◌-◌, String, ◌<>◌, Bool, true, false, not, Option, none, some, List, [], ◌∷◌, str_eq, ltb,
  if◌then◌else◌,
}
use kubejob.Kube.{
  Pod, PodPhase, ContainerStatus, unset, pending, running, succeeded, failed, unknown, phase_eq,
}
use kubejob.Errors.{Err, Result, ok, err, wrapped, err_pending_phase}

-- One round of the loop: what `podClient.Get` gives, and the clock after it, in nanoseconds: `now` where
-- the first sight is noted, and `checked` where the time since then is measured. The client gives a pod or an error, so that the test for a nil pod is never met.
pub record Poll : Type 0 where
  pub answer : Result Pod
  pub now : ℕ
  pub checked : ℕ

-- `getPod`
abbrev pub get_pod : String → Result Pod → Result Pod
get_pod name (ok pod) = ok pod
get_pod name (err e) = err (wrapped ("job: failed to get pod by name " <> name) e)

abbrev pub waits_for_init : ContainerStatus → Bool
waits_for_init status = elim status.state.waiting [
  | none ↦ false
  | some reason ↦ str_eq reason "PodInitializing"
]

abbrev any_waits : List ContainerStatus → Bool
any_waits [] = false
any_waits (s ∷ ss) = if waits_for_init s then true else any_waits ss

-- `isPodInitializing`
unfoldable pub is_pod_initializing : Pod → Bool
is_pod_initializing pod =
    if not (phase_eq pod.status.phase pending)
    then false
    else any_waits pod.status.container_statuses

-- The phases at which the loop ends.
abbrev pub has_started : PodPhase → Bool
has_started running = true
has_started succeeded = true
has_started failed = true
has_started unset = false
has_started pending = false
has_started unknown = false

abbrev pub started_at : Option ℕ → ℕ → ℕ
started_at none now = now
started_at (some t) now = t

-- The loop, over the polls that are made, with the time at which the pod was first seen
-- initializing. `none` is a loop that goes on after them.
unfoldable pub poll_loop : String → ℕ → Option ℕ → List Poll → Option (Option Err)
poll_loop name timeout started [] = none
poll_loop name timeout started (p ∷ ps) = elim (get_pod name p.answer) [
  | err e ↦ some (some e)
  | ok pod ↦
      let first = started_at started p.now in
      let on = poll_loop name timeout (some first) ps in
      let off = poll_loop name timeout started ps in
      if has_started pod.status.phase
      then some none
      else if is_pod_initializing pod
      then if ltb timeout (p.checked - first)
        then some (some (err_pending_phase first timeout))
        else on
      else off
]

-- `watchPodPendingPhase`, with the timeout of the job.
unfoldable pub watch_pod_pending_phase : Option ℕ → String → List Poll → Option (Option Err)
watch_pod_pending_phase none name polls = some none
watch_pod_pending_phase (some timeout) name polls = poll_loop name timeout none polls
