-- ===== src/Tests/Logs.antt =====
-- The log streams and the watch of the pending phase at concrete inputs.
use kubejob.Prelude.{
  str_eq, if◌then◌else◌, ℕ, ◌≡◌, refl, String, true, false, none, some, List, [], ◌∷◌,
}
use kubejob.Kube.{Container, Pod, pending}
use kubejob.Errors.{ok, err, plain, log_stream_error, err_pending_phase}
use kubejob.Logs.{LogSwitches}
use kubejob.Streams.{Read, eof, failed_read, LogSource, log_stream_init_containers}
use kubejob.Streams.Order.{
  AllLate, whole, init_logs, log_stream_init_containers-whole, log_stream_init_containers-fails,
}
use kubejob.Pending.{Poll, watch_pod_pending_phase}
use kubejob.Pending.Timeout.{TimedOut, watch_pod_pending_phase-TimedOut}
use kubejob.Tests.Data.{pod_in, first_init, main_container}

abbrev switches : LogSwitches
switches = record {
  disabled_init_container_log = false;
  disabled_init_command_log = false;
  disabled_container_log = false;
  disabled_command_log = false;
}

abbrev two_inits : Pod
two_inits = record (pod_in pending) {
  spec = record (pod_in pending).spec { init_containers = first_init ∷ main_container ∷ [] };
}

abbrev texts : Container → List String
texts c = "a\n" ∷ "b\n" ∷ []

abbrev rest : Container → String
rest c = "no newline"

abbrev ends : Container → List Read
ends c = eof "" ∷ failed_read (plain "closed") ∷ []

abbrev open_source : LogSource
open_source c = ok (whole (texts c) (rest c) (ends c))

log_stream_init_containers-whole_example :
    let r = log_stream_init_containers "job" switches open_source two_inits in
    (r.0 ≡ none)
    × (r.1
        ≡ init_logs "job" two_inits switches open_source texts rest ends
            (first_init ∷ main_container ∷ []))
    × AllLate two_inits (first_init ∷ main_container ∷ []) r.2
log_stream_init_containers-whole_example =
    log_stream_init_containers-whole "job" two_inits switches open_source texts rest ends
      ((refl, (tt, (tt, tt))), ((refl, (tt, (tt, tt))), tt))

abbrev half_source : LogSource
half_source c = if str_eq c.name "main" then err (plain "gone") else open_source c

log_stream_init_containers-fails_example :
    let r = log_stream_init_containers "job" switches half_source two_inits in
    (r.0 ≡ some (log_stream_error "job" two_inits main_container true (plain "gone")))
    × (r.1 ≡ init_logs "job" two_inits switches half_source texts rest ends (first_init ∷ []))
    × AllLate two_inits (first_init ∷ main_container ∷ []) r.2
log_stream_init_containers-fails_example =
    log_stream_init_containers-fails "job" two_inits switches half_source texts rest ends
      (first_init ∷ []) [] main_container (plain "gone") refl ((refl, (tt, (tt, tt))), tt) refl

abbrev initializing_pod : Pod
initializing_pod = record (pod_in pending) {
  status = record (pod_in pending).status {
    container_statuses =
        record {
          name = "main";
          ready = false;
          state = record { waiting = some "PodInitializing"; running = false; terminated = none };
        }
        ∷ [];
  };
}

abbrev poll_at : ℕ → Poll
poll_at t = record { answer = ok initializing_pod; now = t; checked = t }

abbrev polls : List Poll
polls = poll_at 3 ∷ poll_at 4 ∷ poll_at 9 ∷ []

gives_up : watch_pod_pending_phase (some 5) "pod" polls ≡ some (some (err_pending_phase 3 5))
unfolding watch_pod_pending_phase kubejob.Pending.poll_loop kubejob.Pending.is_pod_initializing
gives_up = refl

watch_pod_pending_phase-TimedOut_example : TimedOut 5 none 3 polls
watch_pod_pending_phase-TimedOut_example = watch_pod_pending_phase-TimedOut "pod" 5 3 polls gives_up
