-- ===== src/Tests/Watch.antt =====
-- The watch loop in the recording cluster.
use kubejob.Prelude.{◌≡◌, none, some, List, [], ◌∷◌}
use kubejob.Kube.{EventObject, pod_object, pending, running, succeeded}
use kubejob.Watch.{returns, watch_events, start_loop}
use kubejob.Watch.Tasks.{IsSound, watch_events-start-IsSound}
use kubejob.Watch.Outcome.{result_of, task_of, main_task, watch_events-start-Agrees}
use kubejob.Tests.Data.{recorder, one_hook, step_before, pod_in}

abbrev life : List EventObject
life =
    pod_object (pod_in pending) ∷ pod_object (pod_in running) ∷ pod_object (pod_in succeeded) ∷ []

watch_events-start-IsSound_example :
    IsSound (watch_events recorder life (start_loop (some step_before) (some one_hook) none) []).1
watch_events-start-IsSound_example =
    watch_events-start-IsSound recorder (some step_before) (some one_hook) none life []

watch_events-start-Agrees_example :
    let r = watch_events recorder life (start_loop none none none) [] in
    (r.0 ≡ returns (result_of life)) × (main_task r.1.tasks ≡ task_of life)
watch_events-start-Agrees_example = watch_events-start-Agrees recorder none life []
