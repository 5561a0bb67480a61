-- ===== src/Tests/Execution.antt =====
-- `RunWithExecutionHandler` in the recording cluster.
use kubejob.Prelude.{
  str_eq, ◌||◌, member, if◌then◌else◌, String, ◌≡◌, refl, ap, Bool, true, false, Option, none, some,
  ◌⊎◌, List, [], ◌∷◌, All,
}
use kubejob.Kube.{Container, Pod, running}
use kubejob.Errors.{Err}
use kubejob.Executor.{JobExecutor}
use kubejob.Init.Prepared.{Prepared}
use kubejob.Watch.{Task, returns}
use kubejob.Job.{Job, prepare}
use kubejob.Execution.{
  pod_running_callback, JobExecutionHandler, Variables, Noted, exists_err, setup_containers,
  place_executors, call_back, run_with_execution_handler, with_containers,
}
use kubejob.Execution.Callback.{
  stopped_each, stopped_world, stop_fails, any_failed, any_injected, call_back-Stops,
}
use kubejob.Execution.Waiting.{setup_containers-Prepared}
use kubejob.Execution.Outcome.{run_with_execution_handler_nil-Gone}
use kubejob.Tests.Job.{plain_job, Deleted, recorder-Deletes}
use kubejob.Tests.Data.{recorder, Calls, executor_of, main_container, pod_in, agent_config}

abbrev quiet_handler : JobExecutionHandler Calls
quiet_handler es w = (none, es, "handler" ∷ w)

abbrev cancel : Calls → Calls
cancel w = "cancel" ∷ w

abbrev all : List JobExecutor
all = executor_of main_container ∷ []

placed_all :
    place_executors recorder all (pod_in running) (main_container ∷ []) [] ≡ (none, all, false, [])
unfolding place_executors kubejob.Executor.set_pod kubejob.Executor.Command.set_target_pod
    kubejob.Executor.Command.enabled_agent
placed_all = refl

call_back-Stops_example :
    let c = call_back recorder cancel quiet_handler all (pod_in running) [] in
    (c.result ≡ none)
    × (c.exists_err_container ≡ any_failed all)
    × (c.executors ≡ stopped_each recorder all ("handler" ∷ []))
    × (((any_injected all (main_container ∷ []) ≡ false)
          × (stop_fails recorder all ("handler" ∷ []) ≡ false)
          × All (λ (e : JobExecutor). e.stopped ≡ true) c.executors
          × (c.world ≡ stopped_world recorder all ("handler" ∷ [])))
        ⊎ (((any_injected all (main_container ∷ []) || stop_fails recorder all ("handler" ∷ []))
              ≡ true)
            × (c.world ≡ cancel (stopped_world recorder all ("handler" ∷ [])))))
call_back-Stops_example =
    call_back-Stops recorder cancel quiet_handler all all (pod_in running) false [] [] placed_all

port_found : (setup_containers 0 (main_container ∷ []) (some agent_config)).0 ≡ none
unfolding setup_containers kubejob.Execution.waiting_container kubejob.Agent.enabled
    kubejob.Agent.lookup kubejob.Agent.new_allocated_port
port_found = refl

setup_containers-Prepared_example :
    Prepared
      (some agent_config)
      0
      (main_container ∷ [])
      (setup_containers 0 (main_container ∷ []) (some agent_config)).2
      (setup_containers 0 (main_container ∷ []) (some agent_config)).1
setup_containers-Prepared_example =
    setup_containers-Prepared 0 (main_container ∷ []) (some agent_config) port_found

-- Variables that are kept in the trace: the last note in it.
abbrev noted_in : Calls → Noted
noted_in [] = none
noted_in (call ∷ calls) =
    let earlier = noted_in calls in
    if str_eq call "noted a failure"
    then some (pod_in running, true)
    else if str_eq call "noted none"
    then some (pod_in running, false)
    else earlier

abbrev note : Noted → Calls → Calls
note none w = w
note (some (pod, false)) w = "noted none" ∷ w
note (some (pod, true)) w = "noted a failure" ∷ w

abbrev variables : Variables Calls
variables = record { read = noted_in; write = note }

-- One running pod, whose callback is called.
abbrev join :
    (Pod → Calls → Option Err × Calls) → Option Err → List Task → Calls → Option Err × Calls
join call e tasks w = call (pod_in running) w

abbrev waiting : List Container
waiting = (setup_containers 0 (main_container ∷ []) none).1

abbrev executors : List JobExecutor
executors = (setup_containers 0 (main_container ∷ []) none).2

setup_plain : setup_containers 0 (main_container ∷ []) none ≡ (none, waiting, executors, none)
unfolding setup_containers kubejob.Execution.waiting_container
setup_plain = refl

abbrev waiting_job : Job Calls
waiting_job = with_containers plain_job waiting none

prepare_waiting : prepare waiting_job ≡ (none, waiting_job)
unfolding prepare
prepare_waiting = refl

handled_nil :
    (run_with_execution_handler recorder variables cancel quiet_handler join false
      (λ w. w)
      plain_job
      []).0
    ≡ returns none
unfolding run_with_execution_handler setup_containers kubejob.Execution.waiting_container
    kubejob.Job.run prepare kubejob.Job.wait kubejob.Watch.watch_events kubejob.Job.cleanup
    kubejob.Execution.pod_running_callback call_back place_executors kubejob.Init.Setup.new_executor
    kubejob.Executor.set_pod kubejob.Executor.Command.set_target_pod
    kubejob.Executor.Command.enabled_agent kubejob.Execution.stop_executors kubejob.Executor.stop
    kubejob.Executor.Command.exec_once kubejob.Executor.Command.exec_with_retry
    kubejob.Executor.Normalize.normalize_cmd kubejob.Prelude.join kubejob.Prelude.contains_space
    kubejob.Prelude.trim
handled_nil = refl

variables_keep :
    (failed : Bool) (w : Calls)
    → exists_err (variables.read (variables.write (some (pod_in running, failed)) w)) ≡ failed
variables_keep true w = refl
variables_keep false w = refl

abbrev created : Calls
created = "create job" ∷ []

placed_waiting :
    place_executors recorder executors (pod_in running) (pod_in running).spec.containers created ≡ (
      none,
      (place_executors recorder executors (pod_in running) (main_container ∷ []) created).1,
      false,
      created,
    )
unfolding place_executors kubejob.Executor.set_pod kubejob.Executor.Command.set_target_pod
    kubejob.Executor.Command.enabled_agent setup_containers kubejob.Execution.waiting_container
    kubejob.Init.Setup.new_executor
placed_waiting = refl

noted_last :
    variables.read
      (run_with_execution_handler recorder variables cancel quiet_handler join false
        (λ w. w)
        plain_job
        []).1
    ≡ variables.read
        (pod_running_callback recorder variables cancel quiet_handler executors
          (pod_in running)
          created).1
unfolding run_with_execution_handler setup_containers kubejob.Execution.waiting_container
    kubejob.Job.run prepare kubejob.Job.wait kubejob.Watch.watch_events kubejob.Job.cleanup
    pod_running_callback call_back place_executors kubejob.Init.Setup.new_executor
    kubejob.Executor.set_pod kubejob.Executor.Command.set_target_pod
    kubejob.Executor.Command.enabled_agent kubejob.Execution.stop_executors kubejob.Executor.stop
    kubejob.Executor.Command.exec_once kubejob.Executor.Command.exec_with_retry
    kubejob.Executor.Normalize.normalize_cmd kubejob.Prelude.join kubejob.Prelude.contains_space
    kubejob.Prelude.trim
noted_last = refl

run_with_execution_handler_nil-Gone_example :
    let r =
      run_with_execution_handler recorder variables cancel quiet_handler join false
        (λ w. w)
        plain_job
        [] in
    let placed =
      (place_executors recorder executors (pod_in running) (main_container ∷ []) created).1 in
    Deleted "kubejob-x" r.1 × (any_failed (quiet_handler placed created).1 ≡ false)
run_with_execution_handler_nil-Gone_example =
    run_with_execution_handler_nil-Gone recorder variables cancel quiet_handler join Deleted
      recorder-Deletes false (λ w. w) plain_job waiting_job waiting executors
      (place_executors recorder executors (pod_in running) (main_container ∷ []) created).1 none
      "kubejob-x" (pod_in running) false [] ("create job" ∷ []) created created setup_plain
      prepare_waiting refl variables_keep placed_waiting noted_last handled_nil
