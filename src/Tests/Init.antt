-- ===== src/Tests/Init.antt =====
-- The hook of the init containers and the pre-init step in the recording cluster.
use kubejob.Prelude.{
  ◌≡◌, refl, true, false, not, none, some, List, [], ◌∷◌, arith, if◌then◌else◌, str_eq,
}
use kubejob.Kube.{Container, Pod, pending}
use kubejob.Agent.{enabled, lookup}
use kubejob.Template.{uses_agent, job_template_command_container}
use kubejob.Init.{JobInit, proceed, is_replaced_command, run}
use kubejob.Init.Setup.{setup_init_containers}
use kubejob.Init.Recognition.{template-not_replaced, agent_init_never_handled}
use kubejob.Init.Order.{IsInOrder, KeepsOrder, run-KeepsOrder}
use kubejob.Init.Prepared.{Prepared, extended, setup-Prepared}
use kubejob.PreInit.{PreInit}
use kubejob.PreInit
use kubejob.Logs.{ContainerLog, ContainerLogger, container_log}
use kubejob.PreInit.Logging.{run-logger}
use kubejob.Executor.{JobExecutor}
use kubejob.Tests.Data.{
  recorder, Calls, agent_config, first_init, one_hook, executor_of, pod_in, step_before,
}

template-not_replaced_example :
    is_replaced_command none (job_template_command_container first_init (some agent_config) 5000)
    ≡ not (uses_agent (some agent_config) "first")
template-not_replaced_example = template-not_replaced (some agent_config) first_init 5000

first_enabled : enabled agent_config "first" ≡ true
unfolding enabled lookup
first_enabled = refl

abbrev waiting_pod : Pod
waiting_pod = record (pod_in pending) {
  spec = record (pod_in pending).spec {
    init_containers = job_template_command_container first_init (some agent_config) 5000 ∷ [];
  };
}

agent_init_never_handled_example : run recorder one_hook waiting_pod [] ≡ (proceed, one_hook, [])
agent_init_never_handled_example =
    agent_init_never_handled recorder agent_config (first_init ∷ []) (λ c. 5000) waiting_pod
      one_hook [] refl (first_enabled, tt) refl (omega arith)

abbrev template_pod : Pod
template_pod = record (pod_in pending) {
  spec = record (pod_in pending).spec {
    init_containers = job_template_command_container first_init none 0 ∷ [];
  };
}

hook-IsInOrder : IsInOrder (executor_of first_init ∷ []) 0 one_hook
hook-IsInOrder = record {
  same_length = refl;
  in_range = omega arith;
  used_stopped = tt;
  rest_untouched = refl;
  counted = refl;
  once_each = tt;
  finished = λ h. cc;
}

run-KeepsOrder_example :
    KeepsOrder recorder (executor_of first_init ∷ []) 0 (run recorder one_hook template_pod [])
run-KeepsOrder_example =
    run-KeepsOrder recorder (executor_of first_init ∷ []) 0 one_hook template_pod [] (refl, tt)
      hook-IsInOrder

abbrev unset_hook : JobInit Calls
unset_hook = record one_hook { containers = []; executors = [] }

setup_succeeds : (setup_init_containers (first_init ∷ []) unset_hook none).0 ≡ none
unfolding setup_init_containers kubejob.Init.Setup.assign_port
setup_succeeds = refl

setup-Prepared_example :
    (es : List JobExecutor) × (ds : List Container) × ((setup_init_containers
        (first_init ∷ [])
        unset_hook
        none).1
      ≡ extended unset_hook es ds)
    × Prepared none 0 (first_init ∷ []) es ds
setup-Prepared_example = setup-Prepared (first_init ∷ []) unset_hook none setup_succeeds

abbrev line : ContainerLog
line = record { pod = pod_in pending; container = first_init; log = "hello"; is_finished = false }

abbrev own_logger : ContainerLogger Calls
own_logger log w = log.log ∷ w

step_proceeds : (PreInit.run recorder step_before none (pod_in pending) []).0 ≡ proceed
unfolding PreInit.run kubejob.Executor.set_pod kubejob.Executor.Command.set_target_pod
    kubejob.Executor.Command.enabled_agent kubejob.Executor.stop
    kubejob.Executor.Command.exec_with_retry kubejob.Executor.Command.exec_once
step_proceeds = refl

step_proceeds_own :
    (PreInit.run recorder step_before (some own_logger) (pod_in pending) []).0 ≡ proceed
unfolding PreInit.run kubejob.Executor.set_pod kubejob.Executor.Command.set_target_pod
    kubejob.Executor.Command.enabled_agent kubejob.Executor.stop
    kubejob.Executor.Command.exec_with_retry kubejob.Executor.Command.exec_once
step_proceeds_own = refl

run-logger_example :
    ((PreInit.run recorder step_before (some own_logger) (pod_in pending) []).1.done ≡ true)
    × (container_log recorder
          (PreInit.run recorder step_before (some own_logger) (pod_in pending) []).2
          line
          []
        ≡ (if str_eq "first" "main" then [] else own_logger line []))
run-logger_example =
    run-logger recorder step_before own_logger (pod_in pending) [] line [] refl step_proceeds_own
