-- ===== src/Tests/Executor.antt =====
-- The life of an executor in the recording cluster.
use kubejob.Prelude.{ℕ, ◌≡◌, refl, true, false, none, some, [], ◌∷◌, join, trim, contains_space}
use kubejob.Executor.Command.{Outcome, enabled_agent, exec_once, exec_with_retry}
use kubejob.Executor.Retry.{IsAttempt, exec_with_retry-IsAttempt}
use kubejob.Executor.{
  JobExecutor, status_command, err_duplicate, err_prepare, exec, stop, exec_only, exec_async,
  exec_prepare_command,
}
use kubejob.Executor.Lifecycle.{IsLater, run, run_exec, run_stop, run-IsLater}
use kubejob.Tests.Data.{recorder, executor_of, main_container}

abbrev idle : JobExecutor
idle = executor_of main_container

exec_with_retry-IsAttempt_example :
    (n : ℕ) × IsAttempt recorder idle.target
      ("true" ∷ [])
      9
      []
      (exec_with_retry recorder idle.target ("true" ∷ []) [])
      n
exec_with_retry-IsAttempt_example =
    exec_with_retry-IsAttempt recorder idle.target ("true" ∷ []) 8 [] [] refl

-- The command, and then the exit status for the waiting loop.
exec_calls :
    (exec recorder false idle []).2
    ≡ "exec sh -c echo 0 > /tmp/kubejob-status" ∷ "exec sh -c go version" ∷ "println go version"
      ∷ []
unfolding exec enabled_agent exec_with_retry exec_once join trim contains_space stop exec_only
    kubejob.Executor.Normalize.normalize_cmd
exec_calls = refl

abbrev ended : JobExecutor
ended = record idle { stopped = true }

stopped_first : (stop recorder idle []).0 ≡ none
unfolding stop exec_with_retry enabled_agent exec_once
stopped_first = refl

abbrev busy : JobExecutor
busy = record idle { is_running = true }

abbrev refusal : Outcome
refusal = record { out = ""; err = some err_duplicate }

first_stops : (exec recorder true idle []).1.stopped ≡ true
unfolding exec stop exec_only enabled_agent exec_with_retry exec_once
first_stops = refl

no_agent : enabled_agent idle.target ≡ false
unfolding enabled_agent
no_agent = refl

run-IsLater_example :
    IsLater recorder idle (run recorder true (run_exec ∷ run_exec ∷ run_stop ∷ []) idle []).0
run-IsLater_example = run-IsLater recorder true (run_exec ∷ run_exec ∷ run_stop ∷ []) idle []
