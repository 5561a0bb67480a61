-- ===== src/Executor.antt =====
-- executor.go, agent_client.go: an executor runs commands in one container of a pod.
pub mod Normalize
pub mod Authorization
pub mod Command
pub mod Retry
pub mod Lifecycle
use kubejob.Prelude.{
  String, Bool, true, false, not, Option, none, some, List, [], ◌∷◌, ◌++◌, is_some, is_empty, join,
  if◌then◌else◌,
}
use kubejob.Kube.{Pod, Container}
use kubejob.Errors.{Err, plain, failed_job, cause, err_stop_container}
use kubejob.Cluster.{Cluster}
use Command.{
  Target, Outcome, enabled_agent, pod_of, connection_of, set_target_pod, exec_with_retry,
  agent_client_stop,
}

-- The fields of `JobExecutor`; those that say where it runs are its target.
pub record JobExecutor : Type 0 where
  pub target : Target
  pub command : List String
  pub args : List String
  pub is_running : Bool
  pub stopped : Bool
  pub err : Option Err

abbrev pub set_is_running : JobExecutor → Bool → JobExecutor
set_is_running e b = record e { is_running = b }

-- The command that the waiting loop of util.go takes its exit status from.
abbrev pub status_command : Option Err → List String
status_command e = "echo" ∷ (if is_some e then "1" else "0") ∷ ">" ∷ "/tmp/kubejob-status" ∷ []

abbrev pub command_line : JobExecutor → List String
command_line e = e.command ++ e.args

abbrev pub termination_message_path_default : String
termination_message_path_default = "/dev/termination-log"

abbrev pub termination_path : Container → String
termination_path c =
    if is_empty c.termination_message_path
    then termination_message_path_default
    else c.termination_message_path

-- `&FailedJob{Pod: e.Pod, Reason: err}`
abbrev pub failure : Pod → Option Err → Option Err
failure pod none = none
failure pod (some x) = some (failed_job pod (cause x))

abbrev pub err_prepare : Err
err_prepare = plain "job: failed to run prepare command. main command is already executed"

abbrev pub err_duplicate : Err
err_duplicate = plain "job: duplicate command error. command is already executed"

abbrev pub err_not_executed : Err
err_not_executed = plain "job: must be executed command before sending termination log"

abbrev pub err_already_stopped : Err
err_already_stopped =
    plain "job: failed to send termination log because container has already been stopped"

module _ {W : Type 0} (k : Cluster W) where
  -- `setPod`
  unfoldable pub set_pod : JobExecutor → Pod → W → Option Err × JobExecutor × W
  set_pod e pod w =
      let (r, t, w') = set_target_pod k e.target pod w in (r, record e { target = t }, w')

  stop_outcome : JobExecutor → Option Err × W → Option Err × JobExecutor × W
  stop_outcome e (some x, w) = (some (err_stop_container x), record e { is_running = false }, w)
  stop_outcome e (none, w) = (none, record e { is_running = false; stopped = true }, w)

  abbrev err_of : Outcome × W → Option Err × W
  err_of (o, w) = (o.err, w)

  -- `Stop`
  unfoldable pub stop : JobExecutor → W → Option Err × JobExecutor × W
  unfolding stop_outcome
  stop e w =
      if e.stopped
      then (none, e, w)
      else if enabled_agent e.target
      then stop_outcome e (agent_client_stop k (connection_of e.target) w)
      else stop_outcome e (err_of (exec_with_retry k e.target (status_command e.err) w))

  abbrev pub echo : Bool → List String → W → W
  echo disabled_command_log cmd w = if disabled_command_log then w else k.println (join cmd " ") w

  abbrev prepared : JobExecutor → Outcome × W → Outcome × JobExecutor × W
  prepared e (o, w) = (o, e, w)

  -- `ExecPrepareCommand`; the flag is `disabledCommandLog` of the job.
  unfoldable pub exec_prepare_command :
      Bool → JobExecutor → List String → W → Outcome × JobExecutor × W
  exec_prepare_command disabled_command_log e cmd w =
      if e.is_running
      then (record { out = ""; err = some err_prepare }, e, w)
      else prepared e (exec_with_retry k e.target cmd (echo disabled_command_log cmd w))

  ran : JobExecutor → Outcome × W → Outcome × JobExecutor × W
  ran e (o, w) = (
    record { out = o.out; err = failure (pod_of e.target) o.err },
    record e { is_running = true; err = o.err },
    w,
  )

  -- `ExecOnly`. The check of the flag and its setting are two steps of the code, each under the lock;
  -- this is the operation when no other one of the executor comes between them.
  unfoldable pub exec_only : Bool → JobExecutor → W → Outcome × JobExecutor × W
  unfolding ran
  exec_only disabled_command_log e w =
      if e.is_running
      then (record { out = ""; err = some err_duplicate }, e, w)
      else ran e (
          exec_with_retry k e.target (command_line e)
            (echo disabled_command_log (command_line e) w))

  -- The deferred `Stop` of `Exec`: its error is only logged.
  and_stop : Outcome × JobExecutor × W → Outcome × JobExecutor × W
  and_stop (o, e, w) = let (r, e', w') = stop e w in (o, e', w')

  -- `Exec`
  unfoldable pub exec : Bool → JobExecutor → W → Outcome × JobExecutor × W
  unfolding and_stop
  exec disabled_command_log e w = and_stop (exec_only disabled_command_log e w)

  -- `ExecAsync` up to the start of its goroutine, when no other operation comes between the check of
  -- the flag and its setting.
  unfoldable pub exec_async : Bool → JobExecutor → W → Option Err × JobExecutor × W
  exec_async disabled_command_log e w =
      if e.is_running
      then (some err_duplicate, e, w)
      else (none, set_is_running e true, echo disabled_command_log (command_line e) w)

  abbrev finish : JobExecutor → Outcome × W → JobExecutor × W
  finish e (o, w) = let (r, e', w') = stop (record e { err = o.err }) w in (e', w')

  -- The goroutine of `ExecAsync`.
  unfoldable pub exec_async_body : JobExecutor → W → JobExecutor × W
  exec_async_body e w = finish e (exec_with_retry k e.target (command_line e) w)

  abbrev noted : JobExecutor → Outcome × W → Option Err × JobExecutor × W
  noted e (o, w) = (o.err, e, w)

  -- `TerminationLog`
  unfoldable pub termination_log : JobExecutor → String → W → Option Err × JobExecutor × W
  termination_log e log w =
      if not e.is_running
      then (some err_not_executed, e, w)
      else if e.stopped
      then (some err_already_stopped, e, w)
      else if enabled_agent e.target
      then (none, e, w)
      else noted e (
          exec_with_retry k e.target ("echo" ∷ log ∷ ">" ∷ termination_path e.target.container ∷ [])
            w)
