-- ===== src/PreInit.antt =====
-- preinit.go: the step before the init containers, in a container that the job adds.
pub mod Logging
use kubejob.Prelude.{
  Bool, true, false, not, ◌&&◌, ◌||◌, Option, none, some, List, [], ◌∷◌, str_eq, if◌then◌else◌,
}
use kubejob.Kube.{Pod, PodStatus, Container, ContainerStatus, phase_eq, pending}
use kubejob.Errors.{Err, ok, err, wrapped, err_pre_init}
use kubejob.Agent.{AgentConfig}
use kubejob.Template.{job_template_command_container}
use kubejob.Cluster.{Cluster}
use kubejob.Executor.{JobExecutor, set_pod, stop}
use kubejob.Logs.{ContainerLogger}
use kubejob.Init.{Handler, Signal, proceed, fail, panic}
use kubejob.Init.Setup.{assign_port, new_executor}

-- `exec` is nil until the setup.
pub record PreInit (W : Type 0) : Type 0 where
  pub exec : Option JobExecutor
  pub container : Container
  pub callback : Option (Handler W)
  pub done : Bool

abbrev waits_in : Container → List ContainerStatus → Bool
waits_in c [] = false
waits_in c (s ∷ ss) = (str_eq s.name c.name && s.state.running) || waits_in c ss

module _ {W : Type 0} where
  -- `(*Job).PreInit`
  unfoldable pub pre_init : Container → Option (Handler W) → PreInit W
  pre_init c cb = record { exec = none; container = c; callback = cb; done = false }

  -- `setupPreInitContainer`
  unfoldable pub setup_pre_init_container :
      PreInit W → Option AgentConfig → Option Err × PreInit W × Option AgentConfig
  setup_pre_init_container p cfg =
      let (r, cfg') = assign_port cfg p.container in
      elim r [
        | err e ↦ (some e, p, cfg')
        | ok (c, port) ↦ (
          none,
          record p {
            container = job_template_command_container c cfg' port;
            exec = some (new_executor c 0 cfg' port);
          },
          cfg',
        )
      ]

  -- `needsToRun`
  unfoldable pub needs_to_run : Option (PreInit W) → PodStatus → Bool
  needs_to_run none status = false
  needs_to_run (some p) status =
      not p.done
      && (phase_eq status.phase pending && waits_in p.container status.init_container_statuses)

  -- The logger that `run` puts in place of the one that the job had.
  unfoldable pub quiet_logger : Container → Option (ContainerLogger W) → ContainerLogger W
  quiet_logger c none log w = w
  quiet_logger c (some logger) log w = if str_eq log.container.name c.name then w else logger log w

-- The pre-init step, the container logger of the job, and the world.
abbrev pub Step : Type 0 → Type 0
Step W = Signal × PreInit W × Option (ContainerLogger W) × W

module _ {W : Type 0} (k : Cluster W) where
  abbrev put_exec : PreInit W → JobExecutor → PreInit W
  put_exec p e = record p { exec = some e }

  ended : PreInit W → Option (ContainerLogger W) → Option Err × JobExecutor × W → Step W
  ended p logger (some x, e, w) = (fail x, record p { exec = some e; done = true }, logger, w)
  ended p logger (none, e, w) = (proceed, record p { exec = some e; done = true }, logger, w)

  called : PreInit W → Option (ContainerLogger W) → Option Err × JobExecutor × W → Step W
  unfolding ended
  called p logger (some x, e, w) = (fail (err_pre_init x), put_exec p e, logger, w)
  called p logger (none, e, w) = ended p logger (stop k e w)

  call_back : Option (Handler W) → JobExecutor → W → Option Err × JobExecutor × W
  call_back none e w = (none, e, w)
  call_back (some cb) e w = cb e w

  placed : PreInit W → Option (ContainerLogger W) → Option Err × JobExecutor × W → Step W
  unfolding called call_back
  placed p logger (some x, e, w) = (
    fail (wrapped "job: failed to set corev1.Pod to preinit executor instance" x),
    put_exec p e,
    logger,
    w,
  )
  placed p logger (none, e, w) =
      called p (some (quiet_logger p.container logger)) (call_back p.callback e w)

  -- `run`
  unfoldable pub run : PreInit W → Option (ContainerLogger W) → Pod → W → Step W
  unfolding placed
  run p logger pod w = if p.done then (proceed, p, logger, w) else elim p.exec [
    | none ↦ (panic, p, logger, w)
    | some e ↦ placed p logger (set_pod k e pod w)
  ]
