-- ===== src/PreInit/Logging.antt =====
-- What `run` of preinit.go leaves of the step and of the job's container logger.
use kubejob.Prelude.{◌≡◌, true, false, none, some, arith, str_eq, if◌then◌else◌}
use kubejob.Kube.{Pod}
use kubejob.Cluster.{Cluster}
use kubejob.Init.{proceed}
use kubejob.Logs.{ContainerLog, ContainerLogger, container_log}
use kubejob.PreInit.{PreInit, quiet_logger, run}

module _ {W : Type 0} (k : Cluster W) where
  -- After a step that proceeds, the step is done, and the logs of its container are dropped while
  -- those of the others reach the logger that the job had.
  pub run-logger :
      (p : PreInit W) (logger : ContainerLogger W) (pod : Pod) (w : W) (log : ContainerLog) (v : W)
      → p.done ≡ false
      → (run k p (some logger) pod w).0 ≡ proceed
      → ((run k p (some logger) pod w).1.done ≡ true)
        × (container_log k (run k p (some logger) pod w).2 log v
            ≡ (if str_eq log.container.name p.container.name then v else logger log v))
  unfolding run container_log quiet_logger
  run-logger p logger pod w log v fresh went = ground arith

  -- With no logger of its own the job prints container logs to the standard error before the step,
  -- and no log of any container after it.
  pub run_silences_default :
      (p : PreInit W) (pod : Pod) (w : W) (log : ContainerLog) (v : W)
      → p.done ≡ false
      → (run k p none pod w).0 ≡ proceed
      → log.is_finished ≡ false
      → (container_log k none log v ≡ k.eprint log.log v)
        × (container_log k (run k p none pod w).2 log v ≡ v)
  unfolding run container_log quiet_logger
  run_silences_default p pod w log v fresh went open_ = ground arith
