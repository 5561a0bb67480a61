-- ===== src/Execution/Outcome.antt =====
-- What a result nil of `RunWithExecutionHandler` in executor.go tells.
use kubejob.Prelude.{
  ◌||◌, String, ◌≡◌, refl, sym, ap, ◌∙◌, subst, Bool, true, false, Option, none, some, List, arith,
}
use kubejob.Errors.{Err, ok}
use kubejob.Kube.{Pod, Container}
use kubejob.Agent.{AgentConfig}
use kubejob.Cluster.{Cluster}
use kubejob.Executor.{JobExecutor}
use kubejob.Watch.{Task, Verdict, returns, panics, next}
use kubejob.Job.{Job, prepare}
use kubejob.Job
use kubejob.Job.Lifetime.{Deletes, run_nil-Gone}
use kubejob.Execution.Callback.{any_failed, call_back-Stops}
use kubejob.Execution.{
  place_executors, call_back, after_setup, JobExecutionHandler, Variables, Noted, exists_err,
  end_of_run, setup_containers, with_containers, pod_running_callback, run_with_execution_handler,
}

module _ {W : Type 0} where
  end_nil :
      (n : Noted) (r : Verdict × W)
      → (end_of_run n r).0 ≡ returns none
      → (end_of_run n r ≡ r) × (exists_err n ≡ false)
  end_nil none r h = (refl, refl)
  end_nil (some (pod, false)) r h = (refl, refl)
  end_nil (some (pod, true)) (next, w) h = absurd (cc h)
  end_nil (some (pod, true)) (panics, w) h = absurd (cc h)
  end_nil (some (pod, true)) (returns none, w) h = absurd (ground arith)
  end_nil (some (pod, true)) (returns (some x), w) h = absurd (ground arith)

module _ {W : Type 0} (k : Cluster W) (v : Variables W) (cancel_fn : W → W)
    (handler : JobExecutionHandler W)
    (join : (Pod → W → Option Err × W) → Option Err → List Task → W → Option Err × W)
    (Gone : String → W → Type 0) (d : Deletes k Gone) where
  abbrev handled_run : Bool → (W → W) → Job W → W → Verdict × W
  handled_run = run_with_execution_handler k v cancel_fn handler join

  -- What the callback notes is whether an executor had an error, now or at an earlier call.
  callback_notes :
      (es placed : List JobExecutor) (pod : Pod) (injected : Bool) (wc wc' : W)
      → ((failed : Bool) (u : W) → exists_err (v.read (v.write (some (pod, failed)) u)) ≡ failed)
      → place_executors k es pod pod.spec.containers wc ≡ (none, placed, injected, wc')
      → exists_err (v.read (pod_running_callback k v cancel_fn handler es pod wc).1)
        ≡ (exists_err (v.read wc) || any_failed (handler placed wc').1)
  unfolding pod_running_callback
  callback_notes es placed pod injected wc wc' keeps p =
      let (result, noted, each, stops) =
        call_back-Stops k cancel_fn handler es placed pod injected wc wc' p in
      let c = call_back k cancel_fn handler es pod wc in
      keeps (exists_err (v.read wc) || c.exists_err_container) c.world
      ∙ ap (λ b. exists_err (v.read wc) || b) noted

  -- In a cluster as `Deletes` describes it: when `RunWithExecutionHandler` has created its job and
  -- returns nil, and the variables are at the end as a call of the callback left them, which had
  -- placed its executors in the pod, then the job is gone, and no executor had an error when the
  -- handler of that call returned.
  pub run_with_execution_handler_nil-Gone :
      (cancelled : Bool) (interrupted : W → W) (j j' : Job W) (cs : List Container)
      (es placed : List JobExecutor) (cfg : Option AgentConfig) (name : String) (pod : Pod)
      (injected : Bool) (w w1 wc wc' : W)
      → setup_containers 0 j.batch.spec.containers j.agent_cfg ≡ (none, cs, es, cfg)
      → prepare (with_containers j cs cfg) ≡ (none, j')
      → k.create_job j'.batch (v.write none w) ≡ (ok name, w1)
      → ((failed : Bool) (u : W) → exists_err (v.read (v.write (some (pod, failed)) u)) ≡ failed)
      → place_executors k es pod pod.spec.containers wc ≡ (none, placed, injected, wc')
      → v.read (handled_run cancelled interrupted j w).1
        ≡ v.read (pod_running_callback k v cancel_fn handler es pod wc).1
      → (handled_run cancelled interrupted j w).0 ≡ returns none
      → Gone name (handled_run cancelled interrupted j w).1
        × (any_failed (handler placed wc').1 ≡ false)
  unfolding run_with_execution_handler after_setup
  run_with_execution_handler_nil-Gone cancelled interrupted j j' cs es placed cfg name pod injected
        w w1 wc wc' h p c keeps put last nil =
      let r =
        Job.run k (join (pod_running_callback k v cancel_fn handler es)) cancelled interrupted
          (with_containers j cs cfg) (v.write none w) in
      let whole : handled_run cancelled interrupted j w ≡ end_of_run (v.read r.1) r =
        ap (after_setup k v cancel_fn handler join cancelled interrupted j w) h in
      let (same, calm) = end_nil (v.read r.1) r (sym (ap (λ x. x.0) whole) ∙ nil) in
      let eq : handled_run cancelled interrupted j w ≡ r = whole ∙ same in
      let noted : exists_err (v.read r.1)
          ≡ (exists_err (v.read wc) || any_failed (handler placed wc').1) =
        ap (λ x. exists_err (v.read x.1)) (sym eq)
        ∙ ap exists_err last
        ∙ callback_notes es placed pod injected wc wc' keeps put in
      (
        subst (λ x. Gone name x.1) (sym eq)
            (run_nil-Gone k (join (pod_running_callback k v cancel_fn handler es)) Gone d cancelled
              interrupted (with_containers j cs cfg) j' name (v.write none w) w1 p c
              (sym (ap (λ x. x.0) eq) ∙ nil)),
        ground (arith, noted, calm),
      )
