-- ===== src/Execution/Callback.antt =====
-- The callback of `RunWithExecutionHandler` in executor.go, and what its run tells the caller.
use kubejob.Prelude.{
  Option-cases, not, ◌≡◌, refl, sym, ap, ◌∙◌, Bool, true, false, ◌||◌, Option, none, is_some, inl,
  inr, List, [], ◌∷◌, All, arith, Bool-cases, ◌⊎◌,
}
use kubejob.Errors.{Err}
use kubejob.Kube.{Container, Pod}
use kubejob.Cluster.{Cluster}
use kubejob.Executor.{set_pod, JobExecutor, stop}
use kubejob.Execution.{
  handled, find_executor, JobExecutionHandler, stop_executors, call_back, place_executors,
}

abbrev pub any_failed : List JobExecutor → Bool
any_failed [] = false
any_failed (e ∷ es) = is_some e.err || any_failed es

-- Whether a container of the pod is not one of the job.
abbrev pub any_injected : List JobExecutor → List Container → Bool
any_injected all [] = false
any_injected all (c ∷ cs) = not (is_some (find_executor all c.name)) || any_injected all cs

module _ {W : Type 0} (k : Cluster W) where
  -- A stop without an error leaves the executor stopped.
  stop-IsStopped : (e : JobExecutor) (w : W) → (stop k e w).0 ≡ none → (stop k e w).1.stopped ≡ true
  unfolding stop
  stop-IsStopped e w h = ground arith

  stop_executors-AllStopped :
      (es : List JobExecutor) (w : W)
      → (stop_executors k es w).1 ≡ false
      → All (λ e. e.stopped ≡ true) (stop_executors k es w).2
  unfolding stop_executors
  stop_executors-AllStopped [] w h = tt
  stop_executors-AllStopped (e ∷ es) w h = (
    stop-IsStopped e w (ground arith),
    stop_executors-AllStopped es (stop k e w).2 (ground arith),
  )

  -- The world after each executor was stopped, in turn.
  abbrev pub stopped_world : List JobExecutor → W → W
  stopped_world [] w = w
  stopped_world (e ∷ es) w = stopped_world es (stop k e w).2

  -- The executors as these stops leave them.
  abbrev pub stopped_each : List JobExecutor → W → List JobExecutor
  stopped_each [] w = []
  stopped_each (e ∷ es) w = (stop k e w).1 ∷ stopped_each es (stop k e w).2

  -- Whether one of these stops fails.
  abbrev pub stop_fails : List JobExecutor → W → Bool
  stop_fails [] w = false
  stop_fails (e ∷ es) w = is_some (stop k e w).0 || stop_fails es (stop k e w).2

  stop_executors-fails :
      (es : List JobExecutor) (w : W)
      → ((stop_executors k es w).1 ≡ stop_fails es w)
        × ((stop_executors k es w).2 ≡ stopped_each es w)
        × ((stop_executors k es w).3 ≡ stopped_world es w)
  unfolding stop_executors
  stop_executors-fails [] w = (refl, refl, refl)
  stop_executors-fails (e ∷ es) w =
      let (fails, each, world) = stop_executors-fails es (stop k e w).2 in
      (ap (λ b. is_some (stop k e w).0 || b) fails, ap (λ l. (stop k e w).1 ∷ l) each, world)

  stop_executors-failed :
      (es : List JobExecutor) (w : W) → (stop_executors k es w).0 ≡ any_failed es
  unfolding stop_executors
  stop_executors-failed [] w = refl
  stop_executors-failed (e ∷ es) w = ground (arith, stop_executors-failed es (stop k e w).2)

  place_executors-injected :
      (all : List JobExecutor) (pod : Pod) (cs : List Container) (w : W)
      → (place_executors k all pod cs w).0 ≡ none
      → (place_executors k all pod cs w).2 ≡ any_injected all cs
  unfolding place_executors
  place_executors-injected all pod [] w h = refl
  place_executors-injected all pod (c ∷ cs) w h = elim (Option-cases (find_executor all c.name)) [
    | inl e ↦ ground arith
    | inr (d, e) ↦
        let rest = place_executors-injected all pod cs (set_pod k d pod w).2 in
        elim (Option-cases (set_pod k d pod w).0) [
          | inl placed ↦ ground arith
          | inr (x, failed) ↦ absurd (ground arith)
        ]
  ]

  handled-Stops :
      (cancel_fn : W → W) (injected : Bool) (r : Option Err) (es : List JobExecutor) (w : W)
      → let c = handled k cancel_fn injected (r, es, w) in
        (c.result ≡ r)
        × (c.exists_err_container ≡ any_failed es)
        × (c.executors ≡ stopped_each es w)
        × (((injected ≡ false)
              × (stop_fails es w ≡ false)
              × All (λ e. e.stopped ≡ true) c.executors
              × (c.world ≡ stopped_world es w))
            ⊎ (((injected || stop_fails es w) ≡ true) × (c.world ≡ cancel_fn (stopped_world es w))))
  handled-Stops cancel_fn injected r es w = (
    refl,
    stop_executors-failed es w,
    (stop_executors-fails es w).1,
    let (fails, each, world) = stop_executors-fails es w in
        elim (Bool-cases (injected || (stop_executors k es w).1)) [
          | inl force ↦ inr (ap (λ b. injected || b) (sym fails) ∙ force, ground arith)
          | inr calm ↦ inl (
            ground arith,
            ground arith,
            stop_executors-AllStopped es w (ground arith),
            ground arith,
          )
        ],
  )

  -- When the executors of the containers are placed, the handler is called with them and its result
  -- is that of the callback. Whatever it is, the executors that it leaves are stopped in turn, and
  -- the callback notes whether one of them had an error. If no container was injected and no stop
  -- fails, then all of them are stopped and nothing else is done; else the run is cancelled.
  pub call_back-Stops :
      (cancel_fn : W → W) (handler : JobExecutionHandler W) (all es : List JobExecutor) (pod : Pod)
      (injected : Bool) (w w' : W)
      → place_executors k all pod pod.spec.containers w ≡ (none, es, injected, w')
      → let c = call_back k cancel_fn handler all pod w in
        (c.result ≡ (handler es w').0)
        × (c.exists_err_container ≡ any_failed (handler es w').1)
        × (c.executors ≡ stopped_each (handler es w').1 (handler es w').2)
        × (((any_injected all pod.spec.containers ≡ false)
              × (stop_fails (handler es w').1 (handler es w').2 ≡ false)
              × All (λ e. e.stopped ≡ true) c.executors
              × (c.world ≡ stopped_world (handler es w').1 (handler es w').2))
            ⊎ (((any_injected all pod.spec.containers
                    || stop_fails (handler es w').1 (handler es w').2)
                  ≡ true)
                × (c.world ≡ cancel_fn (stopped_world (handler es w').1 (handler es w').2))))
  unfolding call_back
  call_back-Stops cancel_fn handler all es pod injected w w' h =
      let known = place_executors-injected all pod pod.spec.containers w (ap (λ r. r.0) h) in
      let same : injected ≡ any_injected all pod.spec.containers = sym (ap (λ r. r.2) h) ∙ known in
      rw (h, sym same)
        (handled-Stops cancel_fn injected (handler es w').0 (handler es w').1 (handler es w').2)
