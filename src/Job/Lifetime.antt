-- ===== src/Job/Lifetime.antt =====
-- `Run` of job.go: what is created, and that it is cleaned up.
use kubejob.Prelude.{
  member, inr, inl, Option-cases, String, ◌≡◌, refl, sym, ap, subst, ◌∙◌, Bool, true, Option, none,
  some, List, [], ◌∷◌, ◌++◌, arith, if◌then◌else◌, eq_refl,
}
use kubejob.Kube.{Pod, BatchJob, Container}
use kubejob.Errors.{Result-cases, Err, ok, err, err_job_creation}
use kubejob.Cluster.{Cluster}
use kubejob.Init.{JobInit}
use kubejob.PreInit.{PreInit}
use kubejob.Watch.{Task, Verdict, next, returns, panics}
use kubejob.Job.{
  Job, prepare, run, wait, cleanup, combine, label_selector, with_cleanup, cleanup_result,
}
use kubejob.Job.Cleanup.{cleanup_lem, after_deletes, error_of}

module _ {W : Type 0} where
  abbrev pub pre_init_containers : Option (PreInit W) → List Container
  pre_init_containers none = []
  pre_init_containers (some p) = p.container ∷ []

  abbrev pub hook_containers : Option (JobInit W) → List Container → List Container
  hook_containers none original = original
  hook_containers (some i) original = i.containers

  -- Whether the hook, if there is one, takes the container of the pre-init step for executed.
  abbrev pub counts_pre_init : Option (PreInit W) → Option (JobInit W) → Bool
  counts_pre_init none i = true
  counts_pre_init (some p) none = true
  counts_pre_init (some p) (some i) = member i.executed p.container.name

  -- In the job that is created, the container of the pre-init step comes first, and then those that
  -- the hook has prepared, or the original ones with no hook. The hook counts the original
  -- container of the pre-init step as executed.
  pub prepare-init_containers :
      (j j' : Job W)
      → prepare j ≡ (none, j')
      → (j'.batch.spec.init_containers
          ≡ pre_init_containers j'.pre_init
            ++ hook_containers j'.job_init j.batch.spec.init_containers)
        × (counts_pre_init j.pre_init j'.job_init ≡ true)
  unfolding prepare
  prepare-init_containers j j' h = (
    ground arith,
    elim (Option-cases j.pre_init) [
      | inl e ↦ ground arith
      | inr (p, e) ↦ ground (arith, eq_refl p.container.name)
    ],
  )

abbrev pub named : {W : Type 0} → Job W → String → Job W
named j name = record j { batch = record j.batch { name = name } }

module _ {W : Type 0} (k : Cluster W) where
  -- What is assumed of the cluster: a deletion that succeeds removes the job, and neither listing
  -- nor deleting pods brings it back.
  pub record Deletes (Gone : String → W → Type 0) : Type 0 where
    pub by_delete :
        (name : String) (w : W) → (k.delete_job name w).0 ≡ none → Gone name (k.delete_job name w).1
    pub by_list : (name s : String) (w : W) → Gone name w → Gone name (k.list_pods s w).2
    pub by_pod : (name pod : String) (w : W) → Gone name w → Gone name (k.delete_pod pod w).1

module _ {W : Type 0} (k : Cluster W) (join : Option Err → List Task → W → Option Err × W) where
  -- The name of the job that a run creates, if it comes to that, and the world then.
  abbrev pub creation : Job W → W → Option String × W
  creation j w = elim (prepare j).0 [
    | some x ↦ (none, w)
    | none ↦ elim (k.create_job (prepare j).1.batch w).0 [
      | ok name ↦ (some name, (k.create_job (prepare j).1.batch w).1)
      | err x ↦ (none, (k.create_job (prepare j).1.batch w).1)
    ]
  ]

  -- A run that creates no job returns an error, and does nothing after that: it cleans nothing up and
  -- watches nothing, whatever became of the context.
  pub run_not_created :
      (cancelled : Bool) (interrupted : W → W) (j : Job W) (w : W)
      → (creation j w).0 ≡ none
      → (x : Err) × (run k join cancelled interrupted j w ≡ (returns (some x), (creation j w).1))
  unfolding run
  run_not_created cancelled interrupted j w h = elim (Option-cases (prepare j).0) [
    | inr (x, e) ↦ (x, ground arith)
    | inl e ↦ elim (Result-cases (k.create_job (prepare j).1.batch w).0) [
      | inr (x, f) ↦
          let b = (prepare j).1.batch in (err_job_creation b.name b.generate_name x, ground arith)
      | inl (name, f) ↦ absurd (ground arith)
    ]
  ]

  -- How a run that has created its job comes to its end.
  abbrev pub ended : Bool → (W → W) → Job W → W → Verdict × W
  ended cancelled interrupted j w =
      if cancelled then (returns none, interrupted w) else wait k join j w

  -- Once the job is created, `Run` ends with a cleanup of the job under the name that it was given,
  -- when the watch has returned, with whatever result, and when the context is done. Its result
  -- is that of the watch, or nil, combined with that of the cleanup.
  pub run_cleans_up :
      (cancelled : Bool) (interrupted : W → W) (j j' : Job W) (name : String) (w w1 w2 : W)
      (e : Option Err)
      → prepare j ≡ (none, j')
      → k.create_job j'.batch w ≡ (ok name, w1)
      → ended cancelled interrupted (named j' name) w1 ≡ (returns e, w2)
      → run k join cancelled interrupted j w
        ≡ (let (c, v) = cleanup k (named j' name).batch w2 in (returns (combine e c), v))
  unfolding run
  run_cleans_up cancelled interrupted j j' name w w1 w2 e h c d = ground arith

  module _ (Gone : String → W → Type 0) (d : Deletes k Gone) where
    after_deletes-Gone :
        (name : String) (pods : List Pod) (w : W) → Gone name w → Gone name (after_deletes k pods w)
    unfolding after_deletes
    after_deletes-Gone name [] w h = h
    after_deletes-Gone name (pod ∷ pods) w h =
        after_deletes-Gone name pods (k.delete_pod pod.name w).1 (d.by_pod name pod.name w h)

    no_error :
        (name text : String) (e : Option Err) (es : List Err)
        → cleanup_result name (error_of text e ++ es) ≡ none
        → e ≡ none
    no_error name text none es h = refl
    no_error name text (some e) es h = cc

    cleanup-Gone :
        (batch : BatchJob) (w : W)
        → (cleanup k batch w).0 ≡ none
        → Gone batch.name (cleanup k batch w).1
    cleanup-Gone batch w h =
        let eq = cleanup_lem k batch w in
        let deleted =
          no_error batch.name "failed to delete job" (k.delete_job batch.name w).0 _
            (sym (ap (λ r. r.0) eq) ∙ h) in
        subst (λ r. Gone batch.name r.1) (sym eq)
          (after_deletes-Gone batch.name _ _
            (d.by_list batch.name (label_selector batch) _ (d.by_delete batch.name w deleted)))

    combine-none : (e c : Option Err) → combine e c ≡ none → c ≡ none
    combine-none e none h = refl
    combine-none none (some c) h = cc
    combine-none (some e) (some c) h = cc

    with_cleanup-Gone :
        (batch : BatchJob) (r : Verdict × W)
        → (with_cleanup k join batch r).0 ≡ returns none
        → Gone batch.name (with_cleanup k join batch r).1
    unfolding with_cleanup
    with_cleanup-Gone batch (next, w) h = cc
    with_cleanup-Gone batch (panics, w) h = cc
    with_cleanup-Gone batch (returns e, w) h =
        cleanup-Gone batch w (combine-none e _ (ground arith))

    run_created :
        (cancelled : Bool) (interrupted : W → W) (j j' : Job W) (name : String) (w w1 : W)
        → prepare j ≡ (none, j')
        → k.create_job j'.batch w ≡ (ok name, w1)
        → run k join cancelled interrupted j w
          ≡ with_cleanup k join
              (named j' name).batch
              (if cancelled then (returns none, interrupted w1) else wait k join (named j' name) w1)
    unfolding run
    run_created cancelled interrupted j j' name w w1 h c = ground arith

    -- In a cluster as `Deletes` describes it: when `Run` has created a job and returns nil, that job
    -- is gone.
    pub run_nil-Gone :
        (cancelled : Bool) (interrupted : W → W) (j j' : Job W) (name : String) (w w1 : W)
        → prepare j ≡ (none, j')
        → k.create_job j'.batch w ≡ (ok name, w1)
        → (run k join cancelled interrupted j w).0 ≡ returns none
        → Gone name (run k join cancelled interrupted j w).1
    run_nil-Gone cancelled interrupted j j' name w w1 h c nil =
        let eq = run_created cancelled interrupted j j' name w w1 h c in
        subst (λ r. Gone name r.1) (sym eq)
          (with_cleanup-Gone (named j' name).batch _ (sym (ap (λ r. r.0) eq) ∙ nil))
