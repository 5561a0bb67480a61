-- ===== src/Tests/Job.antt =====
-- `Run` and its cleanup in the recording cluster.
use kubejob.Prelude.{
  member, eq_refl, arith, ◌<>◌, ap, String, ◌≡◌, refl, true, false, ◌++◌, Option, none, some, List,
  [], ◌∷◌,
}
use kubejob.Errors.{Err, err}
use kubejob.Watch.{remember, Task, returns}
use kubejob.Job.{Job, prepare, run, wait, cleanup, cleanup_result, label_selector}
use kubejob.Job.Cleanup.{cleanup_lem, error_of, failures, listed, after_deletes}
use kubejob.Job.Lifetime.{creation, named, run_nil-Gone, Deletes}
use kubejob.Cluster.{Cluster}
use kubejob.Executor.{err_duplicate}
use kubejob.Tests.Data.{recorder, Calls, batch_job, step_before, one_hook}

abbrev pub plain_job : Job Calls
plain_job = record {
  batch = batch_job;
  pre_init = none;
  job_init = none;
  container_logger = none;
  agent_cfg = none;
}

abbrev pub join : Option Err → List Task → Calls → Option Err × Calls
join e tasks w = (e, "join" ∷ w)

prepare_plain : prepare plain_job ≡ (none, plain_job)
unfolding prepare
prepare_plain = refl

cleanup_lem_example :
    let (e, w1) = recorder.delete_job "" [] in
    let (pods, e', w2) = recorder.list_pods (label_selector batch_job) w1 in
    cleanup recorder batch_job [] ≡ (
      cleanup_result "" (
          error_of "failed to delete job" e
          ++ (error_of "failed to list pod" e' ++ failures recorder (listed pods) w2)),
      after_deletes recorder (listed pods) w2,
    )
cleanup_lem_example = cleanup_lem recorder batch_job []

abbrev full_job : Job Calls
full_job = record plain_job {
  pre_init = some step_before;
  job_init = some (record one_hook { containers = []; executors = [] });
}

abbrev full_prepared : Job Calls
full_prepared = (prepare full_job).1

prepare_full : prepare full_job ≡ (none, full_prepared)
unfolding prepare kubejob.Init.Setup.setup_init_containers kubejob.Init.Setup.assign_port
    kubejob.PreInit.setup_pre_init_container
prepare_full = refl

abbrev refusing : Cluster Calls
refusing = record recorder { create_job = λ b w. (err err_duplicate, "create job" ∷ w) }

not_created : (creation refusing join plain_job []).0 ≡ none
unfolding prepare
not_created = refl

abbrev named_job : Job Calls
named_job = named plain_job "kubejob-x"

-- The calls that a run with no events makes.
run_calls :
    run recorder join false (λ w. w) plain_job []
    ≡ (returns none, "delete job kubejob-x" ∷ "join" ∷ "create job" ∷ [])
unfolding run prepare wait kubejob.Watch.watch_events cleanup
run_calls = refl

-- In the trace of the recorder: the job was deleted.
abbrev pub Deleted : String → Calls → Type 0
Deleted name w = member w ("delete job " <> name) ≡ true

pub recorder-Deletes : Deletes recorder Deleted
recorder-Deletes = record {
  by_delete = λ name w h. ground (arith, eq_refl ("delete job " <> name));
  by_list = λ name s w h. h;
  by_pod = λ name pod w h. ground arith;
}

run_nil-Gone_example : Deleted "kubejob-x" (run recorder join false (λ w. w) plain_job []).1
run_nil-Gone_example =
    run_nil-Gone recorder join Deleted recorder-Deletes false (λ w. w) plain_job plain_job
      "kubejob-x" [] ("create job" ∷ []) prepare_plain refl (ap (λ r. r.0) run_calls)
