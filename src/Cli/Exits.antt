-- ===== src/Cli/Exits.antt =====
-- What the exit code of the command says of the job.
use kubejob.Prelude.{
  String, ◌≡◌, refl, sym, ap, ◌∙◌, Bool, Option, none, some, List, is_empty, ◌&&◌, if-elim, subst,
}
use kubejob.Errors.{Err, Result, ok, err}
use kubejob.Cluster.{Cluster}
use kubejob.Watch.{Task, Verdict, next, returns, panics}
use kubejob.Job.{Job, run, prepare}
use kubejob.Job.Lifetime.{Deletes, run_nil-Gone}
use kubejob.Cli.{
  CliOptions, Surroundings, exited, kubejob_main, requested, exit_of, in_namespace, configured,
  run_requested, main_with, namespace_of, load_config,
}

module _ {W : Type 0} (k : Cluster W) (join : Option Err → List Task → W → Option Err × W)
    (cancelled : Bool) (interrupted : W → W) where
  exit_of-zero :
      (report : Err → W → W) (r : Verdict × W)
      → (exit_of k join cancelled interrupted report r).0 ≡ exited 0
      → (r.0 ≡ returns none) × ((exit_of k join cancelled interrupted report r).1 ≡ r.1)
  exit_of-zero report (returns none, w) h = (refl, refl)
  exit_of-zero report (returns (some e), w) h = absurd (cc h)
  exit_of-zero report (panics, w) h = absurd (cc h)
  exit_of-zero report (next, w) h = absurd (cc h)

  module _ (s : Surroundings) (args : List String) (opt : CliOptions) (job : Job W)
      (asked : requested s args opt ≡ ok job) where
    in_namespace-run :
        (o : Option (Result String)) (w : W)
        → (in_namespace k join cancelled interrupted s args opt o w).0 ≡ returns none
        → in_namespace k join cancelled interrupted s args opt o w
          ≡ run k join cancelled interrupted job w
    in_namespace-run none w h = absurd (cc h)
    in_namespace-run (some (err e)) w h = absurd (cc h)
    in_namespace-run (some (ok ns)) w h =
        ap (λ r. run_requested k join cancelled interrupted r w) asked

    configured-run :
        (e : Option Err) (w : W)
        → (configured k join cancelled interrupted s args opt e w).0 ≡ returns none
        → configured k join cancelled interrupted s args opt e w
          ≡ run k join cancelled interrupted job w
    configured-run (some e) w h = absurd (cc h)
    configured-run none w h = in_namespace-run (namespace_of s opt) w h

    -- Where `_main` returns nil, it has run the job.
    main_with-run :
        (w : W)
        → (main_with k join cancelled interrupted s args opt w).0 ≡ returns none
        → main_with k join cancelled interrupted s args opt w
          ≡ run k join cancelled interrupted job w
    unfolding main_with
    main_with-run w =
        if-elim
          (λ (r : Verdict × W). r.0 ≡ returns none → r ≡ run k join cancelled interrupted job w)
          (is_empty opt.image && is_empty opt.file) _ _ (λ e h. absurd (cc h))
          (λ e h. configured-run (load_config s) w h)

module _ {W : Type 0} (k : Cluster W) (join : Option Err → List Task → W → Option Err × W)
    (Gone : String → W → Type 0) (d : Deletes k Gone) where
  -- In a cluster as `Deletes` describes it: when the arguments could be parsed and ask for a job, which
  -- the command has created, and the command exits with 0, then that job is gone.
  pub kubejob_main-Gone :
      (cancelled : Bool) (interrupted : W → W) (report : Err → W → W) (s : Surroundings)
      (args : List String) (opt : CliOptions) (job : Job W) (name : String) (w w1 : W)
      → requested s args opt ≡ ok job
      → prepare job ≡ (none, job)
      → k.create_job job.batch w ≡ (ok name, w1)
      → (kubejob_main k join cancelled interrupted report s (ok (args, opt)) w).0 ≡ exited 0
      → Gone name (kubejob_main k join cancelled interrupted report s (ok (args, opt)) w).1
  unfolding kubejob_main
  kubejob_main-Gone cancelled interrupted report s args opt job name w w1 asked p c zero =
      let r = main_with k join cancelled interrupted s args opt w in
      let (nil, same) = exit_of-zero k join cancelled interrupted report r zero in
      let ran = main_with-run k join cancelled interrupted s args opt job asked w nil in
      subst (Gone name) (sym (same ∙ ap (λ x. x.1) ran)) (
        run_nil-Gone k join Gone d cancelled interrupted job job name w w1 p c
          (sym (ap (λ x. x.0) ran) ∙ nil))
