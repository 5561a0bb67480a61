-- ===== src/Tests/Serving.antt =====
-- The end of the agent's server, and the exit code of the command, at concrete states.
use kubejob.Prelude.{inl, ℕ, ◌≡◌, ◌≢◌, refl, ap, String, true, false, none, some, List, [], ◌∷◌}
use kubejob.Errors.{ok, err, plain}
use kubejob.Job.{Job, selector_label, run, prepare, wait, cleanup}
use kubejob.Builder.{job_of, default_job, build, build_with_job, check_containers}
use kubejob.Serving.{begin, noticed, stopping, returned, at, call_ends, here, then}
use kubejob.Serving.Stopping.{Settles, stopping-Settles, second_finish_hangs}
use kubejob.Cli.{
  CliOptions, Surroundings, exited, requested, kubejob_main, main_with, get_kube_config,
  load_config, namespace_of,
}
use kubejob.Cli.Exits.{kubejob_main-Gone}
use kubejob.Tests.Data.{recorder, Calls}
use kubejob.Tests.Job.{join, Deleted, recorder-Deletes}

stopping-Settles_example : Settles none (at stopping 0 3)
stopping-Settles_example = stopping-Settles 3

second_finish_hangs_example : stopping ≢ returned none
second_finish_hangs_example =
    second_finish_hangs none none noticed 0 1 (at stopping 1 0) (inl refl)
      (then call_ends (then begin here))

abbrev surroundings : Surroundings
surroundings = record {
  getenv = λ name. "";
  home_dir = "/root";
  exists = λ path. true;
  build_config = λ path. none;
  load_rules = λ path. err (plain "no configuration");
  open_job = λ path. err (plain "no file");
  clientset = none;
  label_id = "id";
}

abbrev options : CliOptions
options = record { namespace = "default"; file = ""; image = "golang" }

abbrev command_line : List String
command_line = "go" ∷ "version" ∷ []

abbrev asked_job : Job Calls
asked_job = job_of (record (default_job (record { image = "golang"; command = command_line })) {
  labels = some ((selector_label, "id") ∷ []);
})

asked : requested surroundings command_line options ≡ ok asked_job
unfolding requested build build_with_job check_containers
asked = refl

asked_prepared : prepare asked_job ≡ (none, asked_job)
unfolding prepare
asked_prepared = refl

exits_with_zero :
    (kubejob_main recorder join false
      (λ w. w)
      (λ e w. w)
      surroundings
      (ok (command_line, options))
      []).0
    ≡ exited 0
unfolding kubejob_main main_with get_kube_config load_config namespace_of requested build
    build_with_job check_containers run prepare wait cleanup kubejob.Watch.watch_events
    kubejob.Paths.clean kubejob.Prelude.Text.join
exits_with_zero = refl

kubejob_main-Gone_example :
    Deleted "kubejob-x"
      (kubejob_main recorder join false
        (λ w. w)
        (λ e w. w)
        surroundings
        (ok (command_line, options))
        []).1
kubejob_main-Gone_example =
    kubejob_main-Gone recorder join Deleted recorder-Deletes false (λ w. w) (λ e w. w) surroundings
      command_line options asked_job "kubejob-x" [] ("create job" ∷ []) asked asked_prepared refl
      exits_with_zero
