-- ===== src/Builder/Validation.antt =====
-- The jobs that builder.go accepts, and what it makes of them.
use kubejob.Prelude.{
  if◌then◌else◌, inr, Bool-cases, ◌||◌, ◌<>◌, inl, ◌⊎◌, str_eq, arith, String, ◌≡◌, refl, Bool,
  true, false, not, ◌&&◌, Option, none, some, List, [], ◌∷◌, is_empty,
}
use kubejob.Kube.{Container, BatchJob}
use kubejob.Errors.{err_required_param, Err, ok, err}
use kubejob.Job.{selector_label, label_selector}
use kubejob.Builder.{
  ℕ, JobBuilder, no_command, check_containers, build_with_job, build, with_defaults, labels_with_id,
  job_of, default_job,
}

-- A container that says what to run and in which image, under a name.
abbrev pub is_complete : Container → Bool
is_complete c = not (is_empty c.name) && (not (no_command c.command) && not (is_empty c.image))

abbrev pub all_complete : List Container → Bool
all_complete [] = true
all_complete (c ∷ cs) = is_complete c && all_complete cs

abbrev pub is_valid : BatchJob → Bool
is_valid job =
    not (is_empty job.name && is_empty job.generate_name) && all_complete job.spec.containers

-- Whether a container lacks what a `ValidationError` calls required.
abbrev pub containers_lack : List Container → String → Bool
containers_lack [] required = false
containers_lack (c ∷ cs) required =
    (str_eq required "container.name" && is_empty c.name)
    || ((str_eq required "container.command" && no_command c.command)
        || ((str_eq required "container.image" && is_empty c.image) || containers_lack cs required))

-- Whether the job lacks what a `ValidationError` calls required.
abbrev pub lacks : BatchJob → String → Bool
lacks job required =
    (str_eq required "job.name" && (is_empty job.name && is_empty job.generate_name))
    || containers_lack job.spec.containers required

abbrev or_none : Option (List (String × String)) → List (String × String)
or_none none = []
or_none (some labels) = labels

abbrev limit : Option ℕ → ℕ
limit none = 0
limit (some n) = n

-- The job that is made of a valid one: it restarts no container and has no second try unless it says
-- so itself, it has the label `kubejob.io/id` before those that it had, and nothing else changes.
abbrev pub accepted : BatchJob → String → BatchJob
accepted job label_id = record job {
  spec = record job.spec {
    restart_policy = if is_empty job.spec.restart_policy then "Never" else job.spec.restart_policy;
  };
  backoff_limit = some (limit job.backoff_limit);
  labels = some (("kubejob.io/id", label_id) ∷ or_none job.labels);
}

-- What the code makes of a valid job is that.
accepted_right :
    (job : BatchJob) (label_id : String)
    → record (with_defaults job) { labels = labels_with_id job.labels label_id }
      ≡ accepted job label_id
accepted_right job label_id = ground arith

-- What the check of the containers finds: nothing, and they are complete, or what one of them lacks.
abbrev Checked : List Container → Option Err → Type 0
Checked cs r =
    ((r ≡ none) × (all_complete cs ≡ true))
    ⊎ ((required : String) × (r ≡ some (err_required_param required))
        × (all_complete cs ≡ false)
        × (containers_lack cs required ≡ true))

check_containers-Checked : (cs : List Container) → Checked cs (check_containers cs)
unfolding check_containers
check_containers-Checked [] = inl (refl, refl)
check_containers-Checked (c ∷ cs) = elim (Bool-cases (is_empty c.name)) [
  | inl e ↦ inr ("container.name", ground arith, ground arith, ground arith)
  | inr e ↦ elim (Bool-cases (no_command c.command)) [
    | inl f ↦ inr ("container.command", ground arith, ground arith, ground arith)
    | inr f ↦ elim (Bool-cases (is_empty c.image)) [
      | inl g ↦ inr ("container.image", ground arith, ground arith, ground arith)
      | inr g ↦ elim (check_containers-Checked cs) [
        | inl (h, all) ↦ inl (ground arith)
        | inr (required, h, some_, lack) ↦ inr (required, ground arith, ground arith, ground arith)
      ]
    ]
  ]
]

module _ {W : Type 0} where
  -- With a clientset, `BuildWithJob` accepts a job exactly if it has a name or a prefix of one and
  -- each container has a name, a command and an image. In the job that it accepts, and the caller's
  -- becomes that too, the containers are never restarted and nothing is tried again unless the job
  -- says so, the label `kubejob.io/id` has the given value, and nothing else changes; for another
  -- one the error names something that the job lacks.
  pub build_with_job-valid :
      (label_id : String) (job : BatchJob)
      → ((is_valid job ≡ true)
          × (build_with_job {W = W} none label_id job
              ≡ (ok (job_of (accepted job label_id)), accepted job label_id)))
        ⊎ ((required : String) × (is_valid job ≡ false)
            × (lacks job required ≡ true)
            × ((build_with_job {W = W} none label_id job).0 ≡ err (err_required_param required)))
  unfolding build_with_job
  build_with_job-valid label_id job =
      elim (Bool-cases (is_empty job.name && is_empty job.generate_name)) [
        | inl e ↦ inr ("job.name", ground arith, ground arith, ground arith)
        | inr e ↦ elim (check_containers-Checked job.spec.containers) [
          | inl (h, all) ↦ inl (ground (arith, accepted_right job label_id))
          | inr (required, h, some_, lack) ↦
              inr (required, ground arith, ground arith, ground arith)
        ]
      ]

  -- A builder with an image and a command builds, given a clientset, a job that is created under the
  -- prefix `kubejob-` with one container, which is never restarted, and that the label selects.
  pub build-default_job :
      (b : JobBuilder) (label_id : String)
      → is_empty b.image ≡ false
      → no_command b.command ≡ false
      → (build {W = W} b none label_id ≡ ok (job_of (accepted (default_job b) label_id)))
        × (label_selector (accepted (default_job b) label_id) ≡ selector_label <> ("=" <> label_id))
  unfolding build build_with_job check_containers label_selector kubejob.Agent.lookup
  build-default_job b label_id h c = (ground arith, refl)
