-- ===== src/Builder.antt =====
-- builder.go: the checks and defaults that make a `Job` of a `batchv1.Job`.
pub mod Validation
use kubejob.Prelude.{
  ℕ, String, Bool, true, false, ◌&&◌, Option, none, some, List, [], ◌∷◌, is_empty, if◌then◌else◌,
}
use kubejob.Kube.{Container, BatchJob}
use kubejob.Errors.{Err, Result, ok, err, wrapped, err_required_param, err_invalid_yaml}
use kubejob.Job.{Job, selector_label}

abbrev pub default_job_name : String
default_job_name = "kubejob-"

abbrev pub default_container_name : String
default_container_name = "kubejob"

-- The client configuration and the namespace serve the clients only, which are the cluster here.
pub record JobBuilder : Type 0 where
  pub image : String
  pub command : List String

abbrev pub new_job_builder : JobBuilder
new_job_builder = record { image = ""; command = [] }

abbrev pub set_image : JobBuilder → String → JobBuilder
set_image b image = record b { image = image }

abbrev pub set_command : JobBuilder → List String → JobBuilder
set_command b cmd = record b { command = cmd }

abbrev pub no_command : List String → Bool
no_command [] = true
no_command (c ∷ cs) = false

-- `RestartPolicyNever` and `new(int32)` where nothing is given.
abbrev pub or_never : String → String
or_never policy = if is_empty policy then "Never" else policy

abbrev pub or_zero : Option ℕ → Option ℕ
or_zero none = some 0
or_zero (some n) = some n

abbrev pub with_defaults : BatchJob → BatchJob
with_defaults job = record job {
  spec = record job.spec { restart_policy = or_never job.spec.restart_policy };
  backoff_limit = or_zero job.backoff_limit;
}

-- The loop over the containers, with the first error that it returns.
unfoldable pub check_containers : List Container → Option Err
check_containers [] = none
check_containers (c ∷ cs) =
    if is_empty c.name
    then some (err_required_param "container.name")
    else if no_command c.command
    then some (err_required_param "container.command")
    else if is_empty c.image
    then some (err_required_param "container.image")
    else check_containers cs

abbrev pub labels_with_id :
    Option (List (String × String)) → String → Option (List (String × String))
labels_with_id none id = some ((selector_label, id) ∷ [])
labels_with_id (some labels) id = some ((selector_label, id) ∷ labels)

abbrev pub default_container : JobBuilder → Container
default_container b = record {
  name = default_container_name;
  image = b.image;
  command = b.command;
  args = [];
  env = [];
  working_dir = "";
  termination_message_path = "";
}

abbrev pub default_job : JobBuilder → BatchJob
default_job b = record {
  name = "";
  generate_name = default_job_name;
  labels = none;
  spec = record {
    init_containers = [];
    containers = default_container b ∷ [];
    restart_policy = "Never";
  };
  backoff_limit = some 0;
}

module _ {W : Type 0} where
  abbrev pub job_of : BatchJob → Job W
  job_of batch = record {
    batch = batch;
    pre_init = none;
    job_init = none;
    container_logger = none;
    agent_cfg = none;
  }

  checked : Option Err → BatchJob → String → Result (Job W) × BatchJob
  checked (some x) job label_id = (err x, job)
  checked none job label_id =
      let job' : BatchJob = record job { labels = labels_with_id job.labels label_id } in
      (ok (job_of job'), job')

  -- `BuildWithJob`. `clientset` is the error of `kubernetes.NewForConfig`, `label_id` what `labelID`
  -- gives; the caller's job is changed in place.
  unfoldable pub build_with_job : Option Err → String → BatchJob → Result (Job W) × BatchJob
  unfolding checked
  build_with_job (some x) label_id job = (err (wrapped "job: failed to create clientset" x), job)
  build_with_job none label_id job =
      if is_empty job.name && is_empty job.generate_name
      then (err (err_required_param "job.name"), job)
      else checked (check_containers job.spec.containers) (with_defaults job) label_id

  -- `Build`
  unfoldable pub build : JobBuilder → Option Err → String → Result (Job W)
  build b clientset label_id =
      if is_empty b.image
      then err (err_required_param "container.image")
      else if no_command b.command
      then err (err_required_param "container.command")
      else (build_with_job clientset label_id (default_job b)).0

  -- `BuildWithReader`, with what the decoder makes of the text.
  unfoldable pub build_with_reader : Result BatchJob → Option Err → String → Result (Job W)
  build_with_reader (err x) clientset label_id = err (err_invalid_yaml x)
  build_with_reader (ok job) clientset label_id = (build_with_job clientset label_id job).0
