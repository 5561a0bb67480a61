-- ===== src/Tests/Builder.antt =====
-- The builder and the errors of a failed job at concrete inputs.
use kubejob.Prelude.{ℕ, String, ◌≡◌, refl, true, false, none, some, ◌⊎◌, [], ◌∷◌}
use kubejob.Kube.{ContainerStatus, Pod, failed}
use kubejob.Errors.{
  failed_job, Err, ok, err, err_required_param, err_command_from_agent, is_exit_error, cause,
}
use kubejob.Errors.Failed.{failed_container_names}
use kubejob.Builder.{
  JobBuilder, new_job_builder, set_image, set_command, build_with_job, build, job_of, default_job,
}
use kubejob.Builder.Validation.{is_valid, lacks, accepted, build_with_job-valid}
use kubejob.Tests.Data.{Calls, batch_job, pod_in, main_container}

build_with_job-valid_example :
    ((is_valid batch_job ≡ true)
      × (build_with_job {W = Calls} none "x1" batch_job
          ≡ (ok (job_of (accepted batch_job "x1")), accepted batch_job "x1")))
    ⊎ ((required : String) × (is_valid batch_job ≡ false)
        × (lacks batch_job required ≡ true)
        × ((build_with_job {W = Calls} none "x1" batch_job).0 ≡ err (err_required_param required)))
build_with_job-valid_example = build_with_job-valid {W = Calls} "x1" batch_job

-- A job that lacks an image.
no_image :
    (build_with_job {W = Calls} none "x1" (record batch_job {
      spec = record batch_job.spec { containers = record main_container { image = "" } ∷ [] };
    })).0
    ≡ err (err_required_param "container.image")
unfolding build_with_job kubejob.Builder.check_containers
no_image = refl

abbrev builder : JobBuilder
builder = set_command (set_image new_job_builder "golang") ("go" ∷ "version" ∷ [])

abbrev failed_status : ContainerStatus
failed_status = record {
  name = "main";
  ready = false;
  state = record { waiting = none; running = false; terminated = some "Error" };
}

abbrev failed_pod : Pod
failed_pod = record (pod_in failed) {
  status = record (pod_in failed).status { container_statuses = failed_status ∷ [] };
}

main_failed : failed_container_names failed_pod ≡ "main" ∷ []
unfolding failed_container_names kubejob.Errors.Failed.error_container_names_from_statuses
main_failed = refl

abbrev seconds : ℕ → String
seconds n = "60s"

abbrev formatted : String → String
formatted s = s
