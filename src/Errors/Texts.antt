-- ===== src/Errors/Texts.antt =====
-- The `Error` methods of error.go, and `errCopyWithReaderWriter`, which puts such texts in an error.
use kubejob.Prelude.{
  not, arith, ℕ, String, ◌<>◌, ◌≡◌, refl, ap, Bool, true, false, Option, none, some, List, [], ◌∷◌,
  ◌++◌, map, join, is_empty, if◌then◌else◌,
}
use kubejob.Kube.{Pod}
use kubejob.Errors.{
  unexpected_eof, wrapped, joined, exit_error, failed_job, cleanup_error, log_stream_error,
  job_creation_error, job_watch_error, validation_error, pre_init_error, command_error,
  job_stop_container_error, pending_phase_timeout_error, copy_error, err_command_from_agent,
  is_exit_error, err_cleanup, Err, Cause, Causes, nil, cause, done, more, to_cause, to_causes,
  plain, err_copy,
}

-- `(*JobCreationError).jobName`
abbrev pub job_name : String → String → String
job_name name generate_name =
    if not (is_empty name) then name else if not (is_empty generate_name) then generate_name else ""

abbrev creation_text : String → String → String
creation_text name reason =
    if not (is_empty name)
    then "job: failed to create job " <> (name <> (": " <> reason))
    else "job: failed to create job: " <> reason

abbrev container_key : Bool → String
container_key init_container = if init_container then "init container" else "container"

abbrev labelled : String → Option String → List String
labelled label none = []
labelled label (some text) = (label <> text) ∷ []

abbrev command_text : String → List String → String
command_text message msgs =
    if not (is_empty message) then message else "job: failed to run command: " <> join msgs ". "

abbrev validation_text : String → Option String → String
validation_text required reason =
    if not (is_empty required)
    then "job: validation error. " <> (required <> " must be specified")
    else elim reason [ some text ↦ "job: failed to decode job spec: " <> text | none ↦ "" ]

abbrev failed_text : Option String → String
failed_text none = "job: failed to job"
failed_text (some text) = text

-- `duration` prints a time.Duration, and `formatted` is what fmt.Errorf makes of a text that it is
-- given as the format.
module _ (duration : ℕ → String) (formatted : String → String) where
  unfoldable mutual
    pub error_text : Err → String
    error_text (plain text) = text
    error_text (wrapped text e) = text <> (": " <> error_text e)
    error_text (joined e c) = formatted (error_text e <> (":" <> error_text c))
    error_text unexpected_eof = "unexpected EOF"
    error_text (exit_error text) = text
    error_text (failed_job pod reason) = failed_text (cause_text reason)
    error_text (cleanup_error name errs) =
        "job: failed to cleanup " <> (name <> (": " <> join (cause_texts errs) ":"))
    error_text (log_stream_error name pod container init_container e) =
        "job: failed to log stream "
        <> (name
            <> (" pod:"
                <> (pod.name
                    <> (" "
                        <> (container_key init_container
                            <> (" " <> (container.name <> (": " <> error_text e))))))))
    error_text (job_creation_error name generate_name e) =
        creation_text (job_name name generate_name) (error_text e)
    error_text (job_watch_error name e) =
        "job: failed to watch job " <> (name <> (": " <> error_text e))
    error_text (validation_error required e) = validation_text required (cause_text e)
    error_text (pre_init_error e) = "job: failed to run preinit step: " <> error_text e
    error_text (command_error message reader_err writer_err) = command_text message (
        labelled "read error: " (cause_text reader_err)
        ++ labelled "write error: " (cause_text writer_err))
    error_text (job_stop_container_error e) = "job: failed to stop container. " <> error_text e
    error_text (pending_phase_timeout_error timeout started_at) =
        "job: failed to move running phase. "
        <> (duration timeout <> " has passed while in the PodInitializing state")
    error_text (copy_error src_path dst_path e) =
        "job: failed to copy from "
        <> (src_path <> (" to " <> (dst_path <> (". " <> error_text e))))

    cause_text : Cause → Option String
    cause_text nil = none
    cause_text (cause e) = some (error_text e)

    cause_texts : Causes → List String
    cause_texts done = []
    cause_texts (more e es) = error_text e ∷ cause_texts es

  -- `errCopyWithReaderWriter`
  unfoldable pub err_copy_with_reader_writer :
      String → String → Option Err → Option Err → String → Err
  unfolding error_text
  err_copy_with_reader_writer src_path dst_path reader_err writer_err out =
      let msgs =
        labelled "read error: " (cause_text (to_cause reader_err))
        ++ (labelled "write error: " (cause_text (to_cause writer_err))
            ++ (if is_empty out then [] else ("logs: " <> out) ∷ [])) in
      err_copy src_path dst_path (plain ("failed to run command: " <> join msgs ". "))

  texts_of : (errs : List Err) → cause_texts (to_causes errs) ≡ map error_text errs
  unfolding cause_texts
  texts_of [] = refl
  texts_of (e ∷ es) = ap (λ ts. error_text e ∷ ts) (texts_of es)

  -- A `CleanupError` prints the texts of all its errors, in their order.
  pub error_text-cleanup :
      (name : String) (errs : List Err)
      → error_text (err_cleanup name errs)
        ≡ "job: failed to cleanup " <> (name <> (": " <> join (map error_text errs) ":"))
  unfolding error_text
  error_text-cleanup name errs =
      ap (λ ts. "job: failed to cleanup " <> (name <> (": " <> join ts ":"))) (texts_of errs)

  -- What an agent reports in a nonempty message is an exit error, so that the command is not tried
  -- again, and is printed as it is, both by itself and as the reason of a failed job.
  pub error_text-agent :
      (msg : String) (pod : Pod)
      → is_empty msg ≡ false
      → (is_exit_error (err_command_from_agent msg) ≡ true)
        × (error_text (err_command_from_agent msg) ≡ msg)
        × (error_text (failed_job pod (cause (err_command_from_agent msg))) ≡ msg)
  unfolding error_text is_exit_error
  error_text-agent msg pod h = (ground arith, ground arith, ground arith)
