-- ===== src/Errors.antt =====
-- error.go: the error values of the program. A Go `error` is an `Option Err`, with nil as `none`;
-- an error that is stored in another one is a `Cause`.
pub mod Failed
pub mod Texts
use kubejob.Prelude.{
  not, if◌then◌else◌, ◌≡◌, refl, ◌⊎◌, inl, inr, ℕ, String, Bool, true, false, ◌||◌, Option, none,
  some, List, [], ◌∷◌, is_empty,
}
use kubejob.Kube.{Pod, Container}

mutual
  pub data Err : Type 0 where
    -- errors.New, and fmt.Errorf with no wrapped error
    plain : String → Err
    -- fmt.Errorf("<text>: %w", err)
    wrapped : String → Err → Err
    -- fmt.Errorf(strings.Join([]string{e.Error(), err.Error()}, ":"))
    joined : Err → Err → Err
    -- io.ErrUnexpectedEOF
    unexpected_eof : Err
    -- a foreign error that implements executil.ExitError
    exit_error : String → Err
    failed_job : Pod → Cause → Err
    cleanup_error : String → Causes → Err
    log_stream_error : String → Pod → Container → Bool → Err → Err
    job_creation_error : String → String → Err → Err
    job_watch_error : String → Err → Err
    validation_error : String → Cause → Err
    pre_init_error : Err → Err
    command_error : String → Cause → Cause → Err
    job_stop_container_error : Err → Err
    pending_phase_timeout_error : ℕ → ℕ → Err
    copy_error : String → String → Err → Err

  pub data Cause : Type 0 where
    nil : Cause
    cause : Err → Cause

  pub data Causes : Type 0 where
    done : Causes
    more : Err → Causes → Causes

abbrev pub to_cause : Option Err → Cause
to_cause none = nil
to_cause (some e) = cause e

abbrev pub to_causes : List Err → Causes
to_causes [] = done
to_causes (e ∷ es) = more e (to_causes es)

-- A value of type T or an error.
pub data Result {ℓ} (A : Type ℓ) : Type ℓ where
  ok : A → Result A
  err : Err → Result A

abbrev pub err_pending_phase : ℕ → ℕ → Err
err_pending_phase started_at timeout = pending_phase_timeout_error timeout started_at

abbrev pub err_copy : String → String → Err → Err
err_copy src_path dst_path e = copy_error src_path dst_path e

abbrev pub err_copy_with_empty_path : String → String → Err
err_copy_with_empty_path src_path dst_path =
    copy_error src_path dst_path (plain "cannot specify empty path")

abbrev pub err_stop_container : Err → Err
err_stop_container reason = job_stop_container_error reason

abbrev pub err_command : Option Err → Option Err → Err
err_command reader writer = command_error "" (to_cause reader) (to_cause writer)

abbrev pub err_command_from_agent : String → Err
err_command_from_agent msg = command_error msg nil nil

abbrev pub err_pre_init : Err → Err
err_pre_init e = pre_init_error e

abbrev pub err_invalid_yaml : Err → Err
err_invalid_yaml e = validation_error "" (cause e)

abbrev pub err_required_param : String → Err
err_required_param required = validation_error required nil

abbrev pub err_job_creation : String → String → Err → Err
err_job_creation job_name generate_name e = job_creation_error job_name generate_name e

abbrev pub err_job_watch : String → Err → Err
err_job_watch job_name e = job_watch_error job_name e

abbrev pub err_cleanup : String → List Err → Err
err_cleanup job_name errs = cleanup_error job_name (to_causes errs)

abbrev pub err_log_stream : String → Pod → Container → Err → Err
err_log_stream job_name pod container e = log_stream_error job_name pod container false e

-- The type switch and the update in place of `errLogStreamInitContainer`.
abbrev pub err_log_stream_init_container : Err → Err
err_log_stream_init_container (log_stream_error job_name pod container init e) =
    log_stream_error job_name pod container true e
err_log_stream_init_container e = e

abbrev cause_is_exit : Cause → Bool
cause_is_exit (cause (exit_error s)) = true
cause_is_exit _ = false

-- `cmdErr, ok := err.(*CommandError)`, with `IsExitError` on the error that it finds.
unfoldable pub is_exit_error : Err → Bool
is_exit_error (command_error message reader_err writer_err) =
    if not (is_empty message) then true else cause_is_exit reader_err || cause_is_exit writer_err
is_exit_error _ = false

pub Result-cases {ℓ} :
    {A : Type ℓ} (r : Result A) → ((a : A) × (r ≡ ok a)) ⊎ ((e : Err) × (r ≡ err e))
Result-cases (ok a) = inl (a, refl)
Result-cases (err e) = inr (e, refl)
