-- ===== src/Copy.antt =====
-- copy.go, `CopyFromPod`: files are copied out of a container, over the Kubernetes API with tar at the
-- other end, or through the agent; and what it shares with `CopyToPod`.
pub mod Rounds
pub mod ToPod
pub mod Whole
pub mod Sent
use kubejob.Prelude.{
  ℕ, zero, suc, String, ◌<>◌, Bool, true, false, not, ◌&&◌, ◌||◌, Option, none, some, List, [], ◌∷◌,
  ◌++◌, is_some, is_empty, join, sprint, if◌then◌else◌,
}
use Prim.Native.String
use kubejob.Kube.{Pod}
use kubejob.Errors.{
  Err, Result, ok, err, plain, wrapped, unexpected_eof, err_copy, err_copy_with_empty_path,
}
use kubejob.Errors.Texts.{error_text, err_copy_with_reader_writer}
use kubejob.Cluster.{Cluster, ExecOptions}
use kubejob.Logs.{Logger, LogLevel, log_warn, log_debug}
use kubejob.Paths.{is_slash, clean, path_join, dir, base}
use kubejob.Os.{Os}
use kubejob.Tar.{Fs, TarItem, Sink, Written, write_with_tar}
use kubejob.Untar.{TarArchive, strip_prefix, trim_shortcut_path, untar_all}
use kubejob.Executor.{JobExecutor}
use kubejob.Executor.Command.{Outcome, enabled_agent, pod_of, connection_of, exec_once}

-- strings.Contains
unfoldable pub contains : String → String → Bool
unfolding strip_prefix
contains String.[] part = is_some (strip_prefix part "")
contains (String.◌∷◌ c s) part = is_some (strip_prefix part (String.◌∷◌ c s)) || contains s part

-- strings.TrimLeft(s, "/")
unfoldable pub trim_slashes : String → String
trim_slashes String.[] = ""
trim_slashes (String.◌∷◌ c s) =
    let rest = trim_slashes s in if is_slash c then rest else String.◌∷◌ c s

-- The stream of `tar cf -` and its goroutine: the archive that can be read of the pipe, and what
-- `writerErr` and `writerErrCapturer` hold when `copyFromPod` reads them. They are still empty where
-- the stream has not ended by then.
pub record PipeOut : Type 0 where
  pub archive : TarArchive
  pub writer_err : Option Err
  pub writer_log : String

-- The stream of `tar -xmf -`: its error, what it printed, and whether it has read the pipe to its end,
-- before which `writerErr` is not set.
pub record PipeIn : Type 0 where
  pub reader_err : Option Err
  pub stdout : String
  pub stderr : String
  pub drained : Bool

-- What the executor calls to copy: exec streams with an archive in a pipe, and the agent's client.
pub record Copier (W : Type 0) : Type 0 where
  pub stream_out : ExecOptions → W → PipeOut × W
  pub stream_in : ExecOptions → List TarItem → W → PipeIn × W
  pub copy_from_agent : ℕ → String → String → W → Option Err × W
  pub copy_to_agent : ℕ → String → String → W → Option Err × W

abbrev pub copy_retry_count : ℕ
copy_retry_count = 3

abbrev pub err_dialing_backend_eof : String
err_dialing_backend_eof = "error dialing backend: EOF"

abbrev pub non_empty_logs : String → String → List String
non_empty_logs first second =
    (if is_empty first then [] else first ∷ []) ++ (if is_empty second then [] else second ∷ [])

abbrev pub err_spdy : Err → Err
err_spdy e = wrapped "job: failed to create spdy executor" e

-- What prints durations and formats, as for `error_text`, and strconv.Quote.
pub record Printers : Type 0 where
  pub duration : ℕ → String
  pub formatted : String → String
  pub quote : String → String

-- `isRetryableError`
unfoldable pub is_retryable_error : Printers → Option Err → Bool
unfolding contains error_text
is_retryable_error p none = false
is_retryable_error p (some unexpected_eof) = true
is_retryable_error p (some e) =
    contains (error_text p.duration p.formatted e) err_dialing_backend_eof

abbrev pub copy_options : JobExecutor → List String → Bool → ExecOptions
copy_options e command stdin = record {
  namespace = (pod_of e.target).namespace;
  pod_name = (pod_of e.target).name;
  container = e.target.container.name;
  command = command;
  stdin = stdin;
}

-- `tarPrefix`
unfoldable pub tar_prefix : String → String
unfolding trim_slashes trim_shortcut_path clean
tar_prefix src_path = trim_shortcut_path (clean (trim_slashes src_path))

-- The part of `copyFromPod` behind `untarAll`.
unfoldable pub copy_from_result :
    Printers → String → String → Option Err → Option Err → String → String → Option Err
unfolding is_retryable_error err_copy_with_reader_writer
copy_from_result p src_path dst_path reader_err writer_err reader_log writer_log =
    if is_retryable_error p reader_err
    then reader_err
    else if is_retryable_error p writer_err
    then writer_err
    else if is_some reader_err || is_some writer_err
    then some (
        err_copy_with_reader_writer p.duration p.formatted src_path dst_path reader_err writer_err
          (join (non_empty_logs reader_log writer_log) ":"))
    else none

module _ {W : Type 0} (k : Cluster W) (os : Os W) (copier : Copier W) (p : Printers) where
  untarred : String → String → PipeOut → Option Err × List String × W → Option Err × W
  unfolding copy_from_result
  untarred src_path dst_path pipe (reader_err, warnings, w) = (
    copy_from_result p src_path dst_path reader_err pipe.writer_err (join warnings "")
        pipe.writer_log,
    w,
  )

  streamed_out : String → String → PipeOut × W → Option Err × W
  unfolding untarred untar_all tar_prefix
  streamed_out src_path dst_path (pipe, w) = untarred src_path dst_path pipe (
      untar_all os p.quote (tar_prefix src_path) dst_path pipe.archive.entries pipe.archive.ending
        w)

  connected_out : String → String → ExecOptions → Option Err × W → Option Err × W
  unfolding streamed_out
  connected_out src_path dst_path opts (some e, w) = (some (err_spdy e), w)
  connected_out src_path dst_path opts (none, w) =
      streamed_out src_path dst_path (copier.stream_out opts w)

  -- `copyFromPod`
  unfoldable pub copy_from_pod_once : JobExecutor → String → String → W → Option Err × W
  unfolding connected_out
  copy_from_pod_once e src_path dst_path w =
      if is_empty src_path || is_empty dst_path
      then (some (err_copy_with_empty_path src_path dst_path), w)
      else let opts = copy_options e ("tar" ∷ "cf" ∷ "-" ∷ src_path ∷ []) false in
        connected_out src_path dst_path opts (k.new_spdy_executor opts w)

  -- The levels and the logger of the job, as `logWarn` and `logDebug` read them.
  module _ (level : LogLevel) (logger : Option (Logger W)) where
    warned : Err → W → W
    unfolding log_warn error_text
    warned e w =
        let text : String =
          "try to retry copy from pod. but cannot remove already exists dst path: " in
        log_warn k level logger (text <> "%s") (text <> error_text p.duration p.formatted e) w

    debugged : JobExecutor → Option Err → ℕ → W → W
    unfolding log_debug error_text
    debugged e none retry_count w = w
    debugged e (some x) retry_count w =
        log_debug k level logger "%s at %s. retry: %d/%d"
          (error_text p.duration p.formatted x
            <> (" at "
                <> (e.target.container.name
                    <> (". retry: " <> (sprint retry_count <> ("/" <> sprint copy_retry_count))))))
          w

    -- What a round does with the error of its attempt: whether there is another round, and the world.
    unfoldable pub removed : JobExecutor → Option Err → ℕ → Option Err × W → Bool × W
    unfolding warned debugged
    removed e last retry_count (some x, w) = (false, warned x w)
    removed e last retry_count (none, w) = (true, debugged e last retry_count w)

    unfoldable pub after_attempt : JobExecutor → String → ℕ → Option Err → W → Bool × W
    unfolding removed is_retryable_error
    after_attempt e dst_path retry_count last w =
        if is_retryable_error p last
        then removed e last retry_count (os.remove_all dst_path w)
        else (false, w)

    -- The loop, with the rounds that the policy grants.
    unfoldable pub copy_loop :
        JobExecutor → String → String → ℕ → ℕ → Option Err → W → Option Err × W
    unfolding copy_from_pod_once after_attempt
    copy_loop e src_path dst_path zero retry_count last w = (last, w)
    copy_loop e src_path dst_path (suc rounds) retry_count last w =
        let (x, w') = copy_from_pod_once e src_path dst_path w in
        let (again, w'') = after_attempt e dst_path retry_count x w' in
        elim again [
          | true ↦ copy_loop e src_path dst_path rounds (suc retry_count) x w''
          | false ↦ (x, w'')
        ]

    -- `copyFromPodWithRetry`
    unfoldable pub copy_from_pod_with_retry : JobExecutor → String → String → W → Option Err × W
    unfolding copy_loop
    copy_from_pod_with_retry e src_path dst_path w =
        let (rounds, w') = k.start_backoff copy_retry_count w in
        copy_loop e src_path dst_path rounds 0 none w'

    -- `CopyFromPod`
    unfoldable pub copy_from_pod : JobExecutor → String → String → W → Option Err × W
    unfolding copy_from_pod_with_retry enabled_agent
    copy_from_pod e src_path dst_path w =
        if e.stopped
        then (some (plain "job: failed to copy from pod. pod is already stopped"), w)
        else if enabled_agent e.target
        then copier.copy_from_agent (connection_of e.target) src_path dst_path w
        else copy_from_pod_with_retry e src_path dst_path w
