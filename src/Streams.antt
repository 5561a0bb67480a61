-- ===== src/Streams.antt =====
-- job.go: the streams of container logs. What `Stream` gives and what `ReadString` reads from it come
-- as data; the logs that are sent to `containerLogs` are listed in the order of the sender.
pub mod Order
use kubejob.Prelude.{
  ℕ, zero, suc, String, Bool, true, false, not, Option, none, some, List, [], ◌∷◌, ◌++◌,
  if◌then◌else◌,
}
use kubejob.Kube.{Pod, Container}
use kubejob.Errors.{Err, Result, ok, err, err_log_stream, err_log_stream_init_container}
use kubejob.Logs.{
  ContainerLog, LogSwitches, command_log, enabled_init_command_log, enabled_command_log,
}

-- A result of `ReadString`: a line with its newline, the end with what came after the last newline,
-- or another error.
pub data Read : Type 0 where
  line : String → Read
  eof : String → Read
  failed_read : Err → Read

abbrev pub log_of : Pod → Container → String → Bool → ContainerLog
log_of pod c text finished = record { pod = pod; container = c; log = text; is_finished = finished }

-- The goroutine goes on after it has sent a value to `errchan`, which has room for one: `room` is how
-- many more values it can send. It stays at a send for which there is no room.
unfoldable pub late_logs : Pod → Container → Bool → ℕ → List Read → List ContainerLog
late_logs pod c enabled_log room [] = []
late_logs pod c enabled_log room (line text ∷ reads) =
    let logs = late_logs pod c enabled_log room reads in
    if enabled_log then log_of pod c text false ∷ logs else logs
late_logs pod c enabled_log zero (eof rest ∷ reads) = log_of pod c "" true ∷ []
late_logs pod c enabled_log (suc room) (eof rest ∷ reads) =
    log_of pod c "" true ∷ late_logs pod c enabled_log room reads
late_logs pod c enabled_log zero (failed_read e ∷ reads) = []
late_logs pod c enabled_log (suc room) (failed_read e ∷ reads) =
    late_logs pod c enabled_log room reads

-- The goroutine that reads: the first value on `errchan`, the logs that it sends up to there, and those
-- that it sends later. When the first value is received there is room for one more; where the context
-- is done before, fewer of the late logs are sent. A stream whose reads end before a value is left by
-- its reader: `none`.
unfoldable pub read_loop :
    Pod → Container → Bool → List Read → Option (Option Err) × List ContainerLog × List ContainerLog
unfolding late_logs
read_loop pod c enabled_log [] = (none, [], [])
read_loop pod c enabled_log (line text ∷ reads) =
    let (e, logs, late) = read_loop pod c enabled_log reads in
    (e, if enabled_log then log_of pod c text false ∷ logs else logs, late)
read_loop pod c enabled_log (eof rest ∷ reads) =
    (some none, log_of pod c "" true ∷ [], late_logs pod c enabled_log 1 reads)
read_loop pod c enabled_log (failed_read e ∷ reads) =
    (some (some e), [], late_logs pod c enabled_log 1 reads)

abbrev pub stream_error : String → Pod → Container → Option (Option Err) → Option Err
stream_error job_name pod c (some (some e)) = some (err_log_stream job_name pod c e)
stream_error job_name pod c (some none) = none
stream_error job_name pod c none = none

abbrev pub command_logs : Bool → Pod → Container → List ContainerLog
command_logs enabled pod c = if enabled then command_log pod c ∷ [] else []

-- What a stream gives: its error, the logs that it has sent when it returns, and the late ones, which
-- its goroutine may still send.
abbrev pub Streamed : Type 0
Streamed = Option Err × List ContainerLog × List ContainerLog

-- `logStreamContainer`. With no value on `errchan` it returns nil when the context is done.
unfoldable pub log_stream_container :
    String → Pod → Container → Bool → Bool → Result (List Read) → Streamed
log_stream_container job_name pod c enabled_command_log enabled_log (err e) =
    (some (err_log_stream job_name pod c e), [], [])
log_stream_container job_name pod c enabled_command_log enabled_log (ok reads) =
    let (e, logs, late) = read_loop pod c enabled_log reads in
    (stream_error job_name pod c e, command_logs enabled_command_log pod c ++ logs, late)

-- What the API server gives for the log of a container.
abbrev pub LogSource : Type 0
LogSource = Container → Result (List Read)

-- The streams of several containers, with a list of late logs for each of them: they are sent at any
-- time after the other logs of their container.
abbrev pub AllStreamed : Type 0
AllStreamed = Option Err × List ContainerLog × List (List ContainerLog)

-- The streams of one init container and, if it had no error, of the next ones.
abbrev pub and_stream : Streamed → AllStreamed → AllStreamed
and_stream (some x, logs, late) next = (some (err_log_stream_init_container x), logs, late ∷ [])
and_stream (none, logs, late) (e, logs', lates) = (e, logs ++ logs', late ∷ lates)

-- The loop of `logStreamInitContainers`.
unfoldable pub stream_in_order :
    String → Pod → Bool → Bool → LogSource → List Container → AllStreamed
stream_in_order job_name pod commands lines source [] = (none, [], [])
stream_in_order job_name pod commands lines source (c ∷ cs) =
    and_stream (log_stream_container job_name pod c commands lines (source c))
      (stream_in_order job_name pod commands lines source cs)

unfoldable pub log_stream_init_containers : String → LogSwitches → LogSource → Pod → AllStreamed
log_stream_init_containers job_name s source pod =
    stream_in_order job_name pod (enabled_init_command_log s) (not s.disabled_init_container_log)
      source pod.spec.init_containers

-- The first error among results in the order in which they come: what `eg.Wait` returns.
abbrev pub first_error : List (Option Err) → Option Err
first_error [] = none
first_error (none ∷ es) = first_error es
first_error (some e ∷ es) = some e

-- The goroutine of one container in `logStreamPod`.
unfoldable pub stream_main : String → LogSwitches → LogSource → Pod → Container → Streamed
stream_main job_name s source pod c =
    log_stream_container job_name pod c (enabled_command_log s) (not s.disabled_container_log)
      (source c)

-- `logStreamPod`, with the containers in the order in which their goroutines end, and the logs of
-- each, the late ones too. Those of different containers interleave in any way.
unfoldable pub log_stream_pod :
    String → LogSwitches → LogSource → Pod → List Container → Option Err × List (List ContainerLog)
log_stream_pod job_name s source pod [] = (none, [])
log_stream_pod job_name s source pod (c ∷ cs) =
    let (e, logs, late) = stream_main job_name s source pod c in
    let (e', all) = log_stream_pod job_name s source pod cs in
    (first_error (e ∷ e' ∷ []), (logs ++ late) ∷ all)
