-- ===== src/Copy/ToPod.antt =====
-- copy.go, `CopyToPod`: files are copied into a container.
use kubejob.Prelude.{
  ℕ, String, ◌<>◌, Bool, true, false, not, ◌&&◌, ◌||◌, Option, none, some, List, [], ◌∷◌, ◌++◌,
  is_some, is_empty, join, if◌then◌else◌,
}
use kubejob.Errors.{Err, plain, err_copy, err_copy_with_empty_path}
use kubejob.Errors.Texts.{err_copy_with_reader_writer}
use kubejob.Cluster.{Cluster, ExecOptions}
use kubejob.Paths.{is_slash, path_join, dir, base}
use kubejob.Tar.{Fs, Sink, Written, write_with_tar}
use kubejob.Executor.{JobExecutor}
use kubejob.Executor.Command.{Outcome, enabled_agent, connection_of, exec_once}
use kubejob.Copy.{Copier, Printers, PipeIn, non_empty_logs, err_spdy, copy_options}

abbrev pub last_is_slash : String → Bool
last_is_slash String.[] = false
last_is_slash (String.◌∷◌ c String.[]) = is_slash c
last_is_slash (String.◌∷◌ c (String.◌∷◌ d s)) = last_is_slash (String.◌∷◌ d s)

abbrev pub but_last : String → String
but_last String.[] = ""
but_last (String.◌∷◌ c String.[]) = ""
but_last (String.◌∷◌ c (String.◌∷◌ d s)) = String.◌∷◌ c (but_last (String.◌∷◌ d s))

-- `dstPath` with no slash as the last character, unless it is the root.
unfoldable pub trim_last_slash : String → String
trim_last_slash s = if not (is_empty (but_last s)) && last_is_slash s then but_last s else s

-- The part of `CopyToPod` behind the stream.
unfoldable pub copy_to_result : Printers → String → String → Option Err → PipeIn → Option Err
unfolding err_copy_with_reader_writer
copy_to_result p src_path dst_path written pipe =
    let writer_err = if pipe.drained then written else none in
    if is_some pipe.reader_err || is_some writer_err
    then some (
        err_copy_with_reader_writer p.duration p.formatted src_path dst_path pipe.reader_err
          writer_err (join (non_empty_logs pipe.stdout pipe.stderr) ":"))
    else none

-- The command of the other end; `dstDir` is never empty.
abbrev pub tar_command : String → List String
tar_command dst_dir =
    ("tar" ∷ "--no-same-owner" ∷ "-xmf" ∷ "-" ∷ [])
    ++ (if is_empty dst_dir then [] else "-C" ∷ dst_dir ∷ [])

module _ {W : Type 0} (k : Cluster W) (copier : Copier W) (p : Printers) where
  -- What `CopyToPod` asks the operating system, by os.Stat: whether there is something at a path.
  module _ (exists : String → W → Bool) (fs : W → Fs) (sink : Sink) (nesting : ℕ) where
    abbrev unpacked : String → String → Option Err → PipeIn × W → Option Err × W
    unpacked src_path dst_path written (pipe, w) =
        (copy_to_result p src_path dst_path written pipe, w)

    abbrev sent : String → String → ExecOptions → Written → Option Err × W → Option Err × W
    sent src_path dst_path opts written (some x, w) = (some (err_spdy x), w)
    sent src_path dst_path opts (write_err, items) (none, w) =
        unpacked src_path dst_path write_err (copier.stream_in opts items w)

    -- From the choice of the destination on.
    unfoldable pub send_to : JobExecutor → String → String → W → Option Err × W
    unfolding dir write_with_tar copy_to_result
    send_to e src_path dst_path w =
        let opts = copy_options e (tar_command (dir dst_path)) true in
        sent src_path dst_path opts (write_with_tar (fs w) sink nesting src_path dst_path)
          (k.new_spdy_executor opts w)

    -- Into a directory, with the name of the source; `tested` is the outcome of `test -d`.
    unfoldable pub destination : String → String → Outcome → String
    unfolding path_join base
    destination src_path dst_path tested =
        if is_some tested.err then dst_path else path_join dst_path (base src_path)

    abbrev pub tested_then : JobExecutor → String → String → Outcome × W → Option Err × W
    tested_then e src_path dst_path (o, w) = send_to e src_path (destination src_path dst_path o) w

    -- `CopyToPod`
    unfoldable pub copy_to_pod : JobExecutor → String → String → W → Option Err × W
    unfolding enabled_agent exec_once trim_last_slash send_to destination
    copy_to_pod e src_path dst_path w =
        if e.stopped
        then (some (plain "job: failed to copy to pod. pod is already stopped"), w)
        else if is_empty src_path || is_empty dst_path
        then (some (err_copy_with_empty_path src_path dst_path), w)
        else if not (exists src_path w)
        then (
          some (
              err_copy src_path dst_path
                (plain (src_path <> " doesn't exist in local filesystem"))),
          w,
        )
        else if enabled_agent e.target
        then copier.copy_to_agent (connection_of e.target) src_path dst_path w
        else let dst = trim_last_slash dst_path in
          tested_then e src_path dst (exec_once k e.target ("test" ∷ "-d" ∷ dst ∷ []) w)
