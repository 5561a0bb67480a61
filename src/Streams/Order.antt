-- ===== src/Streams/Order.antt =====
-- What reaches the logger from the streams of job.go, in which order.
use kubejob.Prelude.{
  subst, sym, ℕ, zero, suc, ◌≤◌, replicate, arith, All, ◌∙◌, String, ◌≡◌, refl, ap, Bool, true,
  false, not, none, some, List, [], ◌∷◌, ◌++◌, map,
}
use mathlib.Core.List.{append_assoc, append-nil}
use kubejob.Kube.{Pod, Container}
use kubejob.Errors.{log_stream_error, Err, ok, err}
use kubejob.Logs.{ContainerLog, LogSwitches, enabled_init_command_log}
use kubejob.Streams.{
  AllStreamed, late_logs, failed_read, and_stream, Read, line, eof, LogSource, log_of, read_loop,
  log_stream_container, command_logs, stream_in_order, log_stream_init_containers,
}

-- A whole log: its lines, and then what has no newline; behind the end, what later reads give.
abbrev pub whole : List String → String → List Read → List Read
whole [] rest ends = eof rest ∷ ends
whole (text ∷ texts) rest ends = line text ∷ whole texts rest ends

-- A read behind the end of a log gives no line.
abbrev pub IsEnd : Read → Type 0
IsEnd (line text) = ⊥
IsEnd (eof rest) = Unit
IsEnd (failed_read e) = Unit

abbrev pub lines_of : Pod → Container → Bool → List String → List ContainerLog
lines_of pod c false texts = []
lines_of pod c true texts = map (λ text. log_of pod c text false) texts

read_whole :
    (pod : Pod) (c : Container) (enabled : Bool) (texts : List String) (rest : String)
    (ends : List Read)
    → read_loop pod c enabled (whole texts rest ends) ≡ (
      some none,
      lines_of pod c enabled texts ++ log_of pod c "" true ∷ [],
      late_logs pod c enabled 1 ends,
    )
unfolding read_loop
read_whole pod c false [] rest ends = refl
read_whole pod c true [] rest ends = refl
read_whole pod c false (text ∷ texts) rest ends =
    ap (λ r. (r.0, r.1, r.2)) (read_whole pod c false texts rest ends)
read_whole pod c true (text ∷ texts) rest ends =
    ap (λ r. (r.0, log_of pod c text false ∷ r.1, r.2)) (read_whole pod c true texts rest ends)

-- At most so many marks of the end of the container's log, and nothing else.
abbrev pub AtMost : ℕ → Pod → Container → List ContainerLog → Type 0
AtMost n pod c logs = (m : ℕ) × (m ≤ n) × (logs ≡ replicate m (log_of pod c "" true))

late_logs-AtMost :
    (pod : Pod) (c : Container) (enabled : Bool) (room : ℕ) (ends : List Read)
    → All IsEnd ends
    → AtMost (suc room) pod c (late_logs pod c enabled room ends)
unfolding late_logs
late_logs-AtMost pod c enabled room [] h = (0, omega arith, refl)
late_logs-AtMost pod c enabled room (line text ∷ ends) h = absurd h.0
late_logs-AtMost pod c enabled zero (eof rest ∷ ends) h = (1, omega arith, refl)
late_logs-AtMost pod c enabled (suc room) (eof rest ∷ ends) h =
    let (m, few, e) = late_logs-AtMost pod c enabled room ends h.1 in
    (suc m, omega arith, ap (λ l. log_of pod c "" true ∷ l) e)
late_logs-AtMost pod c enabled zero (failed_read x ∷ ends) h = (0, omega arith, refl)
late_logs-AtMost pod c enabled (suc room) (failed_read x ∷ ends) h =
    let (m, few, e) = late_logs-AtMost pod c enabled room ends h.1 in (m, omega arith, e)

-- What the log of one container is to give: the command, the lines, and a mark of the end.
abbrev pub expected_logs : Pod → Bool → Bool → Container → List String → List ContainerLog
expected_logs pod commands enabled c texts =
    command_logs commands pod c ++ (lines_of pod c enabled texts ++ log_of pod c "" true ∷ [])

container_whole :
    (job_name : String) (pod : Pod) (commands enabled : Bool) (c : Container) (texts : List String)
    (rest : String) (ends : List Read)
    → log_stream_container job_name pod c commands enabled (ok (whole texts rest ends))
      ≡ (none, expected_logs pod commands enabled c texts, late_logs pod c enabled 1 ends)
unfolding log_stream_container
container_whole job_name pod commands enabled c texts rest ends =
    rw (read_whole pod c enabled texts rest ends) refl

-- Container by container, its late logs are at most two more marks of its end.
abbrev pub AllLate : Pod → List Container → List (List ContainerLog) → Type 0
AllLate pod [] [] = Unit
AllLate pod (c ∷ cs) (late ∷ lates) = AtMost 2 pod c late × AllLate pod cs lates
AllLate pod _ _ = ⊥

abbrev pub in_turn : (Container → List ContainerLog) → List Container → List ContainerLog
in_turn f [] = []
in_turn f (c ∷ cs) = f c ++ in_turn f cs

module _ (job_name : String) (pod : Pod) (s : LogSwitches) (source : LogSource)
    (texts : Container → List String) (rest : Container → String)
    (ends : Container → List Read) where
  abbrev commands : Bool
  commands = enabled_init_command_log s

  abbrev lines : Bool
  lines = not s.disabled_init_container_log

  -- The log of the container can be opened and read to its end, and behind it there are no more lines.
  abbrev pub IsWhole : Container → Type 0
  IsWhole c = (source c ≡ ok (whole (texts c) (rest c) (ends c))) × All IsEnd (ends c)

  abbrev pub init_logs : List Container → List ContainerLog
  init_logs = in_turn λ c. expected_logs pod commands lines c (texts c)

  abbrev late_of : Container → List ContainerLog
  late_of c = late_logs pod c lines 1 (ends c)

  late_of-AllLate : (cs : List Container) → All IsWhole cs → AllLate pod cs (map late_of cs)
  late_of-AllLate [] h = tt
  late_of-AllLate (c ∷ cs) h =
      (late_logs-AtMost pod c lines 1 (ends c) h.0.1, late_of-AllLate cs h.1)

  one_more :
      (c : Container) (cs : List Container)
      → IsWhole c
      → stream_in_order job_name pod commands lines source (c ∷ cs) ≡ (
          let (e, logs, lates) = stream_in_order job_name pod commands lines source cs in
          (e, expected_logs pod commands lines c (texts c) ++ logs, late_of c ∷ lates))
  unfolding stream_in_order
  one_more c cs h =
      let here : log_stream_container job_name pod c commands lines (source c)
          ≡ (none, expected_logs pod commands lines c (texts c), late_of c) =
        ap (log_stream_container job_name pod c commands lines) h.0
        ∙ container_whole job_name pod commands lines c (texts c) (rest c) (ends c) in
      ap (λ r. and_stream r (stream_in_order job_name pod commands lines source cs)) here

  stream_after :
      (before cs : List Container)
      → All IsWhole before
      → stream_in_order job_name pod commands lines source (before ++ cs) ≡ (
          let (e, logs, lates) = stream_in_order job_name pod commands lines source cs in
          (e, init_logs before ++ logs, map late_of before ++ lates))
  stream_after [] cs h = refl
  stream_after (c ∷ before) cs h =
      one_more c (before ++ cs) h.0
      ∙ ap
          (λ (r : AllStreamed).
            (r.0, expected_logs pod commands lines c (texts c) ++ r.1, late_of c ∷ r.2))
          (stream_after before cs h.1)
      ∙ simp append_assoc

  stream_all :
      (cs : List Container)
      → All IsWhole cs
      → stream_in_order job_name pod commands lines source cs ≡ (none, init_logs cs, map late_of cs)
  unfolding stream_in_order
  stream_all [] h = refl
  stream_all (c ∷ cs) h =
      one_more c cs h.0
      ∙ ap
          (λ (r : AllStreamed).
            (r.0, expected_logs pod commands lines c (texts c) ++ r.1, late_of c ∷ r.2))
          (stream_all cs h.1)

  -- If the logs of all init containers can be read to their ends, and later reads give no more lines,
  -- the streams send those of one container after the other: its command, if these are on, its lines,
  -- if these are, and a mark of the end. What follows the last newline of a log is not sent. What a
  -- reader may still send late is at most two more marks of the end of its container.
  pub log_stream_init_containers-whole :
      All IsWhole pod.spec.init_containers
      → let r = log_stream_init_containers job_name s source pod in
        (r.0 ≡ none)
        × (r.1 ≡ init_logs pod.spec.init_containers)
        × AllLate pod pod.spec.init_containers r.2
  unfolding log_stream_init_containers
  log_stream_init_containers-whole h =
      rw (stream_all pod.spec.init_containers h)
        (refl, refl, late_of-AllLate pod.spec.init_containers h)

  stream_fails :
      (before after : List Container) (c : Container) (x : Err)
      → All IsWhole before
      → source c ≡ err x
      → stream_in_order job_name pod commands lines source (before ++ c ∷ after) ≡ (
        some (log_stream_error job_name pod c true x),
        init_logs before,
        map late_of before ++ [] ∷ [],
      )
  unfolding stream_in_order log_stream_container
  stream_fails before after c x h f =
      let stops : stream_in_order job_name pod commands lines source (c ∷ after)
          ≡ (some (log_stream_error job_name pod c true x), [], [] ∷ []) =
        ap
          (λ r.
            and_stream (log_stream_container job_name pod c commands lines r)
              (stream_in_order job_name pod commands lines source after))
          f in
      stream_after before (c ∷ after) h
      ∙ ap (λ (r : AllStreamed). (r.0, init_logs before ++ r.1, map late_of before ++ r.2)) stops
      ∙ ap (λ l. (some (log_stream_error job_name pod c true x), l, map late_of before ++ [] ∷ []))
          (append-nil (init_logs before))

  last-AllLate :
      (before : List Container) (c : Container)
      → All IsWhole before
      → AllLate pod (before ++ c ∷ []) (map late_of before ++ [] ∷ [])
  last-AllLate [] c h = ((0, omega arith, refl), tt)
  last-AllLate (b ∷ before) c h =
      (late_logs-AtMost pod b lines 1 (ends b) h.0.1, last-AllLate before c h.1)

  -- If the first log that cannot be opened is that of `c`, and those before it can be read to their
  -- ends with no more lines behind, the streams before send their logs in turn and none after does,
  -- and the error is that of `c`, marked as an init container. What a reader may still send late is
  -- at most two more marks of the end of its container.
  pub log_stream_init_containers-fails :
      (before after : List Container) (c : Container) (x : Err)
      → pod.spec.init_containers ≡ before ++ c ∷ after
      → All IsWhole before
      → source c ≡ err x
      → let r = log_stream_init_containers job_name s source pod in
        (r.0 ≡ some (log_stream_error job_name pod c true x))
        × (r.1 ≡ init_logs before)
        × AllLate pod (before ++ c ∷ []) r.2
  unfolding log_stream_init_containers
  log_stream_init_containers-fails before after c x e h f =
      let same =
        ap (stream_in_order job_name pod commands lines source) e
        ∙ stream_fails before after c x h f in
      subst
        (λ (r : AllStreamed).
          (r.0 ≡ some (log_stream_error job_name pod c true x))
          × (r.1 ≡ init_logs before)
          × AllLate pod (before ++ c ∷ []) r.2)
        (sym same) (refl, refl, last-AllLate before c h)
