-- ===== src/Copy/Whole.antt =====
-- `CopyFromPod` of copy.go from end to end, over the Kubernetes API.
use kubejob.Prelude.{
  ℕ, suc, ◌≡◌, refl, ap, ◌∙◌, String, ◌<>◌, Bool, true, false, Option, none, List, [], ◌∷◌, All,
  is_empty, join, arith,
}
use text.Mathlib.TextLemmas.{nil-append, cons-append}
use kubejob.Paths.{CleanPath, is_rooted, clean, print_path}
use kubejob.Paths.Normal.{IsName, IsNormal, IsName-IsElement, is_rooted-join, clean_path-print_path}
use kubejob.Paths.Below.{is_empty-root, is_empty-join}
use kubejob.Untar.{trim_shortcut_path}
use kubejob.Untar.Shortcut.{trim_shortcut_path-print_path}
use kubejob.Cluster.{Cluster, ExecOptions}
use kubejob.Logs.{Logger, LogLevel}
use kubejob.Executor.{JobExecutor}
use kubejob.Executor.Command.{enabled_agent}
use kubejob.Untar.Placed.{
  Effects, unfailing, Placed, names_of, entries_of, all_placed, untar_all-placed,
}
use kubejob.Copy.{
  trim_slashes, Copier, Printers, PipeOut, copy_retry_count, copy_options, tar_prefix,
  copy_from_pod_once, copy_from_result, after_attempt, copy_loop, copy_from_pod_with_retry,
  copy_from_pod, is_retryable_error,
}

-- A path that goes down the names, from the root or not.
abbrev pub down_path : Bool → List String → String
down_path true names = "/" <> join names "/"
down_path false names = join names "/"

-- A stream that ended without an error, with an archive as tar writes it of the path that goes down the
-- names: its entries are named by that path, with no slash in front.
abbrev pub whole_pipe : List String → List Placed → String → PipeOut
whole_pipe names ps log = record {
  archive = record { entries = entries_of (join names "/") ps; ending = none };
  writer_err = none;
  writer_log = log;
}

trim_slashes_lem : (s : String) → is_rooted s ≡ false → trim_slashes s ≡ s
unfolding trim_slashes
trim_slashes_lem String.[] h = refl
trim_slashes_lem (String.◌∷◌ c s) h = ground arith

trim_slashes-root : (s : String) → is_rooted s ≡ false → trim_slashes ("/" <> s) ≡ s
unfolding trim_slashes
trim_slashes-root s h = rw (cons-append _ "" s, nil-append s) (trim_slashes_lem s h)

trim_slashes-down :
    (rooted : Bool) (n : String) (ns : List String)
    → All IsName (n ∷ ns)
    → trim_slashes (down_path rooted (n ∷ ns)) ≡ join (n ∷ ns) "/"
trim_slashes-down true n ns h =
    trim_slashes-root (join (n ∷ ns) "/") (is_rooted-join n ns (IsName-IsElement (n ∷ ns) h).0)
trim_slashes-down false n ns h =
    trim_slashes_lem (join (n ∷ ns) "/") (is_rooted-join n ns (IsName-IsElement (n ∷ ns) h).0)

tar_prefix-down :
    (rooted : Bool) (n : String) (ns : List String)
    → All IsName (n ∷ ns)
    → tar_prefix (down_path rooted (n ∷ ns)) ≡ join (n ∷ ns) "/"
unfolding tar_prefix clean print_path
tar_prefix-down rooted n ns h =
    let c : CleanPath = record { rooted = false; ups = 0; names = n ∷ ns } in
    let normal : IsNormal c = record { names_only = h; root = λ e. cc } in
    ap (λ s. trim_shortcut_path (clean s)) (trim_slashes-down rooted n ns h)
    ∙ ap (λ d. trim_shortcut_path (print_path d)) (clean_path-print_path c normal)
    ∙ trim_shortcut_path-print_path c normal refl

is_empty-down :
    (rooted : Bool) (n : String) (ns : List String)
    → All IsName (n ∷ ns)
    → is_empty (down_path rooted (n ∷ ns)) ≡ false
is_empty-down true n ns h = is_empty-root (join (n ∷ ns) "/")
is_empty-down false n ns h = is_empty-join n ns h.0.0

abbrev pub out_options : JobExecutor → String → ExecOptions
out_options e src_path = copy_options e ("tar" ∷ "cf" ∷ "-" ∷ src_path ∷ []) false

module _ {W : Type 0} (k : Cluster W) (fx : Effects W) (copier : Copier W) (p : Printers)
    (level : LogLevel) (logger : Option (Logger W)) (e : JobExecutor) (rooted : Bool) (n : String)
    (ns : List String) (named : All IsName (n ∷ ns)) (dst_path log : String)
    (ps : List Placed) where
  abbrev src_path : String
  src_path = down_path rooted (n ∷ ns)

  copy_from_pod_once-whole :
      (w1 w2 w3 : W)
      → is_empty dst_path ≡ false
      → k.new_spdy_executor (out_options e src_path) w1 ≡ (none, w2)
      → copier.stream_out (out_options e src_path) w2 ≡ (whole_pipe (n ∷ ns) ps log, w3)
      → All (λ (q : Placed). All IsName (names_of q)) ps
      → copy_from_pod_once k (unfailing fx) copier p e src_path dst_path w1
        ≡ (none, all_placed fx dst_path ps w3)
  unfolding copy_from_pod_once copy_from_result is_retryable_error
  copy_from_pod_once-whole w1 w2 w3 d x o h =
      rw
        (
          is_empty-down rooted n ns named,
          d,
          x,
          o,
          tar_prefix-down rooted n ns named,
          untar_all-placed fx p.quote (join (n ∷ ns) "/") dst_path d ps w3 h,
        )
        refl

  copy_from_pod_with_retry-whole :
      (rounds : ℕ) (w w1 w2 w3 : W)
      → is_empty dst_path ≡ false
      → k.start_backoff copy_retry_count w ≡ (suc rounds, w1)
      → k.new_spdy_executor (out_options e src_path) w1 ≡ (none, w2)
      → copier.stream_out (out_options e src_path) w2 ≡ (whole_pipe (n ∷ ns) ps log, w3)
      → All (λ (q : Placed). All IsName (names_of q)) ps
      → copy_from_pod_with_retry k (unfailing fx) copier p level logger e src_path dst_path w
        ≡ (none, all_placed fx dst_path ps w3)
  unfolding copy_from_pod_with_retry copy_loop after_attempt is_retryable_error
  copy_from_pod_with_retry-whole rounds w w1 w2 w3 d b x o h =
      let once = copy_from_pod_once-whole w1 w2 w3 d x o h in rw (b, copy_loop, once, once) refl

  by_api :
      (w : W)
      → e.stopped ≡ false
      → enabled_agent e.target ≡ false
      → copy_from_pod k (unfailing fx) copier p level logger e src_path dst_path w
        ≡ copy_from_pod_with_retry k (unfailing fx) copier p level logger e src_path dst_path w
  unfolding copy_from_pod
  by_api w not_stopped no_agent = ground arith

  -- For an executor that is not stopped and has no agent, a source that is a path down some names, from
  -- the root or not, and a destination that is not empty: when the policy grants a round, the stream of
  -- tar ends without an error, its archive is as tar writes it of that source, of a single file too, and
  -- no call of the operating system fails, `CopyFromPod` returns nil after one attempt, and all files of
  -- the archive are at their places below the destination, with content and mode.
  pub copy_from_pod-whole :
      (rounds : ℕ) (w w1 w2 w3 : W)
      → e.stopped ≡ false
      → enabled_agent e.target ≡ false
      → is_empty dst_path ≡ false
      → k.start_backoff copy_retry_count w ≡ (suc rounds, w1)
      → k.new_spdy_executor (out_options e src_path) w1 ≡ (none, w2)
      → copier.stream_out (out_options e src_path) w2 ≡ (whole_pipe (n ∷ ns) ps log, w3)
      → All (λ (q : Placed). All IsName (names_of q)) ps
      → copy_from_pod k (unfailing fx) copier p level logger e src_path dst_path w
        ≡ (none, all_placed fx dst_path ps w3)
  copy_from_pod-whole rounds w w1 w2 w3 not_stopped no_agent d b x o h =
      by_api w not_stopped no_agent ∙ copy_from_pod_with_retry-whole rounds w w1 w2 w3 d b x o h
