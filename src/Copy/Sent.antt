-- ===== src/Copy/Sent.antt =====
-- `CopyToPod` of copy.go from end to end, over the Kubernetes API.
use kubejob.Prelude.{
  ℕ, ◌≤◌, ◌≡◌, refl, sym, ap, ◌∙◌, String, ◌<>◌, Bool, true, false, none, inl, inr, ◌⊎◌, [], ◌∷◌,
  is_some, is_empty, arith,
}
use text.Mathlib.TextLemmas.{cons-append}
use kubejob.Paths.{clean, dir, base, path_join, walk, start, is_rooted, init, split_slash}
use kubejob.Paths.Normal.{IsFlat, All-init, walk-IsNormal, split_slash-IsFlat}
use kubejob.Paths.Last.{is_empty-print_path}
use kubejob.Cluster.{Cluster, ExecOptions}
use kubejob.Executor.{JobExecutor}
use kubejob.Executor.Command.{Outcome, enabled_agent, exec_once}
use kubejob.Tar.{Fs, TarItem, Sink}
use kubejob.Tar.Tree.{Tree, flatten, height, IsAt, write_with_tar-flatten}
use kubejob.Copy.{Copier, Printers, PipeIn, copy_options}
use kubejob.Copy.ToPod.{
  last_is_slash, but_last, trim_last_slash, copy_to_result, tar_command, send_to, destination,
  tested_then, copy_to_pod,
}

-- `dst` is the path with no slash at its end, if it has one; of the root, the root.
abbrev pub IsTrimmed : String → String → Type 0
IsTrimmed dst_path dst =
    ((dst_path ≡ "/") × (dst ≡ "/"))
    ⊎ ((last_is_slash dst ≡ false)
        × (is_empty dst ≡ false)
        × ((dst_path ≡ dst) ⊎ (dst_path ≡ dst <> "/")))

-- What is to be made in the container: `dst`, or where `test -d` has found a directory there, an entry of
-- it with the name of the source.
abbrev pub IsTarget : String → String → Outcome → String → Type 0
IsTarget src_path dst tested target =
    ((is_some tested.err ≡ true) × (target ≡ dst))
    ⊎ ((tested.err ≡ none) × (target ≡ path_join dst (base src_path)))

-- A tar that unpacks its input in the parent of the target.
abbrev pub in_options : JobExecutor → String → ExecOptions
in_options e target =
    copy_options e ("tar" ∷ "--no-same-owner" ∷ "-xmf" ∷ "-" ∷ "-C" ∷ dir target ∷ []) true

with_slash : (s : String) → (but_last (s <> "/") ≡ s) × (last_is_slash (s <> "/") ≡ true)
with_slash String.[] = (refl, refl)
with_slash (String.◌∷◌ c String.[]) = rw (cons-append c "" "/") (refl, refl)
with_slash (String.◌∷◌ c (String.◌∷◌ d s)) =
    let (first, last) = with_slash (String.◌∷◌ d s) in
    let shift = cons-append d s "/" in
    let first' : but_last (String.◌∷◌ d (s <> "/")) ≡ String.◌∷◌ d s =
      sym (ap but_last shift) ∙ first in
    rw (cons-append c (String.◌∷◌ d s) "/", shift)
      (ap (String.◌∷◌ c) first', sym (ap last_is_slash shift) ∙ last)

trim_last_slash-IsTrimmed :
    (dst_path dst : String) → IsTrimmed dst_path dst → trim_last_slash dst_path ≡ dst
unfolding trim_last_slash
trim_last_slash-IsTrimmed dst_path dst (inl (p, q)) = rw (p, q) refl
trim_last_slash-IsTrimmed dst_path dst (inr (l, n, inl p)) = rw (p, l) (ground arith)
trim_last_slash-IsTrimmed dst_path dst (inr (l, n, inr p)) =
    let (first, last) = with_slash dst in rw (p, first, last, n) refl

is_empty-dir : (s : String) → is_empty (dir s) ≡ false
unfolding dir
is_empty-dir s =
    let c = walk (start (is_rooted s)) (init (split_slash s)) in
    is_empty-print_path c (
      walk-IsNormal (start (is_rooted s)) (init (split_slash s))
        (All-init IsFlat (split_slash s) (split_slash-IsFlat s))
        (record { names_only = tt; root = λ h. refl }))

tar_command-dir :
    (s : String)
    → tar_command (dir s) ≡ "tar" ∷ "--no-same-owner" ∷ "-xmf" ∷ "-" ∷ "-C" ∷ dir s ∷ []
tar_command-dir s = rw (is_empty-dir s) refl

sent_result :
    (p : Printers) (src_path dst_path : String) (pipe : PipeIn)
    → pipe.reader_err ≡ none
    → copy_to_result p src_path dst_path none pipe ≡ none
unfolding copy_to_result
sent_result p src_path dst_path pipe r = ground arith

module _ {W : Type 0} (k : Cluster W) (copier : Copier W) (p : Printers)
    (exists : String → W → Bool) (fs : W → Fs) (sink : Sink) (nesting : ℕ) (e : JobExecutor)
    (src_path : String) where
  send_to-whole :
      (dst_path : String) (tree : Tree) (pipe : PipeIn) (w1 w2 w3 : W)
      → ((item : TarItem) → sink item ≡ none)
      → height tree ≤ nesting
      → IsAt (fs w1) (dir (clean src_path)) (base (clean src_path)) tree
      → k.new_spdy_executor (in_options e dst_path) w1 ≡ (none, w2)
      → copier.stream_in (in_options e dst_path) (flatten (base (clean dst_path)) tree) w2
        ≡ (pipe, w3)
      → pipe.reader_err ≡ none
      → send_to k copier p exists fs sink nesting e src_path dst_path w1 ≡ (none, w3)
  unfolding send_to
  send_to-whole dst_path tree pipe w1 w2 w3 sound high at x o r =
      rw
        (
          tar_command-dir dst_path,
          write_with_tar-flatten (fs w1) sink nesting src_path dst_path tree sound high at,
          x,
          o,
        )
        (ap (λ q. (q, w3)) (sent_result p src_path dst_path pipe r))

  by_api :
      (dst_path : String) (w : W)
      → e.stopped ≡ false
      → enabled_agent e.target ≡ false
      → is_empty src_path ≡ false
      → is_empty dst_path ≡ false
      → exists src_path w ≡ true
      → copy_to_pod k copier p exists fs sink nesting e src_path dst_path w
        ≡ tested_then k copier p exists fs sink nesting e src_path
            (trim_last_slash dst_path)
            (exec_once k e.target ("test" ∷ "-d" ∷ trim_last_slash dst_path ∷ []) w)
  unfolding copy_to_pod
  by_api dst_path w not_stopped no_agent s d there = ground arith

  destination-IsTarget :
      (dst target : String) (tested : Outcome)
      → IsTarget src_path dst tested target
      → destination k copier p exists fs sink nesting src_path dst tested ≡ target
  unfolding destination
  destination-IsTarget dst target tested (inl (found, t)) = rw (found, t) refl
  destination-IsTarget dst target tested (inr (found, t)) = rw (found, t) refl

  -- For an executor that is not stopped and has no agent, paths that are not empty and a source that is
  -- there: `dst` is the destination with no slash at its end, and `target` is `dst`, joined with the name
  -- of the source where `test -d` has found a directory. When the files at the source have the shape of
  -- a tree, no header fails, the stream can be made and ends without an error, then `CopyToPod` returns
  -- nil, and what it has sent to a tar in the parent of `target` is the archive of that tree under the
  -- name of `target`.
  pub copy_to_pod-whole :
      (dst_path dst target : String) (tree : Tree) (tested : Outcome) (pipe : PipeIn)
      (w w1 w2 w3 : W)
      → e.stopped ≡ false
      → enabled_agent e.target ≡ false
      → is_empty src_path ≡ false
      → is_empty dst_path ≡ false
      → exists src_path w ≡ true
      → ((item : TarItem) → sink item ≡ none)
      → height tree ≤ nesting
      → IsTrimmed dst_path dst
      → exec_once k e.target ("test" ∷ "-d" ∷ dst ∷ []) w ≡ (tested, w1)
      → IsTarget src_path dst tested target
      → IsAt (fs w1) (dir (clean src_path)) (base (clean src_path)) tree
      → k.new_spdy_executor (in_options e target) w1 ≡ (none, w2)
      → copier.stream_in (in_options e target) (flatten (base (clean target)) tree) w2 ≡ (pipe, w3)
      → pipe.reader_err ≡ none
      → copy_to_pod k copier p exists fs sink nesting e src_path dst_path w ≡ (none, w3)
  copy_to_pod-whole dst_path dst target tree tested pipe w w1 w2 w3 not_stopped no_agent s d there
        sound high trimmed t aim at x o r =
      by_api dst_path w not_stopped no_agent s d there
      ∙ rw (trim_last_slash-IsTrimmed dst_path dst trimmed, t)
          (ap (λ q. send_to k copier p exists fs sink nesting e src_path q w1)
              (destination-IsTarget dst target tested aim)
            ∙ send_to-whole target tree pipe w1 w2 w3 sound high at x o r)
