-- ===== src/Tests/Copy.antt =====
-- `CopyFromPod` and `CopyToPod` at concrete inputs.
use kubejob.Prelude.{
  inl, inr, All, ℕ, ◌≡◌, refl, String, ◌<>◌, true, false, none, some, List, [], ◌∷◌, arith,
}
use kubejob.Errors.{unexpected_eof}
use kubejob.Logs.{level_none}
use kubejob.Copy.{
  Copier, Printers, copy_from_pod_with_retry, is_retryable_error, tar_prefix, contains,
  copy_from_pod,
}
use kubejob.Copy.ToPod.{trim_last_slash, copy_to_pod}
use kubejob.Copy.Sent.{copy_to_pod-whole}
use kubejob.Tar.Tree.{height}
use kubejob.Executor.Command.{Outcome, exec_once, enabled_agent}
use kubejob.Tests.Archive.{tree, tree_fs, tree-IsAt}
use kubejob.Copy.Rounds.{IsCopyAttempt, copy_from_pod_with_retry-IsCopyAttempt}
use kubejob.Tests.Data.{recorder, Calls, executor_of, main_container}
use kubejob.Tests.Untar.{path_log, noting}
use kubejob.Paths.Normal.{IsName}
use kubejob.Copy.Whole.{whole_pipe, copy_from_pod-whole}
use kubejob.Untar.Placed.{folder_at, Placed, file_at, unfailing, all_placed}

abbrev printers : Printers
printers = record { duration = λ n. ""; formatted = λ s. s; quote = λ s. s }

-- An archive that stops in the middle.
abbrev copier : Copier Calls
copier = record {
  stream_out = λ o w. (
    record {
      archive = record { entries = []; ending = some unexpected_eof };
      writer_err = some unexpected_eof;
      writer_log = "";
    },
    "tar" ∷ w,
  );
  stream_in = λ o items w.
      (record { reader_err = none; stdout = ""; stderr = ""; drained = true }, "untar" ∷ w);
  copy_from_agent = λ c s d w. (none, w);
  copy_to_agent = λ c s d w. (none, w);
}

prefix_of : tar_prefix "/../a/b" ≡ "a/b"
unfolding tar_prefix kubejob.Copy.trim_slashes kubejob.Untar.trim_shortcut_path
    kubejob.Untar.strip_back kubejob.Paths.clean kubejob.Prelude.Text.join
prefix_of = refl

slash_trimmed : trim_last_slash "/a/" ≡ "/a"
unfolding trim_last_slash
slash_trimmed = refl

root_kept : trim_last_slash "/" ≡ "/"
unfolding trim_last_slash
root_kept = refl

contains_part : contains "rpc: error dialing backend: EOF" "error dialing backend: EOF" ≡ true
unfolding contains kubejob.Untar.strip_prefix
contains_part = refl

copy_from_pod_with_retry-IsCopyAttempt_example :
    (n : ℕ) × IsCopyAttempt recorder path_log copier printers level_none none
      (executor_of main_container)
      "/src"
      "/dst"
      0
      9
      []
      (copy_from_pod_with_retry recorder path_log copier printers level_none none
        (executor_of main_container)
        "/src"
        "/dst"
        []).0
      n
copy_from_pod_with_retry-IsCopyAttempt_example =
    copy_from_pod_with_retry-IsCopyAttempt recorder path_log copier printers level_none none
      (executor_of main_container) "/src" "/dst" 8 [] [] refl

abbrev one_file : List Placed
one_file = folder_at ("sub" ∷ []) ∷ file_at ("b" ∷ []) 420 (1 ∷ []) ∷ []

abbrev sound_copier : Copier Calls
sound_copier = record copier {
  stream_out = λ o w. (whole_pipe ("src" ∷ "a" ∷ []) one_file "", "tar" ∷ w);
}

src_named : All IsName ("src" ∷ "a" ∷ [])
src_named = ((refl, refl, refl, refl), ((refl, refl, refl, refl), tt))

copy_from_pod-whole_example :
    copy_from_pod recorder
      (unfailing noting)
      sound_copier
      printers
      level_none
      none
      (executor_of main_container)
      "/src/a"
      "/dst"
      []
    ≡ (none, all_placed noting "/dst" one_file ("tar" ∷ []))
unfolding enabled_agent kubejob.Prelude.Text.join
copy_from_pod-whole_example =
    copy_from_pod-whole recorder noting sound_copier printers level_none none
      (executor_of main_container) true "src" ("a" ∷ []) src_named "/dst" "" one_file 8 [] [] []
      ("tar" ∷ []) refl refl refl refl refl refl
      (((refl, refl, refl, refl), tt), (((refl, refl, refl, refl), tt), tt))

abbrev tested : Outcome × Calls
tested = exec_once recorder (executor_of main_container).target ("test" ∷ "-d" ∷ "/b" ∷ []) []

copy_to_pod-whole_example :
    copy_to_pod recorder copier printers
      (λ path w. true)
      (λ w. tree_fs)
      (λ item. none)
      2
      (executor_of main_container)
      "/tmp/a"
      "/b"
      []
    ≡ (none, "untar" ∷ tested.1)
unfolding enabled_agent height trim_last_slash kubejob.Paths.clean kubejob.Paths.dir
    kubejob.Paths.base kubejob.Prelude.Text.join exec_once kubejob.Paths.path_join
copy_to_pod-whole_example =
    copy_to_pod-whole recorder copier printers (λ path w. true) (λ w. tree_fs) (λ item. none) 2
      (executor_of main_container) "/tmp/a" "/b" "/b" "/b/a" tree tested.0
      (record { reader_err = none; stdout = ""; stderr = ""; drained = true }) [] tested.1 tested.1
      ("untar" ∷ tested.1) refl refl refl refl refl (λ item. refl) (omega arith)
      (inr (refl, refl, inl refl)) refl (inr (refl, refl)) tree-IsAt refl refl refl
