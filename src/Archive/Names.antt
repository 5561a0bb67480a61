-- ===== src/Archive/Names.antt =====
-- The names that `archivePath` of agent.go gives the files of a directory.
use kubejob.Prelude.{
  ℕ, zero, suc, ◌+◌, ◌≡◌, refl, ap, sym, ◌∙◌, String, ◌<>◌, true, false, none, List, [], ◌∷◌, All,
  arith,
}
use text.Mathlib.TextLemmas.{nil-append, cons-append}
use kubejob.Errors.{ok}
use kubejob.Paths.{dir}
use kubejob.Os.{Bytes}
use kubejob.Tar.{TarItem, Sink}
use kubejob.Archive.{
  Visit, Files, text_length, drop_text, archived_name, file_item, write_visits, archive_target,
}

drop_text-append : (d s : String) → drop_text (text_length d) (d <> s) ≡ s
unfolding text_length drop_text
drop_text-append String.[] s = nil-append s
drop_text-append (String.◌∷◌ c d) s =
    ap (drop_text (suc (text_length d))) (cons-append c d s) ∙ drop_text-append d s

slash_first : (s : String) → drop_text 1 ("/" <> s) ≡ s
unfolding drop_text
slash_first s = rw (cons-append _ "" s, nil-append s) refl

drop_text-nil : (n : ℕ) → drop_text n "" ≡ ""
unfolding drop_text
drop_text-nil zero = refl
drop_text-nil (suc n) = refl

drop_text-sum : (m n : ℕ) (s : String) → drop_text (m + n) s ≡ drop_text n (drop_text m s)
unfolding drop_text
drop_text-sum zero n s = ap (λ k. drop_text k s) (omega arith)
drop_text-sum (suc m) n String.[] = drop_text-nil (suc m + n) ∙ sym (drop_text-nil n)
drop_text-sum (suc m) n (String.◌∷◌ c s) =
    let next : suc m + n ≡ suc (m + n) = omega arith in
    ap (λ k. drop_text k (String.◌∷◌ c s)) next ∙ drop_text-sum m n s

-- Below a directory the name is what comes behind the slash.
archived_name-below : (d rest : String) → archived_name d (d <> ("/" <> rest)) ≡ rest
unfolding archived_name
archived_name-below d rest =
    drop_text-sum (text_length d) 1 (d <> ("/" <> rest))
    ∙ ap (drop_text 1) (drop_text-append d ("/" <> rest))
    ∙ slash_first rest

-- A step of a walk, with the path below the parent of what is archived: a directory is entered, or a
-- file is found, with its mode and content.
pub data WalkStep : Type 0 where
  entered : String → WalkStep
  found : String → ℕ → Bytes → WalkStep

abbrev pub visit_of : String → WalkStep → Visit
visit_of parent (entered rest) = record {
  path = parent <> ("/" <> rest);
  is_dir = true;
  mode = 0;
  failure = none;
}
visit_of parent (found rest mode bytes) = record {
  path = parent <> ("/" <> rest);
  is_dir = false;
  mode = mode;
  failure = none;
}

abbrev pub visits_of : String → List WalkStep → List Visit
visits_of parent [] = []
visits_of parent (step ∷ steps) = visit_of parent step ∷ visits_of parent steps

-- What the archive should hold: the files, named by their paths below the parent.
abbrev pub found_items : List WalkStep → List TarItem
found_items [] = []
found_items (entered rest ∷ steps) = found_items steps
found_items (found rest mode bytes ∷ steps) = file_item rest mode bytes ∷ found_items steps

abbrev pub IsReadable : Files → String → WalkStep → Type 0
IsReadable fs parent (entered rest) = Unit
IsReadable fs parent (found rest mode bytes) =
    fs.open_file (parent <> ("/" <> rest)) ≡ ok (bytes, none)

module _ (fs : Files) (sink : Sink) (sound : (item : TarItem) → sink item ≡ none)
    (parent : String) where
  write_visits-found :
      (steps : List WalkStep)
      → All (IsReadable fs parent) steps
      → write_visits fs sink parent (visits_of parent steps) ≡ (none, found_items steps)
  unfolding write_visits
  write_visits-found [] h = refl
  write_visits-found (entered rest ∷ steps) h = rw (write_visits-found steps h.1) refl
  write_visits-found (found rest mode bytes ∷ steps) h =
      rw
        (
          archived_name-below parent rest,
          h.0,
          sound (file_item rest mode []),
          write_visits-found steps h.1,
        )
        refl

-- When filepath.Walk visits the paths below the parent of a directory, each one the parent with a slash
-- and more behind it, all its files can be read and no header fails to be written, `archivePath`
-- succeeds, and the archive holds each file once, in the order of the walk, with its mode and its
-- content, under its path below the parent. (For a directory in `.` or in the root the walk visits other
-- paths.)
pub archive_target-found :
    (fs : Files) (sink : Sink) (target_path parent : String) (mode : ℕ) (steps : List WalkStep)
    → ((item : TarItem) → sink item ≡ none)
    → dir target_path ≡ parent
    → fs.stat target_path ≡ ok (true, mode)
    → fs.walk target_path ≡ visits_of parent steps
    → All (IsReadable fs parent) steps
    → archive_target fs sink target_path ≡ (none, found_items steps)
unfolding archive_target
archive_target-found fs sink target_path parent mode steps sound d s w h =
    rw (s, d, w) (write_visits-found fs sink sound parent steps h)
