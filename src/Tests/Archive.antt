-- ===== src/Tests/Archive.antt =====
-- The archives, those of tar and those of the agent, at concrete files.
use kubejob.Prelude.{
  ℕ, suc, ◌≡◌, refl, String, true, false, none, some, List, [], ◌∷◌, All, str_eq, if◌then◌else◌,
  arith,
}
use kubejob.Errors.{ok, plain}
use kubejob.Tar.{Fs, write_with_tar}
use kubejob.Tar.Tree.{
  Tree, regular, directory, bare, branch, info_of, flatten, height, IsAt, IsContent,
  write_with_tar-flatten,
}
use kubejob.Tar.Landing.{IsNamed, LandsInside, write_with_tar-LandsInside}
use kubejob.Untar.Inside.{Inside}
use kubejob.Untar.Confined.{IsMakeable}
use kubejob.Archive.{Files, archive_target, extract_entries}
use kubejob.Archive.Names.{entered, found, found_items, visits_of, WalkStep, archive_target-found}
use kubejob.Archive.Extract.{extract_entries-Keeps}
use kubejob.AgentCopy.{Machine, serve_copy_to, agent_copy_from, archive_of}
use kubejob.AgentCopy.Whole.{sound_machine, received_at, agent_copy_from-whole}
use kubejob.Archive.Created.{Member, member_entries, all_created}
use kubejob.Transfer.{server_copy_from}
use kubejob.Transfer.Whole.{ReadsSome}
use kubejob.Tests.Untar.{noting, path_log, path_log-KeepsInside, file_entry}
use kubejob.AgentCopy.Answers.{with_decode, serve_copy_to-response}

-- The directory /tmp/a with a file x in it.
abbrev pub tree : Tree
tree = directory 493 (branch "x" (regular 420 (1 ∷ 2 ∷ [])) bare)

abbrev pub tree_fs : Fs
tree_fs = record {
  glob = λ path. ok (path ∷ []);
  lstat = λ path. if str_eq path "/tmp/a" then ok (info_of tree) else ok (info_of (regular 420 []));
  read_dir = λ path. ok ("x" ∷ []);
  readlink = λ path. ok "";
  open_file = λ path. ok (1 ∷ 2 ∷ [], none);
}

pub tree-IsAt : IsAt tree_fs "/tmp" "a" tree
unfolding IsContent kubejob.Paths.path_join kubejob.Prelude.Text.join kubejob.Paths.clean
tree-IsAt = ((refl, refl), (refl, (((refl, refl), refl), tt)))

write_with_tar-flatten_example :
    write_with_tar tree_fs (λ item. none) 2 "/tmp/a" "/b" ≡ (none, flatten "b" tree)
unfolding height kubejob.Paths.clean kubejob.Paths.dir kubejob.Paths.base kubejob.Prelude.Text.join
write_with_tar-flatten_example =
    write_with_tar-flatten tree_fs (λ item. none) 2 "/tmp/a" "/b" tree (λ item. refl) (omega arith)
      tree-IsAt

abbrev steps : List WalkStep
steps = entered "a" ∷ found "a/x" 420 (1 ∷ 2 ∷ []) ∷ []

abbrev files : Files
files = record {
  stat = λ path. ok (true, 493);
  walk = λ path. visits_of "/tmp" steps;
  open_file = λ path. ok (1 ∷ 2 ∷ [], none);
}

archive_target-found_example :
    archive_target files (λ item. none) "/tmp/a" ≡ (none, found_items steps)
unfolding kubejob.Paths.dir kubejob.Prelude.Text.join
archive_target-found_example =
    archive_target-found files (λ item. none) "/tmp/a" "/tmp" 493 steps (λ item. refl) refl refl
      refl (tt, (refl, tt))

path_join-Inside : Inside "/dst" (kubejob.Paths.path_join "/dst" "a")
unfolding kubejob.Paths.path_join kubejob.Paths.clean_path kubejob.Prelude.Text.join
    kubejob.Paths.clean
path_join-Inside = ("a" ∷ [], refl)

extract_entries-Keeps_example :
    All
      (IsMakeable "/dst")
      (extract_entries path_log "/dst.tar" "/dst" (file_entry "a" ∷ []) none []).1
extract_entries-Keeps_example =
    extract_entries-Keeps path_log "/dst" (λ w. All (IsMakeable "/dst") w)
      (path_log-KeepsInside "/dst") "/dst.tar" (file_entry "a" ∷ []) none [] (path_join-Inside, tt)
      tt

abbrev machine : Machine (List String)
machine = record {
  os = path_log;
  files = λ w. files;
  channel = record {
    read_length = λ bytes. 2;
    read_error = λ bytes. none;
    send_error = λ chunk. none;
    write_error = λ chunk. none;
  };
  sink = λ item. none;
  encode = λ items. 1 ∷ [];
  decode = λ bytes e. record { entries = file_entry "a" ∷ []; ending = none };
}

serve_copy_to-response_example :
    (serve_copy_to machine (λ n. none) "/dst" ((1 ∷ []) ∷ []) []).0.0
    ≡ (serve_copy_to
        (with_decode machine (λ bytes e. record { entries = []; ending = some (plain "corrupt") }))
        (λ n. none)
        "/dst"
        ((1 ∷ []) ∷ [])
        []).0.0
serve_copy_to-response_example =
    serve_copy_to-response machine (λ n. none) "/dst" ((1 ∷ []) ∷ [])
      (λ bytes e. record { entries = []; ending = some (plain "corrupt") }) []

tree-IsNamed : IsNamed tree
unfolding IsNamed
tree-IsNamed = ((refl, refl, refl, refl), tt, tt)

write_with_tar-LandsInside_example :
    All (LandsInside "/b") (write_with_tar tree_fs (λ item. none) 2 "/tmp/a" "/b").1
unfolding height kubejob.Paths.clean kubejob.Paths.clean_path kubejob.Paths.dir kubejob.Paths.base
    kubejob.Prelude.Text.join
write_with_tar-LandsInside_example =
    write_with_tar-LandsInside tree_fs (λ item. none) 2 "/tmp/a" "/b" tree "b" [] (λ item. refl)
      (omega arith) tree-IsAt tree-IsNamed refl refl

abbrev members : List Member
members = record { first = "a"; rest = "x" ∷ []; mode = 420; content = 7 ∷ [] } ∷ []

abbrev reading_machine : Machine (List String)
reading_machine = record machine {
  decode = λ bytes e. record { entries = member_entries members; ending = none };
}

machine-ReadsSome : ReadsSome machine.channel
machine-ReadsSome = record { some_byte = λ b bytes. omega arith; buffer = λ bytes. omega arith }

agent_copy_from-whole_example :
    agent_copy_from
      (sound_machine reading_machine noting machine.channel)
      (λ path w. (ok ((server_copy_from machine.channel (1 ∷ 2 ∷ [])).1, none), w))
      "/src/a"
      "/dst"
      []
    ≡ (
      none,
      noting.remove (archive_of reading_machine "/dst" []) (
          all_created noting "/dst" members (
            received_at reading_machine noting machine.channel
              (archive_of reading_machine "/dst" [])
              (1 ∷ 2 ∷ [])
              [])),
    )
unfolding kubejob.Transfer.send_loop
agent_copy_from-whole_example =
    agent_copy_from-whole reading_machine noting machine.channel
      (λ path w. (ok ((server_copy_from machine.channel (1 ∷ 2 ∷ [])).1, none), w)) "/src/a" "/dst"
      (1 ∷ 2 ∷ []) members [] [] refl machine-ReadsSome refl (λ chunk. refl) refl refl refl
      (((refl, refl, refl, refl), ((refl, refl, refl, refl), tt)), tt)
