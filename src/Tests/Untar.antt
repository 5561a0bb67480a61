-- ===== src/Tests/Untar.antt =====
-- `untarAll` and its guard at concrete paths and archives.
use kubejob.Prelude.{◌≡◌, refl, ◌↔◌, inl, String, true, false, none, some, List, [], ◌∷◌, All}
use kubejob.Os.{Os}
use kubejob.Untar.{TarEntry, strip_prefix, trim_shortcut_path, is_dst_relative, untar_all}
use kubejob.Untar.Inside.{Inside, is_dst_relative-Inside}
use kubejob.Untar.Placed.{
  Effects, unfailing, Placed, file_at, dir_at, link_at, entries_of, warnings_of, all_placed,
  untar_all-placed,
}
use kubejob.Untar.Confined.{IsMakeable, KeepsInside, untar_all-Keeps}

-- An operating system that notes the path of each call.
abbrev pub path_log : Os (List String)
path_log = record {
  mkdir_all = λ path w. (none, path ∷ w);
  create = λ path w. (none, path ∷ w);
  write_file = λ path content w. (none, path ∷ w);
  chmod = λ path mode w. (none, path ∷ w);
  remove = λ path w. (none, path ∷ w);
  remove_all = λ path w. (none, path ∷ w);
}

pub path_log-KeepsInside : (dst : String) → KeepsInside path_log dst (λ w. All (IsMakeable dst) w)
path_log-KeepsInside dst = record {
  making = λ path w makeable p. (makeable, p);
  creating = λ path w inside p. (inl inside, p);
  writing = λ path content w inside p. (inl inside, p);
  changing = λ path mode w inside p. (inl inside, p);
}

abbrev pub file_entry : String → TarEntry
file_entry name = record {
  name = name;
  is_dir = false;
  is_symlink = false;
  mode = 420;
  linkname = "";
  content = 1 ∷ 2 ∷ [];
  read_error = none;
}

abbrev archive : List TarEntry
archive = file_entry "src/a" ∷ file_entry "src/../../b" ∷ []

-- The second entry leads out of the destination, and is skipped.
untar_calls :
    (untar_all path_log (λ s. s) "src" "/dst" archive none []).2
    ≡ "/dst/a" ∷ "/dst/a" ∷ "/dst/a" ∷ "/dst" ∷ []
unfolding untar_all kubejob.Untar.untar_entry kubejob.Untar.untar_file
    kubejob.Untar.copy_file_from_reader is_dst_relative strip_prefix trim_shortcut_path
    kubejob.Untar.strip_back kubejob.Paths.rel kubejob.Paths.clean kubejob.Paths.dir
    kubejob.Paths.path_join kubejob.Prelude.Text.join
untar_calls = refl

untar_all-Keeps_example :
    All (IsMakeable "/dst") (untar_all path_log (λ s. s) "src" "/dst" archive none []).2
untar_all-Keeps_example =
    untar_all-Keeps path_log (λ s. s) "/dst" (λ w. All (IsMakeable "/dst") w)
      (path_log-KeepsInside "/dst") "src" archive none [] tt

is_dst_relative-Inside_example :
    (is_dst_relative "/dst" "/dst/../b" ≡ true) ↔ Inside "/dst" "/dst/../b"
is_dst_relative-Inside_example = is_dst_relative-Inside "/dst" "/dst/../b"

-- An operating system in which no call fails, with the same notes.
abbrev pub noting : Effects (List String)
noting = record {
  make = λ path w. path ∷ w;
  create = λ path w. path ∷ w;
  write = λ path content w. path ∷ w;
  change = λ path mode w. path ∷ w;
  remove = λ path w. path ∷ w;
}

abbrev contents : List Placed
contents = dir_at [] ∷ file_at ("b" ∷ "c" ∷ []) 420 (1 ∷ []) ∷ link_at ("d" ∷ []) "/etc" ∷ []

untar_all-placed_example :
    untar_all (unfailing noting) (λ s. s) "src/a" "/dst" (entries_of "src/a" contents) none [] ≡ (
      none,
      warnings_of noting "/dst" (λ s. s) "src/a" contents,
      all_placed noting "/dst" contents [],
    )
untar_all-placed_example =
    untar_all-placed noting (λ s. s) "src/a" "/dst" refl contents []
      (
        tt,
        (
          ((refl, refl, refl, refl), ((refl, refl, refl, refl), tt)),
          (((refl, refl, refl, refl), tt), tt),
        ),
      )
