-- ===== src/Untar/Placed.antt =====
-- What `untarAll` of copy.go makes of an archive as tar writes it.
use kubejob.Prelude.{
  ◌∙◌, ℕ, ◌≡◌, refl, ap, String, ◌<>◌, true, false, none, some, List, [], ◌∷◌, ◌++◌, All, join,
  is_empty, arith,
}
use text.Mathlib.TextLemmas.{nil-append, cons-append}
use kubejob.Paths.{path_join, clean_path, print_path, dir}
use kubejob.Paths.Normal.{IsName, IsNormal, All-append, clean_path-IsNormal, clean_path-print_path}
use kubejob.Paths.Below.{path_join-folder, path_join-itself, path_join-below}
use kubejob.Os.{Os, Bytes}
use kubejob.Untar.Inside.{extend, is_dst_relative-Inside}
use kubejob.Untar.{
  TarEntry, strip_prefix, is_dst_relative, copy_file_from_reader, untar_file, untar_entry,
  untar_all, symlink_warning, below_dir,
}

-- An operating system in which no call fails, given by what the calls do to the world.
pub record Effects (W : Type 0) : Type 0 where
  pub make : String → W → W
  pub create : String → W → W
  pub write : String → Bytes → W → W
  pub change : String → ℕ → W → W
  pub remove : String → W → W

abbrev pub unfailing : {W : Type 0} → Effects W → Os W
unfailing e = record {
  mkdir_all = λ path w. (none, e.make path w);
  create = λ path w. (none, e.create path w);
  write_file = λ path content w. (none, e.write path content w);
  chmod = λ path mode w. (none, e.change path mode w);
  remove = λ path w. (none, e.remove path w);
  remove_all = λ path w. (none, e.remove path w);
}

-- An entry of the archive, with the names that lead to it below the prefix. A single file has the
-- prefix itself as its name, and a folder is a directory whose name ends with a slash.
pub data Placed : Type 0 where
  file_at : List String → ℕ → Bytes → Placed
  dir_at : List String → Placed
  link_at : List String → String → Placed
  single_file : ℕ → Bytes → Placed
  folder_at : List String → Placed

abbrev pub names_of : Placed → List String
names_of (file_at names mode content) = names
names_of (dir_at names) = names
names_of (link_at names target) = names
names_of (single_file mode content) = []
names_of (folder_at names) = names

abbrev pub below_prefix : String → List String → String
below_prefix prefix names = prefix <> ("/" <> join names "/")

abbrev pub entry_of : String → Placed → TarEntry
entry_of prefix (file_at names mode content) = record {
  name = below_prefix prefix names;
  is_dir = false;
  is_symlink = false;
  mode = mode;
  linkname = "";
  content = content;
  read_error = none;
}
entry_of prefix (dir_at names) = record {
  name = below_prefix prefix names;
  is_dir = true;
  is_symlink = false;
  mode = 0;
  linkname = "";
  content = [];
  read_error = none;
}
entry_of prefix (link_at names target) = record {
  name = below_prefix prefix names;
  is_dir = false;
  is_symlink = true;
  mode = 0;
  linkname = target;
  content = [];
  read_error = none;
}
entry_of prefix (single_file mode content) = record {
  name = prefix;
  is_dir = false;
  is_symlink = false;
  mode = mode;
  linkname = "";
  content = content;
  read_error = none;
}
entry_of prefix (folder_at names) = record {
  name = prefix <> ("/" <> (join names "/" <> "/"));
  is_dir = true;
  is_symlink = false;
  mode = 0;
  linkname = "";
  content = [];
  read_error = none;
}

abbrev pub entries_of : String → List Placed → List TarEntry
entries_of prefix [] = []
entries_of prefix (p ∷ ps) = entry_of prefix p ∷ entries_of prefix ps

-- Where it belongs: below the destination, under the same names.
abbrev pub place : String → List String → String
place dst names = print_path (extend (clean_path dst) names)

module _ {W : Type 0} (e : Effects W) (dst : String) where
  -- What should become of the world: a file is made, written and given its mode, a directory is made, and
  -- of a link there is only the directory that it is in.
  abbrev pub placed : Placed → W → W
  placed (file_at names mode content) w =
      let path = place dst names in
      e.change path mode (e.write path content (e.create path (e.make (dir path) w)))
  placed (dir_at names) w = let path = place dst names in e.make path (e.make (dir path) w)
  placed (link_at names target) w = e.make (dir (place dst names)) w
  placed (single_file mode content) w =
      let path = place dst [] in
      e.change path mode (e.write path content (e.create path (e.make (dir path) w)))
  placed (folder_at names) w = let path = place dst names in e.make path (e.make (dir path) w)

  abbrev pub all_placed : List Placed → W → W
  all_placed [] w = w
  all_placed (p ∷ ps) w = all_placed ps (placed p w)

  module _ (quote : String → String) (prefix : String) where
    abbrev pub warnings_of : List Placed → List String
    warnings_of [] = []
    warnings_of (link_at names target ∷ ps) =
        symlink_warning (unfailing e) quote (place dst names)
          (entry_of prefix (link_at names target))
        ∷ warnings_of ps
    warnings_of (file_at names mode content ∷ ps) = warnings_of ps
    warnings_of (dir_at names ∷ ps) = warnings_of ps
    warnings_of (single_file mode content ∷ ps) = warnings_of ps
    warnings_of (folder_at names ∷ ps) = warnings_of ps

strip_prefix-append : (p s : String) → strip_prefix p (p <> s) ≡ some s
unfolding strip_prefix
strip_prefix-append String.[] s = ap some (nil-append s)
strip_prefix-append (String.◌∷◌ c p) s =
    rw (cons-append c p s, strip_prefix-append p s) (ground arith)

strip_prefix_self : (p : String) → strip_prefix p p ≡ some ""
unfolding strip_prefix
strip_prefix_self String.[] = refl
strip_prefix_self (String.◌∷◌ c p) = ground (arith, strip_prefix_self p)

place-is_dst_relative :
    (dst : String) (names : List String)
    → All IsName names
    → is_dst_relative dst (place dst names) ≡ true
place-is_dst_relative dst names h =
    let b = clean_path dst in
    let n = clean_path-IsNormal dst in
    let normal : IsNormal (extend b names) = record {
      names_only = All-append IsName b.names names n.names_only h;
      root = n.root;
    } in
    (is_dst_relative-Inside dst (place dst names)).1
      (names, clean_path-print_path (extend b names) normal)

module _ {W : Type 0} (e : Effects W) (quote : String → String) (prefix dst : String)
    (some_dst : is_empty dst ≡ false) where
  untar_entry-below_dir :
      (names : List String) (rest : String) (entry : TarEntry) (w : W)
      → strip_prefix prefix entry.name ≡ some rest
      → path_join dst rest ≡ place dst names
      → All IsName names
      → untar_entry (unfailing e) quote prefix dst entry w
        ≡ below_dir
            (unfailing e)
            quote
            (place dst names)
            entry
            (none, e.make (dir (place dst names)) w)
  unfolding untar_entry untar_file
  untar_entry-below_dir names rest entry w n j h = rw (n, j, place-is_dst_relative dst names h) refl

  untar_entry-below :
      (names : List String) (entry : TarEntry) (w : W)
      → entry.name ≡ below_prefix prefix names
      → All IsName names
      → untar_entry (unfailing e) quote prefix dst entry w
        ≡ below_dir
            (unfailing e)
            quote
            (place dst names)
            entry
            (none, e.make (dir (place dst names)) w)
  untar_entry-below names entry w n h =
      untar_entry-below_dir names ("/" <> join names "/") entry w
        (ap (strip_prefix prefix) n ∙ strip_prefix-append prefix ("/" <> join names "/"))
        (path_join-below dst names some_dst h) h

  untar_entry-placed :
      (p : Placed) (w : W)
      → All IsName (names_of p)
      → untar_entry (unfailing e) quote prefix dst (entry_of prefix p) w
        ≡ (none, warnings_of e dst quote prefix (p ∷ []), placed e dst p w)
  unfolding copy_file_from_reader
  untar_entry-placed (file_at names mode content) w h = untar_entry-below names _ w refl h
  untar_entry-placed (dir_at names) w h = untar_entry-below names _ w refl h
  untar_entry-placed (link_at names target) w h = untar_entry-below names _ w refl h
  untar_entry-placed (single_file mode content) w h =
      untar_entry-below_dir [] "" _ w (strip_prefix_self prefix) (path_join-itself dst some_dst) tt
  untar_entry-placed (folder_at names) w h =
      untar_entry-below_dir names ("/" <> (join names "/" <> "/")) _ w
        (strip_prefix-append prefix ("/" <> (join names "/" <> "/")))
        (path_join-folder dst names some_dst h) h

  warnings_of-cons :
      (p : Placed) (ps : List Placed)
      → warnings_of e dst quote prefix (p ∷ []) ++ warnings_of e dst quote prefix ps
        ≡ warnings_of e dst quote prefix (p ∷ ps)
  warnings_of-cons (file_at names mode content) ps = refl
  warnings_of-cons (dir_at names) ps = refl
  warnings_of-cons (link_at names target) ps = refl
  warnings_of-cons (single_file mode content) ps = refl
  warnings_of-cons (folder_at names) ps = refl

  -- Where no call of the operating system fails and the destination is not empty, an archive whose
  -- entries are named by the prefix, a slash and names, a file by the prefix alone and a directory with
  -- a slash at its end too, and that ends without an error, is unpacked without one: in the order of
  -- the archive, each file is made below the destination under its names, or at the destination itself,
  -- with its content and its mode, and each directory is made. Links are left out, each with a warning,
  -- and there is no other warning.
  pub untar_all-placed :
      (ps : List Placed) (w : W)
      → All (λ (p : Placed). All IsName (names_of p)) ps
      → untar_all (unfailing e) quote prefix dst (entries_of prefix ps) none w
        ≡ (none, warnings_of e dst quote prefix ps, all_placed e dst ps w)
  unfolding untar_all
  untar_all-placed [] w h = refl
  untar_all-placed (p ∷ ps) w h =
      rw (untar_entry-placed p w h.0, untar_all-placed ps (placed e dst p w) h.1)
        (ap (λ l. (none, l, all_placed e dst ps (placed e dst p w))) (warnings_of-cons p ps))
