-- ===== src/Untar.antt =====
-- copy.go, `untarAll`: the archive of a container is unpacked below the destination.
pub mod Shortcut
pub mod Inside
pub mod Confined
pub mod Placed
use kubejob.Prelude.{
  ℕ, String, ◌<>◌, Bool, true, false, not, ◌&&◌, ◌||◌, Option, none, some, List, [], ◌∷◌, ◌++◌,
  str_eq, ◌==◌, if◌then◌else◌,
}
use Prim.Native.Char.{code}
use Prim.Native.String
use kubejob.Errors.{Err, plain, wrapped, unexpected_eof}
use kubejob.Paths.{is_slash, is_period, is_dot, is_dotdot, clean, path_join, dir, rel}
use kubejob.Os.{Os, Bytes}

-- strings.HasPrefix, with what stands behind the prefix.
unfoldable pub strip_prefix : String → String → Option String
strip_prefix String.[] s = some s
strip_prefix (String.◌∷◌ c p) String.[] = none
strip_prefix (String.◌∷◌ c p) (String.◌∷◌ d s) =
    let rest = strip_prefix p s in if code c == code d then rest else none

-- The loop of `trimShortcutPath`: it takes `../` away as long as there is one.
unfoldable pub strip_back : String → String
strip_back (String.◌∷◌ c (String.◌∷◌ d (String.◌∷◌ e s))) =
    let rest = strip_back s in
    if is_period c && (is_period d && is_slash e)
    then rest
    else String.◌∷◌ c (String.◌∷◌ d (String.◌∷◌ e s))
strip_back s = s

abbrev pub drop_slash : String → String
drop_slash String.[] = ""
drop_slash (String.◌∷◌ c s) = if is_slash c then s else String.◌∷◌ c s

-- `trimShortcutPath`
unfoldable pub trim_shortcut_path : String → String
unfolding strip_back
trim_shortcut_path p =
    let new_path = strip_back (clean p) in
    drop_slash (if is_dot new_path || is_dotdot new_path then "" else new_path)

abbrev pub stays : String → Bool
stays relative = is_dot relative || str_eq relative (trim_shortcut_path relative)

abbrev pub stays_some : Option String → Bool
stays_some none = false
stays_some (some relative) = stays relative

-- `isDstRelative`
unfoldable pub is_dst_relative : String → String → Bool
is_dst_relative base dst = stays_some (rel base dst)

-- A header with what follows it: what can be read of the file, and the error of reading it.
pub record TarEntry : Type 0 where
  pub name : String
  pub is_dir : Bool
  pub is_symlink : Bool
  pub mode : ℕ
  pub linkname : String
  pub content : Bytes
  pub read_error : Option Err

-- An archive ends with io.EOF or with another error of `Next`.
pub record TarArchive : Type 0 where
  pub entries : List TarEntry
  pub ending : Option Err

-- strconv.Quote is a parameter, and so is the operating system.
module _ {W : Type 0} (os : Os W) (quote : String → String) where
  abbrev pub chmod_after : String → ℕ → Option Err → Option Err × W → Option Err × W
  chmod_after file mode read_error (some x, w) = (some x, w)
  chmod_after file mode (some x) (none, w) = (some x, w)
  chmod_after file mode none (none, w) = os.chmod file mode w

  abbrev pub write_after : String → TarEntry → Option Err × W → Option Err × W
  write_after file entry (some x, w) = (some x, w)
  write_after file entry (none, w) =
      chmod_after file entry.mode entry.read_error (os.write_file file entry.content w)

  -- `copyFileFromReader`
  unfoldable pub copy_file_from_reader : String → TarEntry → W → Option Err × W
  copy_file_from_reader file entry w = write_after file entry (os.create file w)

  abbrev copy_error_of : String → Err → Err
  copy_error_of file unexpected_eof = unexpected_eof
  copy_error_of file e = wrapped ("failed to copy file from reader " <> file) e

  abbrev pub copied : String → Option Err × W → Option Err × List String × W
  copied file (none, w) = (none, [], w)
  copied file (some e, w) = (some (copy_error_of file e), [], w)

  abbrev pub made : String → Option Err × W → Option Err × List String × W
  made path (none, w) = (none, [], w)
  made path (some e, w) = (some (wrapped ("failed to mkdir " <> path) e), [], w)

  abbrev pub symlink_warning : String → TarEntry → String
  symlink_warning file entry =
      "warning: skipping symlink: " <> (quote file <> (" -> " <> (quote entry.linkname <> "\n")))

  abbrev outside_warning : String → String
  outside_warning file =
      "warning: file " <> (quote file <> " is outside target destination, skipping\n")

  abbrev pub below_dir : String → TarEntry → Option Err × W → Option Err × List String × W
  below_dir file entry (some e, w) = made (dir file) (some e, w)
  below_dir file entry (none, w) =
      if entry.is_dir
      then made file (os.mkdir_all file w)
      else if entry.is_symlink
      then (none, symlink_warning file entry ∷ [], w)
      else copied file (copy_file_from_reader file entry w)

  -- An iteration of the loop, for the file that the header names below the destination.
  unfoldable pub untar_file : String → String → TarEntry → W → Option Err × List String × W
  untar_file dst_path file entry w =
      if not (is_dst_relative dst_path file)
      then (none, outside_warning file ∷ [], w)
      else below_dir file entry (os.mkdir_all (dir file) w)

  abbrev pub untar_at : String → TarEntry → W → Option String → Option Err × List String × W
  untar_at dst_path entry w none = (some (plain "tar contents corrupted"), [], w)
  untar_at dst_path entry w (some rest) = untar_file dst_path (path_join dst_path rest) entry w

  -- An iteration of the loop: its error, what it warns of, and the world.
  unfoldable pub untar_entry : String → String → TarEntry → W → Option Err × List String × W
  untar_entry prefix dst_path entry w = untar_at dst_path entry w (strip_prefix prefix entry.name)

  abbrev next_error : Option Err → Option Err
  next_error none = none
  next_error (some e) = some (wrapped "failed to get next header" e)

  abbrev pub and_untar :
      Option Err × List String × W
      → (W → Option Err × List String × W)
      → Option Err × List String × W
  and_untar (some x, warnings, w) f = (some x, warnings, w)
  and_untar (none, warnings, w) f = let (e, more, w') = f w in (e, warnings ++ more, w')

  -- `untarAll`: its error, what it writes to `errCapturer`, and the world.
  unfoldable pub untar_all :
      String → String → List TarEntry → Option Err → W → Option Err × List String × W
  untar_all prefix dst_path [] ending w = (next_error ending, [], w)
  untar_all prefix dst_path (entry ∷ entries) ending w =
      and_untar (untar_entry prefix dst_path entry w) (untar_all prefix dst_path entries ending)
