-- ===== src/Tar.antt =====
-- copy.go, `writeWithTar`: the archive of local files that is sent to a container.
pub mod Tree
pub mod Landing
use kubejob.Prelude.{
  ℕ, zero, suc, String, ◌<>◌, Bool, true, false, Option, none, some, List, [], ◌∷◌, ◌++◌,
  if◌then◌else◌,
}
use kubejob.Errors.{Err, Result, ok, err, wrapped}
use kubejob.Paths.{clean, path_join, dir, base}
use kubejob.Os.{Bytes}

-- What a file is, as its mode says. tar.FileInfoHeader has an error only for sockets and for modes that
-- it does not know: for another file than a directory or a link, that is the argument.
pub data FileKind : Type 0 where
  folder : FileKind
  symlink : FileKind
  other : Option Err → FileKind

-- os.FileInfo as far as it is read.
pub record FileInfo : Type 0 where
  pub kind : FileKind
  pub mode : ℕ

-- The local files while they are archived: filepath.Glob, os.Lstat, os.ReadDir, os.Readlink, and os.Open
-- with what io.Copy then reads and its error.
pub record Fs : Type 0 where
  pub glob : String → Result (List String)
  pub lstat : String → Result FileInfo
  pub read_dir : String → Result (List String)
  pub readlink : String → Result String
  pub open_file : String → Result (Bytes × Option Err)

-- A header with the bytes behind it.
pub record TarItem : Type 0 where
  pub name : String
  pub info : FileInfo
  pub linkname : String
  pub body : Bytes

-- Where the tar writer fails to write a header.
abbrev pub Sink : Type 0
Sink = TarItem → Option Err

abbrev pub Written : Type 0
Written = Option Err × List TarItem

-- What is written next, if nothing failed.
abbrev pub and_write : Written → Written → Written
and_write (some x, items) later = (some x, items)
and_write (none, items) (e, more) = (e, items ++ more)

abbrev pub failed_to : String → Err → Written
failed_to what e = (some (wrapped ("failed to " <> what) e), [])

abbrev pub item_of : String → FileInfo → String → Bytes → TarItem
item_of name info linkname body = record {
  name = name;
  info = info;
  linkname = linkname;
  body = body;
}

module _ (fs : Fs) (sink : Sink) where
  abbrev pub write_header : TarItem → Written
  write_header item = elim (sink item) [
    | some e ↦ failed_to "write header" e
    | none ↦ (none, item ∷ [])
  ]

  -- The error of an entry of a directory.
  abbrev named : String → Written → Written
  named name (some e, items) =
      (some (wrapped ("failed to write recursive with tar for " <> name) e), items)
  named name (none, items) = (none, items)

  -- The loop over the entries of a directory, each one with the next call.
  unfoldable pub write_entries :
      (String → String → Written) → String → String → List String → Written
  write_entries recurse src_file dst_file [] = (none, [])
  write_entries recurse src_file dst_file (name ∷ names) =
      and_write (named name (recurse (path_join src_file name) (path_join dst_file name)))
        (write_entries recurse src_file dst_file names)

  abbrev write_listed :
      (String → String → Written) → String → String → FileInfo → List String → Written
  write_listed recurse src_file dst_file info [] = write_header (item_of dst_file info "" [])
  write_listed recurse src_file dst_file info (name ∷ names) =
      write_entries recurse src_file dst_file (name ∷ names)

  -- A directory: an empty one is a header, of another one only the entries are written. The error of
  -- `tar.FileInfoHeader` that the code ignores is nil here and for links.
  abbrev pub write_dir : (String → String → Written) → String → String → String → FileInfo → Written
  write_dir recurse src_file dst_file fpath info = elim (fs.read_dir fpath) [
    | err e ↦ failed_to ("readdir " <> fpath) e
    | ok names ↦ write_listed recurse src_file dst_file info names
  ]

  abbrev pub write_link : String → String → FileInfo → Written
  write_link dst_file fpath info = elim (fs.readlink fpath) [
    | err e ↦ failed_to ("readlink " <> fpath) e
    | ok target ↦ write_header (item_of dst_file info target [])
  ]

  abbrev copied_body : String → TarItem → Option Err → Written
  copied_body fpath item none = (none, item ∷ [])
  copied_body fpath item (some e) = (some (wrapped ("failed to copy " <> fpath) e), item ∷ [])

  -- The header of a regular file, then its content.
  abbrev write_opened :
      String → String → FileInfo → Option Err → Result (Bytes × Option Err) → Written
  write_opened dst_file fpath info (some e) opened = failed_to "write header" e
  write_opened dst_file fpath info none (err e) =
      (some (wrapped ("failed to open " <> fpath) e), item_of dst_file info "" [] ∷ [])
  write_opened dst_file fpath info none (ok (bytes, read_error)) =
      copied_body fpath (item_of dst_file info "" bytes) read_error

  abbrev write_regular : String → String → FileInfo → Option Err → Written
  write_regular dst_file fpath info header_error = elim header_error [
    | some e ↦ failed_to ("get header from " <> fpath) e
    | none ↦
        write_opened dst_file fpath info (sink (item_of dst_file info "" [])) (fs.open_file fpath)
  ]

  -- An iteration of the loop over the matched paths, with what the loop does behind it: only after a
  -- symbolic link is there a next iteration.
  abbrev write_match :
      (String → String → Written) → String → String → String → Result FileInfo → Written → Written
  write_match recurse src_file dst_file fpath (err e) later = failed_to ("lstat for " <> fpath) e
  write_match recurse src_file dst_file fpath (ok info) later = elim info.kind [
    | folder ↦ write_dir recurse src_file dst_file fpath info
    | symlink ↦ and_write (write_link dst_file fpath info) later
    | other header_error ↦ write_regular dst_file fpath info header_error
  ]

  unfoldable pub write_matches :
      (String → String → Written) → String → String → List String → Written
  unfolding write_entries
  write_matches recurse src_file dst_file [] = (none, [])
  write_matches recurse src_file dst_file (fpath ∷ fpaths) =
      write_match recurse src_file dst_file fpath (fs.lstat fpath)
        (write_matches recurse src_file dst_file fpaths)

  abbrev write_globbed :
      (String → String → Written) → String → String → String → Result (List String) → Written
  write_globbed recurse src_path src_file dst_file (err e) = failed_to ("glob from " <> src_path) e
  write_globbed recurse src_path src_file dst_file (ok fpaths) =
      write_matches recurse src_file dst_file fpaths

  -- `writeRecursiveWithTar`, to a nesting of so many directories. `dstBase` is only handed on.
  unfoldable pub write_recursive_with_tar : ℕ → String → String → String → String → Written
  unfolding write_matches
  write_recursive_with_tar zero src_base src_file dst_base dst_file = (none, [])
  write_recursive_with_tar (suc fuel) src_base src_file dst_base dst_file =
      let src_path = path_join src_base src_file in
      write_globbed (λ src dst. write_recursive_with_tar fuel src_base src dst_base dst) src_path
        src_file dst_file (fs.glob src_path)

  -- `writeWithTar`; the error of the deferred `Close` is dropped.
  unfoldable pub write_with_tar : ℕ → String → String → Written
  unfolding write_recursive_with_tar clean dir base
  write_with_tar fuel src_path dst_path =
      let src = clean src_path in
      let dst = clean dst_path in
      write_recursive_with_tar fuel (dir src) (base src) (dir dst) (base dst)
