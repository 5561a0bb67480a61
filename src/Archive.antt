-- ===== src/Archive.antt =====
-- agent.go, `archivePath`, `extractArchivedFile` and `createFile`: the archives that the agent and its
-- client send each other.
pub mod Names
pub mod Extract
pub mod Created
use kubejob.Prelude.{
  ℕ, zero, suc, ◌+◌, String, ◌<>◌, Bool, true, false, Option, none, some, List, [], ◌∷◌, ◌++◌,
  str_eq, sprint, if◌then◌else◌,
}
use Prim.Native.String
use kubejob.Errors.{Err, Result, ok, err, plain, wrapped}
use kubejob.Paths.{path_join, dir, base}
use kubejob.Os.{Os, Bytes}
use kubejob.Tar.{other, FileInfo, TarItem, Sink, Written, and_write, item_of}
use kubejob.Untar.{TarEntry, TarArchive}

-- A call of the function that filepath.Walk is given: a path, whether it is a directory, its mode, and
-- the error with which it could not be visited.
pub record Visit : Type 0 where
  pub path : String
  pub is_dir : Bool
  pub mode : ℕ
  pub failure : Option Err

-- The local files while they are archived: os.Stat, with whether it is a directory and the mode;
-- the calls of filepath.Walk, in their order; and os.Open with what io.Copy then reads and its error.
pub record Files : Type 0 where
  pub stat : String → Result (Bool × ℕ)
  pub walk : String → List Visit
  pub open_file : String → Result (Bytes × Option Err)

unfoldable pub text_length : String → ℕ
text_length String.[] = 0
text_length (String.◌∷◌ c s) = suc (text_length s)

-- `s[n:]`; Go panics where `n` is too large.
unfoldable pub drop_text : ℕ → String → String
drop_text zero s = s
drop_text (suc n) String.[] = ""
drop_text (suc n) (String.◌∷◌ c s) = drop_text n s

-- `path[len(pathToDir)+1:]`
unfoldable pub archived_name : String → String → String
unfolding text_length drop_text
archived_name path_to_dir path = drop_text (text_length path_to_dir + 1) path

abbrev pub archived_path : String → String
archived_path target_path = target_path <> ".tar"

-- The header of a file of this mode.
abbrev pub file_item : String → ℕ → Bytes → TarItem
file_item name mode body = item_of name (record { kind = other none; mode = mode }) "" body

module _ (fs : Files) (sink : Sink) where
  abbrev pub write_body : TarItem → Option Err → Written
  write_body item none = (none, item ∷ [])
  write_body item (some e) =
      (some (wrapped "failed to copy local file to archive file" e), item ∷ [])

  abbrev pub write_opened : String → ℕ → Option Err → Result (Bytes × Option Err) → Written
  write_opened name mode (some e) opened =
      (some (wrapped "failed to write archive header to create archive file" e), [])
  write_opened name mode none (err e) = (
    some (wrapped "failed to open local file to create archive file" e),
    file_item name mode [] ∷ [],
  )
  write_opened name mode none (ok (bytes, read_error)) =
      write_body (file_item name mode bytes) read_error

  abbrev pub write_file : String → String → ℕ → Written
  write_file path name mode =
      write_opened name mode (sink (file_item name mode [])) (fs.open_file path)

  -- The function that filepath.Walk is given.
  abbrev pub write_visit : String → Visit → Written
  write_visit path_to_dir v = elim v.failure [
    | some e ↦ (some (wrapped "failed to create archive file" e), [])
    | none ↦
        if v.is_dir then (none, []) else write_file v.path (archived_name path_to_dir v.path) v.mode
  ]

  unfoldable pub write_visits : String → List Visit → Written
  unfolding archived_name
  write_visits path_to_dir [] = (none, [])
  write_visits path_to_dir (v ∷ vs) =
      and_write (write_visit path_to_dir v) (write_visits path_to_dir vs)

  abbrev pub write_target : String → Result (Bool × ℕ) → Written
  write_target target_path (err e) =
      (some (wrapped ("failed to get file info of src path " <> target_path) e), [])
  write_target target_path (ok (is_dir, mode)) =
      if is_dir
      then write_visits (dir target_path) (fs.walk target_path)
      else write_file target_path (base target_path) mode

  -- `archivePath` behind the creation of the archive.
  unfoldable pub archive_target : String → Written
  unfolding write_visits dir base
  archive_target target_path = write_target target_path (fs.stat target_path)

module _ {W : Type 0} (os : Os W) where
  abbrev stored : String → (List TarItem → Bytes) → Written → W → Result String × W
  stored archived encode (some e, items) w = (err e, (os.write_file archived (encode items) w).1)
  stored archived encode (none, items) w =
      (ok archived, (os.write_file archived (encode items) w).1)

  abbrev created_archive :
      (W → Files) → Sink → (List TarItem → Bytes) → String → Option Err × W → Result String × W
  created_archive files sink encode target_path (some e, w) =
      (err (wrapped ("failed to create archive file " <> archived_path target_path) e), w)
  created_archive files sink encode target_path (none, w) =
      stored (archived_path target_path) encode (archive_target (files w) sink target_path) w

  -- `archivePath`. The tar writer makes bytes of what it is given; where writing them fails, the sink
  -- fails.
  unfoldable pub archive_path :
      (W → Files) → Sink → (List TarItem → Bytes) → String → W → Result String × W
  unfolding archive_target
  archive_path files sink encode target_path w =
      created_archive files sink encode target_path (os.create (archived_path target_path) w)

  abbrev pub copied : Option Err → Option Err × W → Option Err × W
  copied read_error (some e, w) =
      (some (wrapped "failed to copy from archived file to local file" e), w)
  copied none (none, w) = (none, w)
  copied (some e) (none, w) =
      (some (wrapped "failed to copy from archived file to local file" e), w)

  abbrev pub changed : String → TarEntry → Option Err × W → Option Err × W
  changed path entry (some e, w) = (some (plain ("failed to apply chmod " <> sprint entry.mode)), w)
  changed path entry (none, w) = copied entry.read_error (os.write_file path entry.content w)

  abbrev pub opened : String → TarEntry → Option Err × W → Option Err × W
  opened path entry (some e, w) = (some (wrapped ("failed to create file " <> path) e), w)
  opened path entry (none, w) = changed path entry (os.chmod path entry.mode w)

  abbrev pub made : String → TarEntry → Option Err × W → Option Err × W
  made path entry (some e, w) = (some (wrapped ("failed to create directory " <> dir path) e), w)
  made path entry (none, w) = opened path entry (os.create path w)

  -- `createFile`
  unfoldable pub create_file : String → TarEntry → W → Option Err × W
  unfolding dir
  create_file path entry w = made path entry (os.mkdir_all (dir path) w)

  abbrev pub made_dir : String → Option Err × W → Option Err × W
  made_dir path (some e, w) = (some (wrapped ("failed to create directory " <> path) e), w)
  made_dir path (none, w) = (none, w)

  abbrev pub and_extract : Option Err × W → (W → Option Err × W) → Option Err × W
  and_extract (some e, w) later = (some e, w)
  and_extract (none, w) later = later w

  -- An entry that is not the file that was asked for.
  abbrev pub extract_entry : String → TarEntry → W → Option Err × W
  extract_entry path entry w =
      if entry.is_dir then made_dir path (os.mkdir_all path w) else create_file path entry w

  abbrev read_error : String → Option Err → Option Err
  read_error file_path none = none
  read_error file_path (some e) = some (wrapped ("failed to read archived file " <> file_path) e)

  -- The loop of `extractArchivedFile`: an entry that is named like the destination is its content, and
  -- the last one that is read.
  unfoldable pub extract_entries : String → String → List TarEntry → Option Err → W → Option Err × W
  unfolding create_file path_join
  extract_entries file_path dst_path [] ending w = (read_error file_path ending, w)
  extract_entries file_path dst_path (entry ∷ entries) ending w =
      if str_eq (path_join (dir dst_path) entry.name) dst_path
      then create_file dst_path entry w
      else and_extract (extract_entry (path_join dst_path entry.name) entry w)
          (extract_entries file_path dst_path entries ending)

  abbrev extract_opened : String → String → Result TarArchive × W → Option Err × W
  extract_opened file_path dst_path (err e, w) =
      (some (wrapped ("failed to open " <> file_path) e), w)
  extract_opened file_path dst_path (ok archive, w) =
      extract_entries file_path dst_path archive.entries archive.ending w

  -- `extractArchivedFile`, with os.Open of the archive and what can be read of it.
  unfoldable pub extract_archived_file :
      (String → W → Result TarArchive × W) → String → String → W → Option Err × W
  unfolding extract_entries
  extract_archived_file open_archive file_path dst_path w =
      extract_opened file_path dst_path (open_archive file_path w)
