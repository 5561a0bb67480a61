-- ===== src/Archive/Created.antt =====
-- What `extractArchivedFile` of agent.go makes of an archive as `archivePath` writes it.
use kubejob.Prelude.{
  ℕ, ◌≡◌, refl, String, false, none, List, [], ◌∷◌, All, join, is_empty, str_eq, Bool-cases, inl,
  inr, if◌then◌else◌,
}
use kubejob.Paths.{path_join, dir}
use kubejob.Paths.Normal.{IsName}
use kubejob.Paths.Below.{path_join-names}
use kubejob.Os.{Bytes}
use kubejob.Untar.{TarEntry}
use kubejob.Untar.Placed.{Effects, unfailing, place}
use kubejob.Archive.{create_file, extract_entries}

-- A file of the archive: the names that lead to it, its mode and its content.
pub record Member : Type 0 where
  pub first : String
  pub rest : List String
  pub mode : ℕ
  pub content : Bytes

abbrev pub member_name : Member → String
member_name f = join (f.first ∷ f.rest) "/"

abbrev pub member_entry : Member → TarEntry
member_entry f = record {
  name = member_name f;
  is_dir = false;
  is_symlink = false;
  mode = f.mode;
  linkname = "";
  content = f.content;
  read_error = none;
}

abbrev pub member_entries : List Member → List TarEntry
member_entries [] = []
member_entries (f ∷ fs) = member_entry f ∷ member_entries fs

abbrev pub IsMember : Member → Type 0
IsMember f = All IsName (f.first ∷ f.rest)

module _ {W : Type 0} (fx : Effects W) (dst : String) where
  -- A file is made with its directory, is given its mode and is written.
  abbrev pub created : String → Member → W → W
  created path f w =
      fx.write path f.content (fx.change path f.mode (fx.create path (fx.make (dir path) w)))

  -- What should become of the world: each file is made below the destination, up to one that is named
  -- like the destination itself, which is made there.
  abbrev pub all_created : List Member → W → W
  all_created [] w = w
  all_created (f ∷ fs) w =
      let here = created dst f w in
      let later = all_created fs (created (place dst (f.first ∷ f.rest)) f w) in
      if str_eq (path_join (dir dst) (member_name f)) dst then here else later

  -- Where no call of the operating system fails, an archive of files whose names name files, and that
  -- ends without an error, is extracted without one, as `all_created` says.
  pub extract_entries-created :
      (file_path : String) (fs : List Member) (w : W)
      → is_empty dst ≡ false
      → All IsMember fs
      → extract_entries (unfailing fx) file_path dst (member_entries fs) none w
        ≡ (none, all_created fs w)
  unfolding extract_entries create_file
  extract_entries-created file_path [] w d h = refl
  extract_entries-created file_path (f ∷ fs) w d h =
      elim (Bool-cases (str_eq (path_join (dir dst) (member_name f)) dst)) [
        | inl e ↦ rw e refl
        | inr e ↦
            rw (e, path_join-names dst f.first f.rest d h.0)
              (extract_entries-created file_path fs (created (place dst (f.first ∷ f.rest)) f w) d
                h.1)
      ]
