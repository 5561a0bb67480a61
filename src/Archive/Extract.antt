-- ===== src/Archive/Extract.antt =====
-- The calls that `extractArchivedFile` of agent.go makes.
use kubejob.Prelude.{
  ◌≡◌, inl, String, true, Option, none, some, List, [], ◌∷◌, All, if-elim, str_eq, eq_iff, subst,
  sym,
}
use kubejob.Paths.{path_join, dir}
use kubejob.Os.{Os}
use kubejob.Errors.{Err}
use kubejob.Untar.{TarEntry}
use kubejob.Untar.Inside.{Inside, Inside-refl}
use kubejob.Untar.Confined.{KeepsInside, IsMakeable, dir-IsMakeable}
use kubejob.Archive.{
  copied, changed, opened, made, create_file, made_dir, and_extract, extract_entry, extract_entries,
}

module _ {W : Type 0} (os : Os W) (dst : String) (P : W → Type 0)
    (keeps : KeepsInside os dst P) where
  copied-Keeps :
      (read_error : Option Err) (r : Option Err × W) → P r.1 → P (copied os read_error r).1
  copied-Keeps none (none, w) p = p
  copied-Keeps (some e) (none, w) p = p
  copied-Keeps read_error (some e, w) p = p

  changed-Keeps :
      (path : String) (entry : TarEntry) (r : Option Err × W)
      → Inside dst path
      → P r.1
      → P (changed os path entry r).1
  changed-Keeps path entry (some e, w) inside p = p
  changed-Keeps path entry (none, w) inside p =
      copied-Keeps entry.read_error (os.write_file path entry.content w)
        (keeps.writing path entry.content w inside p)

  opened-Keeps :
      (path : String) (entry : TarEntry) (r : Option Err × W)
      → Inside dst path
      → P r.1
      → P (opened os path entry r).1
  opened-Keeps path entry (some e, w) inside p = p
  opened-Keeps path entry (none, w) inside p =
      changed-Keeps path entry (os.chmod path entry.mode w) inside
        (keeps.changing path entry.mode w inside p)

  made-Keeps :
      (path : String) (entry : TarEntry) (r : Option Err × W)
      → Inside dst path
      → P r.1
      → P (made os path entry r).1
  made-Keeps path entry (some e, w) inside p = p
  made-Keeps path entry (none, w) inside p =
      opened-Keeps path entry (os.create path w) inside (keeps.creating path w inside p)

  create_file-Keeps :
      (path : String) (entry : TarEntry) (w : W)
      → Inside dst path
      → IsMakeable dst (dir path)
      → P w
      → P (create_file os path entry w).1
  unfolding create_file
  create_file-Keeps path entry w inside makeable p =
      made-Keeps path entry (os.mkdir_all (dir path) w) inside
        (keeps.making (dir path) w makeable p)

  made_dir-Keeps : (path : String) (r : Option Err × W) → P r.1 → P (made_dir os path r).1
  made_dir-Keeps path (some e, w) p = p
  made_dir-Keeps path (none, w) p = p

  extract_entry-Keeps :
      (entry : TarEntry) (w : W)
      → Inside dst (path_join dst entry.name)
      → P w
      → P (extract_entry os (path_join dst entry.name) entry w).1
  extract_entry-Keeps entry w inside p =
      let path = path_join dst entry.name in
      if-elim (λ (r : Option Err × W). P r.1) entry.is_dir _ _
        (λ e. made_dir-Keeps path (os.mkdir_all path w) (keeps.making path w (inl inside) p))
        (λ e. create_file-Keeps path entry w inside (dir-IsMakeable dst dst entry.name inside) p)

  parent-IsMakeable :
      (name : String) → str_eq (path_join (dir dst) name) dst ≡ true → IsMakeable dst (dir dst)
  parent-IsMakeable name e =
      let eq : path_join (dir dst) name ≡ dst = (eq_iff (path_join (dir dst) name) dst).0 e in
      subst (λ s. IsMakeable dst (dir s)) eq
        (dir-IsMakeable dst (dir dst) name (subst (Inside dst) (sym eq) (Inside-refl dst)))

  and_extract-Keeps :
      (r : Option Err × W) (later : W → Option Err × W)
      → P r.1
      → ((w : W) → P w → P (later w).1)
      → P (and_extract os r later).1
  and_extract-Keeps (some e, w) later p keep = p
  and_extract-Keeps (none, w) later p keep = keep w p

  -- `extractArchivedFile` does not look where the names of an archive lead to. If all of them lead
  -- inside the destination, then it makes no file, writes to none and changes the mode of none but
  -- there, and makes directories only there or as the destination's parent, whether it fails or not.
  pub extract_entries-Keeps :
      (file_path : String) (entries : List TarEntry) (ending : Option Err) (w : W)
      → All (λ (entry : TarEntry). Inside dst (path_join dst entry.name)) entries
      → P w
      → P (extract_entries os file_path dst entries ending w).1
  unfolding extract_entries
  extract_entries-Keeps file_path [] ending w inside p = p
  extract_entries-Keeps file_path (entry ∷ entries) ending w inside p =
      if-elim (λ (r : Option Err × W). P r.1) (str_eq (path_join (dir dst) entry.name) dst) _ _
        (λ e. create_file-Keeps dst entry w (Inside-refl dst) (parent-IsMakeable entry.name e) p)
        (λ e.
          and_extract-Keeps (extract_entry os (path_join dst entry.name) entry w)
            (extract_entries os file_path dst entries ending)
            (extract_entry-Keeps entry w inside.0 p)
            (λ w' q. extract_entries-Keeps file_path entries ending w' inside.1 q))
