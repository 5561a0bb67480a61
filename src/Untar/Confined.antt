-- ===== src/Untar/Confined.antt =====
-- The calls that `untarAll` of copy.go makes, and the paths that they are given.
use kubejob.Prelude.{
  join, ℕ, ◌≡◌, refl, sym, ap, ◌∙◌, subst, String, Bool, not, Option, none, some, ◌⊎◌, inl, inr,
  List, [], ◌∷◌, ◌++◌, All, if-elim, arith,
}
use mathlib.Core.List.{append-nil}
use kubejob.Paths.{
  CleanPath, clean_path, print_path, clean, path_join, dir, init, joined, non_empty,
}
use kubejob.Paths.Normal.{IsNormal, IsName, All-init, clean_path-IsNormal, clean_path-print_path}
use kubejob.Paths.Parent.{init-append, dir-print_path}
use kubejob.Os.{Os, Bytes}
use kubejob.Errors.{Err}
use kubejob.Untar.Inside.{Inside, extend, is_dst_relative-Inside}
use kubejob.Untar.{
  TarEntry, is_dst_relative, copy_file_from_reader, chmod_after, write_after, copied, made,
  below_dir, untar_file, untar_at, strip_prefix, and_untar, untar_entry, untar_all,
}

-- A directory that may be made: inside the destination, or its parent.
abbrev pub IsMakeable : String → String → Type 0
IsMakeable dst path = Inside dst path ⊎ (path ≡ dir (clean dst))

-- A joined path is cleaned, or the empty text.
joined-cases : (l : List String) → (joined l ≡ "") ⊎ ((s : String) × (joined l ≡ clean s))
joined-cases [] = inl refl
joined-cases (p ∷ ps) = inr (join (p ∷ ps) "/", refl)

path_join-cases : (a b : String) → (path_join a b ≡ "") ⊎ ((s : String) × (path_join a b ≡ clean s))
unfolding path_join
path_join-cases a b = joined-cases (non_empty (a ∷ b ∷ []))

-- The parent of a path that is some names below another one has one name less.
parent-extend :
    (rooted : Bool) (ups : ℕ) (bs : List String) (n : String) (ns : List String)
    → let b : CleanPath = record { rooted = rooted; ups = ups; names = bs } in
      IsNormal (extend b (n ∷ ns))
      → dir (print_path (extend b (n ∷ ns))) ≡ print_path (extend b (init (n ∷ ns)))
parent-extend rooted ups [] n ns normal =
    dir-print_path (record { rooted = rooted; ups = ups; names = [] }) n ns normal
parent-extend rooted ups (x ∷ xs) n ns normal =
    let b : CleanPath = record { rooted = rooted; ups = ups; names = x ∷ xs } in
    dir-print_path b x (xs ++ n ∷ ns) normal
    ∙ ap (λ l. print_path (record b { names = l })) (init-append (x ∷ xs) n ns)

extend-init-IsNormal :
    (b : CleanPath) (n : String) (ns : List String)
    → IsNormal (extend b (n ∷ ns))
    → IsNormal (extend b (init (n ∷ ns)))
extend-init-IsNormal b n ns normal = record {
  names_only =
      subst (All IsName) (init-append b.names n ns)
        (All-init IsName (b.names ++ n ∷ ns) normal.names_only);
  root = normal.root;
}

dir-extend :
    (dst : String) (names : List String)
    → IsNormal (extend (clean_path dst) names)
    → IsMakeable dst (dir (print_path (extend (clean_path dst) names)))
unfolding clean
dir-extend dst [] normal =
    let b = clean_path dst in
    inr (ap (λ l. dir (print_path (record b { names = l }))) (append-nil b.names))
dir-extend dst (n ∷ ns) normal =
    let b = clean_path dst in
    let down = extend b (init (n ∷ ns)) in
    let up = parent-extend b.rooted b.ups b.names n ns normal in
    inl (
      init (n ∷ ns),
      ap clean_path up ∙ clean_path-print_path down (extend-init-IsNormal b n ns normal),
    )

dir-clean-IsMakeable : (dst s : String) → Inside dst (clean s) → IsMakeable dst (dir (clean s))
unfolding clean
dir-clean-IsMakeable dst s (names, e) =
    let normal = clean_path-IsNormal s in
    let eq = sym (clean_path-print_path (clean_path s) normal) ∙ e in
    subst (λ c. IsMakeable dst (dir (print_path c))) (sym eq)
      (dir-extend dst names (subst IsNormal eq normal))

pub dir-IsMakeable :
    (dst a b : String) → Inside dst (path_join a b) → IsMakeable dst (dir (path_join a b))
unfolding dir clean_path
dir-IsMakeable dst a b inside = elim (path_join-cases a b) [
  | inl e ↦ inl (inside.0, ap (λ p. clean_path (dir p)) e ∙ sym (ap clean_path e) ∙ inside.1)
  | inr (s, e) ↦
      subst (λ p. IsMakeable dst (dir p)) (sym e)
        (dir-clean-IsMakeable dst s (subst (Inside dst) e inside))
]

-- A property of the world that the calls keep at paths inside the destination, and mkdir also at its
-- parent.
pub record KeepsInside {W : Type 0} (os : Os W) (dst : String) (P : W → Type 0) : Type 0 where
  pub making : (path : String) (w : W) → IsMakeable dst path → P w → P (os.mkdir_all path w).1
  pub creating : (path : String) (w : W) → Inside dst path → P w → P (os.create path w).1
  pub writing :
      (path : String) (content : Bytes) (w : W)
      → Inside dst path
      → P w
      → P (os.write_file path content w).1
  pub changing :
      (path : String) (mode : ℕ) (w : W) → Inside dst path → P w → P (os.chmod path mode w).1

module _ {W : Type 0} (os : Os W) (quote : String → String) (dst : String) (P : W → Type 0)
    (keeps : KeepsInside os dst P) where
  chmod_after-Keeps :
      (file : String) (mode : ℕ) (read_error : Option Err) (r : Option Err × W)
      → Inside dst file
      → P r.1
      → P (chmod_after os quote file mode read_error r).1
  chmod_after-Keeps file mode read_error (some x, w) inside p = p
  chmod_after-Keeps file mode (some x) (none, w) inside p = p
  chmod_after-Keeps file mode none (none, w) inside p = keeps.changing file mode w inside p

  write_after-Keeps :
      (file : String) (entry : TarEntry) (r : Option Err × W)
      → Inside dst file
      → P r.1
      → P (write_after os quote file entry r).1
  write_after-Keeps file entry (some x, w) inside p = p
  write_after-Keeps file entry (none, w) inside p =
      chmod_after-Keeps file entry.mode entry.read_error (os.write_file file entry.content w) inside
        (keeps.writing file entry.content w inside p)

  copy_file_from_reader-Keeps :
      (file : String) (entry : TarEntry) (w : W)
      → Inside dst file
      → P w
      → P (copy_file_from_reader os quote file entry w).1
  unfolding copy_file_from_reader
  copy_file_from_reader-Keeps file entry w inside p =
      write_after-Keeps file entry (os.create file w) inside (keeps.creating file w inside p)

  copied-Keeps : (file : String) (r : Option Err × W) → P r.1 → P (copied os quote file r).2
  copied-Keeps file (none, w) p = p
  copied-Keeps file (some e, w) p = p

  made-Keeps : (path : String) (r : Option Err × W) → P r.1 → P (made os quote path r).2
  made-Keeps path (none, w) p = p
  made-Keeps path (some e, w) p = p

  below_dir-Keeps :
      (file : String) (entry : TarEntry) (r : Option Err × W)
      → Inside dst file
      → P r.1
      → P (below_dir os quote file entry r).2
  below_dir-Keeps file entry (some e, w) inside p = p
  below_dir-Keeps file entry (none, w) inside p =
      if-elim (λ (r : Option Err × List String × W). P r.2) entry.is_dir _ _
        (λ e. made-Keeps file (os.mkdir_all file w) (keeps.making file w (inl inside) p))
        (λ e.
          if-elim (λ (r : Option Err × List String × W). P r.2) entry.is_symlink _ _ (λ f. p)
            (λ f. copied-Keeps file _ (copy_file_from_reader-Keeps file entry w inside p)))

  untar_file-Keeps :
      (rest : String) (entry : TarEntry) (w : W)
      → P w
      → P (untar_file os quote dst (path_join dst rest) entry w).2
  unfolding untar_file
  untar_file-Keeps rest entry w p =
      let file = path_join dst rest in
      if-elim (λ (r : Option Err × List String × W). P r.2) (not (is_dst_relative dst file)) _ _
        (λ e. p)
        (λ e.
          let inside = (is_dst_relative-Inside dst file).0 (ground (arith, e)) in
          below_dir-Keeps file entry (os.mkdir_all (dir file) w) inside
            (keeps.making (dir file) w (dir-IsMakeable dst dst rest inside) p))

  and_untar-Keeps :
      (r : Option Err × List String × W) (f : W → Option Err × List String × W)
      → P r.2
      → ((w : W) → P w → P (f w).2)
      → P (and_untar os quote r f).2
  and_untar-Keeps (some x, warnings, w) f p keeps = p
  and_untar-Keeps (none, warnings, w) f p keeps = keeps w p

  untar_entry-Keeps :
      (prefix : String) (entry : TarEntry) (w : W)
      → P w
      → P (untar_entry os quote prefix dst entry w).2
  unfolding untar_entry
  untar_entry-Keeps prefix entry w p =
      elim (strip_prefix prefix entry.name) as (λ o. P (untar_at os quote dst entry w o).2) [
        | none ↦ p
        | some rest ↦ untar_file-Keeps rest entry w p
      ]

  -- Whatever the archive holds, `untarAll` makes no file, writes to none and changes the mode of none but
  -- inside the destination, and makes directories only there or the destination's parent: a property of
  -- the world that those calls keep is kept, whether it returns an error or not.
  pub untar_all-Keeps :
      (prefix : String) (entries : List TarEntry) (ending : Option Err) (w : W)
      → P w
      → P (untar_all os quote prefix dst entries ending w).2
  unfolding untar_all
  untar_all-Keeps prefix [] ending w p = p
  untar_all-Keeps prefix (entry ∷ entries) ending w p =
      and_untar-Keeps (untar_entry os quote prefix dst entry w)
        (untar_all os quote prefix dst entries ending) (untar_entry-Keeps prefix entry w p)
        (untar_all-Keeps prefix entries ending)
