-- ===== src/Tar/Tree.antt =====
-- The archive of copy.go against the tree of the files that are archived.
use kubejob.Prelude.{
  ℕ, zero, suc, ◌≤◌, ◌≡◌, refl, String, none, List, [], ◌∷◌, ◌++◌, arith, ltb, if◌then◌else◌,
}
use kubejob.Errors.{ok}
use kubejob.Paths.{path_join, clean, dir, base}
use kubejob.Os.{Bytes}
use kubejob.Tar.{
  folder, symlink, other, FileInfo, Fs, TarItem, Sink, Written, item_of, write_entries,
  write_matches, write_recursive_with_tar, write_with_tar, write_dir, write_link, write_header,
}

mutual
  pub data Tree : Type 0 where
    regular : ℕ → Bytes → Tree
    link : ℕ → String → Tree
    directory : ℕ → Forest → Tree

  pub data Forest : Type 0 where
    bare : Forest
    branch : String → Tree → Forest → Forest

abbrev pub info_of : Tree → FileInfo
info_of (regular mode bytes) = record { kind = other none; mode = mode }
info_of (link mode target) = record { kind = symlink; mode = mode }
info_of (directory mode forest) = record { kind = folder; mode = mode }

abbrev pub names_of : Forest → List String
names_of bare = []
names_of (branch name tree forest) = name ∷ names_of forest

-- The archive that a tree should give, under a name: each file and each link once, and of the
-- directories those with nothing in them.
unfoldable mutual
  pub flatten : String → Tree → List TarItem
  flatten name (regular mode bytes) = item_of name (info_of (regular mode bytes)) "" bytes ∷ []
  flatten name (link mode target) = item_of name (info_of (link mode target)) target [] ∷ []
  flatten name (directory mode bare) = item_of name (info_of (directory mode bare)) "" [] ∷ []
  flatten name (directory mode (branch child tree forest)) =
      flatten_all name (branch child tree forest)

  pub flatten_all : String → Forest → List TarItem
  flatten_all name bare = []
  flatten_all name (branch child tree forest) =
      flatten (path_join name child) tree ++ flatten_all name forest

abbrev max : ℕ → ℕ → ℕ
max m n = if ltb m n then n else m

unfoldable mutual
  pub height : Tree → ℕ
  height (regular mode bytes) = 1
  height (link mode target) = 1
  height (directory mode forest) = suc (height_all forest)

  pub height_all : Forest → ℕ
  height_all bare = 0
  height_all (branch child tree forest) = max (height tree) (height_all forest)

-- The files below a base have the shape of a tree, and each path matches itself alone as a pattern.
module _ (fs : Fs) (src_base : String) where
  abbrev pub IsListed : String → FileInfo → Type 0
  IsListed src_file info =
      (fs.glob (path_join src_base src_file) ≡ ok (path_join src_base src_file ∷ []))
      × (fs.lstat (path_join src_base src_file) ≡ ok info)

  unfoldable mutual
    pub IsContent : String → Tree → Type 0
    IsContent src_file (regular mode bytes) =
        fs.open_file (path_join src_base src_file) ≡ ok (bytes, none)
    IsContent src_file (link mode target) = fs.readlink (path_join src_base src_file) ≡ ok target
    IsContent src_file (directory mode forest) =
        (fs.read_dir (path_join src_base src_file) ≡ ok (names_of forest)) × AreAt src_file forest

    pub AreAt : String → Forest → Type 0
    AreAt src_file bare = Unit
    AreAt src_file (branch child tree forest) =
        (IsListed (path_join src_file child) (info_of tree)
          × IsContent (path_join src_file child) tree)
        × AreAt src_file forest

  abbrev pub IsAt : String → Tree → Type 0
  IsAt src_file tree = IsListed src_file (info_of tree) × IsContent src_file tree

module _ (fs : Fs) (sink : Sink) (sound : (item : TarItem) → sink item ≡ none)
    (src_base dst_base : String) where
  abbrev recursion : ℕ → String → String → Written
  recursion fuel src dst = write_recursive_with_tar fs sink fuel src_base src dst_base dst

  mutual
    unfolding write_recursive_with_tar write_matches write_entries flatten height IsContent

    tree-flatten :
        (fuel : ℕ) (tree : Tree) (src_file dst_file : String)
        → height tree ≤ fuel
        → IsListed fs src_base src_file (info_of tree)
        → IsContent fs src_base src_file tree
        → recursion fuel src_file dst_file ≡ (none, flatten dst_file tree)
    tree-flatten zero (regular mode bytes) src_file dst_file h (g, l) c = absurd (omega arith)
    tree-flatten zero (link mode target) src_file dst_file h (g, l) c = absurd (omega arith)
    tree-flatten zero (directory mode forest) src_file dst_file h (g, l) c = absurd (omega arith)
    tree-flatten (suc fuel) (regular mode bytes) src_file dst_file h (g, l) c =
        rw (g, l, sound _, c) refl
    tree-flatten (suc fuel) (link mode target) src_file dst_file h (g, l) c =
        rw (g, l, write_link, c, write_header, sound _) refl
    tree-flatten (suc fuel) (directory mode bare) src_file dst_file h (g, l) c =
        rw (g, l, write_dir, c.0, write_header, sound _) refl
    tree-flatten (suc fuel) (directory mode (branch child tree forest)) src_file dst_file h (g, l)
          c =
        rw (g, l, write_dir, c.0)
          (forest-flatten fuel (branch child tree forest) src_file dst_file (omega arith) c.1)

    forest-flatten :
        (fuel : ℕ) (forest : Forest) (src_file dst_file : String)
        → height_all forest ≤ fuel
        → AreAt fs src_base src_file forest
        → write_entries fs sink (recursion fuel) src_file dst_file (names_of forest)
          ≡ (none, flatten_all dst_file forest)
    forest-flatten fuel bare src_file dst_file h at = refl
    forest-flatten fuel (branch child tree forest) src_file dst_file h at =
        rw
          (
            tree-flatten fuel tree (path_join src_file child) (path_join dst_file child)
                (ground (arith, h)) at.0.0 at.0.1,
            forest-flatten fuel forest src_file dst_file (ground (arith, h)) at.1,
          )
          refl

-- When the files at the source have the shape of a tree, every name matches itself as a pattern, and
-- no header fails to be written, `writeWithTar` succeeds, for any nesting that is at least the height of
-- the tree. What it writes is each file with its content, each link with its target and each directory
-- with nothing in it, once, under the name of the destination and with its path in the tree behind.
pub write_with_tar-flatten :
    (fs : Fs) (sink : Sink) (fuel : ℕ) (src_path dst_path : String) (tree : Tree)
    → ((item : TarItem) → sink item ≡ none)
    → height tree ≤ fuel
    → IsAt fs (dir (clean src_path)) (base (clean src_path)) tree
    → write_with_tar fs sink fuel src_path dst_path ≡ (none, flatten (base (clean dst_path)) tree)
unfolding write_with_tar
write_with_tar-flatten fs sink fuel src_path dst_path tree sound h at =
    tree-flatten fs sink sound (dir (clean src_path)) (dir (clean dst_path)) fuel tree
      (base (clean src_path)) (base (clean dst_path)) h at.0 at.1
