-- ===== src/Tar/Landing.antt =====
-- Where tar in the container puts what `CopyToPod` of copy.go sends.
use kubejob.Prelude.{
  ℕ, ◌≤◌, ◌≡◌, refl, sym, ap, ◌∙◌, subst, String, Bool, false, none, List, [], ◌∷◌, ◌++◌, All, join,
}
use mathlib.Core.List.{append_assoc}
use kubejob.Paths.{CleanPath, clean_path, print_path, clean, path_join, dir, base, init, last_or}
use kubejob.Paths.Normal.{IsName, IsNormal, All-append, clean_path-IsNormal, clean_path-print_path}
use kubejob.Paths.Below.{path_join-names, is_empty-join}
use kubejob.Paths.Last.{base-print_path, dir-path_join, init-last_or, last_or-IsName}
use kubejob.Untar.Inside.{Inside, extend}
use kubejob.Tar.{Fs, Sink, TarItem, Written, write_with_tar}
use kubejob.Tar.Tree.{
  Tree, Forest, regular, link, directory, bare, branch, flatten, flatten_all, height, IsAt,
  write_with_tar-flatten,
}

-- Every name in the tree names a file or a directory.
unfoldable mutual
  pub IsNamed : Tree → Type 0
  IsNamed (regular mode bytes) = Unit
  IsNamed (link mode target) = Unit
  IsNamed (directory mode forest) = AreNamed forest

  pub AreNamed : Forest → Type 0
  AreNamed bare = Unit
  AreNamed (branch child tree forest) = IsName child × IsNamed tree × AreNamed forest

-- The item is named by a name and some more behind it.
abbrev pub IsBelow : String → TarItem → Type 0
IsBelow n item = (ns : List String) × (item.name ≡ join (n ∷ ns) "/") × All IsName ns

-- Names joined with a name are the names with it at their end.
path_join-name :
    (n : String) (ns : List String) (child : String)
    → All IsName (n ∷ ns)
    → IsName child
    → path_join (join (n ∷ ns) "/") child ≡ join (n ∷ ns ++ child ∷ []) "/"
unfolding print_path join
path_join-name n ns child h k =
    let rest : CleanPath = record { rooted = false; ups = 0; names = n ∷ ns } in
    let normal : IsNormal rest = record { names_only = h; root = λ e. refl } in
    path_join-names (join (n ∷ ns) "/") child [] (is_empty-join n ns h.0.0) (k, tt)
    ∙ ap (λ (q : CleanPath). print_path (record q { names = q.names ++ child ∷ [] }))
        (clean_path-print_path rest normal)

mutual
  unfolding flatten IsNamed

  flatten-IsBelow :
      (n : String) (ns : List String) (tree : Tree)
      → All IsName (n ∷ ns)
      → IsNamed tree
      → All (IsBelow n) (flatten (join (n ∷ ns) "/") tree)
  flatten-IsBelow n ns (regular mode bytes) h t = ((ns, refl, h.1), tt)
  flatten-IsBelow n ns (link mode target) h t = ((ns, refl, h.1), tt)
  flatten-IsBelow n ns (directory mode bare) h t = ((ns, refl, h.1), tt)
  flatten-IsBelow n ns (directory mode (branch child tree forest)) h t =
      flatten_all-IsBelow n ns (branch child tree forest) h t

  flatten_all-IsBelow :
      (n : String) (ns : List String) (forest : Forest)
      → All IsName (n ∷ ns)
      → AreNamed forest
      → All (IsBelow n) (flatten_all (join (n ∷ ns) "/") forest)
  flatten_all-IsBelow n ns bare h t = tt
  flatten_all-IsBelow n ns (branch child tree forest) h t =
      All-append (IsBelow n) (flatten (path_join (join (n ∷ ns) "/") child) tree)
        (flatten_all (join (n ∷ ns) "/") forest)
        (subst (λ s. All (IsBelow n) (flatten s tree)) (sym (path_join-name n ns child h t.0))
          (flatten-IsBelow n (ns ++ child ∷ []) tree
            (All-append IsName (n ∷ ns) (child ∷ []) h (t.0, tt)) t.1))
        (flatten_all-IsBelow n ns forest h t.2)

-- The path at which tar puts an item when it changes to the parent of a destination that goes down at its
-- end.
landing :
    (rooted : Bool) (ups : ℕ) (n : String) (ns ms : List String)
    → let c : CleanPath = record { rooted = rooted; ups = ups; names = n ∷ ns } in
      IsNormal c
      → All IsName ms
      → path_join (dir (print_path c)) (join (last_or n ns ∷ ms) "/") ≡ print_path (extend c ms)
landing rooted ups n ns ms h k =
    let c : CleanPath = record { rooted = rooted; ups = ups; names = n ∷ ns } in
    dir-path_join rooted ups n ns (last_or n ns) ms h (last_or-IsName n ns h.names_only, k)
    ∙ ap (λ l. print_path (record c { names = l }))
        (sym (append_assoc (init (n ∷ ns)) (last_or n ns ∷ []) ms)
          ∙ ap (λ l. l ++ ms) (init-last_or n ns))

extend-Inside :
    (c : CleanPath) (ms : List String)
    → IsNormal c
    → All IsName ms
    → Inside (print_path c) (print_path (extend c ms))
extend-Inside c ms h k =
    let normal : IsNormal (extend c ms) = record {
      names_only = All-append IsName c.names ms h.names_only k;
      root = h.root;
    } in
    (
      ms,
      clean_path-print_path (extend c ms) normal
          ∙ ap (λ (q : CleanPath). extend q ms) (sym (clean_path-print_path c h)),
    )

IsBelow-Inside :
    (rooted : Bool) (ups : ℕ) (n : String) (ns : List String) (item : TarItem)
    → let c : CleanPath = record { rooted = rooted; ups = ups; names = n ∷ ns } in
      IsNormal c
      → IsBelow (last_or n ns) item
      → Inside (print_path c) (path_join (dir (print_path c)) item.name)
IsBelow-Inside rooted ups n ns item h (ms, e, k) =
    let c : CleanPath = record { rooted = rooted; ups = ups; names = n ∷ ns } in
    subst (Inside (print_path c))
      (sym (ap (path_join (dir (print_path c))) e ∙ landing rooted ups n ns ms h k))
      (extend-Inside c ms h k)

All-map {ℓ κ} :
    {A : Type ℓ} (P Q : A → Type κ) (xs : List A) → ((x : A) → P x → Q x) → All P xs → All Q xs
All-map P Q [] f h = tt
All-map P Q (x ∷ xs) f h = (f x h.0, All-map P Q xs f h.1)

-- When tar changes to the parent of the destination, the item is inside the destination.
abbrev pub LandsInside : String → TarItem → Type 0
LandsInside dst item = Inside dst (path_join (dir dst) item.name)

flatten-LandsInside :
    (rooted : Bool) (ups : ℕ) (n : String) (ns : List String) (tree : Tree)
    → let c : CleanPath = record { rooted = rooted; ups = ups; names = n ∷ ns } in
      IsNormal c
      → IsNamed tree
      → All (LandsInside (print_path c)) (flatten (base (print_path c)) tree)
unfolding join
flatten-LandsInside rooted ups n ns tree h t =
    let dst = print_path (record { rooted = rooted; ups = ups; names = n ∷ ns }) in
    subst (λ b. All (LandsInside dst) (flatten b tree)) (sym (base-print_path rooted ups n ns h))
      (All-map (IsBelow (last_or n ns)) (LandsInside dst) _
        (λ item. IsBelow-Inside rooted ups n ns item h)
        (flatten-IsBelow (last_or n ns) [] tree (last_or-IsName n ns h.names_only, tt) t))

-- Under the conditions of `write_with_tar-flatten`, for a tree whose names name files, and a destination
-- that is cleaned and goes down at its end: everything that `CopyToPod` sends is unpacked at the
-- destination or below it, by a tar that changes to the destination's parent.
pub write_with_tar-LandsInside :
    (fs : Fs) (sink : Sink) (fuel : ℕ) (src_path dst_path : String) (tree : Tree) (n : String)
    (ns : List String)
    → ((item : TarItem) → sink item ≡ none)
    → height tree ≤ fuel
    → IsAt fs (dir (clean src_path)) (base (clean src_path)) tree
    → IsNamed tree
    → clean dst_path ≡ dst_path
    → (clean_path dst_path).names ≡ n ∷ ns
    → All (LandsInside dst_path) (write_with_tar fs sink fuel src_path dst_path).1
unfolding clean
write_with_tar-LandsInside fs sink fuel src_path dst_path tree n ns sound h at t cleaned down =
    let c = clean_path dst_path in
    let eq : c ≡ record c { names = n ∷ ns } = ap (λ l. record c { names = l }) down in
    let lands =
      flatten-LandsInside c.rooted c.ups n ns tree
        (subst IsNormal eq (clean_path-IsNormal dst_path)) t in
    subst (λ (w : Written). All (LandsInside dst_path) w.1)
      (sym (write_with_tar-flatten fs sink fuel src_path dst_path tree sound h at))
      (subst (λ d. All (LandsInside d) (flatten (base (clean dst_path)) tree)) cleaned
        (subst (λ q. All (LandsInside (print_path q)) (flatten (base (print_path q)) tree)) (sym eq)
          lands))
