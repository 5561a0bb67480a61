-- ===== src/Paths/Last.antt =====
-- path.Base of a path that is cleaned and goes down at its end, and path.Join with its path.Dir.
use kubejob.Prelude.{
  ℕ, zero, suc, ◌≡◌, refl, ap, ◌∙◌, String, ◌<>◌, Bool, true, false, List, [], ◌∷◌, ◌++◌, All,
  replicate, join, is_empty, Bool-cases, inl, inr,
}
use kubejob.Paths.{
  CleanPath, split_slash, init, last_or, trim_empty, last_trimmed, base, dir, print_path, path_join,
  or_dot,
}
use kubejob.Paths.Normal.{
  IsNormal, IsName, IsElement, All-append, All-init, IsElement-IsFlat, IsName-IsElement,
  ups-IsElement, split_root, split_slash-join, clean_path-print_path,
}
use kubejob.Paths.Parent.{dir-print_path}
use kubejob.Paths.Below.{path_join-names, is_empty-join, is_empty-root}

trim_empty-IsElement :
    (p : String) (ps : List String) → All IsElement (p ∷ ps) → trim_empty (p ∷ ps) ≡ p ∷ ps
trim_empty-IsElement p [] h = rw (h.0.0) refl
trim_empty-IsElement p (q ∷ ps) h = rw (trim_empty-IsElement q ps h.1) refl

last_or-append :
    (p : String) (ps : List String) (n : String) (ns : List String)
    → last_or p (ps ++ n ∷ ns) ≡ last_or n ns
last_or-append p [] n ns = refl
last_or-append p (q ∷ ps) n ns = last_or-append q ps n ns

-- A list is all but its last entry, and its last entry.
pub init-last_or : (n : String) (ns : List String) → init (n ∷ ns) ++ last_or n ns ∷ [] ≡ n ∷ ns
init-last_or n [] = refl
init-last_or n (m ∷ ns) = ap (λ l. n ∷ l) (init-last_or m ns)

pub last_or-IsName : (n : String) (ns : List String) → All IsName (n ∷ ns) → IsName (last_or n ns)
last_or-IsName n [] h = h.0
last_or-IsName n (m ∷ ns) h = last_or-IsName m ns h.1

base-split :
    (s p : String) (ps : List String)
    → is_empty s ≡ false
    → trim_empty (split_slash s) ≡ p ∷ ps
    → base s ≡ last_or p ps
unfolding base
base-split s p ps h e = rw h (ap last_trimmed e)

base-or_dot :
    (p : String) (ps : List String) → All IsElement (p ∷ ps) → base (or_dot (p ∷ ps)) ≡ last_or p ps
base-or_dot p ps h = base-split (join (p ∷ ps) "/") p ps (is_empty-join p ps h.0.0) (
    ap trim_empty (split_slash-join p ps (IsElement-IsFlat (p ∷ ps) h))
    ∙ trim_empty-IsElement p ps h)

base-root :
    (n : String) (ns : List String)
    → All IsName (n ∷ ns)
    → base ("/" <> join (n ∷ ns) "/") ≡ last_or n ns
base-root n ns h =
    let elements = IsName-IsElement (n ∷ ns) h in
    base-split ("/" <> join (n ∷ ns) "/") "" (n ∷ ns) (is_empty-root (join (n ∷ ns) "/")) (
      ap trim_empty (split_root (join (n ∷ ns) "/"))
      ∙ ap (λ l. trim_empty ("" ∷ l)) (split_slash-join n ns (IsElement-IsFlat (n ∷ ns) elements))
      ∙ rw (trim_empty-IsElement n ns elements) refl)

base-ups :
    (ups : ℕ) (n : String) (ns : List String)
    → All IsName (n ∷ ns)
    → base (or_dot (replicate ups ".." ++ n ∷ ns)) ≡ last_or n ns
base-ups zero n ns h = base-or_dot n ns (IsName-IsElement (n ∷ ns) h)
base-ups (suc u) n ns h =
    base-or_dot ".." (replicate u ".." ++ n ∷ ns) (
      All-append IsElement (replicate (suc u) "..") (n ∷ ns) (ups-IsElement (suc u))
        (IsName-IsElement (n ∷ ns) h))
    ∙ last_or-append ".." (replicate u "..") n ns

-- The base of a path that goes down at its end is its last name.
pub base-print_path :
    (rooted : Bool) (ups : ℕ) (n : String) (ns : List String)
    → let c : CleanPath = record { rooted = rooted; ups = ups; names = n ∷ ns } in
      IsNormal c → base (print_path c) ≡ last_or n ns
unfolding print_path
base-print_path true ups n ns h = rw (h.root refl) (base-root n ns h.names_only)
base-print_path false ups n ns h = base-ups ups n ns h.names_only

is_empty-or_dot : (ps : List String) → All IsElement ps → is_empty (or_dot ps) ≡ false
is_empty-or_dot [] h = refl
is_empty-or_dot (p ∷ ps) h = is_empty-join p ps h.0.0

pub is_empty-print_path : (c : CleanPath) → IsNormal c → is_empty (print_path c) ≡ false
unfolding print_path
is_empty-print_path c h = elim (Bool-cases c.rooted) [
  | inl r ↦ rw r (is_empty-root (join (replicate c.ups ".." ++ c.names) "/"))
  | inr r ↦ rw r (
      is_empty-or_dot (replicate c.ups ".." ++ c.names) (
        All-append IsElement (replicate c.ups "..") c.names (ups-IsElement c.ups)
          (IsName-IsElement c.names h.names_only)))
]

-- A parent joined with names goes down these names in place of its last one.
pub dir-path_join :
    (rooted : Bool) (ups : ℕ) (n : String) (ns : List String) (m : String) (ms : List String)
    → let c : CleanPath = record { rooted = rooted; ups = ups; names = n ∷ ns } in
      IsNormal c
      → All IsName (m ∷ ms)
      → path_join (dir (print_path c)) (join (m ∷ ms) "/")
        ≡ print_path (record c { names = init (n ∷ ns) ++ m ∷ ms })
dir-path_join rooted ups n ns m ms h k =
    let c : CleanPath = record { rooted = rooted; ups = ups; names = n ∷ ns } in
    let parent : CleanPath = record c { names = init (n ∷ ns) } in
    let normal : IsNormal parent = record {
      names_only = All-init IsName (n ∷ ns) h.names_only;
      root = h.root;
    } in
    ap (λ d. path_join d (join (m ∷ ms) "/")) (dir-print_path c n ns h)
    ∙ path_join-names (print_path parent) m ms (is_empty-print_path parent normal) k
    ∙ ap (λ (q : CleanPath). print_path (record q { names = q.names ++ m ∷ ms }))
        (clean_path-print_path parent normal)
