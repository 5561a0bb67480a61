-- ===== src/Paths/Parent.antt =====
-- path.Dir of a path that is cleaned and goes down at its end.
use kubejob.Prelude.{
  ℕ, zero, suc, ◌+◌, ◌≡◌, refl, ap, ◌∙◌, String, ◌<>◌, Bool, true, false, List, [], ◌∷◌, ◌++◌, All,
  replicate, join, arith,
}
use kubejob.Paths.{CleanPath, split_slash, init, walk, start, is_rooted, dir, print_path, or_dot}
use kubejob.Paths.Normal.{
  IsNormal, IsName, IsElement, All-append, All-init, IsElement-IsFlat, IsName-IsElement,
  ups-IsElement, is_rooted-join, is_rooted-root, split_root, split_slash-join, walk-names, walk-ups,
  climbed,
}

pub init-append {ℓ} :
    {A : Type ℓ} (xs : List A) (y : A) (ys : List A) → init (xs ++ y ∷ ys) ≡ xs ++ init (y ∷ ys)
init-append [] y ys = refl
init-append (x ∷ []) y ys = refl
init-append (x ∷ z ∷ xs) y ys = ap (λ l. x ∷ l) (init-append (z ∷ xs) y ys)

-- The path whose elements are all but the last of a printed one.
abbrev all_but_last : String → CleanPath
all_but_last s = walk (start (is_rooted s)) (init (split_slash s))

all_but_last-root :
    (n : String) (ns : List String)
    → All IsName (n ∷ ns)
    → all_but_last ("/" <> join (n ∷ ns) "/") ≡ record (start true) { names = init (n ∷ ns) }
unfolding walk
all_but_last-root n ns h =
    rw
      (
        is_rooted-root (join (n ∷ ns) "/"),
        split_root (join (n ∷ ns) "/"),
        split_slash-join n ns (IsElement-IsFlat (n ∷ ns) (IsName-IsElement (n ∷ ns) h)),
      )
      (walk-names (start true) (init (n ∷ ns)) (All-init IsName (n ∷ ns) h))

all_but_last-or_dot :
    (p : String) (ps : List String)
    → All IsElement (p ∷ ps)
    → all_but_last (or_dot (p ∷ ps)) ≡ walk (start false) (init (p ∷ ps))
all_but_last-or_dot p ps h =
    rw (is_rooted-join p ps h.0, split_slash-join p ps (IsElement-IsFlat (p ∷ ps) h)) refl

all_but_last-ups :
    (ups : ℕ) (n : String) (ns : List String)
    → All IsName (n ∷ ns)
    → all_but_last (or_dot (replicate ups ".." ++ n ∷ ns))
      ≡ walk (start false) (replicate ups ".." ++ init (n ∷ ns))
all_but_last-ups zero n ns h = all_but_last-or_dot n ns (IsName-IsElement (n ∷ ns) h)
all_but_last-ups (suc u) n ns h =
    all_but_last-or_dot ".." (replicate u ".." ++ n ∷ ns) (
      All-append IsElement (replicate (suc u) "..") (n ∷ ns) (ups-IsElement (suc u))
        (IsName-IsElement (n ∷ ns) h))
    ∙ ap (walk (start false)) (init-append (replicate (suc u) "..") n ns)

all_but_last-print_path :
    (rooted : Bool) (ups : ℕ) (n : String) (ns : List String)
    → All IsName (n ∷ ns)
    → (rooted ≡ true → ups ≡ 0)
    → all_but_last (print_path (record { rooted = rooted; ups = ups; names = n ∷ ns }))
      ≡ record { rooted = rooted; ups = ups; names = init (n ∷ ns) }
unfolding print_path
all_but_last-print_path true ups n ns h root = rw (root refl) (all_but_last-root n ns h)
all_but_last-print_path false ups n ns h root =
    all_but_last-ups ups n ns h
    ∙ walk-ups 0 ups (init (n ∷ ns))
    ∙ walk-names (climbed (ups + 0)) (init (n ∷ ns)) (All-init IsName (n ∷ ns) h)
    ∙ ap (λ m. record (climbed m) { names = init (n ∷ ns) }) (omega arith)

-- The parent of a path that goes down at its end is that path without its last name.
pub dir-print_path :
    (c : CleanPath) (n : String) (ns : List String)
    → IsNormal (record c { names = n ∷ ns })
    → dir (print_path (record c { names = n ∷ ns }))
      ≡ print_path (record c { names = init (n ∷ ns) })
unfolding dir
dir-print_path c n ns normal =
    ap print_path (all_but_last-print_path c.rooted c.ups n ns normal.names_only normal.root)
