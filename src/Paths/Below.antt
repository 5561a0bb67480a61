-- ===== src/Paths/Below.antt =====
-- Joining a path with names below it.
use kubejob.Prelude.{
  ◌≡◌, refl, ap, ◌∙◌, String, ◌<>◌, false, List, [], ◌∷◌, ◌++◌, All, Bool-cases, if-elim, inl, inr,
  join, is_empty,
}
use mathlib.Core.List.{append-nil}
use Prim.Native.Char.{Char}
use text.Mathlib.TextLemmas.{nil-append, cons-append}
use kubejob.Paths.{
  CleanPath, is_slash, split_slash, push_front, resolve, walk, start, is_rooted, clean_path, clean,
  print_path, path_join,
}
use kubejob.Paths.Normal.{
  IsName, IsElement-IsFlat, IsName-IsElement, split_root, split_slash-join, walk-names,
}

-- A text has at least one element.
split_slash-cases : (a : String) → (p : String) × (ps : List String) × (split_slash a ≡ p ∷ ps)
unfolding split_slash
split_slash-cases String.[] = ("", [], refl)
split_slash-cases (String.◌∷◌ c a) =
    let (p, ps, e) = split_slash-cases a in
    if-elim (λ (l : List String). (q : String) × (qs : List String) × (l ≡ q ∷ qs)) (is_slash c)
      ("" ∷ split_slash a) (push_front c (split_slash a)) (λ h. ("", split_slash a, refl))
      (λ h. (String.◌∷◌ c p, ps, ap (push_front c) e))

push_front-append :
    (c : Char) (a : String) (qs : List String)
    → push_front c (split_slash a ++ qs) ≡ push_front c (split_slash a) ++ qs
push_front-append c a qs = let (p, ps, e) = split_slash-cases a in rw e refl

-- The elements of two texts with a slash between them are those of both.
split_slash-append : (a b : String) → split_slash (a <> ("/" <> b)) ≡ split_slash a ++ split_slash b
unfolding split_slash
split_slash-append String.[] b = ap split_slash (nil-append ("/" <> b)) ∙ split_root b
split_slash-append (String.◌∷◌ c a) b =
    rw (cons-append c a ("/" <> b), split_slash-append a b)
      (elim (Bool-cases (is_slash c)) [
        | inl h ↦ rw h refl
        | inr h ↦ rw h (push_front-append c a (split_slash b))
      ])

walk-append : (c : CleanPath) (xs ys : List String) → walk c (xs ++ ys) ≡ walk (walk c xs) ys
unfolding walk
walk-append c [] ys = refl
walk-append c (x ∷ xs) ys = walk-append (resolve c x) xs ys

is_rooted-append : (a b : String) → is_empty a ≡ false → is_rooted (a <> b) ≡ is_rooted a
is_rooted-append String.[] b h = absurd (cc h)
is_rooted-append (String.◌∷◌ c a) b h = ap is_rooted (cons-append c a b)

-- The elements of a slash, and names behind it: an empty one, and then the names.
walk-below :
    (c : CleanPath) (names : List String)
    → All IsName names
    → walk c (split_slash ("/" <> join names "/")) ≡ record c { names = c.names ++ names }
unfolding walk split_slash join
walk-below c [] h = walk-names c [] h
walk-below c (n ∷ ns) h =
    rw
      (
        split_root (join (n ∷ ns) "/"),
        split_slash-join n ns (IsElement-IsFlat (n ∷ ns) (IsName-IsElement (n ∷ ns) h)),
      )
      (walk-names c (n ∷ ns) h)

walk-folder :
    (c : CleanPath) (names : List String)
    → All IsName names
    → walk c (split_slash ("/" <> (join names "/" <> "/"))) ≡ record c { names = c.names ++ names }
unfolding walk split_slash join
walk-folder c [] h = walk-names c [] h
walk-folder c (n ∷ ns) h =
    rw
      (
        split_root (join (n ∷ ns) "/" <> "/"),
        split_slash-append (join (n ∷ ns) "/") "",
        split_slash-join n ns (IsElement-IsFlat (n ∷ ns) (IsName-IsElement (n ∷ ns) h)),
      )
      (walk-append c (n ∷ ns) ("" ∷ []) ∙ walk-names c (n ∷ ns) h)

clean_path-below :
    (a : String) (names : List String)
    → is_empty a ≡ false
    → All IsName names
    → clean_path (a <> ("/" <> ("/" <> join names "/")))
      ≡ record (clean_path a) { names = (clean_path a).names ++ names }
unfolding clean_path
clean_path-below a names some h =
    rw
      (
        is_rooted-append a ("/" <> ("/" <> join names "/")) some,
        split_slash-append a ("/" <> join names "/"),
      )
      (walk-append (start (is_rooted a)) (split_slash a) _ ∙ walk-below _ names h)

path_join-clean :
    (a b : String)
    → is_empty a ≡ false
    → is_empty b ≡ false
    → path_join a b ≡ clean (a <> ("/" <> b))
unfolding path_join join
path_join-clean a b h k = rw (h, k) refl

pub is_empty-root : (s : String) → is_empty ("/" <> s) ≡ false
is_empty-root s = rw (cons-append _ "" s) refl

clean_path-names :
    (a n : String) (ns : List String)
    → is_empty a ≡ false
    → All IsName (n ∷ ns)
    → clean_path (a <> ("/" <> join (n ∷ ns) "/"))
      ≡ record (clean_path a) { names = (clean_path a).names ++ n ∷ ns }
unfolding clean_path
clean_path-names a n ns some h =
    rw
      (
        is_rooted-append a ("/" <> join (n ∷ ns) "/") some,
        split_slash-append a (join (n ∷ ns) "/"),
        split_slash-join n ns (IsElement-IsFlat (n ∷ ns) (IsName-IsElement (n ∷ ns) h)),
      )
      (walk-append (start (is_rooted a)) (split_slash a) (n ∷ ns) ∙ walk-names _ (n ∷ ns) h)

pub is_empty-join :
    (n : String) (ns : List String) → is_empty n ≡ false → is_empty (join (n ∷ ns) "/") ≡ false
unfolding join
is_empty-join n [] h = h
is_empty-join String.[] (m ∷ ns) h = absurd (cc h)
is_empty-join (String.◌∷◌ c n) (m ∷ ns) h = rw (cons-append c n ("/" <> join (m ∷ ns) "/")) refl

-- A path joined with names goes down these names.
pub path_join-names :
    (a n : String) (ns : List String)
    → is_empty a ≡ false
    → All IsName (n ∷ ns)
    → path_join a (join (n ∷ ns) "/")
      ≡ print_path (record (clean_path a) { names = (clean_path a).names ++ n ∷ ns })
unfolding clean
path_join-names a n ns some h =
    path_join-clean a (join (n ∷ ns) "/") some (is_empty-join n ns h.0.0)
    ∙ ap print_path (clean_path-names a n ns some h)

-- A path joined with a slash and names goes down these names.
pub path_join-below :
    (a : String) (names : List String)
    → is_empty a ≡ false
    → All IsName names
    → path_join a ("/" <> join names "/")
      ≡ print_path (record (clean_path a) { names = (clean_path a).names ++ names })
unfolding clean
path_join-below a names some h =
    path_join-clean a ("/" <> join names "/") some (is_empty-root (join names "/"))
    ∙ ap print_path (clean_path-below a names some h)

clean_path-folder :
    (a : String) (names : List String)
    → is_empty a ≡ false
    → All IsName names
    → clean_path (a <> ("/" <> ("/" <> (join names "/" <> "/"))))
      ≡ record (clean_path a) { names = (clean_path a).names ++ names }
unfolding clean_path
clean_path-folder a names some h =
    rw
      (
        is_rooted-append a ("/" <> ("/" <> (join names "/" <> "/"))) some,
        split_slash-append a ("/" <> (join names "/" <> "/")),
      )
      (walk-append (start (is_rooted a)) (split_slash a) _ ∙ walk-folder _ names h)

-- A path joined with a slash, names and a slash at the end goes down these names.
pub path_join-folder :
    (a : String) (names : List String)
    → is_empty a ≡ false
    → All IsName names
    → path_join a ("/" <> (join names "/" <> "/"))
      ≡ print_path (record (clean_path a) { names = (clean_path a).names ++ names })
unfolding clean
path_join-folder a names some h =
    path_join-clean a ("/" <> (join names "/" <> "/")) some (is_empty-root (join names "/" <> "/"))
    ∙ ap print_path (clean_path-folder a names some h)

-- A path joined with nothing is cleaned.
pub path_join-itself :
    (a : String)
    → is_empty a ≡ false
    → path_join a "" ≡ print_path (record (clean_path a) { names = (clean_path a).names ++ [] })
unfolding path_join join clean
path_join-itself a some = rw (some, append-nil (clean_path a).names) refl
