-- ===== src/Paths/Normal.antt =====
-- Cleaned paths, and cleaning them again once they are printed.
use kubejob.Prelude.{
  if-elim, ℕ, zero, suc, ◌+◌, ◌≡◌, refl, sym, ap, ◌∙◌, String, ◌<>◌, Bool, true, false, ◌||◌, List,
  [], ◌∷◌, ◌++◌, All, replicate, join, is_empty, arith,
}
use mathlib.Core.List.{append_assoc, append-nil}
use Prim.Native.Char.{Char}
use text.Mathlib.TextLemmas.{nil-append, cons-append}
use kubejob.Paths.{
  CleanPath, is_slash, is_dot, is_dotdot, split_slash, push_front, go_up, resolve, walk, start,
  is_rooted, init, clean_path, print_path, or_dot,
}

abbrev pub has_slash : String → Bool
has_slash String.[] = false
has_slash (String.◌∷◌ c s) = is_slash c || has_slash s

-- An element with no slash in it, and one that names a file or a directory.
abbrev pub IsFlat : String → Type 0
IsFlat p = has_slash p ≡ false

abbrev pub IsName : String → Type 0
IsName p = (is_empty p ≡ false) × (is_dot p ≡ false) × (is_dotdot p ≡ false) × (has_slash p ≡ false)

-- A path that cleaning leaves as it is: from the root it never goes up.
pub record IsNormal (c : CleanPath) : Type 0 where
  pub names_only : All IsName c.names
  pub root : c.rooted ≡ true → c.ups ≡ 0

push_front-IsFlat :
    (c : Char) (ps : List String)
    → is_slash c ≡ false
    → All IsFlat ps
    → All IsFlat (push_front c ps)
push_front-IsFlat c [] h all = (ground arith, tt)
push_front-IsFlat c (p ∷ ps) h all = (ground (arith, all.0), all.1)

pub split_slash-IsFlat : (s : String) → All IsFlat (split_slash s)
unfolding split_slash
split_slash-IsFlat String.[] = (refl, tt)
split_slash-IsFlat (String.◌∷◌ c s) =
    if-elim (All IsFlat) (is_slash c) ("" ∷ split_slash s) (push_front c (split_slash s))
      (λ e. (refl, split_slash-IsFlat s))
      (λ e. push_front-IsFlat c (split_slash s) e (split_slash-IsFlat s))

pub All-append {ℓ κ} :
    {A : Type ℓ} (P : A → Type κ) (xs ys : List A) → All P xs → All P ys → All P (xs ++ ys)
All-append P [] ys hx hy = hy
All-append P (x ∷ xs) ys hx hy = (hx.0, All-append P xs ys hx.1 hy)

pub All-init {ℓ κ} : {A : Type ℓ} (P : A → Type κ) (xs : List A) → All P xs → All P (init xs)
All-init P [] h = tt
All-init P (x ∷ []) h = tt
All-init P (x ∷ y ∷ xs) h = (h.0, All-init P (y ∷ xs) h.1)

go_up-IsNormal :
    (c : CleanPath) (names : List String) → All IsName names → IsNormal c → IsNormal (go_up c names)
go_up-IsNormal c [] all n =
    if-elim IsNormal c.rooted c (record c { ups = suc c.ups }) (λ r. n)
      (λ r. record { names_only = n.names_only; root = λ h. cc })
go_up-IsNormal c (name ∷ names) all n = record {
  names_only = All-init IsName (name ∷ names) all;
  root = n.root;
}

resolve-IsNormal : (c : CleanPath) (p : String) → IsFlat p → IsNormal c → IsNormal (resolve c p)
resolve-IsNormal c p h n =
    if-elim IsNormal (is_empty p || is_dot p) c _ (λ e. n)
      (λ e.
        if-elim IsNormal (is_dotdot p) (go_up c c.names) (record c { names = c.names ++ p ∷ [] })
          (λ f. go_up-IsNormal c c.names n.names_only n)
          (λ f. record {
            names_only =
                All-append IsName c.names (p ∷ []) n.names_only
                  ((ground arith, ground arith, f, h), tt);
            root = n.root;
          }))

pub walk-IsNormal :
    (c : CleanPath) (ps : List String) → All IsFlat ps → IsNormal c → IsNormal (walk c ps)
unfolding walk
walk-IsNormal c [] all n = n
walk-IsNormal c (p ∷ ps) all n = walk-IsNormal (resolve c p) ps all.1 (resolve-IsNormal c p all.0 n)

pub clean_path-IsNormal : (s : String) → IsNormal (clean_path s)
unfolding clean_path
clean_path-IsNormal s =
    walk-IsNormal (start (is_rooted s)) (split_slash s) (split_slash-IsFlat s)
      (record { names_only = tt; root = λ h. refl })

split_part : (p s : String) → IsFlat p → split_slash (p <> ("/" <> s)) ≡ p ∷ split_slash s
unfolding split_slash
split_part String.[] s h = rw (nil-append ("/" <> s), cons-append _ "" s, nil-append s) refl
split_part (String.◌∷◌ c p) s h =
    let flat : IsFlat p = ground arith in
    let plain : is_slash c ≡ false = ground arith in
    rw (cons-append c p ("/" <> s), split_part p s flat, plain) refl

split_last : (p : String) → IsFlat p → split_slash p ≡ p ∷ []
unfolding split_slash
split_last String.[] h = refl
split_last (String.◌∷◌ c p) h =
    let flat : IsFlat p = ground arith in
    let plain : is_slash c ≡ false = ground arith in rw (split_last p flat, plain) refl

pub split_slash-join :
    (p : String) (ps : List String) → All IsFlat (p ∷ ps) → split_slash (join (p ∷ ps) "/") ≡ p ∷ ps
unfolding join
split_slash-join p [] h = split_last p h.0
split_slash-join p (q ∷ ps) h =
    split_part p (join (q ∷ ps) "/") h.0 ∙ ap (λ l. p ∷ l) (split_slash-join q ps h.1)

-- Names are walked down one after the other.
pub walk-names :
    (c : CleanPath) (ns : List String)
    → All IsName ns
    → walk c ns ≡ record c { names = c.names ++ ns }
unfolding walk
walk-names c [] h = ap (λ l. record c { names = l }) (sym (append-nil c.names))
walk-names c (n ∷ ns) h =
    let down : resolve c n ≡ record c { names = c.names ++ n ∷ [] } = ground (arith, h.0) in
    ap (λ d. walk d ns) down
    ∙ walk-names (record c { names = c.names ++ n ∷ [] }) ns h.1
    ∙ ap (λ l. record c { names = l }) (append_assoc c.names (n ∷ []) ns)

abbrev pub climbed : ℕ → CleanPath
climbed n = record { rooted = false; ups = n; names = [] }

pub walk-ups :
    (k n : ℕ) (ps : List String)
    → walk (climbed k) (replicate n ".." ++ ps) ≡ walk (climbed (n + k)) ps
unfolding walk
walk-ups k zero ps = ap (λ m. walk (climbed m) ps) (omega arith)
walk-ups k (suc n) ps = walk-ups (suc k) n ps ∙ ap (λ m. walk (climbed m) ps) (omega arith)

-- An element that is not empty and has no slash.
abbrev pub IsElement : String → Type 0
IsElement p = (is_empty p ≡ false) × (has_slash p ≡ false)

pub is_rooted-join :
    (p : String) (ps : List String) → IsElement p → is_rooted (join (p ∷ ps) "/") ≡ false
unfolding join
is_rooted-join String.[] ps h = cc (h.0)
is_rooted-join (String.◌∷◌ c p) [] h = ground (arith, h.1)
is_rooted-join (String.◌∷◌ c p) (q ∷ ps) h =
    rw (cons-append c p ("/" <> join (q ∷ ps) "/")) (ground (arith, h.1))

pub IsElement-IsFlat : (ps : List String) → All IsElement ps → All IsFlat ps
IsElement-IsFlat [] h = tt
IsElement-IsFlat (p ∷ ps) h = (h.0.1, IsElement-IsFlat ps h.1)

clean_path-or_dot :
    (ps : List String) → All IsElement ps → clean_path (or_dot ps) ≡ walk (start false) ps
unfolding clean_path walk split_slash
clean_path-or_dot [] h = refl
clean_path-or_dot (p ∷ ps) h =
    rw (is_rooted-join p ps h.0, split_slash-join p ps (IsElement-IsFlat (p ∷ ps) h)) refl

pub split_root : (s : String) → split_slash ("/" <> s) ≡ "" ∷ split_slash s
unfolding split_slash
split_root s = rw (cons-append _ "" s, nil-append s) refl

pub is_rooted-root : (s : String) → is_rooted ("/" <> s) ≡ true
is_rooted-root s = rw (cons-append _ "" s) refl

pub IsName-IsElement : (ns : List String) → All IsName ns → All IsElement ns
IsName-IsElement [] h = tt
IsName-IsElement (n ∷ ns) h = ((h.0.0, h.0.3), IsName-IsElement ns h.1)

pub ups-IsElement : (n : ℕ) → All IsElement (replicate n "..")
ups-IsElement zero = tt
ups-IsElement (suc n) = ((refl, refl), ups-IsElement n)

-- From the root, the names of a path.
clean_path-root :
    (ns : List String)
    → All IsName ns
    → clean_path ("/" <> join ns "/") ≡ record (start true) { names = ns }
unfolding clean_path walk split_slash join
clean_path-root [] h = refl
clean_path-root (n ∷ ns) h =
    rw
      (
        is_rooted-root (join (n ∷ ns) "/"),
        split_root (join (n ∷ ns) "/"),
        split_slash-join n ns (IsElement-IsFlat (n ∷ ns) (IsName-IsElement (n ∷ ns) h)),
      )
      (walk-names (start true) (n ∷ ns) h)

printed :
    (rooted : Bool) (ups : ℕ) (names : List String)
    → All IsName names
    → (rooted ≡ true → ups ≡ 0)
    → let c : CleanPath = record { rooted = rooted; ups = ups; names = names } in
      clean_path (print_path c) ≡ c
unfolding print_path
printed true ups names all root = rw (root refl) (clean_path-root names all)
printed false ups names all root =
    let elements =
      All-append IsElement (replicate ups "..") names (ups-IsElement ups)
        (IsName-IsElement names all) in
    clean_path-or_dot (replicate ups ".." ++ names) elements
    ∙ walk-ups 0 ups names
    ∙ walk-names (climbed (ups + 0)) names all
    ∙ ap (λ m. record (climbed m) { names = names }) (omega arith)

-- Cleaning a printed path that is normal gives the path back.
pub clean_path-print_path : (c : CleanPath) → IsNormal c → clean_path (print_path c) ≡ c
unfolding print_path
clean_path-print_path c n = printed c.rooted c.ups c.names n.names_only n.root
