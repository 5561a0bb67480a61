-- ===== src/Untar/Inside.antt =====
-- What `isDstRelative` of copy.go tests.
use kubejob.Prelude.{
  ◌<◌, ◌⊎◌, if-elim, subst, ℕ, zero, suc, ◌+◌, ◌-◌, ◌≡◌, refl, sym, ap, ◌∙◌, String, Bool, true,
  false, not, ◌&&◌, ◌||◌, Option, none, some, inl, inr, ◌↔◌, List, [], ◌∷◌, ◌++◌, All, length,
  replicate, join, str_eq, eq_iff, eq_refl, ltb, Bool-cases, arith,
}
use mathlib.Core.List.{append-nil}
use kubejob.Paths.{
  CleanPath, is_dot, print_path, or_dot, clean_path, rel, print_some, rel_path, strip_common, below,
}
use kubejob.Paths.Normal.{IsNormal, IsName, clean_path-IsNormal}
use kubejob.Untar.{trim_shortcut_path, is_dst_relative, stays, stays_some}
use kubejob.Untar.Shortcut.{
  join-IsDown, begins_back, begins_back-back, downward, trim_shortcut_path-print_path,
}

abbrev pub extend : CleanPath → List String → CleanPath
extend c names = record c { names = c.names ++ names }

-- A path inside another one, or the same: cleaned, it is the other one with more names behind.
abbrev pub Inside : String → String → Type 0
Inside base path = (names : List String) × (clean_path path ≡ extend (clean_path base) names)

pub Inside-refl : (path : String) → Inside path path
Inside-refl path = (
  [],
  ap (λ l. record (clean_path path) { names = l }) (sym (append-nil (clean_path path).names)),
)

strip_common-append : (bs rest : List String) → strip_common bs (bs ++ rest) ≡ ([], rest)
strip_common-append [] rest = refl
strip_common-append (b ∷ bs) rest = rw (eq_refl b) (strip_common-append bs rest)

-- If nothing is left of the first list, the second one begins with it.
strip_common-nil :
    (bs ts : List String) → length (strip_common bs ts).0 ≡ 0 → ts ≡ bs ++ (strip_common bs ts).1
strip_common-nil [] ts h = refl
strip_common-nil (b ∷ bs) [] h = cc h
strip_common-nil (b ∷ bs) (t ∷ ts) h = elim (Bool-cases (str_eq b t)) [
  | inr other ↦ absurd (ground arith)
  | inl same ↦
      let rest = strip_common-nil bs ts (ground arith) in
      rw same (
        ap (λ l. t ∷ l) rest
        ∙ ap (λ x. x ∷ (bs ++ (strip_common bs ts).1)) (sym ((eq_iff b t).0 same)))
]

-- A text that begins with `../` is no `.`, and is not what `trimShortcutPath` leaves.
back-not_dot : (s : String) → begins_back s ≡ true → is_dot s ≡ false
back-not_dot String.[] h = cc h
back-not_dot (String.◌∷◌ c String.[]) h = cc h
back-not_dot (String.◌∷◌ c (String.◌∷◌ d s)) h = refl

downward-not_back : (names : List String) → All IsName names → begins_back (downward names) ≡ false
downward-not_back [] h = refl
downward-not_back (p ∷ ps) h = (join-IsDown p ps h).3

back-leaves :
    (s : String) (names : List String)
    → All IsName names
    → begins_back s ≡ true
    → trim_shortcut_path s ≡ downward names
    → stays s ≡ false
back-leaves s names all b t = elim (Bool-cases (str_eq s (trim_shortcut_path s))) [
  | inr differ ↦ rw (back-not_dot s b) differ
  | inl same ↦
      let eq : s ≡ downward names = (eq_iff s (trim_shortcut_path s)).0 same ∙ t in
      absurd (cc (sym b ∙ ap begins_back eq ∙ downward-not_back names all))
]

up_alone : trim_shortcut_path ".." ≡ "" → stays ".." ≡ false
up_alone t = rw t refl

-- A relative path stays if and only if it has no step up.
stays-or_dot :
    (ups : ℕ) (names : List String)
    → All IsName names
    → trim_shortcut_path (or_dot (replicate ups ".." ++ names)) ≡ downward names
    → (stays (or_dot (replicate ups ".." ++ names)) ≡ true) ↔ (ups ≡ 0)
unfolding join
stays-or_dot zero [] all t = (λ h. refl, λ h. refl)
stays-or_dot zero (p ∷ ps) all t =
    (λ h. refl, λ h. rw ((join-IsDown p ps all).1, t) (eq_refl (join (p ∷ ps) "/")))
stays-or_dot (suc zero) [] all t =
    (λ h. absurd (cc (sym h ∙ up_alone t)), λ h. absurd (omega arith))
stays-or_dot (suc zero) (p ∷ ps) all t = (
  λ h. absurd (cc (sym h ∙ back-leaves _ (p ∷ ps) all (begins_back-back (join (p ∷ ps) "/")) t)),
  λ h. absurd (omega arith),
)
stays-or_dot (suc (suc n)) names all t = (
  λ h. absurd (
      cc (
        sym h
        ∙ back-leaves _ names all (begins_back-back (or_dot (replicate (suc n) ".." ++ names))) t)),
  λ h. absurd (omega arith),
)

stays-print_path :
    (r : CleanPath) → IsNormal r → r.rooted ≡ false → (stays (print_path r) ≡ true) ↔ (r.ups ≡ 0)
unfolding print_path
stays-print_path r n f =
    let t = trim_shortcut_path-print_path r n f in
    let e : print_path r ≡ or_dot (replicate r.ups ".." ++ r.names) = rw f refl in
    subst (λ s. (stays s ≡ true) ↔ (r.ups ≡ 0)) (sym e)
      (stays-or_dot r.ups r.names n.names_only
        (subst (λ s. trim_shortcut_path s ≡ downward r.names) e t))

-- `Rel` gives a path that is not rooted, and as clean as the two that it is given.
strip_common-IsName : (bs ts : List String) → All IsName ts → All IsName (strip_common bs ts).1
strip_common-IsName [] ts h = h
strip_common-IsName (b ∷ bs) [] h = tt
strip_common-IsName (b ∷ bs) (t ∷ ts) h =
    if-elim (λ (r : List String × List String). All IsName r.1) (str_eq b t) (strip_common bs ts)
      (b ∷ bs, t ∷ ts) (λ e. strip_common-IsName bs ts h.1) (λ e. h)

CleanPath-path : (c d : CleanPath) → c.rooted ≡ d.rooted → c.ups ≡ d.ups → c.names ≡ d.names → c ≡ d
CleanPath-path c d p q r = λ i. record { rooted = p i; ups = q i; names = r i }

abbrev kept : Option CleanPath → Bool
kept none = false
kept (some r) = stays (print_path r)

abbrev common : CleanPath → CleanPath → CleanPath
common b t = below (strip_common b.names t.names)

common-IsNormal : (b t : CleanPath) → IsNormal t → IsNormal (common b t)
common-IsNormal b t n = record {
  names_only = strip_common-IsName b.names t.names n.names_only;
  root = λ h. cc;
}

-- The cases of `rel_path`: no path, a path with a step up, or what is not common.
rel_path-cases :
    (b t : CleanPath)
    → (rel_path b t ≡ none)
      ⊎ ((r : CleanPath) × (rel_path b t ≡ some r)
          × (r.rooted ≡ false)
          × (r.names ≡ t.names)
          × (0 < r.ups))
      ⊎ ((rel_path b t ≡ some (common b t)) × (b.rooted ≡ t.rooted) × (b.ups ≡ t.ups))
unfolding rel_path
rel_path-cases b t = elim (Bool-cases ((b.rooted && not t.rooted) || (not b.rooted && t.rooted))) [
  | inl e ↦ inl (ground arith)
  | inr e ↦ elim (Bool-cases (ltb t.ups b.ups)) [
    | inl f ↦ inl (ground arith)
    | inr f ↦ elim (Bool-cases (ltb b.ups t.ups)) [
      | inl g ↦ inr (
          inl (
            record { rooted = false; ups = length b.names + (t.ups - b.ups); names = t.names },
            ground arith,
            refl,
            refl,
            ground arith,
          ))
      | inr g ↦ inr (inr (ground arith, ground arith, ground arith))
    ]
  ]
]

common-stays :
    (b t : CleanPath)
    → IsNormal t
    → (stays (print_path (common b t)) ≡ true) ↔ (length (strip_common b.names t.names).0 ≡ 0)
common-stays b t n = stays-print_path (common b t) (common-IsNormal b t n) refl

kept-extend :
    (b t : CleanPath)
    → IsNormal t
    → kept (rel_path b t) ≡ true
    → (names : List String) × (t ≡ extend b names)
kept-extend b t n h = elim (rel_path-cases b t) [
  | inl e ↦ absurd (cc (sym h ∙ ap kept e))
  | inr (inl (r, e, f, g, up)) ↦
      let normal : IsNormal r = record {
        names_only = subst (All IsName) (sym g) n.names_only;
        root = λ k. absurd (cc (sym k ∙ f));
      } in
      let no_up = (stays-print_path r normal f).0 (sym (ap kept e) ∙ h) in absurd (omega arith)
  | inr (inr (e, f, g)) ↦
      let rest = strip_common-nil b.names t.names ((common-stays b t n).0 (sym (ap kept e) ∙ h)) in
      ((strip_common b.names t.names).1, CleanPath-path t _ (sym f) (sym g) rest)
]

rel_path-extend :
    (b : CleanPath) (names : List String)
    → rel_path b (extend b names) ≡ some (below (strip_common b.names (b.names ++ names)))
unfolding rel_path
rel_path-extend b names = ground arith

extend-kept :
    (b : CleanPath) (names : List String)
    → IsNormal (extend b names)
    → kept (rel_path b (extend b names)) ≡ true
extend-kept b names n =
    ap kept (rel_path-extend b names)
    ∙ (common-stays b (extend b names) n).1
        (ap (λ (p : List String × List String). length p.0) (strip_common-append b.names names))

stays_some-print_some : (o : Option CleanPath) → stays_some (print_some o) ≡ kept o
stays_some-print_some none = refl
stays_some-print_some (some r) = refl

is_dst_relative-kept :
    (base dst : String)
    → is_dst_relative base dst ≡ kept (rel_path (clean_path base) (clean_path dst))
unfolding is_dst_relative rel
is_dst_relative-kept base dst = stays_some-print_some (rel_path (clean_path base) (clean_path dst))

-- The guard of `untarAll` is true of exactly the paths inside the destination.
pub is_dst_relative-Inside :
    (base dst : String) → (is_dst_relative base dst ≡ true) ↔ Inside base dst
is_dst_relative-Inside base dst =
    let normal = clean_path-IsNormal dst in
    let eq = is_dst_relative-kept base dst in
    (
      λ h. kept-extend (clean_path base) (clean_path dst) normal (sym eq ∙ h),
      λ (names, e).
          eq
          ∙ ap (λ c. kept (rel_path (clean_path base) c)) e
          ∙ extend-kept (clean_path base) names (subst IsNormal e normal),
    )
