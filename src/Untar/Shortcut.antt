-- ===== src/Untar/Shortcut.antt =====
-- `trimShortcutPath` of copy.go on cleaned paths.
use kubejob.Prelude.{
  ℕ, zero, suc, ◌≡◌, refl, ap, ◌∙◌, String, ◌<>◌, Bool, true, false, ◌&&◌, ◌||◌, List, [], ◌∷◌,
  ◌++◌, All, replicate, join, is_empty, if◌then◌else◌, arith,
}
use Prim.Native.Char.{Char}
use text.Mathlib.TextLemmas.{nil-append, cons-append}
use kubejob.Paths.{CleanPath, is_slash, is_period, is_dot, is_dotdot, clean, print_path, or_dot}
use kubejob.Paths.Normal.{IsNormal, IsName, clean_path-print_path}
use kubejob.Untar.{strip_back, drop_slash, trim_shortcut_path}

-- Whether a text begins with `../`.
abbrev pub begins_back : String → Bool
begins_back (String.◌∷◌ c (String.◌∷◌ d (String.◌∷◌ e s))) =
    is_period c && (is_period d && is_slash e)
begins_back _ = false

strip_back_lem : (s : String) → begins_back s ≡ false → strip_back s ≡ s
unfolding strip_back
strip_back_lem String.[] h = refl
strip_back_lem (String.◌∷◌ c String.[]) h = refl
strip_back_lem (String.◌∷◌ c (String.◌∷◌ d String.[])) h = refl
strip_back_lem (String.◌∷◌ c (String.◌∷◌ d (String.◌∷◌ e s))) h = rw h refl

-- A path that begins with a name is no `.` and no `..`, and begins with no slash and no `../`.
abbrev pub IsDown : String → Type 0
IsDown s =
    (is_empty s ≡ false)
    × (is_dot s ≡ false)
    × (is_dotdot s ≡ false)
    × (begins_back s ≡ false)
    × (drop_slash s ≡ s)

name-IsDown : (p : String) → IsName p → IsDown p
name-IsDown String.[] h = cc (h.0)
name-IsDown (String.◌∷◌ c String.[]) h = (refl, h.1, refl, refl, ground (arith, h.3))
name-IsDown (String.◌∷◌ c (String.◌∷◌ d String.[])) h = (refl, refl, h.2, refl, ground (arith, h.3))
name-IsDown (String.◌∷◌ c (String.◌∷◌ d (String.◌∷◌ e s))) h =
    (refl, refl, refl, ground (arith, h.3), ground (arith, h.3))

-- A text whose second character is a slash.
second-IsDown :
    (c d : Char) (s : String)
    → is_slash c ≡ false
    → is_period d ≡ false
    → IsDown (String.◌∷◌ c (String.◌∷◌ d s))
second-IsDown c d String.[] h k = (refl, refl, ground arith, refl, ground arith)
second-IsDown c d (String.◌∷◌ e s) h k = (refl, refl, refl, ground arith, ground arith)

names-IsDown : (p s : String) → IsName p → IsDown (p <> ("/" <> s))
names-IsDown String.[] s h = cc (h.0)
names-IsDown (String.◌∷◌ c String.[]) s h =
    rw (cons-append c "" ("/" <> s), nil-append ("/" <> s), cons-append _ "" s, nil-append s)
      (second-IsDown c _ s (ground (arith, h.3)) refl)
names-IsDown (String.◌∷◌ c (String.◌∷◌ d String.[])) s h =
    rw
      (
        cons-append c (String.◌∷◌ d "") ("/" <> s),
        cons-append d "" ("/" <> s),
        nil-append ("/" <> s),
        cons-append _ "" s,
        nil-append s,
      )
      (refl, refl, refl, ground (arith, h.2), ground (arith, h.3))
names-IsDown (String.◌∷◌ c (String.◌∷◌ d (String.◌∷◌ e t))) s h =
    rw
      (
        cons-append c (String.◌∷◌ d (String.◌∷◌ e t)) ("/" <> s),
        cons-append d (String.◌∷◌ e t) ("/" <> s),
        cons-append e t ("/" <> s),
      )
      (refl, refl, refl, ground (arith, h.3), ground (arith, h.3))

pub join-IsDown : (p : String) (ps : List String) → All IsName (p ∷ ps) → IsDown (join (p ∷ ps) "/")
unfolding join
join-IsDown p [] h = name-IsDown p h.0
join-IsDown p (q ∷ ps) h = names-IsDown p (join (q ∷ ps) "/") h.0

-- `../` and what comes then.
pub begins_back-back : (s : String) → begins_back (".." <> ("/" <> s)) ≡ true
begins_back-back s =
    rw
      (
        cons-append _ "." ("/" <> s),
        cons-append _ "" ("/" <> s),
        nil-append ("/" <> s),
        cons-append _ "" s,
      )
      refl

strip_back-back : (s : String) → strip_back (".." <> ("/" <> s)) ≡ strip_back s
unfolding strip_back
strip_back-back s =
    rw
      (
        cons-append _ "." ("/" <> s),
        cons-append _ "" ("/" <> s),
        nil-append ("/" <> s),
        cons-append _ "" s,
        nil-append s,
      )
      refl

-- What is left of a path after its steps up.
abbrev pub downward : List String → String
downward [] = ""
downward (p ∷ ps) = join (p ∷ ps) "/"

-- What `trimShortcutPath` does after its loop.
abbrev trimmed : String → String
trimmed s = drop_slash (if is_dot s || is_dotdot s then "" else s)

trimmed-IsDown : (s : String) → IsDown s → trimmed (strip_back s) ≡ s
trimmed-IsDown s (e, f, g, h, k) = rw (strip_back_lem s h, f, g) k

strip_ups :
    (n : ℕ) (names : List String)
    → All IsName names
    → trimmed (strip_back (or_dot (replicate n ".." ++ names))) ≡ downward names
unfolding strip_back join
strip_ups zero [] h = refl
strip_ups zero (p ∷ ps) h = trimmed-IsDown (join (p ∷ ps) "/") (join-IsDown p ps h)
strip_ups (suc zero) [] h = refl
strip_ups (suc zero) (p ∷ ps) h =
    ap trimmed (strip_back-back (join (p ∷ ps) "/")) ∙ strip_ups zero (p ∷ ps) h
strip_ups (suc (suc n)) names h =
    ap trimmed (strip_back-back (or_dot (replicate (suc n) ".." ++ names)))
    ∙ strip_ups (suc n) names h

-- Of a path that is not rooted, `trimShortcutPath` leaves the names, whatever ups come before them.
pub trim_shortcut_path-print_path :
    (c : CleanPath)
    → IsNormal c
    → c.rooted ≡ false
    → trim_shortcut_path (print_path c) ≡ downward c.names
unfolding trim_shortcut_path clean print_path
trim_shortcut_path-print_path c n r =
    ap (λ (p : CleanPath). trimmed (strip_back (print_path p))) (clean_path-print_path c n)
    ∙ rw r (strip_ups c.ups c.names n.names_only)
