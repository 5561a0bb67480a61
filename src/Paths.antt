-- ===== src/Paths.antt =====
-- The functions of Go's `path` and `path/filepath` that copy.go, agent.go and the clients of the agent
-- use, on slash-separated texts.
pub mod Normal
pub mod Parent
pub mod Below
pub mod Last
use kubejob.Prelude.{
  ◌≡◌, ℕ, zero, suc, ◌+◌, ◌-◌, refl, String, ◌<>◌, Bool, true, false, not, ◌&&◌, ◌||◌, Option, none,
  some, List, [], ◌∷◌, ◌++◌, length, replicate, str_eq, join, is_empty, ltb, ◌==◌, if◌then◌else◌,
}
use Prim.Native.Char.{Char, code}
use Prim.Native.String

abbrev pub is_slash : Char → Bool
is_slash c = code c == 47

abbrev pub is_period : Char → Bool
is_period c = code c == 46

abbrev push_front : Char → List String → List String
push_front c [] = String.◌∷◌ c "" ∷ []
push_front c (p ∷ ps) = String.◌∷◌ c p ∷ ps

-- strings.Split(s, "/")
unfoldable pub split_slash : String → List String
split_slash String.[] = "" ∷ []
split_slash (String.◌∷◌ c s) =
    let rest = split_slash s in if is_slash c then "" ∷ rest else push_front c rest

-- `p == "."` and `p == ".."`
abbrev pub is_dot : String → Bool
is_dot (String.◌∷◌ c String.[]) = is_period c
is_dot _ = false

abbrev pub is_dotdot : String → Bool
is_dotdot (String.◌∷◌ c (String.◌∷◌ d String.[])) = is_period c && is_period d
is_dotdot _ = false

-- A cleaned path: whether it begins with a slash, how many times it goes up, and the names that it
-- then goes down.
pub record CleanPath : Type 0 where
  pub rooted : Bool
  pub ups : ℕ
  pub names : List String

abbrev pub init {ℓ} : {A : Type ℓ} → List A → List A
init [] = []
init (x ∷ []) = []
init (x ∷ y ∷ xs) = x ∷ init (y ∷ xs)

-- An element `..`: it takes away a name, or stays in front, or is nothing at the root.
abbrev pub go_up : CleanPath → List String → CleanPath
go_up c [] = if c.rooted then c else record c { ups = suc c.ups }
go_up c (name ∷ names) = record c { names = init (name ∷ names) }

abbrev pub resolve : CleanPath → String → CleanPath
resolve c part =
    if is_empty part || is_dot part
    then c
    else if is_dotdot part
    then go_up c c.names
    else record c { names = c.names ++ part ∷ [] }

unfoldable pub walk : CleanPath → List String → CleanPath
walk c [] = c
walk c (part ∷ parts) = walk (resolve c part) parts

abbrev pub is_rooted : String → Bool
is_rooted String.[] = false
is_rooted (String.◌∷◌ c s) = is_slash c

abbrev pub start : Bool → CleanPath
start rooted = record { rooted = rooted; ups = 0; names = [] }

unfoldable pub clean_path : String → CleanPath
unfolding walk split_slash
clean_path s = walk (start (is_rooted s)) (split_slash s)

abbrev pub or_dot : List String → String
or_dot [] = "."
or_dot (part ∷ parts) = join (part ∷ parts) "/"

unfoldable pub print_path : CleanPath → String
print_path c =
    let parts = replicate c.ups ".." ++ c.names in
    if c.rooted then "/" <> join parts "/" else or_dot parts

-- path.Clean
unfoldable pub clean : String → String
unfolding clean_path print_path
clean s = print_path (clean_path s)

abbrev pub non_empty : List String → List String
non_empty [] = []
non_empty (s ∷ ss) = let rest = non_empty ss in if is_empty s then rest else s ∷ rest

-- path.Join of two elements: empty ones are left out, and two empty ones give an empty text.
abbrev pub joined : List String → String
joined [] = ""
joined (s ∷ ss) = clean (join (s ∷ ss) "/")

unfoldable pub path_join : String → String → String
path_join a b = joined (non_empty (a ∷ b ∷ []))

-- path.Dir: what stands before the last slash, cleaned.
unfoldable pub dir : String → String
unfolding print_path walk split_slash
dir s = print_path (walk (start (is_rooted s)) (init (split_slash s)))

abbrev pub last_or : String → List String → String
last_or s [] = s
last_or s (p ∷ ps) = last_or p ps

abbrev pub trim_empty : List String → List String
trim_empty [] = []
trim_empty (p ∷ ps) = elim (trim_empty ps) [
  | [] ↦ if is_empty p then [] else p ∷ []
  | q ∷ qs ↦ p ∷ q ∷ qs
]

abbrev pub last_trimmed : List String → String
last_trimmed [] = "/"
last_trimmed (p ∷ ps) = last_or p ps

-- path.Base: the last element, with no slashes at the end; of slashes only, a slash.
unfoldable pub base : String → String
unfolding split_slash
base s = if is_empty s then "." else last_trimmed (trim_empty (split_slash s))

-- What is left of two lists of names after the names that they begin with in common.
abbrev pub strip_common : List String → List String → List String × List String
strip_common [] ts = ([], ts)
strip_common (b ∷ bs) [] = (b ∷ bs, [])
strip_common (b ∷ bs) (t ∷ ts) =
    let rest = strip_common bs ts in if str_eq b t then rest else (b ∷ bs, t ∷ ts)

abbrev pub below : List String × List String → CleanPath
below (bs, ts) = record { rooted = false; ups = length bs; names = ts }

-- filepath.Rel, with the result not yet printed; `none` is its error, which it also returns where
-- the base goes up further than the target.
unfoldable pub rel_path : CleanPath → CleanPath → Option CleanPath
rel_path b t =
    if (b.rooted && not t.rooted) || (not b.rooted && t.rooted)
    then none
    else if ltb t.ups b.ups
    then none
    else if ltb b.ups t.ups
    then some (record { rooted = false; ups = length b.names + (t.ups - b.ups); names = t.names })
    else some (below (strip_common b.names t.names))

abbrev pub print_some : Option CleanPath → Option String
print_some none = none
print_some (some r) = some (print_path r)

-- filepath.Rel, printed as path.Clean prints it.
unfoldable pub rel : String → String → Option String
unfolding rel_path clean_path print_path
rel basepath targpath = print_some (rel_path (clean_path basepath) (clean_path targpath))

clean_dots : clean "/a//b/./../c/" ≡ "/a/c"
unfolding clean join
clean_dots = refl

clean_up : clean "a/../../b" ≡ "../b"
unfolding clean join
clean_up = refl

rel_down : rel "/a/b" "/a/b/c/d" ≡ some "c/d"
unfolding rel join
rel_down = refl

rel_over : rel "a/b" "a/c" ≡ some "../c"
unfolding rel join
rel_over = refl

base_slash : base "/a/b/" ≡ "b"
unfolding base
base_slash = refl

dir_slash : dir "/a/b" ≡ "/a"
unfolding dir join
dir_slash = refl
