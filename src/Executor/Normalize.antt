-- ===== src/Executor/Normalize.antt =====
-- executor.go, `normalizeCmd`: the text that is handed to `sh -c`.
use kubejob.Prelude.{
  ℕ, suc, String, ◌<>◌, ◌≡◌, refl, List, [], ◌∷◌, ◌++◌, join, trim, contains_space, sprint,
  if◌then◌else◌,
}

-- The variables and the words that the loop has collected.
pub record Collected : Type 0 where
  pub vars : List String
  pub normalized_cmd : List String

abbrev pub var_binding : ℕ → String → String
var_binding idx c = "VAR" <> (sprint idx <> ("=$(cat <<-'EOS'\n" <> (c <> "\nEOS\n)")))

abbrev pub var_word : ℕ → String
var_word idx = "\"$VAR" <> (sprint idx <> "\"")

-- One round of the loop, on the trimmed word.
collect : ℕ → String → Collected → Collected
collect idx c acc =
    if contains_space c
    then record {
      vars = acc.vars ++ var_binding idx c ∷ [];
      normalized_cmd = acc.normalized_cmd ++ var_word idx ∷ [];
    }
    else record acc { normalized_cmd = acc.normalized_cmd ++ c ∷ [] }

pub collect_all : ℕ → List String → Collected → Collected
unfolding collect
collect_all idx [] acc = acc
collect_all idx (c ∷ cmd) acc = collect_all (suc idx) cmd (collect idx (trim c) acc)

abbrev pub render : List String → List String → String
render [] words = join words " "
render (v ∷ vars) words = join (v ∷ vars) ";" <> ("; " <> join words " ")

unfoldable pub normalize_cmd : List String → String
unfolding collect_all
normalize_cmd cmd =
    let acc = collect_all 0 cmd (record { vars = []; normalized_cmd = [] }) in
    render acc.vars acc.normalized_cmd

simple_command : normalize_cmd ("echo" ∷ " 0 " ∷ ">" ∷ "/tmp/f" ∷ []) ≡ "echo 0 > /tmp/f"
unfolding normalize_cmd trim join contains_space
simple_command = refl

quoted_command :
    normalize_cmd ("sh" ∷ "-c" ∷ "x; y" ∷ []) ≡ "VAR2=$(cat <<-'EOS'\nx; y\nEOS\n); sh -c \"$VAR2\""
unfolding normalize_cmd trim join contains_space sprint
quoted_command = refl
