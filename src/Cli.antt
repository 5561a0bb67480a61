-- ===== src/Cli.antt =====
-- cmd/kubejob/main.go and cmd/kubejob-agent/main.go: the commands, from their options to the exit code.
pub mod Exits
use kubejob.Prelude.{
  ℕ, String, ◌<>◌, Bool, true, false, not, ◌&&◌, Option, none, some, List, [], ◌∷◌, is_empty,
  str_eq, if◌then◌else◌,
}
use kubejob.Kube.{BatchJob}
use kubejob.Errors.{Err, Result, ok, err, plain, wrapped}
use kubejob.Cluster.{Cluster}
use kubejob.Paths.{joined, non_empty}
use kubejob.Watch.{Task, Verdict, next, returns, panics}
use kubejob.Job.{Job, run}
use kubejob.Builder.{new_job_builder, set_image, set_command, build, build_with_reader}

-- `option` of cmd/kubejob
pub record CliOptions : Type 0 where
  pub namespace : String
  pub file : String
  pub image : String

-- What the command finds: the variables and files, clientcmd.BuildConfigFromFlags and its error, the
-- contexts of a configuration with their namespaces and the current one, os.Open with what the decoder
-- makes of the file, the error of kubernetes.NewForConfig, and what `labelID` gives.
pub record Surroundings : Type 0 where
  pub getenv : String → String
  pub home_dir : String
  pub exists : String → Bool
  pub build_config : String → Option Err
  pub load_rules : String → Result (List (String × String) × String)
  pub open_job : String → Result (Result BatchJob)
  pub clientset : Option Err
  pub label_id : String

-- How a process ends; a panic has a code of its own.
pub data Exit : Type 0 where
  exited : ℕ → Exit
  crashed : Exit

-- `getKubeConfig`
unfoldable pub get_kube_config : Surroundings → String
get_kube_config s =
    let v = s.getenv "KUBECONFIG" in
    let config = joined (non_empty (s.home_dir ∷ ".kube" ∷ "config" ∷ [])) in
    if not (is_empty v) then v else if s.exists config then config else ""

-- `loadConfig`: its error
unfoldable pub load_config : Surroundings → Option Err
unfolding get_kube_config
load_config s = elim (s.build_config (get_kube_config s)) [
  | none ↦ none
  | some e ↦ some (wrapped "failed to create config" e)
]

abbrev pub lookup : List (String × String) → String → Option String
lookup [] key = none
lookup ((k, v) ∷ rest) key = if str_eq k key then some v else lookup rest key

-- `namespace`; `none` is the panic on the context that is missing.
abbrev current_namespace : Result (List (String × String) × String) → Option (Result String)
current_namespace (err e) = some (err (wrapped "failed to load default namespace" e))
current_namespace (ok (contexts, current)) = elim (lookup contexts current) [
  | none ↦ none
  | some namespace ↦ some (ok namespace)
]

unfoldable pub namespace_of : Surroundings → CliOptions → Option (Result String)
unfolding get_kube_config
namespace_of s opt =
    if not (is_empty opt.namespace)
    then some (ok opt.namespace)
    else current_namespace (s.load_rules (get_kube_config s))

module _ {W : Type 0} where
  -- The job that the options ask for.
  abbrev built_from : Surroundings → String → Result (Result BatchJob) → Result (Job W)
  built_from s file (err e) = err (wrapped ("failed to open file " <> file) e)
  built_from s file (ok decoded) = build_with_reader decoded s.clientset s.label_id

  abbrev built_of : Surroundings → String → List String → Result (Job W)
  built_of s image [] = err (plain "command is required. please speficy after '--' section")
  built_of s image (arg ∷ args) =
      build (set_command (set_image new_job_builder image) (arg ∷ args)) s.clientset s.label_id

  unfoldable pub requested : Surroundings → List String → CliOptions → Result (Job W)
  unfolding build build_with_reader
  requested s args opt =
      if not (is_empty opt.file)
      then built_from s opt.file (s.open_job opt.file)
      else built_of s opt.image args

module _ {W : Type 0} (k : Cluster W) (join : Option Err → List Task → W → Option Err × W) where
  -- `cancelled` and `interrupted` are those of `Run`: whether a signal cancels the context first.
  module _ (cancelled : Bool) (interrupted : W → W) where
    abbrev pub run_requested : Result (Job W) → W → Verdict × W
    run_requested (err e) w = (returns (some e), w)
    run_requested (ok job) w = run k join cancelled interrupted job w

    abbrev pub in_namespace :
        Surroundings → List String → CliOptions → Option (Result String) → W → Verdict × W
    in_namespace s args opt none w = (panics, w)
    in_namespace s args opt (some (err e)) w =
        (returns (some (wrapped "failed to get namespace" e)), w)
    in_namespace s args opt (some (ok ns)) w = run_requested (requested s args opt) w

    abbrev pub configured : Surroundings → List String → CliOptions → Option Err → W → Verdict × W
    configured s args opt (some e) w = (returns (some (wrapped "failed to load config" e)), w)
    configured s args opt none w = in_namespace s args opt (namespace_of s opt) w

    -- `_main` of cmd/kubejob
    unfoldable pub main_with : Surroundings → List String → CliOptions → W → Verdict × W
    unfolding requested namespace_of load_config run
    main_with s args opt w =
        if is_empty opt.image && is_empty opt.file
        then (returns (some (plain "image or file option must be specified")), w)
        else configured s args opt (load_config s) w

    -- `report` prints an error.
    abbrev pub exit_of : (Err → W → W) → Verdict × W → Exit × W
    exit_of report (returns none, w) = (exited 0, w)
    exit_of report (returns (some e), w) = (exited 1, report e w)
    exit_of report (panics, w) = (crashed, w)
    exit_of report (next, w) = (crashed, w)

    -- `main` of cmd/kubejob, with what the parser makes of the arguments, which prints its own errors.
    unfoldable pub kubejob_main :
        (Err → W → W) → Surroundings → Result (List String × CliOptions) → W → Exit × W
    unfolding main_with
    kubejob_main report s (err e) w = (exited 0, w)
    kubejob_main report s (ok (args, opt)) w = exit_of report (main_with s args opt w)

-- The error of the agent's parser: help was asked for, another error of go-flags, or none of them.
pub data ParseError : Type 0 where
  help_wanted : ParseError
  flags_error : ParseError
  unknown_error : Err → ParseError

-- What `main` of cmd/kubejob-agent runs: the parser's result, and `Run` of the server on a port.
pub data Parsed : Type 0 where
  refused : ParseError → Parsed
  port_of : ℕ → Parsed

module _ {W : Type 0} (run_server : ℕ → W → Option Err × W) (report unknown : Err → W → W) where
  abbrev agent_exit : Option Err × W → Exit × W
  agent_exit (none, w) = (exited 0, w)
  agent_exit (some e, w) = (exited 1, report e w)

  -- `main` of cmd/kubejob-agent
  unfoldable pub agent_main : Parsed → W → Exit × W
  agent_main (refused help_wanted) w = (exited 0, w)
  agent_main (refused flags_error) w = (exited 1, w)
  agent_main (refused (unknown_error e)) w = (exited 1, unknown e w)
  agent_main (port_of port) w = agent_exit (run_server port w)
