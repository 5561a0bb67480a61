-- ===== src/Logs.antt =====
-- job.go: log levels, the log of a container and who receives it.
use kubejob.Prelude.{
  ℕ, String, ◌<>◌, Bool, true, false, not, Option, none, some, ◌++◌, join, ltb, is_empty,
  if◌then◌else◌,
}
use kubejob.Kube.{Pod, Container}
use kubejob.Cluster.{Cluster}

-- The constants stand for 0 to 4.
pub data LogLevel : Type 0 where
  level_none level_error level_warn level_info level_debug : LogLevel

abbrev pub level_number : LogLevel → ℕ
level_number level_none = 0
level_number level_error = 1
level_number level_warn = 2
level_number level_info = 3
level_number level_debug = 4

-- `String`; the switch has no case for `LogLevelError`.
unfoldable pub level_text : LogLevel → String
level_text level_none = "none"
level_text level_warn = "warn"
level_text level_info = "info"
level_text level_debug = "debug"
level_text level_error = ""

pub record ContainerLog : Type 0 where
  pub pod : Pod
  pub container : Container
  pub log : String
  pub is_finished : Bool

-- `ContainerLogger` and `Logger`: code of the user.
abbrev pub ContainerLogger : Type 0 → Type 0
ContainerLogger W = ContainerLog → W → W

abbrev pub Logger : Type 0 → Type 0
Logger W = String → W → W

-- The four switches of a job.
pub record LogSwitches : Type 0 where
  pub disabled_init_container_log : Bool
  pub disabled_init_command_log : Bool
  pub disabled_container_log : Bool
  pub disabled_command_log : Bool

abbrev pub disable_init_container_log : LogSwitches → LogSwitches
disable_init_container_log s = record s { disabled_init_container_log = true }

abbrev pub disable_init_command_log : LogSwitches → LogSwitches
disable_init_command_log s = record s { disabled_init_command_log = true }

abbrev pub disable_container_log : LogSwitches → LogSwitches
disable_container_log s = record s { disabled_container_log = true }

abbrev pub disable_command_log : LogSwitches → LogSwitches
disable_command_log s = record s { disabled_command_log = true }

-- The settings of a job that the functions on its messages and its streams take one by one.
pub record LogSettings (W : Type 0) : Type 0 where
  pub log_level : LogLevel
  pub logger : Option (Logger W)
  pub pending_timeout : Option ℕ

module _ {W : Type 0} where
  abbrev pub set_log_level : LogSettings W → LogLevel → LogSettings W
  set_log_level s level = record s { log_level = level }

  abbrev pub set_logger : LogSettings W → Logger W → LogSettings W
  set_logger s logger = record s { logger = some logger }

  -- in nanoseconds
  abbrev pub set_pending_phase_timeout : LogSettings W → ℕ → LogSettings W
  set_pending_phase_timeout s timeout = record s { pending_timeout = some timeout }

unfoldable pub enabled_init_command_log : LogSwitches → Bool
enabled_init_command_log s =
    if s.disabled_init_container_log
    then false
    else if s.disabled_init_command_log
    then false
    else true

unfoldable pub enabled_command_log : LogSwitches → Bool
enabled_command_log s =
    if s.disabled_container_log then false else if s.disabled_command_log then false else true

unfoldable pub command_log : Pod → Container → ContainerLog
command_log pod container = record {
  pod = pod;
  container = container;
  log = join (container.command ++ container.args) " " <> "\n";
  is_finished = false;
}

module _ {W : Type 0} (k : Cluster W) where
  -- `containerLog`
  unfoldable pub container_log : Option (ContainerLogger W) → ContainerLog → W → W
  container_log (some logger) log w = logger log w
  container_log none log w = if not log.is_finished then k.eprint log.log w else w

  -- `logf`, with the text that the format and its arguments give.
  logf : Option (Logger W) → String → String → W → W
  logf logger format text w =
      if is_empty format
      then w
      else elim logger [ some f ↦ f text w | none ↦ k.eprint (text <> "\n") w ]

  unfoldable pub log_warn : LogLevel → Option (Logger W) → String → String → W → W
  unfolding logf
  log_warn level logger format text w =
      if ltb (level_number level) (level_number level_warn)
      then w
      else logf logger ("[WARN] " <> format) ("[WARN] " <> text) w

  unfoldable pub log_debug : LogLevel → Option (Logger W) → String → String → W → W
  unfolding logf
  log_debug level logger format text w =
      if ltb (level_number level) (level_number level_debug)
      then w
      else logf logger ("[DEBUG] " <> format) ("[DEBUG] " <> text) w
