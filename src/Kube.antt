-- ===== src/Kube.antt =====
-- The Kubernetes objects that the program reads and writes: of each API type, the fields that the
-- source mentions. A nil pointer is `none`; a map is an association list.
use kubejob.Prelude.{ℕ, String, Bool, Option, List, ◌==◌}

pub record EnvVar : Type 0 where
  pub name : String
  pub value : String

pub record Container : Type 0 where
  pub name : String
  pub image : String
  pub command : List String
  pub args : List String
  pub env : List EnvVar
  pub working_dir : String
  pub termination_message_path : String

-- `waiting` and `terminated` hold the reason; of `Running` only its presence is read.
pub record ContainerState : Type 0 where
  pub waiting : Option String
  pub running : Bool
  pub terminated : Option String

pub record ContainerStatus : Type 0 where
  pub name : String
  pub ready : Bool
  pub state : ContainerState

-- The phases of the API; `unset` is the empty string.
pub data PodPhase : Type 0 where
  unset pending running succeeded failed unknown : PodPhase

abbrev pub phase_code : PodPhase → ℕ
phase_code unset = 0
phase_code pending = 1
phase_code running = 2
phase_code succeeded = 3
phase_code failed = 4
phase_code unknown = 5

abbrev pub phase_eq : PodPhase → PodPhase → Bool
phase_eq p q = phase_code p == phase_code q

pub record PodStatus : Type 0 where
  pub phase : PodPhase
  pub pod_ip : String
  pub init_container_statuses : List ContainerStatus
  pub container_statuses : List ContainerStatus

pub record PodSpec : Type 0 where
  pub init_containers : List Container
  pub containers : List Container
  pub restart_policy : String

pub record Pod : Type 0 where
  pub name : String
  pub namespace : String
  pub labels : List (String × String)
  pub spec : PodSpec
  pub status : PodStatus

-- `batchv1.Job`; `labels` are those of the pod template.
pub record BatchJob : Type 0 where
  pub name : String
  pub generate_name : String
  pub labels : Option (List (String × String))
  pub spec : PodSpec
  pub backoff_limit : Option ℕ

-- `watch.Event.Object`: a pod, or an object of another type.
pub data EventObject : Type 0 where
  pod_object : Pod → EventObject
  other_object : EventObject
