-- ===== src/Errors/Failed.antt =====
-- `FailedJob` of error.go: which containers of its pod failed.
use kubejob.Prelude.{
  ◌⊎◌, ◌||◌, String, ◌≡◌, Bool, false, ◌&&◌, Option, none, some, List, [], ◌∷◌, ◌++◌, map, str_eq,
  if◌then◌else◌,
}
use kubejob.Kube.{Pod, Container, ContainerStatus}

-- `terminated != nil && terminated.Reason == "Error"`
abbrev pub ended_in_error : ContainerStatus → Bool
ended_in_error status = elim status.state.terminated [
  | none ↦ false
  | some reason ↦ str_eq reason "Error"
]

unfoldable pub error_container_names_from_statuses : List ContainerStatus → List String
error_container_names_from_statuses [] = []
error_container_names_from_statuses (s ∷ ss) =
    let rest = error_container_names_from_statuses ss in
    if ended_in_error s then s.name ∷ rest else rest

unfoldable pub failed_container_names : Pod → List String
failed_container_names pod =
    error_container_names_from_statuses pod.status.init_container_statuses
    ++ error_container_names_from_statuses pod.status.container_statuses

-- The zero value, which Go's map gives for a missing key.
abbrev zero_container : Container
zero_container = record {
  name = "";
  image = "";
  command = [];
  args = [];
  env = [];
  working_dir = "";
  termination_message_path = "";
}

-- `nameToContainerMap`: of two containers with one name, the later one is kept.
abbrev pub find_container : List Container → String → Option Container
find_container [] name = none
find_container (c ∷ cs) name = elim (find_container cs name) [
  | some d ↦ some d
  | none ↦ if str_eq c.name name then some c else none
]

abbrev pub containers_of : Pod → List Container
containers_of pod = pod.spec.init_containers ++ pod.spec.containers

abbrev or_zero_container : Option Container → Container
or_zero_container none = zero_container
or_zero_container (some c) = c

-- The second loop, over the names.
abbrev containers_named : Pod → List String → List Container
containers_named pod = map (λ name. or_zero_container (find_container (containers_of pod) name))

unfoldable pub failed_containers : Pod → List Container
failed_containers pod = containers_named pod (failed_container_names pod)

-- Whether a container of the list has the name.
abbrev pub has_name : List Container → String → Bool
has_name [] name = false
has_name (c ∷ cs) name = str_eq c.name name || has_name cs name

-- Whether the container is one of the list.
abbrev pub IsIn : Container → List Container → Type 0
IsIn c [] = ⊥
IsIn c (d ∷ ds) = (d ≡ c) ⊎ IsIn c ds

-- A container of the list that has the name, or an empty one if none has it.
abbrev pub Stands : List Container → String → Container → Type 0
Stands cs name c =
    (IsIn c cs × (c.name ≡ name))
    ⊎ ((has_name cs name ≡ false) × (c.name ≡ "") × (c.command ≡ []) × (c.args ≡ []))

-- Name by name and container by container.
abbrev pub AllStand : List Container → List String → List Container → Type 0
AllStand cs [] [] = Unit
AllStand cs (name ∷ names) (d ∷ ds) = Stands cs name d × AllStand cs names ds
AllStand cs _ _ = ⊥

-- Whether a status of that name says that its container ended in an error.
abbrev pub failing : List ContainerStatus → String → Bool
failing [] name = false
failing (s ∷ ss) name = (ended_in_error s && str_eq s.name name) || failing ss name
