-- ===== src/Agent.antt =====
-- agent.go: the configuration of the agent, shared by a job and its executors, and the ports that
-- it hands out. Ports are uint16. The mutex only orders the calls; each call is one step here.
pub mod Ports
use kubejob.Prelude.{
  ℕ, zero, suc, ◌+◌, ◌-◌, ◌%◌, String, Bool, true, false, not, ◌&&◌, ◌||◌, Option, none, some, List,
  [], ◌∷◌, ◌==◌, str_eq, is_empty, if◌then◌else◌,
}
use kubejob.Kube.{EnvVar}
use kubejob.Errors.{Result, ok, err, plain, wrapped}

abbrev pub default_agent_allocation_start_port : ℕ
default_agent_allocation_start_port = 5000

abbrev pub max_port_num : ℕ
max_port_num = 9000

abbrev pub agent_public_key_pem_name : String
agent_public_key_pem_name = "AGENT_PUBLIC_KEY_PEM"

-- `private_key` names a key; the key itself belongs to crypto/rsa.
pub record AgentConfig : Type 0 where
  pub installed_paths : List (String × String)
  pub allocation_start_port : ℕ
  pub last_allocated_port : ℕ
  pub exclude_ports : List ℕ
  pub private_key : ℕ
  pub public_key_pem : String

-- A read of a Go map of texts.
unfoldable pub lookup : String → List (String × String) → Option String
lookup k [] = none
lookup k ((j, v) ∷ m) = if str_eq j k then some v else lookup k m

abbrev pub or_empty : Option String → String
or_empty none = ""
or_empty (some s) = s

-- rsa.GenerateKey and jwk.EncodePEM, as what they return.
unfoldable pub new_agent_config :
    List (String × String) → Result ℕ → Result String → Result AgentConfig
new_agent_config paths (err e) pem = err (wrapped "job: failed to generate rsa key" e)
new_agent_config paths (ok key) (err e) = err (wrapped "job: failed to encode public key" e)
new_agent_config paths (ok key) (ok pem) = ok (record {
  installed_paths = paths;
  allocation_start_port = default_agent_allocation_start_port;
  last_allocated_port = 0;
  exclude_ports = [];
  private_key = key;
  public_key_pem = pem;
})

abbrev names_path : Option String → Bool
names_path none = false
names_path (some path) = not (is_empty path)

unfoldable pub enabled : AgentConfig → String → Bool
enabled c container_name = names_path (lookup container_name c.installed_paths)

unfoldable pub installed_path : AgentConfig → String → String
installed_path c container_name = or_empty (lookup container_name c.installed_paths)

unfoldable pub public_key_env : AgentConfig → EnvVar
public_key_env c = record { name = agent_public_key_pem_name; value = c.public_key_pem }

unfoldable pub set_allocation_start_port : AgentConfig → ℕ → AgentConfig
set_allocation_start_port c port = record c { allocation_start_port = port }

-- A map of ports to the empty struct is a set.
abbrev pub excluded : List ℕ → ℕ → Bool
excluded [] i = false
excluded (p ∷ ps) i = p == i || excluded ps i

unfoldable pub set_exclude_ports : AgentConfig → List ℕ → AgentConfig
set_exclude_ports c [] = c
set_exclude_ports c (port ∷ ports) =
    set_exclude_ports (record c { exclude_ports = port ∷ c.exclude_ports }) ports

-- The loop of `lookupNewPort`, with the rounds that are left.
lookup_from : List ℕ → ℕ → ℕ → Result ℕ
lookup_from exclude_ports zero i = err (plain "failed to find new port number")
lookup_from exclude_ports (suc rounds) i =
    let next = lookup_from exclude_ports rounds (suc i) in
    if excluded exclude_ports i then next else ok i

-- `for i := base; i < maxPortNum; i++`
lookup_new_port : AgentConfig → ℕ → Result ℕ
lookup_new_port c base = lookup_from c.exclude_ports (max_port_num - base) base

abbrev allocated : AgentConfig → Result ℕ → Result ℕ × AgentConfig
allocated c (err e) = (err e, c)
allocated c (ok new_port) = (ok new_port, record c { last_allocated_port = new_port })

unfoldable pub new_allocated_port : AgentConfig → Result ℕ × AgentConfig
unfolding lookup_new_port lookup_from
new_allocated_port c =
    if c.last_allocated_port == 0
    then (ok c.allocation_start_port, record c { last_allocated_port = c.allocation_start_port })
    else allocated c (lookup_new_port c ((c.last_allocated_port + 1) % 65536))
