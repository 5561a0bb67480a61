-- ===== src/Tests/Agent.antt =====
-- Agent.Ports at concrete configurations.
use kubejob.Prelude.{◌≡◌, refl, [], ◌∷◌, arith}
use kubejob.Agent.{AgentConfig, new_allocated_port, max_port_num}
use kubejob.Errors.{ok}
use kubejob.Agent.Ports.{IsLeastFree, last_after, new_allocated_port-IsLeastFree}
use kubejob.Tests.Data.{agent_config}

abbrev used : AgentConfig
used = record agent_config { last_allocated_port = 5000 }

skips_excluded : (new_allocated_port used).0 ≡ ok 5003
unfolding new_allocated_port
skips_excluded = refl

new_allocated_port-IsLeastFree_example :
    IsLeastFree used.exclude_ports 5001 max_port_num (new_allocated_port used).0
    × ((new_allocated_port used).1
        ≡ record used { last_allocated_port = last_after used (new_allocated_port used).0 })
new_allocated_port-IsLeastFree_example =
    new_allocated_port-IsLeastFree used (omega arith) (omega arith)

abbrev excluding_start : AgentConfig
excluding_start = record agent_config { exclude_ports = 5000 ∷ [] }
