-- ===== src/Template.antt =====
-- util.go: the commands that keep a container waiting until its executor stops it.
use kubejob.Prelude.{ℕ, String, Bool, false, Option, none, some, [], ◌∷◌, sprint, if◌then◌else◌}
use kubejob.Kube.{Container}
use kubejob.Agent.{AgentConfig, enabled, installed_path}

abbrev pub job_command_template : String
job_command_template =
    "\nwhile [ ! -f /tmp/kubejob-status ]\ndo\n    sleep 1;\ndone\n\nexit $(cat /tmp/kubejob-status)\n"

unfoldable pub replace_command_by_agent_command : Container → String → ℕ → Container
replace_command_by_agent_command c path port = record c {
  command = path ∷ [];
  args = "--port" ∷ sprint port ∷ [];
}

unfoldable pub replace_command_by_job_template : Container → Container
replace_command_by_job_template c = record c {
  command = "sh" ∷ "-c" ∷ [];
  args = job_command_template ∷ [];
}

-- `agentCfg != nil && agentCfg.Enabled(name)`
unfoldable pub uses_agent : Option AgentConfig → String → Bool
uses_agent none name = false
uses_agent (some c) name = enabled c name

abbrev pub path_of : Option AgentConfig → String → String
path_of none name = ""
path_of (some c) name = installed_path c name

unfoldable pub job_template_command_container : Container → Option AgentConfig → ℕ → Container
unfolding replace_command_by_agent_command replace_command_by_job_template
job_template_command_container c agent_cfg agent_port =
    if uses_agent agent_cfg c.name
    then replace_command_by_agent_command c (path_of agent_cfg c.name) agent_port
    else replace_command_by_job_template c
