-- ===== src/Execution/Waiting.antt =====
-- What `RunWithExecutionHandler` of executor.go does to the containers of the job.
use kubejob.Prelude.{
  subst, Bool-cases, eq_refl, ℕ, suc, ◌≡◌, refl, sym, ap, ◌∙◌, true, Option, none, some, inl, inr,
  List, [], ◌∷◌, arith,
}
use kubejob.Kube.{Container}
use kubejob.Errors.{Result, Err, ok, err, Result-cases}
use kubejob.Agent.{AgentConfig, enabled, installed_path, new_allocated_port}
use kubejob.Template.{uses_agent, job_command_template, path_of}
use kubejob.Init.{is_replaced_command}
use kubejob.Init.Prepared.{Waits, Prepared, Prepared-paths, paths}
use kubejob.Init.Setup.{new_executor}
use kubejob.Execution.{with_agent, waiting_container, setup_containers}

agent-Waits :
    (a : AgentConfig) (c d : Container) (port : ℕ) (r : Result ℕ × AgentConfig)
    → r.1.installed_paths ≡ a.installed_paths
    → enabled a c.name ≡ true
    → (with_agent a c r).0 ≡ ok (d, port)
    → (d.name ≡ c.name) × (is_replaced_command (some a) d ≡ true) × Waits (some a) port d
unfolding is_replaced_command kubejob.Template.replace_command_by_agent_command installed_path
    kubejob.Template.uses_agent
agent-Waits a c d port (err e, a') same on h = absurd (cc h)
agent-Waits a c d port (ok p, a') same on h =
    let name : d.name ≡ c.name = ground arith in
    (
      name,
      ground (arith, eq_refl (path_of (some a) c.name)),
      inr (ap (enabled a) name ∙ on, ground arith, ground arith),
    )

paths-new_allocated_port :
    (a : AgentConfig) → (new_allocated_port a).1.installed_paths ≡ a.installed_paths
unfolding new_allocated_port
paths-new_allocated_port a = ground arith

-- One container: it keeps its name, and the configuration recognises that it waits.
waits :
    (cfg : Option AgentConfig) (c d : Container) (port : ℕ)
    → (waiting_container cfg c).0 ≡ ok (d, port)
    → (d.name ≡ c.name) × (is_replaced_command cfg d ≡ true) × Waits cfg port d
unfolding waiting_container is_replaced_command kubejob.Template.replace_command_by_job_template
    kubejob.Template.uses_agent
waits none c d port h = (
  ground arith,
  ground (arith, eq_refl job_command_template),
  inl (refl, ground arith, ground arith),
)
waits (some a) c d port h = elim (Bool-cases (enabled a c.name)) [
  | inl on ↦
      agent-Waits a c d port (new_allocated_port a) (paths-new_allocated_port a) on (ground arith)
  | inr off ↦
      let name : d.name ≡ c.name = ground arith in
      (
        name,
        ground (arith, eq_refl job_command_template),
        inl (ap (enabled a) name ∙ off, ground arith, ground arith),
      )
]

paths-waiting_container :
    (cfg : Option AgentConfig) (c : Container) → paths (waiting_container cfg c).1 ≡ paths cfg
unfolding waiting_container new_allocated_port
paths-waiting_container none c = refl
paths-waiting_container (some a) c = ground arith

setup_step :
    (idx : ℕ) (c d : Container) (port : ℕ) (cs : List Container) (cfg : Option AgentConfig)
    → (waiting_container cfg c).0 ≡ ok (d, port)
    → setup_containers idx (c ∷ cs) cfg ≡ (
        let cfg' = (waiting_container cfg c).1 in
        let (e, ds, es, cfg'') = setup_containers (suc idx) cs cfg' in
        (e, d ∷ ds, new_executor c idx cfg' port ∷ es, cfg''))
unfolding setup_containers
setup_step idx c d port cs cfg e = rw (e, setup_containers)

setup_fails :
    (idx : ℕ) (c : Container) (x : Err) (cs : List Container) (cfg : Option AgentConfig)
    → (waiting_container cfg c).0 ≡ err x
    → (setup_containers idx (c ∷ cs) cfg).0 ≡ some x
unfolding setup_containers
setup_fails idx c x cs cfg e = rw (e, setup_containers)

-- Where no port is missing, the job has for each container one of the same name that waits, in a shell
-- for the file of the status or, where the agent is enabled for it, as the agent at the port of its
-- executor, and an executor for it with the command that the container had, in the same order.
pub setup_containers-Prepared :
    (idx : ℕ) (cs : List Container) (cfg : Option AgentConfig)
    → (setup_containers idx cs cfg).0 ≡ none
    → Prepared cfg idx cs (setup_containers idx cs cfg).2 (setup_containers idx cs cfg).1
unfolding setup_containers new_executor
setup_containers-Prepared idx [] cfg h = tt
setup_containers-Prepared idx (c ∷ cs) cfg h = elim (Result-cases (waiting_container cfg c).0) [
  | inr (x, e) ↦ cc (setup_fails idx c x cs cfg e)
  | inl ((d, port), e) ↦
      let cfg' = (waiting_container cfg c).1 in
      let step = setup_step idx c d port cs cfg e in
      let rest = setup_containers-Prepared (suc idx) cs cfg' (sym (ap (λ r. r.0) step) ∙ h) in
      let (name, waiting, how) = waits cfg c d port e in
      subst (λ r. Prepared cfg idx (c ∷ cs) r.2 r.1) (sym step)
        (
          refl,
          refl,
          refl,
          refl,
          name,
          waiting,
          how,
          Prepared-paths cfg' cfg (suc idx) cs _ _ (paths-waiting_container cfg c) rest,
        )
]
