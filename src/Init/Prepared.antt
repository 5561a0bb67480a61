-- ===== src/Init/Prepared.antt =====
-- What `setupInitContainers` of executor.go leaves for the run.
use kubejob.Prelude.{
  sprint, ◌⊎◌, Bool-cases, ℕ, suc, String, ◌≡◌, refl, ap, sym, ◌∙◌, true, Option, none, some, inl,
  inr, List, [], ◌∷◌, ◌++◌, arith,
}
use mathlib.Core.List.{append_assoc, append-nil}
use kubejob.Kube.{Container}
use kubejob.Errors.{Err, ok, err, Result-cases}
use kubejob.Agent.{AgentConfig, enabled, installed_path, new_allocated_port}
use kubejob.Template.{uses_agent, job_template_command_container}
use kubejob.Executor.{JobExecutor}
use kubejob.Init.{Bool, path_of, false, JobInit, is_replaced_command}
use kubejob.Init.Setup.{assign_port, new_executor, setup_loop, setup_init_containers, add_container}
use kubejob.Init.Recognition.{template-is_replaced}

-- Until the file of the status is there, sleep; then exit with what it says.
abbrev waiting_script : String
waiting_script =
    "\nwhile [ ! -f /tmp/kubejob-status ]\ndo\n    sleep 1;\ndone\n\nexit $(cat /tmp/kubejob-status)\n"

-- Whether the configuration has the agent enabled for a container, and where it is installed then.
abbrev pub enabled_for : Option AgentConfig → String → Bool
enabled_for none name = false
enabled_for (some a) name = enabled a name

abbrev pub path_for : Option AgentConfig → String → String
path_for none name = ""
path_for (some a) name = installed_path a name

-- How a container waits: as the agent, listening at the port, if the agent is enabled for it, and else
-- in a shell that runs the waiting script.
abbrev pub Waits : Option AgentConfig → ℕ → Container → Type 0
Waits cfg port d =
    ((enabled_for cfg d.name ≡ false)
      × (d.command ≡ "sh" ∷ "-c" ∷ [])
      × (d.args ≡ waiting_script ∷ []))
    ⊎ ((enabled_for cfg d.name ≡ true)
        × (d.command ≡ path_for cfg d.name ∷ [])
        × (d.args ≡ "--port" ∷ sprint port ∷ []))

-- Executor by executor and container by container: the executor has the command of the container,
-- and the container that goes into the pod keeps the name and waits, at the port of the executor if
-- it waits as the agent, with a command that the configuration `cfg` recognises.
abbrev pub Prepared :
    Option AgentConfig → ℕ → List Container → List JobExecutor → List Container → Type 0
Prepared cfg idx [] [] [] = Unit
Prepared cfg idx (c ∷ cs) (e ∷ es) (d ∷ ds) =
    (e.command ≡ c.command)
    × (e.args ≡ c.args)
    × (e.target.container.name ≡ c.name)
    × (e.target.container_idx ≡ idx)
    × (d.name ≡ c.name)
    × (is_replaced_command cfg d ≡ true)
    × Waits cfg e.target.agent_port d
    × Prepared cfg (suc idx) cs es ds
Prepared cfg idx _ _ _ = ⊥

abbrev pub paths : Option AgentConfig → Option (List (String × String))
paths none = none
paths (some c) = some c.installed_paths

pub is_replaced-paths :
    (a b : Option AgentConfig) (d : Container)
    → paths a ≡ paths b
    → is_replaced_command a d ≡ is_replaced_command b d
unfolding is_replaced_command uses_agent enabled installed_path
is_replaced-paths none none d h = refl
is_replaced-paths none (some b) d h = cc
is_replaced-paths (some a) none d h = cc
is_replaced-paths (some a) (some b) d h = ground arith

enabled_for-paths :
    (a b : Option AgentConfig) (name : String)
    → paths a ≡ paths b
    → (enabled_for a name ≡ enabled_for b name) × (path_for a name ≡ path_for b name)
unfolding enabled installed_path
enabled_for-paths none none name h = (refl, refl)
enabled_for-paths none (some b) name h = cc
enabled_for-paths (some a) none name h = cc
enabled_for-paths (some a) (some b) name h = (ground arith, ground arith)

pub Waits-paths :
    (a b : Option AgentConfig) (port : ℕ) (d : Container)
    → paths a ≡ paths b
    → Waits a port d
    → Waits b port d
Waits-paths a b port d h w =
    let (uses, path) = enabled_for-paths a b d.name h in
    elim w [
      | inl (off, command, args) ↦ inl (sym uses ∙ off, command, args)
      | inr (on, command, args) ↦ inr (sym uses ∙ on, command ∙ ap (λ p. p ∷ []) path, args)
    ]

paths-assign_port :
    (cfg : Option AgentConfig) (c : Container) → paths (assign_port cfg c).1 ≡ paths cfg
unfolding assign_port new_allocated_port
paths-assign_port none c = refl
paths-assign_port (some a) c = ground arith

-- `assign_port` changes only the environment of a container.
assigned :
    (cfg : Option AgentConfig) (c c' : Container) (port : ℕ)
    → (assign_port cfg c).0 ≡ ok (c', port)
    → (c'.name ≡ c.name) × (c'.command ≡ c.command) × (c'.args ≡ c.args)
unfolding assign_port
assigned none c c' port h = ground arith
assigned (some a) c c' port h = ground arith

pub Prepared-paths :
    (a b : Option AgentConfig) (idx : ℕ) (cs : List Container) (es : List JobExecutor)
    (ds : List Container)
    → paths a ≡ paths b
    → Prepared a idx cs es ds
    → Prepared b idx cs es ds
Prepared-paths a b idx [] [] [] h p = tt
Prepared-paths a b idx (c ∷ cs) (e ∷ es) (d ∷ ds) h (p, q, r, s, t, u, x, v) = (
  p,
  q,
  r,
  s,
  t,
  sym (is_replaced-paths a b d h) ∙ u,
  Waits-paths a b e.target.agent_port d h x,
  Prepared-paths a b (suc idx) cs es ds h v,
)
Prepared-paths a b idx [] [] (d ∷ ds) h p = p
Prepared-paths a b idx [] (e ∷ es) ds h p = p
Prepared-paths a b idx (c ∷ cs) [] ds h p = p
Prepared-paths a b idx (c ∷ cs) (e ∷ es) [] h p = p

template-name :
    (c : Container) (cfg : Option AgentConfig) (port : ℕ)
    → (job_template_command_container c cfg port).name ≡ c.name
unfolding job_template_command_container
template-name c cfg port = ground arith

uses_agent-enabled_for :
    (cfg : Option AgentConfig) (name : String)
    → (uses_agent cfg name ≡ enabled_for cfg name) × (path_of cfg name ≡ path_for cfg name)
unfolding uses_agent
uses_agent-enabled_for none name = (refl, refl)
uses_agent-enabled_for (some a) name = (refl, refl)

template-Waits :
    (c : Container) (cfg : Option AgentConfig) (port : ℕ)
    → Waits cfg port (job_template_command_container c cfg port)
unfolding job_template_command_container kubejob.Template.replace_command_by_agent_command
    kubejob.Template.replace_command_by_job_template
template-Waits c cfg port =
    let (uses, path) = uses_agent-enabled_for cfg c.name in
    elim (Bool-cases (uses_agent cfg c.name)) [
      | inl on ↦ rw on (inr (sym uses ∙ on, ap (λ p. p ∷ []) path, refl))
      | inr off ↦ rw off (inl (sym uses ∙ off, refl, refl))
    ]

module _ {W : Type 0} where
  abbrev pub extended : JobInit W → List JobExecutor → List Container → JobInit W
  extended j es ds = record j { executors = j.executors ++ es; containers = j.containers ++ ds }

  setup_step :
      (idx : ℕ) (c c' : Container) (port : ℕ) (cs : List Container) (j : JobInit W)
      (cfg : Option AgentConfig)
      → (assign_port cfg c).0 ≡ ok (c', port)
      → setup_loop idx (c ∷ cs) j cfg
        ≡ setup_loop
            (suc idx)
            cs
            (add_container idx c' port (assign_port cfg c).1 j)
            (assign_port cfg c).1
  unfolding setup_loop
  setup_step idx c c' port cs j cfg e = rw (e, setup_loop)

  setup_fails :
      (idx : ℕ) (c : Container) (x : Err) (cs : List Container) (j : JobInit W)
      (cfg : Option AgentConfig)
      → (assign_port cfg c).0 ≡ err x
      → (setup_loop idx (c ∷ cs) j cfg).0 ≡ some x
  unfolding setup_loop
  setup_fails idx c x cs j cfg e = rw (e, setup_loop)

  extended_twice :
      (idx : ℕ) (c : Container) (port : ℕ) (cfg : Option AgentConfig) (j : JobInit W)
      (es : List JobExecutor) (ds : List Container)
      → extended (add_container idx c port cfg j) es ds
        ≡ extended j
            (new_executor c idx cfg port ∷ es)
            (job_template_command_container c cfg port ∷ ds)
  unfolding add_container
  extended_twice idx c port cfg j es ds = simp append_assoc

  setup_loop-Prepared :
      (idx : ℕ) (cs : List Container) (j : JobInit W) (cfg : Option AgentConfig)
      → (setup_loop idx cs j cfg).0 ≡ none
      → (es : List JobExecutor) × (ds : List Container) × ((setup_loop idx cs j cfg).1
          ≡ extended j es ds)
        × Prepared cfg idx cs es ds
  unfolding setup_loop new_executor
  setup_loop-Prepared idx [] j cfg h =
      ([], [], rw (append-nil j.executors, append-nil j.containers), tt)
  setup_loop-Prepared idx (c ∷ cs) j cfg h = elim (Result-cases (assign_port cfg c).0) [
    | inr (x, e) ↦ cc (setup_fails idx c x cs j cfg e)
    | inl ((c', port), e) ↦
        let cfg' : Option AgentConfig = (assign_port cfg c).1 in
        let j' : JobInit W = add_container idx c' port cfg' j in
        let step = setup_step idx c c' port cs j cfg e in
        let (es, ds, eq, rest) =
          setup_loop-Prepared (suc idx) cs j' cfg' (sym (ap (λ r. r.0) step) ∙ h) in
        let same = paths-assign_port cfg c in
        let (name, command, args) = assigned cfg c c' port e in
        (
          new_executor c' idx cfg' port ∷ es,
          job_template_command_container c' cfg' port ∷ ds,
          ap (λ r. r.1) step ∙ eq ∙ extended_twice idx c' port cfg' j es ds,
          (
            command,
            args,
            name,
            refl,
            template-name c' cfg' port ∙ name,
            sym (is_replaced-paths cfg' cfg _ same) ∙ template-is_replaced cfg' c' port,
            Waits-paths cfg' cfg port (job_template_command_container c' cfg' port) same
                (template-Waits c' cfg' port),
            Prepared-paths cfg' cfg (suc idx) cs es ds same rest,
          ),
        )
  ]

  -- A setup that succeeds adds one executor and one container to the hook for each init container of
  -- the job, in their order, and changes nothing else in it. The executor has the command of the
  -- init container; the container has its name and waits, in a shell for the file of the status or,
  -- where the agent is enabled for it, as the agent at the port of the executor.
  pub setup-Prepared :
      (cs : List Container) (j : JobInit W) (cfg : Option AgentConfig)
      → (setup_init_containers cs j cfg).0 ≡ none
      → (es : List JobExecutor) × (ds : List Container) × ((setup_init_containers cs j cfg).1
          ≡ extended j es ds)
        × Prepared cfg 0 cs es ds
  unfolding setup_init_containers
  setup-Prepared cs j cfg h = setup_loop-Prepared 0 cs j cfg h
