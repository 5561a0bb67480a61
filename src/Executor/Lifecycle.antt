-- ===== src/Executor/Lifecycle.antt =====
-- What the operations of executor.go do to an executor over its life.
use kubejob.Prelude.{
  if◌then◌else◌, Option, zero, suc, ℕ, sym, ap, ◌∙◌, String, ◌≡◌, refl, Bool, true, false, not,
  none, some, List, [], ◌∷◌, is_some, arith,
}
use kubejob.Errors.{Err}
use kubejob.Cluster.{Cluster}
use kubejob.Executor.Command.{Outcome, enabled_agent, pod_of, exec_with_retry}
use kubejob.Executor.{
  JobExecutor, command_line, failure, err_duplicate, err_prepare, echo, stop, exec_only, exec,
  exec_async, exec_async_body, exec_prepare_command, termination_log,
}

module _ {W : Type 0} (k : Cluster W) where
  pub exec-status :
      (disabled : Bool) (e : JobExecutor) (w : W)
      → e.is_running ≡ false
      → e.stopped ≡ false
      → enabled_agent e.target ≡ false
      → let main =
          exec_with_retry k e.target (command_line e) (echo k disabled (command_line e) w) in
        let written : String = if is_some main.0.err then "1" else "0" in
        let status =
          exec_with_retry k e.target ("echo" ∷ written ∷ ">" ∷ "/tmp/kubejob-status" ∷ []) main.1 in
        exec k disabled e w ≡ (
          record { out = main.0.out; err = failure (pod_of e.target) main.0.err },
          record e { is_running = false; stopped = not (is_some status.0.err); err = main.0.err },
          status.1,
        )
  unfolding exec exec_only stop
  exec-status disabled e w idle live direct = ground arith

  stop_again :
      (e : JobExecutor) (w v : W)
      → (stop k e w).0 ≡ none
      → stop k (stop k e w).1 v ≡ (none, (stop k e w).1, v)
  unfolding stop
  stop_again e w v h = ground arith

  -- `Stop` called so many times in a row.
  abbrev pub stops : ℕ → JobExecutor → W → Option Err × JobExecutor × W
  stops zero e w = (none, e, w)
  stops (suc zero) e w = stop k e w
  stops (suc (suc n)) e w = let (r, e', w') = stops (suc n) e w in stop k e' w'

  -- If the first `Stop` succeeds, any number of them in a row does what the first one does.
  pub stops_once :
      (n : ℕ) (e : JobExecutor) (w : W) → (stop k e w).0 ≡ none → stops (suc n) e w ≡ stop k e w
  stops_once zero e w h = refl
  stops_once (suc n) e w h =
      ap (λ (r : Option Err × JobExecutor × W). stop k r.1 r.2) (stops_once n e w h)
      ∙ stop_again e w (stop k e w).2 h
      ∙ ap (λ r. (r, (stop k e w).1, (stop k e w).2)) (sym h)

  abbrev refused : Outcome
  refused = record { out = ""; err = some err_duplicate }

  -- While a command runs, another one and a prepare command are refused with an error of their own,
  -- and neither the executor nor the world changes.
  pub running_refuses :
      (disabled : Bool) (e : JobExecutor) (cmd : List String) (w : W)
      → e.is_running ≡ true
      → (exec_only k disabled e w ≡ (refused, e, w))
        × (exec_async k disabled e w ≡ (some err_duplicate, e, w))
        × (exec_prepare_command k disabled e cmd w
            ≡ (record { out = ""; err = some err_prepare }, e, w))
  unfolding exec_only exec_async exec_prepare_command
  running_refuses disabled e cmd w busy = ground arith

  -- `Exec` while a command runs is refused too, and yet it stops the container.
  pub exec_running_stops :
      (disabled : Bool) (e : JobExecutor) (w : W)
      → e.is_running ≡ true
      → exec k disabled e w ≡ (refused, (stop k e w).1, (stop k e w).2)
  unfolding exec exec_only
  exec_running_stops disabled e w busy = ground arith

  -- `Exec` on an idle executor that is stopped runs the command again, and leaves the executor
  -- marked as running.
  exec_stopped_runs :
      (disabled : Bool) (e : JobExecutor) (w : W)
      → e.is_running ≡ false
      → e.stopped ≡ true
      → let main =
          exec_with_retry k e.target (command_line e) (echo k disabled (command_line e) w) in
        exec k disabled e w ≡ (
          record { out = main.0.out; err = failure (pod_of e.target) main.0.err },
          record e { is_running = true; err = main.0.err },
          main.1,
        )
  unfolding exec exec_only stop
  exec_stopped_runs disabled e w idle dead = ground arith

  -- On an idle container with no agent, a second `Exec` after one that has stopped the executor runs
  -- the command again, and leaves the executor marked as running.
  pub exec_twice_runs :
      (disabled : Bool) (e : JobExecutor) (w : W)
      → e.is_running ≡ false
      → e.stopped ≡ false
      → enabled_agent e.target ≡ false
      → (exec k disabled e w).1.stopped ≡ true
      → let (o, e', w') = exec k disabled e w in
        let again =
          exec_with_retry k e'.target (command_line e') (echo k disabled (command_line e') w') in
        exec k disabled e' w' ≡ (
          record { out = again.0.out; err = failure (pod_of e'.target) again.0.err },
          record e' { is_running = true; err = again.0.err },
          again.1,
        )
  exec_twice_runs disabled e w idle live direct over =
      exec_stopped_runs disabled (exec k disabled e w).1 (exec k disabled e w).2
        (ap (λ r. r.1.is_running) (exec-status disabled e w idle live direct)) over

  -- The operations that a handler may call, and the goroutine of `ExecAsync`.
  pub data Op : Type 0 where
    run_exec run_exec_only run_exec_async run_async_body run_stop : Op
    run_prepare : List String → Op
    run_termination_log : String → Op

  abbrev pub step : Bool → Op → JobExecutor → W → JobExecutor × W
  step b run_exec e w = let (o, e', w') = exec k b e w in (e', w')
  step b run_exec_only e w = let (o, e', w') = exec_only k b e w in (e', w')
  step b run_exec_async e w = let (o, e', w') = exec_async k b e w in (e', w')
  step b run_async_body e w = exec_async_body k e w
  step b run_stop e w = let (o, e', w') = stop k e w in (e', w')
  step b (run_prepare cmd) e w = let (o, e', w') = exec_prepare_command k b e cmd w in (e', w')
  step b (run_termination_log log) e w = let (o, e', w') = termination_log k e log w in (e', w')

  pub run : Bool → List Op → JobExecutor → W → JobExecutor × W
  run b [] e w = (e, w)
  run b (op ∷ ops) e w = let (e', w') = step b op e w in run b ops e' w'

  -- `e'` runs the same command in the same place, and is stopped if `e` is.
  pub record IsLater (e e' : JobExecutor) : Type 0 where
    pub target : e'.target ≡ e.target
    pub command : e'.command ≡ e.command
    pub args : e'.args ≡ e.args
    pub stopped : e.stopped ≡ true → e'.stopped ≡ true

  step-IsLater : (b : Bool) (op : Op) (e : JobExecutor) (w : W) → IsLater e (step b op e w).0
  unfolding exec exec_only exec_async exec_async_body stop exec_prepare_command termination_log
  step-IsLater b run_exec e w = ground arith
  step-IsLater b _ e w = ground arith

  IsLater-trans : {a b c : JobExecutor} → IsLater a b → IsLater b c → IsLater a c
  IsLater-trans p q = record {
    target = q.target ∙ p.target;
    command = q.command ∙ p.command;
    args = q.args ∙ p.args;
    stopped = λ h. q.stopped (p.stopped h);
  }

  -- Whatever is called, in whatever order, an executor keeps its place and its command, and once
  -- stopped it stays stopped.
  pub run-IsLater :
      (b : Bool) (ops : List Op) (e : JobExecutor) (w : W) → IsLater e (run b ops e w).0
  unfolding run
  run-IsLater b [] e w = record { target = refl; command = refl; args = refl; stopped = λ h. h }
  run-IsLater b (op ∷ ops) e w =
      let (e', w') = step b op e w in
      IsLater-trans (step-IsLater b op e w) (run-IsLater b ops e' w')
