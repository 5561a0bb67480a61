-- ===== src/Executor/Retry.antt =====
-- `execWithRetry` of executor.go against the sequence of attempts.
use kubejob.Prelude.{
  ◌∙◌, some, [], ℕ, zero, suc, ◌<◌, String, ◌≡◌, refl, true, false, ◌⊎◌, inl, inr, List, none,
  arith, Bool-cases,
}
use kubejob.Cluster.{Cluster, ExecResponse}
use kubejob.Errors.{ok, err_command_from_agent}
use kubejob.Executor.Command.{
  agent_client_exec, agent_outcome, Target, Outcome, retryable, exec_once, retry_loop,
  exec_with_retry, enabled_agent, connection_of, client_working_dir,
}

module _ {W : Type 0} (k : Cluster W) (t : Target) (cmd : List String) where
  -- The world after so many attempts in a row.
  pub world_after : ℕ → W → W
  world_after zero w = w
  world_after (suc n) w = world_after n (exec_once k t cmd w).1

  -- Attempt number `n`, counted from 0.
  abbrev pub attempt : ℕ → W → Outcome × W
  attempt n w = exec_once k t cmd (world_after n w)

  -- `r` is attempt number `n` of at most `rounds`; all before it were worth a retry, and it was not,
  -- or was the last one granted.
  pub record IsAttempt (rounds : ℕ) (w : W) (r : Outcome × W) (n : ℕ) : Type 0 where
    pub granted : n < rounds
    pub taken : r ≡ attempt n w
    pub earlier : (i : ℕ) → i < n → retryable (attempt i w).0.err ≡ true
    pub ended : (retryable r.0.err ≡ false) ⊎ (suc n ≡ rounds)

  one_more :
      (rounds : ℕ) (w : W) (r : Outcome × W) (n : ℕ)
      → retryable (exec_once k t cmd w).0.err ≡ true
      → IsAttempt rounds (exec_once k t cmd w).1 r n
      → IsAttempt (suc rounds) w r (suc n)
  unfolding world_after
  one_more rounds w r n again a = record {
    granted = omega (arith, a.granted);
    taken = a.taken;
    earlier = earlier;
    ended = ended a.ended;
  }
    where
      earlier : (i : ℕ) → i < suc n → retryable (attempt i w).0.err ≡ true
      earlier zero h = again
      earlier (suc i) h = a.earlier i (omega arith)

      ended :
          (retryable r.0.err ≡ false) ⊎ (suc n ≡ rounds)
          → (retryable r.0.err ≡ false) ⊎ (suc (suc n) ≡ suc rounds)
      ended (inl e) = inl e
      ended (inr e) = inr (omega arith)

  loop_again :
      (rounds : ℕ) (last : Outcome) (w : W)
      → retryable (exec_once k t cmd w).0.err ≡ true
      → retry_loop k t cmd (suc rounds) last w
        ≡ retry_loop k t cmd rounds (exec_once k t cmd w).0 (exec_once k t cmd w).1
  unfolding retry_loop
  loop_again rounds last w e = rw (e, retry_loop)

  loop_last :
      (last : Outcome) (w : W)
      → retryable (exec_once k t cmd w).0.err ≡ true
      → retry_loop k t cmd 1 last w ≡ exec_once k t cmd w
  unfolding retry_loop
  loop_last last w e = rw (e, retry_loop)

  loop_ends :
      (rounds : ℕ) (last : Outcome) (w : W)
      → retryable (exec_once k t cmd w).0.err ≡ false
      → retry_loop k t cmd (suc rounds) last w ≡ exec_once k t cmd w
  unfolding retry_loop
  loop_ends rounds last w e = rw (e, retry_loop)

  first-IsAttempt :
      (rounds : ℕ) (w : W)
      → (retryable (exec_once k t cmd w).0.err ≡ false) ⊎ (1 ≡ rounds)
      → 0 < rounds
      → IsAttempt rounds w (exec_once k t cmd w) 0
  unfolding world_after
  first-IsAttempt rounds w over h = record {
    granted = h;
    taken = refl;
    earlier = λ i l. elim l [ ];
    ended = over;
  }

  retry_loop-IsAttempt :
      (rounds : ℕ) (last : Outcome) (w : W)
      → (n : ℕ) × IsAttempt (suc rounds) w (retry_loop k t cmd (suc rounds) last w) n
  retry_loop-IsAttempt zero last w = elim (Bool-cases (retryable (exec_once k t cmd w).0.err)) [
    | inl again ↦ (0, rw (loop_last last w again) (first-IsAttempt 1 w (inr refl) (omega arith)))
    | inr final ↦
        (0, rw (loop_ends zero last w final) (first-IsAttempt 1 w (inl final) (omega arith)))
  ]
  retry_loop-IsAttempt (suc rounds) last w =
      elim (Bool-cases (retryable (exec_once k t cmd w).0.err)) [
        | inl again ↦
            let (n, rest) =
              retry_loop-IsAttempt rounds (exec_once k t cmd w).0 (exec_once k t cmd w).1 in
            (
              suc n,
              rw (loop_again (suc rounds) last w again) (one_more (suc rounds) w _ n again rest),
            )
        | inr final ↦ (
          0,
          rw (loop_ends (suc rounds) last w final)
              (first-IsAttempt (suc (suc rounds)) w (inl final) (omega arith)),
        )
      ]

  -- An outcome that is not worth a retry ends the loop.
  pub retry_loop-final :
      (rounds : ℕ) (last : Outcome) (w : W) (o : Outcome) (w' : W)
      → exec_once k t cmd w ≡ (o, w')
      → retryable o.err ≡ false
      → retry_loop k t cmd (suc rounds) last w ≡ (o, w')
  retry_loop-final rounds last w o w' e h = loop_ends rounds last w (rw e h) ∙ e

  -- When the policy grants at least one round, the result and the world are those of one attempt, at
  -- most the last one granted: all attempts before it failed with an error that is no exit status,
  -- and it succeeded, or failed with an exit status, or no round was left.
  pub exec_with_retry-IsAttempt :
      (rounds : ℕ) (w w' : W)
      → k.start_backoff k.exec_retry_count w ≡ (suc rounds, w')
      → (n : ℕ) × IsAttempt (suc rounds) w' (exec_with_retry k t cmd w) n
  unfolding exec_with_retry
  exec_with_retry-IsAttempt rounds w w' start =
      rw start (retry_loop-IsAttempt rounds (record { out = ""; err = none }) w')

module _ {W : Type 0} (k : Cluster W) where
  -- A response of the agent without success is the agent's message as an error.
  pub exec_once-agent_failed :
      (t : Target) (cmd : List String) (res : ExecResponse) (w w' : W)
      → enabled_agent t ≡ true
      → k.grpc_exec
          (connection_of t)
          (record { command = cmd; env = []; working_dir = client_working_dir t })
          w
        ≡ (ok res, w')
      → res.success ≡ false
      → exec_once k t cmd w
        ≡ (record { out = res.output; err = some (err_command_from_agent res.error_message) }, w')
  unfolding exec_once agent_outcome agent_client_exec
  exec_once-agent_failed t cmd res w w' on e failed = ground arith
