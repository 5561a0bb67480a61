-- ===== src/Serving/Stopping.antt =====
-- Whether the agent's `Run` returns once it has begun to stop.
use kubejob.Prelude.{◌⊎◌, subst, inr, inl, ℕ, zero, suc, ◌≡◌, ◌≢◌, refl, arith, Option, none}
use kubejob.Errors.{Err}
use kubejob.Serving.{
  noticed, serving, Phase, noticed, late_call, late_finish, begin, stopping, stopped, returned,
  ServerState, at, ServerStep, call, finish, call_ends, take_stop, drain, leave, cancel,
  cancel_stopped, ServerSteps, here, then,
}

-- On every way that the steps can take, `Run` returns nil: it has, or there is a step and after each step
-- it is so again.
pub data Settles (ctx_err : Option Err) : ServerState → Type 0 where
  settled : {s : ServerState} → s.phase ≡ returned none → Settles ctx_err s
  unsettled :
      {s t : ServerState}
      → ServerStep ctx_err s t
      → ((u : ServerState) → ServerStep ctx_err s u → Settles ctx_err u)
      → Settles ctx_err s

after_stopped : (u : ServerState) → ServerStep none (at stopped 0 0) u → Settles none u
after_stopped u leave = settled refl
after_stopped u (cancel_stopped e) = absurd (cc e)

after_drain : (u : ServerState) → ServerStep none (at stopping 0 0) u → Settles none u
after_drain u drain = unsettled leave after_stopped

after_end :
    (n : ℕ)
    → Settles none (at stopping 0 n)
    → (u : ServerState) → ServerStep none (at stopping 0 (suc n)) u
    → Settles none u
after_end n h u call_ends = h

-- When the context cannot be cancelled, as in the agent's command, and `GracefulStop` has begun while no
-- `Finish` was waiting, then in whatever order the calls in progress end, `Run` returns nil after
-- finitely many steps, and it is never stuck before.
pub stopping-Settles : (n : ℕ) → Settles none (at stopping 0 n)
stopping-Settles zero = unsettled drain after_drain
stopping-Settles (suc n) = unsettled call_ends (after_end n (stopping-Settles n))

-- `Run` has received from `stopCh` and is before `GracefulStop` or in it.
abbrev pub IsEnding : Phase → Type 0
IsEnding p = (p ≡ noticed) ⊎ (p ≡ stopping)

-- That `Run` cannot return: it is ending, and a handler of `Finish` waits.
abbrev pub IsStuck : ServerState → Type 0
IsStuck s = IsEnding s.phase × (s.waiting ≢ 0)

IsEnding-serving : ¬ (IsEnding serving)
IsEnding-serving (inl e) = absurd (cc e)
IsEnding-serving (inr e) = absurd (cc e)

IsEnding-stopped : ¬ (IsEnding stopped)
IsEnding-stopped (inl e) = absurd (cc e)
IsEnding-stopped (inr e) = absurd (cc e)

IsEnding-returned : (result : Option Err) → ¬ (IsEnding (returned result))
IsEnding-returned result (inl e) = absurd (cc e)
IsEnding-returned result (inr e) = absurd (cc e)

ServerStep-IsStuck :
    {ctx_err : Option Err} {s t : ServerState} → IsStuck s → ServerStep ctx_err s t → IsStuck t
ServerStep-IsStuck h call = absurd (IsEnding-serving h.0)
ServerStep-IsStuck h finish = absurd (IsEnding-serving h.0)
ServerStep-IsStuck h late_call = h
ServerStep-IsStuck h late_finish = (h.0, λ e. absurd (omega arith))
ServerStep-IsStuck h call_ends = h
ServerStep-IsStuck h take_stop = absurd (IsEnding-serving h.0)
ServerStep-IsStuck h begin = (inr refl, h.1)
ServerStep-IsStuck h drain = absurd (h.1 refl)
ServerStep-IsStuck h leave = absurd (IsEnding-stopped h.0)
ServerStep-IsStuck h (cancel e) = absurd (IsEnding-serving h.0)
ServerStep-IsStuck h (cancel_stopped e) = absurd (IsEnding-stopped h.0)

ServerSteps-IsStuck :
    {ctx_err : Option Err} {s t : ServerState} → IsStuck s → ServerSteps ctx_err s t → IsStuck t
ServerSteps-IsStuck h here = h
ServerSteps-IsStuck h (then step steps) = ServerSteps-IsStuck (ServerStep-IsStuck h step) steps

-- If `Run` has received from `stopCh`, whether `GracefulStop` has begun or not, and a handler of `Finish`
-- waits, then `Run` never returns, with nil or an error, whatever steps are taken and whether the
-- context can be cancelled or not: `GracefulStop` waits for the handler, and nothing receives from
-- it any more.
pub second_finish_hangs :
    (ctx_err result : Option Err) (p : Phase) (waiting active : ℕ) (t : ServerState)
    → IsEnding p
    → ServerSteps ctx_err (at p (suc waiting) active) t
    → t.phase ≢ returned result
second_finish_hangs ctx_err result p waiting active t ending steps over =
    let stuck : IsStuck (at p (suc waiting) active) = (ending, λ e. absurd (omega arith)) in
    IsEnding-returned result (subst IsEnding over (ServerSteps-IsStuck stuck steps).0)
