-- ===== src/Serving.antt =====
-- agent_server.go, `Run` and `Finish`: how the agent stops. The calls of the server run beside each other;
-- a state says where `Run` stands and what the handlers are doing, and a step is one of them going on.
pub mod Stopping
use kubejob.Prelude.{ℕ, zero, suc, ◌≡◌, Option, none, some}
use kubejob.Errors.{Err}

-- Where `Run` stands: in the first `select`; between its receive and `GracefulStop`, where the server
-- still takes calls; in `GracefulStop`; behind it, in the second `select`, when
-- `Serve` has returned; or it has returned.
pub data Phase : Type 0 where
  serving : Phase
  noticed : Phase
  stopping : Phase
  stopped : Phase
  returned : Option Err → Phase

-- `waiting` handlers of `Finish` are at their send to `stopCh`, which takes a receiver at the other end;
-- `active` is how many other calls have not ended, of which nothing is assumed.
pub record ServerState : Type 0 where
  pub phase : Phase
  pub waiting : ℕ
  pub active : ℕ

abbrev pub at : Phase → ℕ → ℕ → ServerState
at phase waiting active = record { phase = phase; waiting = waiting; active = active }

-- `ctx_err` is the error of the context, if it can be cancelled: that of the agent's command cannot.
pub data ServerStep (ctx_err : Option Err) : ServerState → ServerState → Type 0 where
  -- A call comes, before `GracefulStop` has begun; a server that stops takes no more.
  call : {m n : ℕ} → ServerStep ctx_err (at serving m n) (at serving m (suc n))
  finish : {m n : ℕ} → ServerStep ctx_err (at serving m n) (at serving (suc m) n)
  late_call : {m n : ℕ} → ServerStep ctx_err (at noticed m n) (at noticed m (suc n))
  late_finish : {m n : ℕ} → ServerStep ctx_err (at noticed m n) (at noticed (suc m) n)
  -- A call ends.
  call_ends : {p : Phase} {m n : ℕ} → ServerStep ctx_err (at p m (suc n)) (at p m n)
  -- `<-s.stopCh`: the handler that sends goes on, to its end.
  take_stop : {m n : ℕ} → ServerStep ctx_err (at serving (suc m) n) (at noticed m (suc n))
  -- `s.server.GracefulStop()` begins.
  begin : {m n : ℕ} → ServerStep ctx_err (at noticed m n) (at stopping m n)
  -- `GracefulStop` returns when no call is left, and `Serve` does then.
  drain : ServerStep ctx_err (at stopping 0 0) (at stopped 0 0)
  -- `<-done`
  leave : {m n : ℕ} → ServerStep ctx_err (at stopped m n) (at (returned none) m n)
  -- `<-ctx.Done()`, in each `select`
  cancel :
      {m n : ℕ} {e : Err}
      → ctx_err ≡ some e
      → ServerStep ctx_err (at serving m n) (at (returned (some e)) m n)
  cancel_stopped :
      {m n : ℕ} {e : Err}
      → ctx_err ≡ some e
      → ServerStep ctx_err (at stopped m n) (at (returned (some e)) m n)

pub data ServerSteps (ctx_err : Option Err) : ServerState → ServerState → Type 0 where
  here : {s : ServerState} → ServerSteps ctx_err s s
  then :
      {s t u : ServerState}
      → ServerStep ctx_err s t
      → ServerSteps ctx_err t u
      → ServerSteps ctx_err s u
