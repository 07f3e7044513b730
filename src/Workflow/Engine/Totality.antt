-- ===== src/Workflow/Engine/Totality.antt =====
-- Where `CFDWorkflow.run` ends, whatever its handlers do.
use open_foam_agent.Prelude.{ℕ, zero, suc, Bool, true, false, ◌≡◌, refl, arith}
use open_foam_agent.Workflow.State.{State, CfdState}
use open_foam_agent.Workflow.Engine.{
  Exception, Outcome, returned, raised, Handlers, step, is_terminal, recover, run,
}

recover-is_terminal :
    (stage : State) (e : Exception) (s : CfdState)
    → is_terminal (recover stage e s).current_state ≡ true
unfolding recover is_terminal
recover-is_terminal stage e s = ground arith

module _ (h : Handlers) where
  -- For any handlers, any step limit and any state, a run ends in a terminal state.
  pub run-is_terminal : (n : ℕ) (s : CfdState) → is_terminal (run h n s).current_state ≡ true
  unfolding run
  run-is_terminal zero s = refl
  run-is_terminal (suc n) s =
      go (is_terminal s.current_state) refl (step h s) refl (run-is_terminal n)
    where
      go :
          (b : Bool)
          → is_terminal s.current_state ≡ b
          → (o : Outcome) → step h s ≡ o
          → ((t : CfdState) → is_terminal (run h n t).current_state ≡ true)
          → is_terminal (run h (suc n) s).current_state ≡ true
      go true e o f ih = rw (e, run) e
      go false e (returned t) f ih = rw (e, f, run) (ih t)
      go false e (raised x t) f ih = rw (e, f, run) (recover-is_terminal s.current_state x t)
