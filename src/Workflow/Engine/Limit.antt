-- ===== src/Workflow/Engine/Limit.antt =====
-- What the step limit of `CFDWorkflow.run` does, and what recovery keeps.
use open_foam_agent.Prelude.{
  ℕ, zero, suc, ◌≤◌, ◌<◌, true, false, ◌&&◌, Option, none, some, [], ◌∷◌, ◌++◌, ◌≡◌, refl, sym, ap,
  ◌∙◌, subst, arith, Bool-cases, inl, inr, ◌⊎◌, lt→ltb, length, length-append, ltb, Str,
}
use open_foam_agent.Workflow.State.{State, CfdState, transition, failed, max_steps_exceeded}
use open_foam_agent.Workflow.Engine.{
  Exception, returned, Handlers, step, is_terminal, note_failure, note_with, recover, recovery_of,
  run, preserves_case,
}

recover-noted :
    (stage : State) (e : Exception) (s : CfdState)
    → ((recover stage e s).primary_failure ≡ (note_failure stage e s).primary_failure)
      × ((recover stage e s).secondary_failures ≡ (note_failure stage e s).secondary_failures)
unfolding recover transition
recover-noted stage e s = elim (Bool-cases (e.transport_parse && preserves_case stage)) [
  | inl kept ↦ rw kept (refl, refl)
  | inr lost ↦ rw lost (refl, refl)
]

-- What a state says of the exception that another one met.
Noted : State → Exception → CfdState → CfdState → Type 0
Noted stage e s t =
    (t.primary_failure ≡ s.primary_failure)
    × (length t.secondary_failures ≤ 16)
    × ((p : Str)
        → s.primary_failure ≡ some p
        → length s.secondary_failures < 16
        → t.secondary_failures ≡ s.secondary_failures ++ recovery_of stage e ∷ [])
    × (s.primary_failure ≡ none → t.secondary_failures ≡ s.secondary_failures)

note_failure_lem :
    (stage : State) (e : Exception) (s : CfdState)
    → length s.secondary_failures ≤ 16
    → Noted stage e s (note_failure stage e s)
unfolding Noted note_failure
note_failure_lem stage e s h = go s.primary_failure refl
  where
    go :
        (p : Option Str)
        → s.primary_failure ≡ p
        → Noted stage e s (note_with s.primary_failure stage e s)
    go none k =
        subst (Noted stage e s) (ap (λ p. note_with p stage e s) (sym k))
          (refl, h, λ p f less. absurd (none_some (sym k ∙ f)), λ f. refl)
      where
        none_some : {p : Str} → ◌≡◌ {A = Option Str} none (some p) → ⊥
        none_some f = cc
    go (some p) k =
        subst (Noted stage e s) (ap (λ p. note_with p stage e s) (sym k))
          (room (Bool-cases (ltb (length s.secondary_failures) 16)))
      where
        none_some : {p : Str} → ◌≡◌ {A = Option Str} none (some p) → ⊥
        none_some f = cc

        room :
            (ltb (length s.secondary_failures) 16 ≡ true)
              ⊎ (ltb (length s.secondary_failures) 16 ≡ false)
            → Noted stage e s (note_with (some p) stage e s)
        room (inl less) = rw less (
          refl,
          ground (arith, less, length-append s.secondary_failures (recovery_of stage e ∷ [])),
          λ q f lt. refl,
          λ f. absurd (none_some (sym f ∙ k)),
        )
        room (inr more) = rw more (
          refl,
          h,
          λ q f lt. absurd (full (lt→ltb (length s.secondary_failures) 16 lt)),
          λ f. absurd (none_some (sym f ∙ k)),
        )
          where
            full : ltb (length s.secondary_failures) 16 ≡ true → ⊥
            full f = cc (sym more ∙ f)

-- Recovery from an exception keeps the primary failure, and sixteen secondary failures at most.
pub recover-failures :
    (stage : State) (e : Exception) (s : CfdState)
    → length s.secondary_failures ≤ 16
    → ((recover stage e s).primary_failure ≡ s.primary_failure)
      × (length (recover stage e s).secondary_failures ≤ 16)
unfolding Noted
recover-failures stage e s h =
    let (same, secondary) = recover-noted stage e s in
    let (kept, bounded, recorded, alone) = note_failure_lem stage e s h in
    rw (same, secondary) (kept, bounded)

-- Beside a primary failure and below sixteen secondary ones, recovery appends the exception to
-- the secondary failures.
pub recover-recorded :
    (stage : State) (e : Exception) (s : CfdState) (p : Str)
    → s.primary_failure ≡ some p
    → length s.secondary_failures < 16
    → (recover stage e s).secondary_failures ≡ s.secondary_failures ++ recovery_of stage e ∷ []
unfolding Noted
recover-recorded stage e s p f lt =
    let (same, secondary) = recover-noted stage e s in
    let (kept, bounded, recorded, alone) = note_failure_lem stage e s (ground arith) in
    rw secondary (recorded p f lt)

module _ (h : Handlers) where
  -- A chain of steps that return, each from a state that is not terminal.
  pub data Steps : ℕ → CfdState → CfdState → Type 0 where
    rest : {s : CfdState} → Steps 0 s s
    more :
        {n : ℕ} {s t u : CfdState}
        → is_terminal s.current_state ≡ false
        → step h s ≡ returned t
        → Steps n t u
        → Steps (suc n) s u

  run-next :
      (n : ℕ) (s t : CfdState)
      → is_terminal s.current_state ≡ false
      → step h s ≡ returned t
      → run h (suc n) s ≡ run h n t
  unfolding run
  run-next n s t e f = rw (e, f, run) refl

  -- If n steps return, each from a state that is not terminal, and the last reaches a terminal
  -- state, a run with limit n is failed for its limit, and one with limit n + 1 returns that
  -- state.
  pub run-limit :
      (n : ℕ) (s t : CfdState)
      → Steps n s t
      → is_terminal t.current_state ≡ true
      → (run h n s ≡ transition failed max_steps_exceeded t) × (run h (suc n) s ≡ t)
  unfolding run
  run-limit zero s _ rest e = (refl, rw (e, run) refl)
  run-limit (suc n) s u (more {n = _} {t = t} a b c) e =
      let (first, second) = run-limit n t u c e in
      (run-next n s t a b ∙ first, run-next (suc n) s t a b ∙ second)
