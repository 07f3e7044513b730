-- ===== src/Delta/Consumers/Settled.antt =====
-- The fixed point of `auto_consumers_for_delta` is reached, and nothing is left to select in it.
use open_foam_agent.Prelude.{
  ok_injective, ℕ, zero, suc, ◌≤◌, ◌<◌, Str, Bool, true, false, Option, some, List, [], ◌∷◌, nat_eq,
  list_eq, option_eq, pair_eq, eq_refl, ◌≡◌, ◌⊎◌, refl, subst, sym, ap, ◌∙◌, arith, Bool-cases, inl,
  inr, Result, ok, err, >>=-eq-ok, Result-cases, all, contains, length,
}
use open_foam_agent.Prelude.Worklist.{unselected, unselected-lt, unselected-le-length}
use open_foam_agent.Native.Errors.{ValueError}
use open_foam_agent.Native.Contracts.{Registry}
use open_foam_agent.Native.Scopes.{EngineeringPlan}
use open_foam_agent.Native.Commands.{NativeOpenFoamCommand, Bound}
use open_foam_agent.Delta.Affected.{overlaps}
use open_foam_agent.Delta.Consumers.{
  Token, token, Sweep, input_paths, selected_by, visit, sweep, settle, delta_start, selection_of,
  auto_consumers_for_delta,
}

abbrev pub tokens : List Bound → List Token
tokens [] = []
tokens (bound ∷ rest) = token bound.1 ∷ tokens rest

length-tokens : (bound : List Bound) → length (tokens bound) ≡ length bound
length-tokens [] = refl
length-tokens (b ∷ bound) = ap suc (length-tokens bound)

all_intro :
    (p : Token → Bool) (xs : List Token)
    → ((a : Token) → contains xs a ≡ true → p a ≡ true)
    → all p xs ≡ true
unfolding all contains
all_intro p [] h = refl
all_intro p (x ∷ xs) h =
    let first = h x (ground (arith, eq_refl x)) in
    let rest = all_intro p xs (λ a m. h a (ground arith)) in ground arith

all_self : (xs : List Token) → all (contains xs) xs ≡ true
all_self xs = all_intro (contains xs) xs (λ a m. m)

module _ (registry : Registry) where
  -- Selecting candidates one at a time: each is new, and an input of it is dirty.
  pub data Fired (candidates : List Token) (s : Sweep) : Sweep → Type 0 where
    start : Fired candidates s s
    fire :
        {t : Sweep} (bound : Bound) (inputs : List Str)
        → Fired candidates s t
        → contains candidates (token bound.1) ≡ true
        → contains t.seen (token bound.1) ≡ false
        → input_paths registry bound ≡ ok inputs
        → overlaps t.dirty inputs ≡ true
        → Fired candidates s (selected_by registry bound t)
    reset : {t : Sweep} → Fired candidates s t → Fired candidates s (record t { added = false })

  -- Each candidate was selected or explicit, or no input of it is dirty.
  abbrev pub IsQuiet : Sweep → List Bound → Type 0
  IsQuiet s [] = Unit
  IsQuiet s (bound ∷ rest) =
      ((contains s.seen (token bound.1) ≡ true)
        ⊎ (inputs : List Str) × (input_paths registry bound ≡ ok inputs)
          × (overlaps s.dirty inputs ≡ false))
      × IsQuiet s rest

  -- The two ways in which a visit returns.
  visit-ok :
      (bound : Bound) (s t : Sweep)
      → visit registry bound s ≡ ok t
      → ((t ≡ s)
          × ((contains s.seen (token bound.1) ≡ true)
              ⊎ (inputs : List Str) × (input_paths registry bound ≡ ok inputs)
                × (overlaps s.dirty inputs ≡ false)))
        ⊎ ((t ≡ selected_by registry bound s)
            × (contains s.seen (token bound.1) ≡ false)
            × ((inputs : List Str) × (input_paths registry bound ≡ ok inputs)
                × (overlaps s.dirty inputs ≡ true)))
  unfolding visit
  visit-ok bound s t h = elim (Bool-cases (contains s.seen (token bound.1))) [
    | inl old ↦ inl (sym (ok_injective (rw old at h)), inl old)
    | inr new ↦
        let (inputs, found, h1) = >>=-eq-ok (input_paths registry bound) _ (rw new at h) in
        elim (Bool-cases (overlaps s.dirty inputs)) [
          | inl hit ↦ inr (sym (ok_injective (rw hit at h1)), new, (inputs, found, hit))
          | inr clean ↦ inl (sym (ok_injective (rw clean at h1)), inr (inputs, found, clean))
        ]
  ]

  sweep-added :
      (rest : List Bound) (s t : Sweep)
      → sweep registry rest s ≡ ok t
      → s.added ≡ true
      → t.added ≡ true
  unfolding sweep
  sweep-added [] s t h on = ground arith
  sweep-added (bound ∷ rest) s t h on =
      let (u, seen, h1) = >>=-eq-ok (visit registry bound s) (sweep registry rest) h in
      elim (visit-ok bound s u seen) [
        | inl (same, why) ↦ sweep-added rest u t h1 (rw same on)
        | inr (same, new, why) ↦ sweep-added rest u t h1 (rw same refl)
      ]

  -- A pass that adds nothing changes nothing, and finds its candidates quiet.
  sweep-IsQuiet :
      (rest : List Bound) (s t : Sweep)
      → sweep registry rest s ≡ ok t
      → t.added ≡ false
      → (t ≡ s) × IsQuiet s rest
  unfolding sweep
  sweep-IsQuiet [] s t h off = (sym (ok_injective h), tt)
  sweep-IsQuiet (bound ∷ rest) s t h off =
      let (u, seen, h1) = >>=-eq-ok (visit registry bound s) (sweep registry rest) h in
      elim (visit-ok bound s u seen) [
        | inl (same, why) ↦
            let (last, quiet) = sweep-IsQuiet rest u t h1 off in
            (last ∙ same, (why, subst (λ v. IsQuiet v rest) same quiet))
        | inr (same, new, why) ↦ absurd (cc (sweep-added rest u t h1 (rw same refl), off))
      ]

  sweep-fired :
      (candidates : List Token) (s0 : Sweep) (rest : List Bound) (s t : Sweep)
      → all (contains candidates) (tokens rest) ≡ true
      → sweep registry rest s ≡ ok t
      → Fired candidates s0 s
      → Fired candidates s0 t
  unfolding sweep all
  sweep-fired candidates s0 [] s t within h run = rw (← ok_injective h) run
  sweep-fired candidates s0 (bound ∷ rest) s t within h run =
      let (u, seen, h1) = >>=-eq-ok (visit registry bound s) (sweep registry rest) h in
      let next = sweep-fired candidates s0 rest u t (ground arith) h1 in
      elim (visit-ok bound s u seen) [
        | inl (same, why) ↦ next (rw same run)
        | inr (same, new, (inputs, found, hit)) ↦
            next (rw same (fire bound inputs run (ground arith) new found hit))
      ]

  -- What is left to see falls in a pass that adds something.
  sweep-work :
      (universe : List Token) (rest : List Bound) (s t : Sweep)
      → all (contains universe) (tokens rest) ≡ true
      → sweep registry rest s ≡ ok t
      → (unselected t.seen universe ≤ unselected s.seen universe)
        × (s.added ≡ false
            → t.added ≡ true
            → suc (unselected t.seen universe) ≤ unselected s.seen universe)
  unfolding sweep all
  sweep-work universe [] s t within h =
      let e : s ≡ t = ok_injective h in rw (← e) (omega arith, λ off on. absurd (cc))
  sweep-work universe (bound ∷ rest) s t within h =
      let (u, seen, h1) = >>=-eq-ok (visit registry bound s) (sweep registry rest) h in
      let (le, lt) = sweep-work universe rest u t (ground arith) h1 in
      elim (visit-ok bound s u seen) [
        | inl (same, why) ↦ rw (← same) (le, lt)
        | inr (same, new, why) ↦
            let drop = unselected-lt s.seen universe (token bound.1) new (ground arith) in
            let less : suc (unselected u.seen universe) ≤ unselected s.seen universe =
              rw same drop in
            (omega arith, λ off on. omega arith)
      ]

  settle-on :
      (candidates : List Bound) (fuel : ℕ) (s t : Sweep)
      → sweep registry candidates (record s { added = false }) ≡ ok t
      → t.added ≡ true
      → settle registry (suc fuel) candidates s ≡ settle registry fuel candidates t
  unfolding settle
  settle-on candidates fuel s t swept on =
      let branch : Bool → Option (Result ValueError Sweep) =
        λ b. elim b [ true ↦ settle registry fuel candidates t | false ↦ some (ok t) ] in
      rw (swept, settle) (ap branch on)

  settle-off :
      (candidates : List Bound) (fuel : ℕ) (s t : Sweep)
      → sweep registry candidates (record s { added = false }) ≡ ok t
      → t.added ≡ false
      → settle registry (suc fuel) candidates s ≡ some (ok t)
  unfolding settle
  settle-off candidates fuel s t swept off =
      let branch : Bool → Option (Result ValueError Sweep) =
        λ b. elim b [ true ↦ settle registry fuel candidates t | false ↦ some (ok t) ] in
      rw (swept, settle) (ap branch off)

  settle-total :
      (candidates : List Bound) (fuel : ℕ) (s : Sweep)
      → all (contains (tokens candidates)) (tokens candidates) ≡ true
      → unselected s.seen (tokens candidates) < fuel
      → (r : Result ValueError Sweep) × (settle registry fuel candidates s ≡ some r)
  unfolding settle
  settle-total candidates zero s within h = absurd (omega arith)
  settle-total candidates (suc fuel) s within h =
      elim (Result-cases (sweep registry candidates (record s { added = false }))) [
        | inr (e, failed) ↦ (err e, rw (failed, settle) refl)
        | inl (t, swept) ↦ elim (Bool-cases t.added) [
          | inr off ↦ (ok t, settle-off candidates fuel s t swept off)
          | inl on ↦
              let (le, lt) =
                sweep-work (tokens candidates) candidates (record s { added = false }) t within
                  swept in
              let (r, e) = settle-total candidates fuel t within (omega (arith, lt refl on)) in
              (r, settle-on candidates fuel s t swept on ∙ e)
        ]
      ]

  settle-IsQuiet :
      (candidates : List Bound) (fuel : ℕ) (s0 s t : Sweep)
      → all (contains (tokens candidates)) (tokens candidates) ≡ true
      → settle registry fuel candidates s ≡ some (ok t)
      → Fired (tokens candidates) s0 s
      → Fired (tokens candidates) s0 t × IsQuiet t candidates
  unfolding settle
  settle-IsQuiet candidates zero s0 s t within h run = cc
  settle-IsQuiet candidates (suc fuel) s0 s t within h run =
      elim (Result-cases (sweep registry candidates (record s { added = false }))) [
        | inr (e, failed) ↦ absurd (cc (rw (failed, settle) at h))
        | inl (u, swept) ↦
            let run' =
              sweep-fired (tokens candidates) s0 candidates (record s { added = false }) u within
                swept (reset run) in
            elim (Bool-cases u.added) [
              | inl on ↦
                  settle-IsQuiet candidates fuel s0 u t within
                    (sym (settle-on candidates fuel s u swept on) ∙ h) run'
              | inr off ↦
                  let (same, quiet) =
                    sweep-IsQuiet candidates (record s { added = false }) u swept off in
                  let e : u ≡ t = state_of (sym (settle-off candidates fuel s u swept off) ∙ h) in
                  subst (λ v. Fired (tokens candidates) s0 v × IsQuiet v candidates) e
                    (run', subst (λ v. IsQuiet v candidates) (sym same) quiet)
            ]
      ]
    where
      state_of :
          {u : Sweep}
          → ◌≡◌ {A = Option (Result ValueError Sweep)} (some (ok u)) (some (ok t))
          → u ≡ t
      state_of e = cc

  -- If the start of the fixed point raises nothing, the loop ends in a round for each candidate and
  -- one more. It raises, or it returns what a sequence of selections made, each of a candidate that
  -- is new and that reads a dirty path, in a state where each candidate has been selected, was
  -- explicit, or reads no dirty path.
  pub auto_consumers_for_delta-settled :
      (plan : EngineeringPlan) (paths changed : List Str) (explicit : List NativeOpenFoamCommand)
      (candidates : List Bound) (s : Sweep)
      → delta_start registry plan paths changed explicit ≡ ok (candidates, s)
      → ((e : ValueError) × (auto_consumers_for_delta registry plan paths changed explicit
            ≡ some (err e)))
        ⊎ ((t : Sweep) × (auto_consumers_for_delta registry plan paths changed explicit
              ≡ some (ok t.selected))
            × Fired (tokens candidates) s t
            × IsQuiet t candidates)
  unfolding auto_consumers_for_delta
  auto_consumers_for_delta-settled plan paths changed explicit candidates s begun =
      let within = all_self (tokens candidates) in
      let room = unselected-le-length s.seen (tokens candidates) in
      let (r, ends) =
        settle-total candidates (suc (length candidates)) s within
          (omega (arith, length-tokens candidates)) in
      finish r ends
    where
      finish :
          (r : Result ValueError Sweep)
          → settle registry (suc (length candidates)) candidates s ≡ some r
          → ((e : ValueError) × (auto_consumers_for_delta registry plan paths changed explicit
                ≡ some (err e)))
            ⊎ ((t : Sweep) × (auto_consumers_for_delta registry plan paths changed explicit
                  ≡ some (ok t.selected))
                × Fired (tokens candidates) s t
                × IsQuiet t candidates)
      finish (err e) ends =
          inl (e, rw (begun, auto_consumers_for_delta) (ap (selection_of registry) ends))
      finish (ok t) ends =
          let (run, quiet) =
            settle-IsQuiet candidates (suc (length candidates)) s s t (all_self (tokens candidates))
              ends start in
          inr
            (t, rw (begun, auto_consumers_for_delta) (ap (selection_of registry) ends), run, quiet)
