-- ===== src/Workflow/Episode/Continuity.antt =====
-- What an episode keeps until it is cleared.
use open_foam_agent.Prelude.{
  ℕ, ◌≤◌, Str, Bool, true, false, not, ◌||◌, some, List, [], ◌∷◌, all, ◌==◌, ◌≡◌, refl, arith,
  list_eq, nat_eq, ◌∙◌, Bool-cases, inl, inr, contains,
}
use open_foam_agent.Workflow.Episode.{
  RepairEpisode, EngineeringEvent, EpisodeState, push_repair, record_repair, renew, ensure_episode,
  observation, archive, add_support_observation, support_actions,
}
use open_foam_agent.Workflow.Episode.Bounded.{
  EpisodeAction, fail, support, repair, clear, act, act_all,
}

abbrev pub is_clear : {Content : Type 0} → EpisodeAction Content → Bool
is_clear clear = true
is_clear other = false

abbrev pub is_fail : {Content : Type 0} → EpisodeAction Content → Bool
is_fail (fail event files) = true
is_fail other = false

-- The same episode, at the same or a later generation.
pub record Continues {Record : Type 0} (e f : RepairEpisode Record) : Type 0 where
  pub number : f.episode_number ≡ e.episode_number
  pub root : f.root_failure ≡ e.root_failure
  pub generation : e.validation_generation ≤ f.validation_generation

Continues-trans :
    {Record : Type 0} (e f g : RepairEpisode Record) → Continues e f → Continues f g → Continues e g
Continues-trans e f g a b = record {
  number = b.number ∙ a.number;
  root = b.root ∙ a.root;
  generation = ground (arith, a.generation, b.generation);
}

module _ {Record Content : Type 0} (compact : EngineeringEvent Content → ℕ → ℕ → Record)
    (identity token : Record → Str) where
  renew-Continues :
      (r : Record) (files : List Str) (e : RepairEpisode Record)
      → Continues e (renew compact identity token r files e)
  unfolding renew
  renew-Continues r files e = elim (Bool-cases (identity e.current_failure == identity r)) [
    | inl same ↦ rw same (record { number = refl; root = refl; generation = ground arith })
    | inr other ↦ rw other (record { number = refl; root = refl; generation = ground arith })
  ]

  Next : EpisodeAction Content → EpisodeState Record → RepairEpisode Record → Type 0
  Next a s e =
      (f : RepairEpisode Record) × ((act compact identity token a s).repair_episode ≡ some f)
      × Continues e f
      × (is_fail a ≡ false → f.current_failure ≡ e.current_failure)

  act-Next :
      (a : EpisodeAction Content) (s : EpisodeState Record) (e : RepairEpisode Record)
      → s.repair_episode ≡ some e
      → is_clear a ≡ false
      → Next a s e
  unfolding Next act push_repair archive
  act-Next (fail event files) s e h k = (
    renew compact identity token (compact event 4200 1200) files e,
    rw (h, ensure_episode) refl,
    renew-Continues (compact event 4200 1200) files e,
    λ no. absurd (cc),
  )
  act-Next (support event) s e h k =
      elim (Bool-cases (not event.success || not (contains support_actions event.action_type))) [
        | inl skipped ↦ (
          e,
          rw (h, add_support_observation, skipped, h) refl,
          record { number = refl; root = refl; generation = ground arith },
          λ no. refl,
        )
        | inr kept ↦ (
          archive compact identity token (observation compact identity token event) e,
          rw (h, add_support_observation, kept) refl,
          record { number = refl; root = refl; generation = ground arith },
          λ no. refl,
        )
      ]
  act-Next (repair diagnosis files) s e h k = (
    push_repair diagnosis files e,
    rw (h, record_repair) refl,
    record { number = refl; root = refl; generation = ground arith },
    λ no. refl,
  )
  act-Next clear s e h k = absurd (cc)

  Later : List (EpisodeAction Content) → EpisodeState Record → RepairEpisode Record → Type 0
  Later actions s e =
      (f : RepairEpisode Record) × ((act_all compact identity token actions s).repair_episode
        ≡ some f)
      × Continues e f
      × (all (λ a. not (is_fail a)) actions ≡ true → f.current_failure ≡ e.current_failure)

  act_all-Later :
      (actions : List (EpisodeAction Content)) (s : EpisodeState Record) (e : RepairEpisode Record)
      → s.repair_episode ≡ some e
      → all (λ a. not (is_clear a)) actions ≡ true
      → Later actions s e
  unfolding act_all all Next Later
  act_all-Later [] s e h k =
      (e, h, record { number = refl; root = refl; generation = ground arith }, λ no. refl)
  act_all-Later (a ∷ later) s e h k =
      let (f, g, first, same) = act-Next a s e h (ground arith) in
      let (f2, g2, rest, same2) =
        act_all-Later later (act compact identity token a s) f g (ground arith) in
      (f2, g2, Continues-trans e f f2 first rest, λ no. same2 (ground arith) ∙ same (ground arith))

  -- A sequence of operations without a clearing keeps the number and the root failure of an
  -- episode, and its generation does not fall.
  pub act_all-Continues :
      (actions : List (EpisodeAction Content)) (s : EpisodeState Record) (e : RepairEpisode Record)
      → s.repair_episode ≡ some e
      → all (λ a. not (is_clear a)) actions ≡ true
      → (f : RepairEpisode Record) × ((act_all compact identity token actions s).repair_episode
          ≡ some f)
        × Continues e f
  unfolding Later
  act_all-Continues actions s e h k =
      let (f, g, goes_on, same) = act_all-Later actions s e h k in (f, g, goes_on)

  -- A sequence of support observations and repairs keeps the current failure of an episode.
  pub act_all-current_failure :
      (actions : List (EpisodeAction Content)) (s : EpisodeState Record) (e : RepairEpisode Record)
      → s.repair_episode ≡ some e
      → all (λ a. not (is_clear a)) actions ≡ true
      → all (λ a. not (is_fail a)) actions ≡ true
      → (f : RepairEpisode Record) × ((act_all compact identity token actions s).repair_episode
          ≡ some f)
        × (f.current_failure ≡ e.current_failure)
  unfolding Later
  act_all-current_failure actions s e h k quiet =
      let (f, g, goes_on, same) = act_all-Later actions s e h k in (f, g, same quiet)
