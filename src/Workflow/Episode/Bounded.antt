-- ===== src/Workflow/Episode/Bounded.antt =====
-- The archives of a repair episode stay bounded.
use open_foam_agent.Prelude.{
  ℕ, ◌≤◌, Str, not, ◌||◌, Option, none, some, List, [], ◌∷◌, ◌++◌, ◌==◌, ◌≡◌, refl, arith,
  if◌then◌else◌, length, length-take_last-le, length-take-le, take, take_last, map, list_eq, nat_eq,
  Bool-cases, inl, inr, contains, dedupe,
}
use open_foam_agent.Workflow.Episode.{
  RepairEpisode, EngineeringEvent, EpisodeState, first_distinct, clear_episode, push_repair,
  record_repair, new_episode, renew, ensure_episode, observation, archive, add_support_observation,
  support_actions,
}

-- What the controller does with the episode.
pub data EpisodeAction (Content : Type 0) : Type 0 where
  fail : EngineeringEvent Content → List Str → EpisodeAction Content
  support : EngineeringEvent Content → EpisodeAction Content
  repair : Str → List Str → EpisodeAction Content
  clear : EpisodeAction Content

pub record IsBoundedEpisode {Record : Type 0} (e : RepairEpisode Record) : Type 0 where
  pub files : length e.current_implicated_files ≤ 24
  pub repairs : length e.previous_repairs ≤ 24
  pub observations : length e.supporting_observations ≤ 24

-- The limits of the schema hold of the episode, if there is one.
unfoldable pub IsBounded : {Record : Type 0} → Option (RepairEpisode Record) → Type 0
IsBounded none = Unit {0}
IsBounded (some e) = IsBoundedEpisode e

module _ {Record Content : Type 0} (compact : EngineeringEvent Content → ℕ → ℕ → Record)
    (identity token : Record → Str) where
  unfoldable pub act : EpisodeAction Content → EpisodeState Record → EpisodeState Record
  unfolding ensure_episode add_support_observation record_repair clear_episode
  act (fail event files) s = ensure_episode compact identity token event files s
  act (support event) s = add_support_observation compact identity token event s
  act (repair diagnosis files) s = record_repair diagnosis files s
  act clear s = clear_episode s

  unfoldable pub act_all : List (EpisodeAction Content) → EpisodeState Record → EpisodeState Record
  unfolding act
  act_all [] s = s
  act_all (a ∷ later) s = act_all later (act a s)

  renew-IsBounded :
      (r : Record) (files : List Str) (e : RepairEpisode Record)
      → IsBoundedEpisode e
      → IsBoundedEpisode (renew compact identity token r files e)
  unfolding renew first_distinct
  renew-IsBounded r files e b = elim (Bool-cases (identity e.current_failure == identity r)) [
    | inl same ↦ rw same (record {
      files = length-take-le 24 (dedupe files);
      repairs = b.repairs;
      observations = b.observations;
    })
    | inr other ↦ rw other (record {
      files = length-take-le 24 (dedupe files);
      repairs = length-take_last-le 24 e.previous_repairs;
      observations = b.observations;
    })
  ]

  new-IsBounded :
      (r : Record) (files : List Str) (s : EpisodeState Record)
      → IsBoundedEpisode (new_episode compact identity token r files s)
  unfolding new_episode first_distinct
  new-IsBounded r files s = record {
    files = length-take-le 24 (dedupe files);
    repairs = ground arith;
    observations = ground arith;
  }

  archive-IsBounded :
      (r : Record) (e : RepairEpisode Record)
      → IsBoundedEpisode e
      → IsBoundedEpisode (archive compact identity token r e)
  unfolding archive
  archive-IsBounded r e b = record {
    files = b.files;
    repairs = b.repairs;
    observations = length-take_last-le 24 (
        if contains (map token (take_last 24 e.supporting_observations)) (token r)
        then e.supporting_observations
        else e.supporting_observations ++ r ∷ []);
  }

  push_repair-IsBounded :
      (diagnosis : Str) (files : List Str) (e : RepairEpisode Record)
      → IsBoundedEpisode e
      → IsBoundedEpisode (push_repair diagnosis files e)
  unfolding push_repair
  push_repair-IsBounded diagnosis files e b = record {
    files = b.files;
    repairs = length-take_last-le 24 (
        e.previous_repairs
        ++ record {
          generation = e.validation_generation;
          diagnosis = take 900 diagnosis;
          changed_files = first_distinct 16 files;
        }
          ∷ []);
    observations = b.observations;
  }

  act-IsBounded :
      (a : EpisodeAction Content) (s : EpisodeState Record)
      → IsBounded s.repair_episode
      → IsBounded (act a s).repair_episode
  unfolding act IsBounded
  act-IsBounded a s b = go a s.repair_episode refl b
    where
      go :
          (a : EpisodeAction Content) (o : Option (RepairEpisode Record))
          → s.repair_episode ≡ o
          → IsBounded o
          → IsBounded (act a s).repair_episode
      go (fail event files) none e c =
          rw (e, ensure_episode) (new-IsBounded (compact event 4200 1200) files s)
      go (fail event files) (some x) e c =
          rw (e, ensure_episode) (renew-IsBounded (compact event 4200 1200) files x c)
      go (support event) none e c = rw (e, add_support_observation, e) c
      go (support event) (some x) e c =
          elim (Bool-cases
            (not event.success || not (contains support_actions event.action_type))) [
              | inl skipped ↦ rw (e, add_support_observation, skipped, e) c
              | inr kept ↦
                  rw (e, add_support_observation, kept)
                    (archive-IsBounded (observation compact identity token event) x c)
            ]
      go (repair diagnosis files) none e c = rw (e, record_repair, e) c
      go (repair diagnosis files) (some x) e c =
          rw (e, record_repair) (push_repair-IsBounded diagnosis files x c)
      go clear o e c = tt

  -- Every sequence of failures, support observations, repairs and clearings keeps the lists of a
  -- bounded episode at 24 entries at most.
  pub act_all-IsBounded :
      (actions : List (EpisodeAction Content)) (s : EpisodeState Record)
      → IsBounded s.repair_episode
      → IsBounded (act_all actions s).repair_episode
  unfolding act_all
  act_all-IsBounded [] s b = b
  act_all-IsBounded (a ∷ later) s b = act_all-IsBounded later (act a s) (act-IsBounded a s b)
