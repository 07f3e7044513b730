-- ===== src/Workflow/Episode.antt =====
-- engineering/phases/repair_episode.py. The compaction of an event and the JSON texts of a record
-- are arguments; the types of events and of compacted records are the caller's. The state is its
-- episode and the two counts that an episode's number is made of.
pub mod Bounded
pub mod Continuity
use open_foam_agent.Prelude.{
  ℕ, zero, suc, ◌+◌, Str, codes, Bool, true, false, not, ◌&&◌, ◌||◌, Option, none, some, List, [],
  ◌∷◌, ◌++◌, map, ◌==◌, nat_eq, list_eq, list_beq, Eq, if◌then◌else◌, contains, take, take_last,
  dedupe,
}

pub record Repair : Type 0 where
  pub generation : ℕ
  pub diagnosis : Str
  pub changed_files : List Str

pub record RepairEpisode (Record : Type 0) : Type 0 where
  pub episode_number : ℕ
  pub root_failure : Record
  pub current_failure : Record
  pub current_implicated_files : List Str
  pub previous_repairs : List Repair
  pub supporting_observations : List Record
  pub validation_generation : ℕ

pub record EngineeringEvent (Content : Type 0) : Type 0 where
  pub action_type : Str
  pub success : Bool
  pub content : Content

pub record EpisodeState (Record : Type 0) : Type 0 where
  pub repair_episode : Option (RepairEpisode Record)
  pub secondary_count : ℕ
  pub event_count : ℕ

unfoldable pub reference_support_actions : List Str
reference_support_actions =
    codes "read_reference"
    ∷ codes "search_references"
    ∷ codes "search_capabilities"
    ∷ codes "gather_evidence"
    ∷ []

unfoldable pub support_actions : List Str
support_actions =
    codes "read_case_file"
    ∷ codes "read_reference"
    ∷ codes "search_references"
    ∷ codes "search_capabilities"
    ∷ codes "gather_evidence"
    ∷ codes "inspect_environment"
    ∷ codes "list_case_files"
    ∷ []

-- `list(dict.fromkeys(files))[:n]`
unfoldable pub first_distinct : ℕ → List Str → List Str
unfolding take dedupe list_beq
first_distinct n files = take n (dedupe files)

module _ {Record : Type 0} where
  unfoldable pub clear_episode : EpisodeState Record → EpisodeState Record
  clear_episode s = record s { repair_episode = none }

  -- The 24 repairs that are kept.
  unfoldable pub push_repair : Str → List Str → RepairEpisode Record → RepairEpisode Record
  unfolding take take_last first_distinct
  push_repair diagnosis files episode = record episode {
    previous_repairs = take_last 24 (
        episode.previous_repairs
        ++ record {
          generation = episode.validation_generation;
          diagnosis = take 900 diagnosis;
          changed_files = first_distinct 16 files;
        }
          ∷ []);
  }

  unfoldable pub record_repair : Str → List Str → EpisodeState Record → EpisodeState Record
  unfolding push_repair
  record_repair diagnosis files s = elim s.repair_episode [
    | none ↦ s
    | some episode ↦ record s { repair_episode = some (push_repair diagnosis files episode) }
  ]

module _ {Record Content : Type 0} where
  module _ (compact : EngineeringEvent Content → ℕ → ℕ → Record)
      (identity token : Record → Str) where
    unfoldable pub new_episode : Record → List Str → EpisodeState Record → RepairEpisode Record
    unfolding first_distinct
    new_episode failure files s = record {
      episode_number = s.secondary_count + s.event_count + 1;
      root_failure = failure;
      current_failure = failure;
      current_implicated_files = first_distinct 24 files;
      previous_repairs = [];
      supporting_observations = [];
      validation_generation = 1;
    }

    -- A new failure replaces the current one and opens a generation.
    unfoldable pub renew : Record → List Str → RepairEpisode Record → RepairEpisode Record
    unfolding first_distinct take_last
    renew failure files episode =
        let renewed : RepairEpisode Record = record episode {
          previous_repairs = take_last 24 episode.previous_repairs;
          current_failure = failure;
          validation_generation = episode.validation_generation + 1;
        } in
        record (if identity episode.current_failure == identity failure then episode else renewed) {
          current_implicated_files = first_distinct 24 files;
        }

    unfoldable pub ensure_episode :
        EngineeringEvent Content → List Str → EpisodeState Record → EpisodeState Record
    unfolding new_episode renew
    ensure_episode failure files s = elim s.repair_episode [
      | none ↦ record s { repair_episode = some (new_episode (compact failure 4200 1200) files s) }
      | some episode ↦ record s {
        repair_episode = some (renew (compact failure 4200 1200) files episode);
      }
    ]

    -- The observation as it is archived: a reference search is cut shorter.
    unfoldable pub observation : EngineeringEvent Content → Record
    unfolding contains reference_support_actions list_beq
    observation event =
        if contains reference_support_actions event.action_type
        then compact event 700 280
        else compact event 1000 400

    unfoldable pub archive : Record → RepairEpisode Record → RepairEpisode Record
    unfolding take_last contains
    archive item episode =
        let existing = map token (take_last 24 episode.supporting_observations) in
        record episode {
          supporting_observations = take_last 24 (
              if contains existing (token item)
              then episode.supporting_observations
              else episode.supporting_observations ++ item ∷ []);
        }

    unfoldable pub add_support_observation :
        EngineeringEvent Content → EpisodeState Record → EpisodeState Record
    unfolding archive observation contains support_actions list_beq
    add_support_observation event s = elim s.repair_episode [
      | none ↦ s
      | some episode ↦
          if not event.success || not (contains support_actions event.action_type)
          then s
          else record s { repair_episode = some (archive (observation event) episode) }
    ]
