-- ===== src/Semantics/Model.antt =====
-- verification/foam_semantics/model.py. A frozenset of names is a list. A trace step is a
-- constructor for each stage and outcome, and so is a reason.
use open_foam_agent.Prelude.{
  ℕ, Str, Bool, List, [], ◌∷◌, Option, Eq, listed_eq, nth, ◌≡◌, refl, nat_eq,
}

pub data FoamTokenKind : Type 0 where
  word string directive expansion unknown : FoamTokenKind

abbrev pub token_kind_index : FoamTokenKind → ℕ
token_kind_index word = 0
token_kind_index string = 1
token_kind_index directive = 2
token_kind_index expansion = 3
token_kind_index unknown = 4

abbrev pub token_kinds : List FoamTokenKind
token_kinds = word ∷ string ∷ directive ∷ expansion ∷ unknown ∷ []

pub token_kind_listed : (a : FoamTokenKind) → nth token_kinds (token_kind_index a) unknown ≡ a
token_kind_listed word = refl
token_kind_listed string = refl
token_kind_listed directive = refl
token_kind_listed expansion = refl
token_kind_listed unknown = refl

instance abbrev pub token_kind_eq : Eq FoamTokenKind
token_kind_eq = listed_eq token_kinds unknown token_kind_index token_kind_listed

pub data PatternState : Type 0 where
  literal pattern_ indeterminate : PatternState

abbrev pub pattern_state_index : PatternState → ℕ
pattern_state_index literal = 0
pattern_state_index pattern_ = 1
pattern_state_index indeterminate = 2

abbrev pub pattern_states : List PatternState
pattern_states = literal ∷ pattern_ ∷ indeterminate ∷ []

pub pattern_state_listed :
    (a : PatternState) → nth pattern_states (pattern_state_index a) literal ≡ a
pattern_state_listed literal = refl
pattern_state_listed pattern_ = refl
pattern_state_listed indeterminate = refl

instance abbrev pub pattern_state_eq : Eq PatternState
pattern_state_eq = listed_eq pattern_states literal pattern_state_index pattern_state_listed

pub data ResolutionStatus : Type 0 where
  resolved missing undetermined invalid : ResolutionStatus

pub data BoundaryMatchKind : Type 0 where
  exact group auto_empty regex unproven no_match : BoundaryMatchKind

pub record FoamKey : Type 0 where
  pub raw : Str
  pub value : Str
  pub token_kind : FoamTokenKind
  pub pattern_state : PatternState

pub record FoamEntry : Type 0 where
  pub key : FoamKey
  pub body : Str
  pub order : ℕ
  pub declared_type : Str

pub record FoamDictionary : Type 0 where
  pub entries : List FoamEntry
  pub complete : Bool

pub record MeshPatch : Type 0 where
  pub name : Str
  pub patch_type : Str
  pub groups : List Str
  pub order : ℕ

pub record BoundarySelector : Type 0 where
  pub key : FoamKey
  pub order : ℕ
  pub dictionary_body : Str
  pub field_type : Str

pub data ResolutionTraceStep : Type 0 where
  unresolved_step : List Str → ResolutionTraceStep
  exact_matched group_matched regex_matched : Str → ResolutionTraceStep
  exact_missed group_missed regex_missed : ResolutionTraceStep
  auto_empty_applies auto_empty_not_applicable : ResolutionTraceStep
  unsafe_step : List Str → ResolutionTraceStep
  nothing_covers : ResolutionTraceStep

pub data Reason : Type 0 where
  unresolved_selectors unsafe_patterns : List Str → Reason
  no_selector_matched : Reason

pub record BoundaryResolution : Type 0 where
  pub patch : MeshPatch
  pub status : ResolutionStatus
  pub match_kind : BoundaryMatchKind
  pub selector : Option BoundarySelector
  pub effective_field_type : Str
  pub proven : Bool
  pub trace : List ResolutionTraceStep
  pub reason : Option Reason
