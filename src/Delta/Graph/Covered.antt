-- ===== src/Delta/Graph/Covered.antt =====
-- What a valid delta graph promises of the case that it leaves.
use open_foam_agent.Prelude.{
  is_empty, ok_injective, Str, Bool, true, false, not, ◌&&◌, ◌||◌, Option, none, some, List, [],
  ◌∷◌, ◌++◌, map, nat_eq, list_eq, Eq, ◌≡◌, refl, sym, ap, ◌∙◌, arith, Bool-cases, inl, inr,
  if◌then◌else◌, Result, ok, err, >>=-eq-ok, contains, contains-filter, contains-sort_by,
  contains-dedupe, dedupe, filter, append_nil_iff,
}
use open_foam_agent.Prelude.Dict.{or_else, Dict, keys, find, is_some, contains-find}
use open_foam_agent.Native.Errors.{ValueError}
use open_foam_agent.Native.Contracts.{Registry, str_le}
use open_foam_agent.Native.Scopes.{EngineeringPlan}
use open_foam_agent.Workspace.Errors.{WorkspaceError}
use open_foam_agent.Workspace.Preflight.{Workspace, Setup, validate_candidate_bundle}
use open_foam_agent.Delta.Failures.{
  DeltaFailure, DeltaWarning, unsafe, invalid, refused, ordering, delta_failure_eq,
}
use open_foam_agent.Delta.Edits.{
  Edit, Reading, Delta, committed_view, edit_view, active_drops, drop_warnings,
}
use open_foam_agent.Delta.Edits.Effective.{edit_view_lem}
use open_foam_agent.Delta.Graph.{
  CaseDeltaGraph, Hints, valid, lift, sorted_set, missing_failures, header_failures, delta_strategy,
  scopes_or_empty, affected_mesh_scope_keys, with_checks, ordered_pipeline, assemble,
  compile_case_delta_graph,
}

contains-sorted_set :
    (items : List Str) (a : Str) → contains (sorted_set items) a ≡ contains items a
unfolding sorted_set
contains-sorted_set items a = contains-sort_by str_le (dedupe items) a ∙ contains-dedupe items a

nil_of_dedupe {ℓ} : {A : Type ℓ} ⦃e : Eq A⦄ (xs : List A) → dedupe xs ≡ [] → xs ≡ []
unfolding dedupe contains
nil_of_dedupe [] h = refl
nil_of_dedupe (x ∷ xs) h = cc

nil_of_valid : (graph : CaseDeltaGraph) → valid graph ≡ true → graph.failures ≡ []
unfolding valid
nil_of_valid graph h = empty graph.failures h
  where
    empty : (xs : List DeltaFailure) → is_empty xs ≡ true → xs ≡ []
    empty [] h' = refl
    empty (x ∷ xs) h' = cc

lift-ok {ℓ} :
    {A : Type ℓ} {E F : Type 0} (f : E → F) (r : Result E A) {a : A} → lift f r ≡ ok a → r ≡ ok a
lift-ok f (ok b) h = ground (arith, h)
lift-ok f (err e) h = cc

module _ (registry : Registry) (dependencies : Str → Result ValueError (List Str)) where
  -- The fields of an assembled graph that its edits settle.
  record Assembled (plan : EngineeringPlan) (drops : List Str) (edit : Edit)
      (content : List DeltaFailure) (graph : CaseDeltaGraph) : Type 0 where
    changed : graph.changed_files ≡ edit.changed
    dropped : graph.drop_paths ≡ drops
    effective : graph.effective_paths ≡ sorted_set (keys edit.effective)
    failing :
        (rest : List DeltaFailure) × (graph.failures
          ≡ dedupe (
              edit.failures
              ++ (missing_failures (
                    filter
                      (λ path. not (contains (keys edit.effective) path))
                      plan.required_case_files)
                  ++ (content ++ rest))))

  assemble-Assembled :
      (plan : EngineeringPlan) (hints : Hints) (drops : List Str) (edit : Edit)
      (content : List DeltaFailure) (warnings : List DeltaWarning) {graph : CaseDeltaGraph}
      → assemble registry dependencies plan hints drops edit content warnings ≡ ok graph
      → Assembled plan drops edit content graph
  unfolding assemble
  assemble-Assembled plan hints drops edit content warnings {graph} h =
      let dirty = keys edit.changed ++ drops in
      let (strategy, chosen, h1) =
        >>=-eq-ok (delta_strategy registry plan hints (keys edit.effective) dirty) _ h in
      let scopes =
        scopes_or_empty
          (affected_mesh_scope_keys registry dependencies plan dirty strategy.commands) in
      let (commands, checked, h2) =
        >>=-eq-ok (with_checks registry plan scopes.0 strategy.commands) _ h1 in
      let cycles = (ordered_pipeline registry plan commands).1 in
      let e = sym (ok_injective h2) in
      record {
        changed = ap (λ (g : CaseDeltaGraph). g.changed_files) e;
        dropped = ap (λ (g : CaseDeltaGraph). g.drop_paths) e;
        effective = ap (λ (g : CaseDeltaGraph). g.effective_paths) e;
        failing = (
          strategy.failures ++ (scopes.1 ++ map ordering cycles),
          ap (λ (g : CaseDeltaGraph). g.failures) e,
        );
      }

  module _ (setup : Setup) (reading : Reading) (check : Str → Str → Option Str → List Str)
      (w : Workspace) (plan : EngineeringPlan) (delta : Delta) (hints : Hints)
      {graph : CaseDeltaGraph}
      (compiled : compile_case_delta_graph registry dependencies setup reading check w plan delta
          hints
        ≡ ok graph) where
    -- The stages of a compilation that returns.
    record Compiled : Type 0 where
      seen : Dict Str Str × List DeltaFailure
      read : committed_view setup reading w plan.required_case_files ≡ ok seen
      bundle : List WorkspaceError
      checked :
          validate_candidate_bundle setup w
            (edit_view seen delta).changed
            (active_drops seen.0 delta.drop_paths)
          ≡ ok bundle
      assembled :
          Assembled plan
            (active_drops seen.0 delta.drop_paths)
            (edit_view seen delta)
            (map refused bundle
              ++ header_failures check hints.validate_pre_solve (edit_view seen delta).changed)
            graph

    stages : Compiled
    unfolding compile_case_delta_graph
    stages =
        let (seen, read, h1) =
          >>=-eq-ok (lift unsafe (committed_view setup reading w plan.required_case_files)) _
            compiled in
        let drops = active_drops seen.0 delta.drop_paths in
        let edit = edit_view seen delta in
        let (bundle, checked, h2) =
          >>=-eq-ok (lift unsafe (validate_candidate_bundle setup w edit.changed drops)) _ h1 in
        let content =
          map refused bundle ++ header_failures check hints.validate_pre_solve edit.changed in
        let warnings = drop_warnings seen.0 delta.drop_paths in
        record {
          seen = seen;
          read = lift-ok unsafe _ read;
          bundle = bundle;
          checked = lift-ok unsafe _ checked;
          assembled = assemble-Assembled plan hints drops edit content warnings (
              lift-ok invalid
                (assemble registry dependencies plan hints drops edit content warnings) h2);
        }

    -- What a graph promises, over the committed files.
    pub record Covers (view : Dict Str Str) : Type 0 where
      pub required :
          (path : Str)
          → contains plan.required_case_files path ≡ true
          → contains graph.effective_paths path ≡ true
      pub effective :
          (path : Str)
          → contains graph.effective_paths path ≡ (
              contains (keys graph.changed_files) path
              || (contains (keys view) path && not (contains graph.drop_paths path)))
      pub disjoint :
          (path : Str)
          → contains graph.drop_paths path ≡ true
          → contains (keys graph.changed_files) path ≡ false
      pub accepted : validate_candidate_bundle setup w graph.changed_files graph.drop_paths ≡ ok []

    module _ (s : Compiled) (fine : valid graph ≡ true) where
      abbrev edit : Edit
      edit = edit_view s.seen delta

      abbrev drops : List Str
      drops = active_drops s.seen.0 delta.drop_paths

      abbrev missing : List Str
      missing = filter (λ path. not (contains (keys edit.effective) path)) plan.required_case_files

      -- Every group of failures is empty.
      quiet : (edit.failures ≡ []) × (missing_failures missing ≡ []) × (map refused s.bundle ≡ [])
      quiet =
          let (rest, same) = s.assembled.failing in
          let none_left = nil_of_dedupe _ (sym same ∙ nil_of_valid graph fine) in
          let (edits, later) = (append_nil_iff edit.failures _).0 none_left in
          let (whole, later') = (append_nil_iff (missing_failures missing) _).0 later in
          let content = ((append_nil_iff _ rest).0 later').0 in
          (edits, whole, ((append_nil_iff (map refused s.bundle) _).0 content).0)

      none_missing : missing ≡ []
      unfolding missing_failures
      none_missing = empty missing quiet.1
        where
          empty : (paths : List Str) → missing_failures paths ≡ [] → paths ≡ []
          empty [] h = refl
          empty (p ∷ ps) h = cc

      no_refusal : s.bundle ≡ []
      no_refusal = empty s.bundle quiet.2
        where
          empty : (es : List WorkspaceError) → map refused es ≡ [] → es ≡ []
          empty [] h = refl
          empty (e ∷ es) h = cc

      there :
          (path : Str) → contains graph.effective_paths path ≡ contains (keys edit.effective) path
      there path =
          ap (λ paths. contains paths path) s.assembled.effective
          ∙ contains-sorted_set (keys edit.effective) path

      merged :
          (changed old : Option Str) (dropped : Bool)
          → is_some (or_else changed (if dropped then none else old))
            ≡ (is_some changed || (is_some old && not dropped))
      merged (some a) old dropped = ground arith
      merged none none dropped = ground arith
      merged none (some a) dropped = ground arith

      covers : Covers s.seen.0
      unfolding contains
      covers = record {
        required = λ path m. elim (Bool-cases (contains (keys edit.effective) path)) [
          | inl here ↦ there path ∙ here
          | inr gone ↦
              let listed =
                contains-filter (λ p. not (contains (keys edit.effective) p))
                  plan.required_case_files path in
              absurd (cc (ap (λ paths. contains paths path) none_missing, listed, gone, m))
        ];
        effective = λ path.
            there path
            ∙ contains-find edit.effective path
            ∙ ap is_some (edit_view_lem s.seen.0 s.seen.1 delta path).0
            ∙ merged (find path edit.changed) (find path s.seen.0) (contains drops path)
            ∙ back path;
        disjoint = λ path m.
            ap (λ (d : Dict Str Str). contains (keys d) path) s.assembled.changed
            ∙ (edit_view_lem s.seen.0 s.seen.1 delta path).1 quiet.0
                (sym (ap (λ paths. contains paths path) s.assembled.dropped) ∙ m);
        accepted = rw (s.assembled.changed, s.assembled.dropped) (s.checked ∙ ap ok no_refusal);
      }
        where
          back :
              (path : Str)
              → (is_some (find path edit.changed)
                  || (is_some (find path s.seen.0) && not (contains drops path)))
                ≡ (contains (keys graph.changed_files) path
                    || (contains (keys s.seen.0) path && not (contains graph.drop_paths path)))
          back path =
              rw
                (
                  s.assembled.changed,
                  s.assembled.dropped,
                  contains-find edit.changed path,
                  contains-find s.seen.0 path,
                )
                refl

    -- A valid graph, over the committed files that the compiler reads: its effective paths hold
    -- every required path, they are the changed paths and the committed ones that are not dropped,
    -- no dropped path is changed, and the workspace accepts the changes and the drops.
    pub compile_case_delta_graph-Covers :
        valid graph ≡ true
        → (seen : Dict Str Str × List DeltaFailure) × (committed_view setup reading w
              plan.required_case_files
            ≡ ok seen)
          × Covers seen.0
    compile_case_delta_graph-Covers fine = (stages.seen, stages.read, covers stages fine)
