-- ===== src/Mesh/Dependencies/Chronology.antt =====
-- `register` keeps the history one that passes the test of a registry that is read back.
use open_foam_agent.Prelude.{
  ok_injective, ℕ, suc, ◌+◌, ◌≤◌, ◌<◌, Str, Bool, true, false, List, [], ◌∷◌, ◌++◌, all, ◌==◌,
  nat_eq, list_eq, eq_refl, ◌≡◌, refl, sym, ap, ◌∙◌, arith, Bool-cases, inl, inr, ok, length,
  length-append, ltb, leb, lt→ltb, >>=-eq-ok, ◌>>=◌, raise_if-ok, any, not, ◌&&◌, all-append,
}
use open_foam_agent.Native.Errors.{not_chronological}
use open_foam_agent.Mesh.Dependencies.Paths.{is_path, case_paths-of_all, sorted_set-is_path}
use open_foam_agent.Mesh.Dependencies.{
  Operation, new_operation, add_operation, parents_of, register, is_chronological, check_registry,
  out_of_order, case_paths, sorted_set,
}

all_parents_lt :
    (inputs : List Str) (start n : ℕ) (ops : List Operation)
    → is_chronological start ops ≡ true
    → start + length ops ≤ n
    → all (λ parent. ltb parent n) (parents_of inputs ops) ≡ true
unfolding is_chronological parents_of all
all_parents_lt inputs start n [] h le = refl
all_parents_lt inputs start n (op ∷ ops) h le =
    let same : op.id ≡ start = ground arith in
    let below : ltb op.id n ≡ true = rw same (ground (arith, lt→ltb start n)) in
    ground (arith, below, all_parents_lt inputs (suc start) n ops)

any-not_earlier :
    (index : ℕ) (parents : List ℕ)
    → any (λ parent. leb index parent) parents ≡ not (all (λ parent. ltb parent index) parents)
unfolding any all
any-not_earlier index [] = refl
any-not_earlier index (parent ∷ parents) = ground (arith, any-not_earlier index parents)

first_checked :
    (index : ℕ) (op : Operation) (ops : List Operation)
    → check_registry index (op ∷ ops) ≡ ok tt
    → (out_of_order index op ≡ false)
      × (checked : List Str) × (case_paths (op.inputs ++ op.outputs) ≡ ok checked)
      × (check_registry (suc index) ops ≡ ok tt)
unfolding check_registry
first_checked index op ops h =
    let (order, h1) =
      raise_if-ok (out_of_order index op) not_chronological
        (case_paths (op.inputs ++ op.outputs) >>= (λ checked. check_registry (suc index) ops)) h in
    let (checked, readable, h2) =
      >>=-eq-ok (case_paths (op.inputs ++ op.outputs)) (λ checked. check_registry (suc index) ops)
        h1 in
    (order, checked, readable, h2)

-- What passes the test of the registry is a chronological DAG.
pub check_registry-is_chronological :
    (index : ℕ) (ops : List Operation)
    → check_registry index ops ≡ ok tt
    → is_chronological index ops ≡ true
unfolding check_registry is_chronological
check_registry-is_chronological index [] h = refl
check_registry-is_chronological index (op ∷ ops) h =
    let (order, checked, readable, h2) = first_checked index op ops h in
    ground
      (arith, any-not_earlier index op.parents, check_registry-is_chronological (suc index) ops h2)

check_registry-append :
    (start : ℕ) (xs : List Operation) (op : Operation)
    → check_registry start xs ≡ ok tt
    → op.id ≡ start + length xs
    → all (λ parent. ltb parent op.id) op.parents ≡ true
    → all is_path (op.inputs ++ op.outputs) ≡ true
    → check_registry start (xs ++ op ∷ []) ≡ ok tt
unfolding check_registry
check_registry-append start [] op h e k paths =
    let same : op.id ≡ start = ground arith in
    let (checked, readable) = case_paths-of_all (op.inputs ++ op.outputs) paths in
    let earlier = any-not_earlier op.id op.parents in
    rw (← same, eq_refl op.id, earlier, k, readable) refl
check_registry-append start (x ∷ xs) op h e k paths =
    let (order, checked, readable, h2) = first_checked start x xs h in
    let later : op.id ≡ suc start + length xs = ground arith in
    rw (order, readable) (check_registry-append (suc start) xs op h2 later k paths)

add_operation-ok :
    (inputs outputs regions : List Str) (command : Str × List Str) (conservative : Bool)
    (before after : List Operation)
    → add_operation inputs outputs regions command conservative before ≡ ok after
    → (after ≡ before ++ new_operation inputs outputs regions command conservative before ∷ [])
      × (length before < 10000)
unfolding add_operation
add_operation-ok inputs outputs regions command conservative before after e =
    elim (Bool-cases (length outputs == 0)) [
      | inl empty ↦ absurd (cc (rw empty at e))
      | inr full ↦ elim (Bool-cases (leb 10000 (length before))) [
        | inl more ↦ absurd (cc (rw (full, more) at e))
        | inr less ↦ (sym (ok_injective (rw (full, less) at e)), ground arith)
      ]
    ]

-- Registering an operation in a history that passes the test of a registry that is read back gives
-- one that passes it, paths included, with one operation more, and ten thousand at most.
pub register-check_registry :
    (inputs outputs regions : List Str) (command : Str × List Str) (conservative : Bool)
    (before after : List Operation)
    → check_registry 0 before ≡ ok tt
    → register inputs outputs regions command conservative before ≡ ok after
    → (check_registry 0 after ≡ ok tt)
      × (length after ≡ suc (length before))
      × (length after ≤ 10000)
unfolding register
register-check_registry inputs outputs regions command conservative before after h e =
    let (ins, in_ok, e1) =
      >>=-eq-ok (case_paths inputs)
        (λ ins. case_paths outputs >>= (λ outs.
          add_operation (sorted_set ins) (sorted_set outs) regions command conservative before))
        e in
    let (outs, out_ok, e2) =
      >>=-eq-ok (case_paths outputs)
        (λ outs.
          add_operation (sorted_set ins) (sorted_set outs) regions command conservative before)
        e1 in
    let (same, room) =
      add_operation-ok (sorted_set ins) (sorted_set outs) regions command conservative before after
        e2 in
    let node =
      new_operation (sorted_set ins) (sorted_set outs) regions command conservative before in
    let longer : length after ≡ suc (length before) =
      ap length same ∙ length-append before (node ∷ []) ∙ plus_one (length before) in
    (
      ap (check_registry 0) same
          ∙ check_registry-append 0 before node h (sym (zero_plus (length before)))
              (all_parents_lt (sorted_set ins) 0 (length before) before
                (check_registry-is_chronological 0 before h) (ground arith))
              (all-append is_path (sorted_set ins) (sorted_set outs)
                ∙ ap2_and (sorted_set-is_path inputs in_ok) (sorted_set-is_path outputs out_ok)),
      longer,
      ground arith,
    )
  where
    plus_one : (n : ℕ) → n + 1 ≡ suc n
    plus_one n = omega arith

    zero_plus : (n : ℕ) → 0 + n ≡ n
    zero_plus n = omega arith

    ap2_and : {a b : Bool} → a ≡ true → b ≡ true → (a && b) ≡ true
    ap2_and h k = ground arith
