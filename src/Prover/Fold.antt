-- ===== src/Prover/Fold.antt =====
-- The fold of an epoch ends at the executor's state: the check `art.zn == wl.native_zn` of the
-- command-line prover and of the benchmark passes.
use ivc_checkpoints.Prelude.Results.{ok}
use ivc_checkpoints.Prelude.{
  ℕ, zero, suc, ◌<◌, ◌≡◌, refl, ap, ap₂, ◌∙◌, true, List, [], ◌∷◌, ◌++◌, length, map, arith, some,
  get_or, range_from, &&-both, ==_refl,
}
use ivc_checkpoints.Field.{Arkworks, IsField}
use ivc_checkpoints.Ops.{
  OpWitness, OpWitnessVar, EpochStepInput, padding, new_op_variable, new_variable,
}
use ivc_checkpoints.Ops.Arrays.{copy_all}
use ivc_checkpoints.Circuit.{State, step_op, run_ops, generate_step_constraints}
use ivc_checkpoints.Circuit.Batch.{run_ops-cons}
use ivc_checkpoints.Circuit.Padding.{step_op-padding}
use ivc_checkpoints.Native.{EpochExecutor, Request, run, state}
use ivc_checkpoints.Native.Complete.{state_of}
use ivc_checkpoints.Native.Epoch.{IsReady, run-run_ops}
use ivc_checkpoints.Prover.{Nova, IsNova, fold, chunk_into_batches, pad_to_steps}
use ivc_checkpoints.Prover.Chunks.{
  flatten, AllFull, padded, chunk_into_batches-flatten, pad_to_steps-flatten,
}

-- `z` as a vector.
abbrev pub values : State → List ℕ
values z = z.state_root ∷ z.ops_acc ∷ z.nets_acc ∷ []

module _ (F : Arkworks) (B D : ℕ) where
  map_copy :
      (ops : List OpWitness) (is : List ℕ) (d : OpWitness)
      → map (λ i. new_op_variable F D (get_or ops i d)) is
        ≡ map (new_op_variable F D) (map (λ i. get_or ops i d) is)
  map_copy ops [] d = refl
  map_copy ops (i ∷ is) d = ap₂ ◌∷◌ refl (map_copy ops is d)

  pub new_variable-map :
      (ops : List OpWitness)
      → length ops ≡ B
      → new_variable F D B ops ≡ map (new_op_variable F D) ops
  unfolding new_variable
  new_variable-map ops e =
      map_copy ops (range_from 0 B) (padding D)
      ∙ ap (map (new_op_variable F D)) (copy_all B ops (padding D) e)

  length-map_var : (ops : List OpWitness) → length (map (new_op_variable F D) ops) ≡ length ops
  length-map_var [] = refl
  length-map_var (op ∷ ops) = ap suc (length-map_var ops)

  generate_values :
      (z z' : State) (batch : List OpWitness)
      → length batch ≡ B
      → run_ops F z (map (new_op_variable F D) batch) ≡ (z', true)
      → generate_step_constraints F B (values z) (new_variable F D B batch) ≡ some (values z', true)
  unfolding generate_step_constraints
  generate_values z z' batch e h =
      rw (new_variable-map batch e, h, length-map_var batch, e, ==_refl B)

  run_ops-uncons :
      (op : OpWitnessVar) (ops : List OpWitnessVar) (z z'' : State)
      → run_ops F z (op ∷ ops) ≡ (z'', true)
      → (z' : State) × (step_op F op z ≡ (z', true)) × (run_ops F z' ops ≡ (z'', true))
  unfolding run_ops
  run_ops-uncons op ops z z'' h =
      let (first, rest) =
        &&-both (step_op F op z).1 (run_ops F (step_op F op z).0 ops).1 (ap (λ r. r.1) h) in
      (
        (step_op F op z).0,
        ap (λ b. ((step_op F op z).0, b)) first,
        ap₂ (λ a b. (a, b)) (ap (λ r. r.0) h) rest,
      )

  -- A satisfied run over two lists in a row is one over each.
  run_ops-append :
      (xs ys : List OpWitness) (z z'' : State)
      → run_ops F z (map (new_op_variable F D) (xs ++ ys)) ≡ (z'', true)
      → (z' : State) × (run_ops F z (map (new_op_variable F D) xs) ≡ (z', true))
        × (run_ops F z' (map (new_op_variable F D) ys) ≡ (z'', true))
  run_ops-append [] ys z z'' h = (z, unfold run_ops in refl, h)
  run_ops-append (x ∷ xs) ys z z'' h =
      let (z₁, first, rest) = run_ops-uncons _ _ z z'' h in
      let (z', e, e') = run_ops-append xs ys z₁ z'' rest in
      (z', run_ops-cons F _ _ z z₁ z' first e, e')

  run_ops-padded :
      (ops : List OpWitness) (k : ℕ) (z z' : State)
      → IsField F
      → run_ops F z (map (new_op_variable F D) ops) ≡ (z', true)
      → run_ops F z (map (new_op_variable F D) (padded B D ops k)) ≡ (z', true)
  run_ops-padded [] zero z z' v h = h
  run_ops-padded [] (suc k) z z' v h =
      run_ops-cons F _ _ z z z' (step_op-padding F D z v) (run_ops-padded [] k z z' v h)
  run_ops-padded (op ∷ ops) k z z' v h =
      let (z₁, first, rest) = run_ops-uncons _ _ z z' h in
      run_ops-cons F _ _ z z₁ z' first (run_ops-padded ops k z₁ z' v rest)

  module _ (nova : Nova) (laws : IsNova F B nova) where
    fold-cons :
        (z z' zn : List ℕ) (steps : ℕ) (b : EpochStepInput) (bs : List EpochStepInput)
        → nova.prove_step z (new_variable F D B b) ≡ some z'
        → fold nova F B D z' bs ≡ some (zn, steps)
        → fold nova F B D z (b ∷ bs) ≡ some (zn, suc steps)
    unfolding fold
    fold-cons z z' zn steps b bs e h = ground arith

    -- Folding full batches whose operations, taken together, satisfy the circuit.
    fold-run_ops :
        (bs : List EpochStepInput) (z z' : State)
        → AllFull B bs
        → run_ops F z (map (new_op_variable F D) (flatten bs)) ≡ (z', true)
        → fold nova F B D (values z) bs ≡ some (values z', length bs)
    fold-run_ops [] z z' full h = unfold run_ops fold in ap (λ r. some (values r.0, 0)) h
    fold-run_ops (b ∷ bs) z z' full h =
        let (z₁, e, e') = run_ops-append b (flatten bs) z z' h in
        fold-cons (values z) (values z₁) (values z') (length bs) b bs
          (laws (values z) (values z₁) (new_variable F D B b) (generate_values z z₁ b full.0 e))
          (fold-run_ops bs z₁ z' full.1 e')

    -- An epoch of calls on a ready executor, chunked into batches: the fold runs through, takes
    -- one step for each batch, and ends at the executor's final state.
    pub fold-run :
        (rs : List Request) (x x' : EpochExecutor) (ws : List OpWitness)
        → IsField F
        → 0 < B
        → IsReady F D x rs
        → run F x rs ≡ ok (x', ws)
        → fold nova F B D (state x) (chunk_into_batches B D ws)
          ≡ some (state x', length (chunk_into_batches B D ws))
    unfolding state
    fold-run rs x x' ws v pos c h =
        let (k, _, e, full) = chunk_into_batches-flatten B D ws pos in
        let (_, satisfied) = run-run_ops F D v rs x x' ws c h in
        fold-run_ops (chunk_into_batches B D ws) (state_of x) (state_of x') full (
          ap (λ ops. run_ops F (state_of x) (map (new_op_variable F D) ops)) e
          ∙ run_ops-padded ws k (state_of x) (state_of x') v satisfied)

    -- The same epoch padded to a number of steps takes that number, whatever the operations,
    -- and ends at the same state.
    pub fold-pad_to_steps :
        (rs : List Request) (x x' : EpochExecutor) (ws : List OpWitness) (target : ℕ)
        (out : List EpochStepInput)
        → IsField F
        → 0 < B
        → IsReady F D x rs
        → run F x rs ≡ ok (x', ws)
        → pad_to_steps B D (some target) (chunk_into_batches B D ws) ≡ some out
        → fold nova F B D (state x) out ≡ some (state x', target)
    unfolding state
    fold-pad_to_steps rs x x' ws target out v pos c h p =
        let (k, _, e, full) = chunk_into_batches-flatten B D ws pos in
        let (len, full', (j, e')) =
          pad_to_steps-flatten B D target ws k (chunk_into_batches B D ws) out full e p in
        let (_, satisfied) = run-run_ops F D v rs x x' ws c h in
        fold-run_ops out (state_of x) (state_of x') full' (
          ap (λ ops. run_ops F (state_of x) (map (new_op_variable F D) ops)) e'
          ∙ run_ops-padded ws j (state_of x) (state_of x') v satisfied)
        ∙ ap (λ n. some (values (state_of x'), n)) len
