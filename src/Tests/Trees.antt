-- ===== src/Tests/Trees.antt =====
-- The theorems on the tree, the range proof, the accumulators and padding at small inputs.
use ivc_checkpoints.Prelude.{ℕ, ◌^◌, ◌<◌, ◌≡◌, refl, ◌↔◌, true, false, List, [], ◌∷◌, arith}
use ivc_checkpoints.Imt
use ivc_checkpoints.Imt.{MerkleTree, root, leaf, siblings, index_bits, set_leaf, root_from_leaf}
use ivc_checkpoints.Imt.Consistent.{IsConsistent, new-IsConsistent, set_leaf-IsConsistent}
use ivc_checkpoints.Imt.Paths.{root_from_leaf-siblings, root-set_leaf}
use ivc_checkpoints.Imt.Binding.{opening}
use ivc_checkpoints.Ops.{
  OpWitness, OpWitnessVar, new_op_variable, new_variable, default_input, padding,
}
use ivc_checkpoints.Circuit.{State, step_op, run_ops, enforce_bit_width}
use ivc_checkpoints.Circuit.Range.{enforce_bit_width_iff}
use ivc_checkpoints.Circuit.Padding.{InRange, step_op_inactive, run_ops-default_input}
use ivc_checkpoints.Circuit.Accumulators.{
  fold_nets, withdrawals, fold_hashes, active_hashes, run_ops-folds,
}
use ivc_checkpoints.Prover.{chunk_loop, chunk_into_batches}
use ivc_checkpoints.Prover.Chunks.{
  flatten, padded, AllFull, chunk_into_batches-flatten, chunk_loop-chunk_into_batches,
}
use ivc_checkpoints.Tests.{toy, toy-IsField}
use ivc_checkpoints.Tests.Ledger.{program}

-- A tree of depth 3 with the leaf 99 at index 5.
abbrev sample : MerkleTree
sample = set_leaf toy (Imt.new toy 3) 5 99

set_leaf-IsConsistent_example : IsConsistent toy sample
set_leaf-IsConsistent_example =
    set_leaf-IsConsistent toy (Imt.new toy 3) 5 99 (new-IsConsistent toy 3)

root_from_leaf-siblings_example :
    root_from_leaf toy (leaf sample 5) (siblings sample 5) (index_bits sample 5) ≡ root sample
unfolding program
root_from_leaf-siblings_example =
    root_from_leaf-siblings toy sample 5
      (set_leaf-IsConsistent toy (Imt.new toy 3) 5 99 (new-IsConsistent toy 3)) (omega arith)

root-set_leaf_example :
    root (set_leaf toy sample 6 42)
    ≡ root_from_leaf toy 42 (siblings sample 6) (index_bits sample 6)
unfolding program
root-set_leaf_example =
    root-set_leaf toy sample 6 42
      (set_leaf-IsConsistent toy (Imt.new toy 3) 5 99 (new-IsConsistent toy 3)) (omega arith)

opening_example :
    (leaf sample 5 ≡ 99)
    × ((v : ℕ)
        → root_from_leaf toy v (siblings sample 5) (true ∷ false ∷ true ∷ [])
          ≡ root (set_leaf toy sample 5 v))
unfolding program root_from_leaf
opening_example =
    opening toy sample 99 (siblings sample 5) (true ∷ false ∷ true ∷ [])
      (set_leaf-IsConsistent toy (Imt.new toy 3) 5 99 (new-IsConsistent toy 3)) refl refl
      (λ _. refl, (λ _. refl, (λ _. refl, tt))) refl

enforce_bit_width_iff_example : (enforce_bit_width toy 1_000 96 ≡ true) ↔ (1_000 < 2 ^ 96)
enforce_bit_width_iff_example = enforce_bit_width_iff toy 1_000 96 toy-IsField (omega arith)

abbrev start : State
start = record { state_root = 1; ops_acc = 2; nets_acc = 3 }

-- An inactive operation with an amount that the range check refuses.
abbrev too_much : OpWitnessVar
too_much = new_op_variable toy 2 (record base { amount = 2 ^ 96; from_old_balance = 2 ^ 96 })
  where
    base : OpWitness
    base = padding 2

step_op_inactive_example :
    ((step_op toy too_much start).0 ≡ start)
    × (((step_op toy too_much start).1 ≡ true) ↔ InRange toy too_much)
unfolding program padding
step_op_inactive_example = step_op_inactive toy too_much start refl

-- Its step is not satisfied, although it is inactive.
step_op-too_much : (step_op toy too_much start).1 ≡ false
unfolding program padding
step_op-too_much = refl

run_ops-default_input_example :
    run_ops toy start (new_variable toy 2 4 (default_input 4 2)) ≡ (start, true)
run_ops-default_input_example = run_ops-default_input toy 4 2 start toy-IsField

abbrev withdraw_var : OpWitnessVar
withdraw_var =
    new_op_variable toy 2 (record base { active = true; kind = 2; from_key = 13; amount = 5 })
  where
    base : OpWitness
    base = padding 2

run_ops-folds_example :
    let ops = withdraw_var ∷ too_much ∷ [] in
    ((run_ops toy start ops).0.nets_acc ≡ fold_nets toy 3 (withdrawals toy ops))
    × ((run_ops toy start ops).0.ops_acc ≡ fold_hashes toy 2 (active_hashes toy ops))
run_ops-folds_example = run_ops-folds toy (withdraw_var ∷ too_much ∷ []) start

abbrev three : List OpWitness
three = padding 2 ∷ padding 2 ∷ padding 2 ∷ []

chunk_loop-chunk_into_batches_example : chunk_loop 2 2 9 three ≡ chunk_into_batches 2 2 three
chunk_loop-chunk_into_batches_example =
    chunk_loop-chunk_into_batches 2 2 9 three (omega arith) (omega arith)

chunk_into_batches-flatten_example :
    (k : ℕ) × (k < 2)
    × (flatten (chunk_into_batches 2 2 three) ≡ padded 2 2 three k)
    × AllFull 2 (chunk_into_batches 2 2 three)
chunk_into_batches-flatten_example = chunk_into_batches-flatten 2 2 three (omega arith)
