-- ===== src/Prover.antt =====
-- crates/prover/src/lib.rs: chunking the operations of an epoch into batches, the constant-step
-- padding of crates/prover/src/workload.rs, and the fold of `prove_epoch`.
pub mod Chunks
pub mod Fold
pub mod Workload
pub mod Epoch
use ivc_checkpoints.Prelude.{
  ℕ, zero, suc, ◌+◌, ◌-◌, ◌≡◌, ◌↔◌, true, List, [], ◌∷◌, ◌++◌, Option, none, some, leb,
  if◌then◌else◌, length, replicate,
}
use ivc_checkpoints.Field.{Arkworks}
use ivc_checkpoints.Ops.{
  OpWitness, OpWitnessVar, EpochStepInput, padding, default_input, new_variable,
}
use ivc_checkpoints.Circuit.{generate_step_constraints}

module _ (B D : ℕ) where
  -- The inner loop of `chunk_into_batches`: `n` pulls from the iterator, padded at its end.
  unfoldable pub next_batch : ℕ → List OpWitness → EpochStepInput × List OpWitness
  next_batch zero it = ([], it)
  next_batch (suc n) [] = let (arr, rest) = next_batch n [] in (padding D ∷ arr, rest)
  next_batch (suc n) (op ∷ it) = let (arr, rest) = next_batch n it in (op ∷ arr, rest)

  -- The loop `while it.peek().is_some()`, on fuel.
  unfoldable pub chunk_loop : ℕ → List OpWitness → List EpochStepInput
  chunk_loop zero it = []
  chunk_loop (suc fuel) [] = []
  chunk_loop (suc fuel) (op ∷ it) =
      let (arr, rest) = next_batch B (op ∷ it) in arr ∷ chunk_loop fuel rest

  -- Each round takes an operation, so that their number is fuel enough.
  unfoldable pub chunk_into_batches : List OpWitness → List EpochStepInput
  chunk_into_batches ops = chunk_loop (length ops) ops

  -- `pad_to_steps` of `build`: the loop that pushes inactive steps runs `target - len` times.
  unfoldable pub pad_to_steps : Option ℕ → List EpochStepInput → Option (List EpochStepInput)
  pad_to_steps none batches = some batches
  pad_to_steps (some target) batches =
      if leb (length batches) target
      then some (batches ++ replicate (target - length batches) (default_input B D))
      else none

-- What the code uses of the Nova library: one folding step from a state on the allocated inputs
-- of a batch, with the next state, or `none` for an error.
pub record Nova : Type 0 where
  pub prove_step : List ℕ → List OpWitnessVar → Option (List ℕ)

-- Its documented behaviour: it folds a satisfied instance of the step circuit.
abbrev pub IsNova : Arkworks → ℕ → Nova → Type 0
IsNova F B nova =
    (z z' : List ℕ) (ops : List OpWitnessVar)
    → generate_step_constraints F B z ops ≡ some (z', true)
    → nova.prove_step z ops ≡ some z'

-- The fold loop of `prove_epoch`, with the number of steps, `fold_times_ms.len()`.
unfoldable pub fold : Nova → Arkworks → ℕ → ℕ → List ℕ → List EpochStepInput → Option (List ℕ × ℕ)
fold nova F B D z [] = some (z, 0)
fold nova F B D z (batch ∷ batches) = elim (nova.prove_step z (new_variable F D B batch)) [
  | none ↦ none
  | some z' ↦ elim (fold nova F B D z' batches) [
    | none ↦ none
    | some (zn, steps) ↦ some (zn, suc steps)
  ]
]
