-- ===== src/Tests/Epochs.antt =====
-- The theorems on whole epochs, and on their operations, at the test ledger.
use ivc_checkpoints.Prelude.Results.{ok}
use ivc_checkpoints.Prelude.{
  ℕ, ◌≡◌, refl, ◌↔◌, Bool, true, false, List, [], ◌∷◌, arith, Option, none, some, length, inl, inr,
}
use ivc_checkpoints.Prelude.Dict.{total}
use ivc_checkpoints.Imt.{root}
use ivc_checkpoints.Ops.{OpWitness, OpWitnessVar, EpochStepInput, new_op_variable, load, padding}
use ivc_checkpoints.Circuit.{step_op, run_ops, generate_step_constraints}
use ivc_checkpoints.Circuit.Ledger.{
  AllTransfers, IsTransfer, IsBound, IsAllocated, applied_all, credited,
}
use ivc_checkpoints.Circuit.Batch.{run_ops-AllTransfers}
use ivc_checkpoints.Circuit.Sound.{step_op-IsTransfer}
use ivc_checkpoints.Native.{EpochExecutor, register, apply, run, state}
use ivc_checkpoints.Native.Valid.{IsValid, register-IsValid}
use ivc_checkpoints.Native.Applied.{total-apply, apply-IsValid}
use ivc_checkpoints.Native.Complete.{state_of, apply-step_op}
use ivc_checkpoints.Prover.{
  Nova, IsNova, fold, next_batch, chunk_loop, chunk_into_batches, pad_to_steps,
}
use ivc_checkpoints.Prover.Fold.{fold-run, fold-pad_to_steps}
use ivc_checkpoints.Tests.{toy, toy-IsField}
use ivc_checkpoints.Tests.Ledger.{
  program, value_or, genesis, genesis-IsValid, genesis-IsReady, calls, pool, account,
}

-- A folding library that runs the step circuit and nothing else.
abbrev pub accept : Option (List ℕ × Bool) → Option (List ℕ)
accept none = none
accept (some (z, true)) = some z
accept (some (z, false)) = none

abbrev pub toy_nova : ℕ → Nova
toy_nova B = record { prove_step = λ z ops. accept (generate_step_constraints toy B z ops) }

pub accept_iff :
    (o : Option (List ℕ × Bool)) (z : List ℕ) → (o ≡ some (z, true)) ↔ (accept o ≡ some z)
accept_iff none z = (λ h. cc, λ h. cc)
accept_iff (some (y, true)) z = (λ h. cc, λ h. cc)
accept_iff (some (y, false)) z = (λ h. cc, λ h. cc)

pub toy_nova-IsNova : (B : ℕ) → IsNova toy B (toy_nova B)
toy_nova-IsNova B z z' ops = (accept_iff (generate_step_constraints toy B z ops) z').0

abbrev pub final : EpochExecutor × List OpWitness
final = value_or (run toy genesis calls) (genesis, [])

pub final-run : run toy genesis calls ≡ ok final
unfolding program
final-run = refl

fold-run_example :
    fold (toy_nova 2) toy 2 2 (state genesis) (chunk_into_batches 2 2 final.1)
    ≡ some (state final.0, length (chunk_into_batches 2 2 final.1))
fold-run_example =
    fold-run toy 2 2 (toy_nova 2) (toy_nova-IsNova 2) calls genesis final.0 final.1 toy-IsField
      (omega arith) genesis-IsReady final-run

abbrev unwrap {ℓ} : {A : Type ℓ} → Option A → A → A
unwrap none d = d
unwrap (some a) d = a

abbrev five_steps : List EpochStepInput
five_steps = unwrap (pad_to_steps 2 2 (some 5) (chunk_into_batches 2 2 final.1)) []

five_steps_lem : pad_to_steps 2 2 (some 5) (chunk_into_batches 2 2 final.1) ≡ some five_steps
unfolding program pad_to_steps chunk_into_batches chunk_loop next_batch
five_steps_lem = refl

fold-pad_to_steps_example :
    fold (toy_nova 2) toy 2 2 (state genesis) five_steps ≡ some (state final.0, 5)
fold-pad_to_steps_example =
    fold-pad_to_steps toy 2 2 (toy_nova 2) (toy_nova-IsNova 2) calls genesis final.0 final.1 5
      five_steps toy-IsField (omega arith) genesis-IsReady final-run five_steps_lem

-- The first operation of the epoch, with one of padding behind it.
abbrev loaded : EpochExecutor × OpWitness
loaded = value_or (apply toy genesis load pool account 1 500) (genesis, padding 2)

loaded-apply : apply toy genesis load pool account 1 500 ≡ ok (loaded.0, loaded.1)
unfolding program
loaded-apply = refl

abbrev load_var : OpWitnessVar
load_var = new_op_variable toy 2 loaded.1

abbrev padding_var : OpWitnessVar
padding_var = new_op_variable toy 2 (padding 2)

load-IsAllocated : IsAllocated toy 2 load_var
unfolding program
load-IsAllocated = record {
  from_bits = refl;
  from_sibs = refl;
  to_bits = refl;
  to_sibs = refl;
  amount_lt = omega arith;
  balance_lt = omega arith;
  to_balance_lt = omega arith;
}

padding-IsAllocated : IsAllocated toy 2 padding_var
unfolding program padding
padding-IsAllocated = record {
  from_bits = refl;
  from_sibs = refl;
  to_bits = refl;
  to_sibs = refl;
  amount_lt = omega arith;
  balance_lt = omega arith;
  to_balance_lt = omega arith;
}

load-IsBound : IsBound toy genesis.tree load_var
unfolding program
load-IsBound = record {
  from_path = (λ _. refl, (λ _. refl, tt));
  to_path = (λ _. refl, (λ _. refl, tt));
}

step_op-IsTransfer_example :
    IsTransfer toy genesis.tree load_var
    × ((step_op toy load_var (state_of genesis)).0.state_root
        ≡ root (credited toy genesis.tree load_var))
unfolding program
step_op-IsTransfer_example =
    step_op-IsTransfer toy genesis.tree load_var (state_of genesis) toy-IsField load-IsAllocated
      genesis-IsValid.consistent load-IsBound refl refl refl

run_ops-AllTransfers_example :
    AllTransfers toy genesis.tree (load_var ∷ padding_var ∷ [])
    × ((run_ops toy (state_of genesis) (load_var ∷ padding_var ∷ [])).0.state_root
        ≡ root (applied_all toy genesis.tree (load_var ∷ padding_var ∷ [])))
unfolding program padding
run_ops-AllTransfers_example =
    run_ops-AllTransfers toy genesis.tree (load_var ∷ padding_var ∷ []) (state_of genesis)
      toy-IsField genesis-IsValid.consistent
      (load-IsAllocated, inr load-IsBound, (padding-IsAllocated, inl refl, tt)) refl refl

apply-step_op_example : step_op toy load_var (state_of genesis) ≡ (state_of loaded.0, true)
unfolding program
apply-step_op_example =
    apply-step_op toy 2 genesis load pool account 1 500 loaded.0 loaded.1 toy-IsField
      genesis-IsValid refl refl (omega arith) (λ n h. ground arith) loaded-apply

total-apply_example : total loaded.0.balances ≡ 1_000
unfolding program
total-apply_example =
    total-apply toy genesis load pool account 1 500 loaded.0 loaded.1 (omega arith) loaded-apply

apply-IsValid_example : IsValid toy 2 loaded.0
unfolding program
apply-IsValid_example =
    apply-IsValid toy genesis load pool account 1 500 2 loaded.0 loaded.1 genesis-IsValid refl refl
      loaded-apply

register-IsValid_example : IsValid toy 2 (value_or (register toy 2 genesis pool 1 9 4) genesis)
unfolding program
register-IsValid_example =
    register-IsValid toy 2 genesis pool 1 9 4 (value_or (register toy 2 genesis pool 1 9 4) genesis)
      (omega arith) genesis-IsValid refl
