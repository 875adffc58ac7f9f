-- ===== src/Tests/Exits.antt =====
-- The escape hatch, the payouts and a withdraw to the payee itself at the test ledger.
use ivc_checkpoints.Prelude.Results.{ok, panic}
use ivc_checkpoints.Prelude.{
  ℕ, ◌+◌, ◌^◌, ◌<◌, ◌≤◌, ◌≡◌, refl, true, [], ◌++◌, Option, none, some, arith,
}
use ivc_checkpoints.Prelude.Dict.{lookup, total}
use ivc_checkpoints.Field.{of_int}
use ivc_checkpoints.Poseidon.{h4}
use ivc_checkpoints.Imt.{root, root_from_leaf}
use ivc_checkpoints.Ops.{OpWitness, padding, load, withdraw, new_op_variable}
use ivc_checkpoints.Circuit.{step_op}
use ivc_checkpoints.Native.{EpochExecutor, ExitPath, exit_witness, insufficient_balance, apply}
use ivc_checkpoints.Native.Complete.{state_of}
use ivc_checkpoints.Native.Nets.{payouts, fold_nets, run-nets}
use ivc_checkpoints.Native.Valid.{IsAccount}
use ivc_checkpoints.Native.Returns.{apply-total}
use ivc_checkpoints.Native.Exit.{exit_witness-root}
use ivc_checkpoints.Native.SelfPaid.{withdraw-to_self}
use ivc_checkpoints.Tests.{toy, toy-IsField}
use ivc_checkpoints.Tests.Ledger.{program, value_or, genesis, genesis-IsValid, calls, pool, account}
use ivc_checkpoints.Tests.Epochs.{final, final-run}

abbrev path_or : Option ExitPath → ExitPath → ExitPath
path_or none d = d
path_or (some p) d = p

abbrev path : ExitPath
path =
    path_or (exit_witness genesis pool)
      (record { balance = 0; nonce = 0; siblings = []; index_bits = [] })

path_lem : exit_witness genesis pool ≡ some path
unfolding program exit_witness
path_lem = refl

pool-token : lookup pool genesis.token_of ≡ some 1
unfolding program
pool-token = refl

exit_witness-root_example :
    root_from_leaf toy
      (h4 toy pool 1 (of_int toy path.balance) (of_int toy path.nonce))
      path.siblings
      path.index_bits
    ≡ root genesis.tree
exit_witness-root_example =
    exit_witness-root toy 2 genesis pool 1 path genesis-IsValid pool-token path_lem

run-nets_example :
    (final.0.nets ≡ genesis.nets ++ payouts calls)
    × (final.0.nets_acc ≡ fold_nets toy genesis.nets_acc (payouts calls))
run-nets_example = run-nets toy calls genesis final.0 final.1 final-run

abbrev self_paid : EpochExecutor × OpWitness
self_paid = value_or (apply toy genesis withdraw pool pool 1 500) (genesis, padding 2)

self_paid_lem : apply toy genesis withdraw pool pool 1 500 ≡ ok (self_paid.0, self_paid.1)
unfolding program
self_paid_lem = refl

genesis-room : (n : ℕ) → lookup pool genesis.nonces ≡ some n → n + 1 < 2 ^ 64
unfolding program
genesis-room n h = ground arith

genesis_small : total genesis.balances < 2 ^ 96
unfolding program
genesis_small = omega arith

withdraw-to_self_example :
    (step_op toy (new_op_variable toy 2 self_paid.1) (state_of genesis)
      ≡ (state_of self_paid.0, true))
    × (lookup pool self_paid.0.balances ≡ lookup pool genesis.balances)
    × (self_paid.0.nets_acc ≡ h4 toy genesis.nets_acc pool 1 (of_int toy 500))
withdraw-to_self_example =
    withdraw-to_self toy 2 genesis pool 1 500 self_paid.0 self_paid.1 toy-IsField genesis-IsValid
      pool-token genesis_small genesis-room self_paid_lem

pool-IsAccount : IsAccount genesis pool 1 1 1_000 0
unfolding program
pool-IsAccount = record { slot = refl; token = refl; balance = refl; nonce = refl }

account-IsAccount : IsAccount genesis account 2 1 0 0
unfolding program
account-IsAccount = record { slot = refl; token = refl; balance = refl; nonce = refl }

apply-total_example :
    (2_000 ≤ 1_000
      → (r : EpochExecutor × OpWitness) × (apply toy genesis load pool account 1 2_000 ≡ ok r))
    × (1_000 < 2_000 → apply toy genesis load pool account 1 2_000 ≡ panic insufficient_balance)
apply-total_example =
    apply-total toy genesis load pool account 1 2_000 1 1_000 0 2 0 0 1 pool-IsAccount
      account-IsAccount
