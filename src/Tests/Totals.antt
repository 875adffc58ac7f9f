-- ===== src/Tests/Totals.antt =====
-- Runs that return: a ledger against its book, a workload, and the epoch program.
use ivc_checkpoints.Prelude.{ℕ, ◌≡◌, ◌*◌, ◌^◌, ◌<◌, ◌≤◌, refl, some, arith, length, get_or}
use ivc_checkpoints.Prelude.Results.{ok}
use ivc_checkpoints.Prelude.Dict.{total}
use ivc_checkpoints.Native.{run}
use ivc_checkpoints.Native.Book.{post_all}
use ivc_checkpoints.Native.Open.{book_of, seen, IsOpen, AllOpen}
use ivc_checkpoints.Native.Refined.{run-refines}
use ivc_checkpoints.Prover.Workload.{
  small, with_pad_to_steps, total_ops, Workload, build, pool, account_keys, payee_keys,
}
use ivc_checkpoints.Prover.Workload.Opened.{Avoids}
use ivc_checkpoints.Prover.Workload.Completed.{IsFunding}
use ivc_checkpoints.Prover.Workload.Total.{build-returns}
use ivc_checkpoints.Prover.Epoch.{fr_to_hex}
use ivc_checkpoints.Cli.{ProofJson, main}
use ivc_checkpoints.Cli.Total.{main-runs}
use ivc_checkpoints.Tests.{toy, toy-IsField}
use ivc_checkpoints.Tests.Ledger
use ivc_checkpoints.Tests.Ledger.{program, genesis, calls, account, payee}
use ivc_checkpoints.Tests.Workloads.{builder, toy_hashes, spec}
use ivc_checkpoints.Tests.Programs.{
  sonobe, sonobe-IsFolding, sonobe-IsComplete, args, encoding, known,
}

calls-AllOpen : AllOpen genesis calls
unfolding program
calls-AllOpen =
    let sink : IsOpen genesis 1 genesis.sink_key = record {
      slot = 0;
      balance = 0;
      nonce = 0;
      account = record { slot = refl; token = refl; balance = refl; nonce = refl };
    } in
    let pool : IsOpen genesis 1 Ledger.pool = record {
      slot = 1;
      balance = 1_000;
      nonce = 0;
      account = record { slot = refl; token = refl; balance = refl; nonce = refl };
    } in
    let account : IsOpen genesis 1 account = record {
      slot = 2;
      balance = 0;
      nonce = 0;
      account = record { slot = refl; token = refl; balance = refl; nonce = refl };
    } in
    let payee : IsOpen genesis 1 payee = record {
      slot = 3;
      balance = 0;
      nonce = 0;
      account = record { slot = refl; token = refl; balance = refl; nonce = refl };
    } in
    (pool, account, (account, payee, (payee, sink, tt)))

supply : total genesis.balances < 2 ^ 128
unfolding program
supply = omega arith

run-refines_example :
    seen (run toy genesis calls) ≡ post_all genesis.sink_key (book_of genesis) calls
run-refines_example = run-refines toy calls genesis supply calls-AllOpen

spec-IsFunding : IsFunding toy_hashes toy 2 2 spec
spec-IsFunding = record {
  some_payee = omega arith;
  some_account = omega arith;
  loaded = omega arith;
  spent = omega arith;
  bounded = omega arith;
  bounded_spends = omega arith;
}

three_steps : (target : ℕ) → some 3 ≡ some target → total_ops spec ≤ target * 2
three_steps target e = ground arith

accounts-Avoids : Avoids (pool toy_hashes toy 2 2) (account_keys toy_hashes toy 2 2 1)
unfolding builder
accounts-Avoids = (omega arith, tt)

payees-Avoids : Avoids (pool toy_hashes toy 2 2) (payee_keys toy_hashes toy 2 2 1)
unfolding builder
payees-Avoids = (omega arith, tt)

build-returns_example : (w : Workload) × (build toy_hashes toy 2 2 spec 5 ≡ ok w)
build-returns_example =
    build-returns toy_hashes toy 2 2 (omega arith) (omega arith) spec spec-IsFunding 5 (omega arith)
      three_steps accounts-Avoids payees-Avoids

small_accounts-Avoids :
    Avoids (pool toy_hashes toy 16 4) (account_keys toy_hashes toy 16 4 small.n_accounts)
unfolding builder
small_accounts-Avoids = omega arith

small_payees-Avoids :
    Avoids (pool toy_hashes toy 16 4) (payee_keys toy_hashes toy 16 4 small.n_payees)
unfolding builder
small_payees-Avoids = omega arith

fourteen_steps : (target : ℕ) → some 14 ≡ some target → total_ops small ≤ target * 16
fourteen_steps target e = ground arith

main-runs_example :
    (w : Workload) × (out : ProofJson) × (build toy_hashes toy 16 4
        (with_pad_to_steps small args.pad_steps)
        args.epoch
      ≡ ok w)
    × (main (sonobe 16) encoding toy_hashes toy 16 4 args ≡ ok out)
    × (out.steps ≡ length w.batches)
    × (out.prev_state_root ≡ fr_to_hex encoding.to_bytes_be encoding.encode (get_or w.z0 0 0))
    × (out.new_state_root ≡ fr_to_hex encoding.to_bytes_be encoding.encode (get_or w.native_zn 0 0))
    × (out.nets_acc ≡ fr_to_hex encoding.to_bytes_be encoding.encode (get_or w.native_zn 2 0))
main-runs_example =
    main-runs (sonobe 16) encoding toy_hashes toy 16 4 toy-IsField (omega arith) (omega arith)
      (sonobe-IsFolding 16) (sonobe-IsComplete 16) args small known (omega arith) (omega arith)
      fourteen_steps small_accounts-Avoids small_payees-Avoids
