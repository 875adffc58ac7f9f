-- ===== src/Tests/Workloads.antt =====
-- A small workload over the toy hash, built and folded.
use ivc_checkpoints.Prelude.Results.{ok}
use ivc_checkpoints.Prelude.{
  ℕ, ◌+◌, ◌*◌, ◌%◌, ◌≡◌, refl, List, [], ◌∷◌, arith, some, length, map, get_or, map, get_or,
}
use ivc_checkpoints.Imt.{root_from_leaf}
use ivc_checkpoints.Native.{state, initial_state, exit_witness, Result}
use ivc_checkpoints.Prover.{fold, next_batch, chunk_loop, chunk_into_batches, pad_to_steps}
use ivc_checkpoints.Prelude.Bytes.{to_be_bytes}
use ivc_checkpoints.Hashes.{Hashes}
use ivc_checkpoints.Prover.Workload.{
  WorkloadSpec, Workload, field_key, transfers_root_for, account_addr, payee_addr, increment,
  count_nets, position, withdrawals, net_entries, account_keys, payee_keys, register_all, genesis,
  perform_each, load_at, spend_at, op_stream, assemble, build, token,
}
use ivc_checkpoints.Prover.Workload.Proven.{build-fold}
use ivc_checkpoints.Prover.Workload.Settled.{entry_net, build-nets, build-exit}
use ivc_checkpoints.Native.Nets.{fold_nets}
use ivc_checkpoints.Poseidon.{h4}
use ivc_checkpoints.Field.{of_int}
use ivc_checkpoints.Tests.{toy, toy-IsField, bn254_fr}
use ivc_checkpoints.Tests.Ledger.{program, value_or}
use ivc_checkpoints.Tests.Epochs.{toy_nova, toy_nova-IsNova}

unfoldable pub value_of : List ℕ → ℕ
value_of [] = 1
value_of (b ∷ bs) = (257 * value_of bs + b) % bn254_fr

abbrev pub toy_hashes : Hashes
toy_hashes = record { keccak256 = λ bytes. bytes; from_be_bytes_mod_order = value_of }

abbrev pub spec : WorkloadSpec
spec = record { n_accounts = 1; n_payees = 1; loads = 1; spends = 2; pad_to_steps = some 3 }

abbrev pub built : Result Workload
built = build toy_hashes toy 2 2 spec 5

abbrev pub nothing : Workload
nothing = record {
  token_id = 0;
  z0 = [];
  native_zn = [];
  batches = [];
  nets = [];
  transfers_root = [];
  op_count = 0;
  exit = record {
    owner = [];
    token_id = 0;
    key = 0;
    balance = 0;
    nonce = 0;
    siblings = [];
    is_right = [];
  };
}

abbrev pub workload : Workload
workload = value_or built nothing

-- Everything that a build computes with.
unfoldable pub builder : Unit {0}
unfolding program value_of to_be_bytes field_key transfers_root_for account_addr payee_addr
    increment count_nets position withdrawals net_entries account_keys payee_keys register_all
    genesis perform_each load_at spend_at op_stream assemble build state initial_state exit_witness
    next_batch chunk_loop chunk_into_batches pad_to_steps
builder = tt

pub built-workload : built ≡ ok workload
unfolding builder
built-workload = refl

build-fold_example :
    (fold (toy_nova 2) toy 2 2 workload.z0 workload.batches
      ≡ some (workload.native_zn, length workload.batches))
    × ((target : ℕ) → some 3 ≡ some target → length workload.batches ≡ target)
build-fold_example =
    build-fold toy_hashes toy 2 2 toy-IsField (omega arith) (toy_nova 2) (toy_nova-IsNova 2)
      (omega arith) spec 5 workload (omega arith) (omega arith) built-workload

build-nets_example :
    fold_nets toy 0 (map (entry_net toy_hashes toy 2 2 (token toy_hashes toy 2 2)) workload.nets)
    ≡ get_or workload.native_zn 2 0
build-nets_example =
    build-nets toy_hashes toy 2 2 toy-IsField (omega arith) spec 5 workload (omega arith)
      (omega arith) built-workload

build-exit_example :
    root_from_leaf toy
      (h4 toy workload.exit.key
        (token toy_hashes toy 2 2)
        (of_int toy workload.exit.balance)
        (of_int toy workload.exit.nonce))
      workload.exit.siblings
      workload.exit.is_right
    ≡ get_or workload.native_zn 0 0
build-exit_example =
    build-exit toy_hashes toy 2 2 toy-IsField (omega arith) spec 5 workload (omega arith)
      (omega arith) built-workload
