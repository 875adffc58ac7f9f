-- ===== src/Tests/Ledger.antt =====
-- A ledger of a pool, an account, a payee and the sink in a tree of depth 2, and an epoch on it.
use ivc_checkpoints.Prelude.Results.{Result, ok, panic}
use ivc_checkpoints.Prelude.{ℕ, refl, List, [], ◌∷◌, arith}
use ivc_checkpoints.Prelude.Dict.{lookup, insert, total}
use ivc_checkpoints.Field.{of_int, add, sub}
use ivc_checkpoints.Poseidon.{h2, h4, hn}
use ivc_checkpoints.Imt
use ivc_checkpoints.Imt.{
  node, root, leaf, index_bits, insert_node, siblings_from, siblings, zeros_from, parent, rehash,
  set_leaf,
}
use ivc_checkpoints.Ops.{new_op_variable}
use ivc_checkpoints.Circuit.{
  all_false, enforce_bit_width, merkle_root_from_leaf, from_root, to_root, from_new_balance,
  to_new_balance, op_hash, step_op, run_ops,
}
use ivc_checkpoints.Native.{
  EpochExecutor, new, slot_for, register, debit, credit, accumulate, debited, outcome, apply,
  Request, load_of, spend_of, withdraw_of, perform, run,
}
use ivc_checkpoints.Native.Valid.{IsValid, new-IsValid, register-IsValid}
use ivc_checkpoints.Native.Epoch.{IsReady}
use ivc_checkpoints.Tests.{toy, toy_hash, toy_bits}

-- Everything that a run of the program computes with.
unfoldable pub program : Unit {0}
unfolding toy_hash toy_bits lookup insert total of_int add sub h2 h4 hn node root leaf index_bits
    insert_node siblings_from siblings zeros_from Imt.new parent rehash set_leaf new_op_variable
    all_false enforce_bit_width merkle_root_from_leaf from_root to_root from_new_balance
    to_new_balance op_hash step_op run_ops new slot_for register debit credit accumulate debited
    outcome apply perform run
program = tt

abbrev pub value_or {ε ℓ} : {E : Type ε} {A : Type ℓ} → Result E A → A → A
value_or (ok a) d = a
value_or (panic e) d = d

abbrev pub pool : ℕ
pool = 7

abbrev pub account : ℕ
account = 11

abbrev pub payee : ℕ
payee = 13

-- Genesis, one registration after another.
abbrev empty : EpochExecutor
empty = new toy 2

abbrev with_sink : EpochExecutor
with_sink = value_or (register toy 2 empty empty.sink_key 1 0 0) empty

abbrev with_pool : EpochExecutor
with_pool = value_or (register toy 2 with_sink pool 1 1_000 0) empty

abbrev with_account : EpochExecutor
with_account = value_or (register toy 2 with_pool account 1 0 0) empty

abbrev pub genesis : EpochExecutor
genesis = value_or (register toy 2 with_account payee 1 0 0) empty

pub genesis-IsValid : IsValid toy 2 genesis
unfolding program
genesis-IsValid =
    register-IsValid toy 2 with_account payee 1 0 0 genesis (omega arith)
      (register-IsValid toy 2 with_pool account 1 0 0 with_account (omega arith)
        (register-IsValid toy 2 with_sink pool 1 1_000 0 with_pool (omega arith)
          (register-IsValid toy 2 empty empty.sink_key 1 0 0 with_sink (omega arith)
            (new-IsValid toy 2) refl)
          refl)
        refl)
      refl

abbrev pub calls : List Request
calls = load_of pool account 1 500 ∷ spend_of account payee 1 200 ∷ withdraw_of payee 1 200 ∷ []

pub genesis-IsReady : IsReady toy 2 genesis calls
unfolding program
genesis-IsReady = record {
  valid = genesis-IsValid;
  supply = omega arith;
  tokens = ((refl, refl), ((refl, refl), ((refl, refl), tt)));
  room = λ key n h. ground arith;
}
