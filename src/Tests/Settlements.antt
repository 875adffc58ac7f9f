-- ===== src/Tests/Settlements.antt =====
-- A history of the settlement contract: bootstrap, an unproven and a proven settlement, an exit.
use ivc_checkpoints.Prelude.{
  ℕ, ◌+◌, ◌≤◌, ◌≡◌, refl, ◌≢◌, true, false, [], ◌∷◌, arith, some, replicate,
}
use ivc_checkpoints.Prelude.Bytes.{to_be_bytes, of_be_bytes}
use ivc_checkpoints.Prelude.Results.{ok}
use ivc_checkpoints.Hashes.{Hashes}
use ivc_checkpoints.Poseidon.Codegen.{
  assign_row, assigns, generate_solidity, store, pow5, add_constants, substitute, mix_row, mix,
  rounds_from, permute, hash4, hash2, fold_net,
}
use ivc_checkpoints.Contract.{
  ProvenCheckpoint, Message, Evm, checked_add, field_key, deploy, create_token, initialize_decider,
  propose_decider_upgrade, execute_decider_upgrade, freeze_verifier, mark_epoch_closed,
  decider_timelock,
}
use ivc_checkpoints.Contract.Settle.{
  Settlement, Proof, packed, digest_proven, digest_unproven, auth, credit_all, withdrawals_acc,
  settle_epoch_proven, settle_epoch,
}
use ivc_checkpoints.Contract.Escape.{nullifier, climb, exit}
use ivc_checkpoints.Contract.Calls.{
  Call, create, initialize, propose, upgrade, freeze, mark_closed, leave, settle_proven,
  settle_unproven, execute, Reach, here, next, transaction,
}
use ivc_checkpoints.Contract.Chain.{IsChained, unproven_since, Reach-IsChained}
use ivc_checkpoints.Contract.Replay.{exit_once, settle_once}
use ivc_checkpoints.Contract.Upgrade.{frozen_forever, upgrade_delayed, now, later}
use ivc_checkpoints.Tests.Ledger.{value_or}
use ivc_checkpoints.Tests.Hashing.{lib}

-- Everything that the history computes with.
unfoldable machine : Unit {0}
unfolding to_be_bytes of_be_bytes assign_row assigns generate_solidity store pow5 add_constants
    substitute mix_row mix rounds_from permute hash4 hash2 fold_net checked_add field_key deploy
    create_token initialize_decider propose_decider_upgrade execute_decider_upgrade freeze_verifier
    mark_epoch_closed packed digest_proven digest_unproven auth credit_all withdrawals_acc
    settle_epoch_proven settle_epoch nullifier climb exit execute
machine = tt

abbrev keccak : Hashes
keccak = record { keccak256 = λ bytes. bytes; from_be_bytes_mod_order = λ bytes. 0 }

abbrev evm : Evm
evm = record {
  chainid = 1;
  self = 500;
  ecrecover = λ digest v r s. 99;
  verify = λ decider steps z0 zi words. some true;
}

abbrev at_time : ℕ → Message
at_time time = record { sender = 7; timestamp = time }

-- A call that returns, and the storage after it.
abbrev after : ProvenCheckpoint → Message → Call → ProvenCheckpoint
after c msg call = value_or (execute keccak lib evm c msg call) c

abbrev c0 : ProvenCheckpoint
c0 = deploy 7 1234

abbrev c1 : ProvenCheckpoint
c1 = after c0 (at_time 5) (initialize 77 88)

abbrev c2 : ProvenCheckpoint
c2 = after c1 (at_time 6) (create 1 99)

abbrev c3 : ProvenCheckpoint
c3 = after c2 (at_time 10) (mark_closed 5)

abbrev first : Settlement
first = record {
  epoch = 5;
  transfers_root = 41;
  token_id = 1;
  tos = 7 ∷ [];
  amounts = 3 ∷ [];
  nonce = 0;
  sig = replicate 65 0;
}

abbrev c4 : ProvenCheckpoint
c4 = after c3 (at_time 30_000) (settle_unproven first)

-- The root of a tree of depth 1 whose left leaf is the sender's.
abbrev leaf_root : ℕ
leaf_root = climb keccak lib (4321 ∷ []) (false ∷ []) (hash4 lib (field_key keccak 7 1) 1 50 2)

abbrev second : Settlement
second = record first { epoch = 6; nonce = 1 }

abbrev proof : Proof
proof = record {
  new_state_root = leaf_root;
  ops_acc = 5;
  nets_acc = withdrawals_acc keccak lib 1 (7 ∷ []) (3 ∷ []) 0;
  steps = 2;
  words = [];
}

abbrev c5 : ProvenCheckpoint
c5 = after c4 (at_time 31_000) (settle_proven second proof)

abbrev c6 : ProvenCheckpoint
c6 = after c5 (at_time 32_000) (leave 1 50 2 (4321 ∷ []) (false ∷ []))

abbrev c7 : ProvenCheckpoint
c7 = after c6 (at_time 33_000) (propose 78 89)

abbrev c8 : ProvenCheckpoint
c8 = after c7 (at_time 34_000) freeze

history3 : Reach keccak lib evm c0 c3
unfolding machine
history3 =
    next
      (next (next here (transaction (at_time 5) (initialize 77 88) refl))
        (transaction (at_time 6) (create 1 99) refl))
      (transaction (at_time 10) (mark_closed 5) refl)

proven_history : Reach keccak lib evm c4 c5
unfolding machine
proven_history = next here (transaction (at_time 31_000) (settle_proven second proof) refl)

history5 : Reach keccak lib evm c0 c5
unfolding machine
history5 =
    next (next history3 (transaction (at_time 30_000) (settle_unproven first) refl))
      (transaction (at_time 31_000) (settle_proven second proof) refl)

Reach-IsChained_example : IsChained (unproven_since keccak lib evm history5) c5
Reach-IsChained_example = Reach-IsChained keccak lib evm 7 1234 history5

left_once : exit keccak lib c5 (at_time 32_000) 1 50 2 (4321 ∷ []) (false ∷ []) ≡ ok c6
unfolding machine
left_once = refl

exit_once_example : ¬ (exit keccak lib c6 (at_time 40_000) 1 50 2 (4321 ∷ []) (false ∷ []) ≡ ok c6)
exit_once_example =
    exit_once keccak lib evm c5 c6 c6 c6 (at_time 32_000) (at_time 40_000) 1 50 2 50 2 (4321 ∷ [])
      (4321 ∷ []) (false ∷ []) (false ∷ []) left_once here refl

settled_first : execute keccak lib evm c3 (at_time 30_000) (settle_unproven first) ≡ ok c4
unfolding machine
settled_first = refl

settle_once_example : ¬ (execute keccak lib evm c5 (at_time 60_000) (settle_unproven first) ≡ ok c5)
settle_once_example =
    settle_once keccak lib evm c3 c4 c5 c5 (at_time 30_000) (at_time 60_000) (settle_unproven first)
      (settle_unproven first) 1 0 (refl, refl) (refl, refl) settled_first proven_history

c8_set : c8.nova_decider ≢ 0
unfolding machine
c8_set h = ground arith

c8_frozen : c8.verifier_frozen ≡ true
unfolding machine
c8_frozen = refl

abbrev c9 : ProvenCheckpoint
c9 = after c8 (at_time 35_000) (mark_closed 9)

after_freeze : Reach keccak lib evm c8 c9
unfolding machine
after_freeze = next here (transaction (at_time 35_000) (mark_closed 9) refl)

frozen_forever_example :
    (c9.nova_decider ≡ c8.nova_decider) × (c9.pp_hash ≡ c8.pp_hash) × (c9.verifier_frozen ≡ true)
frozen_forever_example = frozen_forever keccak lib evm c8 c9 c8_set c8_frozen after_freeze

abbrev c8' : ProvenCheckpoint
c8' = after c7 (at_time 34_000) (mark_closed 9)

abbrev c9' : ProvenCheckpoint
c9' = after c8' (at_time 400_000) upgrade

proposed : propose_decider_upgrade c6 (at_time 33_000) 78 89 ≡ ok c7
unfolding machine
proposed = refl

upgraded : execute_decider_upgrade c8' (at_time 400_000) ≡ ok c9'
unfolding machine
upgraded = refl

waited : execute keccak lib evm c7 (at_time 34_000) (mark_closed 9) ≡ ok c8'
unfolding machine
waited = refl

upgrade_delayed_example :
    (33_000 + decider_timelock ≤ 400_000) × (c9'.nova_decider ≡ 78) × (c9'.pp_hash ≡ 89)
upgrade_delayed_example =
    upgrade_delayed keccak lib evm c6 c7 c8' c9' (at_time 33_000) (at_time 400_000) 78 89 proposed
      (later (at_time 34_000) (mark_closed 9) now refl waited) upgraded
