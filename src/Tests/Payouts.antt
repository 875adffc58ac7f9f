-- ===== src/Tests/Payouts.antt =====
-- A workload over a small Poseidon permutation, and its payouts in the contract.
use native.Mathlib.Nat.{mod-lt}
use ivc_checkpoints.Prelude.{
  ℕ, zero, suc, ◌+◌, ◌%◌, ◌^◌, ◌<◌, false, ◌≡◌, refl, List, [], ◌∷◌, map, none, arith, get_or,
}
use ivc_checkpoints.Prelude.Bytes.{of_be_bytes}
use ivc_checkpoints.Prelude.Results.{ok}
use ivc_checkpoints.Prelude.Ranges.{dot, zip_with}
use ivc_checkpoints.Field.{Arkworks, IsField}
use ivc_checkpoints.Hashes.{Hashes, IsReduction}
use ivc_checkpoints.Poseidon.Codegen.{generate_solidity, hash4, hash2}
use ivc_checkpoints.Poseidon.Fixture.{
  sample4, sample2, v4, v2, generate_fixture, generate_fixture-printed,
}
use ivc_checkpoints.Poseidon.Agreement.{IsPoseidon}
use ivc_checkpoints.Poseidon.Reference.{
  reference_hash, reference_rounds, reference_round, reference_mix, reference_sbox, is_full,
}
use ivc_checkpoints.Contract
use ivc_checkpoints.Contract.{ProvenCheckpoint, Message, deploy}
use ivc_checkpoints.Contract.Escape.{nullifier, exit}
use ivc_checkpoints.Prover.Workload.Exited.{build-exits}
use ivc_checkpoints.Contract.Settle.{withdrawals_acc}
use ivc_checkpoints.Prover.Workload.{WorkloadSpec, Workload, build, epoch_token}
use ivc_checkpoints.Prover.Workload.Paid.{build-paid, to_word, to_amount}
use ivc_checkpoints.Tests.{toy_hash, toy_bits, toy-IsField, bn254_fr}
use ivc_checkpoints.Tests.Ledger.{value_or}
use ivc_checkpoints.Tests.Hashing.{cfg, lib, cfg-IsShaped}
use ivc_checkpoints.Tests.Workloads.{builder, nothing}

reference_mix-lt :
    (rows : List (List ℕ)) (s : List ℕ) (i : ℕ)
    → get_or (reference_mix bn254_fr rows s) i 0 < bn254_fr
reference_mix-lt [] s i = omega arith
reference_mix-lt (row ∷ rows) s zero = mod-lt (dot row s) (omega arith)
reference_mix-lt (row ∷ rows) s (suc i) = reference_mix-lt rows s i

reference_rounds-lt :
    (n r : ℕ) (s : List ℕ) → get_or (reference_rounds bn254_fr cfg r (suc n) s) 1 0 < bn254_fr
unfolding reference_rounds
reference_rounds-lt zero r s =
    reference_mix-lt cfg.mds
      (reference_sbox bn254_fr (is_full bn254_fr cfg r)
        (zip_with (λ x c. (x + c) % bn254_fr) s (get_or cfg.ark r [])))
      1
reference_rounds-lt (suc n) r s = reference_rounds-lt n (suc r) (reference_round bn254_fr cfg r s)

-- The permutation on two and four elements; other inputs are hashed by the toy.
unfoldable poseidon : List ℕ → ℕ
poseidon (a ∷ b ∷ c ∷ d ∷ []) = reference_hash bn254_fr cfg (a ∷ b ∷ c ∷ d ∷ [])
poseidon (a ∷ b ∷ []) = reference_hash bn254_fr cfg (a ∷ b ∷ 0 ∷ 0 ∷ [])
poseidon xs = toy_hash xs

poseidon-lt : (xs : List ℕ) → poseidon xs < bn254_fr
unfolding poseidon reference_hash
poseidon-lt (a ∷ b ∷ c ∷ d ∷ []) = reference_rounds-lt 2 0 (0 ∷ a ∷ b ∷ c ∷ d ∷ [])
poseidon-lt [] = toy-IsField.evaluate_lt []
poseidon-lt (a ∷ []) = toy-IsField.evaluate_lt (a ∷ [])
poseidon-lt (a ∷ b ∷ []) = reference_rounds-lt 2 0 (0 ∷ a ∷ b ∷ 0 ∷ 0 ∷ [])
poseidon-lt (a ∷ b ∷ c ∷ []) = toy-IsField.evaluate_lt (a ∷ b ∷ c ∷ [])
poseidon-lt (a ∷ b ∷ c ∷ d ∷ e ∷ xs) = toy-IsField.evaluate_lt (a ∷ b ∷ c ∷ d ∷ e ∷ xs)

abbrev field : Arkworks
field = record { modulus = bn254_fr; evaluate = poseidon; to_bits_le = toy_bits }

field-IsField : IsField field
field-IsField = record {
  wide = omega arith;
  evaluate_lt = poseidon-lt;
  bits_lem = toy-IsField.bits_lem;
}

field-IsPoseidon : IsPoseidon field cfg
unfolding poseidon
field-IsPoseidon = record {
  two = λ a b a_lt b_lt. refl;
  four = λ a b c d a_lt b_lt c_lt d_lt. refl;
}

abbrev hashes : Hashes
hashes = record {
  keccak256 = λ bytes. bytes;
  from_be_bytes_mod_order = λ bytes. of_be_bytes bytes % bn254_fr;
}

hashes-IsReduction : IsReduction field hashes
hashes-IsReduction = record { reduces = λ bytes. refl }

abbrev spec : WorkloadSpec
spec = record { n_accounts = 1; n_payees = 1; loads = 1; spends = 1; pad_to_steps = none }

abbrev paying : Workload
paying = value_or (build hashes field 2 2 spec 5) nothing

paying_lem : build hashes field 2 2 spec 5 ≡ ok paying
unfolding builder poseidon reference_hash reference_rounds of_be_bytes
paying_lem = refl

lib-modulus : lib.modulus ≡ bn254_fr
unfolding generate_solidity
lib-modulus = refl

generate_fixture-printed_example :
    generate_fixture (λ x. x ∷ []) (λ x. x ∷ []) (λ bytes. bytes) field ≡ record {
      hash4_count = 4;
      hash2_count = 4;
      hash4_samples = map (sample4 (λ x. x ∷ []) (λ x. x ∷ []) (λ bytes. bytes) (hash4 lib)) v4;
      hash2_samples = map (sample2 (λ x. x ∷ []) (λ x. x ∷ []) (λ bytes. bytes) (hash2 lib)) v2;
    }
generate_fixture-printed_example =
    generate_fixture-printed (λ x. x ∷ []) (λ x. x ∷ []) (λ bytes. bytes) field field-IsField cfg
      lib cfg-IsShaped lib-modulus field-IsPoseidon

build-paid_example :
    withdrawals_acc hashes lib epoch_token (map to_word paying.nets) (map to_amount paying.nets) 0
    ≡ get_or paying.native_zn 2 0
build-paid_example =
    build-paid hashes field hashes-IsReduction refl 2 2 field-IsField cfg lib cfg-IsShaped
      lib-modulus field-IsPoseidon (omega arith) spec 5 paying (omega arith) (omega arith)
      paying_lem

-- The contract after the workload's epoch was settled, and its owner's call.
abbrev settled : ProvenCheckpoint
settled = record (deploy 7 0) { last_proven_root = get_or paying.native_zn 0 0 }

abbrev owner : Message
owner = record { sender = of_be_bytes paying.exit.owner; timestamp = 9 }

not_exited :
    settled.exited (
      nullifier hashes paying.exit.token_id
        (Contract.field_key hashes owner.sender paying.exit.token_id))
    ≡ false
unfolding deploy
not_exited = refl

balance_fits : settled.balance_of paying.exit.token_id owner.sender + paying.exit.balance < 2 ^ 256
unfolding builder poseidon reference_hash reference_rounds of_be_bytes deploy
balance_fits = omega arith

build-exits_example :
    (t : ProvenCheckpoint) × (exit hashes lib settled owner paying.exit.token_id paying.exit.balance
        paying.exit.nonce paying.exit.siblings paying.exit.is_right
      ≡ ok t)
    × (t.balance_of paying.exit.token_id owner.sender
        ≡ settled.balance_of paying.exit.token_id owner.sender + paying.exit.balance)
build-exits_example =
    build-exits hashes field hashes-IsReduction refl 2 2 field-IsField cfg lib cfg-IsShaped
      lib-modulus field-IsPoseidon (omega arith) spec 5 paying (omega arith) (omega arith)
      paying_lem settled owner refl refl not_exited balance_fits
