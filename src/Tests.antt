-- ===== src/Tests.antt =====
-- Tests and witnesses over the BN254 scalar field with a toy hash in place of Poseidon.
mod Ledger
mod Epochs
mod Trees
mod Workloads
mod Exits
mod Hashing
mod Settlements
mod Programs
mod Payouts
mod Totals
mod Allocations
mod Gadgets
use ivc_checkpoints.Prelude.{
  ℕ, suc, ◌+◌, ◌*◌, ◌%◌, ◌^◌, ◌<◌, ◌≤◌, ◌≡◌, refl, Bool, List, [], ◌∷◌, arith,
}
use ivc_checkpoints.Prelude.Bits.{bits_of, bits_value, bits_value-bits_of}
use ivc_checkpoints.Field.{Arkworks, IsField}
use native.Mathlib.Nat.{mod-lt}

abbrev pub bn254_fr : ℕ
bn254_fr = 21888242871839275222246405745257275088548364400416034343698204186575808495617

unfoldable pub toy_hash : List ℕ → ℕ
toy_hash [] = 17
toy_hash (x ∷ xs) = (31 * toy_hash xs + x * x + 3 * x + 5) % bn254_fr

unfoldable pub toy_bits : ℕ → List Bool
toy_bits x = bits_of x 254

abbrev pub toy : Arkworks
toy = record { modulus = bn254_fr; evaluate = toy_hash; to_bits_le = toy_bits }

toy_hash-lt : (xs : List ℕ) → toy_hash xs < bn254_fr
unfolding toy_hash
toy_hash-lt [] = omega arith
toy_hash-lt (x ∷ xs) = omega arith

toy_bits_lem : (x : ℕ) → x < bn254_fr → bits_value (toy_bits x) ≡ x
unfolding toy_bits
toy_bits_lem x h = bits_value-bits_of 254 x (omega arith)

pub toy-IsField : IsField toy
toy-IsField = record { wide = omega arith; evaluate_lt = toy_hash-lt; bits_lem = toy_bits_lem }
