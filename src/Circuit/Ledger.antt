-- ===== src/Circuit/Ledger.antt =====
-- The ledger that a state root commits to, and the transfer that an operation is on it: a debit
-- of one leaf and a credit of another.
use ivc_checkpoints.Prelude.{
  ℕ, ◌+◌, ◌-◌, ◌^◌, ◌≤◌, ◌<◌, ◌≡◌, ◌⊎◌, false, List, [], ◌∷◌, length, if◌then◌else◌,
}
use ivc_checkpoints.Prelude.Bits.{bits_value}
use ivc_checkpoints.Field.{Arkworks, add}
use ivc_checkpoints.Poseidon.{h4}
use ivc_checkpoints.Imt.{MerkleTree, leaf, siblings, set_leaf}
use ivc_checkpoints.Imt.Binding.{NoCollision, path_inputs}
use ivc_checkpoints.Ops.{OpWitnessVar}

-- The values of an allocated operation are canonical, and its paths have the tree's depth.
pub record IsAllocated (F : Arkworks) (D : ℕ) (op : OpWitnessVar) : Type 0 where
  pub from_bits : length op.from_index_bits ≡ D
  pub from_sibs : length op.from_siblings ≡ D
  pub to_bits : length op.to_index_bits ≡ D
  pub to_sibs : length op.to_siblings ≡ D
  pub amount_lt : op.amount < F.modulus
  pub balance_lt : op.from_old_balance < F.modulus
  pub to_balance_lt : op.to_old_balance < F.modulus

abbrev pub from_index : OpWitnessVar → ℕ
from_index op = bits_value op.from_index_bits

abbrev pub to_index : OpWitnessVar → ℕ
to_index op = bits_value op.to_index_bits

module _ (F : Arkworks) where
  abbrev pub from_old_leaf : OpWitnessVar → ℕ
  from_old_leaf op = h4 F op.from_key op.token_id op.from_old_balance op.from_old_nonce

  abbrev pub to_old_leaf : OpWitnessVar → ℕ
  to_old_leaf op = h4 F op.to_key op.token_id op.to_old_balance op.to_old_nonce

  module _ (t : MerkleTree) (op : OpWitnessVar) where
    -- The tree after the debit, and after the credit too.
    abbrev pub debited : MerkleTree
    debited =
        set_leaf F t (from_index op) (
          h4 F op.from_key op.token_id (op.from_old_balance - op.amount)
            (add F op.from_old_nonce 1))

    abbrev pub credited : MerkleTree
    credited =
        set_leaf F debited (to_index op)
          (h4 F op.to_key op.token_id (add F op.to_old_balance op.amount) op.to_old_nonce)

    -- The tree after an operation, active or not.
    abbrev pub applied : MerkleTree
    applied = if op.active then credited else t

    -- The two-input hashes on the paths of an operation do not collide with those of the tree.
    pub record IsBound : Type 0 where
      pub from_path :
          NoCollision F
            (path_inputs F (from_old_leaf op) op.from_siblings op.from_index_bits)
            (path_inputs F (leaf t (from_index op)) (siblings t (from_index op)) op.from_index_bits)
      pub to_path : NoCollision F (path_inputs F (to_old_leaf op) op.to_siblings op.to_index_bits) (
          path_inputs F
            (leaf debited (to_index op))
            (siblings debited (to_index op))
            op.to_index_bits)

    -- The credit is exact, and leaves a 96-bit balance; or it wraps around the modulus, from an
    -- old balance so near to it that no 96-bit balance is.
    abbrev pub IsCredit : Type 0
    IsCredit =
        ((add F op.to_old_balance op.amount ≡ op.to_old_balance + op.amount)
          × (op.to_old_balance + op.amount < 2 ^ 96))
        ⊎ ((add F op.to_old_balance op.amount + F.modulus ≡ op.to_old_balance + op.amount)
            × (2 ^ 96 ≤ op.to_old_balance))

    -- The operation is a transfer that the ledger allows.
    pub record IsTransfer : Type 0 where
      pub opens_from : leaf t (from_index op) ≡ from_old_leaf op
      pub solvent : op.amount ≤ op.from_old_balance
      pub balance_fits : op.from_old_balance < 2 ^ 96
      pub nonce_current : op.nonce ≡ op.from_old_nonce
      pub opens_to : leaf debited (to_index op) ≡ to_old_leaf op
      pub credit_fits : add F op.to_old_balance op.amount < 2 ^ 96
      pub credit : IsCredit

  -- The tree after a batch.
  abbrev pub applied_all : MerkleTree → List OpWitnessVar → MerkleTree
  applied_all t [] = t
  applied_all t (op ∷ ops) = applied_all (applied t op) ops

  -- Every active operation of the batch is bound to the tree that it meets, and the values of
  -- all are canonical.
  abbrev pub AllBound : MerkleTree → List OpWitnessVar → Type 0
  AllBound t [] = Unit {0}
  AllBound t (op ∷ ops) =
      IsAllocated F t.depth op × ((op.active ≡ false) ⊎ IsBound t op) × AllBound (applied t op) ops

  -- Every active operation of the batch is a transfer of the ledger that it meets.
  abbrev pub AllTransfers : MerkleTree → List OpWitnessVar → Type 0
  AllTransfers t [] = Unit {0}
  AllTransfers t (op ∷ ops) =
      ((op.active ≡ false) ⊎ IsTransfer t op) × AllTransfers (applied t op) ops
