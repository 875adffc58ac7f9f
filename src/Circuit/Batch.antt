-- ===== src/Circuit/Batch.antt =====
-- What a satisfied batch proves about the ledger behind the state root.
use ivc_checkpoints.Prelude.{
  ◌≡◌, Bool, true, false, ◌∙◌, sym, ap, ◌⊎◌, inl, inr, List, [], ◌∷◌, &&-both, Bool-cases,
  if◌then◌else◌,
}
use ivc_checkpoints.Field.{Arkworks, IsField}
use ivc_checkpoints.Imt.{MerkleTree, root}
use ivc_checkpoints.Imt.Consistent.{IsConsistent, set_leaf-IsConsistent}
use ivc_checkpoints.Ops.{OpWitnessVar}
use ivc_checkpoints.Circuit.{State, step_op, run_ops}
use ivc_checkpoints.Circuit.Ledger.{
  IsAllocated, IsBound, IsTransfer, AllBound, AllTransfers, debited, credited, applied, applied_all,
}
use ivc_checkpoints.Circuit.Padding.{step_op_inactive}
use ivc_checkpoints.Circuit.Sound.{step_op-IsTransfer}

when_active {ℓ} : {b : Bool} {P : Type ℓ} → (b ≡ false) ⊎ P → b ≡ true → P
when_active (inl off) on = cc
when_active (inr p) on = p

module _ (F : Arkworks) where
  -- Satisfied rounds make a satisfied batch.
  pub run_ops-cons :
      (op : OpWitnessVar) (ops : List OpWitnessVar) (z z' z'' : State)
      → step_op F op z ≡ (z', true)
      → run_ops F z' ops ≡ (z'', true)
      → run_ops F z (op ∷ ops) ≡ (z'', true)
  unfolding run_ops
  run_ops-cons op ops z z' z'' e e' = rw (e, e')

  applied-IsConsistent :
      (t : MerkleTree) (op : OpWitnessVar) → IsConsistent F t → IsConsistent F (applied F t op)
  applied-IsConsistent t op c = elim (Bool-cases op.active) [
    | inl on ↦
        rw on (set_leaf-IsConsistent F (debited F t op) _ _ (set_leaf-IsConsistent F t _ _ c))
    | inr off ↦ rw off c
  ]

  step_op-applied :
      (t : MerkleTree) (op : OpWitnessVar) (z : State)
      → IsField F
      → IsAllocated F t.depth op
      → IsConsistent F t
      → (op.active ≡ false) ⊎ IsBound F t op
      → z.state_root ≡ root t
      → (step_op F op z).1 ≡ true
      → ((op.active ≡ false) ⊎ IsTransfer F t op)
        × ((step_op F op z).0.state_root ≡ root (applied F t op))
  step_op-applied t op z v a c b r h = elim (Bool-cases op.active) [
    | inl on ↦
        let (transfer, e) = step_op-IsTransfer F t op z v a c (when_active b on) r on h in
        (inr transfer, e ∙ sym (ap (λ b. root (if b then credited F t op else t)) on))
    | inr off ↦ (
      inl off,
      ap (λ s. s.state_root) (step_op_inactive F op z off).0
          ∙ r
          ∙ sym (ap (λ b. root (if b then credited F t op else t)) off),
    )
  ]

  -- From the root of a consistent tree, a satisfied batch, with canonical values, paths of the
  -- depth of the tree and path hashes that do not collide with those of the tree, is a sequence of
  -- transfers of the ledger, one for each active operation, and its state root is that of the tree
  -- after them. The debit of a transfer is covered and exact; its credit leaves a 96-bit balance,
  -- and is exact unless the old balance that it opened was not a 96-bit one.
  pub run_ops-AllTransfers :
      (t : MerkleTree) (ops : List OpWitnessVar) (z : State)
      → IsField F
      → IsConsistent F t
      → AllBound F t ops
      → z.state_root ≡ root t
      → (run_ops F z ops).1 ≡ true
      → AllTransfers F t ops × ((run_ops F z ops).0.state_root ≡ root (applied_all F t ops))
  unfolding run_ops
  run_ops-AllTransfers t [] z v c b r h = (tt, r)
  run_ops-AllTransfers t (op ∷ ops) z v c b r h =
      let (first, rest) = &&-both (step_op F op z).1 (run_ops F (step_op F op z).0 ops).1 h in
      let (transfer, e) = step_op-applied t op z v b.0 c b.1 r first in
      let (transfers, e') =
        run_ops-AllTransfers (applied F t op) ops (step_op F op z).0 v (applied-IsConsistent t op c)
          b.2 e rest in
      ((transfer, transfers), e')
