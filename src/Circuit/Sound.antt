-- ===== src/Circuit/Sound.antt =====
-- What a satisfied step proves about the ledger behind the state root.
use ivc_checkpoints.Prelude.{
  ℕ, ◌+◌, ◌-◌, ◌^◌, ◌≤◌, ◌<◌, ◌≡◌, true, arith, sym, ap, ◌∙◌, dec_lt, inl, inr, ◌==◌, if◌then◌else◌,
}
use ivc_checkpoints.Field.{Arkworks, IsField, of_int, add, sub}
use ivc_checkpoints.Field.Laws.{
  sub_small, sub_borrow, add_small, add_wrap, add-canonical, sub-canonical,
}
use ivc_checkpoints.Poseidon.{h2, h4}
use ivc_checkpoints.Imt.{MerkleTree, root, root_from_leaf}
use ivc_checkpoints.Imt.Consistent.{IsConsistent, set_leaf-IsConsistent, depth-set_leaf}
use ivc_checkpoints.Imt.Binding.{opening}
use ivc_checkpoints.Ops.{OpWitnessVar, code, withdraw}
use ivc_checkpoints.Circuit.{
  State, step_op, enforce_bit_width, value_bits, from_new_balance, to_new_balance, from_root,
  to_root, op_hash,
}
use ivc_checkpoints.Circuit.Ledger.{
  IsAllocated, IsBound, IsCredit, IsTransfer, from_index, from_old_leaf, to_old_leaf, debited,
  credited,
}
use ivc_checkpoints.Circuit.Range.{enforce_bit_width_iff}
use ivc_checkpoints.Circuit.Gadget.{merkle_root_from_leaf-root_from_leaf}

-- A debit that passes the three range checks of the circuit is covered by the balance.
pub debit_solvent :
    (F : Arkworks) (op : OpWitnessVar)
    → IsField F
    → op.amount < F.modulus
    → op.from_old_balance < F.modulus
    → enforce_bit_width F op.amount value_bits ≡ true
    → enforce_bit_width F op.from_old_balance value_bits ≡ true
    → enforce_bit_width F (from_new_balance F op) value_bits ≡ true
    → (op.amount ≤ op.from_old_balance)
      × (op.from_old_balance < 2 ^ 96)
      × (from_new_balance F op ≡ op.from_old_balance - op.amount)
unfolding from_new_balance
debit_solvent F op v la lb ha hb hd =
    let a = (enforce_bit_width_iff F op.amount value_bits v la).0 ha in
    let b = (enforce_bit_width_iff F op.from_old_balance value_bits v lb).0 hb in
    let d =
      (enforce_bit_width_iff F (sub F op.from_old_balance op.amount) value_bits v
          (sub-canonical F op.from_old_balance op.amount v)).0
        hd in
    elim (dec_lt op.from_old_balance op.amount) [
      | yes p ↦
          absurd (omega (arith, sub_borrow F op.from_old_balance op.amount p (omega arith), v.wide))
      | no p ↦ (omega arith, b, sub_small F op.from_old_balance op.amount (omega arith) lb)
    ]

-- A credit of a 96-bit amount that passes its range check leaves a 96-bit balance. It did not
-- wrap, unless the old balance was out of that range.
pub credit_exact :
    (F : Arkworks) (t : MerkleTree) (op : OpWitnessVar)
    → IsField F
    → op.amount < 2 ^ 96
    → op.to_old_balance < F.modulus
    → enforce_bit_width F (to_new_balance F op) value_bits ≡ true
    → (to_new_balance F op < 2 ^ 96) × IsCredit F t op
unfolding to_new_balance
credit_exact F t op v la lb h =
    let d =
      (enforce_bit_width_iff F (add F op.to_old_balance op.amount) value_bits v
          (add-canonical F op.to_old_balance op.amount v)).0
        h in
    elim (dec_lt (op.to_old_balance + op.amount) F.modulus) [
      | yes p ↦ let e = add_small F op.to_old_balance op.amount p in (d, inl (e, omega arith))
      | no p ↦
          let e = add_wrap F op.to_old_balance op.amount lb (omega (arith, v.wide)) (omega arith) in
          (d, inr (e, omega (arith, v.wide)))
    ]

-- The constraints of an active operation, and the root it leaves.
pub step_op_active :
    (F : Arkworks) (op : OpWitnessVar) (z : State)
    → op.active ≡ true
    → (step_op F op z).1 ≡ true
    → (from_root F op op.from_old_balance op.from_old_nonce ≡ z.state_root)
      × (enforce_bit_width F op.amount value_bits ≡ true)
      × (enforce_bit_width F op.from_old_balance value_bits ≡ true)
      × (enforce_bit_width F (from_new_balance F op) value_bits ≡ true)
      × (op.nonce ≡ op.from_old_nonce)
      × (to_root F op op.to_old_balance op.to_old_nonce
          ≡ from_root F op (from_new_balance F op) (add F op.from_old_nonce 1))
      × (enforce_bit_width F (to_new_balance F op) value_bits ≡ true)
unfolding step_op
step_op_active F op z on h = ground arith

-- An active operation that meets its constraints satisfies the step, which leaves the root of
-- the credited path and the folds of its hash and, for a withdraw, of its payout.
pub step_op-holds :
    (F : Arkworks) (op : OpWitnessVar) (z : State)
    → op.active ≡ true
    → from_root F op op.from_old_balance op.from_old_nonce ≡ z.state_root
    → enforce_bit_width F op.amount value_bits ≡ true
    → enforce_bit_width F op.from_old_balance value_bits ≡ true
    → enforce_bit_width F (from_new_balance F op) value_bits ≡ true
    → op.nonce ≡ op.from_old_nonce
    → to_root F op op.to_old_balance op.to_old_nonce
      ≡ from_root F op (from_new_balance F op) (add F op.from_old_nonce 1)
    → enforce_bit_width F (to_new_balance F op) value_bits ≡ true
    → step_op F op z ≡ (
      record {
        state_root = to_root F op (to_new_balance F op) op.to_old_nonce;
        ops_acc = h2 F z.ops_acc (op_hash F op);
        nets_acc =
            if op.kind == of_int F (code withdraw)
            then h4 F z.nets_acc op.from_key op.token_id op.amount
            else z.nets_acc;
      },
      true,
    )
unfolding step_op
step_op-holds F op z on h₁ h₂ h₃ h₄ h₅ h₆ h₇ = ground arith

pub state_root-step_op :
    (F : Arkworks) (op : OpWitnessVar) (z : State)
    → op.active ≡ true
    → (step_op F op z).0.state_root ≡ to_root F op (to_new_balance F op) op.to_old_nonce
unfolding step_op
state_root-step_op F op z on = ground arith

module _ (F : Arkworks) where
  pub from_root-root_from_leaf :
      (op : OpWitnessVar) (balance nonce : ℕ)
      → from_root F op balance nonce
        ≡ root_from_leaf F
            (h4 F op.from_key op.token_id balance nonce)
            op.from_siblings
            op.from_index_bits
  unfolding from_root
  from_root-root_from_leaf op balance nonce = merkle_root_from_leaf-root_from_leaf F _ _ _

  pub to_root-root_from_leaf :
      (op : OpWitnessVar) (balance nonce : ℕ)
      → to_root F op balance nonce
        ≡ root_from_leaf F
            (h4 F op.to_key op.token_id balance nonce)
            op.to_siblings
            op.to_index_bits
  unfolding to_root
  to_root-root_from_leaf op balance nonce = merkle_root_from_leaf-root_from_leaf F _ _ _

  module _ (t : MerkleTree) (op : OpWitnessVar) (z : State) (v : IsField F) where
    -- A satisfied active step against the root of a consistent tree, with canonical values, paths
    -- of the depth of the tree and no collision on the two paths, opens both leaves at the indices
    -- that its bits spell, debits at most a 96-bit balance, exactly, uses the current nonce and ends
    -- at the root of the tree after both writes. The credit leaves a 96-bit balance, and is exact
    -- unless the old balance that it opened was not a 96-bit one.
    pub step_op-IsTransfer :
        IsAllocated F t.depth op
        → IsConsistent F t
        → IsBound F t op
        → z.state_root ≡ root t
        → op.active ≡ true
        → (step_op F op z).1 ≡ true
        → IsTransfer F t op × ((step_op F op z).0.state_root ≡ root (credited F t op))
    step_op-IsTransfer a c b r on h =
        let (inclusion, amount_ok, balance_ok, debit_ok, nonce_ok, to_inclusion, credit_ok) =
          step_op_active F op z on h in
        let (solvent, balance_fits, debit) =
          debit_solvent F op v a.amount_lt a.balance_lt amount_ok balance_ok debit_ok in
        let (credit_fits, credit) = credit_exact F t op v (omega arith) a.to_balance_lt credit_ok in
        let (from_leaf, from_write) =
          opening F t (from_old_leaf F op) op.from_siblings op.from_index_bits c a.from_sibs
            a.from_bits b.from_path
            (sym (from_root-root_from_leaf op op.from_old_balance op.from_old_nonce)
              ∙ inclusion
              ∙ r) in
        let d = depth-set_leaf F t (from_index op) _ in
        let (to_leaf, to_write) =
          opening F (debited F t op) (to_old_leaf F op) op.to_siblings op.to_index_bits
            (set_leaf-IsConsistent F t _ _ c) (a.to_sibs ∙ sym d) (a.to_bits ∙ sym d) b.to_path
            (sym (to_root-root_from_leaf op op.to_old_balance op.to_old_nonce)
              ∙ to_inclusion
              ∙ from_root-root_from_leaf op (from_new_balance F op) (add F op.from_old_nonce 1)
              ∙ ap
                  (λ x.
                    root_from_leaf F (h4 F op.from_key op.token_id x (add F op.from_old_nonce 1))
                      op.from_siblings op.from_index_bits)
                  debit
              ∙ from_write _) in
        (
          record {
            opens_from = from_leaf;
            solvent = solvent;
            balance_fits = balance_fits;
            nonce_current = nonce_ok;
            opens_to = to_leaf;
            credit_fits = unfold to_new_balance in credit_fits;
            credit = credit;
          },
          state_root-step_op F op z on
              ∙ to_root-root_from_leaf op (to_new_balance F op) op.to_old_nonce
              ∙ (unfold to_new_balance in to_write _),
        )
