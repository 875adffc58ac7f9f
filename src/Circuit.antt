-- ===== src/Circuit.antt =====
-- crates/ledger-circuit/src/lib.rs: the step circuit on the values of its variables. A call that
-- enforces a constraint is a Boolean, and a step gives the next state with the conjunction of
-- its constraints, which is what `cs.is_satisfied()` reports.
pub mod Range
pub mod Gadget
pub mod Padding
pub mod Ledger
pub mod Sound
pub mod Batch
pub mod Accumulators
use ivc_checkpoints.Prelude.{
  ℕ, zero, suc, ◌≡◌, Bool, true, false, ◌&&◌, ◌||◌, not, List, [], ◌∷◌, Option, none, some, ◌==◌,
  if◌then◌else◌, get_or, length,
}
use ivc_checkpoints.Field.{Arkworks, of_int, add, sub}
use ivc_checkpoints.Poseidon.{h2, h4, hn}
use ivc_checkpoints.Ops.{OpWitnessVar, code, withdraw}

abbrev pub state_len : ℕ
state_len = 3

abbrev pub depth : ℕ
depth = 22

abbrev pub batch : ℕ
batch = 16

abbrev pub value_bits : ℕ
value_bits = 96

-- `z = [stateRoot, opsAcc, netsAcc]`
pub record State : Type 0 where
  pub state_root : ℕ
  pub ops_acc : ℕ
  pub nets_acc : ℕ

-- `FpVar::conditionally_select`
abbrev pub select : Bool → ℕ → ℕ → ℕ
select b x y = if b then x else y

-- `conditional_enforce_equal(x, y, cond)`
abbrev pub enforce_equal_if : ℕ → ℕ → Bool → Bool
enforce_equal_if x y cond = not cond || x == y

-- The loop of `enforce_bit_width` over the bits after the first `bits`.
unfoldable pub all_false : ℕ → List Bool → Bool
all_false bits [] = true
all_false zero (b ∷ bs) = not b && all_false zero bs
all_false (suc bits) (b ∷ bs) = all_false bits bs

module _ (F : Arkworks) where
  unfoldable pub enforce_bit_width : ℕ → ℕ → Bool
  enforce_bit_width x bits = all_false bits (F.to_bits_le x)

  -- The gadget of crates/ledger-circuit/src/imt.rs.
  unfoldable pub merkle_root_from_leaf : ℕ → List ℕ → List Bool → ℕ
  merkle_root_from_leaf cur [] bits = cur
  merkle_root_from_leaf cur (sib ∷ sibs) [] = cur
  merkle_root_from_leaf cur (sib ∷ sibs) (bit ∷ bits) =
      merkle_root_from_leaf (h2 F (select bit sib cur) (select bit cur sib)) sibs bits

  module _ (op : OpWitnessVar) where
    -- The root along the path of `from`, or of `to`, for a leaf of that account.
    unfoldable pub from_root : ℕ → ℕ → ℕ
    from_root balance nonce =
        merkle_root_from_leaf (h4 F op.from_key op.token_id balance nonce) op.from_siblings
          op.from_index_bits

    unfoldable pub to_root : ℕ → ℕ → ℕ
    to_root balance nonce =
        merkle_root_from_leaf (h4 F op.to_key op.token_id balance nonce) op.to_siblings
          op.to_index_bits

    unfoldable pub from_new_balance : ℕ
    from_new_balance = sub F op.from_old_balance op.amount

    unfoldable pub to_new_balance : ℕ
    to_new_balance = add F op.to_old_balance op.amount

    unfoldable pub op_hash : ℕ
    op_hash = hn F (op.kind ∷ op.from_key ∷ op.to_key ∷ op.token_id ∷ op.amount ∷ op.nonce ∷ [])

    -- (1) to (5): one round of the loop over the operations of a batch.
    unfoldable pub step_op : State → State × Bool
    step_op z =
        let inclusion =
          enforce_equal_if (from_root op.from_old_balance op.from_old_nonce) z.state_root
            op.active in
        let amount_fits = enforce_bit_width op.amount value_bits in
        let balance_fits = enforce_bit_width op.from_old_balance value_bits in
        let solvent = enforce_bit_width from_new_balance value_bits in
        let replay = enforce_equal_if op.nonce op.from_old_nonce op.active in
        let inter_root_active = from_root from_new_balance (add F op.from_old_nonce 1) in
        let inter_root = select op.active inter_root_active z.state_root in
        let to_inclusion =
          enforce_equal_if (to_root op.to_old_balance op.to_old_nonce) inter_root op.active in
        let credit_fits = enforce_bit_width to_new_balance value_bits in
        let new_root_active = to_root to_new_balance op.to_old_nonce in
        let state_root = select op.active new_root_active inter_root in
        let ops_acc = select op.active (h2 F z.ops_acc op_hash) z.ops_acc in
        let is_withdraw = op.kind == of_int F (code withdraw) in
        let do_nets = op.active && is_withdraw in
        let nets_acc_next = h4 F z.nets_acc op.from_key op.token_id op.amount in
        let nets_acc = select do_nets nets_acc_next z.nets_acc in
        (
          record { state_root = state_root; ops_acc = ops_acc; nets_acc = nets_acc },
          inclusion && amount_fits && balance_fits && solvent && replay && to_inclusion
              && credit_fits,
        )

  -- The loop over the operations.
  unfoldable pub run_ops : State → List OpWitnessVar → State × Bool
  run_ops z [] = (z, true)
  run_ops z (op ∷ ops) =
      let (z', holds) = step_op op z in let (z'', rest) = run_ops z' ops in (z'', holds && rest)

  -- The body of `generate_step_constraints` after its assertions.
  unfoldable pub step_values : List ℕ → List OpWitnessVar → List ℕ × Bool
  step_values z_i ops =
      let start : State = record {
        state_root = get_or z_i 0 0;
        ops_acc = get_or z_i 1 0;
        nets_acc = get_or z_i 2 0;
      } in
      let (z, holds) = run_ops start ops in (z.state_root ∷ z.ops_acc ∷ z.nets_acc ∷ [], holds)

  -- `none` is a failed assertion on a length.
  unfoldable pub generate_step_constraints : ℕ → List ℕ → List OpWitnessVar → Option (List ℕ × Bool)
  unfolding step_values
  generate_step_constraints B z_i ops =
      if length z_i == state_len && length ops == B then some (step_values z_i ops) else none
