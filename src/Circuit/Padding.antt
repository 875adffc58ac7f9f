-- ===== src/Circuit/Padding.antt =====
-- Inactive operations: the state is left alone whatever they hold, the range constraints stay.
use ivc_checkpoints.Prelude.{
  ℕ, zero, suc, ◌≡◌, refl, ◌↔◌, true, false, List, [], ◌∷◌, arith, subst, sym, replicate, ap₂,
  get_or, map, range_from,
}
use ivc_checkpoints.Field.Laws.{sub_small, add_small}
use ivc_checkpoints.Field.{Arkworks, IsField}
use ivc_checkpoints.Ops.{
  OpWitnessVar, OpWitness, padding, default_input, new_op_variable, new_variable,
}
use ivc_checkpoints.Circuit.{
  State, step_op, run_ops, enforce_bit_width, value_bits, from_new_balance, to_new_balance,
}
use ivc_checkpoints.Circuit.Range.{enforce_bit_width_iff}

-- The constraints that an inactive operation has to meet all the same.
abbrev pub InRange : Arkworks → OpWitnessVar → Type 0
InRange F op =
    (enforce_bit_width F op.amount value_bits ≡ true)
    × (enforce_bit_width F op.from_old_balance value_bits ≡ true)
    × (enforce_bit_width F (from_new_balance F op) value_bits ≡ true)
    × (enforce_bit_width F (to_new_balance F op) value_bits ≡ true)

-- An inactive operation leaves the state as it is, and its constraints hold exactly when its
-- amount, its old balance, the debit and the credit pass the 96-bit range check.
pub step_op_inactive :
    (F : Arkworks) (op : OpWitnessVar) (z : State)
    → op.active ≡ false
    → ((step_op F op z).0 ≡ z) × (((step_op F op z).1 ≡ true) ↔ InRange F op)
unfolding step_op
step_op_inactive F op z h = (ground arith, (λ e. ground arith, λ e. ground arith))

zero-fits : (F : Arkworks) → IsField F → enforce_bit_width F 0 value_bits ≡ true
zero-fits F v = (enforce_bit_width_iff F 0 value_bits v (omega (arith, v.wide))).1 (omega arith)

debit_zero :
    (F : Arkworks)
    → IsField F
    → (op : OpWitnessVar) → op.from_old_balance ≡ 0
    → op.amount ≡ 0
    → from_new_balance F op ≡ 0
unfolding from_new_balance
debit_zero F v op b a = rw (b, a) (sub_small F 0 0 (omega arith) (omega (arith, v.wide)))

credit_zero :
    (F : Arkworks)
    → IsField F
    → (op : OpWitnessVar) → op.to_old_balance ≡ 0
    → op.amount ≡ 0
    → to_new_balance F op ≡ 0
unfolding to_new_balance
credit_zero F v op b a = rw (b, a) (add_small F 0 0 (omega (arith, v.wide)))

-- Padding satisfies the step from any state, and leaves it.
pub step_op-padding :
    (F : Arkworks) (D : ℕ) (z : State)
    → IsField F
    → step_op F (new_op_variable F D (padding D)) z ≡ (z, true)
unfolding new_op_variable padding
step_op-padding F D z v =
    let fits = zero-fits F v in
    let inactive = step_op_inactive F (new_op_variable F D (padding D)) z refl in
    ap₂ (λ a b. (a, b)) inactive.0
      (inactive.1.1 (
        fits,
        fits,
        subst (λ x. enforce_bit_width F x value_bits ≡ true)
            (sym (debit_zero F v (new_op_variable F D (padding D)) refl refl)) fits,
        subst (λ x. enforce_bit_width F x value_bits ≡ true)
            (sym (credit_zero F v (new_op_variable F D (padding D)) refl refl)) fits,
      ))

get_or-replicate : (n i : ℕ) (w : OpWitness) → get_or (replicate n w) i w ≡ w
get_or-replicate zero i w = refl
get_or-replicate (suc n) zero w = refl
get_or-replicate (suc n) (suc i) w = get_or-replicate n i w

run_ops-map :
    (F : Arkworks) (D : ℕ) (f : ℕ → OpWitness) (is : List ℕ) (z : State)
    → IsField F
    → ((i : ℕ) → f i ≡ padding D)
    → run_ops F z (map (λ i. new_op_variable F D (f i)) is) ≡ (z, true)
unfolding run_ops
run_ops-map F D f [] z v h = refl
run_ops-map F D f (i ∷ is) z v h = rw (h i, step_op-padding F D z v, run_ops-map F D f is z v h)

-- A batch of padding is satisfied from any state and leaves it.
pub run_ops-default_input :
    (F : Arkworks) (B D : ℕ) (z : State)
    → IsField F
    → run_ops F z (new_variable F D B (default_input B D)) ≡ (z, true)
unfolding run_ops new_variable default_input
run_ops-default_input F B D z v =
    run_ops-map F D (λ i. get_or (replicate B (padding D)) i (padding D)) (range_from 0 B) z v
      (λ i. get_or-replicate B i (padding D))
