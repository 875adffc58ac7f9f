-- ===== src/Native/Complete.antt =====
-- The circuit accepts what the executor emits, and computes the executor's state.
use ivc_checkpoints.Prelude.Results.{ok}
use ivc_checkpoints.Prelude.{
  ℕ, ◌+◌, ◌-◌, ◌%◌, ◌^◌, ◌≤◌, ◌<◌, ◌≡◌, refl, sym, ap, ap₂, ◌∙◌, true, false, some, arith, ◌==◌,
  if◌then◌else◌, subst,
}
use ivc_checkpoints.Prelude.Dict.{lookup, total, lookup-le-total}
use ivc_checkpoints.Field.{Arkworks, IsField, of_int, add, sub}
use ivc_checkpoints.Field.Laws.{of_int_small, add_small, sub_small}
use ivc_checkpoints.Poseidon.{h2, h4}
use ivc_checkpoints.Imt.{root, leaf, siblings, index_bits, root_from_leaf}
use ivc_checkpoints.Imt.Consistent.{IsConsistent, depth-set_leaf}
use ivc_checkpoints.Imt.Paths.{root_from_leaf-siblings, root-set_leaf}
use ivc_checkpoints.Imt.Binding.{length-siblings, length-index_bits}
use ivc_checkpoints.Ops.{
  OpKind, OpWitness, OpWitnessVar, new_op_variable, code, load, spend, withdraw,
}
use ivc_checkpoints.Ops.Arrays.{copy_all}
use ivc_checkpoints.Circuit.{
  State, step_op, enforce_bit_width, value_bits, from_new_balance, to_new_balance, from_root,
  to_root, op_hash,
}
use ivc_checkpoints.Circuit.Range.{enforce_bit_width_iff}
use ivc_checkpoints.Circuit.Sound.{step_op-holds, from_root-root_from_leaf, to_root-root_from_leaf}
use ivc_checkpoints.Native.{
  EpochExecutor, debit, credit, accumulate, debited, outcome, apply, is_withdraw,
}
use ivc_checkpoints.Native.Valid.{IsValid, debit-IsValid, slot-in_tree}
use ivc_checkpoints.Native.Applied.{apply-IsApplied, credit_small}

-- The executor's state as the circuit's.
abbrev pub state_of : EpochExecutor → State
state_of x = record { state_root = root x.tree; ops_acc = x.ops_acc; nets_acc = x.nets_acc }

withdraw_code :
    (F : Arkworks) (kind : OpKind)
    → IsField F
    → (a b : ℕ)
    → (if of_int F (code kind) == of_int F (code withdraw) then a else b)
      ≡ (if is_withdraw kind then a else b)
withdraw_code F load f a b = ground (arith, of_int_small F 0, of_int_small F 2, f.wide)
withdraw_code F spend f a b = ground (arith, of_int_small F 1, of_int_small F 2, f.wide)
withdraw_code F withdraw f a b = ground arith

module _ (F : Arkworks) (D : ℕ) (x : EpochExecutor) (kind : OpKind) (from to tok amount : ℕ)
    (field : IsField F) (v : IsValid F D x) (fb fn fs ts tb tn : ℕ) where
  -- The variables of the emitted witness.
  abbrev emitted : OpWitnessVar
  emitted = new_op_variable F D (outcome F x kind from to tok amount fb fn fs ts tb tn).1

  abbrev mid : EpochExecutor
  mid = debited F x from fs tok amount fb fn

  mid_depth : mid.tree.depth ≡ D
  unfolding debited debit
  mid_depth = depth-set_leaf F x.tree fs _ ∙ v.depth_lem

  emitted-from_root :
      (b n : ℕ)
      → from_root F emitted b n
        ≡ root_from_leaf F (h4 F from tok b n) (siblings x.tree fs) (index_bits x.tree fs)
  unfolding new_op_variable outcome
  emitted-from_root b n =
      from_root-root_from_leaf F emitted b n
      ∙ ap₂ (root_from_leaf F (h4 F from tok b n))
          (copy_all D (siblings x.tree fs) 0 (length-siblings x.tree fs ∙ v.depth_lem))
          (copy_all D (index_bits x.tree fs) false (length-index_bits x.tree fs ∙ v.depth_lem))

  emitted-to_root :
      (b n : ℕ)
      → to_root F emitted b n
        ≡ root_from_leaf F (h4 F to tok b n) (siblings mid.tree ts) (index_bits mid.tree ts)
  unfolding new_op_variable outcome
  emitted-to_root b n =
      to_root-root_from_leaf F emitted b n
      ∙ ap₂ (root_from_leaf F (h4 F to tok b n))
          (copy_all D (siblings mid.tree ts) 0 (length-siblings mid.tree ts ∙ mid_depth))
          (copy_all D (index_bits mid.tree ts) false (length-index_bits mid.tree ts ∙ mid_depth))

  module _ (fb_small : fb < 2 ^ 96) (enough : amount ≤ fb) (fn_room : fn + 1 < 2 ^ 64)
      (credit_fits : tb + amount < 2 ^ 96) where
    small : (n : ℕ) → n < 2 ^ 96 → of_int F n ≡ n
    small n h = of_int_small F n (omega (arith, field.wide))

    fits : (n : ℕ) → n < 2 ^ 96 → enforce_bit_width F (of_int F n) value_bits ≡ true
    fits n h =
        subst (λ y. enforce_bit_width F y value_bits ≡ true) (sym (small n h))
          ((enforce_bit_width_iff F n value_bits field (omega (arith, field.wide))).1 h)

    emitted_debit : from_new_balance F emitted ≡ of_int F (fb - amount)
    unfolding from_new_balance new_op_variable outcome
    emitted_debit =
        ap₂ (sub F) (small fb fb_small) (small amount (omega arith))
        ∙ sub_small F fb amount enough (omega (arith, field.wide))
        ∙ sym (small (fb - amount) (omega arith))

    emitted_nonce : add F emitted.from_old_nonce 1 ≡ of_int F ((fn + 1) % 2 ^ 64)
    unfolding new_op_variable outcome
    emitted_nonce =
        ap (λ n. add F n 1) (small fn (omega arith))
        ∙ add_small F fn 1 (omega (arith, field.wide))
        ∙ omega (arith, small ((fn + 1) % 2 ^ 64) (omega arith))

    emitted_credit : to_new_balance F emitted ≡ of_int F ((tb + amount) % 2 ^ 128)
    unfolding to_new_balance new_op_variable outcome
    emitted_credit =
        ap₂ (add F) (small tb (omega arith)) (small amount (omega arith))
        ∙ add_small F tb amount (omega (arith, field.wide))
        ∙ omega (arith, small ((tb + amount) % 2 ^ 128) (omega arith))

    -- The root that the circuit derives between the two writes is the executor's.
    mid_root :
        IsConsistent F x.tree
        → fs < 2 ^ x.tree.depth
        → root mid.tree
          ≡ from_root F emitted (from_new_balance F emitted) (add F emitted.from_old_nonce 1)
    unfolding debited debit
    mid_root c lt =
        root-set_leaf F x.tree fs
          (h4 F from tok (of_int F (fb - amount)) (of_int F ((fn + 1) % 2 ^ 64))) c lt
        ∙ ap₂
            (λ b n.
              root_from_leaf F (h4 F from tok b n) (siblings x.tree fs) (index_bits x.tree fs))
            (sym emitted_debit) (sym emitted_nonce)
        ∙ sym (emitted-from_root _ _)

    end_root :
        IsConsistent F mid.tree
        → ts < 2 ^ mid.tree.depth
        → to_root F emitted (to_new_balance F emitted) (of_int F tn)
          ≡ root (outcome F x kind from to tok amount fb fn fs ts tb tn).0.tree
    unfolding outcome credit accumulate
    end_root c lt =
        emitted-to_root _ _
        ∙ ap
            (λ b.
              root_from_leaf F (h4 F to tok b (of_int F tn)) (siblings mid.tree ts)
                (index_bits mid.tree ts))
            emitted_credit
        ∙ sym (
            root-set_leaf F mid.tree ts
              (h4 F to tok (of_int F ((tb + amount) % 2 ^ 128)) (of_int F tn)) c lt)

    end_state :
        IsConsistent F mid.tree
        → ts < 2 ^ mid.tree.depth
        → ◌≡◌ {A = State}
            (record {
              state_root = to_root F emitted (to_new_balance F emitted) (of_int F tn);
              ops_acc = h2 F x.ops_acc (op_hash F emitted);
              nets_acc =
                  if of_int F (code kind) == of_int F (code withdraw)
                  then h4 F x.nets_acc from tok (of_int F amount)
                  else x.nets_acc;
            })
            (state_of (outcome F x kind from to tok amount fb fn fs ts tb tn).0)
    unfolding op_hash outcome credit accumulate debited debit new_op_variable
    end_state c lt = λ i. record {
      state_root = end_root c lt i;
      ops_acc = h2 F x.ops_acc (op_hash F emitted);
      nets_acc =
          withdraw_code F kind field (h4 F x.nets_acc from tok (of_int F amount)) x.nets_acc i;
    }

    -- The step on the emitted witness, given that its two leaves are in the trees it met.
    outcome-step_op :
        leaf x.tree fs ≡ h4 F from tok (of_int F fb) (of_int F fn)
        → leaf mid.tree ts ≡ h4 F to tok (of_int F tb) (of_int F tn)
        → IsConsistent F x.tree
        → fs < 2 ^ x.tree.depth
        → IsConsistent F mid.tree
        → ts < 2 ^ mid.tree.depth
        → step_op F emitted (state_of x)
          ≡ (state_of (outcome F x kind from to tok amount fb fn fs ts tb tn).0, true)
    unfolding new_op_variable outcome
    outcome-step_op lf lt c fs_lt c' ts_lt =
        step_op-holds F emitted (state_of x) refl
          (emitted-from_root _ _
            ∙ ap (λ y. root_from_leaf F y (siblings x.tree fs) (index_bits x.tree fs)) (sym lf)
            ∙ root_from_leaf-siblings F x.tree fs c fs_lt)
          (fits amount (omega arith)) (fits fb fb_small)
          (subst (λ y. enforce_bit_width F y value_bits ≡ true) (sym emitted_debit)
            (fits (fb - amount) (omega arith)))
          refl
          (emitted-to_root _ _
            ∙ ap (λ y. root_from_leaf F y (siblings mid.tree ts) (index_bits mid.tree ts)) (sym lt)
            ∙ root_from_leaf-siblings F mid.tree ts c' ts_lt
            ∙ mid_root c fs_lt)
          (subst (λ y. enforce_bit_width F y value_bits ≡ true) (sym emitted_credit)
            (fits ((tb + amount) % 2 ^ 128) (omega arith)))
        ∙ ap (λ z. (z, true)) (end_state c' ts_lt)

module _ (F : Arkworks) (D : ℕ) (x : EpochExecutor) (kind : OpKind) (from to tok amount : ℕ) where
  -- An operation of the executor on two accounts of its token, with balances whose sum stays
  -- below 2 ^ 96 and a nonce below 2 ^ 64 - 1: the emitted witness satisfies the circuit's step
  -- from the executor's old state, and the step gives the executor's new state.
  pub apply-step_op :
      (x' : EpochExecutor) (w : OpWitness)
      → IsField F
      → IsValid F D x
      → lookup from x.token_of ≡ some tok
      → lookup to x.token_of ≡ some tok
      → total x.balances < 2 ^ 96
      → ((n : ℕ) → lookup from x.nonces ≡ some n → n + 1 < 2 ^ 64)
      → apply F x kind from to tok amount ≡ ok (x', w)
      → step_op F (new_op_variable F D w) (state_of x) ≡ (state_of x', true)
  unfolding debited debit
  apply-step_op x' w field v hf ht bound room h =
      let a = apply-IsApplied F x kind from to tok amount (x', w) h in
      let m =
        debit-IsValid F D x from a.fs tok (a.fb - amount) ((a.fn + 1) % 2 ^ 64) v a.from_slot hf in
      subst
        (λ (r : EpochExecutor × OpWitness).
          step_op F (new_op_variable F D r.1) (state_of x) ≡ (state_of r.0, true))
        a.returned
        (outcome-step_op F D x kind from to tok amount field v a.fb a.fn a.fs a.ts a.tb a.tn
          (omega (arith, lookup-le-total from a.fb x.balances a.from_balance)) a.enough
          (room a.fn a.from_nonce)
          (credit_small F x kind from to tok amount (x', w) a (2 ^ 96) bound)
          (v.leaf_lem from a.fs tok a.fb a.fn (record {
            slot = a.from_slot;
            token = hf;
            balance = a.from_balance;
            nonce = a.from_nonce;
          }))
          (m.leaf_lem to a.ts tok a.tb a.tn
            (record { slot = a.to_slot; token = ht; balance = a.to_balance; nonce = a.to_nonce }))
          v.consistent (slot-in_tree F D x from a.fs v a.from_slot) m.consistent
          (slot-in_tree F D (debited F x from a.fs tok amount a.fb a.fn) to a.ts m a.to_slot))
