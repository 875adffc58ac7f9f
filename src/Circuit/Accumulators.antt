-- ===== src/Circuit/Accumulators.antt =====
-- The two accumulators of the state as folds over what a batch did.
use ivc_checkpoints.Prelude.{ℕ, ◌≡◌, refl, ◌&&◌, ◌∙◌, List, [], ◌∷◌, if◌then◌else◌, ◌==◌, arith}
use ivc_checkpoints.Field.{Arkworks, of_int}
use ivc_checkpoints.Poseidon.{h2, h4}
use ivc_checkpoints.Ops.{OpWitnessVar, code, withdraw}
use ivc_checkpoints.Circuit.{State, step_op, run_ops, op_hash}

-- A payout `(payeeKey, tokenId, amount)`.
abbrev pub Net : Type 0
Net = ℕ × ℕ × ℕ

module _ (F : Arkworks) where
  -- The payouts of a batch in order, one for each active withdraw.
  abbrev pub withdrawals : List OpWitnessVar → List Net
  withdrawals [] = []
  withdrawals (op ∷ ops) =
      if op.active && op.kind == of_int F (code withdraw)
      then (op.from_key, op.token_id, op.amount) ∷ withdrawals ops
      else withdrawals ops

  -- The hashes of the active operations in order.
  abbrev pub active_hashes : List OpWitnessVar → List ℕ
  active_hashes [] = []
  active_hashes (op ∷ ops) =
      if op.active then op_hash F op ∷ active_hashes ops else active_hashes ops

  -- `withdrawalsAcc`: the fold that the contract recomputes with `foldNet`.
  abbrev pub fold_nets : ℕ → List Net → ℕ
  fold_nets acc [] = acc
  fold_nets acc ((key, token, amount) ∷ nets) = fold_nets (h4 F acc key token amount) nets

  abbrev pub fold_hashes : ℕ → List ℕ → ℕ
  fold_hashes acc [] = acc
  fold_hashes acc (x ∷ xs) = fold_hashes (h2 F acc x) xs

  nets_acc-step_op :
      (op : OpWitnessVar) (z : State) (rest : List Net)
      → fold_nets (step_op F op z).0.nets_acc rest
        ≡ fold_nets z.nets_acc (
            if op.active && op.kind == of_int F (code withdraw)
            then (op.from_key, op.token_id, op.amount) ∷ rest
            else rest)
  unfolding step_op
  nets_acc-step_op op z rest = ground arith

  ops_acc-step_op :
      (op : OpWitnessVar) (z : State) (rest : List ℕ)
      → fold_hashes (step_op F op z).0.ops_acc rest
        ≡ fold_hashes z.ops_acc (if op.active then op_hash F op ∷ rest else rest)
  unfolding step_op
  ops_acc-step_op op z rest = ground arith

  -- After any batch `netsAcc` is the fold of its payouts from the old value, in order, and
  -- `opsAcc` that of the hashes of its active operations.
  pub run_ops-folds :
      (ops : List OpWitnessVar) (z : State)
      → ((run_ops F z ops).0.nets_acc ≡ fold_nets z.nets_acc (withdrawals ops))
        × ((run_ops F z ops).0.ops_acc ≡ fold_hashes z.ops_acc (active_hashes ops))
  unfolding run_ops
  run_ops-folds [] z = (refl, refl)
  run_ops-folds (op ∷ ops) z =
      let ih = run_ops-folds ops (step_op F op z).0 in
      (
        ih.0 ∙ nets_acc-step_op op z (withdrawals ops),
        ih.1 ∙ ops_acc-step_op op z (active_hashes ops),
      )
