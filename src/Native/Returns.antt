-- ===== src/Native/Returns.antt =====
-- When an operation on registered accounts returns, and when it panics.
use ivc_checkpoints.Prelude.Results.{ok, panic}
use ivc_checkpoints.Prelude.{
  ℕ, ◌+◌, ◌-◌, ◌%◌, ◌^◌, ◌<◌, ◌≤◌, ◌≡◌, refl, true, false, List, some, arith, inl, inr, leb,
  Option-cases,
}
use ivc_checkpoints.Prelude.Dict.{lookup, insert, lookup-insert}
use ivc_checkpoints.Field.{Arkworks}
use ivc_checkpoints.Ops.{OpKind, OpWitness}
use ivc_checkpoints.Native.{EpochExecutor, insufficient_balance, debit, debited, outcome, apply}
use ivc_checkpoints.Native.Valid.{IsAccount}

pub lookup-written :
    (k j v : ℕ) (m : List (ℕ × ℕ)) {w : ℕ}
    → lookup j m ≡ some w
    → (u : ℕ) × (lookup j (insert k v m) ≡ some u)
lookup-written k j v m h = elim (Option-cases (lookup j (insert k v m))) [
  | inl e ↦ absurd (ground (arith, lookup-insert k j v m))
  | inr r ↦ r
]

module _ (F : Arkworks) (x : EpochExecutor) (kind : OpKind) (from to tok amount : ℕ)
    (fs fb fn ts tb tn tok' : ℕ) (a : IsAccount x from fs tok fb fn)
    (b : IsAccount x to ts tok' tb tn) where
  apply-returns :
      amount ≤ fb → (r : EpochExecutor × OpWitness) × (apply F x kind from to tok amount ≡ ok r)
  unfolding apply debited debit
  apply-returns le =
      let (u, e) = lookup-written from to (fb - amount) x.balances b.balance in
      let (v, e') = lookup-written from to ((fn + 1) % 2 ^ 64) x.nonces b.nonce in
      let enough : leb amount fb ≡ true = ground arith in
      (
        outcome F x kind from to tok amount fb fn fs ts u v,
        rw (a.balance, a.nonce, a.slot, b.slot, enough, e, e') refl,
      )

  apply-panics : fb < amount → apply F x kind from to tok amount ≡ panic insufficient_balance
  unfolding apply
  apply-panics lt =
      let short : leb amount fb ≡ false = ground arith in
      rw (a.balance, a.nonce, a.slot, b.slot, short) refl

  -- An operation on two registered accounts returns if the balance of the first one covers the
  -- amount, and otherwise panics for the balance.
  pub apply-total :
      (amount ≤ fb → (r : EpochExecutor × OpWitness) × (apply F x kind from to tok amount ≡ ok r))
      × (fb < amount → apply F x kind from to tok amount ≡ panic insufficient_balance)
  apply-total = (apply-returns, apply-panics)
