-- ===== src/Native/Exit.antt =====
-- The escape-hatch witness of an account against the state root.
use ivc_checkpoints.Prelude.Results.{>>=-ok, ok, ok-injective}
use ivc_checkpoints.Prelude.{
  ℕ, ◌≡◌, sym, ap, ◌∙◌, List, [], ◌∷◌, some, arith, inl, inr, Option-cases,
}
use ivc_checkpoints.Prelude.Dict.{lookup}
use ivc_checkpoints.Field.{Arkworks, of_int}
use ivc_checkpoints.Poseidon.{h4}
use ivc_checkpoints.Imt.{root, siblings, index_bits, root_from_leaf}
use ivc_checkpoints.Imt.Paths.{root_from_leaf-siblings}
use ivc_checkpoints.Ops.{OpWitness, load, spend, withdraw}
use ivc_checkpoints.Native.{
  EpochExecutor, ExitPath, exit_witness, Request, load_of, spend_of, withdraw_of, perform, run,
}
use ivc_checkpoints.Native.Applied.{apply-maps}
use ivc_checkpoints.Native.Valid.{IsValid, slot-in_tree}

-- What an exit witness has read.
record IsExit (x : EpochExecutor) (key : ℕ) (p : ExitPath) : Type 0 where
  slot : ℕ
  slot_lem : lookup key x.slots ≡ some slot
  balance_lem : lookup key x.balances ≡ some p.balance
  nonce_lem : lookup key x.nonces ≡ some p.nonce
  siblings_lem : p.siblings ≡ siblings x.tree slot
  index_bits_lem : p.index_bits ≡ index_bits x.tree slot

exit_witness-IsExit :
    (x : EpochExecutor) (key : ℕ) (p : ExitPath) → exit_witness x key ≡ some p → IsExit x key p
unfolding exit_witness
exit_witness-IsExit x key p h = elim (Option-cases (lookup key x.slots)) [
  | inl e ↦ absurd (ground arith)
  | inr (slot, e) ↦ elim (Option-cases (lookup key x.balances)) [
    | inl e' ↦ absurd (ground arith)
    | inr (b, e') ↦ elim (Option-cases (lookup key x.nonces)) [
      | inl e'' ↦ absurd (ground arith)
      | inr (n, e'') ↦ record {
        slot = slot;
        slot_lem = e;
        balance_lem = ground arith;
        nonce_lem = ground arith;
        siblings_lem = ground arith;
        index_bits_lem = ground arith;
      }
    ]
  ]
]

module _ (F : Arkworks) (D : ℕ) where
  -- On a valid executor, the exit witness of an account opens its leaf, with the balance and the
  -- nonce that the witness gives, against the state root.
  pub exit_witness-root :
      (x : EpochExecutor) (key tok : ℕ) (p : ExitPath)
      → IsValid F D x
      → lookup key x.token_of ≡ some tok
      → exit_witness x key ≡ some p
      → root_from_leaf F
          (h4 F key tok (of_int F p.balance) (of_int F p.nonce))
          p.siblings
          p.index_bits
        ≡ root x.tree
  exit_witness-root x key tok p v t h =
      let e = exit_witness-IsExit x key p h in
      let account =
        v.leaf_lem key e.slot tok p.balance p.nonce
          (record { slot = e.slot_lem; token = t; balance = e.balance_lem; nonce = e.nonce_lem }) in
      rw (e.siblings_lem, e.index_bits_lem, sym account)
        (root_from_leaf-siblings F x.tree e.slot v.consistent
          (slot-in_tree F D x key e.slot v e.slot_lem))

  perform-token_of :
      (x y : EpochExecutor) (q : Request) (w : OpWitness)
      → perform F x q ≡ ok (y, w)
      → y.token_of ≡ x.token_of
  unfolding perform
  perform-token_of x y (load_of from to tok amount) w e =
      (apply-maps F x load from to tok amount y w e).1
  perform-token_of x y (spend_of from to tok amount) w e =
      (apply-maps F x spend from to tok amount y w e).1
  perform-token_of x y (withdraw_of payee tok amount) w e =
      (apply-maps F x withdraw payee x.sink_key tok amount y w e).1

  -- No call changes the tokens of the accounts.
  pub run-token_of :
      (rs : List Request) (x : EpochExecutor) (r : EpochExecutor × List OpWitness)
      → run F x rs ≡ ok r
      → r.0.token_of ≡ x.token_of
  unfolding run perform
  run-token_of [] x r h = sym (ap (λ q. q.0.token_of) (ok-injective h))
  run-token_of (q ∷ rs) x r h =
      let ((y, w), e, h₁) = >>=-ok (perform F x q) _ h in
      let ((z, ws), e', h₂) = >>=-ok (run F y rs) _ h₁ in
      sym (ap (λ p. p.0.token_of) (ok-injective h₂))
      ∙ run-token_of rs y (z, ws) e'
      ∙ perform-token_of x y q w e
