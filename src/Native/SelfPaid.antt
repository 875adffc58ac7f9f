-- ===== src/Native/SelfPaid.antt =====
-- A withdraw whose credited account is the payee itself and not the sink: `perform` never makes
-- one, but the step circuit of crates/ledger-circuit/src/lib.rs has no constraint on the account
-- that a withdraw credits.
use ivc_checkpoints.Prelude.Results.{ok}
use ivc_checkpoints.Prelude.{ℕ, ◌+◌, ◌-◌, ◌%◌, ◌^◌, ◌<◌, ◌≡◌, sym, ap, ◌∙◌, true, some, arith}
use ivc_checkpoints.Prelude.Dict.{lookup, insert, total, lookup-insert, lookup-le-total}
use ivc_checkpoints.Field.{Arkworks, IsField, of_int}
use ivc_checkpoints.Poseidon.{h4}
use ivc_checkpoints.Ops.{OpWitness, withdraw, new_op_variable}
use ivc_checkpoints.Circuit.{step_op}
use ivc_checkpoints.Native.{EpochExecutor, debit, credit, accumulate, debited, outcome, apply}
use ivc_checkpoints.Native.Valid.{IsValid}
use ivc_checkpoints.Native.Applied.{apply-IsApplied}
use ivc_checkpoints.Native.Complete.{state_of, apply-step_op}

module _ (F : Arkworks) (D : ℕ) (x : EpochExecutor) (key tok amount : ℕ) where
  balance-to_self :
      (x' : EpochExecutor) (w : OpWitness)
      → total x.balances < 2 ^ 96
      → apply F x withdraw key key tok amount ≡ ok (x', w)
      → lookup key x'.balances ≡ lookup key x.balances
  unfolding outcome debited debit credit accumulate
  balance-to_self x' w bound h =
      let a = apply-IsApplied F x withdraw key key tok amount (x', w) h in
      ap (λ r. lookup key r.0.balances) (sym a.returned)
      ∙ ground (
        arith,
        lookup-insert key key ((a.tb + amount) % 2 ^ 128) (insert key (a.fb - amount) x.balances),
        lookup-insert key key (a.fb - amount) x.balances,
        a.to_balance,
        a.from_balance,
        a.enough,
        lookup-le-total key a.fb x.balances a.from_balance,
        bound,
      )

  -- On a valid executor with balances that sum to less than 2 ^ 96, and a nonce that has room, a
  -- withdraw credited to the payee itself satisfies the step of the circuit, leaves the payee's
  -- balance as it is and folds the payout into the nets accumulator.
  pub withdraw-to_self :
      (x' : EpochExecutor) (w : OpWitness)
      → IsField F
      → IsValid F D x
      → lookup key x.token_of ≡ some tok
      → total x.balances < 2 ^ 96
      → ((n : ℕ) → lookup key x.nonces ≡ some n → n + 1 < 2 ^ 64)
      → apply F x withdraw key key tok amount ≡ ok (x', w)
      → (step_op F (new_op_variable F D w) (state_of x) ≡ (state_of x', true))
        × (lookup key x'.balances ≡ lookup key x.balances)
        × (x'.nets_acc ≡ h4 F x.nets_acc key tok (of_int F amount))
  unfolding outcome debited debit credit accumulate
  withdraw-to_self x' w field v token bound room h =
      let a = apply-IsApplied F x withdraw key key tok amount (x', w) h in
      (
        apply-step_op F D x withdraw key key tok amount x' w field v token token bound room h,
        balance-to_self x' w bound h,
        sym (ap (λ r. r.0.nets_acc) a.returned),
      )
