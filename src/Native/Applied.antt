-- ===== src/Native/Applied.antt =====
-- What a call of `apply` that returns has read, and what it leaves.
use ivc_checkpoints.Prelude.Results.{assert-ok, expect-ok, ok, ok-injective}
use ivc_checkpoints.Prelude.{
  ℕ, ◌+◌, ◌-◌, ◌%◌, ◌^◌, ◌≤◌, ◌<◌, ◌≡◌, sym, ap, ◌∙◌, some, arith, leb→le, unwrap_or, subst,
}
use ivc_checkpoints.Prelude.Dict.{lookup, insert, total, total-insert, lookup-le-total}
use ivc_checkpoints.Field.{Arkworks}
use ivc_checkpoints.Ops.{OpKind, OpWitness}
use ivc_checkpoints.Native.{EpochExecutor, debit, credit, accumulate, debited, outcome, apply}
use ivc_checkpoints.Native.Valid.{IsValid, debit-IsValid, credit-IsValid, accumulate-IsValid}

module _ (F : Arkworks) (x : EpochExecutor) (kind : OpKind) (from to tok amount : ℕ) where
  pub record IsApplied (r : EpochExecutor × OpWitness) : Type 0 where
    pub fb : ℕ
    pub fn : ℕ
    pub fs : ℕ
    pub ts : ℕ
    pub tb : ℕ
    pub tn : ℕ
    pub from_balance : lookup from x.balances ≡ some fb
    pub from_nonce : lookup from x.nonces ≡ some fn
    pub from_slot : lookup from x.slots ≡ some fs
    pub to_slot : lookup to x.slots ≡ some ts
    pub enough : amount ≤ fb
    pub to_balance : lookup to (insert from (fb - amount) x.balances) ≡ some tb
    pub to_nonce : lookup to (insert from ((fn + 1) % 2 ^ 64) x.nonces) ≡ some tn
    pub returned : outcome F x kind from to tok amount fb fn fs ts tb tn ≡ r

  pub apply-IsApplied :
      (r : EpochExecutor × OpWitness) → apply F x kind from to tok amount ≡ ok r → IsApplied r
  unfolding apply debited debit
  apply-IsApplied r h =
      let (fb, e₁, h₁) = expect-ok _ _ _ h in
      let (fn, e₂, h₂) = expect-ok _ _ _ h₁ in
      let (fs, e₃, h₃) = expect-ok _ _ _ h₂ in
      let (ts, e₄, h₄) = expect-ok _ _ _ h₃ in
      let (e₅, h₅) = assert-ok _ _ _ h₄ in
      let (tb, e₆, h₆) = expect-ok _ _ _ h₅ in
      let (tn, e₇, h₇) = expect-ok _ _ _ h₆ in
      record {
        fb = fb;
        fn = fn;
        fs = fs;
        ts = ts;
        tb = tb;
        tn = tn;
        from_balance = e₁;
        from_nonce = e₂;
        from_slot = e₃;
        to_slot = e₄;
        enough = leb→le amount fb e₅;
        to_balance = e₆;
        to_nonce = e₇;
        returned = ok-injective h₇;
      }

  -- The credit of a balance that the total covers does not wrap.
  pub credit_small :
      (r : EpochExecutor × OpWitness) (a : IsApplied r) (bound : ℕ)
      → total x.balances < bound
      → a.tb + amount < bound
  credit_small r a bound h = omega (
    arith,
    total-insert from (a.fb - amount) x.balances,
    ap (λ o. unwrap_or o 0) a.from_balance,
    lookup-le-total to a.tb (insert from (a.fb - amount) x.balances) a.to_balance,
    a.enough,
  )

  -- No operation changes the sum of the balances.
  pub total-apply :
      (x' : EpochExecutor) (w : OpWitness)
      → total x.balances < 2 ^ 128
      → apply F x kind from to tok amount ≡ ok (x', w)
      → total x'.balances ≡ total x.balances
  unfolding outcome debited debit credit accumulate
  total-apply x' w small h =
      let a = apply-IsApplied (x', w) h in
      let bal = insert from (a.fb - amount) x.balances in
      sym (ap (λ r. total r.0.balances) a.returned)
      ∙ omega (
        arith,
        credit_small (x', w) a (2 ^ 128) small,
        a.enough,
        total-insert from (a.fb - amount) x.balances,
        ap (λ o. unwrap_or o 0) a.from_balance,
        total-insert to ((a.tb + amount) % 2 ^ 128) bal,
        ap (λ o. unwrap_or o 0) a.to_balance,
      )

  -- An operation on two accounts of its token keeps the invariant.
  pub apply-IsValid :
      (D : ℕ) (x' : EpochExecutor) (w : OpWitness)
      → IsValid F D x
      → lookup from x.token_of ≡ some tok
      → lookup to x.token_of ≡ some tok
      → apply F x kind from to tok amount ≡ ok (x', w)
      → IsValid F D x'
  unfolding outcome debited debit
  apply-IsValid D x' w v hf ht h =
      let a = apply-IsApplied (x', w) h in
      let d =
        debit-IsValid F D x from a.fs tok (a.fb - amount) ((a.fn + 1) % 2 ^ 64) v a.from_slot hf in
      subst (IsValid F D) (ap (λ r. r.0) a.returned) (
        accumulate-IsValid F D _ kind from to tok amount a.fn (
          credit-IsValid F D (debit F x from a.fs tok (a.fb - amount) ((a.fn + 1) % 2 ^ 64)) to a.ts
            tok ((a.tb + amount) % 2 ^ 128) a.tn d a.to_slot ht a.to_nonce))

  -- What an operation leaves of the maps: slots, tokens and the sink stay, and one nonce grows.
  pub apply-maps :
      (x' : EpochExecutor) (w : OpWitness)
      → apply F x kind from to tok amount ≡ ok (x', w)
      → (x'.slots ≡ x.slots)
        × (x'.token_of ≡ x.token_of)
        × (x'.sink_key ≡ x.sink_key)
        × ((n : ℕ) × (lookup from x.nonces ≡ some n)
            × (x'.nonces ≡ insert from ((n + 1) % 2 ^ 64) x.nonces))
  unfolding outcome debited debit credit accumulate
  apply-maps x' w h =
      let a = apply-IsApplied (x', w) h in
      (
        sym (ap (λ r. r.0.slots) a.returned),
        sym (ap (λ r. r.0.token_of) a.returned),
        sym (ap (λ r. r.0.sink_key) a.returned),
        (a.fn, a.from_nonce, sym (ap (λ r. r.0.nonces) a.returned)),
      )
