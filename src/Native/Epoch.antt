-- ===== src/Native/Epoch.antt =====
-- A sequence of operations on the executor against the circuit on the emitted witnesses.
use ivc_checkpoints.Prelude.Results.{>>=-ok, ok, ok-injective}
use ivc_checkpoints.Prelude.{
  ℕ, ◌+◌, ◌%◌, ◌^◌, ◌<◌, ◌≡◌, refl, ap, true, some, arith, subst, List, [], ◌∷◌, length, map,
}
use ivc_checkpoints.Prelude.Dict.{lookup, total, lookup-insert}
use ivc_checkpoints.Field.{Arkworks, IsField}
use ivc_checkpoints.Ops.{OpKind, OpWitness, new_op_variable, load, spend, withdraw}
use ivc_checkpoints.Circuit.{step_op, run_ops}
use ivc_checkpoints.Circuit.Batch.{run_ops-cons}
use ivc_checkpoints.Native.{
  EpochExecutor, apply, Request, load_of, spend_of, withdraw_of, perform, run,
}
use ivc_checkpoints.Native.Valid.{IsValid}
use ivc_checkpoints.Native.Applied.{apply-IsValid, apply-maps, total-apply}
use ivc_checkpoints.Native.Complete.{state_of, apply-step_op}

-- The two accounts of a call hold its token.
abbrev pub SameToken : EpochExecutor → Request → Type 0
SameToken x (load_of from to tok amount) =
    (lookup from x.token_of ≡ some tok) × (lookup to x.token_of ≡ some tok)
SameToken x (spend_of from to tok amount) =
    (lookup from x.token_of ≡ some tok) × (lookup to x.token_of ≡ some tok)
SameToken x (withdraw_of payee tok amount) =
    (lookup payee x.token_of ≡ some tok) × (lookup x.sink_key x.token_of ≡ some tok)

abbrev pub AllSameToken : EpochExecutor → List Request → Type 0
AllSameToken x [] = Unit {0}
AllSameToken x (r ∷ rs) = SameToken x r × AllSameToken x rs

-- No nonce can reach the end of `u64` in `k` operations.
abbrev pub NonceRoom : EpochExecutor → ℕ → Type 0
NonceRoom x k = (key n : ℕ) → lookup key x.nonces ≡ some n → n + k < 2 ^ 64

-- What holds of an executor before a sequence of calls.
pub record IsReady (F : Arkworks) (D : ℕ) (x : EpochExecutor) (rs : List Request) : Type 0 where
  pub valid : IsValid F D x
  pub supply : total x.balances < 2 ^ 96
  pub tokens : AllSameToken x rs
  pub room : NonceRoom x (length rs)

SameToken-cong :
    (x y : EpochExecutor) (r : Request)
    → y.token_of ≡ x.token_of
    → y.sink_key ≡ x.sink_key
    → SameToken x r
    → SameToken y r
SameToken-cong x y (load_of from to tok amount) e k h = (rw e h.0, rw e h.1)
SameToken-cong x y (spend_of from to tok amount) e k h = (rw e h.0, rw e h.1)
SameToken-cong x y (withdraw_of payee tok amount) e k h = (rw e h.0, rw (e, k) h.1)

AllSameToken-cong :
    (x y : EpochExecutor) (rs : List Request)
    → y.token_of ≡ x.token_of
    → y.sink_key ≡ x.sink_key
    → AllSameToken x rs
    → AllSameToken y rs
AllSameToken-cong x y [] e k h = tt
AllSameToken-cong x y (r ∷ rs) e k h =
    (SameToken-cong x y r e k h.0, AllSameToken-cong x y rs e k h.1)

module _ (F : Arkworks) (D : ℕ) (field : IsField F) where
  apply-IsReady :
      (x x' : EpochExecutor) (w : OpWitness) (kind : OpKind) (from to tok amount : ℕ) (r : Request)
      (rs : List Request)
      → IsReady F D x (r ∷ rs)
      → lookup from x.token_of ≡ some tok
      → lookup to x.token_of ≡ some tok
      → apply F x kind from to tok amount ≡ ok (x', w)
      → IsReady F D x' rs × (step_op F (new_op_variable F D w) (state_of x) ≡ (state_of x', true))
  apply-IsReady x x' w kind from to tok amount r rs c hf ht h =
      let (_, tokens, sink, (n, en, nonces)) = apply-maps F x kind from to tok amount x' w h in
      (
        record {
          valid = apply-IsValid F x kind from to tok amount D x' w c.valid hf ht h;
          supply = omega (
            arith,
            total-apply F x kind from to tok amount x' w (omega (arith, c.supply)) h,
            c.supply,
          );
          tokens = AllSameToken-cong x x' rs tokens sink c.tokens.1;
          room = λ key m e. ground (
            arith,
            lookup-insert from key ((n + 1) % 2 ^ 64) x.nonces,
            ap (lookup key) nonces,
            c.room from n en,
            c.room key m,
          );
        },
        apply-step_op F D x kind from to tok amount x' w field c.valid hf ht c.supply
            (λ m e. omega (arith, c.room from m e)) h,
      )

  perform-IsReady :
      (x x' : EpochExecutor) (w : OpWitness) (r : Request) (rs : List Request)
      → IsReady F D x (r ∷ rs)
      → perform F x r ≡ ok (x', w)
      → IsReady F D x' rs × (step_op F (new_op_variable F D w) (state_of x) ≡ (state_of x', true))
  unfolding perform
  perform-IsReady x x' w (load_of from to tok amount) rs c h =
      apply-IsReady x x' w load from to tok amount (load_of from to tok amount) rs c c.tokens.0.0
        c.tokens.0.1 h
  perform-IsReady x x' w (spend_of from to tok amount) rs c h =
      apply-IsReady x x' w spend from to tok amount (spend_of from to tok amount) rs c c.tokens.0.0
        c.tokens.0.1 h
  perform-IsReady x x' w (withdraw_of payee tok amount) rs c h =
      apply-IsReady x x' w withdraw payee x.sink_key tok amount (withdraw_of payee tok amount) rs c
        c.tokens.0.0 c.tokens.0.1 h

  -- What `run` returns after a list of calls.
  abbrev Matches : EpochExecutor → EpochExecutor × List OpWitness → Type 0
  Matches x r =
      IsReady F D r.0 []
      × (run_ops F (state_of x) (map (new_op_variable F D) r.1) ≡ (state_of r.0, true))

  run-Matches :
      (rs : List Request) (x : EpochExecutor) (r : EpochExecutor × List OpWitness)
      → IsReady F D x rs
      → run F x rs ≡ ok r
      → Matches x r
  unfolding run
  run-Matches [] x r c h = subst (Matches x) (ok-injective h) (c, unfold run_ops in refl)
  run-Matches (q ∷ rs) x r c h =
      let ((y, w), e, h₁) = >>=-ok (perform F x q) _ h in
      let ((y', vs), e', h₂) = >>=-ok (run F y rs) _ h₁ in
      let (ready, step) = perform-IsReady x y w q rs c e in
      let (done, rest) = run-Matches rs y (y', vs) ready e' in
      subst (Matches x) (ok-injective h₂)
        (done, run_ops-cons F _ _ (state_of x) (state_of y) (state_of y') step rest)

  -- A sequence of calls that returns: the circuit accepts the emitted witnesses in order, and
  -- takes the executor's old state to its new one, and the new executor is ready again.
  pub run-run_ops :
      (rs : List Request) (x x' : EpochExecutor) (ws : List OpWitness)
      → IsReady F D x rs
      → run F x rs ≡ ok (x', ws)
      → IsReady F D x' []
        × (run_ops F (state_of x) (map (new_op_variable F D) ws) ≡ (state_of x', true))
  run-run_ops rs x x' ws c h = run-Matches rs x (x', ws) c h
