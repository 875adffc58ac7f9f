-- ===== src/Native/Refined.antt =====
-- EpochExecutor of crates/ledger-circuit/src/native.rs against the abstract book.
use ivc_checkpoints.Prelude.Results.{ok, panic, ◌>>=◌}
use ivc_checkpoints.Prelude.{
  ℕ, ◌^◌, ◌<◌, ◌≡◌, refl, sym, ap, ap₂, ◌∙◌, subst, fun_ext, List, [], ◌∷◌, ◌++◌, some, none, arith,
  inl, inr, ◌⊎◌, leb, leb→le, Bool-cases, if◌then◌else◌, unwrap_or,
}
use ivc_checkpoints.Prelude.Dict.{total}
use ivc_checkpoints.Field.{Arkworks}
use ivc_checkpoints.Ops.{OpKind, OpWitness, load, spend, withdraw}
use ivc_checkpoints.Native.{
  EpochExecutor, Panic, Result, Request, load_of, spend_of, withdraw_of, insufficient_balance,
  apply, perform, run,
}
use ivc_checkpoints.Native.Applied.{total-apply, apply-maps}
use ivc_checkpoints.Native.Returns.{apply-total}
use ivc_checkpoints.Native.Nets.{payouts, own, apply-nets}
use ivc_checkpoints.Native.Book.{
  source, target, value, posted, post, post_all, post_all-cons, post_all-none,
}
use ivc_checkpoints.Native.Open.{
  book_of, seen, token_of, IsOpen, AllOpen, apply-balances, apply-IsOpen,
}

abbrev kind_of : Request → OpKind
kind_of (load_of from to tok amount) = load
kind_of (spend_of from to tok amount) = spend
kind_of (withdraw_of payee tok amount) = withdraw

module _ (F : Arkworks) where
  -- A call as a call of `apply`.
  abbrev applied : EpochExecutor → Request → Result (EpochExecutor × OpWitness)
  applied x r = apply F x (kind_of r) (source r) (target x.sink_key r) (token_of r) (value r)

  perform-applied : (x : EpochExecutor) (r : Request) → perform F x r ≡ applied x r
  unfolding perform
  perform-applied x (load_of from to tok amount) = refl
  perform-applied x (spend_of from to tok amount) = refl
  perform-applied x (withdraw_of payee tok amount) = refl

  own-payouts :
      (r : Request) → own F (kind_of r) (source r) (token_of r) (value r) ≡ payouts (r ∷ [])
  own-payouts (load_of from to tok amount) = refl
  own-payouts (spend_of from to tok amount) = refl
  own-payouts (withdraw_of payee tok amount) = refl

  -- What a call that returns keeps, and the book that it leaves.
  pub record IsStep (x : EpochExecutor) (r : Request) (x' : EpochExecutor) : Type 0 where
    pub supply : total x'.balances ≡ total x.balances
    pub sink : x'.sink_key ≡ x.sink_key
    pub kept : (tok k : ℕ) → IsOpen x tok k → IsOpen x' tok k
    pub book : book_of x' ≡ posted x.sink_key (book_of x) r

  pub perform-IsStep :
      (x x' : EpochExecutor) (r : Request) (w : OpWitness)
      → total x.balances < 2 ^ 128
      → perform F x r ≡ ok (x', w)
      → IsStep x r x'
  perform-IsStep x x' r w small h =
      let e = sym (perform-applied x r) ∙ h in
      let kind = kind_of r in
      let from = source r in
      let to = target x.sink_key r in
      let tok = token_of r in
      let amount = value r in
      let balances = apply-balances F x kind from to tok amount x' w e small in
      let paid =
        (apply-nets F x kind from to tok amount x' w e).0 ∙ ap (λ l. x.nets ++ l) (own-payouts r) in
      record {
        supply = total-apply F x kind from to tok amount x' w small e;
        sink = (apply-maps F x kind from to tok amount x' w e).2;
        kept = apply-IsOpen F x kind from to tok amount x' w e;
        book = ap₂ (λ b p. record { balance = b; paid = p }) (fun_ext balances) paid;
      }

  perform-refines :
      (x : EpochExecutor) (r : Request)
      → total x.balances < 2 ^ 128
      → IsOpen x (token_of r) (source r)
      → IsOpen x (token_of r) (target x.sink_key r)
      → ((x' : EpochExecutor) × (w : OpWitness) × (perform F x r ≡ ok (x', w))
          × (post x.sink_key (book_of x) r ≡ some (book_of x')))
        ⊎ ((perform F x r ≡ panic insufficient_balance) × (post x.sink_key (book_of x) r ≡ none))
  unfolding post
  perform-refines x r small a b =
      let (returns, panics) =
        apply-total F x (kind_of r) (source r) (target x.sink_key r) (token_of r) (value r) a.slot
          a.balance a.nonce b.slot b.balance b.nonce (token_of r) a.account b.account in
      let own_balance = ap (λ o. unwrap_or o 0) a.account.balance in
      let b' = posted x.sink_key (book_of x) r in
      elim (Bool-cases (leb (value r) ((book_of x).balance (source r)))) [
        | inl e ↦
            let ((x', w), e') = returns (omega (arith, leb→le _ _ e, own_balance)) in
            let h = perform-applied x r ∙ e' in
            inl (
              x',
              w,
              h,
              ap (λ t. if t then some b' else none) e
                  ∙ sym (ap (λ c. some c) (perform-IsStep x x' r w small h).book),
            )
        | inr e ↦ inr (
          perform-applied x r ∙ panics (ground (arith, own_balance, e)),
          ap (λ t. if t then some b' else none) e,
        )
      ]

  AllOpen-kept :
      (x x' : EpochExecutor) (rs : List Request)
      → x'.sink_key ≡ x.sink_key
      → ((tok k : ℕ) → IsOpen x tok k → IsOpen x' tok k)
      → AllOpen x rs
      → AllOpen x' rs
  AllOpen-kept x x' [] same kept all = tt
  AllOpen-kept x x' (r ∷ rs) same kept all = (
    kept (token_of r) (source r) all.0,
    subst (λ s. IsOpen x' (token_of r) (target s r)) (sym same)
        (kept (token_of r) (target x.sink_key r) all.1),
    AllOpen-kept x x' rs same kept all.2,
  )

  seen-rest :
      (result : Result (EpochExecutor × List OpWitness)) (w : OpWitness)
      → seen (result >>= λ (x'', ws). ok (x'', w ∷ ws)) ≡ seen result
  seen-rest (panic why) w = refl
  seen-rest (ok (x'', ws)) w = refl

  seen-run :
      (x x' : EpochExecutor) (r : Request) (rs : List Request) (w : OpWitness)
      → perform F x r ≡ ok (x', w)
      → seen (run F x (r ∷ rs)) ≡ seen (run F x' rs)
  unfolding run
  seen-run x x' r rs w e = rw e (seen-rest (run F x' rs) w)

  seen-run_panic :
      (x : EpochExecutor) (r : Request) (rs : List Request) (why : Panic)
      → perform F x r ≡ panic why
      → seen (run F x (r ∷ rs)) ≡ none
  unfolding run
  seen-run_panic x r rs why e = rw e refl

  -- A sequence of calls on registered accounts, with balances that sum to less than 2 ^ 128,
  -- returns exactly when the abstract book goes through, and leaves the book's balances and
  -- payouts; otherwise it panics.
  pub run-refines :
      (rs : List Request) (x : EpochExecutor)
      → total x.balances < 2 ^ 128
      → AllOpen x rs
      → seen (run F x rs) ≡ post_all x.sink_key (book_of x) rs
  run-refines [] x small all = unfold run post_all in refl
  run-refines (r ∷ rs) x small all = elim (perform-refines x r small all.0 all.1) [
    | inl (x', w, e, e') ↦
        let s = perform-IsStep x x' r w small e in
        seen-run x x' r rs w e
        ∙ run-refines rs x' (omega (arith, s.supply, small))
            (AllOpen-kept x x' rs s.sink s.kept all.2)
        ∙ ap (λ k. post_all k (book_of x') rs) s.sink
        ∙ sym (post_all-cons x.sink_key (book_of x) (book_of x') r rs e')
    | inr (e, e') ↦
        seen-run_panic x r rs insufficient_balance e
        ∙ sym (post_all-none x.sink_key (book_of x) r rs e')
  ]
