-- ===== src/Prover/Workload/Requests.antt =====
-- The operation stream of a workload as one sequence of calls on the executor.
use ivc_checkpoints.Prelude.Results.{>>=-ok, expect-ok, ok, ok-injective}
use ivc_checkpoints.Prelude.{
  ℕ, suc, ◌%◌, ◌^◌, ◌<◌, ◌≤◌, ◌≡◌, refl, ap, ◌∙◌, subst, List, [], ◌∷◌, ◌++◌, map, arith, inl, inr,
  ltb, Bool-cases, length, length-append, range_from, length-range_from, replicate,
}
use ivc_checkpoints.Field.{Arkworks}
use ivc_checkpoints.Ops.{OpWitness}
use ivc_checkpoints.Native.{EpochExecutor, Result, Request, load_of, spend_of, perform, run}
use ivc_checkpoints.Native.Epoch.{SameToken, AllSameToken}
use ivc_checkpoints.Hashes.{Hashes}
use ivc_checkpoints.Prover.Workload.{
  WorkloadSpec, total_ops, token, pool, account_keys, payee_keys, perform_each, load_at, spend_at,
  at_least_one, count_nets, withdrawals, op_stream,
}
use ivc_checkpoints.Prover.Workload.Genesis.{IsHolder, AllHolders, get_elem-IsHolder, IsGenesis}

AllSameToken-append :
    (x : EpochExecutor) (rs qs : List Request)
    → AllSameToken x rs
    → AllSameToken x qs
    → AllSameToken x (rs ++ qs)
AllSameToken-append x [] qs a b = b
AllSameToken-append x (r ∷ rs) qs a b = (a.0, AllSameToken-append x rs qs a.1 b)

length-map_lem {ℓ} : {A : Type ℓ} (f : ℕ → A) (is : List ℕ) → length (map f is) ≡ length is
length-map_lem f [] = refl
length-map_lem f (i ∷ is) = ap suc (length-map_lem f is)

withdrawals-AllSameToken :
    (tok : ℕ) (x : EpochExecutor) (keys amounts : List ℕ)
    → AllHolders tok x keys
    → IsHolder tok x x.sink_key
    → AllSameToken x (withdrawals tok keys amounts)
      × (length (withdrawals tok keys amounts) ≤ length keys)
unfolding withdrawals
withdrawals-AllSameToken tok x [] amounts all sink = (tt, omega arith)
withdrawals-AllSameToken tok x (key ∷ keys) [] all sink = (tt, omega arith)
withdrawals-AllSameToken tok x (key ∷ keys) (amount ∷ amounts) all sink =
    let (same, le) = withdrawals-AllSameToken tok x keys amounts all.1 sink in
    elim (Bool-cases (ltb 0 amount)) [
      | inl e ↦ rw e (((all.0, sink), same), omega (arith, le))
      | inr e ↦ rw e (same, omega (arith, le))
    ]

module _ (F : Arkworks) where
  run-cons :
      (x y z : EpochExecutor) (r : Request) (w : OpWitness) (rs : List Request)
      (ws : List OpWitness)
      → perform F x r ≡ ok (y, w)
      → run F y rs ≡ ok (z, ws)
      → run F x (r ∷ rs) ≡ ok (z, w ∷ ws)
  unfolding run
  run-cons x y z r w rs ws e h = rw (e, h) refl

  -- Two sequences of calls, one after the other.
  pub run-append :
      (rs qs : List Request) (x y z : EpochExecutor) (ws vs : List OpWitness)
      → run F x rs ≡ ok (y, ws)
      → run F y qs ≡ ok (z, vs)
      → run F x (rs ++ qs) ≡ ok (z, ws ++ vs)
  unfolding run
  run-append [] qs x y z ws vs h h' =
      subst (λ r. run F r.0 qs ≡ ok (z, vs) → run F x qs ≡ ok (z, r.1 ++ vs)) (ok-injective h)
        (λ e. e) h'
  run-append (r ∷ rs) qs x y z ws vs h h' =
      let ((x₁, w), e, h₁) = >>=-ok (perform F x r) _ h in
      let ((y', ws'), e', h₂) = >>=-ok (run F x₁ rs) _ h₁ in
      subst (λ p. run F p.0 qs ≡ ok (z, vs) → run F x (r ∷ (rs ++ qs)) ≡ ok (z, p.1 ++ vs))
        (ok-injective h₂)
        (λ q. run-cons x x₁ z r w (rs ++ qs) (ws' ++ vs) e (run-append rs qs x₁ y' z ws' vs e' q))
        h'

module _ (H : Hashes) (F : Arkworks) (B D : ℕ) where
  -- A loop that returns has issued one call a round.
  abbrev Issued : EpochExecutor → EpochExecutor → EpochExecutor → List OpWitness → ℕ → Type 0
  Issued g x x' ops n =
      (rs : List Request) × (run F x rs ≡ ok (x', ops)) × AllSameToken g rs × (length rs ≡ n)

  perform_each-Issued :
      (g : EpochExecutor) (next : ℕ → Result Request)
      → ((i : ℕ) (r : Request) → next i ≡ ok r → SameToken g r)
      → (is : List ℕ) (x : EpochExecutor) (p : EpochExecutor × List OpWitness)
      → perform_each H F B D next is x ≡ ok p
      → Issued g x p.0 p.1 (length is)
  unfolding perform_each
  perform_each-Issued g next same [] x p h =
      subst (λ q. Issued g x q.0 q.1 0) (ok-injective h) ([], unfold run in refl, tt, refl)
  perform_each-Issued g next same (i ∷ is) x p h =
      let (r, e, h₁) = >>=-ok (next i) _ h in
      let ((y, w), e', h₂) = >>=-ok (perform F x r) _ h₁ in
      let ((z, ws), e'', h₃) = >>=-ok (perform_each H F B D next is y) _ h₂ in
      let (rs, c, all, len) = perform_each-Issued g next same is y (z, ws) e'' in
      subst (λ q. Issued g x q.0 q.1 (suc (length is))) (ok-injective h₃)
        (r ∷ rs, run-cons F x y z r w rs ws e' c, (same i r e, all), ap suc len)

  module _ (small : 2 ^ D < 2 ^ 64) (spec : WorkloadSpec) (g : EpochExecutor)
      (c : IsGenesis H F B D small spec g) where
    load_at-SameToken : (i : ℕ) (r : Request) → load_at H F B D spec i ≡ ok r → SameToken g r
    unfolding load_at
    load_at-SameToken i r h =
        let (b, e, h') = expect-ok _ _ _ h in
        subst (SameToken g) {x = load_of (pool H F B D) b (token H F B D) 1000} (ok-injective h') (
          c.pool_lem,
          get_elem-IsHolder (token H F B D) g (account_keys H F B D spec.n_accounts)
              (i % at_least_one spec.n_accounts) b c.accounts e,
        )

    spend_at-SameToken : (i : ℕ) (r : Request) → spend_at H F B D spec i ≡ ok r → SameToken g r
    unfolding spend_at
    spend_at-SameToken i r h =
        let (b, e, h₁) = expect-ok _ _ _ h in
        let (payee, e', h₂) = expect-ok _ _ _ h₁ in
        subst (SameToken g) {x = spend_of b payee (token H F B D) 1} (ok-injective h₂) (
          get_elem-IsHolder (token H F B D) g (account_keys H F B D spec.n_accounts)
              (i % at_least_one spec.n_accounts) b c.accounts e,
          get_elem-IsHolder (token H F B D) g (payee_keys H F B D spec.n_payees)
              (i % at_least_one spec.n_payees) payee c.payees e',
        )

    length-payee_keys : length (payee_keys H F B D spec.n_payees) ≡ spec.n_payees
    unfolding payee_keys
    length-payee_keys =
        length-map_lem _ (range_from 0 spec.n_payees) ∙ length-range_from 0 spec.n_payees

    -- The operation stream after genesis is a sequence of calls on accounts of the token.
    pub op_stream-run :
        (x : EpochExecutor) (ops : List OpWitness)
        → op_stream H F B D spec g ≡ ok (x, ops)
        → (rs : List Request) × (run F g rs ≡ ok (x, ops))
          × AllSameToken g rs
          × (length rs ≤ total_ops spec)
    unfolding op_stream
    op_stream-run x ops h =
        let ((x₁, ws₁), e₁, h₁) =
          >>=-ok (perform_each H F B D (load_at H F B D spec) (range_from 0 spec.loads) g) _ h in
        let ((x₂, ws₂), e₂, h₂) =
          >>=-ok (perform_each H F B D (spend_at H F B D spec) (range_from 0 spec.spends) x₁) _
            h₁ in
        let (amounts, _, h₃) =
          >>=-ok (count_nets spec.n_payees (range_from 0 spec.spends) (replicate spec.n_payees 0)) _
            h₂ in
        let qs₃ = withdrawals (token H F B D) (payee_keys H F B D spec.n_payees) amounts in
        let ((x₃, ws₃), e₃, h₄) = >>=-ok (run F x₂ qs₃) _ h₃ in
        let (qs₁, c₁, a₁, l₁) = perform_each-Issued g _ load_at-SameToken _ g (x₁, ws₁) e₁ in
        let (qs₂, c₂, a₂, l₂) = perform_each-Issued g _ spend_at-SameToken _ x₁ (x₂, ws₂) e₂ in
        let (a₃, l₃) =
          withdrawals-AllSameToken (token H F B D) g (payee_keys H F B D spec.n_payees) amounts
            c.payees c.sink in
        (
          qs₁ ++ (qs₂ ++ qs₃),
          run-append F qs₁ (qs₂ ++ qs₃) g x₁ x₃ ws₁ (ws₂ ++ ws₃) c₁
                (run-append F qs₂ qs₃ x₁ x₂ x₃ ws₂ ws₃ c₂ e₃)
              ∙ h₄,
          AllSameToken-append g qs₁ (qs₂ ++ qs₃) a₁ (AllSameToken-append g qs₂ qs₃ a₂ a₃),
          omega (
            arith,
            length-append qs₁ (qs₂ ++ qs₃),
            length-append qs₂ qs₃,
            l₁,
            l₂,
            l₃,
            length-range_from 0 spec.loads,
            length-range_from 0 spec.spends,
            length-payee_keys,
          ),
        )
