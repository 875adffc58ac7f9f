-- ===== src/Native/Covered.antt =====
-- A sequence of calls returns if the balances cover its demand at the start.
use ivc_checkpoints.Prelude.Results.{ok, panic, ok-injective, >>=-ok}
use ivc_checkpoints.Prelude.{
  ℕ, ◌+◌, ◌^◌, ◌≤◌, ◌<◌, ◌≡◌, refl, ap, ◌∙◌, subst, List, [], ◌∷◌, some, arith,
}
use ivc_checkpoints.Prelude.Dict.{total}
use ivc_checkpoints.Field.{Arkworks}
use ivc_checkpoints.Ops.{OpWitness}
use ivc_checkpoints.Native.{EpochExecutor, Result, Request, perform, run}
use ivc_checkpoints.Native.Book.{Book, post_all-covered, demand, income}
use ivc_checkpoints.Native.Open.{book_of, seen, IsOpen, AllOpen}
use ivc_checkpoints.Native.Refined.{perform-IsStep, run-refines}

seen-some :
    (result : Result (EpochExecutor × List OpWitness)) (b : Book)
    → seen result ≡ some b
    → (p : EpochExecutor × List OpWitness) × (result ≡ ok p) × (book_of p.0 ≡ b)
seen-some (panic why) b h = cc
seen-some (ok p) b h = (p, refl, cc h)

module _ (F : Arkworks) where
  -- What a sequence that returns keeps.
  pub record Keeps (x x' : EpochExecutor) : Type 0 where
    pub supply : total x'.balances ≡ total x.balances
    pub sink : x'.sink_key ≡ x.sink_key
    pub open_lem : (tok k : ℕ) → IsOpen x tok k → IsOpen x' tok k

  pub run-Keeps :
      (rs : List Request) (x : EpochExecutor) (p : EpochExecutor × List OpWitness)
      → total x.balances < 2 ^ 128
      → run F x rs ≡ ok p
      → Keeps x p.0
  unfolding run
  run-Keeps [] x p small h =
      subst (λ q. Keeps x q.0) (ok-injective h)
        (record { supply = refl; sink = refl; open_lem = λ tok k o. o })
  run-Keeps (r ∷ rs) x p small h =
      let ((y, w), e, h₁) = >>=-ok (perform F x r) _ h in
      let ((z, ws), e', h₂) = >>=-ok (run F y rs) _ h₁ in
      let s = perform-IsStep F x y r w small e in
      let rest = run-Keeps rs y (z, ws) (omega (arith, s.supply, small)) e' in
      subst (λ q. Keeps x q.0) (ok-injective h₂)
        (record {
          supply = rest.supply ∙ s.supply;
          sink = rest.sink ∙ s.sink;
          open_lem = λ tok k o. rest.open_lem tok k (s.kept tok k o);
        })

  -- The run of a covered sequence.
  pub record IsCovered (x : EpochExecutor) (rs : List Request) : Type 0 where
    pub after : EpochExecutor
    pub ws : List OpWitness
    pub calls : run F x rs ≡ ok (after, ws)
    pub keeps : Keeps x after
    pub balance_lem :
        (k : ℕ)
        → (book_of after).balance k + demand k rs ≡ (book_of x).balance k + income x.sink_key k rs

  pub run-covered :
      (rs : List Request) (x : EpochExecutor)
      → total x.balances < 2 ^ 128
      → AllOpen x rs
      → ((k : ℕ) → demand k rs ≤ (book_of x).balance k)
      → IsCovered x rs
  run-covered rs x small all enough =
      let (b, e, balances) = post_all-covered x.sink_key rs (book_of x) enough in
      let (p, calls, same) = seen-some (run F x rs) b (run-refines F rs x small all ∙ e) in
      record {
        after = p.0;
        ws = p.1;
        calls = calls;
        keeps = run-Keeps rs x p small calls;
        balance_lem = λ k. ap (λ (c : Book). c.balance k + demand k rs) same ∙ balances k;
      }
