-- ===== src/Prover/Workload/Canonical.antt =====
-- The siblings of a workload's exit witness are field elements in their canonical form.
use ivc_checkpoints.Prelude.{
  ℕ, ◌^◌, ◌<◌, ◌≡◌, sym, subst, List, [], ◌∷◌, some, arith, Option-cases, inl, inr,
}
use ivc_checkpoints.Prelude.Results.{>>=-ok, ok, ok-injective}
use ivc_checkpoints.Prelude.Dict.{lookup}
use ivc_checkpoints.Field.{Arkworks, IsField}
use ivc_checkpoints.Hashes.{Hashes}
use ivc_checkpoints.Imt.{siblings}
use ivc_checkpoints.Native.{EpochExecutor, ExitPath, exit_witness, register, new}
use ivc_checkpoints.Native.Epoch.{run-run_ops}
use ivc_checkpoints.Native.Canonical.{
  AllBelow, IsCanonical, register-IsCanonical, run-IsCanonical, new-IsCanonical, siblings-AllBelow,
}
use ivc_checkpoints.Prover.Workload.{
  WorkloadSpec, Workload, total_ops, build, genesis, register_all, account_keys, payee_keys, token,
  pool,
}
use ivc_checkpoints.Prover.Workload.Proven.{build-IsBuilt}

exit_witness-siblings :
    (x : EpochExecutor) (key : ℕ) (p : ExitPath)
    → exit_witness x key ≡ some p
    → (slot : ℕ) × (p.siblings ≡ siblings x.tree slot)
unfolding exit_witness
exit_witness-siblings x key p h = elim (Option-cases (lookup key x.slots)) [
  | inl e ↦ absurd (ground arith)
  | inr (slot, e) ↦ elim (Option-cases (lookup key x.balances)) [
    | inl e' ↦ absurd (ground arith)
    | inr (b, e') ↦ elim (Option-cases (lookup key x.nonces)) [
      | inl e'' ↦ absurd (ground arith)
      | inr (n, e'') ↦ (slot, ground arith)
    ]
  ]
]

module _ (H : Hashes) (F : Arkworks) (B D : ℕ) (field : IsField F) where
  register_all-IsCanonical :
      (keys : List ℕ) (x x' : EpochExecutor)
      → register_all H F B D keys x ≡ ok x'
      → IsCanonical F field x.tree
      → IsCanonical F field x'.tree
  unfolding register_all
  register_all-IsCanonical [] x x' h c = subst (λ y. IsCanonical F field y.tree) (ok-injective h) c
  register_all-IsCanonical (key ∷ keys) x x' h c =
      let (y, e, h') = >>=-ok (register F D x key (token H F B D) 0 0) _ h in
      register_all-IsCanonical keys y x' h' (register-IsCanonical F field D x key _ 0 0 y e c)

  genesis-IsCanonical :
      (spec : WorkloadSpec) (x : EpochExecutor)
      → genesis H F B D spec ≡ ok x
      → IsCanonical F field x.tree
  unfolding genesis
  genesis-IsCanonical spec x h =
      let start = new F D in
      let (x₁, e₁, h₁) = >>=-ok (register F D start start.sink_key (token H F B D) 0 0) _ h in
      let (x₂, e₂, h₂) = >>=-ok (register F D x₁ (pool H F B D) (token H F B D) _ 0) _ h₁ in
      let (x₃, e₃, h₃) =
        >>=-ok (register_all H F B D (account_keys H F B D spec.n_accounts) x₂) _ h₂ in
      register_all-IsCanonical (payee_keys H F B D spec.n_payees) x₃ x h₃ (
        register_all-IsCanonical (account_keys H F B D spec.n_accounts) x₂ x₃ e₃ (
          register-IsCanonical F field D x₁ _ _ _ 0 x₂ e₂
            (register-IsCanonical F field D start _ _ 0 0 x₁ e₁ (new-IsCanonical F field D))))

  pub exit_siblings-AllBelow :
      (small : 2 ^ D < 2 ^ 64) (spec : WorkloadSpec) (epoch : ℕ) (w : Workload)
      → spec.loads < 2 ^ 64
      → total_ops spec < 2 ^ 64
      → build H F B D spec epoch ≡ ok w
      → AllBelow F.modulus w.exit.siblings
  exit_siblings-AllBelow small spec epoch w loads ops h =
      let b = build-IsBuilt H F B D field small spec epoch w loads ops h in
      let (ready, _) = run-run_ops F D field b.rs b.start b.final b.ws b.ready b.calls in
      let (slot, e) = exit_witness-siblings b.final w.exit.key _ b.made.path in
      subst (AllBelow F.modulus) (sym e) (
        siblings-AllBelow F field b.final.tree slot ready.valid.consistent (
          run-IsCanonical F field b.rs b.start (b.final, b.ws) b.calls
            (genesis-IsCanonical spec b.start b.opened)))
