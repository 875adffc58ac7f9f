-- ===== src/Prover/Workload/Sized.antt =====
-- How many batches a workload has.
use ivc_checkpoints.Prelude.{
  ℕ, suc, ◌+◌, ◌-◌, ◌*◌, ◌^◌, ◌≤◌, ◌<◌, ◌≡◌, sym, ap, ◌∙◌, Option, none, some, List, [], ◌∷◌, ◌++◌,
  arith, length, length-append, length-range_from, replicate, range_from, leb, Bool-cases, inl, inr,
}
use ivc_checkpoints.Prelude.Results.{>>=-ok, ok, ok-injective}
use ivc_checkpoints.Field.{Arkworks, IsField}
use ivc_checkpoints.Hashes.{Hashes}
use ivc_checkpoints.Ops.{OpWitness, EpochStepInput, padding, default_input}
use ivc_checkpoints.Native.{Result, EpochExecutor, Request, perform, run}
use ivc_checkpoints.Prover.{chunk_into_batches, pad_to_steps}
use ivc_checkpoints.Prover.Chunks.{flatten, chunk_into_batches-flatten}
use ivc_checkpoints.Prover.Workload.{
  WorkloadSpec, Workload, total_ops, build, perform_each, load_at, spend_at, count_nets, op_stream,
  withdrawals, token, payee_keys,
}
use ivc_checkpoints.Prover.Workload.Assembled.{length-flatten}
use ivc_checkpoints.Prover.Workload.Proven.{build-IsBuilt}

two_batches : (B m : ℕ) (bs : List EpochStepInput) → length bs * B ≡ m → B < m → 2 ≤ length bs
two_batches B m [] e h = absurd (omega (arith, e))
two_batches B m (b ∷ []) e h = absurd (omega (arith, e))
two_batches B m (b ∷ c ∷ bs) e h = omega arith

length-pad_to_steps-le :
    (B D : ℕ) (steps : Option ℕ) (bs out : List EpochStepInput)
    → pad_to_steps B D steps bs ≡ some out
    → length bs ≤ length out
unfolding pad_to_steps
length-pad_to_steps-le B D none bs out h = ground arith
length-pad_to_steps-le B D (some target) bs out h = elim (Bool-cases (leb (length bs) target)) [
  | inl le ↦
      let pads = replicate (target - length bs) (default_input B D) in
      let eq : bs ++ pads ≡ out = ground arith in omega (arith, length-append bs pads, ap length eq)
  | inr gt ↦ absurd (ground arith)
]

module _ (H : Hashes) (F : Arkworks) (B D : ℕ) where
  length-perform_each :
      (next : ℕ → Result Request) (is : List ℕ) (x : EpochExecutor)
      (r : EpochExecutor × List OpWitness)
      → perform_each H F B D next is x ≡ ok r
      → length r.1 ≡ length is
  unfolding perform_each
  length-perform_each next [] x r h = sym (ap (λ q. length q.1) (ok-injective h))
  length-perform_each next (i ∷ is) x r h =
      let (q, _, h₁) = >>=-ok (next i) _ h in
      let ((y, w), _, h₂) = >>=-ok (perform F x q) _ h₁ in
      let ((z, ws), e, h₃) = >>=-ok (perform_each H F B D next is y) _ h₂ in
      sym (ap (λ q. length q.1) (ok-injective h₃))
      ∙ ap suc (length-perform_each next is y (z, ws) e)

  length-op_stream :
      (spec : WorkloadSpec) (x x' : EpochExecutor) (ws : List OpWitness)
      → op_stream H F B D spec x ≡ ok (x', ws)
      → spec.loads + spec.spends ≤ length ws
  unfolding op_stream
  length-op_stream spec x x' ws h =
      let loads = range_from 0 spec.loads in
      let spends = range_from 0 spec.spends in
      let ((x₁, ws₁), e₁, h₁) = >>=-ok (perform_each H F B D (load_at H F B D spec) loads x) _ h in
      let ((x₂, ws₂), e₂, h₂) =
        >>=-ok (perform_each H F B D (spend_at H F B D spec) spends x₁) _ h₁ in
      let (amounts, _, h₃) =
        >>=-ok (count_nets spec.n_payees spends (replicate spec.n_payees 0)) _ h₂ in
      let qs = withdrawals (token H F B D) (payee_keys H F B D spec.n_payees) amounts in
      let ((x₃, ws₃), _, h₄) = >>=-ok (run F x₂ qs) _ h₃ in
      omega (
        arith,
        ap (λ q. length q.1) (ok-injective h₄),
        length-append ws₁ (ws₂ ++ ws₃),
        length-append ws₂ ws₃,
        length-perform_each (load_at H F B D spec) loads x (x₁, ws₁) e₁,
        length-perform_each (spend_at H F B D spec) spends x₁ (x₂, ws₂) e₂,
        length-range_from 0 spec.loads,
        length-range_from 0 spec.spends,
      )

  -- More loads and spends than a batch holds fill at least two batches.
  pub build-two_batches :
      (field : IsField F) (small : 2 ^ D < 2 ^ 64) (pos : 0 < B) (spec : WorkloadSpec) (epoch : ℕ)
      (w : Workload)
      → spec.loads < 2 ^ 64
      → total_ops spec < 2 ^ 64
      → build H F B D spec epoch ≡ ok w
      → B < spec.loads + spec.spends
      → 2 ≤ length w.batches
  build-two_batches field small pos spec epoch w loads ops h many =
      let b = build-IsBuilt H F B D field small spec epoch w loads ops h in
      let (k, _, e, full) = chunk_into_batches-flatten B D b.ws pos in
      let bs = chunk_into_batches B D b.ws in
      let size : length bs * B ≡ length (flatten bs) = sym (length-flatten B bs full) in
      let enough = two_batches B (length (flatten bs)) bs size (
        omega (
          arith,
          ap length e,
          length-append b.ws (replicate k (padding D)),
          length-op_stream spec b.start b.final b.ws b.streamed,
        )) in
      omega (arith, enough, length-pad_to_steps-le B D spec.pad_to_steps bs w.batches b.made.padded)
