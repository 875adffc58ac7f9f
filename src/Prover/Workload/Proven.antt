-- ===== src/Prover/Workload/Proven.antt =====
-- A workload against the fold of `prove_epoch`.
use ivc_checkpoints.Prelude.Results.{>>=-ok, expect-ok, ok, ok-injective}
use ivc_checkpoints.Prelude.{
  refl, ℕ, ◌^◌, ◌<◌, ◌≤◌, ◌≡◌, ap, ◌∙◌, sym, subst, List, Option, some, none, arith, inl, inr,
  Bool-cases, ◌==◌, leb, leb→le, length-append, get_elem?, length-replicate, replicate, ◌-◌, ◌&&◌,
  length, map, range_from,
}
use ivc_checkpoints.Field.{Arkworks, IsField}
use ivc_checkpoints.Ops.{OpWitness, EpochStepInput, default_input}
use ivc_checkpoints.Native.{EpochExecutor, run, Request, state, initial_state, exit_witness}
use ivc_checkpoints.Native.Epoch.{IsReady, AllSameToken}
use ivc_checkpoints.Prover.{Nova, IsNova, fold, chunk_into_batches}
use ivc_checkpoints.Prover
use ivc_checkpoints.Prover.Fold.{fold-run, fold-pad_to_steps}
use ivc_checkpoints.Hashes.{Hashes}
use ivc_checkpoints.Prover.Workload.{
  WorkloadSpec, Workload, total_ops, genesis, op_stream, assemble, build, account_keys, payee_keys,
  payee_addr, account_addr, epoch_token, net_entries,
}
use ivc_checkpoints.Prover.Workload.Genesis.{IsGenesis, genesis-IsGenesis}
use ivc_checkpoints.Prover.Workload.Requests.{op_stream-run}

pub initial_state_lem :
    (x : EpochExecutor) (z : List ℕ) → initial_state x ≡ ok z → (state x ≡ z) × (x.nets_acc ≡ 0)
unfolding initial_state state
initial_state_lem x z h = elim (Bool-cases (x.ops_acc == 0 && x.nets_acc == 0)) [
  | inl e ↦ ground arith
  | inr e ↦ absurd (ground arith)
]

module _ (H : Hashes) (F : Arkworks) (B D : ℕ) (field : IsField F) (small : 2 ^ D < 2 ^ 64) where
  pub genesis-IsReady :
      (spec : WorkloadSpec) (x : EpochExecutor) (rs : List Request)
      → spec.loads < 2 ^ 64
      → total_ops spec < 2 ^ 64
      → IsGenesis H F B D small spec x
      → AllSameToken x rs
      → length rs ≤ total_ops spec
      → IsReady F D x rs
  genesis-IsReady spec x rs loads ops g all len = record {
    valid = g.fresh.valid;
    supply = omega (arith, g.fresh.supply, loads);
    tokens = all;
    room = λ key n e. omega (arith, g.fresh.unused key n e, len, ops);
  }

  length-pad_to_steps :
      (target : ℕ) (bs out : List EpochStepInput)
      → Prover.pad_to_steps B D (some target) bs ≡ some out
      → length out ≡ target
  unfolding Prover.pad_to_steps
  length-pad_to_steps target bs out h = elim (Bool-cases (leb (length bs) target)) [
    | inl e ↦ ground (
      arith,
      leb→le (length bs) target e,
      length-append bs (replicate (target - length bs) (default_input B D)),
      length-replicate (target - length bs) (default_input B D),
    )
    | inr e ↦ absurd (ground arith)
  ]

  unpadded : (bs out : List EpochStepInput) → Prover.pad_to_steps B D none bs ≡ some out → bs ≡ out
  unfolding Prover.pad_to_steps
  unpadded bs out e = ground arith

  -- What the last part of `build` has computed with.
  pub record IsAssembled (spec : WorkloadSpec) (z0 : List ℕ) (x : EpochExecutor)
      (ws : List OpWitness) (w : Workload) : Type 0 where
    pub first : w.z0 ≡ z0
    pub last : w.native_zn ≡ state x
    pub padded :
        Prover.pad_to_steps B D spec.pad_to_steps (chunk_into_batches B D ws) ≡ some w.batches
    pub paid :
        net_entries
          (map payee_addr (range_from 0 spec.n_payees))
          (payee_keys H F B D spec.n_payees)
          x.nets
        ≡ ok w.nets
    pub account : get_elem? (account_keys H F B D spec.n_accounts) 0 ≡ some w.exit.key
    pub owner : (w.exit.owner ≡ account_addr 0) × (w.exit.token_id ≡ epoch_token)
    pub path :
        exit_witness x w.exit.key
        ≡ some (record {
          balance = w.exit.balance;
          nonce = w.exit.nonce;
          siblings = w.exit.siblings;
          index_bits = w.exit.is_right;
        })

  assemble-IsAssembled :
      (spec : WorkloadSpec) (epoch : ℕ) (z0 : List ℕ) (x : EpochExecutor) (ws : List OpWitness)
      (w : Workload)
      → assemble H F B D spec epoch z0 x ws ≡ ok w
      → IsAssembled spec z0 x ws w
  unfolding assemble
  assemble-IsAssembled spec epoch z0 x ws w h =
      let (account_0, e₁, h₁) =
        expect-ok (get_elem? (account_keys H F B D spec.n_accounts) 0) _ _ h in
      let (path, e₂, h₂) = expect-ok (exit_witness x account_0) _ _ h₁ in
      let (nets, e₃, h₃) =
        >>=-ok
          (net_entries (map payee_addr (range_from 0 spec.n_payees))
            (payee_keys H F B D spec.n_payees) x.nets)
          _ h₂ in
      let (bs, e₄, h₄) =
        expect-ok (Prover.pad_to_steps B D spec.pad_to_steps (chunk_into_batches B D ws)) _ _ h₃ in
      subst (IsAssembled spec z0 x ws) (ok-injective h₄) (record {
        first = refl;
        last = refl;
        padded = e₄;
        paid = e₃;
        account = e₁;
        owner = (refl, refl);
        path = e₂;
      })

  -- The run of the executor behind a workload.
  pub record IsBuilt (spec : WorkloadSpec) (w : Workload) : Type 0 where
    pub start : EpochExecutor
    pub final : EpochExecutor
    pub opened : genesis H F B D spec ≡ ok start
    pub ws : List OpWitness
    pub rs : List Request
    pub fresh : IsGenesis H F B D small spec start
    pub unfolded : (state start ≡ w.z0) × (start.nets_acc ≡ 0)
    pub streamed : op_stream H F B D spec start ≡ ok (final, ws)
    pub calls : run F start rs ≡ ok (final, ws)
    pub ready : IsReady F D start rs
    pub made : IsAssembled spec w.z0 final ws w

  pub build-IsBuilt :
      (spec : WorkloadSpec) (epoch : ℕ) (w : Workload)
      → spec.loads < 2 ^ 64
      → total_ops spec < 2 ^ 64
      → build H F B D spec epoch ≡ ok w
      → IsBuilt spec w
  unfolding build
  build-IsBuilt spec epoch w loads ops h =
      let (x, e₁, h₁) = >>=-ok (genesis H F B D spec) _ h in
      let (z0, e₂, h₂) = >>=-ok (initial_state x) _ h₁ in
      let ((x', ws), e₃, h₃) = >>=-ok (op_stream H F B D spec x) _ h₂ in
      let made = assemble-IsAssembled spec epoch z0 x' ws w h₃ in
      let g = genesis-IsGenesis H F B D small spec x e₁ in
      let (rs, c, all, len) = op_stream-run H F B D small spec x g x' ws e₃ in
      let (first, acc) = initial_state_lem x z0 e₂ in
      record {
        start = x;
        final = x';
        opened = e₁;
        ws = ws;
        rs = rs;
        fresh = g;
        unfolded = (first ∙ sym made.first, acc);
        streamed = e₃;
        calls = c;
        ready = genesis-IsReady spec x rs loads ops g all len;
        made = subst (λ z. IsAssembled spec z x' ws w) (sym made.first) made;
      }

  module _ (nova : Nova) (laws : IsNova F B nova) (pos : 0 < B) where
    fold-padded :
        (rs : List Request) (x x' : EpochExecutor) (ws : List OpWitness) (steps : Option ℕ)
        (out : List EpochStepInput)
        → IsReady F D x rs
        → run F x rs ≡ ok (x', ws)
        → Prover.pad_to_steps B D steps (chunk_into_batches B D ws) ≡ some out
        → (fold nova F B D (state x) out ≡ some (state x', length out))
          × ((target : ℕ) → steps ≡ some target → length out ≡ target)
    fold-padded rs x x' ws (some target) out c h p =
        let len = length-pad_to_steps target (chunk_into_batches B D ws) out p in
        (
          fold-pad_to_steps F B D nova laws rs x x' ws target out field pos c h p
              ∙ ap (λ n. some (state x', n)) (sym len),
          λ t e. ground (arith, len),
        )
    fold-padded rs x x' ws none out c h p = (
      subst (λ bs. fold nova F B D (state x) bs ≡ some (state x', length bs))
          (unpadded (chunk_into_batches B D ws) out p)
          (fold-run F B D nova laws rs x x' ws field pos c h),
      λ t e. absurd (ground arith),
    )

    -- A workload that builds, with 64-bit sizes: the fold of its batches from its first state
    -- runs through, takes one step a batch, the requested number if there is one, and ends at
    -- the state that the workload reports.
    pub build-fold :
        (spec : WorkloadSpec) (epoch : ℕ) (w : Workload)
        → spec.loads < 2 ^ 64
        → total_ops spec < 2 ^ 64
        → build H F B D spec epoch ≡ ok w
        → (fold nova F B D w.z0 w.batches ≡ some (w.native_zn, length w.batches))
          × ((target : ℕ) → spec.pad_to_steps ≡ some target → length w.batches ≡ target)
    build-fold spec epoch w loads ops h =
        let b = build-IsBuilt spec epoch w loads ops h in
        rw (sym b.unfolded.0, b.made.last)
          (fold-padded b.rs b.start b.final b.ws spec.pad_to_steps w.batches b.ready b.calls
            b.made.padded)
