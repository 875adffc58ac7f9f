-- ===== src/Cli/Total.antt =====
-- The epoch program returns for the scales that it knows.
use text.Mathlib.Text
use Prim.Native.String.{String}
use ivc_checkpoints.Prelude.{
  ℕ, ◌+◌, ◌*◌, ◌^◌, ◌<◌, ◌≤◌, ◌≡◌, ◌⊎◌, subst, Option, some, arith, Bool-cases, inl, inr, length,
  get_or,
}
use ivc_checkpoints.Prelude.Results.{ok}
use ivc_checkpoints.Field.{Arkworks, IsField}
use ivc_checkpoints.Hashes.{Hashes}
use ivc_checkpoints.Prover.Workload.{
  WorkloadSpec, small, large_daily, total_ops, with_pad_to_steps, Workload, build, pool,
  account_keys, payee_keys,
}
use ivc_checkpoints.Prover.Workload.Opened.{Avoids}
use ivc_checkpoints.Prover.Workload.Completed.{IsFunding}
use ivc_checkpoints.Prover.Workload.Sized.{build-two_batches}
use ivc_checkpoints.Prover.Workload.Total.{build-returns}
use ivc_checkpoints.Prover.Epoch.{Sonobe, fr_to_hex}
use ivc_checkpoints.Prover.Epoch.Folding.{IsFolding, IsComplete}
use ivc_checkpoints.Cli.{Args, spec_of_scale, Encoding, ProofJson, main}
use ivc_checkpoints.Cli.Returned.{spec_of_scale-bounded, main-returns}

small-or-large :
    (scale : String) (spec : WorkloadSpec)
    → spec_of_scale scale ≡ some spec
    → (small ≡ spec) ⊎ (large_daily ≡ spec)
unfolding spec_of_scale
small-or-large scale spec h = elim (Bool-cases (Text.◌==◌ scale "small")) [
  | inl e ↦ inl (ground arith)
  | inr e ↦ elim (Bool-cases (Text.◌==◌ scale "large")) [
    | inl e' ↦ inr (ground arith)
    | inr e' ↦ absurd (ground arith)
  ]
]

module _ (H : Hashes) (F : Arkworks) (B D : ℕ) where
  spec_of_scale-IsFunding :
      (scale : String) (spec : WorkloadSpec) (pad : Option ℕ)
      → spec_of_scale scale ≡ some spec
      → IsFunding H F B D (with_pad_to_steps spec pad)
  spec_of_scale-IsFunding scale spec pad h = elim (small-or-large scale spec h) [
    | inl e ↦
        subst (λ s. IsFunding H F B D (with_pad_to_steps s pad)) e
          (record {
            some_payee = omega arith;
            some_account = omega arith;
            loaded = omega arith;
            spent = omega arith;
            bounded = omega arith;
            bounded_spends = omega arith;
          })
    | inr e ↦
        subst (λ s. IsFunding H F B D (with_pad_to_steps s pad)) e
          (record {
            some_payee = omega arith;
            some_account = omega arith;
            loaded = omega arith;
            spent = omega arith;
            bounded = omega arith;
            bounded_spends = omega arith;
          })
  ]

module _ {Params Keys Ivc DeciderProof : Type 0} (S : Sonobe Params Keys Ivc DeciderProof)
    (C : Encoding) (H : Hashes) (F : Arkworks) (B D : ℕ) (field : IsField F)
    (small_tree : 2 ^ D < 2 ^ 64) (pos : 0 < B) (folding : IsFolding S F B)
    (complete : IsComplete S F B) where
  -- With a folding library that is complete for at least two satisfied steps, batches that are not
  -- empty and a tree of fewer than 2 ^ 64 leaves, and for a known scale whose loads and spends are
  -- more than a batch holds and whose operations fit in the requested steps, in a tree with room
  -- for its accounts, none of which has the key of the pool: the workload builds and the program
  -- returns. The object that it writes has one step a batch, and the roots and the nets accumulator
  -- of the workload's own states.
  pub main-runs :
      (args : Args) (spec : WorkloadSpec)
      → spec_of_scale args.scale ≡ some spec
      → B < spec.loads + spec.spends
      → 2 + spec.n_accounts + spec.n_payees ≤ 2 ^ D
      → ((target : ℕ) → args.pad_steps ≡ some target → total_ops spec ≤ target * B)
      → Avoids (pool H F B D) (account_keys H F B D spec.n_accounts)
      → Avoids (pool H F B D) (payee_keys H F B D spec.n_payees)
      → (w : Workload) × (out : ProofJson) × (build H F B D
            (with_pad_to_steps spec args.pad_steps)
            args.epoch
          ≡ ok w)
        × (main S C H F B D args ≡ ok out)
        × (out.steps ≡ length w.batches)
        × (out.prev_state_root ≡ fr_to_hex C.to_bytes_be C.encode (get_or w.z0 0 0))
        × (out.new_state_root ≡ fr_to_hex C.to_bytes_be C.encode (get_or w.native_zn 0 0))
        × (out.nets_acc ≡ fr_to_hex C.to_bytes_be C.encode (get_or w.native_zn 2 0))
  main-runs args spec known many room fits apart apart' =
      let padded = with_pad_to_steps spec args.pad_steps in
      let (loads, ops) = spec_of_scale-bounded args.scale args.pad_steps spec known in
      let (w, built) =
        build-returns H F B D pos small_tree (with_pad_to_steps spec args.pad_steps)
          (spec_of_scale-IsFunding H F B D args.scale spec args.pad_steps known) args.epoch room
          fits apart apart' in
      let (out, returned, steps, prev, new, nets) =
        main-returns S C H F B D field small_tree pos folding complete args spec w known built (
          build-two_batches H F B D field small_tree pos padded args.epoch w loads ops built
            many) in
      (w, out, built, returned, steps, prev, new, nets)
