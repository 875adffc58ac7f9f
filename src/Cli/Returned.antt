-- ===== src/Cli/Returned.antt =====
-- The programs against the fold of the workload: the cross-check never fails.
use text.Mathlib.Text
use Prim.Native.String.{String}
use ivc_checkpoints.Prelude.{
  ℕ, ◌+◌, ◌^◌, ◌<◌, ◌≤◌, ◌≡◌, refl, sym, ap, ◌∙◌, subst, true, List, [], ◌∷◌, Option, some, arith,
  ==_refl, Bool-cases, inl, inr, length, get_elem?, get_or,
}
use ivc_checkpoints.Prelude.Results.{ok, ◌>>=◌, ◌>>◌, assert, expect-then}
use ivc_checkpoints.Field.{Arkworks, IsField}
use ivc_checkpoints.Hashes.{Hashes}
use ivc_checkpoints.Native.{state}
use ivc_checkpoints.Prover.Workload.{
  WorkloadSpec, small, large_daily, total_ops, with_pad_to_steps, Workload, build,
}
use ivc_checkpoints.Prover.Workload.Proven.{build-IsBuilt, build-fold}
use ivc_checkpoints.Prover.Epoch.{Sonobe, EpochArtifacts, prove_epoch, fr_to_hex}
use ivc_checkpoints.Prover.Epoch.Folding.{circuit_nova, circuit_nova-IsNova, IsFolding, IsComplete}
use ivc_checkpoints.Prover.Epoch.Proved.{prove_epoch-outputs, fold-outputs, prove_epoch-returns}
use ivc_checkpoints.Cli.{
  Args, unknown_scale, zn_mismatch, index_out_of_range, build_panicked, prove_failed, spec_of_scale,
  map_error, same_values, Encoding, ProofJson, prove_workload, proof_json, main,
}

same_values_refl : (xs : List ℕ) → same_values xs xs ≡ true
same_values_refl [] = refl
same_values_refl (x ∷ xs) = ground (arith, ==_refl x, same_values_refl xs)

-- The workloads of the programs are of 64-bit size.
pub spec_of_scale-bounded :
    (scale : String) (pad : Option ℕ) (spec : WorkloadSpec)
    → spec_of_scale scale ≡ some spec
    → ((with_pad_to_steps spec pad).loads < 2 ^ 64)
      × (total_ops (with_pad_to_steps spec pad) < 2 ^ 64)
unfolding spec_of_scale
spec_of_scale-bounded scale pad spec h = elim (Bool-cases (Text.◌==◌ scale "small")) [
  | inl e ↦
      let same : small ≡ spec = ground arith in
      subst (λ (s : WorkloadSpec). (s.loads < 2 ^ 64) × (s.loads + s.spends + s.n_payees < 2 ^ 64))
        same (omega arith, omega arith)
  | inr e ↦ elim (Bool-cases (Text.◌==◌ scale "large")) [
    | inl e' ↦
        let same : large_daily ≡ spec = ground arith in
        subst
          (λ (s : WorkloadSpec). (s.loads < 2 ^ 64) × (s.loads + s.spends + s.n_payees < 2 ^ 64))
          same (omega arith, omega arith)
    | inr e' ↦ absurd (ground arith)
  ]
]

module _ {Params Keys Ivc DeciderProof : Type 0} (S : Sonobe Params Keys Ivc DeciderProof)
    (C : Encoding) (H : Hashes) (F : Arkworks) (B D : ℕ) (field : IsField F)
    (small_tree : 2 ^ D < 2 ^ 64) (pos : 0 < B) (folding : IsFolding S F B)
    (complete : IsComplete S F B) where
  -- The workload and its artifacts.
  prove_workload-returns :
      (spec : WorkloadSpec) (epoch : ℕ) (w : Workload)
      → spec.loads < 2 ^ 64
      → total_ops spec < 2 ^ 64
      → build H F B D spec epoch ≡ ok w
      → 2 ≤ length w.batches
      → (art : EpochArtifacts) × (prove_workload S C H F B D spec epoch ≡ ok (w, art))
        × (art.zn ≡ w.native_zn)
        × (art.steps ≡ length w.batches)
        × (art.z0 ≡ w.z0)
  unfolding prove_workload state
  prove_workload-returns spec epoch w loads ops h two =
      let (folded, _) =
        build-fold H F B D field small_tree (circuit_nova F B) (circuit_nova-IsNova F B) pos spec
          epoch w loads ops h in
      let b = build-IsBuilt H F B D field small_tree spec epoch w loads ops h in
      let (art, e) =
        prove_epoch-returns S F B D folding epoch w.token_id w.z0 w.native_zn (length w.batches)
          w.batches w.nets w.transfers_root complete (ap length (sym b.unfolded.0)) two folded in
      let (again, steps, z0) =
        prove_epoch-outputs S F B D folding epoch w.token_id w.z0 w.batches w.nets w.transfers_root
          art e in
      let computed = fold-outputs S F B D folding w.batches w.z0 w.native_zn _ folded in
      let zn : art.zn ≡ w.native_zn = cc (computed, again) in
      let checked = ap (λ z. same_values z w.native_zn) zn ∙ same_values_refl w.native_zn in
      (
        art,
        ap
              (λ b. map_error build_panicked b >>= λ wl.
                (map_error prove_failed (
                    prove_epoch S F B D epoch wl.token_id wl.z0 wl.batches wl.nets
                      wl.transfers_root)
                  >>= λ a. (assert (same_values a.zn wl.native_zn) zn_mismatch >> ok (wl, a))))
              h
            ∙ ap
                (λ b. map_error prove_failed b >>= λ a.
                  (assert (same_values a.zn w.native_zn) zn_mismatch >> ok (w, a)))
                e
            ∙ ap (λ b. assert b zn_mismatch >> ok (w, art)) checked,
        zn,
        steps,
        z0,
      )

  abbrev hex : ℕ → List ℕ
  hex = fr_to_hex C.to_bytes_be C.encode

  proof_json-returns :
      (w : Workload) (art : EpochArtifacts) (prev new ops nets : ℕ)
      → get_elem? art.z0 0 ≡ some prev
      → get_elem? art.zn 0 ≡ some new
      → get_elem? art.zn 1 ≡ some ops
      → get_elem? art.zn 2 ≡ some nets
      → (out : ProofJson) × (proof_json S C H F B D w art ≡ ok out)
        × (out.steps ≡ art.steps)
        × (out.prev_state_root ≡ hex prev)
        × (out.new_state_root ≡ hex new)
        × (out.nets_acc ≡ hex nets)
  unfolding proof_json
  proof_json-returns w art prev new ops nets e₁ e₂ e₃ e₄ = (
    _,
    expect-then (get_elem? art.z0 0) index_out_of_range _ e₁ (
        expect-then (get_elem? art.zn 0) index_out_of_range _ e₂ (
          expect-then (get_elem? art.zn 1) index_out_of_range _ e₃
            (expect-then (get_elem? art.zn 2) index_out_of_range _ e₄ refl))),
    refl,
    refl,
    refl,
    refl,
  )

  -- For arguments with a known scale whose workload builds, with at least two batches: the program returns and does not fail
  -- at the cross-check. The object that it writes has one step a batch, and the roots and the
  -- nets accumulator of the workload's own states.
  pub main-returns :
      (args : Args) (spec : WorkloadSpec) (w : Workload)
      → spec_of_scale args.scale ≡ some spec
      → build H F B D (with_pad_to_steps spec args.pad_steps) args.epoch ≡ ok w
      → 2 ≤ length w.batches
      → (out : ProofJson) × (main S C H F B D args ≡ ok out)
        × (out.steps ≡ length w.batches)
        × (out.prev_state_root ≡ hex (get_or w.z0 0 0))
        × (out.new_state_root ≡ hex (get_or w.native_zn 0 0))
        × (out.nets_acc ≡ hex (get_or w.native_zn 2 0))
  unfolding main state
  main-returns args spec w known h two =
      let padded = with_pad_to_steps spec args.pad_steps in
      let (loads, ops) = spec_of_scale-bounded args.scale args.pad_steps spec known in
      let (art, e, zn, steps, z0) = prove_workload-returns padded args.epoch w loads ops h two in
      let b = build-IsBuilt H F B D field small_tree padded args.epoch w loads ops h in
      let first = z0 ∙ sym b.unfolded.0 in
      let last = zn ∙ b.made.last in
      let (out, e', s, prev, new, nets) =
        proof_json-returns w art _ _ _ _ (ap (λ z. get_elem? z 0) first)
          (ap (λ z. get_elem? z 0) last) (ap (λ z. get_elem? z 1) last)
          (ap (λ z. get_elem? z 2) last) in
      (
        out,
        expect-then (spec_of_scale args.scale) unknown_scale _ known
            (ap (λ r. r >>= λ (wl, a). proof_json S C H F B D wl a) e ∙ e'),
        s ∙ steps,
        prev ∙ ap (λ z. hex (get_or z 0 0)) b.unfolded.0,
        new ∙ ap (λ z. hex (get_or z 0 0)) (sym b.made.last),
        nets ∙ ap (λ z. hex (get_or z 2 0)) (sym b.made.last),
      )
