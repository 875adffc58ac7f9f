-- ===== src/Prover/Epoch/Proved.antt =====
-- `prove_epoch` against runs of the step circuit.
use ivc_checkpoints.Prelude.{
  ℕ, zero, suc, ◌+◌, ◌≤◌, ◌≡◌, refl, sym, ap, ◌∙◌, subst, true, List, [], ◌∷◌, some, arith, ◌==◌,
  ==_iff, Bool-cases, Option-cases, inl, inr, length,
}
use ivc_checkpoints.Prelude.Results.{
  ok, ok-injective, expect-Returns, >>=-Returns, assert-Returns, expect-ok, >>=-ok, assert-ok,
}
use ivc_checkpoints.Field.{Arkworks}
use ivc_checkpoints.Ops.{EpochStepInput, new_variable}
use ivc_checkpoints.Circuit.{generate_step_constraints, state_len}
use ivc_checkpoints.Prover.{fold}
use ivc_checkpoints.Prover.Epoch.Folding.{
  SatisfiedRun, outputs, outputs-cons, accepted, accepted-some, circuit_nova, Folded, begun, folded,
  Honest, begun_honest, folded_honest, IsFolding, IsSound, IsComplete,
}
use ivc_checkpoints.Prover.Workload.{NetEntry}
use ivc_checkpoints.Prover.Epoch.{
  Sonobe, EpochArtifacts, last_is_one, skip, fold_epoch, verify_in_evm, decide, prove_epoch,
  prove_step_failed, preprocess_failed, decider_preprocess_failed, init_failed,
  decider_prove_failed, decider_verify_failed, prepare_calldata_failed, unexpected_word_count,
}

length-skip_lem : {A : Type 0} (n m : ℕ) (xs : List A) → length xs ≡ n + m → length (skip n xs) ≡ m
length-skip_lem zero m xs h = omega (arith, h)
length-skip_lem (suc n) m [] h = absurd (omega (arith, h))
length-skip_lem (suc n) m (x ∷ xs) h = length-skip_lem n m xs (omega (arith, h))

module _ {Params Keys Ivc DeciderProof : Type 0} (S : Sonobe Params Keys Ivc DeciderProof)
    (F : Arkworks) (B D : ℕ) where
  -- The artifacts of a folded state.
  abbrev pub IsOf : List NetEntry → Ivc → List ℕ → EpochArtifacts → Type 0
  IsOf nets v times art =
      (art.zn ≡ S.z_i v)
      × (art.z0 ≡ S.z_0 v)
      × (art.steps ≡ length times)
      × (length art.proof_words ≡ 25)
      × (art.nets ≡ nets)

  decide-IsOf :
      (epoch token_id : ℕ) (nets : List NetEntry) (transfers_root : List ℕ) (keys : Keys) (v : Ivc)
      (times : List ℕ) (art : EpochArtifacts)
      → decide S F B D epoch token_id nets transfers_root keys v times ≡ ok art
      → IsOf nets v times art
        × ((proof : DeciderProof) × (S.prove keys v ≡ some proof)
            × (S.verify keys v proof ≡ some true))
  unfolding decide
  decide-IsOf epoch token_id nets transfers_root keys v times art h =
      let (proof, made, h₅) = expect-ok (S.prove keys v) _ _ h in
      let (verified, checked, h₆) = expect-ok (S.verify keys v proof) _ _ h₅ in
      let (holds, h₇) = assert-ok verified _ _ h₆ in
      let (calldata, _, h₈) = expect-ok (S.prepare_calldata v proof) _ _ h₇ in
      let (gas, _, h₉) = >>=-ok (verify_in_evm S F B D (S.decider_template keys) calldata) _ h₈ in
      let (words, out) = assert-ok (length (S.formatted_calldata calldata) == 32) _ _ h₉ in
      (
        subst (IsOf nets v times) (ok-injective out) (
          refl,
          refl,
          refl,
          length-skip_lem 7 25 (S.formatted_calldata calldata) ((==_iff _ _).0 words),
          refl,
        ),
        (proof, made, checked ∙ ap some holds),
      )

  module _ (folding : IsFolding S F B) where
    -- The batches of the fold loop: its states are those that the step circuit computes.
    fold_epoch-outputs :
        (p : Params) (z0 : List ℕ) (n : ℕ) (bs : List EpochStepInput) (i : ℕ) (v : Ivc)
        (r : Ivc × List ℕ)
        → Folded S F B p z0 n v
        → fold_epoch S F B D i v bs ≡ ok r
        → (outputs F B D (S.z_i v) bs ≡ some (S.z_i r.0))
          × (S.z_0 r.0 ≡ S.z_0 v)
          × (length r.1 ≡ length bs)
          × Folded S F B p z0 (n + length bs) r.0
    unfolding fold_epoch outputs
    fold_epoch-outputs p z0 n [] i v r f h =
        let e = ok-injective h in
        (
          ap (λ q. some (S.z_i q.0)) e,
          sym (ap (λ q. S.z_0 q.0) e),
          sym (ap (λ q. length q.1) e),
          subst (λ (q : Ivc × List ℕ). Folded S F B p z0 (n + 0) q.0) e
              (subst (λ m. Folded S F B p z0 m v) {x = n} {y = n + 0} (omega arith) f),
        )
    fold_epoch-outputs p z0 n (b ∷ bs) i v r f h =
        let (v', e, h₁) =
          expect-ok (S.prove_step v (new_variable F D B b)) (prove_step_failed i) _ h in
        let ((v'', times), e', h₂) = >>=-ok (fold_epoch S F B D (suc i) v' bs) _ h₁ in
        let (holds, step, z0') = folding.computes v v' (new_variable F D B b) e in
        let (rest, z0'', len, done) =
          fold_epoch-outputs p z0 (suc n) bs (suc i) v' (v'', times)
            (folded f (new_variable F D B b) e) e' in
        let out = ok-injective h₂ in
        (
          outputs-cons F B D (S.z_i v) (S.z_i v') holds b bs step
              ∙ rest
              ∙ ap (λ q. some (S.z_i q.0)) out,
          sym (ap (λ q. S.z_0 q.0) out) ∙ z0'' ∙ z0',
          sym (ap (λ q. length q.1) out) ∙ ap suc len,
          subst (λ (q : Ivc × List ℕ). Folded S F B p z0 (n + suc (length bs)) q.0) out
              (subst (λ m. Folded S F B p z0 m v'') {x = suc n + length bs}
                {y = n + suc (length bs)} (omega arith) done),
        )

    -- What a proved epoch has gone through.
    record IsProved (z0 : List ℕ) (batches : List EpochStepInput) (nets : List NetEntry)
        (art : EpochArtifacts) : Type 0 where
      params : Params
      keys : Keys
      last : Ivc
      proof : DeciderProof
      key_lem : S.decider_preprocess params ≡ some keys
      history : Folded S F B params z0 (length batches) last
      made : S.prove keys last ≡ some proof
      verified : S.verify keys last proof ≡ some true
      end_lem : S.z_i last ≡ art.zn
      computed : outputs F B D z0 batches ≡ some art.zn
      steps : art.steps ≡ length batches
      first : art.z0 ≡ z0
      words : length art.proof_words ≡ 25
      same_nets : art.nets ≡ nets

    prove_epoch-IsProved :
        (epoch token_id : ℕ) (z0 : List ℕ) (batches : List EpochStepInput) (nets : List NetEntry)
        (transfers_root : List ℕ) (art : EpochArtifacts)
        → prove_epoch S F B D epoch token_id z0 batches nets transfers_root ≡ ok art
        → IsProved z0 batches nets art
    unfolding prove_epoch
    prove_epoch-IsProved epoch token_id z0 batches nets transfers_root art h =
        let (params, e₁, h₁) = expect-ok S.preprocess _ _ h in
        let (keys, e₂, h₂) = expect-ok (S.decider_preprocess params) _ _ h₁ in
        let (v, e₃, h₃) = expect-ok (S.init params z0) _ _ h₂ in
        let ((v', times), e₄, h₄) = >>=-ok (fold_epoch S F B D 0 v batches) _ h₃ in
        let ((zn, first_z0, steps, words, same), (proof, made, verified)) =
          decide-IsOf epoch token_id nets transfers_root keys v' times art h₄ in
        let (out, kept, len, history) =
          fold_epoch-outputs params z0 0 batches 0 v (v', times) (begun e₁ e₃) e₄ in
        let (first, current) = folding.starts params z0 v e₃ in
        record {
          params = params;
          keys = keys;
          last = v';
          proof = proof;
          key_lem = e₂;
          history =
              subst (λ n. Folded S F B params z0 n v') {x = 0 + length batches} {y = length batches}
                (omega arith) history;
          made = made;
          verified = verified;
          end_lem = sym zn;
          computed = ap (λ z. outputs F B D z batches) (sym current) ∙ out ∙ ap some (sym zn);
          steps = steps ∙ len;
          first = first_z0 ∙ kept ∙ first;
          words = words;
          same_nets = same;
        }

    -- The state of a proved epoch, without the soundness of its proof.
    pub prove_epoch-outputs :
        (epoch token_id : ℕ) (z0 : List ℕ) (batches : List EpochStepInput) (nets : List NetEntry)
        (transfers_root : List ℕ) (art : EpochArtifacts)
        → prove_epoch S F B D epoch token_id z0 batches nets transfers_root ≡ ok art
        → (outputs F B D z0 batches ≡ some art.zn) × (art.steps ≡ length batches) × (art.z0 ≡ z0)
    prove_epoch-outputs epoch token_id z0 batches nets transfers_root art h =
        let p = prove_epoch-IsProved epoch token_id z0 batches nets transfers_root art h in
        (p.computed, p.steps, p.first)

    -- An epoch that is proved, with a sound decider: its final state is the one that the step
    -- circuit computes on the batches from `z0`, and the end of as many satisfied steps from there
    -- as it has batches, on some inputs. The steps are counted, and the proof has 25 words.
    pub prove_epoch-SatisfiedRun :
        (epoch token_id : ℕ) (z0 : List ℕ) (batches : List EpochStepInput) (nets : List NetEntry)
        (transfers_root : List ℕ) (art : EpochArtifacts)
        → IsSound S F B
        → prove_epoch S F B D epoch token_id z0 batches nets transfers_root ≡ ok art
        → (outputs F B D z0 batches ≡ some art.zn)
          × SatisfiedRun F B z0 art.steps art.zn
          × (art.steps ≡ length batches)
          × (art.z0 ≡ z0)
          × (length art.proof_words ≡ 25)
          × (art.nets ≡ nets)
    prove_epoch-SatisfiedRun epoch token_id z0 batches nets transfers_root art sound h =
        let p = prove_epoch-IsProved epoch token_id z0 batches nets transfers_root art h in
        let run =
          sound p.params p.keys z0 (length batches) p.last p.proof p.key_lem p.history p.made
            p.verified in
        (
          p.computed,
          subst (λ n. SatisfiedRun F B z0 n art.zn) (sym p.steps)
              (subst (SatisfiedRun F B z0 (length batches)) p.end_lem run),
          p.steps,
          p.first,
          p.words,
          p.same_nets,
        )

    -- One satisfied step of the fold of the circuit, and the rest.
    fold-uncons :
        (z zn : List ℕ) (n : ℕ) (b : EpochStepInput) (bs : List EpochStepInput)
        → fold (circuit_nova F B) F B D z (b ∷ bs) ≡ some (zn, n)
        → (z' : List ℕ) × (m : ℕ) × (generate_step_constraints F B z (new_variable F D B b)
            ≡ some (z', true))
          × (fold (circuit_nova F B) F B D z' bs ≡ some (zn, m))
    unfolding fold
    fold-uncons z zn n b bs h =
        let o = generate_step_constraints F B z (new_variable F D B b) in
        elim (Option-cases (accepted F B o)) [
          | inl e ↦ absurd (ground arith)
          | inr (z', e) ↦ elim (Option-cases (fold (circuit_nova F B) F B D z' bs)) [
            | inl e' ↦ absurd (ground arith)
            | inr ((zn', m), e') ↦ (z', m, accepted-some F B o z' e, ground arith)
          ]
        ]

    pub fold-outputs :
        (bs : List EpochStepInput) (z zn : List ℕ) (n : ℕ)
        → fold (circuit_nova F B) F B D z bs ≡ some (zn, n)
        → outputs F B D z bs ≡ some zn
    unfolding outputs
    fold-outputs [] z zn n h = unfold fold in ground arith
    fold-outputs (b ∷ bs) z zn n h =
        let (z', m, e, rest) = fold-uncons z zn n b bs h in
        outputs-cons F B D z z' true b bs e ∙ fold-outputs bs z' zn m rest

    fold-fold_epoch :
        (p : Params) (z0 : List ℕ) (k : ℕ) (bs : List EpochStepInput) (i : ℕ) (v : Ivc)
        (zn : List ℕ) (n : ℕ)
        → IsComplete S F B
        → Honest S F B p z0 k v
        → fold (circuit_nova F B) F B D (S.z_i v) bs ≡ some (zn, n)
        → (r : Ivc × List ℕ) × (fold_epoch S F B D i v bs ≡ ok r)
          × Honest S F B p z0 (k + length bs) r.0
    unfolding fold_epoch
    fold-fold_epoch p z0 k [] i v zn n c honest h =
        ((v, []), refl, subst (λ m. Honest S F B p z0 m v) {x = k} {y = k + 0} (omega arith) honest)
    fold-fold_epoch p z0 k (b ∷ bs) i v zn n c honest h =
        let (z', m, e, rest) = fold-uncons (S.z_i v) zn n b bs h in
        let ops = new_variable F D B b in
        let (v', e') = c.proceeds p z0 z' k v ops honest e in
        let (holds, again, _) = folding.computes v v' ops e' in
        let same : z' ≡ S.z_i v' = cc (e, again) in
        let (r, e'', done) =
          fold-fold_epoch p z0 (suc k) bs (suc i) v' zn m c (folded_honest honest ops e e')
            (subst (λ z. fold (circuit_nova F B) F B D z bs ≡ some (zn, m)) same rest) in
        (
          (r.0, S.fold_ms i ∷ r.1),
          rw (e', e'') refl,
          subst (λ m. Honest S F B p z0 m r.0) {x = suc k + length bs} {y = k + suc (length bs)}
              (omega arith) done,
        )

    verify_in_evm-returns :
        (keys : Keys) (calldata : List ℕ)
        → last_is_one (S.call (S.decider_template keys) calldata).1 ≡ true
        → (gas : ℕ) × (verify_in_evm S F B D (S.decider_template keys) calldata ≡ ok gas)
    unfolding verify_in_evm
    verify_in_evm-returns keys calldata h = elim (Bool-cases S.solc_available) [
      | inl e ↦ ((S.call (S.decider_template keys) calldata).0, rw (e, h) refl)
      | inr e ↦ (0, rw e refl)
    ]

    decide-returns :
        (p : Params) (z0 : List ℕ) (n : ℕ) (epoch token_id : ℕ) (nets : List NetEntry)
        (transfers_root : List ℕ) (keys : Keys) (v : Ivc) (times : List ℕ)
        → IsComplete S F B
        → S.decider_preprocess p ≡ some keys
        → Honest S F B p z0 n v
        → 2 ≤ n
        → (art : EpochArtifacts) × (decide S F B D epoch token_id nets transfers_root keys v times
            ≡ ok art)
    unfolding decide
    decide-returns p z0 n epoch token_id nets transfers_root keys v times c key honest two =
        let (proof, e₁, e₂, (calldata, e₃, e₄, e₅)) = c.proves p keys z0 n v key honest two in
        let (gas, e₆) = verify_in_evm-returns keys calldata e₄ in
        expect-Returns (S.prove keys v) decider_prove_failed _ e₁ (
          expect-Returns (S.verify keys v proof) decider_verify_failed _ e₂ (
            expect-Returns (S.prepare_calldata v proof) prepare_calldata_failed _ e₃ (
              >>=-Returns (verify_in_evm S F B D (S.decider_template keys) calldata) _ e₆ (
                assert-Returns (length (S.formatted_calldata calldata) == 32) unexpected_word_count
                  _ ((==_iff _ _).1 e₅) (_, refl)))))

    -- With a complete library, an epoch of at least two batches that fold is proved.
    pub prove_epoch-returns :
        (epoch token_id : ℕ) (z0 zn : List ℕ) (n : ℕ) (batches : List EpochStepInput)
        (nets : List NetEntry) (transfers_root : List ℕ)
        → IsComplete S F B
        → length z0 ≡ state_len
        → 2 ≤ length batches
        → fold (circuit_nova F B) F B D z0 batches ≡ some (zn, n)
        → (art : EpochArtifacts) × (prove_epoch S F B D epoch token_id z0 batches nets
              transfers_root
            ≡ ok art)
    unfolding prove_epoch
    prove_epoch-returns epoch token_id z0 zn n batches nets transfers_root c three two h =
        let (params, e₁) = c.params in
        let (keys, e₂) = c.keys params e₁ in
        let (v, e₃) = c.start params z0 e₁ three in
        let (_, current) = folding.starts params z0 v e₃ in
        let ((v', times), e₄, honest) =
          fold-fold_epoch params z0 0 batches 0 v zn n c (begun_honest e₁ e₃)
            (ap (λ z. fold (circuit_nova F B) F B D z batches) current ∙ h) in
        expect-Returns S.preprocess preprocess_failed _ e₁ (
          expect-Returns (S.decider_preprocess params) decider_preprocess_failed _ e₂ (
            expect-Returns (S.init params z0) init_failed _ e₃ (
              >>=-Returns (fold_epoch S F B D 0 v batches) _ e₄ (
                decide-returns params z0 (length batches) epoch token_id nets transfers_root keys v'
                  times c e₂
                  (subst (λ m. Honest S F B params z0 m v') {x = 0 + length batches}
                    {y = length batches} (omega arith) honest)
                  two))))
