-- ===== src/Prover/Epoch/Folding.antt =====
-- What `prove_epoch` relies on of the folding scheme and of the decider, and runs of the step
-- circuit.
use ivc_checkpoints.Prelude.{
  ℕ, suc, ◌≤◌, ◌≡◌, ap, Bool, true, false, List, [], ◌∷◌, Option, none, some, length,
}
use ivc_checkpoints.Field.{Arkworks}
use ivc_checkpoints.Ops.{OpWitnessVar, EpochStepInput, new_variable}
use ivc_checkpoints.Circuit.{generate_step_constraints, state_len}
use ivc_checkpoints.Prover.{Nova, IsNova}
use ivc_checkpoints.Prover.Epoch.{Sonobe, last_is_one}

module _ (F : Arkworks) (B : ℕ) where
  -- `n` satisfied steps of the circuit from `z0`, on some inputs.
  pub data SatisfiedRun (z0 : List ℕ) : ℕ → List ℕ → Type 0 where
    no_step : SatisfiedRun z0 0 z0
    one_step :
        {n : ℕ} {z z' : List ℕ}
        → SatisfiedRun z0 n z
        → (ops : List OpWitnessVar) → generate_step_constraints F B z ops ≡ some (z', true)
        → SatisfiedRun z0 (suc n) z'

  abbrev after_step : Option (List ℕ × Bool) → (List ℕ → Option (List ℕ)) → Option (List ℕ)
  after_step none next = none
  after_step (some (z, holds)) next = next z

  -- The state that the circuit computes on the batches, whether its constraints hold or not.
  unfoldable pub outputs : ℕ → List ℕ → List EpochStepInput → Option (List ℕ)
  outputs D z [] = some z
  outputs D z (b ∷ bs) =
      after_step (generate_step_constraints F B z (new_variable F D B b)) (λ z'. outputs D z' bs)

  pub outputs-cons :
      (D : ℕ) (z z' : List ℕ) (holds : Bool) (b : EpochStepInput) (bs : List EpochStepInput)
      → generate_step_constraints F B z (new_variable F D B b) ≡ some (z', holds)
      → outputs D z (b ∷ bs) ≡ outputs D z' bs
  unfolding outputs
  outputs-cons D z z' holds b bs e = ap (λ o. after_step o (λ w. outputs D w bs)) e

  -- The next state of a step whose constraints hold.
  abbrev pub accepted : Option (List ℕ × Bool) → Option (List ℕ)
  accepted none = none
  accepted (some (z, true)) = some z
  accepted (some (z, false)) = none

  pub accepted-some :
      (o : Option (List ℕ × Bool)) (z : List ℕ) → accepted o ≡ some z → o ≡ some (z, true)
  accepted-some none z h = cc
  accepted-some (some (y, true)) z h = cc
  accepted-some (some (y, false)) z h = cc

  -- The step circuit alone, as a folding scheme.
  abbrev pub circuit_nova : Nova
  circuit_nova = record { prove_step = λ z ops. accepted (generate_step_constraints F B z ops) }

  pub circuit_nova-IsNova : IsNova F B circuit_nova
  circuit_nova-IsNova z z' ops h = ap accepted h

module _ {Params Keys Ivc DeciderProof : Type 0} (S : Sonobe Params Keys Ivc DeciderProof)
    (F : Arkworks) (B : ℕ) where
  -- The state `v` after `n` calls of `prove_step` from `z0`.
  pub data Folded (p : Params) (z0 : List ℕ) : ℕ → Ivc → Type 0 where
    begun : {v : Ivc} → S.preprocess ≡ some p → S.init p z0 ≡ some v → Folded p z0 0 v
    folded :
        {n : ℕ} {v v' : Ivc}
        → Folded p z0 n v
        → (ops : List OpWitnessVar) → S.prove_step v ops ≡ some v'
        → Folded p z0 (suc n) v'

  -- The same, with steps whose constraints hold.
  pub data Honest (p : Params) (z0 : List ℕ) : ℕ → Ivc → Type 0 where
    begun_honest : {v : Ivc} → S.preprocess ≡ some p → S.init p z0 ≡ some v → Honest p z0 0 v
    folded_honest :
        {n : ℕ} {v v' : Ivc} {z : List ℕ}
        → Honest p z0 n v
        → (ops : List OpWitnessVar) → generate_step_constraints F B (S.z_i v) ops ≡ some (z, true)
        → S.prove_step v ops ≡ some v'
        → Honest p z0 (suc n) v'

  -- The states that the folding scheme keeps: the given one, and after a step that returns the
  -- one that the step circuit computes, whether its constraints hold or not.
  pub record IsFolding : Type 0 where
    pub starts :
        (p : Params) (z : List ℕ) (v : Ivc) → S.init p z ≡ some v → (S.z_0 v ≡ z) × (S.z_i v ≡ z)
    pub computes :
        (v v' : Ivc) (ops : List OpWitnessVar)
        → S.prove_step v ops ≡ some v'
        → (holds : Bool) × (generate_step_constraints F B (S.z_i v) ops ≡ some (S.z_i v', holds))
          × (S.z_0 v' ≡ S.z_0 v)

  -- The soundness of the decider, on which docs/TRUST_MODEL.md relies (an invalid transition makes
  -- the proof fail): if its proof of a folded state verifies, the state is the end of as many
  -- satisfied steps, on some inputs.
  abbrev pub IsSound : Type 0
  IsSound =
      (p : Params) (k : Keys) (z0 : List ℕ) (n : ℕ) (v : Ivc) (proof : DeciderProof)
      → S.decider_preprocess p ≡ some k
      → Folded p z0 n v
      → S.prove k v ≡ some proof
      → S.verify k v proof ≡ some true
      → SatisfiedRun F B z0 n (S.z_i v)

  -- The completeness of the library: keys are made, satisfied steps are folded, and the proof of
  -- at least two of them, as contracts/generated/NovaDecider.sol requires, is made, verifies, and
  -- gives calldata of 32 words that the verifier contract accepts.
  pub record IsComplete : Type 0 where
    pub params : (p : Params) × (S.preprocess ≡ some p)
    pub keys : (p : Params) → S.preprocess ≡ some p → (k : Keys) × (S.decider_preprocess p ≡ some k)
    pub start :
        (p : Params) (z : List ℕ)
        → S.preprocess ≡ some p
        → length z ≡ state_len
        → (v : Ivc) × (S.init p z ≡ some v)
    pub proceeds :
        (p : Params) (z0 z : List ℕ) (n : ℕ) (v : Ivc) (ops : List OpWitnessVar)
        → Honest p z0 n v
        → generate_step_constraints F B (S.z_i v) ops ≡ some (z, true)
        → (v' : Ivc) × (S.prove_step v ops ≡ some v')
    pub proves :
        (p : Params) (k : Keys) (z0 : List ℕ) (n : ℕ) (v : Ivc)
        → S.decider_preprocess p ≡ some k
        → Honest p z0 n v
        → 2 ≤ n
        → (proof : DeciderProof) × (S.prove k v ≡ some proof)
          × (S.verify k v proof ≡ some true)
          × ((calldata : List ℕ) × (S.prepare_calldata v proof ≡ some calldata)
              × (last_is_one (S.call (S.decider_template k) calldata).1 ≡ true)
              × (length (S.formatted_calldata calldata) ≡ 32))
