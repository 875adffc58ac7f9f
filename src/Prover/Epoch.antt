-- ===== src/Prover/Epoch.antt =====
-- crates/prover/src/lib.rs: `prove_epoch` and `fr_to_hex`. The folding library, the decider, the
-- Solidity compiler and the EVM are the parameter `Sonobe`; a text is a list of characters.
pub mod Folding
pub mod Proved
use ivc_checkpoints.Prelude.{
  ℕ, zero, suc, ◌+◌, ◌-◌, Bool, true, false, List, [], ◌∷◌, ◌++◌, Option, none, some, ltb, ◌==◌,
  if◌then◌else◌, length, replicate,
}
use ivc_checkpoints.Prelude.Results.{Result, panic, ok, ◌>>=◌, ◌>>◌, expect, assert}
use ivc_checkpoints.Field.{Arkworks}
use ivc_checkpoints.Ops.{OpWitnessVar, EpochStepInput, new_variable}
use ivc_checkpoints.Prover.Workload.{NetEntry}

-- What `prove_epoch` calls of other libraries, with the keys, the state of the folding scheme and
-- the decider proof as opaque types. `none` is an error.
pub record Sonobe (Params Keys Ivc DeciderProof : Type 0) : Type 0 where
  pub preprocess : Option Params
  pub decider_preprocess : Params → Option Keys
  pub init : Params → List ℕ → Option Ivc
  pub prove_step : Ivc → List OpWitnessVar → Option Ivc
  pub z_0 : Ivc → List ℕ
  pub z_i : Ivc → List ℕ
  pub prove : Keys → Ivc → Option DeciderProof
  pub verify : Keys → Ivc → DeciderProof → Option Bool
  pub prepare_calldata : Ivc → DeciderProof → Option (List ℕ)
  pub decider_template : Keys → List ℕ
  pub solc_available : Bool
  -- the gas and the output of the compiled template on the calldata
  pub call : List ℕ → List ℕ → ℕ × List ℕ
  pub formatted_calldata : List ℕ → List (List ℕ)
  -- the clock readings of a fold step and of the decider
  pub fold_ms : ℕ → ℕ
  pub decider_ms : ℕ

pub data ProveError : Type 0 where
  preprocess_failed decider_preprocess_failed init_failed : ProveError
  prove_step_failed : ℕ → ProveError
  decider_prove_failed decider_verify_failed not_verified : ProveError
  prepare_calldata_failed revm_rejected unexpected_word_count : ProveError

pub record EpochArtifacts : Type 0 where
  pub epoch : ℕ
  pub token_id : ℕ
  pub steps : ℕ
  pub z0 : List ℕ
  pub zn : List ℕ
  pub proof_words : List (List ℕ)
  pub calldata_explicit : List ℕ
  pub nets : List NetEntry
  pub transfers_root : List ℕ
  pub decider_sol : List ℕ
  pub fold_times_ms : List ℕ
  pub decider_prove_ms : ℕ
  pub evm_verify_gas : ℕ
  pub calldata_bytes : ℕ

-- The characters of "0x", then the digits of the 32 bytes.
unfoldable pub fr_to_hex : (ℕ → List ℕ) → (List ℕ → List ℕ) → ℕ → List ℕ
fr_to_hex to_bytes_be encode x =
    let bytes = to_bytes_be x in
    (48 ∷ 120 ∷ [])
    ++ encode (if ltb (length bytes) 32 then replicate (32 - length bytes) 0 ++ bytes else bytes)

-- `v.last() == Some(&1)`
abbrev pub last_is_one : List ℕ → Bool
last_is_one [] = false
last_is_one (x ∷ []) = x == 1
last_is_one (x ∷ y ∷ ys) = last_is_one (y ∷ ys)

abbrev pub skip {ℓ} : {A : Type ℓ} → ℕ → List A → List A
skip zero xs = xs
skip (suc n) [] = []
skip (suc n) (x ∷ xs) = skip n xs

module _ {Params Keys Ivc DeciderProof : Type 0} (S : Sonobe Params Keys Ivc DeciderProof)
    (F : Arkworks) (B D : ℕ) where
  -- The fold loop from step `i`, with the times of its steps.
  unfoldable pub fold_epoch : ℕ → Ivc → List EpochStepInput → Result ProveError (Ivc × List ℕ)
  fold_epoch i nova [] = ok (nova, [])
  fold_epoch i nova (batch ∷ batches) = do
    nova' ← expect (S.prove_step nova (new_variable F D B batch)) (prove_step_failed i)
    (nova'', times) ← fold_epoch (suc i) nova' batches
    ok (nova'', S.fold_ms i ∷ times)

  -- The check in the EVM, if there is a compiler: the gas.
  unfoldable pub verify_in_evm : List ℕ → List ℕ → Result ProveError ℕ
  verify_in_evm decider_sol calldata =
      if S.solc_available
      then (do
        assert (last_is_one (S.call decider_sol calldata).1) revm_rejected
        ok (S.call decider_sol calldata).0)
      else ok 0

  -- From the folded state on: the decider proof, its checks, and the artifacts.
  unfoldable pub decide :
      ℕ → ℕ → List NetEntry → List ℕ → Keys → Ivc → List ℕ → Result ProveError EpochArtifacts
  decide epoch token_id nets transfers_root keys nova' times = do
    proof ← expect (S.prove keys nova') decider_prove_failed
    verified ← expect (S.verify keys nova' proof) decider_verify_failed
    assert verified not_verified
    calldata ← expect (S.prepare_calldata nova' proof) prepare_calldata_failed
    let decider_sol = S.decider_template keys
    gas ← verify_in_evm decider_sol calldata
    let formatted = S.formatted_calldata calldata
    assert (length formatted == 32) unexpected_word_count
    ok (record {
      epoch = epoch;
      token_id = token_id;
      steps = length times;
      z0 = S.z_0 nova';
      zn = S.z_i nova';
      proof_words = skip 7 formatted;
      calldata_explicit = calldata;
      nets = nets;
      transfers_root = transfers_root;
      decider_sol = decider_sol;
      fold_times_ms = times;
      decider_prove_ms = S.decider_ms;
      evm_verify_gas = gas;
      calldata_bytes = length calldata;
    })

  unfoldable pub prove_epoch :
      ℕ
      → ℕ
      → List ℕ
      → List EpochStepInput
      → List NetEntry
      → List ℕ
      → Result ProveError EpochArtifacts
  prove_epoch epoch token_id z0 batches nets transfers_root = do
    params ← expect S.preprocess preprocess_failed
    keys ← expect (S.decider_preprocess params) decider_preprocess_failed
    nova ← expect (S.init params z0) init_failed
    (nova', times) ← fold_epoch 0 nova batches
    decide epoch token_id nets transfers_root keys nova' times
