-- ===== src/Tests/Programs.antt =====
-- The proof of the small epoch, and the command line, over a toy of the folding library.
use ivc_checkpoints.Prelude.{
  ℕ, suc, ◌+◌, ◌≤◌, ◌≡◌, refl, sym, ap, ap₂, ◌∙◌, subst, Bool, true, false, ◌&&◌, List, [], ◌∷◌,
  Option, none, some, arith, length, replicate, leb, le→leb, &&-both,
}
use ivc_checkpoints.Prelude.Results.{ok}
use ivc_checkpoints.Circuit.{generate_step_constraints, state_len}
use ivc_checkpoints.Prover.Workload.{Workload, small, with_pad_to_steps, build}
use ivc_checkpoints.Prover.Epoch.{Sonobe, EpochArtifacts, prove_epoch, last_is_one}
use ivc_checkpoints.Prover.Epoch.Folding.{
  SatisfiedRun, no_step, one_step, outputs, circuit_nova, circuit_nova-IsNova, Folded, begun,
  folded, Honest, begun_honest, folded_honest, IsFolding, IsSound, IsComplete,
}
use ivc_checkpoints.Prover.Epoch.Proved.{prove_epoch-SatisfiedRun, prove_epoch-returns}
use ivc_checkpoints.Prover.Workload.Proven.{build-fold}
use ivc_checkpoints.Cli.{Args, Encoding, spec_of_scale}
use ivc_checkpoints.Tests.{toy, toy-IsField}
use ivc_checkpoints.Tests.Ledger.{value_or}
use ivc_checkpoints.Tests.Workloads.{builder, toy_hashes, nothing, workload, spec, built-workload}

-- The state of the toy: the first and the current state, whether all constraints held, and the
-- number of steps.
pub record ToyIvc : Type 0 where
  pub first : List ℕ
  pub current : List ℕ
  pub holds : Bool
  pub steps : ℕ

abbrev stepped : ToyIvc → Option (List ℕ × Bool) → Option ToyIvc
stepped v none = none
stepped v (some (z, b)) =
    some (record { first = v.first; current = z; holds = v.holds && b; steps = v.steps + 1 })

-- The contract refuses fewer than two steps.
abbrev verdict : Bool → List ℕ
verdict false = 0 ∷ []
verdict true = 0 ∷ 1 ∷ []

abbrev accepts : List ℕ → List ℕ
accepts [] = []
accepts (steps ∷ rest) = verdict (leb 2 steps)

abbrev pub sonobe : ℕ → Sonobe (Unit {0}) (Unit {0}) ToyIvc (Unit {0})
sonobe B = record {
  preprocess = some tt;
  decider_preprocess = λ p. some tt;
  init = λ p z. some (record { first = z; current = z; holds = true; steps = 0 });
  prove_step = λ v ops. stepped v (generate_step_constraints toy B v.current ops);
  z_0 = λ v. v.first;
  z_i = λ v. v.current;
  prove = λ k v. some tt;
  verify = λ k v proof. some v.holds;
  prepare_calldata = λ v proof. some (v.steps ∷ []);
  decider_template = λ k. [];
  solc_available = true;
  call = λ code calldata. (1, accepts calldata);
  formatted_calldata = λ calldata. replicate 32 [];
  fold_ms = λ i. i;
  decider_ms = 9;
}

-- What a step of the toy has come from.
record IsStepped (v : ToyIvc) (o : Option (List ℕ × Bool)) (v' : ToyIvc) : Type 0 where
  held : Bool
  output : o ≡ some (v'.current, held)
  same_first : v'.first ≡ v.first
  all_held : v'.holds ≡ v.holds && held
  counted : v'.steps ≡ v.steps + 1

stepped-IsStepped :
    (v : ToyIvc) (o : Option (List ℕ × Bool)) (v' : ToyIvc)
    → stepped v o ≡ some v'
    → IsStepped v o v'
stepped-IsStepped v none v' h = cc
stepped-IsStepped v (some (z, b)) v' h = record {
  held = b;
  output = ground arith;
  same_first = ground arith;
  all_held = ground arith;
  counted = ground arith;
}

pub sonobe-IsFolding : (B : ℕ) → IsFolding (sonobe B) toy B
sonobe-IsFolding B = record {
  starts = λ p z v h. (ground arith, ground arith);
  computes = λ v v' ops h.
      let s = stepped-IsStepped v (generate_step_constraints toy B v.current ops) v' h in
      (s.held, s.output, s.same_first);
}

Folded-run :
    (B : ℕ) (p : Unit {0}) (z0 : List ℕ) {n : ℕ} {v : ToyIvc}
    → Folded (sonobe B) toy B p z0 n v
    → v.holds ≡ true
    → SatisfiedRun toy B z0 n v.current
Folded-run B p z0 (begun e h) held = subst (SatisfiedRun toy B z0 0) (ground arith) no_step
Folded-run B p z0 {v = v'} (folded {v} f ops h) held =
    let s = stepped-IsStepped v (generate_step_constraints toy B v.current ops) v' h in
    let (before, now) = &&-both v.holds s.held (sym s.all_held ∙ held) in
    one_step (Folded-run B p z0 f before) ops (s.output ∙ ap (λ b. some (v'.current, b)) now)

sonobe-IsSound : (B : ℕ) → IsSound (sonobe B) toy B
sonobe-IsSound B p k z0 n v proof key f made verified = Folded-run B p z0 f (ground arith)

Honest-toy :
    (B : ℕ) (p : Unit {0}) (z0 : List ℕ) {n : ℕ} {v : ToyIvc}
    → Honest (sonobe B) toy B p z0 n v
    → (v.holds ≡ true) × (v.steps ≡ n)
Honest-toy B p z0 (begun_honest e h) = (ground arith, ground arith)
Honest-toy B p z0 {n = suc m} {v = v'} (folded_honest {v} {z} f ops e h) =
    let s = stepped-IsStepped v (generate_step_constraints toy B v.current ops) v' h in
    let (before, count) = Honest-toy B p z0 f in
    let now : s.held ≡ true = cc (e, s.output) in
    (s.all_held ∙ ap₂ ◌&&◌ before now, omega (arith, s.counted, count))

accepts-two : (n : ℕ) → 2 ≤ n → last_is_one (accepts (n ∷ [])) ≡ true
accepts-two n h = ap (λ b. last_is_one (verdict b)) (le→leb 2 n h)

pub sonobe-IsComplete : (B : ℕ) → IsComplete (sonobe B) toy B
sonobe-IsComplete B = record {
  params = (tt, refl);
  keys = λ p e. (tt, refl);
  start = λ p z e len. (_, refl);
  proceeds = λ p z0 z n v ops honest e. (_, ap (stepped v) e);
  proves = λ p k z0 n v key honest two.
      let (held, count) = Honest-toy B p z0 honest in
      (
        tt,
        refl,
        ap some held,
        (v.steps ∷ [], refl, accepts-two v.steps (omega (arith, count)), refl),
      );
}

three_words : length workload.z0 ≡ state_len
unfolding builder
three_words = refl

two_batches : 2 ≤ length workload.batches
unfolding builder
two_batches = omega arith

proved :
    (art : EpochArtifacts) × (prove_epoch
        (sonobe 2)
        toy
        2
        2
        5
        1
        workload.z0
        workload.batches
        workload.nets
        []
      ≡ ok art)
proved =
    prove_epoch-returns (sonobe 2) toy 2 2 (sonobe-IsFolding 2) 5 1 workload.z0 workload.native_zn
      (length workload.batches) workload.batches workload.nets [] (sonobe-IsComplete 2) three_words
      two_batches
      (build-fold toy_hashes toy 2 2 toy-IsField (omega arith) (circuit_nova toy 2)
        (circuit_nova-IsNova toy 2) (omega arith) spec 5 workload (omega arith) (omega arith)
        built-workload).0

abbrev artifacts : EpochArtifacts
artifacts = proved.0

prove_epoch-SatisfiedRun_example :
    (outputs toy 2 2 workload.z0 workload.batches ≡ some artifacts.zn)
    × SatisfiedRun toy 2 workload.z0 artifacts.steps artifacts.zn
    × (artifacts.steps ≡ length workload.batches)
    × (artifacts.z0 ≡ workload.z0)
    × (length artifacts.proof_words ≡ 25)
    × (artifacts.nets ≡ workload.nets)
prove_epoch-SatisfiedRun_example =
    prove_epoch-SatisfiedRun (sonobe 2) toy 2 2 (sonobe-IsFolding 2) 5 1 workload.z0
      workload.batches workload.nets [] artifacts (sonobe-IsSound 2) proved.1

abbrev pub args : Args
args = record { scale = "small"; epoch = 1; pad_steps = some 14 }

abbrev pub encoding : Encoding
encoding = record { to_bytes_be = λ x. x ∷ []; encode = λ bytes. bytes }

abbrev small_workload : Workload
small_workload = value_or (build toy_hashes toy 16 4 (with_pad_to_steps small (some 14)) 1) nothing

small_workload_lem :
    build toy_hashes toy 16 4 (with_pad_to_steps small (some 14)) 1 ≡ ok small_workload
unfolding builder
small_workload_lem = refl

pub known : spec_of_scale "small" ≡ some small
unfolding spec_of_scale
known = refl
