-- ===== src/Cli.antt =====
-- The two programs: crates/prover/src/bin/prove_epoch.rs, which writes the artifacts of an epoch,
-- and bench/src/main.rs, which writes its measurements. What they print and the folders that they
-- make are left out; the JSON object that each writes is a record.
pub mod Returned
pub mod Total
use text.Mathlib.Text
use Prim.Native.String.{String}
use ivc_checkpoints.Prelude.{
  ℕ, ◌+◌, ◌*◌, ◌/◌, ◌%◌, ◌-◌, ◌^◌, Bool, true, false, ◌&&◌, List, [], ◌∷◌, ◌++◌, map, Option, none,
  some, ltb, ◌==◌, if◌then◌else◌, length, get_elem?,
}
use ivc_checkpoints.Prelude.Results.{Result, panic, ok, ◌>>=◌, ◌>>◌, expect, assert}
use ivc_checkpoints.Field.{Arkworks}
use ivc_checkpoints.Hashes.{Hashes}
use ivc_checkpoints.Native.{Panic}
use ivc_checkpoints.Prover.Workload.{
  WorkloadSpec, small, large_daily, total_ops, with_pad_to_steps, NetEntry, ExitWitness, Workload,
  build,
}
use ivc_checkpoints.Prover.Epoch.{Sonobe, ProveError, EpochArtifacts, fr_to_hex, prove_epoch}

pub record Args : Type 0 where
  pub scale : String
  pub epoch : ℕ
  pub pad_steps : Option ℕ

pub data Failure : Type 0 where
  unknown_scale zn_mismatch index_out_of_range : Failure
  build_panicked : Panic → Failure
  prove_failed : ProveError → Failure

unfoldable pub spec_of_scale : String → Option WorkloadSpec
spec_of_scale scale =
    if Text.◌==◌ scale "small"
    then some small
    else (if Text.◌==◌ scale "large" then some large_daily else none)

abbrev pub map_error : {A E F : Type 0} → (E → F) → Result E A → Result F A
map_error f (panic e) = panic (f e)
map_error f (ok a) = ok a

-- Equality of two vectors of field elements.
abbrev pub same_values : List ℕ → List ℕ → Bool
same_values [] [] = true
same_values [] (y ∷ ys) = false
same_values (x ∷ xs) [] = false
same_values (x ∷ xs) (y ∷ ys) = x == y && same_values xs ys

-- The serialisation of the libraries: the bytes of a field element, and hexadecimal digits.
pub record Encoding : Type 0 where
  pub to_bytes_be : ℕ → List ℕ
  pub encode : List ℕ → List ℕ

unfoldable pub hex_text : Encoding → List ℕ → List ℕ
hex_text C bytes = (48 ∷ 120 ∷ []) ++ C.encode bytes

-- The objects of a net and of the exit witness. A decimal text is its number.
pub record NetJson : Type 0 where
  pub addr : List ℕ
  pub key : List ℕ
  pub amount : ℕ

unfoldable pub net_json : Encoding → NetEntry → NetJson
net_json C n = record {
  addr = hex_text C n.addr;
  key = fr_to_hex C.to_bytes_be C.encode n.key;
  amount = n.amount;
}

pub record ExitJson : Type 0 where
  pub owner : List ℕ
  pub token_id : ℕ
  pub balance : ℕ
  pub nonce : ℕ
  pub key : List ℕ
  pub siblings : List ℕ
  pub is_right : List Bool

unfoldable pub exit_json : Encoding → ExitWitness → ExitJson
exit_json C ex = record {
  owner = hex_text C ex.owner;
  token_id = ex.token_id;
  balance = ex.balance;
  nonce = ex.nonce;
  key = fr_to_hex C.to_bytes_be C.encode ex.key;
  siblings = ex.siblings;
  is_right = ex.is_right;
}

pub record ProofJson : Type 0 where
  pub epoch : ℕ
  pub token_id : ℕ
  pub steps : ℕ
  pub prev_state_root : List ℕ
  pub new_state_root : List ℕ
  pub ops_acc : List ℕ
  pub nets_acc : List ℕ
  pub transfers_root : List ℕ
  pub proof : List (List ℕ)
  pub net_addrs : List (List ℕ)
  pub net_amounts : List ℕ
  pub nets : List NetJson
  pub exit : ExitJson
  pub calldata_bytes : ℕ
  pub evm_verify_gas_revm : ℕ

-- The sum of u128 values.
abbrev pub sum : List ℕ → ℕ
sum [] = 0
sum (x ∷ xs) = (x + sum xs) % 2 ^ 128

pub record BenchArgs : Type 0 where
  pub scale : Option String
  pub epoch : ℕ
  pub pad_steps : Option ℕ
  pub rss_kb : Option ℕ

-- What the benchmark is compiled with.
pub record Build : Type 0 where
  pub full_bench : Bool
  pub light_test : Bool
  pub macos : Bool

unfoldable pub scale_or_default : Bool → Option String → String
scale_or_default full_bench none = if full_bench then "large" else "small"
scale_or_default full_bench (some scale) = scale

pub record BenchJson : Type 0 where
  pub scale : String
  pub op_count : ℕ
  pub steps : ℕ
  pub batch_size : ℕ
  pub tree_depth : ℕ
  pub z_len : ℕ
  pub fold_ms_total : ℕ
  pub fold_ms_per_step_avg : ℕ
  pub fold_ms_per_step : List ℕ
  pub decider_prove_ms : ℕ
  pub peak_rss_bytes : ℕ
  pub calldata_bytes : ℕ
  pub verify_gas_revm : ℕ
  pub light_test : Bool

-- `peak_rss_bytes`, from the reading of `getrusage`: `saturating_mul` stops at the maximum.
unfoldable pub peak_rss_bytes : Bool → ℕ → ℕ
peak_rss_bytes macos m =
    if macos then m else (if ltb (m * 1024) (2 ^ 64) then m * 1024 else 2 ^ 64 - 1)

module _ {Params Keys Ivc DeciderProof : Type 0} (S : Sonobe Params Keys Ivc DeciderProof)
    (C : Encoding) (H : Hashes) (F : Arkworks) (B D : ℕ) where
  -- What both programs do first: build, prove, and cross-check the final state.
  unfoldable pub prove_workload : WorkloadSpec → ℕ → Result Failure (Workload × EpochArtifacts)
  prove_workload spec epoch = do
    wl ← map_error build_panicked (build H F B D spec epoch)
    art ←
        map_error prove_failed
          (prove_epoch S F B D epoch wl.token_id wl.z0 wl.batches wl.nets wl.transfers_root)
    assert (same_values art.zn wl.native_zn) zn_mismatch
    ok (wl, art)

  -- The object that is written for a proved workload.
  unfoldable pub proof_json : Workload → EpochArtifacts → Result Failure ProofJson
  proof_json wl art = do
    prev ← expect (get_elem? art.z0 0) index_out_of_range
    new ← expect (get_elem? art.zn 0) index_out_of_range
    ops ← expect (get_elem? art.zn 1) index_out_of_range
    nets ← expect (get_elem? art.zn 2) index_out_of_range
    let hex = fr_to_hex C.to_bytes_be C.encode
    ok (record {
      epoch = art.epoch;
      token_id = art.token_id;
      steps = art.steps;
      prev_state_root = hex prev;
      new_state_root = hex new;
      ops_acc = hex ops;
      nets_acc = hex nets;
      transfers_root = hex_text C art.transfers_root;
      proof = art.proof_words;
      net_addrs = map (λ n. hex_text C n.addr) art.nets;
      net_amounts = map (λ n. n.amount) art.nets;
      nets = map (net_json C) art.nets;
      exit = exit_json C wl.exit;
      calldata_bytes = art.calldata_bytes;
      evm_verify_gas_revm = art.evm_verify_gas;
    })

  unfoldable pub main : Args → Result Failure ProofJson
  main args = do
    spec ← expect (spec_of_scale args.scale) unknown_scale
    (wl, art) ← prove_workload (with_pad_to_steps spec args.pad_steps) args.epoch
    proof_json wl art

  -- The benchmark, with the reading of the memory.
  unfoldable pub bench : Build → BenchArgs → ℕ → Result Failure BenchJson
  bench features args maxrss = do
    let scale = scale_or_default features.full_bench args.scale
    spec ← expect (spec_of_scale scale) unknown_scale
    (wl, art) ← prove_workload (with_pad_to_steps spec args.pad_steps) args.epoch
    let n_steps = length wl.batches
    let fold_total = sum art.fold_times_ms
    ok (record {
      scale = scale;
      op_count = total_ops (with_pad_to_steps spec args.pad_steps);
      steps = art.steps;
      batch_size = B;
      tree_depth = D;
      z_len = 3;
      fold_ms_total = fold_total;
      fold_ms_per_step_avg = if ltb 0 n_steps then fold_total / n_steps else 0;
      fold_ms_per_step = art.fold_times_ms;
      decider_prove_ms = art.decider_prove_ms;
      peak_rss_bytes = elim args.rss_kb [
        | none ↦ peak_rss_bytes features.macos maxrss
        | some kb ↦ (kb * 1024) % 2 ^ 64
      ];
      calldata_bytes = art.calldata_bytes;
      verify_gas_revm = art.evm_verify_gas;
      light_test = features.light_test;
    })
