-- ===== src/Prover/Workload/Phases.antt =====
-- The operation stream of a workload returns: each phase covers the demand of the next one.
use ivc_checkpoints.Prelude.Results.{ok, expect-then}
use ivc_checkpoints.Prelude.{
  ℕ, zero, suc, ◌*◌, ◌%◌, ◌≤◌, ◌<◌, ◌≡◌, refl, ap, ◌∙◌, List, [], ◌∷◌, map, arith, get_elem?,
  replicate, range_from, length-range_from,
}
use ivc_checkpoints.Prelude.Rounds.{turns-covered, turns-round}
use ivc_checkpoints.Field.{Arkworks}
use ivc_checkpoints.Native.{EpochExecutor, Request, load_of, spend_of}
use ivc_checkpoints.Native.Book.{if_key, demand, income}
use ivc_checkpoints.Native.Open.{AllOpen}
use ivc_checkpoints.Hashes.{Hashes}
use ivc_checkpoints.Prover.Workload.{
  WorkloadSpec, at_least_one, token, pool, field_key, account_addr, payee_addr, epoch_token,
  account_keys, payee_keys, load_at, spend_at,
}
use ivc_checkpoints.Prover.Workload.Opened.{Avoids}
use ivc_checkpoints.Prover.Workload.Settling.{owed, sum}
use ivc_checkpoints.Prover.Workload.Streamed.{
  demand-map, income-map, sum_of-const, sum_of-thousand, sum_of-Avoids, in_turn,
}

pub owed-zeros : (k n : ℕ) (keys : List ℕ) → owed k keys (replicate n 0) ≡ 0
owed-zeros k n [] = refl
owed-zeros k zero (key ∷ keys) = refl
owed-zeros k (suc n) (key ∷ keys) = ground (arith, owed-zeros k n keys)

pub sum-zeros : (n : ℕ) → sum (replicate n 0) ≡ 0
sum-zeros zero = refl
sum-zeros (suc n) = omega (arith, sum-zeros n)

pub map-AllOpen :
    (x : EpochExecutor) (f : ℕ → Request)
    → ((i : ℕ) → AllOpen x (f i ∷ []))
    → (is : List ℕ) → AllOpen x (map f is)
map-AllOpen x f h [] = tt
map-AllOpen x f h (i ∷ is) = ((h i).0, (h i).1, map-AllOpen x f h is)

module _ (H : Hashes) (F : Arkworks) (B D : ℕ) (spec : WorkloadSpec) where
  abbrev pub tok : ℕ
  tok = token H F B D

  abbrev pub account : ℕ → ℕ
  account j = field_key H (account_addr j) epoch_token

  abbrev pub payee : ℕ → ℕ
  payee j = field_key H (payee_addr j) epoch_token

  abbrev pub load_req : ℕ → Request
  load_req i = load_of (pool H F B D) (account (i % spec.n_accounts)) tok 1000

  abbrev pub spend_req : ℕ → Request
  spend_req i = spend_of (account (i % spec.n_accounts)) (payee (i % spec.n_payees)) tok 1

  abbrev pub loads : List Request
  loads = map load_req (range_from 0 spec.loads)

  abbrev pub spends : List Request
  spends = map spend_req (range_from 0 spec.spends)

  module _ (some_account : 0 < spec.n_accounts) (some_payee : 0 < spec.n_payees) where
    pub load_at-load_req : (i : ℕ) → load_at H F B D spec i ≡ ok (load_req i)
    unfolding load_at account_keys
    load_at-load_req i =
        expect-then
          (get_elem? (account_keys H F B D spec.n_accounts) (i % at_least_one spec.n_accounts)) _ _
          (in_turn account spec.n_accounts i some_account) refl

    pub spend_at-spend_req : (i : ℕ) → spend_at H F B D spec i ≡ ok (spend_req i)
    unfolding spend_at account_keys payee_keys
    spend_at-spend_req i =
        expect-then
          (get_elem? (account_keys H F B D spec.n_accounts) (i % at_least_one spec.n_accounts)) _ _
          (in_turn account spec.n_accounts i some_account)
          (expect-then
            (get_elem? (payee_keys H F B D spec.n_payees) (i % at_least_one spec.n_payees)) _ _
            (in_turn payee spec.n_payees i some_payee) refl)

  -- The demand of the loads is on the pool alone.
  pub loads-demand : (k : ℕ) → demand k loads ≡ if_key (pool H F B D) k 1000 * spec.loads
  loads-demand k =
      demand-map load_req (range_from 0 spec.loads) k
      ∙ sum_of-const (if_key (pool H F B D) k 1000) (range_from 0 spec.loads)
      ∙ ap (λ n. if_key (pool H F B D) k 1000 * n) (length-range_from 0 spec.loads)

  -- Every account is loaded once before its spends, at most 1000, are due.
  pub spends-demand :
      (sink k : ℕ)
      → spec.n_accounts ≤ spec.loads
      → spec.spends ≤ 1000 * spec.n_accounts
      → demand k spends ≤ income sink k loads
  spends-demand sink k few many =
      let once = λ (j : ℕ). if_key (account j) k 1 in
      omega (
        arith,
        demand-map spend_req (range_from 0 spec.spends) k,
        turns-covered once spec.n_accounts 1000 spec.spends many,
        income-map sink load_req (range_from 0 spec.loads) k,
        turns-round once spec.n_accounts spec.loads few,
        sum_of-thousand (λ i. account (i % spec.n_accounts)) k (range_from 0 spec.loads),
      )

  pub spends-demand-pool :
      spec.spends ≤ 1000 * spec.n_accounts
      → Avoids (pool H F B D) (account_keys H F B D spec.n_accounts)
      → demand (pool H F B D) spends ≡ 0
  unfolding account_keys
  spends-demand-pool many apart =
      let once = λ (j : ℕ). if_key (account j) (pool H F B D) 1 in
      omega (
        arith,
        demand-map spend_req (range_from 0 spec.spends) (pool H F B D),
        turns-covered once spec.n_accounts 1000 spec.spends many,
        sum_of-Avoids account (pool H F B D) (range_from 0 spec.n_accounts) apart,
      )
