-- ===== src/Prover/Workload/Streamed.antt =====
-- The loops of a workload's operation stream as runs of requests, and the sums over them.
use ivc_checkpoints.Prelude.Results.{ok, >>=-then, >>=-ok}
use ivc_checkpoints.Prelude.{
  ℕ, zero, suc, ◌+◌, ◌*◌, ◌%◌, ◌<◌, ◌≡◌, refl, ap, ◌∙◌, subst, List, [], ◌∷◌, map, some, arith, inl,
  inr, ltb, Bool-cases, length, get_elem?, range_from,
}
use native.Mathlib.Nat.{mod-lt}
use ivc_checkpoints.Prelude.Ranges.{sum_of}
use ivc_checkpoints.Field.{Arkworks}
use ivc_checkpoints.Ops.{OpWitness}
use ivc_checkpoints.Native.{EpochExecutor, Result, Request, perform, run}
use ivc_checkpoints.Native.Book.{if_key, source, target, value, demand, income}
use ivc_checkpoints.Native.Open.{IsOpen, AllOpen}
use ivc_checkpoints.Hashes.{Hashes}
use ivc_checkpoints.Prover.Workload.{at_least_one, perform_each, withdrawals}
use ivc_checkpoints.Prover.Workload.Opened.{AllOpenKeys, Avoids}

-- Sums over the requests that a loop issues.
pub demand-map :
    (f : ℕ → Request) (is : List ℕ) (k : ℕ)
    → demand k (map f is) ≡ sum_of (λ i. if_key (source (f i)) k (value (f i))) is
unfolding demand
demand-map f [] k = refl
demand-map f (i ∷ is) k = ap (λ t. if_key (source (f i)) k (value (f i)) + t) (demand-map f is k)

pub income-map :
    (sink : ℕ) (f : ℕ → Request) (is : List ℕ) (k : ℕ)
    → income sink k (map f is) ≡ sum_of (λ i. if_key (target sink (f i)) k (value (f i))) is
unfolding income
income-map sink f [] k = refl
income-map sink f (i ∷ is) k =
    ap (λ t. if_key (target sink (f i)) k (value (f i)) + t) (income-map sink f is k)

pub sum_of-const : (c : ℕ) (is : List ℕ) → sum_of (λ i. c) is ≡ c * length is
sum_of-const c [] = omega arith
sum_of-const c (i ∷ is) = grind (arith, sum_of-const c is)

pub sum_of-thousand :
    (f : ℕ → ℕ) (k : ℕ) (is : List ℕ)
    → sum_of (λ i. if_key (f i) k 1000) is ≡ 1000 * sum_of (λ i. if_key (f i) k 1) is
sum_of-thousand f k [] = omega arith
sum_of-thousand f k (i ∷ is) = ground (arith, sum_of-thousand f k is)

pub sum_of-Avoids :
    (f : ℕ → ℕ) (k : ℕ) (is : List ℕ) → Avoids k (map f is) → sum_of (λ i. if_key (f i) k 1) is ≡ 0
sum_of-Avoids f k [] a = refl
sum_of-Avoids f k (i ∷ is) a = ground (arith, sum_of-Avoids f k is, a.0)

-- A read of a list that a loop has made.
pub get_elem-range :
    {A : Type 0} (g : ℕ → A) (s n i : ℕ)
    → i < n
    → get_elem? (map g (range_from s n)) i ≡ some (g (s + i))
get_elem-range g s zero i h = absurd (omega arith)
get_elem-range g s (suc n) zero h = ap (λ j. some (g j)) (omega arith)
get_elem-range g s (suc n) (suc i) h =
    get_elem-range g (suc s) n i (omega arith)
    ∙ ap (λ j. some (g j)) {x = suc s + i} {y = s + suc i} (omega arith)

pub in_turn :
    {A : Type 0} (g : ℕ → A) (n i : ℕ)
    → 0 < n
    → get_elem? (map g (range_from 0 n)) (i % at_least_one n) ≡ some (g (i % n))
in_turn g zero i h = absurd (omega arith)
in_turn g (suc n) i h =
    get_elem-range g 0 (suc n) (i % suc n) (mod-lt i h) ∙ ap (λ j. some (g j)) (omega arith)

pub get_elem-AllOpenKeys :
    (tok : ℕ) (x : EpochExecutor) (keys : List ℕ) (i key : ℕ)
    → AllOpenKeys tok x keys
    → get_elem? keys i ≡ some key
    → IsOpen x tok key
get_elem-AllOpenKeys tok x [] i key all h = absurd (ground arith)
get_elem-AllOpenKeys tok x (k ∷ keys) zero key all h = subst (IsOpen x tok) (cc h) all.0
get_elem-AllOpenKeys tok x (k ∷ keys) (suc i) key all h =
    get_elem-AllOpenKeys tok x keys i key all.1 h

pub withdrawals-AllOpen :
    (tok : ℕ) (x : EpochExecutor) (keys amounts : List ℕ)
    → AllOpenKeys tok x keys
    → IsOpen x tok x.sink_key
    → AllOpen x (withdrawals tok keys amounts)
unfolding withdrawals
withdrawals-AllOpen tok x [] amounts all sink = tt
withdrawals-AllOpen tok x (key ∷ keys) [] all sink = tt
withdrawals-AllOpen tok x (key ∷ keys) (amount ∷ amounts) all sink =
    elim (Bool-cases (ltb 0 amount)) [
      | inl e ↦ rw e (all.0, sink, withdrawals-AllOpen tok x keys amounts all.1 sink)
      | inr e ↦ rw e (withdrawals-AllOpen tok x keys amounts all.1 sink)
    ]

module _ (H : Hashes) (F : Arkworks) (B D : ℕ) where
  perform_each-cons :
      (next : ℕ → Result Request) (i : ℕ) (is : List ℕ) (r : Request) (x y z : EpochExecutor)
      (w : OpWitness) (ws : List OpWitness)
      → next i ≡ ok r
      → perform F x r ≡ ok (y, w)
      → perform_each H F B D next is y ≡ ok (z, ws)
      → perform_each H F B D next (i ∷ is) x ≡ ok (z, w ∷ ws)
  unfolding perform_each
  perform_each-cons next i is r x y z w ws e e' h =
      >>=-then (next i) _ e
        (>>=-then (perform F x r) _ e' (>>=-then (perform_each H F B D next is y) _ h refl))

  -- The loop is the run of the calls that its rounds issue.
  pub perform_each-run :
      (next : ℕ → Result Request) (f : ℕ → Request)
      → ((i : ℕ) → next i ≡ ok (f i))
      → (is : List ℕ) (x : EpochExecutor) (p : EpochExecutor × List OpWitness)
      → run F x (map f is) ≡ ok p
      → perform_each H F B D next is x ≡ ok p
  unfolding run
  perform_each-run next f issue [] x p h = unfold perform_each in h
  perform_each-run next f issue (i ∷ is) x p h =
      let ((y, w), e, h₁) = >>=-ok (perform F x (f i)) _ h in
      let ((z, ws), e', h₂) = >>=-ok (run F y (map f is)) _ h₁ in
      perform_each-cons next i is (f i) x y z w ws (issue i) e
        (perform_each-run next f issue is y (z, ws) e')
      ∙ h₂
