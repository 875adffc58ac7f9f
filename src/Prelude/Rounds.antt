-- ===== src/Prelude/Rounds.antt =====
-- Sums over the rounds of a loop that takes its indices in turn, `i % n`.
use native.Mathlib.Nat.{mod-eq_of_lt, add-mul-mod_self_left, mul_comm}
use mathlib.Core.Path.{◌≡◌, refl, ap, ap₂, ◌∙◌}
use native.Mathlib.Omega.{arith}
use Prim.Native.Nat.{ℕ, zero, suc, ◌+◌, ◌-◌, ◌*◌, ◌%◌, ◌<◌, ◌≤◌}
use ivc_checkpoints.Prelude.Lists.{range_from}
use ivc_checkpoints.Prelude.Ranges.{sum_of}

sum_of-append :
    (f : ℕ → ℕ) (m n s : ℕ)
    → sum_of f (range_from s (m + n)) ≡ sum_of f (range_from s m) + sum_of f (range_from (s + m) n)
sum_of-append f zero n s =
    ap (λ k. sum_of f (range_from s k)) {x = 0 + n} {y = n} (omega arith)
    ∙ ap (λ k. sum_of f (range_from k n)) {x = s} {y = s + 0} (omega arith)
    ∙ omega arith
sum_of-append f (suc m) n s =
    ap (λ k. sum_of f (range_from s k)) {x = suc m + n} {y = suc (m + n)} (omega arith)
    ∙ ap (λ t. f s + t)
        (sum_of-append f m n (suc s)
          ∙ ap (λ k. sum_of f (range_from (suc s) m) + sum_of f (range_from k n)) {x = suc s + m}
              {y = s + suc m} (omega arith))
    ∙ omega arith

sum_of-shift :
    (f g : ℕ → ℕ) (n s t : ℕ)
    → ((i : ℕ) → i < n → f (s + i) ≡ g (t + i))
    → sum_of f (range_from s n) ≡ sum_of g (range_from t n)
sum_of-shift f g zero s t h = refl
sum_of-shift f g (suc n) s t h =
    ap₂ (λ a b. a + b)
      (ap f {x = s} {y = s + 0} (omega arith)
        ∙ h 0 (omega arith)
        ∙ ap g {x = t + 0} {y = t} (omega arith))
      (sum_of-shift f g n (suc s) (suc t) λ i lt.
        ap f {x = suc s + i} {y = s + suc i} (omega arith)
        ∙ h (suc i) (omega (arith, lt))
        ∙ ap g {x = t + suc i} {y = suc t + i} (omega arith))

pub sum_of-le :
    (f : ℕ → ℕ) (m n s : ℕ) → m ≤ n → sum_of f (range_from s m) ≤ sum_of f (range_from s n)
sum_of-le f m n s h = omega (
  arith,
  ap (λ k. sum_of f (range_from s k)) {x = n} {y = m + (n - m)} (omega arith),
  sum_of-append f m (n - m) s,
)

module _ (f : ℕ → ℕ) (n : ℕ) where
  abbrev pub turns : ℕ → ℕ
  turns m = sum_of (λ i. f (i % n)) (range_from 0 m)

  -- `q` full rounds.
  turns-mul : (q : ℕ) → turns (q * n) ≡ q * sum_of f (range_from 0 n)
  turns-mul zero = ap turns {x = 0 * n} {y = 0} (omega arith) ∙ omega arith
  turns-mul (suc q) =
      ap turns {x = suc q * n} {y = q * n + n} (omega arith)
      ∙ sum_of-append (λ i. f (i % n)) (q * n) n 0
      ∙ ap₂ (λ a b. a + b) (turns-mul q)
          (sum_of-shift (λ i. f (i % n)) f n (0 + q * n) 0
            λ i lt. ap f (
              ap (λ k. k % n) {x = 0 + q * n + i} {y = i + n * q} (omega (arith, mul_comm q n))
              ∙ add-mul-mod_self_left i n q
              ∙ mod-eq_of_lt lt
              ∙ omega arith))
      ∙ omega arith

  pub turns-covered : (q m : ℕ) → m ≤ q * n → turns m ≤ q * sum_of f (range_from 0 n)
  turns-covered q m h = omega (arith, sum_of-le (λ i. f (i % n)) m (q * n) 0 h, turns-mul q)

  pub turns-round : (m : ℕ) → n ≤ m → sum_of f (range_from 0 n) ≤ turns m
  turns-round m h = omega (arith, sum_of-le (λ i. f (i % n)) (1 * n) m 0 (omega arith), turns-mul 1)
