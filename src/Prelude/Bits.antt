-- ===== src/Prelude/Bits.antt =====
-- Shifts of an index and its lowest bit.
use Prim.Native.Nat.{
  ℕ, zero, suc, ◌+◌, ◌-◌, ◌*◌, ◌/◌, ◌%◌, ◌^◌, ◌≤◌, ◌<◌, bit_xor, digits, differ, bit_xor-bitwise,
}
use mathlib.Core.Path.{◌≡◌, refl, ap, ap₂, ◌∙◌}
use mathlib.Core.Logic.{◌≢◌}
use mathlib.Core.Bool.{Bool, true, false}
use mathlib.Core.List.{List, [], ◌∷◌, map}
use native.Mathlib.Nat.{pow-suc}
use native.Mathlib.Omega.{arith}
use ivc_checkpoints.Prelude.Tests.{◌==◌}
use ivc_checkpoints.Prelude.Lists.{length, range_from}

-- `x >> k`, one place at a time.
abbrev pub shr : ℕ → ℕ → ℕ
shr x zero = x
shr x (suc k) = shr (x / 2) k

differ_bit : (r : ℕ) → r < 2 → (differ r 0 ≡ r) × (differ r 1 ≡ 1 - r)
differ_bit zero h = (refl, refl)
differ_bit (suc zero) h = (refl, refl)
differ_bit (suc (suc r)) h = absurd (omega arith)

differ-zero : (a : ℕ) → differ (a % 2) 0 ≡ a % 2
differ-zero a = (differ_bit (a % 2) (omega arith)).0

differ-one : (a : ℕ) → differ (a % 2) 1 ≡ 1 - a % 2
differ-one a = (differ_bit (a % 2) (omega arith)).1

digits-zero : (n a : ℕ) → a ≤ n → digits (λ b. b) differ n a 0 ≡ a
digits-zero zero zero h = refl
digits-zero zero (suc a) h = absurd (omega arith)
digits-zero (suc n) zero h = refl
digits-zero (suc n) (suc a) h =
    omega (arith, digits-zero n (suc a / 2) (omega arith), differ-zero (suc a))

-- `x ^ 1` is the other child of the parent of `x`.
pub bit_xor-one : (a : ℕ) → bit_xor a 1 ≡ a / 2 * 2 + (1 - a % 2)
bit_xor-one zero = refl
bit_xor-one (suc a) =
    rw (bit_xor-bitwise (suc a) 1)
      (omega (arith, digits-zero a (suc a / 2) (omega arith), differ-one (suc a)))

pub xor_even : (a : ℕ) → a % 2 ≡ 0 → bit_xor a 1 ≡ a + 1
xor_even a h = omega (arith, bit_xor-one a)

pub xor_odd : (a : ℕ) → a % 2 ≢ 0 → bit_xor a 1 + 1 ≡ a
xor_odd a h = omega (arith, bit_xor-one a)

-- The number that little-endian bits spell.
abbrev pub bit_value : Bool → ℕ
bit_value true = 1
bit_value false = 0

abbrev pub bits_value : List Bool → ℕ
bits_value [] = 0
bits_value (b ∷ bs) = bit_value b + 2 * bits_value bs

-- The bits of `x` at places 0 to n - 1.
abbrev pub bits_of : ℕ → ℕ → List Bool
bits_of x n = map (λ i. shr x i % 2 == 1) (range_from 0 n)

bits_shift :
    (x s n : ℕ)
    → map (λ i. shr x i % 2 == 1) (range_from (suc s) n)
      ≡ map (λ i. shr (x / 2) i % 2 == 1) (range_from s n)
bits_shift x s zero = refl
bits_shift x s (suc n) = ap₂ ◌∷◌ refl (bits_shift x (suc s) n)

pub bits_of-suc : (x n : ℕ) → bits_of x (suc n) ≡ (x % 2 == 1) ∷ bits_of (x / 2) n
bits_of-suc x n = ap₂ ◌∷◌ refl (bits_shift x 0 n)

pub shr_small : (k x : ℕ) → x < 2 ^ k → shr x k ≡ 0
shr_small zero x h = omega arith
shr_small (suc k) x h = shr_small k (x / 2) (omega (arith, pow-suc 2 k))

low_bit : (b : Bool) (n : ℕ) → ((bit_value b + 2 * n) % 2 == 1) ≡ b
low_bit true n = ground arith
low_bit false n = ground arith

high_bits : (b : Bool) (n : ℕ) → (bit_value b + 2 * n) / 2 ≡ n
high_bits true n = omega arith
high_bits false n = omega arith

-- A list of bits is that of the number it spells.
pub bits_of-bits_value : (bs : List Bool) → bits_of (bits_value bs) (length bs) ≡ bs
bits_of-bits_value [] = refl
bits_of-bits_value (b ∷ bs) =
    bits_of-suc (bits_value (b ∷ bs)) (length bs)
    ∙ ap₂ ◌∷◌ (low_bit b (bits_value bs))
        (ap (λ x. bits_of x (length bs)) (high_bits b (bits_value bs)) ∙ bits_of-bits_value bs)

pub bits_value-lt : (bs : List Bool) → bits_value bs < 2 ^ length bs
bits_value-lt [] = omega arith
bits_value-lt (true ∷ bs) = omega (arith, pow-suc 2 (length bs), bits_value-lt bs)
bits_value-lt (false ∷ bs) = omega (arith, pow-suc 2 (length bs), bits_value-lt bs)

bit_value_odd : (x : ℕ) → bit_value (x % 2 == 1) ≡ x % 2
bit_value_odd x = ground arith

-- A number below 2 ^ n is spelled by its n low bits.
pub bits_value-bits_of : (n x : ℕ) → x < 2 ^ n → bits_value (bits_of x n) ≡ x
bits_value-bits_of zero x h = omega arith
bits_value-bits_of (suc n) x h =
    ap bits_value (bits_of-suc x n)
    ∙ omega (arith, bits_value-bits_of n (x / 2) (omega (arith, pow-suc 2 n)), bit_value_odd x)
