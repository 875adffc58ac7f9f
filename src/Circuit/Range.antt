-- ===== src/Circuit/Range.antt =====
-- `enforce_bit_width` is a range proof.
use native.Mathlib.Nat.{pow-suc}
use ivc_checkpoints.Prelude.{
  ℕ, zero, suc, ◌^◌, ◌<◌, ◌≡◌, refl, ◌↔◌, Bool, true, false, List, [], ◌∷◌, arith, subst, sym,
}
use ivc_checkpoints.Prelude.Bits.{bits_value}
use ivc_checkpoints.Field.{Arkworks, IsField}
use ivc_checkpoints.Circuit.{all_false, enforce_bit_width}

all_false-lt : (k : ℕ) (bs : List Bool) → all_false k bs ≡ true → bits_value bs < 2 ^ k
unfolding all_false
all_false-lt zero [] h = omega arith
all_false-lt zero (true ∷ bs) h = cc
all_false-lt zero (false ∷ bs) h = omega (arith, all_false-lt zero bs h)
all_false-lt (suc k) [] h = omega (arith, pow-suc 2 k, all_false-lt k [] refl)
all_false-lt (suc k) (true ∷ bs) h = omega (arith, pow-suc 2 k, all_false-lt k bs h)
all_false-lt (suc k) (false ∷ bs) h = omega (arith, pow-suc 2 k, all_false-lt k bs h)

lt-all_false : (k : ℕ) (bs : List Bool) → bits_value bs < 2 ^ k → all_false k bs ≡ true
unfolding all_false
lt-all_false zero [] h = refl
lt-all_false zero (true ∷ bs) h = absurd (omega arith)
lt-all_false zero (false ∷ bs) h = lt-all_false zero bs (omega arith)
lt-all_false (suc k) [] h = refl
lt-all_false (suc k) (true ∷ bs) h = lt-all_false k bs (omega (arith, pow-suc 2 k))
lt-all_false (suc k) (false ∷ bs) h = lt-all_false k bs (omega (arith, pow-suc 2 k))

-- The constraint on a canonical representative holds exactly when it is below 2 ^ bits.
pub enforce_bit_width_iff :
    (F : Arkworks) (x bits : ℕ)
    → IsField F
    → x < F.modulus
    → (enforce_bit_width F x bits ≡ true) ↔ (x < 2 ^ bits)
unfolding enforce_bit_width
enforce_bit_width_iff F x bits v h = (
  λ e. subst (λ y. y < 2 ^ bits) (v.bits_lem x h) (all_false-lt bits (F.to_bits_le x) e),
  λ lt. lt-all_false bits (F.to_bits_le x) (subst (λ y. y < 2 ^ bits) (sym (v.bits_lem x h)) lt),
)
