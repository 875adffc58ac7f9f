-- ===== src/Field.antt =====
-- What the crates use of the vendored arkworks libraries, as parameters: the modulus of the
-- field, the Poseidon CRH under the canonical configuration and the bit decomposition. A field
-- element is its canonical representative, a number below the modulus.
pub mod Laws
use ivc_checkpoints.Prelude.Bits.{bits_value}
use ivc_checkpoints.Prelude.{
  ℕ, suc, ◌+◌, ◌-◌, ◌*◌, ◌%◌, ◌^◌, ◌≤◌, ◌<◌, ◌≡◌, Bool, true, false, List, [], ◌∷◌, arith,
}

pub record Arkworks : Type 0 where
  -- `PrimeField::MODULUS`
  pub modulus : ℕ
  -- `CRH::evaluate(&config, input)`, and `CRHGadget::evaluate` on values
  pub evaluate : List ℕ → ℕ
  -- `to_bits_le` of a canonical representative
  pub to_bits_le : ℕ → List Bool

-- The documented behaviour of the library that the theorems use.
pub record IsField (F : Arkworks) : Type 0 where
  -- twice the 96-bit range fits below the modulus
  pub wide : 2 ^ 97 ≤ F.modulus
  pub evaluate_lt : (xs : List ℕ) → F.evaluate xs < F.modulus
  pub bits_lem : (x : ℕ) → x < F.modulus → bits_value (F.to_bits_le x) ≡ x

module _ (F : Arkworks) where
  -- `F::from(n)`
  unfoldable pub of_int : ℕ → ℕ
  of_int n = n % F.modulus

  unfoldable pub add : ℕ → ℕ → ℕ
  add a b = (a + b) % F.modulus

  unfoldable pub sub : ℕ → ℕ → ℕ
  sub a b = (a + F.modulus - b) % F.modulus
