-- ===== src/Poseidon/Agreement.antt =====
-- The printed library against the library's CRH.
use native.Mathlib.Nat.{mod-lt}
use ivc_checkpoints.Prelude.{ℕ, ◌%◌, ◌<◌, ◌≡◌, sym, ap, ◌∙◌, [], ◌∷◌, arith}
use ivc_checkpoints.Field.{Arkworks, IsField}
use ivc_checkpoints.Poseidon.{h2, h4}
use ivc_checkpoints.Poseidon.Codegen.{PoseidonConfig, PoseidonT5, hash2, hash4, fold_net}
use ivc_checkpoints.Poseidon.Reference.{reference_hash, IsShaped, hash4-reference_hash}

-- The documented behaviour of `CRH::evaluate` on two and on four elements: the permutation over
-- the rows of the configuration, with the absent elements 0.
pub record IsPoseidon (F : Arkworks) (cfg : PoseidonConfig) : Type 0 where
  pub two :
      (a b : ℕ)
      → a < F.modulus
      → b < F.modulus
      → F.evaluate (a ∷ b ∷ []) ≡ reference_hash F.modulus cfg (a ∷ b ∷ 0 ∷ 0 ∷ [])
  pub four :
      (a b c d : ℕ)
      → a < F.modulus
      → b < F.modulus
      → c < F.modulus
      → d < F.modulus
      → F.evaluate (a ∷ b ∷ c ∷ d ∷ []) ≡ reference_hash F.modulus cfg (a ∷ b ∷ c ∷ d ∷ [])

module _ (F : Arkworks) (field : IsField F) (cfg : PoseidonConfig) (lib : PoseidonT5)
    (printed : IsShaped cfg lib) (modulus : lib.modulus ≡ F.modulus)
    (poseidon : IsPoseidon F cfg) where
  pub positive : 0 < F.modulus
  positive = omega (arith, field.wide)

  pub hash2-h2 : (a b : ℕ) → hash2 lib a b ≡ h2 F (a % F.modulus) (b % F.modulus)
  unfolding h2
  hash2-h2 a b =
      (hash4-reference_hash cfg lib printed a b 0 0).2
      ∙ ap (λ p. reference_hash p cfg (a % p ∷ b % p ∷ 0 ∷ 0 ∷ [])) modulus
      ∙ sym (poseidon.two (a % F.modulus) (b % F.modulus) (mod-lt a positive) (mod-lt b positive))

  pub hash4-h4 :
      (a b c d : ℕ)
      → hash4 lib a b c d ≡ h4 F (a % F.modulus) (b % F.modulus) (c % F.modulus) (d % F.modulus)
  unfolding h4
  hash4-h4 a b c d =
      (hash4-reference_hash cfg lib printed a b c d).0
      ∙ ap (λ p. reference_hash p cfg (a % p ∷ b % p ∷ c % p ∷ d % p ∷ [])) modulus
      ∙ sym (
          poseidon.four (a % F.modulus) (b % F.modulus) (c % F.modulus) (d % F.modulus)
            (mod-lt a positive) (mod-lt b positive) (mod-lt c positive) (mod-lt d positive))

  pub fold_net-h4 :
      (a b c d : ℕ)
      → fold_net lib a b c d ≡ h4 F (a % F.modulus) (b % F.modulus) (c % F.modulus) (d % F.modulus)
  fold_net-h4 a b c d =
      (hash4-reference_hash cfg lib printed a b c d).1
      ∙ sym (hash4-reference_hash cfg lib printed a b c d).0
      ∙ hash4-h4 a b c d
