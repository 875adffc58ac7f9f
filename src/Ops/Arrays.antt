-- ===== src/Ops/Arrays.antt =====
-- Copying an array of the right length gives the array.
use ivc_checkpoints.Prelude.{
  ℕ, zero, suc, ◌≡◌, refl, ◌∙◌, ap, ap₂, List, [], ◌∷◌, map, length, get_or, range_from, sym,
}
use ivc_checkpoints.Ops.{copy}

module _ {ℓ} {A : Type ℓ} where
  copy_shift :
      (y : A) (xs : List A) (d : A) (s n : ℕ)
      → map (λ i. get_or (y ∷ xs) i d) (range_from (suc s) n)
        ≡ map (λ i. get_or xs i d) (range_from s n)
  copy_shift y xs d s zero = refl
  copy_shift y xs d s (suc n) = ap₂ ◌∷◌ refl (copy_shift y xs d (suc s) n)

  pub copy-length : (xs : List A) (d : A) → copy (length xs) xs d ≡ xs
  copy-length [] d = refl
  copy-length (x ∷ xs) d = ap₂ ◌∷◌ refl (copy_shift x xs d 0 (length xs) ∙ copy-length xs d)

  pub copy_all : (D : ℕ) (xs : List A) (d : A) → length xs ≡ D → copy D xs d ≡ xs
  copy_all D xs d e = sym (ap (λ n. copy n xs d) e) ∙ copy-length xs d
