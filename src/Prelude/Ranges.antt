-- ===== src/Prelude/Ranges.antt =====
-- Loops over a range of indices against loops over the lists that they index.
use mathlib.Core.Path.{◌≡◌, refl, ap, ap₂, ◌∙◌}
use mathlib.Core.List.{List, [], ◌∷◌, map}
use native.Mathlib.Omega.{arith}
use Prim.Native.Nat.{ℕ, zero, suc, ◌+◌, ◌*◌, ◌<◌}
use ivc_checkpoints.Prelude.Lists.{length, get_or, range_from}

pub map_range-cong {ℓ} :
    {A : Type ℓ} (f g : ℕ → A) (s n : ℕ)
    → ((j : ℕ) → j < s + n → f j ≡ g j)
    → map f (range_from s n) ≡ map g (range_from s n)
map_range-cong f g s zero h = refl
map_range-cong f g s (suc n) h =
    ap₂ ◌∷◌ (h s (omega arith)) (map_range-cong f g (suc s) n (λ j l. h j (omega (arith, l))))

pub map_range-shift {ℓ} :
    {A : Type ℓ} (f : ℕ → A) (s n : ℕ)
    → map f (range_from (suc s) n) ≡ map (λ i. f (suc i)) (range_from s n)
map_range-shift f s zero = refl
map_range-shift f s (suc n) = ap₂ ◌∷◌ refl (map_range-shift f (suc s) n)

pub map_range-get_or {ℓ κ} :
    {A : Type ℓ} {B : Type κ} (f : A → B) (xs : List A) (d : A) (n : ℕ)
    → length xs ≡ n
    → map (λ i. f (get_or xs i d)) (range_from 0 n) ≡ map f xs
map_range-get_or f [] d zero e = refl
map_range-get_or f [] d (suc n) e = absurd (omega (arith, e))
map_range-get_or f (x ∷ xs) d zero e = absurd (omega (arith, e))
map_range-get_or f (x ∷ xs) d (suc n) e = ap₂ ◌∷◌ refl (
    map_range-shift (λ i. f (get_or (x ∷ xs) i d)) 0 n
    ∙ map_range-get_or f xs d n (omega (arith, e)))

pub length-map_range {ℓ} : {A : Type ℓ} (f : ℕ → A) (s n : ℕ) → length (map f (range_from s n)) ≡ n
length-map_range f s zero = refl
length-map_range f s (suc n) = ap suc (length-map_range f (suc s) n)

abbrev pub zip_with {ℓ κ ν} :
    {A : Type ℓ} {B : Type κ} {C : Type ν} → (A → B → C) → List A → List B → List C
zip_with f [] ys = []
zip_with f (x ∷ xs) [] = []
zip_with f (x ∷ xs) (y ∷ ys) = f x y ∷ zip_with f xs ys

pub map_range-zip_with :
    (f : ℕ → ℕ → ℕ) (xs ys : List ℕ) (n : ℕ)
    → length xs ≡ n
    → length ys ≡ n
    → map (λ j. f (get_or xs j 0) (get_or ys j 0)) (range_from 0 n) ≡ zip_with f xs ys
map_range-zip_with f [] ys zero e e' = refl
map_range-zip_with f [] ys (suc n) e e' = absurd (omega (arith, e))
map_range-zip_with f (x ∷ xs) ys zero e e' = absurd (omega (arith, e))
map_range-zip_with f (x ∷ xs) [] (suc n) e e' = absurd (omega (arith, e'))
map_range-zip_with f (x ∷ xs) (y ∷ ys) (suc n) e e' = ap₂ ◌∷◌ refl (
    map_range-shift (λ j. f (get_or (x ∷ xs) j 0) (get_or (y ∷ ys) j 0)) 0 n
    ∙ map_range-zip_with f xs ys n (omega (arith, e)) (omega (arith, e')))

-- The sum of a function over indices.
abbrev pub sum_of : (ℕ → ℕ) → List ℕ → ℕ
sum_of f [] = 0
sum_of f (j ∷ js) = f j + sum_of f js

abbrev pub dot : List ℕ → List ℕ → ℕ
dot [] ys = 0
dot (x ∷ xs) [] = 0
dot (x ∷ xs) (y ∷ ys) = x * y + dot xs ys

sum_of-shift :
    (f : ℕ → ℕ) (s n : ℕ)
    → sum_of f (range_from (suc s) n) ≡ sum_of (λ i. f (suc i)) (range_from s n)
sum_of-shift f s zero = refl
sum_of-shift f s (suc n) = ap (λ t. f (suc s) + t) (sum_of-shift f (suc s) n)

pub sum_of-cong :
    (f g : ℕ → ℕ) (s n : ℕ)
    → ((j : ℕ) → j < s + n → f j ≡ g j)
    → sum_of f (range_from s n) ≡ sum_of g (range_from s n)
sum_of-cong f g s zero h = refl
sum_of-cong f g s (suc n) h =
    ap₂ ◌+◌ (h s (omega arith)) (sum_of-cong f g (suc s) n (λ j l. h j (omega (arith, l))))

pub sum_of-dot :
    (xs ys : List ℕ) (n : ℕ)
    → length xs ≡ n
    → length ys ≡ n
    → sum_of (λ j. get_or xs j 0 * get_or ys j 0) (range_from 0 n) ≡ dot xs ys
sum_of-dot [] ys zero e e' = refl
sum_of-dot [] ys (suc n) e e' = absurd (omega (arith, e))
sum_of-dot (x ∷ xs) ys zero e e' = absurd (omega (arith, e))
sum_of-dot (x ∷ xs) [] (suc n) e e' = absurd (omega (arith, e'))
sum_of-dot (x ∷ xs) (y ∷ ys) (suc n) e e' =
    ap (λ t. x * y + t)
      (sum_of-shift (λ j. get_or (x ∷ xs) j 0 * get_or (y ∷ ys) j 0) 0 n
        ∙ sum_of-dot xs ys n (omega (arith, e)) (omega (arith, e')))
