-- ===== src/Prelude/Dict.antt =====
-- A hash map keyed by field elements, as an association list with one entry for a key.
use Prim.Native.Nat.{ℕ, ◌+◌, ◌≤◌}
use mathlib.Core.Path.{◌≡◌, refl}
use mathlib.Core.List.{List, [], ◌∷◌}
use mathlib.Core.Option.{Option, none, some}
use native.Mathlib.Omega.{arith}
use ivc_checkpoints.Prelude.Tests.{◌==◌, if◌then◌else◌}
use ivc_checkpoints.Prelude.Lists.{unwrap_or}

abbrev pub Dict {ℓ} : Type ℓ → Type ℓ
Dict A = List (ℕ × A)

-- A read, by a scan for the key.
unfoldable pub lookup {ℓ} : {A : Type ℓ} → ℕ → Dict A → Option A
lookup key [] = none
lookup key (entry ∷ rest) = if entry.0 == key then some entry.1 else lookup key rest

-- A write, over the entry of the key or as the last one.
unfoldable pub insert {ℓ} : {A : Type ℓ} → ℕ → A → Dict A → Dict A
insert key value [] = (key, value) ∷ []
insert key value (entry ∷ rest) =
    if entry.0 == key then (key, value) ∷ rest else entry ∷ insert key value rest

-- A read after a write.
pub lookup-insert {ℓ} :
    {A : Type ℓ} (written read : ℕ) (value : A) (entries : Dict A)
    → lookup read (insert written value entries)
      ≡ (if written == read then some value else lookup read entries)
unfolding insert lookup
lookup-insert written read value [] = refl
lookup-insert written read value (entry ∷ rest) =
    ground (arith, lookup-insert written read value rest)

-- The sum of the values, and what a write does to it.
unfoldable pub total : Dict ℕ → ℕ
total [] = 0
total (entry ∷ rest) = entry.1 + total rest

pub total-insert :
    (k v : ℕ) (m : Dict ℕ) → total (insert k v m) + unwrap_or (lookup k m) 0 ≡ total m + v
unfolding total insert lookup
total-insert k v [] = omega arith
total-insert k v (entry ∷ rest) = ground (arith, total-insert k v rest)

pub lookup-le-total : (k v : ℕ) (m : Dict ℕ) → lookup k m ≡ some v → v ≤ total m
unfolding total lookup
lookup-le-total k v [] h = ground arith
lookup-le-total k v (entry ∷ rest) h = ground (arith, lookup-le-total k v rest)
