-- ===== src/Prelude/Maps.antt =====
-- Total maps from numbers: a memory array, and a Solidity mapping with its default.
use Prim.Native.Nat.{ℕ}
use ivc_checkpoints.Prelude.Tests.{◌==◌, if◌then◌else◌}

-- The map with `v` at `k`.
abbrev pub write {ℓ} : {A : Type ℓ} → (ℕ → A) → ℕ → A → ℕ → A
write m k v i = if k == i then v else m i
