-- ===== src/Prelude/Bytes.antt =====
-- Big-endian bytes of a number.
pub mod Spelled
use Prim.Native.Nat.{ℕ, zero, suc, ◌+◌, ◌*◌, ◌/◌, ◌%◌, ◌^◌}
use mathlib.Core.List.{List, [], ◌∷◌}

-- The `w` low bytes, the highest first: `n.to_be_bytes()` of a `w`-byte integer.
unfoldable pub to_be_bytes : ℕ → ℕ → List ℕ
to_be_bytes zero n = []
to_be_bytes (suc w) n = (n / 256 ^ w) % 256 ∷ to_be_bytes w n

-- The number that bytes spell, after what `acc` spells.
abbrev pub of_be_bytes_from : ℕ → List ℕ → ℕ
of_be_bytes_from acc [] = acc
of_be_bytes_from acc (b ∷ bs) = of_be_bytes_from (256 * acc + b) bs

unfoldable pub of_be_bytes : List ℕ → ℕ
of_be_bytes bs = of_be_bytes_from 0 bs
