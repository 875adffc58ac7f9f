-- ===== src/Hashes.antt =====
-- The libraries' Keccak-256 of bytes, and arkworks' reduction of big-endian bytes to a field
-- element, as parameters.
use ivc_checkpoints.Prelude.{ℕ, ◌%◌, ◌≡◌, List}
use ivc_checkpoints.Prelude.Bytes.{of_be_bytes}
use ivc_checkpoints.Field.{Arkworks}

pub record Hashes : Type 0 where
  pub keccak256 : List ℕ → List ℕ
  pub from_be_bytes_mod_order : List ℕ → ℕ

-- The documented behaviour of the reduction.
pub record IsReduction (F : Arkworks) (H : Hashes) : Type 0 where
  pub reduces : (bytes : List ℕ) → H.from_be_bytes_mod_order bytes ≡ of_be_bytes bytes % F.modulus
