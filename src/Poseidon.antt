-- ===== src/Poseidon.antt =====
-- `PoseidonNative` and `PoseidonGadget` of crates/ledger-circuit/src/poseidon.rs: the same
-- three arities over the library's CRH, on values.
pub mod Codegen
pub mod Tables
pub mod Reference
pub mod Agreement
pub mod Fixture
pub mod Gadget
use ivc_checkpoints.Prelude.{ℕ, List, [], ◌∷◌}
use ivc_checkpoints.Field.{Arkworks}

module _ (F : Arkworks) where
  unfoldable pub h4 : ℕ → ℕ → ℕ → ℕ → ℕ
  h4 a b c d = F.evaluate (a ∷ b ∷ c ∷ d ∷ [])

  unfoldable pub h2 : ℕ → ℕ → ℕ
  h2 a b = F.evaluate (a ∷ b ∷ [])

  unfoldable pub hn : List ℕ → ℕ
  hn input = F.evaluate input
