-- ===== src/UnitTests.antt =====
-- The unit tests of imt.rs, poseidon.rs and lib.rs of crates/ledger-circuit, over any field and
-- any constraint system. A test that returns `ok true` passes, and a panic is an error value.
pub mod Passed
pub mod Batch
use ivc_checkpoints.Prelude.{ℕ, Bool, true, false, ◌&&◌, Option, none, some, List, [], ◌∷◌, ◌==◌}
use ivc_checkpoints.Prelude.Results
use ivc_checkpoints.Field.{Arkworks, of_int}
use ivc_checkpoints.Poseidon.{h4}
use ivc_checkpoints.Poseidon.Gadget.{Gadgets, h4_var, new_witness, new_bit, check}
use ivc_checkpoints.Poseidon.Gadget
use ivc_checkpoints.Imt
use ivc_checkpoints.Imt.{MerkleTree, root, siblings, index_bits, set_leaf, root_from_leaf}
use ivc_checkpoints.Imt.Gadget.{merkle_root_var}
use ivc_checkpoints.Ops.{new_variable, default_input}
use ivc_checkpoints.Ops.Alloc.{Constraints, Alloc, continue, ◌>>=◌, pure}
use ivc_checkpoints.Ops.Agree.{Reading}
use ivc_checkpoints.Circuit.{generate_step_constraints}
use ivc_checkpoints.Native.{
  Result, EpochExecutor, register, initial_state, state, run, Request, load_of, spend_of,
  withdraw_of,
}
use ivc_checkpoints.Native

-- `assert_eq!` on two lists of field elements
abbrev pub equal : List ℕ → List ℕ → Bool
equal [] [] = true
equal [] (y ∷ ys) = false
equal (x ∷ xs) [] = false
equal (x ∷ xs) (y ∷ ys) = x == y && equal xs ys

-- The next state is the expected one, and `cs.is_satisfied()`.
abbrev pub satisfied_with : Option (List ℕ × Bool) → List ℕ → Bool
satisfied_with none expected = false
satisfied_with (some (z_next, satisfied)) expected = satisfied && equal z_next expected

module _ (F : Arkworks) where
  abbrev pub roundtrip_leaf : ℕ
  roundtrip_leaf = h4 F (of_int F 7) (of_int F 1) (of_int F 100) (of_int F 0)

  abbrev pub roundtrip_tree : MerkleTree
  roundtrip_tree = set_leaf F (Imt.new F 22) 12345 roundtrip_leaf

  unfoldable pub native_path_roundtrips : Bool
  native_path_roundtrips =
      root_from_leaf F roundtrip_leaf (siblings roundtrip_tree 12345)
        (index_bits roundtrip_tree 12345)
      == root roundtrip_tree

  abbrev pub gadget_leaf : ℕ
  gadget_leaf = h4 F (of_int F 9) (of_int F 1) (of_int F 50) (of_int F 3)

  abbrev pub gadget_tree : MerkleTree
  gadget_tree = set_leaf F (Imt.new F 22) 999 gadget_leaf

  module _ (V : Constraints) (R : Reading V) (G : Gadgets V) where
    -- `.into_iter().map(|x| new_witness(cs, || Ok(x)).unwrap()).collect()`
    unfoldable pub each : {X W : Type 0} → (X → Alloc V W) → List X → Alloc V (List W)
    each call [] = pure []
    each call (x ∷ xs) = do w ← call x; ws ← each call xs; pure (w ∷ ws)

    unfoldable pub h4_native_matches_gadget : Alloc V Bool
    h4_native_matches_gadget = do
      g ← Gadget.new V G G.canonical_config
      a ← new_witness V G (of_int F 1)
      b ← new_witness V G (of_int F 2)
      c ← new_witness V G (of_int F 3)
      d ← new_witness V G (of_int F 4)
      out_gadget ← h4_var V G g a b c d
      check V G R out_gadget (h4 F (of_int F 1) (of_int F 2) (of_int F 3) (of_int F 4))

    unfoldable pub gadget_matches_native_root : Alloc V Bool
    gadget_matches_native_root = do
      g ← Gadget.new V G G.canonical_config
      leaf_var ← new_witness V G gadget_leaf
      sib_vars ← each (new_witness V G) (siblings gadget_tree 999)
      bit_vars ← each (new_bit V G) (index_bits gadget_tree 999)
      root_var ← merkle_root_var V G g leaf_var sib_vars bit_vars
      check V G R root_var (root gadget_tree)

  abbrev pub arbitrary_state : List ℕ
  arbitrary_state = of_int F 123 ∷ of_int F 456 ∷ of_int F 789 ∷ []

  unfoldable pub inactive_batch_is_noop : Bool
  inactive_batch_is_noop =
      satisfied_with
        (generate_step_constraints F 4 arbitrary_state (new_variable F 10 4 (default_input 4 10)))
        arbitrary_state
