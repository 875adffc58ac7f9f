-- ===== src/Imt.antt =====
-- crates/ledger-circuit/src/imt.rs: the native sparse Merkle tree and the recomputation of a
-- root from a leaf and its path.
pub mod Consistent
pub mod Paths
pub mod Binding
pub mod Gadget
use Prim.Native.Nat.{bit_xor}
use ivc_checkpoints.Prelude.{
  ℕ, zero, suc, ◌+◌, ◌*◌, ◌/◌, ◌%◌, ◌<◌, ◌≡◌, Bool, true, false, ◌&&◌, List, [], ◌∷◌, map, Option,
  none, some, ◌==◌, if◌then◌else◌, get_or, unwrap_or, range_from,
}
use ivc_checkpoints.Prelude.Bits.{shr}
use ivc_checkpoints.Field.{Arkworks}
use ivc_checkpoints.Poseidon.{h2}

-- The hash map `nodes`, keyed by level and index, is a function.
pub record MerkleTree : Type 0 where
  pub depth : ℕ
  pub zeros : List ℕ
  pub nodes : ℕ → ℕ → Option ℕ

-- `zeros[level]` is read at levels up to the depth, which are all there.
unfoldable pub node : MerkleTree → ℕ → ℕ → ℕ
node t level index = unwrap_or (t.nodes level index) (get_or t.zeros level 0)

unfoldable pub root : MerkleTree → ℕ
root t = node t t.depth 0

unfoldable pub leaf : MerkleTree → ℕ → ℕ
leaf t index = node t 0 index

unfoldable pub index_bits : MerkleTree → ℕ → List Bool
index_bits t index = map (λ i. shr index i % 2 == 1) (range_from 0 t.depth)

-- `self.nodes.insert((level, index), hash)`
unfoldable pub insert_node : MerkleTree → ℕ → ℕ → ℕ → MerkleTree
insert_node t level index hash = record t {
  nodes = λ l i. if l == level && i == index then some hash else t.nodes l i;
}

-- The loop of `siblings`, from `level` over the levels left.
unfoldable pub siblings_from : MerkleTree → ℕ → ℕ → ℕ → List ℕ
siblings_from t zero level idx = []
siblings_from t (suc n) level idx =
    node t level (bit_xor idx 1) ∷ siblings_from t n (suc level) (idx / 2)

unfoldable pub siblings : MerkleTree → ℕ → List ℕ
siblings t index = siblings_from t t.depth 0 index

module _ (F : Arkworks) where
  -- The loop of `new` that fills `zeros`.
  unfoldable pub zeros_from : ℕ → ℕ → List ℕ
  zeros_from zero z = z ∷ []
  zeros_from (suc n) z = z ∷ zeros_from n (h2 F z z)

  unfoldable pub new : ℕ → MerkleTree
  new depth = record { depth = depth; zeros = zeros_from depth 0; nodes = λ l i. none }

  unfoldable pub parent : MerkleTree → ℕ → ℕ → ℕ
  parent t level idx =
      if idx % 2 == 0
      then h2 F (node t level idx) (node t level (bit_xor idx 1))
      else h2 F (node t level (bit_xor idx 1)) (node t level idx)

  -- The loop of `set_leaf`, from `level` over the levels left.
  unfoldable pub rehash : ℕ → ℕ → ℕ → MerkleTree → MerkleTree
  rehash zero level idx t = t
  rehash (suc n) level idx t =
      rehash n (suc level) (idx / 2) (insert_node t (suc level) (idx / 2) (parent t level idx))

  unfoldable pub set_leaf : MerkleTree → ℕ → ℕ → MerkleTree
  set_leaf t index leaf_hash = rehash t.depth 0 index (insert_node t 0 index leaf_hash)

  -- `merkle_root_from_leaf`, and its native mirror: `zip` stops at the shorter list.
  unfoldable pub root_from_leaf : ℕ → List ℕ → List Bool → ℕ
  root_from_leaf cur [] bits = cur
  root_from_leaf cur (sib ∷ sibs) [] = cur
  root_from_leaf cur (sib ∷ sibs) (bit ∷ bits) =
      root_from_leaf (if bit then h2 F sib cur else h2 F cur sib) sibs bits
