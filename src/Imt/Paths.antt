-- ===== src/Imt/Paths.antt =====
-- Membership paths of the native tree: what `siblings` and `index_bits` prove about a leaf, and
-- how a write with `set_leaf` changes leaves, paths and the root.
use Prim.Native.Nat.{bit_xor}
use ivc_checkpoints.Prelude.{
  ℕ, zero, suc, ◌+◌, ◌/◌, ◌%◌, ◌^◌, ◌≤◌, ◌<◌, ◌≡◌, refl, ◌≢◌, ◌⊎◌, inl, inr, arith, ◌==◌, ap, ap₂,
  ◌∙◌, sym, if◌then◌else◌, ◌∷◌,
}
use ivc_checkpoints.Prelude.Bits.{shr, bit_xor-one, bits_of, bits_of-suc, shr_small}
use ivc_checkpoints.Field.{Arkworks}
use ivc_checkpoints.Poseidon.{h2}
use ivc_checkpoints.Imt.{
  MerkleTree, node, leaf, root, index_bits, siblings, siblings_from, insert_node, parent, rehash,
  set_leaf, root_from_leaf,
}
use ivc_checkpoints.Imt.Consistent.{
  node-insert_node, depth-insert_node, depth-set_leaf, depth-rehash, IsConsistent, IsHashed,
  parent-children, set_leaf-IsConsistent,
}

pub xor-one_ne : (x : ℕ) → bit_xor x 1 ≢ x
xor-one_ne x h = absurd (omega (arith, bit_xor-one x))

-- A write below or beside a path leaves the siblings on it.
siblings_from-insert_node :
    (n level idx l p v : ℕ) (t : MerkleTree)
    → (l < level) ⊎ ((l ≡ level) × (p ≡ idx))
    → siblings_from (insert_node t l p v) n level idx ≡ siblings_from t n level idx
unfolding siblings_from
siblings_from-insert_node zero level idx l p v t h = refl
siblings_from-insert_node (suc n) level idx l p v t h =
    ap₂ ◌∷◌ (ground (arith, node-insert_node t l p v level (bit_xor idx 1), xor-one_ne idx))
      (siblings_from-insert_node n (suc level) (idx / 2) l p v t (inl (omega arith)))

module _ (F : Arkworks) where
  node-rehash :
      (n level idx l i : ℕ) (t : MerkleTree)
      → l ≤ level
      → node (rehash F n level idx t) l i ≡ node t l i
  unfolding rehash
  node-rehash zero level idx l i t h = refl
  node-rehash (suc n) level idx l i t h =
      node-rehash n (suc level) (idx / 2) l i _ (omega arith)
      ∙ ground (arith, node-insert_node t (suc level) (idx / 2) (parent F t level idx) l i)

  siblings_from-rehash :
      (n level idx : ℕ) (t : MerkleTree)
      → siblings_from (rehash F n level idx t) n level idx ≡ siblings_from t n level idx
  unfolding rehash siblings_from
  siblings_from-rehash zero level idx t = refl
  siblings_from-rehash (suc n) level idx t =
      ap₂ ◌∷◌ (node-rehash (suc n) level idx level (bit_xor idx 1) t (omega arith)) (
        siblings_from-rehash n (suc level) (idx / 2) _
        ∙ siblings_from-insert_node n (suc level) (idx / 2) (suc level) (idx / 2) _ t
            (inr (refl, refl)))

  -- A write changes the one leaf.
  pub leaf-set_leaf :
      (t : MerkleTree) (index v j : ℕ)
      → leaf (set_leaf F t index v) j ≡ (if j == index then v else leaf t j)
  unfolding set_leaf leaf
  leaf-set_leaf t index v j =
      node-rehash t.depth 0 index 0 j (insert_node t 0 index v) (omega arith)
      ∙ node-insert_node t 0 index v 0 j

  -- A write leaves the path of the leaf it writes.
  pub siblings-set_leaf :
      (t : MerkleTree) (index v : ℕ) → siblings (set_leaf F t index v) index ≡ siblings t index
  unfolding siblings set_leaf
  siblings-set_leaf t index v =
      ap (λ d. siblings_from (rehash F t.depth 0 index (insert_node t 0 index v)) d 0 index)
        (depth-rehash F t.depth 0 index (insert_node t 0 index v) ∙ depth-insert_node t 0 index v)
      ∙ siblings_from-rehash t.depth 0 index _
      ∙ siblings_from-insert_node t.depth 0 index 0 index v t (inr (refl, refl))

  climb_step :
      (t : MerkleTree) (level idx : ℕ)
      → IsHashed F t level (idx / 2)
      → (if idx % 2 == 1
          then h2 F (node t level (bit_xor idx 1)) (node t level idx)
          else h2 F (node t level idx) (node t level (bit_xor idx 1)))
        ≡ node t (suc level) (idx / 2)
  unfolding parent
  climb_step t level idx h = ground (arith, parent-children F t level idx)

  -- Climbing from a node along its siblings arrives at its ancestor.
  root_from_leaf-node :
      (n level idx : ℕ) (t : MerkleTree)
      → IsConsistent F t
      → level + n ≤ t.depth
      → root_from_leaf F (node t level idx) (siblings_from t n level idx) (bits_of idx n)
        ≡ node t (level + n) (shr idx n)
  unfolding root_from_leaf siblings_from
  root_from_leaf-node zero level idx t c h = ap (λ l. node t l idx) (omega arith)
  root_from_leaf-node (suc n) level idx t c h =
      ap (root_from_leaf F (node t level idx) (siblings_from t (suc n) level idx))
        (bits_of-suc idx n)
      ∙ ap (λ x. root_from_leaf F x (siblings_from t n (suc level) (idx / 2)) (bits_of (idx / 2) n))
          (climb_step t level idx (c level (idx / 2) (omega arith)))
      ∙ root_from_leaf-node n (suc level) (idx / 2) t c (omega arith)
      ∙ ap (λ l. node t l (shr (idx / 2) n)) (omega arith)

  -- The path of a leaf opens it against the root.
  pub root_from_leaf-siblings :
      (t : MerkleTree) (index : ℕ)
      → IsConsistent F t
      → index < 2 ^ t.depth
      → root_from_leaf F (leaf t index) (siblings t index) (index_bits t index) ≡ root t
  unfolding leaf siblings index_bits root
  root_from_leaf-siblings t index c h =
      root_from_leaf-node t.depth 0 index t c (omega arith)
      ∙ ap₂ (node t) (omega arith) (shr_small t.depth index h)

  -- After a write the root is the one that the old path gives for the new leaf.
  pub root-set_leaf :
      (t : MerkleTree) (index v : ℕ)
      → IsConsistent F t
      → index < 2 ^ t.depth
      → root (set_leaf F t index v) ≡ root_from_leaf F v (siblings t index) (index_bits t index)
  unfolding index_bits
  root-set_leaf t index v c h =
      sym (
        root_from_leaf-siblings (set_leaf F t index v) index (set_leaf-IsConsistent F t index v c)
          (rw (depth-set_leaf F t index v) h))
      ∙ ap₂ (λ s (d : ℕ). root_from_leaf F (leaf (set_leaf F t index v) index) s (bits_of index d))
          (siblings-set_leaf t index v) (depth-set_leaf F t index v)
      ∙ ap (λ x. root_from_leaf F x (siblings t index) (bits_of index t.depth))
          (leaf-set_leaf t index v index ∙ ground arith)
