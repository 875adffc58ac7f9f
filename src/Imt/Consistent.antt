-- ===== src/Imt/Consistent.antt =====
-- The Merkle tree's invariant: each stored or default node is the hash of its two children, on
-- every level below the depth, and what the operations do to it.
use ivc_checkpoints.Prelude.{
  ℕ, zero, suc, ◌+◌, ◌-◌, ◌*◌, ◌/◌, ◌%◌, ◌<◌, ◌≡◌, refl, ◌≢◌, ◌⊎◌, inl, inr, ◌&&◌, arith, ◌==◌, ap,
  ap₂, ◌∙◌, if◌then◌else◌, Bool-cases, get_or, dec_lt,
}
use ivc_checkpoints.Prelude.Bits.{shr, xor_even, xor_odd}
use ivc_checkpoints.Field.{Arkworks}
use ivc_checkpoints.Poseidon.{h2}
use ivc_checkpoints.Imt.{MerkleTree, node, insert_node, zeros_from, new, parent, rehash, set_leaf}

pub node-insert_node :
    (t : MerkleTree) (level index hash l i : ℕ)
    → node (insert_node t level index hash) l i
      ≡ (if l == level && i == index then hash else node t l i)
unfolding node insert_node
node-insert_node t level index hash l i = ground arith

pub depth-insert_node :
    (t : MerkleTree) (level index hash : ℕ) → (insert_node t level index hash).depth ≡ t.depth
unfolding insert_node
depth-insert_node t level index hash = refl

pub depth-rehash :
    (F : Arkworks) (n level idx : ℕ) (t : MerkleTree) → (rehash F n level idx t).depth ≡ t.depth
unfolding rehash insert_node
depth-rehash F zero level idx t = refl
depth-rehash F (suc n) level idx t = depth-rehash F n (suc level) (idx / 2) _

pub depth-new : (F : Arkworks) (depth : ℕ) → (new F depth).depth ≡ depth
unfolding new
depth-new F depth = refl

pub depth-set_leaf :
    (F : Arkworks) (t : MerkleTree) (index v : ℕ) → (set_leaf F t index v).depth ≡ t.depth
unfolding set_leaf insert_node
depth-set_leaf F t index v = depth-rehash F t.depth 0 index _

module _ (F : Arkworks) where
  -- The node above level `l` at `i` is the hash of its two children.
  abbrev pub IsHashed : MerkleTree → ℕ → ℕ → Type 0
  IsHashed t l i = node t (suc l) i ≡ h2 F (node t l (2 * i)) (node t l (2 * i + 1))

  abbrev pub IsConsistent : MerkleTree → Type 0
  IsConsistent t = (l i : ℕ) → l < t.depth → IsHashed t l i

  -- Node `i` of level `l + 1` is not an ancestor of node `idx` of `level`.
  abbrev Off : ℕ → ℕ → ℕ → ℕ → Type 0
  Off level idx l i = (l < level) ⊎ (i ≢ shr idx (suc l - level))

  pub parent-children :
      (t : MerkleTree) (level idx : ℕ)
      → parent F t level idx
        ≡ h2 F (node t level (2 * (idx / 2))) (node t level (2 * (idx / 2) + 1))
  unfolding parent
  parent-children t level idx = elim (Bool-cases (idx % 2 == 0)) [
    | inl e ↦ rw e (
        ap₂ (λ a b. h2 F (node t level a) (node t level b)) (ground arith)
          (ground (arith, xor_even idx)))
    | inr e ↦ rw e (
        ap₂ (λ a b. h2 F (node t level a) (node t level b)) (ground (arith, xor_odd idx))
          (ground arith))
  ]

  node-insert_self :
      (t : MerkleTree) (level index hash : ℕ)
      → node (insert_node t level index hash) level index ≡ hash
  node-insert_self t level index hash =
      ground (arith, node-insert_node t level index hash level index)

  -- A write at (level + 1, p) leaves the nodes on other levels and at other places.
  node-insert_ne :
      (t : MerkleTree) (level index hash l i : ℕ)
      → (l ≢ level) ⊎ (i ≢ index)
      → node (insert_node t level index hash) l i ≡ node t l i
  node-insert_ne t level index hash l i h = ground (arith, node-insert_node t level index hash l i)

  Off-pred :
      (level idx l i : ℕ)
      → Off (suc level) (idx / 2) l i
      → (l ≢ level) ⊎ (i ≢ idx / 2)
      → Off level idx l i
  Off-pred level idx l i off h = elim (dec_lt level l) [
    | yes p ↦
        ground (arith, ap (shr idx) {x = suc l - level} {y = suc (suc l - suc level)} (omega arith))
    | no p ↦ ground (arith, λ (e : suc l - level ≡ 1). ap (shr idx) e)
  ]

  Off-children : (level p l i : ℕ) → Off (suc level) p l i → (l ≢ suc level) ⊎ (i ≢ p / 2)
  Off-children level p l i off = elim (dec_lt (suc level) l) [
    | yes h ↦ inl (omega arith)
    | no h ↦ ground (arith, λ (e : suc l - suc level ≡ 1). ap (shr p) e)
  ]

  Off-leaf :
      (index l i : ℕ)
      → Off 0 index l i
      → ((l ≢ 0) ⊎ (2 * i ≢ index)) × ((l ≢ 0) ⊎ (2 * i + 1 ≢ index))
  Off-leaf index zero i off = ground arith
  Off-leaf index (suc l) i off = ground arith

  insert-IsHashed_self :
      (t : MerkleTree) (level idx : ℕ)
      → IsHashed (insert_node t (suc level) (idx / 2) (parent F t level idx)) level (idx / 2)
  insert-IsHashed_self t level idx =
      node-insert_self t (suc level) (idx / 2) (parent F t level idx)
      ∙ rw
          (
            node-insert_ne t (suc level) (idx / 2) (parent F t level idx) level (2 * (idx / 2))
                (inl (omega arith)),
            node-insert_ne t (suc level) (idx / 2) (parent F t level idx) level (2 * (idx / 2) + 1)
                (inl (omega arith)),
          )
          (parent-children t level idx)

  insert-IsHashed :
      (t : MerkleTree) (level idx l i : ℕ)
      → ((l i : ℕ) → l < t.depth → Off level idx l i → IsHashed t l i)
      → l < t.depth
      → Off (suc level) (idx / 2) l i
      → IsHashed (insert_node t (suc level) (idx / 2) (parent F t level idx)) l i
  insert-IsHashed t level idx l i inv lt off = elim (Bool-cases (l == level && i == idx / 2)) [
    | inl e ↦
        let el : l ≡ level = ground arith in
        let ei : i ≡ idx / 2 = ground arith in rw (el, ei) (insert-IsHashed_self t level idx)
    | inr e ↦
        let children = Off-children level (idx / 2) l i off in
        rw
          (
            node-insert_ne t (suc level) (idx / 2) (parent F t level idx) (suc l) i (ground arith),
            node-insert_ne t (suc level) (idx / 2) (parent F t level idx) l (2 * i) (ground arith),
            node-insert_ne t (suc level) (idx / 2) (parent F t level idx) l (2 * i + 1)
                (ground arith),
          )
          (inv l i lt (Off-pred level idx l i off (ground arith)))
  ]

  rehash-IsConsistent :
      (n level idx : ℕ) (t : MerkleTree)
      → level + n ≡ t.depth
      → ((l i : ℕ) → l < t.depth → Off level idx l i → IsHashed t l i)
      → IsConsistent (rehash F n level idx t)
  unfolding rehash
  rehash-IsConsistent zero level idx t e inv = λ l i lt. inv l i lt (inl (omega arith))
  rehash-IsConsistent (suc n) level idx t e inv =
      let d = depth-insert_node t (suc level) (idx / 2) (parent F t level idx) in
      rehash-IsConsistent n (suc level) (idx / 2)
        (insert_node t (suc level) (idx / 2) (parent F t level idx)) (omega (arith, d))
        (λ l i lt off. insert-IsHashed t level idx l i inv (omega (arith, d)) off)

  insert_leaf-IsHashed :
      (t : MerkleTree) (index v l i : ℕ)
      → IsConsistent t
      → l < t.depth
      → Off 0 index l i
      → IsHashed (insert_node t 0 index v) l i
  insert_leaf-IsHashed t index v l i c lt off =
      rw
        (
          node-insert_ne t 0 index v (suc l) i (inl (omega arith)),
          node-insert_ne t 0 index v l (2 * i) (Off-leaf index l i off).0,
          node-insert_ne t 0 index v l (2 * i + 1) (Off-leaf index l i off).1,
        )
        (c l i lt)

  -- Writing a leaf keeps the tree consistent.
  pub set_leaf-IsConsistent :
      (t : MerkleTree) (index v : ℕ) → IsConsistent t → IsConsistent (set_leaf F t index v)
  unfolding set_leaf
  set_leaf-IsConsistent t index v c =
      let d = depth-insert_node t 0 index v in
      rehash-IsConsistent t.depth 0 index (insert_node t 0 index v) (omega (arith, d))
        (λ l i lt off. insert_leaf-IsHashed t index v l i c (omega (arith, d)) off)

  -- The fresh tree: each default is the hash of two defaults of the level below.
  get_or-zeros_from :
      (n z l : ℕ)
      → l < n
      → get_or (zeros_from F n z) (suc l) 0
        ≡ h2 F (get_or (zeros_from F n z) l 0) (get_or (zeros_from F n z) l 0)
  unfolding zeros_from
  get_or-zeros_from zero z l h = absurd (omega arith)
  get_or-zeros_from (suc zero) z zero h = refl
  get_or-zeros_from (suc (suc n)) z zero h = refl
  get_or-zeros_from (suc n) z (suc l) h = get_or-zeros_from n (h2 F z z) l (omega arith)

  pub new-IsConsistent : (depth : ℕ) → IsConsistent (new F depth)
  unfolding new node
  new-IsConsistent depth l i lt = get_or-zeros_from depth 0 l lt
