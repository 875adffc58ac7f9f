-- ===== src/Imt/Binding.antt =====
-- What an accepted path proves about the tree, as long as the two-input hashes on the presented
-- path do not collide with those on the tree's own path.
use ivc_checkpoints.Prelude.{
  ℕ, zero, suc, ◌^◌, ◌<◌, ◌≡◌, refl, ap, ap₂, ◌∙◌, sym, subst, arith, List, [], ◌∷◌, true, false,
  Bool, length, ◌%◌, ◌==◌, map, range_from,
}
use ivc_checkpoints.Prelude.Bits.{shr, bits_value, bits_of, bits_of-bits_value, bits_value-lt}
use ivc_checkpoints.Field.{Arkworks}
use ivc_checkpoints.Poseidon.{h2}
use ivc_checkpoints.Imt.{
  MerkleTree, leaf, root, index_bits, siblings, siblings_from, set_leaf, root_from_leaf,
}
use ivc_checkpoints.Imt.Consistent.{IsConsistent}
use ivc_checkpoints.Imt.Paths.{root_from_leaf-siblings, root-set_leaf}

pub record Pair : Type 0 where
  pub left : ℕ
  pub right : ℕ

abbrev ordered : Bool → ℕ → ℕ → Pair
ordered true cur sib = record { left = sib; right = cur }
ordered false cur sib = record { left = cur; right = sib }

module _ (F : Arkworks) where
  abbrev hash_pair : Pair → ℕ
  hash_pair q = h2 F q.left q.right

  -- The inputs of `h2` on the way up a path.
  abbrev pub path_inputs : ℕ → List ℕ → List Bool → List Pair
  path_inputs cur [] bits = []
  path_inputs cur (sib ∷ sibs) [] = []
  path_inputs cur (sib ∷ sibs) (bit ∷ bits) =
      ordered bit cur sib ∷ path_inputs (hash_pair (ordered bit cur sib)) sibs bits

  -- Level by level, inputs with one hash are one input.
  abbrev pub NoCollision : List Pair → List Pair → Type 0
  NoCollision [] ys = Unit {0}
  NoCollision (x ∷ xs) [] = Unit {0}
  NoCollision (x ∷ xs) (y ∷ ys) = (hash_pair x ≡ hash_pair y → x ≡ y) × NoCollision xs ys

  ordered-injective :
      (b : Bool) (c c' s s' : ℕ) → ordered b c s ≡ ordered b c' s' → (c ≡ c') × (s ≡ s')
  ordered-injective true c c' s s' h = (ap (λ q. q.right) h, ap (λ q. q.left) h)
  ordered-injective false c c' s s' h = (ap (λ q. q.left) h, ap (λ q. q.right) h)

  root_from_leaf-cons :
      (cur sib : ℕ) (sibs : List ℕ) (bit : Bool) (bits : List Bool)
      → root_from_leaf F cur (sib ∷ sibs) (bit ∷ bits)
        ≡ root_from_leaf F (hash_pair (ordered bit cur sib)) sibs bits
  unfolding root_from_leaf
  root_from_leaf-cons cur sib sibs true bits = refl
  root_from_leaf-cons cur sib sibs false bits = refl

  -- Two paths of one index with one root have the same leaf and siblings.
  pub root_from_leaf-injective :
      (sibs sibs' : List ℕ) (bits : List Bool) (cur cur' : ℕ)
      → length sibs ≡ length bits
      → length sibs' ≡ length bits
      → NoCollision (path_inputs cur sibs bits) (path_inputs cur' sibs' bits)
      → root_from_leaf F cur sibs bits ≡ root_from_leaf F cur' sibs' bits
      → (cur ≡ cur') × (sibs ≡ sibs')
  unfolding root_from_leaf
  root_from_leaf-injective [] [] bits cur cur' l l' nc h = (h, refl)
  root_from_leaf-injective [] (s' ∷ sibs') [] cur cur' l l' nc h = absurd (omega arith)
  root_from_leaf-injective [] (s' ∷ sibs') (b ∷ bits) cur cur' l l' nc h = absurd (omega arith)
  root_from_leaf-injective (s ∷ sibs) sibs' [] cur cur' l l' nc h = absurd (omega arith)
  root_from_leaf-injective (s ∷ sibs) [] (b ∷ bits) cur cur' l l' nc h = absurd (omega arith)
  root_from_leaf-injective (s ∷ sibs) (s' ∷ sibs') (b ∷ bits) cur cur' l l' nc h =
      let ih =
        root_from_leaf-injective sibs sibs' bits (hash_pair (ordered b cur s))
          (hash_pair (ordered b cur' s')) (omega arith) (omega arith) nc.1
          (sym (root_from_leaf-cons cur s sibs b bits)
            ∙ h
            ∙ root_from_leaf-cons cur' s' sibs' b bits) in
      let both = ordered-injective b cur cur' s s' (nc.0 ih.0) in (both.0, ap₂ ◌∷◌ both.1 ih.1)

length-siblings_from : (t : MerkleTree) (n level idx : ℕ) → length (siblings_from t n level idx) ≡ n
unfolding siblings_from
length-siblings_from t zero level idx = refl
length-siblings_from t (suc n) level idx = ap suc (length-siblings_from t n (suc level) _)

pub length-siblings : (t : MerkleTree) (index : ℕ) → length (siblings t index) ≡ t.depth
unfolding siblings
length-siblings t index = length-siblings_from t t.depth 0 index

length-map_range : (f : ℕ → Bool) (s n : ℕ) → length (map f (range_from s n)) ≡ n
length-map_range f s zero = refl
length-map_range f s (suc n) = ap suc (length-map_range f (suc s) n)

pub length-index_bits : (t : MerkleTree) (index : ℕ) → length (index_bits t index) ≡ t.depth
unfolding index_bits
length-index_bits t index = length-map_range (λ i. shr index i % 2 == 1) 0 t.depth

pub index_bits-bits_value :
    (t : MerkleTree) (bits : List Bool)
    → length bits ≡ t.depth
    → index_bits t (bits_value bits) ≡ bits
unfolding index_bits
index_bits-bits_value t bits e = ap (bits_of (bits_value bits)) (sym e) ∙ bits_of-bits_value bits

module _ (F : Arkworks) where
  -- An accepted path is the tree's own path to the leaf at the index that the bits spell, and a
  -- root recomputed along it is the root of the tree after that write.
  pub opening :
      (t : MerkleTree) (v : ℕ) (sibs : List ℕ) (bits : List Bool)
      → IsConsistent F t
      → length sibs ≡ t.depth
      → length bits ≡ t.depth
      → NoCollision F
          (path_inputs F v sibs bits)
          (path_inputs F (leaf t (bits_value bits)) (siblings t (bits_value bits)) bits)
      → root_from_leaf F v sibs bits ≡ root t
      → (leaf t (bits_value bits) ≡ v)
        × ((v' : ℕ) → root_from_leaf F v' sibs bits ≡ root (set_leaf F t (bits_value bits) v'))
  opening t v sibs bits c ls lb nc h =
      let i = bits_value bits in
      let lt : i < 2 ^ t.depth = subst (λ d. i < 2 ^ d) lb (bits_value-lt bits) in
      let same =
        root_from_leaf-injective F sibs (siblings t i) bits v (leaf t i) (omega arith)
          (length-siblings t i ∙ sym lb) nc
          (h
            ∙ sym (root_from_leaf-siblings F t i c lt)
            ∙ ap (root_from_leaf F (leaf t i) (siblings t i)) (index_bits-bits_value t bits lb)) in
      (
        sym same.0,
        λ v'.
            ap (λ s. root_from_leaf F v' s bits) same.1
            ∙ sym (
                root-set_leaf F t i v' c lt
                ∙ ap (root_from_leaf F v' (siblings t i)) (index_bits-bits_value t bits lb)),
      )
