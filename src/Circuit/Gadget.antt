-- ===== src/Circuit/Gadget.antt =====
-- The gadget that recomputes a Merkle root gives the value of its native mirror.
use ivc_checkpoints.Prelude.{ℕ, ◌≡◌, refl, Bool, true, false, List, [], ◌∷◌}
use ivc_checkpoints.Field.{Arkworks}
use ivc_checkpoints.Poseidon.{h2}
use ivc_checkpoints.Imt.{root_from_leaf}
use ivc_checkpoints.Circuit.{merkle_root_from_leaf}

-- For every leaf, path and list of index bits the two roots are equal.
pub merkle_root_from_leaf-root_from_leaf :
    (F : Arkworks) (cur : ℕ) (sibs : List ℕ) (bits : List Bool)
    → merkle_root_from_leaf F cur sibs bits ≡ root_from_leaf F cur sibs bits
unfolding merkle_root_from_leaf root_from_leaf
merkle_root_from_leaf-root_from_leaf F cur [] bits = refl
merkle_root_from_leaf-root_from_leaf F cur (s ∷ sibs) [] = refl
merkle_root_from_leaf-root_from_leaf F cur (s ∷ sibs) (true ∷ bits) =
    merkle_root_from_leaf-root_from_leaf F (h2 F s cur) sibs bits
merkle_root_from_leaf-root_from_leaf F cur (s ∷ sibs) (false ∷ bits) =
    merkle_root_from_leaf-root_from_leaf F (h2 F cur s) sibs bits
