-- ===== src/Imt/Gadget.antt =====
-- merkle_root_from_leaf of crates/ledger-circuit/src/imt.rs over variables of a constraint system.
use ivc_checkpoints.Prelude.{
  ℕ, ◌≡◌, refl, sym, Bool, true, false, some, List, [], ◌∷◌, map, if◌then◌else◌,
}
use ivc_checkpoints.Field.{Arkworks}
use ivc_checkpoints.Poseidon.{h2}
use ivc_checkpoints.Poseidon.Gadget.{Gadgets, PoseidonGadget, h2_var}
use ivc_checkpoints.Poseidon.Gadget.Values.{
  IsSatisfied, Gives, Always-pure, Always-then, Has, IsGadgets, IsHasher, h2_lem,
}
use ivc_checkpoints.Imt.{root_from_leaf}
use ivc_checkpoints.Ops.Alloc.{Constraints, Alloc, ◌>>=◌, pure}
use ivc_checkpoints.Ops.Agree.{Reading}

-- `bit == true` makes `cur` the right child; `zip` stops at the shorter list.
unfoldable pub merkle_root_var :
    (V : Constraints) (G : Gadgets V)
    → PoseidonGadget V G
    → V.FpVar
    → List V.FpVar
    → List V.BooleanVar
    → Alloc V V.FpVar
merkle_root_var V G poseidon cur [] bits = pure cur
merkle_root_var V G poseidon cur (sib ∷ sibs) [] = pure cur
merkle_root_var V G poseidon cur (sib ∷ sibs) (bit ∷ bits) = do
  left ← λ cs. G.conditionally_select cs bit sib cur
  right ← λ cs. G.conditionally_select cs bit cur sib
  cur' ← h2_var V G poseidon left right
  merkle_root_var V G poseidon cur' sibs bits

module _ (V : Constraints) (R : Reading V) (G : Gadgets V) (F : Arkworks) (law : IsGadgets V R G F)
    (poseidon : PoseidonGadget V G) (hasher : IsHasher V R G F law poseidon) where
  select_both :
      (b : Bool) (sib cur : ℕ)
      → h2 F (if b then sib else cur) (if b then cur else sib)
        ≡ (if b then h2 F sib cur else h2 F cur sib)
  select_both true sib cur = refl
  select_both false sib cur = refl

  -- In a constraint system in proving whose constraints hold, on variables with the values of a
  -- leaf, siblings and index bits and under the canonical configuration: the gadget returns, the
  -- constraints still hold, and its variable has the root that the native mirror computes.
  pub merkle_root_var-root_from_leaf :
      (leaf : V.FpVar) (sib_vars : List V.FpVar) (bit_vars : List V.BooleanVar) (x : ℕ)
      (sibs : List ℕ) (bits : List Bool)
      → R.fp_value leaf ≡ some x
      → map R.fp_value sib_vars ≡ map some sibs
      → map R.boolean_value bit_vars ≡ map some bits
      → (c : V.System) → IsSatisfied V R G c
      → Gives V R G
          (merkle_root_var V G poseidon leaf sib_vars bit_vars)
          (Has V R G (root_from_leaf F x sibs bits))
          c
  unfolding merkle_root_var root_from_leaf
  merkle_root_var-root_from_leaf leaf [] bit_vars x [] bits h s b = Always-pure V R G _ leaf h
  merkle_root_var-root_from_leaf leaf [] bit_vars x (y ∷ sibs) bits h s b = cc
  merkle_root_var-root_from_leaf leaf (v ∷ vs) bit_vars x [] bits h s b = cc
  merkle_root_var-root_from_leaf leaf (v ∷ vs) [] x (y ∷ sibs) [] h s b = Always-pure V R G _ leaf h
  merkle_root_var-root_from_leaf leaf (v ∷ vs) [] x (y ∷ sibs) (bit ∷ bits) h s b = cc
  merkle_root_var-root_from_leaf leaf (v ∷ vs) (w ∷ ws) x (y ∷ sibs) [] h s b = cc
  merkle_root_var-root_from_leaf leaf (v ∷ vs) (w ∷ ws) x (y ∷ sibs) (bit ∷ bits) h s b =
      Always-then V R G (law.select_lem w v leaf bit y x bit_value sib_value h) (λ left l.
        Always-then V R G (law.select_lem w leaf v bit x y bit_value h sib_value) (λ right r.
          Always-then V R G (h2_lem V R G F law poseidon left right _ _ hasher l r) (λ cur e.
            merkle_root_var-root_from_leaf cur vs ws _ sibs bits (rw (sym (select_both bit y x)) e)
              sib_values bit_values)))
    where
      sib_value : R.fp_value v ≡ some y
      sib_value = cc

      bit_value : R.boolean_value w ≡ some bit
      bit_value = cc

      sib_values : map R.fp_value vs ≡ map some sibs
      sib_values = cc

      bit_values : map R.boolean_value ws ≡ map some bits
      bit_values = cc
