-- ===== src/UnitTests/Passed.antt =====
-- The unit tests of crates/ledger-circuit that need no executor, over a hash and a constraint system
-- that behave as documented.
use ivc_checkpoints.Prelude.{
  ℕ, ◌<◌, ◌^◌, ◌==◌, ◌≡◌, refl, sym, ap, ap₂, ◌∙◌, true, ◌&&◌, Option, some, List, [], ◌∷◌, map,
  ==_refl, subst, arith,
}
use ivc_checkpoints.Field.{Arkworks, IsField, of_int}
use ivc_checkpoints.Poseidon.Gadget.{Gadgets, is_value, check, new_witness, new_bit}
use ivc_checkpoints.Poseidon.Gadget.Values.{
  IsSatisfied, Gives, Always, Always-pure, Always-then, Has, IsGadgets, new_lem, h4_lem,
}
use ivc_checkpoints.Imt
use ivc_checkpoints.Imt.{MerkleTree, root, leaf, root_from_leaf, siblings, index_bits, set_leaf}
use ivc_checkpoints.Imt.Consistent.{new-IsConsistent, set_leaf-IsConsistent, depth-set_leaf}
use ivc_checkpoints.Imt.Paths.{root_from_leaf-siblings, leaf-set_leaf}
use ivc_checkpoints.Imt.Gadget.{merkle_root_var-root_from_leaf}
use ivc_checkpoints.Ops.{new_variable, default_input}
use ivc_checkpoints.Ops.Alloc.{Constraints, Alloc}
use ivc_checkpoints.Ops.Agree.{Reading}
use ivc_checkpoints.Circuit.{State, generate_step_constraints, step_values}
use ivc_checkpoints.Circuit.Padding.{run_ops-default_input}
use ivc_checkpoints.UnitTests.{
  native_path_roundtrips, roundtrip_leaf, roundtrip_tree, gadget_leaf, gadget_tree, each,
  h4_native_matches_gadget, gadget_matches_native_root, arbitrary_state, inactive_batch_is_noop,
  equal, satisfied_with,
}

pub equal_refl : (xs : List ℕ) → equal xs xs ≡ true
equal_refl [] = refl
equal_refl (x ∷ xs) = ap (λ b. b && equal xs xs) (==_refl x) ∙ equal_refl xs

module _ (F : Arkworks) where
  -- A leaf that was just written opens against the root.
  written_root :
      (index v : ℕ)
      → index < 2 ^ 22
      → root_from_leaf F v
          (siblings (set_leaf F (Imt.new F 22) index v) index)
          (index_bits (set_leaf F (Imt.new F 22) index v) index)
        ≡ root (set_leaf F (Imt.new F 22) index v)
  unfolding Imt.new
  written_root index v h =
      ap (λ x. root_from_leaf F x (siblings t index) (index_bits t index))
        (sym (leaf-set_leaf F (Imt.new F 22) index v index ∙ ground arith))
      ∙ root_from_leaf-siblings F t index
          (set_leaf-IsConsistent F (Imt.new F 22) index v (new-IsConsistent F 22))
          (subst (λ d. index < 2 ^ d) (sym (depth-set_leaf F (Imt.new F 22) index v ∙ depth_new)) h)
    where
      t : MerkleTree
      t = set_leaf F (Imt.new F 22) index v

      depth_new : (Imt.new F 22).depth ≡ 22
      depth_new = refl

  native_path_roundtrips-passes : native_path_roundtrips F ≡ true
  unfolding native_path_roundtrips
  native_path_roundtrips-passes =
      ap (λ x. x == root (roundtrip_tree F)) (written_root 12345 (roundtrip_leaf F) (omega arith))
      ∙ ==_refl (root (roundtrip_tree F))

  inactive_batch-passes : IsField F → inactive_batch_is_noop F ≡ true
  unfolding inactive_batch_is_noop generate_step_constraints step_values new_variable default_input
  inactive_batch-passes field =
      ap
        (λ r.
          satisfied_with (some (r.0.state_root ∷ r.0.ops_acc ∷ r.0.nets_acc ∷ [], r.1))
            (arbitrary_state F))
        (run_ops-default_input F 4 10 arbitrary field)
      ∙ equal_refl (arbitrary_state F)
    where
      arbitrary : State
      arbitrary = record {
        state_root = of_int F 123;
        ops_acc = of_int F 456;
        nets_acc = of_int F 789;
      }

  module _ (V : Constraints) (R : Reading V) (G : Gadgets V) (law : IsGadgets V R G F) where
    check_lem :
        (v : V.FpVar) (x : ℕ) → Has V R G x v → Always V R G (check V G R v x) (λ b. b ≡ true)
    check_lem v x h c s = record {
      value = is_value V G (R.fp_value v) x && G.is_satisfied c;
      after = c;
      returns = refl;
      still = s;
      result = ap₂ (λ o b. is_value V G o x && b) h s.satisfied ∙ ap (λ b. b && true) (==_refl x);
    }

    each_lem :
        {X W : Type 0} (call : X → Alloc V W) (value : W → Option X)
        → ((x : X) → Always V R G (call x) (λ w. value w ≡ some x))
        → (xs : List X) → Always V R G (each F V R G call xs) (λ ws. map value ws ≡ map some xs)
    unfolding each
    each_lem call value h [] = Always-pure V R G _ [] refl
    each_lem call value h (x ∷ xs) = Always-then V R G (h x) (λ w e.
        Always-then V R G (each_lem call value h xs)
          (λ ws es. Always-pure V R G _ (w ∷ ws) (ap₂ ◌∷◌ e es)))

    h4_native_matches_gadget-passes :
        (c : V.System)
        → IsSatisfied V R G c
        → Gives V R G (h4_native_matches_gadget F V R G) (λ b. b ≡ true) c
    unfolding h4_native_matches_gadget
    h4_native_matches_gadget-passes = Always-then V R G (new_lem V R G F law) (λ g hasher.
        Always-then V R G (law.witness_lem _) (λ a ea.
          Always-then V R G (law.witness_lem _) (λ b eb.
            Always-then V R G (law.witness_lem _) (λ c ec.
              Always-then V R G (law.witness_lem _) (λ d ed.
                Always-then V R G (h4_lem V R G F law g a b c d _ _ _ _ hasher ea eb ec ed)
                  (λ out e. check_lem out _ e))))))

    gadget_matches_native_root-passes :
        (c : V.System)
        → IsSatisfied V R G c
        → Gives V R G (gadget_matches_native_root F V R G) (λ b. b ≡ true) c
    unfolding gadget_matches_native_root
    gadget_matches_native_root-passes = Always-then V R G (new_lem V R G F law) (λ g hasher.
        Always-then V R G (law.witness_lem (gadget_leaf F)) (λ leaf_var e.
          Always-then V R G
            (each_lem (new_witness V G) R.fp_value law.witness_lem (siblings (gadget_tree F) 999))
            (λ sibs es.
              Always-then V R G
                (each_lem (new_bit V G) R.boolean_value law.bit_lem
                  (index_bits (gadget_tree F) 999))
                (λ bits eb.
                  Always-then V R G
                    (merkle_root_var-root_from_leaf V R G F law g hasher leaf_var sibs bits
                      (gadget_leaf F) (siblings (gadget_tree F) 999)
                      (index_bits (gadget_tree F) 999) e es eb)
                    (λ out eo.
                      check_lem out _
                        (eo ∙ ap some (written_root 999 (gadget_leaf F) (omega arith))))))))
