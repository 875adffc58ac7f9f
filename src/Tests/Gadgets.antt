-- ===== src/Tests/Gadgets.antt =====
-- The Merkle gadget over the small constraint system, on a path of two levels.
use ivc_checkpoints.Prelude.{
  ℕ, ◌≡◌, refl, ap, ◌∙◌, Bool, true, false, Option, none, some, List, [], ◌∷◌, map, if◌then◌else◌,
}
use ivc_checkpoints.Prelude.Results.{ok}
use ivc_checkpoints.Imt.{root_from_leaf}
use ivc_checkpoints.Imt.Gadget.{merkle_root_var, merkle_root_var-root_from_leaf}
use ivc_checkpoints.Poseidon.Gadget.{Gadgets}
use ivc_checkpoints.Poseidon.Gadget.Values.{Gives, Has, IsGadgets}
use ivc_checkpoints.Tests.{toy, toy_hash}
use ivc_checkpoints.Tests.Allocations.{small, reading, witness, proving, add_variable, bit}

-- All values, if all are known.
abbrev push : Option ℕ → Option (List ℕ) → Option (List ℕ)
push none rest = none
push (some x) none = none
push (some x) (some xs) = some (x ∷ xs)

abbrev values_of : List (Option ℕ) → Option (List ℕ)
values_of [] = some []
values_of (v ∷ vs) = push v (values_of vs)

abbrev hash_of : Option (List ℕ) → Option ℕ
hash_of none = none
hash_of (some xs) = some (toy_hash xs)

abbrev chosen : Option Bool → Option ℕ → Option ℕ → Option ℕ
chosen none x y = none
chosen (some true) x y = x
chosen (some false) x y = y

abbrev gadgets : Gadgets small
gadgets = record {
  Config = Unit {0};
  Params = Unit {0};
  canonical_config = tt;
  new_constant = λ cs config. ok (tt, cs);
  evaluate = λ cs p vars. ok (hash_of (values_of vars), cs);
  conditionally_select = λ cs bit x y. ok (chosen bit x y, cs);
  witness = witness;
  is_satisfied = λ cs. true;
}

values_of-some :
    (vars : List (Option ℕ)) (xs : List ℕ)
    → map (λ v. v) vars ≡ map some xs
    → values_of vars ≡ some xs
values_of-some [] [] h = refl
values_of-some [] (x ∷ xs) h = cc
values_of-some (v ∷ vs) [] h = cc
values_of-some (v ∷ vs) (x ∷ xs) h =
    ap (λ o. push o (values_of vs)) head ∙ ap (push (some x)) (values_of-some vs xs tail)
  where
    head : v ≡ some x
    head = cc

    tail : map (λ w. w) vs ≡ map some xs
    tail = cc

chosen-some :
    (b : Bool) (bit : Option Bool) (x y : Option ℕ) (m n : ℕ)
    → bit ≡ some b
    → x ≡ some m
    → y ≡ some n
    → chosen bit x y ≡ some (if b then m else n)
chosen-some true bit x y m n h p q = ap (λ o. chosen o x y) h ∙ p
chosen-some false bit x y m n h p q = ap (λ o. chosen o x y) h ∙ q

gadgets-IsGadgets : IsGadgets small reading gadgets toy
gadgets-IsGadgets = record {
  is_canonical = λ p. true;
  constant_lem = λ c s. record { value = tt; after = c; returns = refl; still = s; result = refl };
  witness_lem = λ x c s. record {
    value = some x;
    after = record c { kinds = false ∷ c.kinds; values = x ∷ c.values };
    returns = ap (λ b. add_variable false (λ y. y) c b (ok x)) s.proving;
    still = record { proving = s.proving; satisfied = refl };
    result = refl;
  };
  bit_lem = λ b c s. record {
    value = some b;
    after = record c { kinds = true ∷ c.kinds; values = bit b ∷ c.values };
    returns = ap (λ e. add_variable true bit c e (ok b)) s.proving;
    still = record { proving = s.proving; satisfied = refl };
    result = refl;
  };
  select_lem = λ sel x y b m n h p q c s. record {
    value = chosen sel x y;
    after = c;
    returns = refl;
    still = s;
    result = chosen-some b sel x y m n h p q;
  };
  evaluate_lem = λ p vars xs h e c s. record {
    value = hash_of (values_of vars);
    after = c;
    returns = refl;
    still = s;
    result = ap hash_of (values_of-some vars xs e);
  };
}

merkle_root_var-root_from_leaf_example :
    Gives small reading gadgets
      (merkle_root_var small gadgets
        (record { params = tt })
        (some 4)
        (some 5 ∷ some 6 ∷ [])
        (some true ∷ some false ∷ []))
      (Has small reading gadgets (root_from_leaf toy 4 (5 ∷ 6 ∷ []) (true ∷ false ∷ [])))
      proving
unfolding gadgets-IsGadgets
merkle_root_var-root_from_leaf_example =
    merkle_root_var-root_from_leaf small reading gadgets toy gadgets-IsGadgets
      (record { params = tt }) refl (some 4) (some 5 ∷ some 6 ∷ []) (some true ∷ some false ∷ []) 4
      (5 ∷ 6 ∷ []) (true ∷ false ∷ []) refl refl refl proving
      (record { proving = refl; satisfied = refl })
