-- ===== src/Poseidon/Gadget/Values.antt =====
-- The gadgets on variables with values: what the vendored library documents, calls that give a
-- value in a satisfied constraint system, and the Poseidon gadget as the native hasher.
use ivc_checkpoints.Prelude.{
  ℕ, ◌≡◌, refl, ap, ap₂, ◌∙◌, Bool, true, false, some, List, [], ◌∷◌, map, if◌then◌else◌,
}
use ivc_checkpoints.Prelude.Results.{ok}
use ivc_checkpoints.Field.{Arkworks}
use ivc_checkpoints.Poseidon.{h2, h4, hn}
use ivc_checkpoints.Ops.Alloc.{Constraints, Alloc, continue, ◌>>=◌, pure}
use ivc_checkpoints.Ops.Agree.{Reading}
use ivc_checkpoints.Poseidon.Gadget.{
  Gadgets, PoseidonGadget, new, h4_var, h2_var, hn_var, new_witness, new_bit,
}

module _ (V : Constraints) (R : Reading V) (G : Gadgets V) where
  -- A constraint system in proving whose constraints hold.
  pub record IsSatisfied (cs : V.System) : Type 0 where
    pub proving : R.in_setup cs ≡ false
    pub satisfied : G.is_satisfied cs ≡ true

  -- From `c` the call returns a result with `P`, and the constraints still hold.
  pub record Gives {A : Type 0} (call : Alloc V A) (P : A → Type 0) (c : V.System) : Type 0 where
    pub value : A
    pub after : V.System
    pub returns : call c ≡ ok (value, after)
    pub still : IsSatisfied after
    pub result : P value

  abbrev pub Always : {A : Type 0} → Alloc V A → (A → Type 0) → Type 0
  Always call P = (c : V.System) → IsSatisfied c → Gives call P c

  pub Always-pure : {A : Type 0} (P : A → Type 0) (a : A) → P a → Always (pure a) P
  Always-pure P a h c s = record { value = a; after = c; returns = refl; still = s; result = h }

  pub Always-then :
      {A B : Type 0} {call : Alloc V A} {next : A → Alloc V B} {P : A → Type 0} {Q : B → Type 0}
      → Always call P
      → ((a : A) → P a → Always (next a) Q)
      → Always (call >>= next) Q
  Always-then {next} first rest c s =
      let b = first c s in
      let r = rest b.value b.result b.after b.still in
      record {
        value = r.value;
        after = r.after;
        returns = ap (λ p. continue p next) b.returns ∙ r.returns;
        still = r.still;
        result = r.result;
      }

  abbrev pub Has : ℕ → V.FpVar → Type 0
  Has x v = R.fp_value v ≡ some x

  -- The documented behaviour: a witness has its value, the selection is that of the values, and
  -- the hash is that of the native CRH under the same configuration.
  pub record IsGadgets (F : Arkworks) : Type 0 where
    pub is_canonical : G.Params → Bool
    pub constant_lem :
        Always (λ cs. G.new_constant cs G.canonical_config) (λ p. is_canonical p ≡ true)
    pub witness_lem : (x : ℕ) → Always (new_witness V G x) (Has x)
    pub bit_lem : (b : Bool) → Always (new_bit V G b) (λ v. R.boolean_value v ≡ some b)
    pub select_lem :
        (bit : V.BooleanVar) (x y : V.FpVar) (b : Bool) (m n : ℕ)
        → R.boolean_value bit ≡ some b
        → Has m x
        → Has n y
        → Always (λ cs. G.conditionally_select cs bit x y) (Has (if b then m else n))
    pub evaluate_lem :
        (p : G.Params) (vars : List V.FpVar) (xs : List ℕ)
        → is_canonical p ≡ true
        → map R.fp_value vars ≡ map some xs
        → Always (λ cs. G.evaluate cs p vars) (Has (F.evaluate xs))

  module _ (F : Arkworks) (law : IsGadgets F) where
    abbrev pub IsHasher : PoseidonGadget V G → Type 0
    IsHasher g = law.is_canonical g.params ≡ true

    pub new_lem : Always (new V G G.canonical_config) IsHasher
    unfolding new
    new_lem = Always-then law.constant_lem (λ p h. Always-pure IsHasher (record { params = p }) h)

    pub h4_lem :
        (g : PoseidonGadget V G) (a b c d : V.FpVar) (w x y z : ℕ)
        → IsHasher g
        → Has w a
        → Has x b
        → Has y c
        → Has z d
        → Always (h4_var V G g a b c d) (Has (h4 F w x y z))
    unfolding h4_var h4
    h4_lem g a b c d w x y z h p q r s =
        law.evaluate_lem g.params (a ∷ b ∷ c ∷ d ∷ []) (w ∷ x ∷ y ∷ z ∷ []) h
          (ap₂ ◌∷◌ p (ap₂ ◌∷◌ q (ap₂ ◌∷◌ r (ap₂ ◌∷◌ s refl))))

    pub h2_lem :
        (g : PoseidonGadget V G) (a b : V.FpVar) (x y : ℕ)
        → IsHasher g
        → Has x a
        → Has y b
        → Always (h2_var V G g a b) (Has (h2 F x y))
    unfolding h2_var h2
    h2_lem g a b x y h p q =
        law.evaluate_lem g.params (a ∷ b ∷ []) (x ∷ y ∷ []) h (ap₂ ◌∷◌ p (ap₂ ◌∷◌ q refl))

    pub hn_lem :
        (g : PoseidonGadget V G) (vars : List V.FpVar) (xs : List ℕ)
        → IsHasher g
        → map R.fp_value vars ≡ map some xs
        → Always (hn_var V G g vars) (Has (hn F xs))
    unfolding hn_var hn
    hn_lem g vars xs h e = law.evaluate_lem g.params vars xs h e
