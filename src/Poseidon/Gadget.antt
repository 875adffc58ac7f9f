-- ===== src/Poseidon/Gadget.antt =====
-- `PoseidonGadget` of crates/ledger-circuit/src/poseidon.rs over variables of a constraint system.
pub mod Values
use ivc_checkpoints.Prelude.{ℕ, Bool, false, ◌&&◌, Option, none, some, List, [], ◌∷◌, ◌==◌}
use ivc_checkpoints.Prelude.Results.{Result, ok}
use ivc_checkpoints.Ops.Alloc.{Constraints, Alloc, continue, ◌>>=◌, pure}
use ivc_checkpoints.Ops.Agree.{Reading}

-- What the gadgets call of the vendored library besides `new_variable`.
pub record Gadgets (V : Constraints) : Type 1 where
  pub Config : Type 0
  pub Params : Type 0
  -- `poseidon_canonical_config`
  pub canonical_config : Config
  -- `CRHParametersVar::new_constant(cs, config)`
  pub new_constant : V.System → Config → Result V.SynthesisError (Params × V.System)
  -- `CRHGadget::evaluate(params, input)`
  pub evaluate : V.System → Params → List V.FpVar → Result V.SynthesisError (V.FpVar × V.System)
  -- `FpVar::conditionally_select(cond, true_value, false_value)`
  pub conditionally_select :
      V.System → V.BooleanVar → V.FpVar → V.FpVar → Result V.SynthesisError (V.FpVar × V.System)
  -- `AllocationMode::Witness`
  pub witness : V.Mode
  -- `cs.is_satisfied()`
  pub is_satisfied : V.System → Bool

module _ (V : Constraints) (G : Gadgets V) where
  pub record PoseidonGadget : Type 0 where
    pub params : G.Params

  unfoldable pub new : G.Config → Alloc V PoseidonGadget
  new config = do params ← λ cs. G.new_constant cs config; pure (record { params = params })

  unfoldable pub h4_var : PoseidonGadget → V.FpVar → V.FpVar → V.FpVar → V.FpVar → Alloc V V.FpVar
  h4_var g a b c d cs = G.evaluate cs g.params (a ∷ b ∷ c ∷ d ∷ [])

  unfoldable pub h2_var : PoseidonGadget → V.FpVar → V.FpVar → Alloc V V.FpVar
  h2_var g a b cs = G.evaluate cs g.params (a ∷ b ∷ [])

  unfoldable pub hn_var : PoseidonGadget → List V.FpVar → Alloc V V.FpVar
  hn_var g input cs = G.evaluate cs g.params input

  -- `FpVar::new_witness(cs, || Ok(x))` and `Boolean::new_witness(cs, || Ok(b))`
  abbrev pub new_witness : ℕ → Alloc V V.FpVar
  new_witness x cs = V.new_fp cs (ok x) G.witness

  abbrev pub new_bit : Bool → Alloc V V.BooleanVar
  new_bit b cs = V.new_boolean cs (ok b) G.witness

  -- `assert_eq!(x.value().unwrap(), expected); assert!(cs.is_satisfied().unwrap())`
  abbrev pub is_value : Option ℕ → ℕ → Bool
  is_value none expected = false
  is_value (some x) expected = x == expected

  abbrev pub check : Reading V → V.FpVar → ℕ → Alloc V Bool
  check R x expected cs = ok (is_value (R.fp_value x) expected && G.is_satisfied cs, cs)
