-- ===== src/Ops/Alloc.antt =====
-- crates/ledger-circuit/src/ops.rs: EpochStepInputVar::new_variable over a constraint system that
-- is in key generation, where the operations may be absent, or in proving. A call of the vendored
-- library takes the constraint system and returns the one after it.
use ivc_checkpoints.Prelude.{ℕ, zero, suc, Bool, false, Option, none, some, List, [], ◌∷◌, get_or}
use ivc_checkpoints.Prelude.Results.{Result, panic, ok}
use ivc_checkpoints.Field.{Arkworks, of_int}
use ivc_checkpoints.Ops.{OpWitness, EpochStepInput, padding}

-- `AllocVar` of the vendored library for field elements and for Booleans.
pub record Constraints : Type 1 where
  pub System : Type 0
  pub Mode : Type 0
  pub SynthesisError : Type 0
  pub FpVar : Type 0
  pub BooleanVar : Type 0
  -- `SynthesisError::AssignmentMissing`
  pub assignment_missing : SynthesisError
  -- `FpVar::new_variable(cs, f, mode)` and `Boolean::new_variable(cs, f, mode)`
  pub new_fp : System → Result SynthesisError ℕ → Mode → Result SynthesisError (FpVar × System)
  pub new_boolean :
      System → Result SynthesisError Bool → Mode → Result SynthesisError (BooleanVar × System)

-- What comes after a call that returns.
abbrev pub continue :
    {E S A B : Type 0} → Result E (A × S) → (A → S → Result E (B × S)) → Result E (B × S)
continue (panic why) next = panic why
continue (ok (value, s)) next = next value s

-- `?` after a call with the constraint system.
infixl 5 ◌>>=◌
abbrev pub ◌>>=◌ :
    {E S A B : Type 0} → (S → Result E (A × S)) → (A → S → Result E (B × S)) → S → Result E (B × S)
◌>>=◌ call next s = continue (call s) next

abbrev pub pure : {E S A : Type 0} → A → S → Result E (A × S)
pure value s = ok (value, s)

-- `Result::ok`
abbrev pub to_option : {E A : Type 0} → Result E A → Option A
to_option (panic why) = none
to_option (ok value) = some value

-- `Option::ok_or` after `Option::map`
abbrev pub map_or : {E A B : Type 0} → Option A → (A → B) → E → Result E B
map_or none sel why = panic why
map_or (some value) sel why = ok (sel value)

module _ (V : Constraints) where
  -- `OpWitnessVar`
  pub record AllocatedOp : Type 0 where
    pub active : V.BooleanVar
    pub kind : V.FpVar
    pub from_key : V.FpVar
    pub to_key : V.FpVar
    pub token_id : V.FpVar
    pub amount : V.FpVar
    pub nonce : V.FpVar
    pub from_old_balance : V.FpVar
    pub from_old_nonce : V.FpVar
    pub from_index_bits : List V.BooleanVar
    pub from_siblings : List V.FpVar
    pub to_old_balance : V.FpVar
    pub to_old_nonce : V.FpVar
    pub to_index_bits : List V.BooleanVar
    pub to_siblings : List V.FpVar

  -- The four vectors that the loop over the levels fills.
  pub record Levels : Type 0 where
    pub from_bits : List V.BooleanVar
    pub from_sibs : List V.FpVar
    pub to_bits : List V.BooleanVar
    pub to_sibs : List V.FpVar

  -- A call with the constraint system.
  abbrev pub Alloc : Type 0 → Type 0
  Alloc A = V.System → Result V.SynthesisError (A × V.System)

  module _ (mode : V.Mode) (op : Option OpWitness) where
    unfoldable pub fp_of : (OpWitness → ℕ) → Alloc V.FpVar
    fp_of sel cs = V.new_fp cs (map_or op sel V.assignment_missing) mode

    unfoldable pub boolean_of : (OpWitness → Bool) → Alloc V.BooleanVar
    boolean_of sel cs = V.new_boolean cs (map_or op sel V.assignment_missing) mode

    -- `for d in 0..D`, from the round `d` with the given number of rounds left.
    unfoldable pub allocate_levels : ℕ → ℕ → Alloc Levels
    allocate_levels d zero =
        pure (record { from_bits = []; from_sibs = []; to_bits = []; to_sibs = [] })
    allocate_levels d (suc left) = do
      from_bit ← boolean_of (λ o. get_or o.from_index_bits d false)
      from_sib ← fp_of (λ o. get_or o.from_siblings d 0)
      to_bit ← boolean_of (λ o. get_or o.to_index_bits d false)
      to_sib ← fp_of (λ o. get_or o.to_siblings d 0)
      rest ← allocate_levels (suc d) left
      pure (record {
        from_bits = from_bit ∷ rest.from_bits;
        from_sibs = from_sib ∷ rest.from_sibs;
        to_bits = to_bit ∷ rest.to_bits;
        to_sibs = to_sib ∷ rest.to_sibs;
      })

  module _ (F : Arkworks) (D : ℕ) (mode : V.Mode) where
    -- One round of the loop over the operations.
    unfoldable pub allocate_op : Option OpWitness → Alloc AllocatedOp
    allocate_op op = do
      active ← boolean_of mode op (λ o. o.active)
      kind ← fp_of mode op (λ o. of_int F o.kind)
      from_key ← fp_of mode op (λ o. o.from_key)
      to_key ← fp_of mode op (λ o. o.to_key)
      token_id ← fp_of mode op (λ o. o.token_id)
      amount ← fp_of mode op (λ o. o.amount)
      nonce ← fp_of mode op (λ o. o.nonce)
      from_old_balance ← fp_of mode op (λ o. o.from_old_balance)
      from_old_nonce ← fp_of mode op (λ o. o.from_old_nonce)
      to_old_balance ← fp_of mode op (λ o. o.to_old_balance)
      to_old_nonce ← fp_of mode op (λ o. o.to_old_nonce)
      levels ← allocate_levels mode op 0 D
      pure (record {
        active = active;
        kind = kind;
        from_key = from_key;
        to_key = to_key;
        token_id = token_id;
        amount = amount;
        nonce = nonce;
        from_old_balance = from_old_balance;
        from_old_nonce = from_old_nonce;
        from_index_bits = levels.from_bits;
        from_siblings = levels.from_sibs;
        to_old_balance = to_old_balance;
        to_old_nonce = to_old_nonce;
        to_index_bits = levels.to_bits;
        to_siblings = levels.to_sibs;
      })

    -- `value.as_ref().map(|v| v.ops[i].clone())`
    unfoldable pub op_at : Option EpochStepInput → ℕ → Option OpWitness
    op_at none i = none
    op_at (some ops) i = some (get_or ops i (padding D))

    -- `for i in 0..B`, from the round `i` with the given number of rounds left.
    unfoldable pub allocate_ops : Option EpochStepInput → ℕ → ℕ → Alloc (List AllocatedOp)
    allocate_ops value i zero = pure []
    allocate_ops value i (suc left) = do
      op ← allocate_op (op_at value i)
      rest ← allocate_ops value (suc i) left
      pure (op ∷ rest)

    unfoldable pub allocate : ℕ → Result V.SynthesisError EpochStepInput → Alloc (List AllocatedOp)
    allocate B f = allocate_ops (to_option f) 0 B
