-- ===== src/Ops/Shape.antt =====
-- crates/ledger-circuit/src/ops.rs: the shape that the allocation of a batch leaves in key
-- generation and in proving, and the values that its variables get in proving.
use ivc_checkpoints.Prelude.{
  ℕ, zero, suc, ◌≡◌, refl, ap, ap₂, Bool, true, false, Option, some, List, [], ◌∷◌, map, length,
  get_or, range_from,
}
use ivc_checkpoints.Prelude.Results.{Result, panic, ok}
use ivc_checkpoints.Field.{Arkworks}
use ivc_checkpoints.Ops.{
  OpWitness, OpWitnessVar, EpochStepInput, padding, new_op_variable, new_variable,
}
use ivc_checkpoints.Ops.Alloc.{
  Constraints, AllocatedOp, Levels, fp_of, boolean_of, allocate_levels, allocate_op, op_at,
  allocate_ops, allocate, map_or, to_option,
}
use ivc_checkpoints.Ops.Agree.{Reading, IsReading, Both, Agree, Agree-pure, Agree-then, Agree-new}

module _ (V : Constraints) (R : Reading V) where
  -- The vectors of an operation have an entry for each level.
  pub record IsShaped (D : ℕ) (a : AllocatedOp V) : Type 0 where
    pub from_bits : length a.from_index_bits ≡ D
    pub from_sibs : length a.from_siblings ≡ D
    pub to_bits : length a.to_index_bits ≡ D
    pub to_sibs : length a.to_siblings ≡ D

  -- The variables have the values of `w`.
  pub record IsRead (a : AllocatedOp V) (w : OpWitnessVar) : Type 0 where
    pub active : R.boolean_value a.active ≡ some w.active
    pub kind : R.fp_value a.kind ≡ some w.kind
    pub from_key : R.fp_value a.from_key ≡ some w.from_key
    pub to_key : R.fp_value a.to_key ≡ some w.to_key
    pub token_id : R.fp_value a.token_id ≡ some w.token_id
    pub amount : R.fp_value a.amount ≡ some w.amount
    pub nonce : R.fp_value a.nonce ≡ some w.nonce
    pub from_old_balance : R.fp_value a.from_old_balance ≡ some w.from_old_balance
    pub from_old_nonce : R.fp_value a.from_old_nonce ≡ some w.from_old_nonce
    pub from_index_bits : map R.boolean_value a.from_index_bits ≡ map some w.from_index_bits
    pub from_siblings : map R.fp_value a.from_siblings ≡ map some w.from_siblings
    pub to_old_balance : R.fp_value a.to_old_balance ≡ some w.to_old_balance
    pub to_old_nonce : R.fp_value a.to_old_nonce ≡ some w.to_old_nonce
    pub to_index_bits : map R.boolean_value a.to_index_bits ≡ map some w.to_index_bits
    pub to_siblings : map R.fp_value a.to_siblings ≡ map some w.to_siblings

  -- The operations of key generation are shaped as those of proving, which have the values.
  pub data Matches (D : ℕ)
      : List (AllocatedOp V) → List (AllocatedOp V) → List OpWitnessVar → Type 0 where
    none_left : Matches D [] [] []
    one_more :
        {a b : AllocatedOp V} {w : OpWitnessVar} {setups proofs : List (AllocatedOp V)}
        {ws : List OpWitnessVar}
        → IsShaped D a
        → IsRead b w
        → Matches D setups proofs ws
        → Matches D (a ∷ setups) (b ∷ proofs) (w ∷ ws)

  -- The same of the loop over the levels, from `d` with `n` rounds.
  record IsFilled (o : OpWitness) (d n : ℕ) (a b : Levels V) : Type 0 where
    from_bits_len : length a.from_bits ≡ n
    from_sibs_len : length a.from_sibs ≡ n
    to_bits_len : length a.to_bits ≡ n
    to_sibs_len : length a.to_sibs ≡ n
    from_bits :
        map R.boolean_value b.from_bits
        ≡ map some (map (λ i. get_or o.from_index_bits i false) (range_from d n))
    from_sibs :
        map R.fp_value b.from_sibs
        ≡ map some (map (λ i. get_or o.from_siblings i 0) (range_from d n))
    to_bits :
        map R.boolean_value b.to_bits
        ≡ map some (map (λ i. get_or o.to_index_bits i false) (range_from d n))
    to_sibs :
        map R.fp_value b.to_sibs ≡ map some (map (λ i. get_or o.to_siblings i 0) (range_from d n))

  module _ (mode : V.Mode) (law : IsReading V mode R) where
    fp_lem :
        (op : Option OpWitness) (o : OpWitness) (sel : OpWitness → ℕ)
        → Agree V R
            (fp_of V mode op sel)
            (fp_of V mode (some o) sel)
            (λ _ v. R.fp_value v ≡ some (sel o))
    unfolding fp_of
    fp_lem op o sel =
        Agree-new V R (λ cs f. V.new_fp cs f mode) R.fp_grow R.fp_value law.fp
          (map_or op sel V.assignment_missing) (sel o)

    boolean_lem :
        (op : Option OpWitness) (o : OpWitness) (sel : OpWitness → Bool)
        → Agree V R
            (boolean_of V mode op sel)
            (boolean_of V mode (some o) sel)
            (λ _ v. R.boolean_value v ≡ some (sel o))
    unfolding boolean_of
    boolean_lem op o sel =
        Agree-new V R (λ cs f. V.new_boolean cs f mode) R.boolean_grow R.boolean_value law.boolean
          (map_or op sel V.assignment_missing) (sel o)

    levels_lem :
        (op : Option OpWitness) (o : OpWitness) (d n : ℕ)
        → Agree V R
            (allocate_levels V mode op d n)
            (allocate_levels V mode (some o) d n)
            (IsFilled o d n)
    unfolding allocate_levels
    levels_lem op o d zero = Agree-pure V R _ _ _ (record {
      from_bits_len = refl;
      from_sibs_len = refl;
      to_bits_len = refl;
      to_sibs_len = refl;
      from_bits = refl;
      from_sibs = refl;
      to_bits = refl;
      to_sibs = refl;
    })
    levels_lem op o d (suc n) = Agree-then V R (boolean_lem op o _) (λ _ _ fb.
        Agree-then V R (fp_lem op o _) (λ _ _ fs. Agree-then V R (boolean_lem op o _) (λ _ _ tb.
          Agree-then V R (fp_lem op o _) (λ _ _ ts.
            Agree-then V R (levels_lem op o (suc d) n) (λ _ _ r. Agree-pure V R _ _ _ (record {
              from_bits_len = ap suc r.from_bits_len;
              from_sibs_len = ap suc r.from_sibs_len;
              to_bits_len = ap suc r.to_bits_len;
              to_sibs_len = ap suc r.to_sibs_len;
              from_bits = ap₂ ◌∷◌ fb r.from_bits;
              from_sibs = ap₂ ◌∷◌ fs r.from_sibs;
              to_bits = ap₂ ◌∷◌ tb r.to_bits;
              to_sibs = ap₂ ◌∷◌ ts r.to_sibs;
            }))))))

    module _ (F : Arkworks) (D : ℕ) where
      op_lem :
          (op : Option OpWitness) (o : OpWitness)
          → Agree V R
              (allocate_op V F D mode op)
              (allocate_op V F D mode (some o))
              (λ a b. IsShaped D a × IsRead b (new_op_variable F D o))
      unfolding allocate_op new_op_variable
      op_lem op o = Agree-then V R (boolean_lem op o _) (λ _ _ active.
          Agree-then V R (fp_lem op o _) (λ _ _ kind.
            Agree-then V R (fp_lem op o _) (λ _ _ from_key.
              Agree-then V R (fp_lem op o _) (λ _ _ to_key.
                Agree-then V R (fp_lem op o _) (λ _ _ token_id.
                  Agree-then V R (fp_lem op o _) (λ _ _ amount.
                    Agree-then V R (fp_lem op o _) (λ _ _ nonce.
                      Agree-then V R (fp_lem op o _) (λ _ _ from_old_balance.
                        Agree-then V R (fp_lem op o _) (λ _ _ from_old_nonce.
                          Agree-then V R (fp_lem op o _) (λ _ _ to_old_balance.
                            Agree-then V R (fp_lem op o _) (λ _ _ to_old_nonce.
                              Agree-then V R (levels_lem op o 0 D) (λ _ _ r. Agree-pure V R _ _ _ (
                                record {
                                  from_bits = r.from_bits_len;
                                  from_sibs = r.from_sibs_len;
                                  to_bits = r.to_bits_len;
                                  to_sibs = r.to_sibs_len;
                                },
                                record {
                                  active = active;
                                  kind = kind;
                                  from_key = from_key;
                                  to_key = to_key;
                                  token_id = token_id;
                                  amount = amount;
                                  nonce = nonce;
                                  from_old_balance = from_old_balance;
                                  from_old_nonce = from_old_nonce;
                                  from_index_bits = r.from_bits;
                                  from_siblings = r.from_sibs;
                                  to_old_balance = to_old_balance;
                                  to_old_nonce = to_old_nonce;
                                  to_index_bits = r.to_bits;
                                  to_siblings = r.to_sibs;
                                },
                              )))))))))))))

      ops_lem :
          (value : Option EpochStepInput) (input : EpochStepInput) (i n : ℕ)
          → Agree V R
              (allocate_ops V F D mode value i n)
              (allocate_ops V F D mode (some input) i n)
              (λ a b.
                Matches D a b
                  (map (λ j. new_op_variable F D (get_or input j (padding D))) (range_from i n)))
      unfolding allocate_ops op_at
      ops_lem value input i zero = Agree-pure V R _ _ _ none_left
      ops_lem value input i (suc n) =
          Agree-then V R (op_lem (op_at V F D mode value i) (get_or input i (padding D))) (λ _ _ h.
            Agree-then V R (ops_lem value input (suc i) n)
              (λ _ _ r. Agree-pure V R _ _ _ (one_more h.0 h.1 r)))

      -- Key generation, with a batch or without one, and proving with a batch, in a mode that is not
      -- `Constant` and from constraint systems of the same shape: both allocations return and leave
      -- the same shape, the vectors of key generation have an entry for each level, and the
      -- variables of proving have the values of the step circuit's input.
      pub allocate-shape :
          (B : ℕ) (f : Result V.SynthesisError EpochStepInput) (input : EpochStepInput)
          (c c' : V.System)
          → R.in_setup c ≡ true
          → R.in_setup c' ≡ false
          → R.shape c ≡ R.shape c'
          → Both V R
              (allocate V F D mode B f)
              (allocate V F D mode B (ok input))
              (λ a b. Matches D a b (new_variable F D B input))
              c
              c'
      unfolding allocate new_variable
      allocate-shape B f input = ops_lem (to_option f) input 0 B

      allocate_missing :
          (B : ℕ) (why : V.SynthesisError) (c : V.System)
          → R.in_setup c ≡ false
          → allocate V F D mode (suc B) (panic why) c ≡ panic V.assignment_missing
      unfolding allocate allocate_ops op_at allocate_op boolean_of
      allocate_missing B why c s = rw (law.boolean.missing c V.assignment_missing s)
