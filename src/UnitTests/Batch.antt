-- ===== src/UnitTests/Batch.antt =====
-- crates/ledger-circuit/src/lib.rs: single_batch_native_matches_circuit, four operations of the
-- executor in one batch of the circuit, over the BN254 scalar field.
use ivc_checkpoints.Prelude.{ℕ, ◌≡◌, refl, ap, ◌∙◌, Bool, true, some, List, [], ◌∷◌, arith}
use ivc_checkpoints.Prelude.Results.{panic, ok, ◌>>=◌, >>=-then}
use ivc_checkpoints.Prelude.Dict.{lookup, insert, total}
use ivc_checkpoints.Field.{Arkworks, IsField, of_int}
use ivc_checkpoints.Ops.{OpWitness, new_variable}
use ivc_checkpoints.Circuit.{generate_step_constraints, step_values}
use ivc_checkpoints.Native
use ivc_checkpoints.Native.{
  Result, EpochExecutor, register, slot_for, initial_state, state, run, perform, apply, outcome,
  debited, debit, credit, accumulate, Request, load_of, spend_of, withdraw_of,
}
use ivc_checkpoints.Native.Valid.{IsValid, new-IsValid, register-IsValid}
use ivc_checkpoints.Native.Epoch.{IsReady, run-run_ops}
use ivc_checkpoints.UnitTests.{satisfied_with}
use ivc_checkpoints.UnitTests.Passed.{equal_refl}

module _ (F : Arkworks) where
  -- The sink, the funded pool, two accounts and a payee.
  unfoldable pub registered : Result EpochExecutor
  registered = do
    let token = of_int F 1
    exec₁ ← register F 10 (Native.new F 10) (Native.new F 10).sink_key token 0 0
    exec₂ ← register F 10 exec₁ (of_int F 1000) token 1_000_000 0
    exec₃ ← register F 10 exec₂ (of_int F 2001) token 0 0
    exec₄ ← register F 10 exec₃ (of_int F 2002) token 0 0
    register F 10 exec₄ (of_int F 3001) token 0 0

  -- Two loads, one spend, one withdraw.
  abbrev pub batch_calls : List Request
  batch_calls =
      load_of (of_int F 1000) (of_int F 2001) (of_int F 1) 500
      ∷ load_of (of_int F 1000) (of_int F 2002) (of_int F 1) 300
      ∷ spend_of (of_int F 2001) (of_int F 3001) (of_int F 1) 200
      ∷ withdraw_of (of_int F 3001) (of_int F 1) 200
      ∷ []

  unfoldable pub single_batch_native_matches_circuit : Result Bool
  single_batch_native_matches_circuit = do
    exec ← registered
    z0 ← initial_state exec
    (exec', ops) ← run F exec batch_calls
    ok (satisfied_with (generate_step_constraints F 4 z0 (new_variable F 10 4 ops)) (state exec'))

-- The result of a call that returns.
abbrev value_or : {A : Type 0} → Result A → A → A
value_or (panic why) d = d
value_or (ok a) d = a

module _ (evaluate : List ℕ → ℕ) (to_bits_le : ℕ → List Bool) where
  -- The scalar field of BN254 with a hash and a bit decomposition.
  abbrev bn254 : Arkworks
  bn254 = record {
    modulus = 21888242871839275222246405745257275088548364400416034343698204186575808495617;
    evaluate = evaluate;
    to_bits_le = to_bits_le;
  }

  abbrev empty : EpochExecutor
  empty = Native.new bn254 10

  abbrev with_account : EpochExecutor → ℕ → ℕ → EpochExecutor
  with_account x key balance = value_or (register bn254 10 x key 1 balance 0) x

  abbrev with_sink : EpochExecutor
  with_sink = with_account empty empty.sink_key 0

  abbrev with_pool : EpochExecutor
  with_pool = with_account with_sink 1000 1_000_000

  abbrev with_first : EpochExecutor
  with_first = with_account with_pool 2001 0

  abbrev with_second : EpochExecutor
  with_second = with_account with_first 2002 0

  abbrev ledger : EpochExecutor
  ledger = with_account with_second 3001 0

  abbrev after : EpochExecutor × List OpWitness
  after = value_or (run bn254 ledger (batch_calls bn254)) (empty, [])

  ran :
      (registered bn254 ≡ ok ledger)
      × (run bn254 ledger (batch_calls bn254) ≡ ok after)
      × (initial_state ledger ≡ ok (state ledger))
  unfolding registered run perform apply outcome debited debit credit accumulate register slot_for
      lookup insert of_int Native.new initial_state state
  ran = (refl, refl, refl)

  ledger-IsValid : IsValid bn254 10 ledger
  unfolding register slot_for lookup insert Native.new of_int
  ledger-IsValid =
      register-IsValid bn254 10 with_second 3001 1 0 0 ledger (omega arith)
        (register-IsValid bn254 10 with_first 2002 1 0 0 with_second (omega arith)
          (register-IsValid bn254 10 with_pool 2001 1 0 0 with_first (omega arith)
            (register-IsValid bn254 10 with_sink 1000 1 1_000_000 0 with_pool (omega arith)
              (register-IsValid bn254 10 empty empty.sink_key 1 0 0 with_sink (omega arith)
                (new-IsValid bn254 10) refl)
              refl)
            refl)
          refl)
        refl

  ledger-IsReady : IsReady bn254 10 ledger (batch_calls bn254)
  unfolding register slot_for lookup insert Native.new of_int total
  ledger-IsReady = record {
    valid = ledger-IsValid;
    supply = omega arith;
    tokens = ((refl, refl), ((refl, refl), ((refl, refl), ((refl, refl), tt))));
    room = λ key n h. ground arith;
  }

  module _ (field : IsField bn254) where
    batch_lem :
        generate_step_constraints bn254 4 (state ledger) (new_variable bn254 10 4 after.1)
        ≡ some (state after.0, true)
    unfolding generate_step_constraints step_values new_variable registered run perform apply
        outcome debited debit credit accumulate register slot_for lookup insert of_int Native.new
        state
    batch_lem =
        ap (λ r. some (r.0.state_root ∷ r.0.ops_acc ∷ r.0.nets_acc ∷ [], r.1))
          (run-run_ops bn254 10 field (batch_calls bn254) ledger after.0 after.1 ledger-IsReady
            ran.1).1

    -- The circuit accepts the batch and computes the state that the executor reports.
    single_batch-passes : single_batch_native_matches_circuit bn254 ≡ ok true
    unfolding single_batch_native_matches_circuit
    single_batch-passes = >>=-then (registered bn254) _ ran.0 (
        >>=-then (initial_state ledger) _ ran.2 (
          >>=-then (run bn254 ledger (batch_calls bn254)) _ ran.1 (
            ap ok
              (ap (λ o. satisfied_with o (state after.0)) batch_lem ∙ equal_refl (state after.0)))))
