-- ===== src/Tests/Allocations.antt =====
-- The allocation of a batch over a small constraint system, in key generation and in proving.
use ivc_checkpoints.Prelude.{ℕ, refl, ap, Bool, true, false, Option, none, some, List, [], ◌∷◌}
use ivc_checkpoints.Prelude.Results.{Result, panic, ok}
use ivc_checkpoints.Ops.{OpWitness, padding, new_variable}
use ivc_checkpoints.Ops.Alloc.{Constraints, allocate}
use ivc_checkpoints.Ops.Agree.{IsAllocating, Reading, IsReading, Both}
use ivc_checkpoints.Ops.Shape.{Matches, allocate-shape}
use ivc_checkpoints.Tests.{toy}

-- The kinds of the variables so far, the last one first, with the values in proving.
pub record System : Type 0 where
  pub setup : Bool
  pub kinds : List Bool
  pub values : List ℕ

pub data SynthesisError : Type 0 where
  assignment_missing unsatisfiable : SynthesisError

pub data Mode : Type 0 where
  constant input witness : Mode

-- A call that adds a variable of the given kind.
abbrev pub add_variable :
    {X : Type 0}
    → Bool
    → (X → ℕ)
    → System
    → Bool
    → Result SynthesisError X
    → Result SynthesisError (Option X × System)
add_variable kind code cs true f = ok (none, record cs { kinds = kind ∷ cs.kinds })
add_variable kind code cs false (panic why) = panic why
add_variable kind code cs false (ok x) =
    ok (some x, record cs { kinds = kind ∷ cs.kinds; values = code x ∷ cs.values })

abbrev pub bit : Bool → ℕ
bit false = 0
bit true = 1

abbrev pub small : Constraints
small = record {
  System = System;
  Mode = Mode;
  SynthesisError = SynthesisError;
  FpVar = Option ℕ;
  BooleanVar = Option Bool;
  assignment_missing = assignment_missing;
  new_fp = λ cs f mode. add_variable false (λ x. x) cs cs.setup f;
  new_boolean = λ cs f mode. add_variable true bit cs cs.setup f;
}

abbrev pub reading : Reading small
reading = record {
  in_setup = λ cs. cs.setup;
  Shape = List Bool;
  shape = λ cs. cs.kinds;
  fp_value = λ v. v;
  boolean_value = λ v. v;
  fp_grow = λ kinds. false ∷ kinds;
  boolean_grow = λ kinds. true ∷ kinds;
}

add_variable-IsAllocating :
    {X : Type 0} (kind : Bool) (code : X → ℕ)
    → IsAllocating
        (λ cs f. add_variable kind code cs cs.setup f)
        (λ cs. cs.setup)
        (λ cs. cs.kinds)
        (λ kinds. kind ∷ kinds)
        (λ v. v)
add_variable-IsAllocating kind code = record {
  setup = λ cs f e. (
    none,
    record cs { kinds = kind ∷ cs.kinds },
    ap (λ b. add_variable kind code cs b f) e,
    e,
    refl,
  );
  proving = λ cs x e. (
    some x,
    record cs { kinds = kind ∷ cs.kinds; values = code x ∷ cs.values },
    ap (λ b. add_variable kind code cs b (ok x)) e,
    e,
    refl,
    refl,
  );
  missing = λ cs why e. ap (λ b. add_variable kind code cs b (panic why)) e;
}

reading-IsReading : IsReading small witness reading
reading-IsReading = record {
  fp = add_variable-IsAllocating false (λ x. x);
  boolean = add_variable-IsAllocating true bit;
}

abbrev generating : System
generating = record { setup = true; kinds = []; values = [] }

abbrev pub proving : System
proving = record { setup = false; kinds = []; values = [] }

abbrev payment : OpWitness
payment = record (padding 2) {
  active = true;
  amount = 5;
  from_index_bits = true ∷ false ∷ [];
  from_siblings = 8 ∷ 9 ∷ [];
}

-- The operations are absent in key generation.
allocate-shape_example :
    Both small reading
      (allocate small toy 2 witness 2 (panic assignment_missing))
      (allocate small toy 2 witness 2 (ok (payment ∷ padding 2 ∷ [])))
      (λ a b. Matches small reading 2 a b (new_variable toy 2 2 (payment ∷ padding 2 ∷ [])))
      generating
      proving
allocate-shape_example =
    allocate-shape small reading witness reading-IsReading toy 2 2 (panic assignment_missing)
      (payment ∷ padding 2 ∷ []) generating proving refl refl refl
