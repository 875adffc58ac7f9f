-- ===== src/Ops/Agree.antt =====
-- A call of the constraint system in key generation next to one in proving: what the vendored
-- library documents of `new_variable`, and calls that add the same shape.
use ivc_checkpoints.Prelude.{ℕ, ◌≡◌, refl, sym, ap, ◌∙◌, Bool, true, false, Option, some}
use ivc_checkpoints.Prelude.Results.{Result, panic, ok}
use ivc_checkpoints.Ops.Alloc.{Constraints, Alloc, continue, ◌>>=◌, pure}

-- The documented behaviour of one `new_variable` of the library, in a mode that is not
-- `Constant`. Key generation never calls the closure; proving fails with the closure's error.
-- Either way the variables and constraints that are added do not depend on the value.
pub record IsAllocating {S E X W Shape : Type 0} (new : S → Result E X → Result E (W × S))
    (in_setup : S → Bool) (shape : S → Shape) (grow : Shape → Shape) (value : W → Option X)
    : Type 0 where
  pub setup :
      (cs : S) (f : Result E X)
      → in_setup cs ≡ true
      → (w : W) × (after : S) × (new cs f ≡ ok (w, after))
        × (in_setup after ≡ true)
        × (shape after ≡ grow (shape cs))
  pub proving :
      (cs : S) (x : X)
      → in_setup cs ≡ false
      → (w : W) × (after : S) × (new cs (ok x) ≡ ok (w, after))
        × (in_setup after ≡ false)
        × (shape after ≡ grow (shape cs))
        × (value w ≡ some x)
  pub missing : (cs : S) (why : E) → in_setup cs ≡ false → new cs (panic why) ≡ panic why

-- What can be read of a constraint system and of its variables.
pub record Reading (V : Constraints) : Type 1 where
  pub in_setup : V.System → Bool
  pub Shape : Type 0
  pub shape : V.System → Shape
  pub fp_value : V.FpVar → Option ℕ
  pub boolean_value : V.BooleanVar → Option Bool
  pub fp_grow : Shape → Shape
  pub boolean_grow : Shape → Shape

pub record IsReading (V : Constraints) (mode : V.Mode) (R : Reading V) : Type 0 where
  pub fp : IsAllocating (λ cs f. V.new_fp cs f mode) R.in_setup R.shape R.fp_grow R.fp_value
  pub boolean :
      IsAllocating
        (λ cs f. V.new_boolean cs f mode)
        R.in_setup
        R.shape
        R.boolean_grow
        R.boolean_value

module _ (V : Constraints) (R : Reading V) where
  -- Key generation from `c` and proving from `c'` both return, with the same shape and with
  -- variables that `P` relates.
  pub record Both {A : Type 0} (call call' : Alloc V A) (P : A → A → Type 0) (c c' : V.System)
      : Type 0 where
    pub value : A
    pub after : V.System
    pub value' : A
    pub after' : V.System
    pub setup_returns : call c ≡ ok (value, after)
    pub proving_returns : call' c' ≡ ok (value', after')
    pub still_setup : R.in_setup after ≡ true
    pub still_proving : R.in_setup after' ≡ false
    pub same_shape : R.shape after ≡ R.shape after'
    pub related : P value value'

  abbrev pub Agree : {A : Type 0} → Alloc V A → Alloc V A → (A → A → Type 0) → Type 0
  Agree call call' P =
      (c c' : V.System)
      → R.in_setup c ≡ true
      → R.in_setup c' ≡ false
      → R.shape c ≡ R.shape c'
      → Both call call' P c c'

  pub Agree-pure :
      {A : Type 0} (P : A → A → Type 0) (a a' : A) → P a a' → Agree (pure a) (pure a') P
  Agree-pure P a a' h c c' s s' e = record {
    value = a;
    after = c;
    value' = a';
    after' = c';
    setup_returns = refl;
    proving_returns = refl;
    still_setup = s;
    still_proving = s';
    same_shape = e;
    related = h;
  }

  pub Agree-then :
      {A B : Type 0} {call call' : Alloc V A} {next next' : A → Alloc V B} {P : A → A → Type 0}
      {Q : B → B → Type 0}
      → Agree call call' P
      → ((a a' : A) → P a a' → Agree (next a) (next' a') Q)
      → Agree (call >>= next) (call' >>= next') Q
  Agree-then {next} {next'} first rest c c' s s' e =
      let b = first c c' s s' e in
      let r =
        rest b.value b.value' b.related b.after b.after' b.still_setup b.still_proving
          b.same_shape in
      record {
        value = r.value;
        after = r.after;
        value' = r.value';
        after' = r.after';
        setup_returns = ap (λ p. continue p next) b.setup_returns ∙ r.setup_returns;
        proving_returns = ap (λ p. continue p next') b.proving_returns ∙ r.proving_returns;
        still_setup = r.still_setup;
        still_proving = r.still_proving;
        same_shape = r.same_shape;
        related = r.related;
      }

  pub Agree-new :
      {X W : Type 0}
      (new : V.System → Result V.SynthesisError X → Result V.SynthesisError (W × V.System))
      (grow : R.Shape → R.Shape) (value : W → Option X)
      → IsAllocating new R.in_setup R.shape grow value
      → (f : Result V.SynthesisError X) (x : X)
      → Agree (λ cs. new cs f) (λ cs. new cs (ok x)) (λ _ w. value w ≡ some x)
  Agree-new new grow value law f x c c' s s' e =
      let a = law.setup c f s in
      let b = law.proving c' x s' in
      record {
        value = a.0;
        after = a.1;
        value' = b.0;
        after' = b.1;
        setup_returns = a.2;
        proving_returns = b.2;
        still_setup = a.3;
        still_proving = b.3;
        same_shape = a.4 ∙ ap grow e ∙ sym b.4;
        related = b.5;
      }
