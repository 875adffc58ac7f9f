-- ===== src/Ops.antt =====
-- crates/ledger-circuit/src/ops.rs: the operations of a batch, natively and as the values of the
-- circuit's variables. The arrays of length `D` are lists, and `IsSized` says how long.
pub mod Arrays
pub mod Alloc
pub mod Agree
pub mod Shape
use ivc_checkpoints.Prelude.{
  ℕ, ◌≡◌, Bool, true, false, List, map, length, replicate, get_or, range_from,
}
use ivc_checkpoints.Field.{Arkworks, of_int}

pub data OpKind : Type 0 where
  load spend withdraw : OpKind

-- The discriminant as `u64`.
abbrev pub code : OpKind → ℕ
code load = 0
code spend = 1
code withdraw = 2

pub record OpWitness : Type 0 where
  pub active : Bool
  pub kind : ℕ
  pub from_key : ℕ
  pub to_key : ℕ
  pub token_id : ℕ
  pub amount : ℕ
  pub nonce : ℕ
  pub from_old_balance : ℕ
  pub from_old_nonce : ℕ
  pub from_index_bits : List Bool
  pub from_siblings : List ℕ
  pub to_old_balance : ℕ
  pub to_old_nonce : ℕ
  pub to_index_bits : List Bool
  pub to_siblings : List ℕ

-- What the array types say of an operation over a tree of depth `D`.
pub record IsSized (D : ℕ) (w : OpWitness) : Type 0 where
  pub from_bits : length w.from_index_bits ≡ D
  pub from_sibs : length w.from_siblings ≡ D
  pub to_bits : length w.to_index_bits ≡ D
  pub to_sibs : length w.to_siblings ≡ D

-- `OpWitness::padding`, for trees of depth `D`.
unfoldable pub padding : ℕ → OpWitness
padding D = record {
  active = false;
  kind = code load;
  from_key = 0;
  to_key = 0;
  token_id = 0;
  amount = 0;
  nonce = 0;
  from_old_balance = 0;
  from_old_nonce = 0;
  from_index_bits = replicate D false;
  from_siblings = replicate D 0;
  to_old_balance = 0;
  to_old_nonce = 0;
  to_index_bits = replicate D false;
  to_siblings = replicate D 0;
}

-- `EpochStepInput { ops }`, and its default of padding alone.
abbrev pub EpochStepInput : Type 0
EpochStepInput = List OpWitness

unfoldable pub default_input : ℕ → ℕ → EpochStepInput
default_input B D = replicate B (padding D)

-- The values that `OpWitnessVar` is allocated with when proving.
pub record OpWitnessVar : Type 0 where
  pub active : Bool
  pub kind : ℕ
  pub from_key : ℕ
  pub to_key : ℕ
  pub token_id : ℕ
  pub amount : ℕ
  pub nonce : ℕ
  pub from_old_balance : ℕ
  pub from_old_nonce : ℕ
  pub from_index_bits : List Bool
  pub from_siblings : List ℕ
  pub to_old_balance : ℕ
  pub to_old_nonce : ℕ
  pub to_index_bits : List Bool
  pub to_siblings : List ℕ

-- A loop `for d in 0..D` that pushes `xs[d]`.
abbrev pub copy {ℓ} : {A : Type ℓ} → ℕ → List A → A → List A
copy D xs default = map (λ d. get_or xs d default) (range_from 0 D)

module _ (F : Arkworks) (D : ℕ) where
  -- One round of the loop of `new_variable` over the operations.
  unfoldable pub new_op_variable : OpWitness → OpWitnessVar
  new_op_variable o = record {
    active = o.active;
    kind = of_int F o.kind;
    from_key = o.from_key;
    to_key = o.to_key;
    token_id = o.token_id;
    amount = o.amount;
    nonce = o.nonce;
    from_old_balance = o.from_old_balance;
    from_old_nonce = o.from_old_nonce;
    from_index_bits = copy D o.from_index_bits false;
    from_siblings = copy D o.from_siblings 0;
    to_old_balance = o.to_old_balance;
    to_old_nonce = o.to_old_nonce;
    to_index_bits = copy D o.to_index_bits false;
    to_siblings = copy D o.to_siblings 0;
  }

  -- `EpochStepInputVar::new_variable` with the value present: `B` rounds over `v.ops[i]`.
  unfoldable pub new_variable : ℕ → EpochStepInput → List OpWitnessVar
  new_variable B ops = map (λ i. new_op_variable (get_or ops i (padding D))) (range_from 0 B)
