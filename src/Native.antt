-- ===== src/Native.antt =====
-- crates/ledger-circuit/src/native.rs: the epoch executor. A panic (`expect`, `assert!`) is an
-- error value; machine integers wrap as they do in a release build.
pub mod Valid
pub mod Applied
pub mod Complete
pub mod Epoch
pub mod Nets
pub mod Exit
pub mod Returns
pub mod SelfPaid
pub mod Book
pub mod Open
pub mod Refined
pub mod Covered
pub mod Canonical
use ivc_checkpoints.Prelude.Results
use ivc_checkpoints.Prelude.Results.{assert, expect, ok, panic, ◌>>=◌, ◌>>◌}
use ivc_checkpoints.Prelude.{
  ℕ, ◌+◌, ◌-◌, ◌%◌, ◌^◌, Bool, true, false, ◌&&◌, List, [], ◌∷◌, ◌++◌, Option, none, some, ◌==◌,
  ltb, leb, if◌then◌else◌,
}
use ivc_checkpoints.Prelude.Dict.{Dict, lookup, insert}
use ivc_checkpoints.Field.{Arkworks, of_int}
use ivc_checkpoints.Poseidon.{h2, h4, hn}
use ivc_checkpoints.Imt
use ivc_checkpoints.Imt.{MerkleTree, root, siblings, index_bits, set_leaf}
use ivc_checkpoints.Ops.{OpWitness, OpKind, load, spend, withdraw, code}

pub data Panic : Type 0 where
  tree_full after_ops from_registered no_from_slot no_to_slot to_registered insufficient_balance :
      Panic
  no_such_index account_0_registered known_payee_key too_many_steps : Panic

abbrev pub Result {ℓ} : Type ℓ → Type ℓ
Result A = Results.Result Panic A

-- The maps are keyed by the bytes of a field element, here by the element.
pub record EpochExecutor : Type 0 where
  pub tree : MerkleTree
  pub slots : Dict ℕ
  pub token_of : Dict ℕ
  pub balances : Dict ℕ
  pub nonces : Dict ℕ
  pub next_slot : ℕ
  pub ops_acc : ℕ
  pub nets_acc : ℕ
  pub nets : List (ℕ × ℕ × ℕ)
  pub sink_key : ℕ

abbrev pub sink_tag : ℕ
sink_tag = 0x5151_5151_5151_5151

-- `kind == OpKind::Withdraw`
abbrev pub is_withdraw : OpKind → Bool
is_withdraw withdraw = true
is_withdraw _ = false

-- `state`: `[stateRoot, opsAcc, netsAcc]`
unfoldable pub state : EpochExecutor → List ℕ
state x = root x.tree ∷ x.ops_acc ∷ x.nets_acc ∷ []

unfoldable pub initial_state : EpochExecutor → Result (List ℕ)
initial_state x =
    if x.ops_acc == 0 && x.nets_acc == 0 then ok (root x.tree ∷ 0 ∷ 0 ∷ []) else panic after_ops

-- `exit_witness`: balance, nonce, siblings and index bits.
pub record ExitPath : Type 0 where
  pub balance : ℕ
  pub nonce : ℕ
  pub siblings : List ℕ
  pub index_bits : List Bool

-- The early returns by `?` on a missing entry.
unfoldable pub exit_witness : EpochExecutor → ℕ → Option ExitPath
exit_witness x key = elim (lookup key x.slots) [
  | none ↦ none
  | some slot ↦ elim (lookup key x.balances) [
    | none ↦ none
    | some balance ↦ elim (lookup key x.nonces) [
      | none ↦ none
      | some nonce ↦ some (record {
        balance = balance;
        nonce = nonce;
        siblings = siblings x.tree slot;
        index_bits = index_bits x.tree slot;
      })
    ]
  ]
]

-- A call on the executor.
pub data Request : Type 0 where
  load_of spend_of : ℕ → ℕ → ℕ → ℕ → Request
  withdraw_of : ℕ → ℕ → ℕ → Request

module _ (F : Arkworks) where
  unfoldable pub new : ℕ → EpochExecutor
  new D = record {
    tree = Imt.new F D;
    slots = [];
    token_of = [];
    balances = [];
    nonces = [];
    next_slot = 0;
    ops_acc = 0;
    nets_acc = 0;
    nets = [];
    sink_key = of_int F sink_tag;
  }

  -- The slot of a key: its own, or the next one while the tree has room.
  unfoldable pub slot_for : ℕ → EpochExecutor → ℕ → Result (ℕ × EpochExecutor)
  slot_for D x key = elim (lookup key x.slots) [
    | some slot ↦ ok (slot, x)
    | none ↦
        if ltb x.next_slot (2 ^ D)
        then ok (
          x.next_slot,
          record x {
            next_slot = (x.next_slot + 1) % 2 ^ 64;
            slots = insert key x.next_slot x.slots;
          },
        )
        else panic tree_full
  ]

  unfoldable pub register : ℕ → EpochExecutor → ℕ → ℕ → ℕ → ℕ → Result EpochExecutor
  unfolding slot_for
  register D x key token_id balance nonce = do
    (slot, x') ← slot_for D x key
    ok (record x' {
      token_of = insert key token_id x'.token_of;
      balances = insert key balance x'.balances;
      nonces = insert key nonce x'.nonces;
      tree = set_leaf F x'.tree slot (h4 F key token_id (of_int F balance) (of_int F nonce));
    })

  -- The parts of `apply`. The debit writes the leaf, the balance and the nonce of `from`.
  unfoldable pub debit : EpochExecutor → ℕ → ℕ → ℕ → ℕ → ℕ → EpochExecutor
  debit x from slot token_id balance nonce = record x {
    tree = set_leaf F x.tree slot (h4 F from token_id (of_int F balance) (of_int F nonce));
    balances = insert from balance x.balances;
    nonces = insert from nonce x.nonces;
  }

  -- The credit writes the leaf and the balance of `to`.
  unfoldable pub credit : EpochExecutor → ℕ → ℕ → ℕ → ℕ → ℕ → EpochExecutor
  credit x to slot token_id balance nonce = record x {
    tree = set_leaf F x.tree slot (h4 F to token_id (of_int F balance) (of_int F nonce));
    balances = insert to balance x.balances;
  }

  -- The accumulators, and the list of payouts.
  unfoldable pub accumulate : EpochExecutor → OpKind → ℕ → ℕ → ℕ → ℕ → ℕ → EpochExecutor
  accumulate x kind from to token_id amount nonce =
      let op_hash =
        hn F
          (of_int F (code kind) ∷ from ∷ to ∷ token_id ∷ of_int F amount ∷ of_int F nonce ∷ []) in
      record x {
        ops_acc = h2 F x.ops_acc op_hash;
        nets_acc =
            if is_withdraw kind
            then h4 F x.nets_acc from token_id (of_int F amount)
            else x.nets_acc;
        nets = if is_withdraw kind then x.nets ++ ((from, token_id, amount) ∷ []) else x.nets;
      }

  -- The executor between the two writes of `apply`.
  unfoldable pub debited : EpochExecutor → ℕ → ℕ → ℕ → ℕ → ℕ → ℕ → EpochExecutor
  debited x from from_slot token_id amount from_old_balance from_old_nonce =
      debit x from from_slot token_id (from_old_balance - amount) ((from_old_nonce + 1) % 2 ^ 64)

  -- What `apply` returns once its reads are done.
  unfoldable pub outcome :
      EpochExecutor → OpKind → ℕ → ℕ → ℕ → ℕ → ℕ → ℕ → ℕ → ℕ → ℕ → ℕ → EpochExecutor × OpWitness
  outcome x kind from to token_id amount fb fn from_slot to_slot tb tn =
      let x₁ = debited x from from_slot token_id amount fb fn in
      let x₂ = credit x₁ to to_slot token_id ((tb + amount) % 2 ^ 128) tn in
      (
        accumulate x₂ kind from to token_id amount fn,
        record {
          active = true;
          kind = code kind;
          from_key = from;
          to_key = to;
          token_id = token_id;
          amount = of_int F amount;
          nonce = of_int F fn;
          from_old_balance = of_int F fb;
          from_old_nonce = of_int F fn;
          from_index_bits = index_bits x.tree from_slot;
          from_siblings = siblings x.tree from_slot;
          to_old_balance = of_int F tb;
          to_old_nonce = of_int F tn;
          to_index_bits = index_bits x₁.tree to_slot;
          to_siblings = siblings x₁.tree to_slot;
        },
      )

  unfoldable pub apply : EpochExecutor → OpKind → ℕ → ℕ → ℕ → ℕ → Result (EpochExecutor × OpWitness)
  apply x kind from to token_id amount = do
    from_old_balance ← expect (lookup from x.balances) from_registered
    from_old_nonce ← expect (lookup from x.nonces) from_registered
    from_slot ← expect (lookup from x.slots) no_from_slot
    to_slot ← expect (lookup to x.slots) no_to_slot
    assert (leb amount from_old_balance) insufficient_balance
    let x₁ = debited x from from_slot token_id amount from_old_balance from_old_nonce
    to_old_balance ← expect (lookup to x₁.balances) to_registered
    to_old_nonce ← expect (lookup to x₁.nonces) to_registered
    ok (
        outcome x kind from to token_id amount from_old_balance from_old_nonce from_slot to_slot
          to_old_balance to_old_nonce)

  -- `load`, `spend` and `withdraw` differ in the kind and, for a withdraw, in the account that
  -- is credited, the sink.
  unfoldable pub perform : EpochExecutor → Request → Result (EpochExecutor × OpWitness)
  perform x (load_of from to token_id amount) = apply x load from to token_id amount
  perform x (spend_of from to token_id amount) = apply x spend from to token_id amount
  perform x (withdraw_of payee token_id amount) = apply x withdraw payee x.sink_key token_id amount

  -- A sequence of calls, with the witnesses in order.
  unfoldable pub run : EpochExecutor → List Request → Result (EpochExecutor × List OpWitness)
  run x [] = ok (x, [])
  run x (r ∷ rs) = do (x', w) ← perform x r; (x'', ws) ← run x' rs; ok (x'', w ∷ ws)
