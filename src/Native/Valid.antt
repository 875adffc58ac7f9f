-- ===== src/Native/Valid.antt =====
-- The executor's invariant: the tree holds the leaf of each registered account, and every
-- operation keeps it so.
use ivc_checkpoints.Prelude.Results.{ok}
use ivc_checkpoints.Prelude.{
  ℕ, ◌+◌, ◌%◌, ◌^◌, ◌≤◌, ◌<◌, ◌≡◌, ◌≢◌, sym, ◌∙◌, some, none, arith, Option-cases, inl, inr, dec_lt,
  subst,
}
use ivc_checkpoints.Prelude.Dict.{lookup, insert, lookup-insert}
use ivc_checkpoints.Field.{Arkworks, of_int}
use ivc_checkpoints.Poseidon.{h4}
use ivc_checkpoints.Imt.{leaf, set_leaf}
use ivc_checkpoints.Imt.Consistent.{
  IsConsistent, set_leaf-IsConsistent, depth-set_leaf, depth-new, new-IsConsistent,
}
use ivc_checkpoints.Imt.Paths.{leaf-set_leaf}
use ivc_checkpoints.Ops.{OpKind}
use ivc_checkpoints.Native.{EpochExecutor, new, register, debit, credit, accumulate}

-- What the four maps say of a key.
pub record IsAccount (x : EpochExecutor) (k s tok b n : ℕ) : Type 0 where
  pub slot : lookup k x.slots ≡ some s
  pub token : lookup k x.token_of ≡ some tok
  pub balance : lookup k x.balances ≡ some b
  pub nonce : lookup k x.nonces ≡ some n

module _ (F : Arkworks) (D : ℕ) where
  pub record IsValid (x : EpochExecutor) : Type 0 where
    pub consistent : IsConsistent F x.tree
    pub depth_lem : x.tree.depth ≡ D
    pub next_le : x.next_slot ≤ 2 ^ D
    pub slot_lt : (k s : ℕ) → lookup k x.slots ≡ some s → s < x.next_slot
    pub slot_injective : (j k s : ℕ) → lookup j x.slots ≡ some s → lookup k x.slots ≡ some s → j ≡ k
    pub leaf_lem :
        (k s tok b n : ℕ)
        → IsAccount x k s tok b n
        → leaf x.tree s ≡ h4 F k tok (of_int F b) (of_int F n)

  -- Slots are places in the tree.
  pub slot-in_tree :
      (x : EpochExecutor) (k s : ℕ) → IsValid x → lookup k x.slots ≡ some s → s < 2 ^ x.tree.depth
  slot-in_tree x k s v h =
      subst (λ d. s < 2 ^ d) (sym v.depth_lem) (omega (arith, v.slot_lt k s h, v.next_le))

  pub new-IsValid : IsValid (new F D)
  unfolding new lookup
  new-IsValid = record {
    consistent = new-IsConsistent F D;
    depth_lem = depth-new F D;
    next_le = omega arith;
    slot_lt = λ k s h. cc;
    slot_injective = λ j k s h h'. cc;
    leaf_lem = λ k s tok b n a. absurd (cc a.slot);
  }

  pub debit-IsValid :
      (x : EpochExecutor) (from s tok b n : ℕ)
      → IsValid x
      → lookup from x.slots ≡ some s
      → lookup from x.token_of ≡ some tok
      → IsValid (debit F x from s tok b n)
  unfolding debit
  debit-IsValid x from s tok b n v hs ht = record {
    consistent = set_leaf-IsConsistent F x.tree s _ v.consistent;
    depth_lem = depth-set_leaf F x.tree s _ ∙ v.depth_lem;
    next_le = v.next_le;
    slot_lt = v.slot_lt;
    slot_injective = v.slot_injective;
    leaf_lem = λ k s' tok' b' n' a. ground (
      arith,
      leaf-set_leaf F x.tree s (h4 F from tok (of_int F b) (of_int F n)) s',
      lookup-insert from k b x.balances,
      lookup-insert from k n x.nonces,
      v.slot_injective from k s,
      v.leaf_lem k s' tok' b' n',
    );
  }

  pub credit-IsValid :
      (x : EpochExecutor) (to s tok b n : ℕ)
      → IsValid x
      → lookup to x.slots ≡ some s
      → lookup to x.token_of ≡ some tok
      → lookup to x.nonces ≡ some n
      → IsValid (credit F x to s tok b n)
  unfolding credit
  credit-IsValid x to s tok b n v hs ht hn = record {
    consistent = set_leaf-IsConsistent F x.tree s _ v.consistent;
    depth_lem = depth-set_leaf F x.tree s _ ∙ v.depth_lem;
    next_le = v.next_le;
    slot_lt = v.slot_lt;
    slot_injective = v.slot_injective;
    leaf_lem = λ k s' tok' b' n' a. ground (
      arith,
      leaf-set_leaf F x.tree s (h4 F to tok (of_int F b) (of_int F n)) s',
      lookup-insert to k b x.balances,
      v.slot_injective to k s,
      v.leaf_lem k s' tok' b' n',
    );
  }

  -- Only the tree, the maps and the slots matter.
  pub accumulate-IsValid :
      (x : EpochExecutor) (kind : OpKind) (from to tok amount nonce : ℕ)
      → IsValid x
      → IsValid (accumulate F x kind from to tok amount nonce)
  unfolding accumulate
  accumulate-IsValid x kind from to tok amount nonce v = record {
    consistent = v.consistent;
    depth_lem = v.depth_lem;
    next_le = v.next_le;
    slot_lt = v.slot_lt;
    slot_injective = v.slot_injective;
    leaf_lem = λ k s' tok' b' n' a.
        v.leaf_lem k s' tok' b' n'
          (record { slot = a.slot; token = a.token; balance = a.balance; nonce = a.nonce });
  }

  -- The invariant of an executor whose leaf for one key is about to be written.
  record IsValidBut (key : ℕ) (x : EpochExecutor) : Type 0 where
    consistent : IsConsistent F x.tree
    depth_lem : x.tree.depth ≡ D
    next_le : x.next_slot ≤ 2 ^ D
    slot_lt : (k s : ℕ) → lookup k x.slots ≡ some s → s < x.next_slot
    slot_injective : (j k s : ℕ) → lookup j x.slots ≡ some s → lookup k x.slots ≡ some s → j ≡ k
    leaf_lem :
        (k s tok b n : ℕ)
        → k ≢ key
        → IsAccount x k s tok b n
        → leaf x.tree s ≡ h4 F k tok (of_int F b) (of_int F n)

  IsValid-but : (key : ℕ) (x : EpochExecutor) → IsValid x → IsValidBut key x
  IsValid-but key x v = record {
    consistent = v.consistent;
    depth_lem = v.depth_lem;
    next_le = v.next_le;
    slot_lt = v.slot_lt;
    slot_injective = v.slot_injective;
    leaf_lem = λ k s tok b n _ a. v.leaf_lem k s tok b n a;
  }

  abbrev fill : EpochExecutor → ℕ → ℕ → ℕ → ℕ → ℕ → EpochExecutor
  fill x key s tok b n = record x {
    token_of = insert key tok x.token_of;
    balances = insert key b x.balances;
    nonces = insert key n x.nonces;
    tree = set_leaf F x.tree s (h4 F key tok (of_int F b) (of_int F n));
  }

  fill-IsValid :
      (x : EpochExecutor) (key s tok b n : ℕ)
      → IsValidBut key x
      → lookup key x.slots ≡ some s
      → IsValid (fill x key s tok b n)
  fill-IsValid x key s tok b n v hs = record {
    consistent = set_leaf-IsConsistent F x.tree s _ v.consistent;
    depth_lem = depth-set_leaf F x.tree s _ ∙ v.depth_lem;
    next_le = v.next_le;
    slot_lt = v.slot_lt;
    slot_injective = v.slot_injective;
    leaf_lem = λ k s' tok' b' n' a. ground (
      arith,
      leaf-set_leaf F x.tree s (h4 F key tok (of_int F b) (of_int F n)) s',
      lookup-insert key k tok x.token_of,
      lookup-insert key k b x.balances,
      lookup-insert key k n x.nonces,
      v.slot_injective key k s,
      v.leaf_lem k s' tok' b' n',
    );
  }

  -- A new key takes the next slot, which no other has.
  abbrev allot : EpochExecutor → ℕ → EpochExecutor
  allot x key = record x {
    next_slot = (x.next_slot + 1) % 2 ^ 64;
    slots = insert key x.next_slot x.slots;
  }

  allot-IsValidBut :
      (x : EpochExecutor) (key : ℕ)
      → IsValid x
      → 2 ^ D < 2 ^ 64
      → lookup key x.slots ≡ none
      → x.next_slot < 2 ^ D
      → IsValidBut key (allot x key)
  allot-IsValidBut x key v small e room = record {
    consistent = v.consistent;
    depth_lem = v.depth_lem;
    next_le = omega arith;
    slot_lt = λ k s h. ground (arith, lookup-insert key k x.next_slot x.slots, v.slot_lt k s);
    slot_injective = λ j k s h h'. ground (
      arith,
      lookup-insert key j x.next_slot x.slots,
      lookup-insert key k x.next_slot x.slots,
      v.slot_lt k s,
      v.slot_lt j s,
      v.slot_injective j k s,
    );
    leaf_lem = λ k s tok b n ne a. v.leaf_lem k s tok b n (record {
      slot = ground (arith, lookup-insert key k x.next_slot x.slots, a.slot);
      token = a.token;
      balance = a.balance;
      nonce = a.nonce;
    });
  }

  -- Registration keeps the invariant, for a new key and for a known one.
  pub register-IsValid :
      (x : EpochExecutor) (key tok b n : ℕ) (x' : EpochExecutor)
      → 2 ^ D < 2 ^ 64
      → IsValid x
      → register F D x key tok b n ≡ ok x'
      → IsValid x'
  unfolding register
  register-IsValid x key tok b n x' small v h = elim (Option-cases (lookup key x.slots)) [
    | inl e ↦ elim (dec_lt x.next_slot (2 ^ D)) [
      | yes room ↦
          subst IsValid {x = fill (allot x key) key x.next_slot tok b n} {y = x'} (ground arith) (
            fill-IsValid (allot x key) key x.next_slot tok b n
              (allot-IsValidBut x key v small e room)
              (ground (arith, lookup-insert key key x.next_slot x.slots)))
      | no full ↦ absurd (ground arith)
    ]
    | inr (s, e) ↦
        subst IsValid {x = fill x key s tok b n} {y = x'} (ground arith)
          (fill-IsValid x key s tok b n (IsValid-but key x v) e)
  ]
