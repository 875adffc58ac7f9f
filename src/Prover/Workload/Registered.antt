-- ===== src/Prover/Workload/Registered.antt =====
-- A registration returns while the tree has room, and leaves its account open.
use ivc_checkpoints.Prelude.Results.{ok, >>=-Returns, Returns}
use ivc_checkpoints.Prelude.{
  ℕ, ◌+◌, ◌%◌, ◌^◌, ◌≤◌, ◌<◌, ◌≡◌, ◌≢◌, refl, ap, ◌∙◌, List, some, arith, inl, inr, ltb, lt→ltb,
  Bool-cases, Option-cases, unwrap_or,
}
use ivc_checkpoints.Prelude.Dict.{lookup, insert, lookup-insert}
use ivc_checkpoints.Field.{Arkworks}
use ivc_checkpoints.Native.{EpochExecutor, slot_for, register}
use ivc_checkpoints.Native.Returns.{lookup-written}
use ivc_checkpoints.Native.Open.{IsOpen, book_of}
use ivc_checkpoints.Prover.Workload.Genesis.{register-maps}

module _ (F : Arkworks) (D : ℕ) where
  slot_for-Returns :
      (x : EpochExecutor) (key : ℕ) → x.next_slot < 2 ^ D → Returns (slot_for F D x key)
  unfolding slot_for
  slot_for-Returns x key room = elim (Option-cases (lookup key x.slots)) [
    | inl e ↦ (
      (
        x.next_slot,
        record x { next_slot = (x.next_slot + 1) % 2 ^ 64; slots = insert key x.next_slot x.slots },
      ),
      rw (e, slot_for) (rw (lt→ltb x.next_slot (2 ^ D) room) refl),
    )
    | inr (s, e) ↦ ((s, x), rw (e, slot_for) refl)
  ]

  pub register-Returns :
      (x : EpochExecutor) (key tok b n : ℕ)
      → x.next_slot < 2 ^ D
      → Returns (register F D x key tok b n)
  register-Returns x key tok b n room =
      let (p, e) = slot_for-Returns x key room in
      unfold register in >>=-Returns (slot_for F D x key) _ e (_, refl)

  -- What a registration does to the slots and the accumulators.
  register-slots :
      (x : EpochExecutor) (key tok b n : ℕ) (x' : EpochExecutor)
      → 2 ^ D < 2 ^ 64
      → register F D x key tok b n ≡ ok x'
      → ((s : ℕ) × (lookup key x'.slots ≡ some s))
        × ((k s : ℕ) → lookup k x.slots ≡ some s → (t : ℕ) × (lookup k x'.slots ≡ some t))
        × (x'.next_slot ≤ x.next_slot + 1)
        × (x'.ops_acc ≡ x.ops_acc)
        × (x'.nets_acc ≡ x.nets_acc)
  unfolding register
  register-slots x key tok b n x' small h = elim (Option-cases (lookup key x.slots)) [
    | inl e ↦ elim (Bool-cases (ltb x.next_slot (2 ^ D))) [
      | inl room ↦ (
        (x.next_slot, ground (arith, lookup-insert key key x.next_slot x.slots)),
        (λ k s e'. let (t, e'') = lookup-written key k x.next_slot x.slots e' in (t, ground arith)),
        ground arith,
        ground arith,
        ground arith,
      )
      | inr full ↦ absurd (ground arith)
    ]
    | inr (s, e) ↦
        ((s, ground arith), (λ k t e'. (t, ground arith)), ground arith, ground arith, ground arith)
  ]

  -- What a registration leaves: the key is open, the others stay open and keep their balances.
  pub record IsOpened (x : EpochExecutor) (tok key b : ℕ) (x' : EpochExecutor) : Type 0 where
    pub opened : IsOpen x' tok key
    pub kept : (k : ℕ) → IsOpen x tok k → IsOpen x' tok k
    pub own : (book_of x').balance key ≡ b
    pub others : (k : ℕ) → k ≢ key → (book_of x').balance k ≡ (book_of x).balance k
    pub next : x'.next_slot ≤ x.next_slot + 1
    pub sink : x'.sink_key ≡ x.sink_key
    pub accs : (x'.ops_acc ≡ x.ops_acc) × (x'.nets_acc ≡ x.nets_acc)

  pub register-IsOpened :
      (x : EpochExecutor) (key tok b : ℕ) (x' : EpochExecutor)
      → 2 ^ D < 2 ^ 64
      → register F D x key tok b 0 ≡ ok x'
      → IsOpened x tok key b x'
  register-IsOpened x key tok b x' small h =
      let (tokens, balances, nonces, sink, _) = register-maps F D x key tok b 0 x' h in
      let ((slot, e), slots, next, accs, accs') = register-slots x key tok b 0 x' small h in
      record {
        opened = record {
          slot = slot;
          balance = b;
          nonce = 0;
          account = record {
            slot = e;
            token = ap (lookup key) tokens ∙ lookup_self tok x.token_of;
            balance = ap (lookup key) balances ∙ lookup_self b x.balances;
            nonce = ap (lookup key) nonces ∙ lookup_self 0 x.nonces;
          };
        };
        kept = λ k o.
            let (s, e₁) = slots k o.slot o.account.slot in
            let (c, e₂) = lookup-written key k b x.balances o.account.balance in
            let (m, e₃) = lookup-written key k 0 x.nonces o.account.nonce in
            record {
              slot = s;
              balance = c;
              nonce = m;
              account = record {
                slot = e₁;
                token =
                    ap (lookup k) tokens
                    ∙ ground (arith, lookup-insert key k tok x.token_of, o.account.token);
                balance = ap (lookup k) balances ∙ e₂;
                nonce = ap (lookup k) nonces ∙ e₃;
              };
            };
        own =
            ap (λ o. unwrap_or (lookup key o) 0) balances
            ∙ ap (λ o. unwrap_or o 0) (lookup_self b x.balances);
        others = λ k ne.
            ap (λ o. unwrap_or (lookup k o) 0) balances
            ∙ ap (λ o. unwrap_or o 0) {x = lookup k (insert key b x.balances)}
                {y = lookup k x.balances} (ground (arith, lookup-insert key k b x.balances, ne));
        next = next;
        sink = sink;
        accs = (accs, accs');
      }
    where
      lookup_self : (v : ℕ) (m : List (ℕ × ℕ)) → lookup key (insert key v m) ≡ some v
      lookup_self v m = ground (arith, lookup-insert key key v m)
