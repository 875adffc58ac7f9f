-- ===== src/Prover/Workload/Genesis.antt =====
-- What genesis leaves in the executor: the funding of the pool, and every account under one token.
use ivc_checkpoints.Prelude.Results.{>>=-ok, ok, ok-injective}
use ivc_checkpoints.Prelude.{
  ℕ, zero, suc, ◌+◌, ◌*◌, ◌%◌, ◌^◌, ◌≤◌, ◌<◌, ◌≡◌, refl, sym, ap, ◌∙◌, subst, List, [], ◌∷◌, some,
  arith, inl, inr, ltb, Bool-cases, Option-cases, get_elem?,
}
use ivc_checkpoints.Prelude.Dict.{lookup, insert, total, lookup-insert, total-insert}
use ivc_checkpoints.Field.{Arkworks}
use ivc_checkpoints.Native.{EpochExecutor, register, new}
use ivc_checkpoints.Native.Valid.{IsValid, new-IsValid, register-IsValid}
use ivc_checkpoints.Hashes.{Hashes}
use ivc_checkpoints.Prover.Workload.{
  WorkloadSpec, token, pool, account_keys, payee_keys, register_all, genesis,
}

-- The key is registered under the token.
abbrev pub IsHolder : ℕ → EpochExecutor → ℕ → Type 0
IsHolder tok x key = lookup key x.token_of ≡ some tok

abbrev pub AllHolders : ℕ → EpochExecutor → List ℕ → Type 0
AllHolders tok x [] = Unit {0}
AllHolders tok x (key ∷ keys) = IsHolder tok x key × AllHolders tok x keys

pub get_elem-IsHolder :
    (tok : ℕ) (x : EpochExecutor) (keys : List ℕ) (i key : ℕ)
    → AllHolders tok x keys
    → get_elem? keys i ≡ some key
    → IsHolder tok x key
get_elem-IsHolder tok x [] i key all h = absurd (ground arith)
get_elem-IsHolder tok x (k ∷ keys) zero key all h = ground arith
get_elem-IsHolder tok x (k ∷ keys) (suc i) key all h = get_elem-IsHolder tok x keys i key all.1 h

-- Before the first operation.
pub record IsFresh (F : Arkworks) (D bound : ℕ) (x : EpochExecutor) : Type 0 where
  pub valid : IsValid F D x
  pub supply : total x.balances ≤ bound
  pub unpaid : x.nets ≡ []
  pub unused : (key n : ℕ) → lookup key x.nonces ≡ some n → n ≡ 0

module _ (F : Arkworks) (D : ℕ) where
  -- What a registration that returns leaves of the maps.
  pub register-maps :
      (x : EpochExecutor) (key tok b n : ℕ) (x' : EpochExecutor)
      → register F D x key tok b n ≡ ok x'
      → (x'.token_of ≡ insert key tok x.token_of)
        × (x'.balances ≡ insert key b x.balances)
        × (x'.nonces ≡ insert key n x.nonces)
        × (x'.sink_key ≡ x.sink_key)
        × (x'.nets ≡ x.nets)
  unfolding register
  register-maps x key tok b n x' h = elim (Option-cases (lookup key x.slots)) [
    | inl e ↦ elim (Bool-cases (ltb x.next_slot (2 ^ D))) [
      | inl room ↦ ground arith
      | inr full ↦ absurd (ground arith)
    ]
    | inr (s, e) ↦ ground arith
  ]

  -- A registration with nonce 0.
  register-IsFresh :
      (tok bound b sum : ℕ) (x : EpochExecutor) (key : ℕ) (x' : EpochExecutor)
      → bound + b ≤ sum
      → 2 ^ D < 2 ^ 64
      → IsFresh F D bound x
      → register F D x key tok b 0 ≡ ok x'
      → IsFresh F D sum x'
  register-IsFresh tok bound b sum x key x' le small f h =
      let (_, balances, nonces, _, nets) = register-maps x key tok b 0 x' h in
      record {
        valid = register-IsValid F D x key tok b 0 x' small f.valid h;
        supply = omega (arith, total-insert key b x.balances, ap total balances, f.supply, le);
        unpaid = nets ∙ f.unpaid;
        unused = λ j n e.
            ground (arith, lookup-insert key j 0 x.nonces, ap (lookup j) nonces, f.unused j n);
      }

  register-IsHolder :
      (tok b : ℕ) (x : EpochExecutor) (key : ℕ) (x' : EpochExecutor)
      → register F D x key tok b 0 ≡ ok x'
      → IsHolder tok x' key
        × ((j : ℕ) → IsHolder tok x j → IsHolder tok x' j)
        × (x'.sink_key ≡ x.sink_key)
  register-IsHolder tok b x key x' h =
      let (tokens, _, _, sink, _) = register-maps x key tok b 0 x' h in
      (
        ground (arith, lookup-insert key key tok x.token_of, ap (lookup key) tokens),
        (λ j e. ground (arith, lookup-insert key j tok x.token_of, ap (lookup j) tokens)),
        sink,
      )

  new-IsFresh : IsFresh F D 0 (new F D)
  unfolding new total lookup
  new-IsFresh = record {
    valid = new-IsValid F D;
    supply = omega arith;
    unpaid = refl;
    unused = λ key n e. absurd (ground arith);
  }

module _ (H : Hashes) (F : Arkworks) (B D : ℕ) (small : 2 ^ D < 2 ^ 64) where
  abbrev tok : ℕ
  tok = token H F B D

  -- A loop of registrations with balance 0.
  record IsRegistered (bound : ℕ) (x : EpochExecutor) (keys : List ℕ) (x' : EpochExecutor)
      : Type 0 where
    fresh : IsFresh F D bound x'
    holders : AllHolders tok x' keys
    kept : (j : ℕ) → IsHolder tok x j → IsHolder tok x' j
    sink : x'.sink_key ≡ x.sink_key

  register_all-IsRegistered :
      (keys : List ℕ) (bound : ℕ) (x x' : EpochExecutor)
      → IsFresh F D bound x
      → register_all H F B D keys x ≡ ok x'
      → IsRegistered bound x keys x'
  unfolding register_all
  register_all-IsRegistered [] bound x x' f h =
      subst (IsRegistered bound x []) (ok-injective h)
        (record { fresh = f; holders = tt; kept = λ j e. e; sink = refl })
  register_all-IsRegistered (key ∷ keys) bound x x' f h =
      let (y, e, h') = >>=-ok (register F D x key tok 0 0) _ h in
      let (own, kept, sink) = register-IsHolder F D tok 0 x key y e in
      let rest =
        register_all-IsRegistered keys bound y x'
          (register-IsFresh F D tok bound 0 bound x key y (omega arith) small f e) h' in
      record {
        fresh = rest.fresh;
        holders = (rest.kept key own, rest.holders);
        kept = λ j e'. rest.kept j (kept j e');
        sink = rest.sink ∙ sink;
      }

  AllHolders-kept :
      (x x' : EpochExecutor) (keys : List ℕ)
      → ((j : ℕ) → IsHolder tok x j → IsHolder tok x' j)
      → AllHolders tok x keys
      → AllHolders tok x' keys
  AllHolders-kept x x' [] kept all = tt
  AllHolders-kept x x' (key ∷ keys) kept all =
      (kept key all.0, AllHolders-kept x x' keys kept all.1)

  abbrev pub funding : WorkloadSpec → ℕ
  funding spec = ((spec.loads + 1) * 1000) % 2 ^ 128

  -- What holds after genesis.
  pub record IsGenesis (spec : WorkloadSpec) (x : EpochExecutor) : Type 0 where
    pub fresh : IsFresh F D (funding spec) x
    pub sink : IsHolder tok x x.sink_key
    pub pool_lem : IsHolder tok x (pool H F B D)
    pub accounts : AllHolders tok x (account_keys H F B D spec.n_accounts)
    pub payees : AllHolders tok x (payee_keys H F B D spec.n_payees)

  pub genesis-IsGenesis :
      (spec : WorkloadSpec) (x : EpochExecutor) → genesis H F B D spec ≡ ok x → IsGenesis spec x
  unfolding genesis
  genesis-IsGenesis spec x h =
      let start = new F D in
      let (x₁, e₁, h₁) = >>=-ok (register F D start start.sink_key tok 0 0) _ h in
      let (x₂, e₂, h₂) = >>=-ok (register F D x₁ (pool H F B D) tok (funding spec) 0) _ h₁ in
      let (x₃, e₃, h₃) =
        >>=-ok (register_all H F B D (account_keys H F B D spec.n_accounts) x₂) _ h₂ in
      let (own₁, kept₁, sink₁) = register-IsHolder F D tok 0 start start.sink_key x₁ e₁ in
      let (own₂, kept₂, sink₂) = register-IsHolder F D tok (funding spec) x₁ (pool H F B D) x₂ e₂ in
      let f₁ =
        register-IsFresh F D tok 0 0 0 start start.sink_key x₁ (omega arith) small (new-IsFresh F D)
          e₁ in
      let f₂ =
        register-IsFresh F D tok 0 (funding spec) (funding spec) x₁ (pool H F B D) x₂ (omega arith)
          small f₁ e₂ in
      let a =
        register_all-IsRegistered (account_keys H F B D spec.n_accounts) (funding spec) x₂ x₃ f₂
          e₃ in
      let p =
        register_all-IsRegistered (payee_keys H F B D spec.n_payees) (funding spec) x₃ x a.fresh
          h₃ in
      record {
        fresh = p.fresh;
        sink =
            subst (IsHolder tok x) (sym (p.sink ∙ a.sink ∙ sink₂ ∙ sink₁))
              (p.kept start.sink_key (a.kept start.sink_key (kept₂ start.sink_key own₁)));
        pool_lem = p.kept (pool H F B D) (a.kept (pool H F B D) own₂);
        accounts = AllHolders-kept x₃ x (account_keys H F B D spec.n_accounts) p.kept a.holders;
        payees = p.holders;
      }
