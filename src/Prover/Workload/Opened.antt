-- ===== src/Prover/Workload/Opened.antt =====
-- Genesis returns while the tree has room, and leaves every account open.
use ivc_checkpoints.Prelude.Results.{ok, >>=-then}
use ivc_checkpoints.Prelude.{
  ℕ, ◌+◌, ◌^◌, ◌≤◌, ◌<◌, ◌≡◌, ◌≢◌, refl, sym, ◌∙◌, subst, List, [], ◌∷◌, arith, length,
}
use ivc_checkpoints.Prelude.Ranges.{length-map_range}
use ivc_checkpoints.Field.{Arkworks}
use ivc_checkpoints.Native.{EpochExecutor, register, new}
use ivc_checkpoints.Native.Open.{IsOpen, book_of}
use ivc_checkpoints.Hashes.{Hashes}
use ivc_checkpoints.Prover.Workload.{
  WorkloadSpec, token, pool, account_keys, payee_keys, register_all, genesis,
}
use ivc_checkpoints.Prover.Workload.Genesis.{funding}
use ivc_checkpoints.Prover.Workload.Registered.{register-Returns, register-IsOpened}

-- Keys that are open under a token, and keys other than one.
abbrev pub AllOpenKeys : ℕ → EpochExecutor → List ℕ → Type 0
AllOpenKeys tok x [] = Unit {0}
AllOpenKeys tok x (key ∷ keys) = IsOpen x tok key × AllOpenKeys tok x keys

abbrev pub Avoids : ℕ → List ℕ → Type 0
Avoids k [] = Unit {0}
Avoids k (key ∷ keys) = (k ≢ key) × Avoids k keys

pub AllOpenKeys-kept :
    (tok : ℕ) (x x' : EpochExecutor) (keys : List ℕ)
    → ((k : ℕ) → IsOpen x tok k → IsOpen x' tok k)
    → AllOpenKeys tok x keys
    → AllOpenKeys tok x' keys
AllOpenKeys-kept tok x x' [] kept all = tt
AllOpenKeys-kept tok x x' (key ∷ keys) kept all =
    (kept key all.0, AllOpenKeys-kept tok x x' keys kept all.1)

module _ (H : Hashes) (F : Arkworks) (B D : ℕ) (small : 2 ^ D < 2 ^ 64) where
  abbrev tok : ℕ
  tok = token H F B D

  register_all-cons :
      (key : ℕ) (keys : List ℕ) (x y z : EpochExecutor)
      → register F D x key tok 0 0 ≡ ok y
      → register_all H F B D keys y ≡ ok z
      → register_all H F B D (key ∷ keys) x ≡ ok z
  unfolding register_all
  register_all-cons key keys x y z e h = rw e h

  pub length-account_keys : (n : ℕ) → length (account_keys H F B D n) ≡ n
  unfolding account_keys
  length-account_keys n = length-map_range _ 0 n

  pub length-payee_keys : (n : ℕ) → length (payee_keys H F B D n) ≡ n
  unfolding payee_keys
  length-payee_keys n = length-map_range _ 0 n

  genesis-parts :
      (spec : WorkloadSpec) (x₁ x₂ x₃ x₄ : EpochExecutor)
      → register F D (new F D) (new F D).sink_key tok 0 0 ≡ ok x₁
      → register F D x₁ (pool H F B D) tok (funding H F B D small spec) 0 ≡ ok x₂
      → register_all H F B D (account_keys H F B D spec.n_accounts) x₂ ≡ ok x₃
      → register_all H F B D (payee_keys H F B D spec.n_payees) x₃ ≡ ok x₄
      → genesis H F B D spec ≡ ok x₄
  unfolding genesis
  genesis-parts spec x₁ x₂ x₃ x₄ e₁ e₂ e₃ e₄ =
      >>=-then (register F D (new F D) (new F D).sink_key tok 0 0) _ e₁ (
        >>=-then (register F D x₁ (pool H F B D) tok (funding H F B D small spec) 0) _ e₂
          (>>=-then (register_all H F B D (account_keys H F B D spec.n_accounts) x₂) _ e₃ e₄))

  record IsStarted (x : EpochExecutor) (keys : List ℕ) : Type 0 where
    after : EpochExecutor
    returned : register_all H F B D keys x ≡ ok after
    opened : AllOpenKeys tok after keys
    kept : (k : ℕ) → IsOpen x tok k → IsOpen after tok k
    others : (k : ℕ) → Avoids k keys → (book_of after).balance k ≡ (book_of x).balance k
    next : after.next_slot ≤ x.next_slot + length keys
    sink : after.sink_key ≡ x.sink_key
    accs : (after.ops_acc ≡ x.ops_acc) × (after.nets_acc ≡ x.nets_acc)

  register_all-IsStarted :
      (keys : List ℕ) (x : EpochExecutor) → x.next_slot + length keys ≤ 2 ^ D → IsStarted x keys
  register_all-IsStarted [] x room = record {
    after = x;
    returned = unfold register_all in refl;
    opened = tt;
    kept = λ k o. o;
    others = λ k a. refl;
    next = omega arith;
    sink = refl;
    accs = (refl, refl);
  }
  register_all-IsStarted (key ∷ keys) x room =
      let (y, e) = register-Returns F D x key tok 0 0 (omega (arith, room)) in
      let one = register-IsOpened F D x key tok 0 y small e in
      let rest = register_all-IsStarted keys y (omega (arith, one.next, room)) in
      record {
        after = rest.after;
        returned = register_all-cons key keys x y rest.after e rest.returned;
        opened = (rest.kept key one.opened, rest.opened);
        kept = λ k o. rest.kept k (one.kept k o);
        others = λ k a. rest.others k a.1 ∙ one.others k a.0;
        next = omega (arith, rest.next, one.next);
        sink = rest.sink ∙ one.sink;
        accs = (rest.accs.0 ∙ one.accs.0, rest.accs.1 ∙ one.accs.1);
      }

  -- Genesis in a tree with room for the sink, the pool, the accounts and the payees, if none of
  -- them has the key of the pool.
  pub record IsOpenGenesis (spec : WorkloadSpec) : Type 0 where
    pub start : EpochExecutor
    pub returned : genesis H F B D spec ≡ ok start
    pub sink : IsOpen start tok start.sink_key
    pub pool_lem : IsOpen start tok (pool H F B D)
    pub accounts : AllOpenKeys tok start (account_keys H F B D spec.n_accounts)
    pub payees : AllOpenKeys tok start (payee_keys H F B D spec.n_payees)
    pub funded : (book_of start).balance (pool H F B D) ≡ funding H F B D small spec
    pub accs : (start.ops_acc ≡ 0) × (start.nets_acc ≡ 0)

  pub genesis-IsOpenGenesis :
      (spec : WorkloadSpec)
      → 2 + spec.n_accounts + spec.n_payees ≤ 2 ^ D
      → Avoids (pool H F B D) (account_keys H F B D spec.n_accounts)
      → Avoids (pool H F B D) (payee_keys H F B D spec.n_payees)
      → IsOpenGenesis spec
  genesis-IsOpenGenesis spec room apart apart' =
      let zero_slot : (new F D).next_slot ≡ 0 = unfold new in refl in
      let (x₁, e₁) =
        register-Returns F D (new F D) (new F D).sink_key tok 0 0
          (omega (arith, room, zero_slot)) in
      let o₁ = register-IsOpened F D (new F D) (new F D).sink_key tok 0 x₁ small e₁ in
      let (x₂, e₂) =
        register-Returns F D x₁ (pool H F B D) tok (funding H F B D small spec) 0
          (omega (arith, room, zero_slot, o₁.next)) in
      let o₂ =
        register-IsOpened F D x₁ (pool H F B D) tok (funding H F B D small spec) x₂ small e₂ in
      let a =
        register_all-IsStarted (account_keys H F B D spec.n_accounts) x₂
          (omega (arith, room, zero_slot, o₁.next, o₂.next, length-account_keys spec.n_accounts)) in
      let p = register_all-IsStarted (payee_keys H F B D spec.n_payees) a.after (
        omega (
          arith,
          room,
          zero_slot,
          o₁.next,
          o₂.next,
          a.next,
          length-account_keys spec.n_accounts,
          length-payee_keys spec.n_payees,
        )) in
      record {
        start = p.after;
        returned = genesis-parts spec x₁ x₂ a.after p.after e₁ e₂ a.returned p.returned;
        sink =
            subst (IsOpen p.after tok) (sym (p.sink ∙ a.sink ∙ o₂.sink ∙ o₁.sink))
              (p.kept _ (a.kept _ (o₂.kept _ o₁.opened)));
        pool_lem = p.kept _ (a.kept _ o₂.opened);
        accounts = AllOpenKeys-kept tok a.after p.after _ p.kept a.opened;
        payees = p.opened;
        funded = p.others _ apart' ∙ a.others _ apart ∙ o₂.own;
        accs = (
          p.accs.0 ∙ a.accs.0 ∙ o₂.accs.0 ∙ o₁.accs.0 ∙ (unfold new in refl),
          p.accs.1 ∙ a.accs.1 ∙ o₂.accs.1 ∙ o₁.accs.1 ∙ (unfold new in refl),
        );
      }
