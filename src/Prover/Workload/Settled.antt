-- ===== src/Prover/Workload/Settled.antt =====
-- The payouts and the exit witness of a workload against the state that it reports.
use ivc_checkpoints.Prelude.Results.{>>=-ok, expect-ok, ok, ok-injective}
use ivc_checkpoints.Prelude.{
  ℕ, zero, suc, ◌^◌, ◌<◌, ◌≡◌, sym, ap, ap₂, ◌∙◌, List, [], ◌∷◌, ◌++◌, map, some, arith, inl, inr,
  ◌==◌, Bool-cases, get_elem?, get_or, range_from, Option-cases,
}
use ivc_checkpoints.Prelude.Dict.{lookup}
use ivc_checkpoints.Field.{Arkworks, IsField, of_int}
use ivc_checkpoints.Poseidon.{h4}
use ivc_checkpoints.Imt.{root_from_leaf}
use ivc_checkpoints.Native.{state, EpochExecutor, Request, load_of, spend_of, withdraw_of}
use ivc_checkpoints.Native.Epoch.{AllSameToken, run-run_ops}
use ivc_checkpoints.Native.Exit.{exit_witness-root, run-token_of}
use ivc_checkpoints.Native.Nets.{payouts, fold_nets, run-nets}
use ivc_checkpoints.Hashes.{Hashes}
use ivc_checkpoints.Prover.Workload.{
  WorkloadSpec, Workload, total_ops, build, token, account_keys, NetEntry, field_key, payee_addr,
  epoch_token, position, net_entries, payee_keys,
}
use ivc_checkpoints.Prover.Workload.Genesis.{IsHolder, get_elem-IsHolder}
use ivc_checkpoints.Prover.Workload.Proven.{build-IsBuilt}

get_elem-position :
    (keys : List ℕ) (key i : ℕ) → position keys key ≡ some i → get_elem? keys i ≡ some key
unfolding position
get_elem-position [] key i h = absurd (ground arith)
get_elem-position (k ∷ keys) key zero h = elim (Bool-cases (k == key)) [
  | inl e ↦ ground arith
  | inr e ↦ elim (Option-cases (position keys key)) [
    | inl e' ↦ absurd (ground arith)
    | inr (j, e') ↦ absurd (ground arith)
  ]
]
get_elem-position (k ∷ keys) key (suc i) h = elim (Bool-cases (k == key)) [
  | inl e ↦ absurd (ground arith)
  | inr e ↦ elim (Option-cases (position keys key)) [
    | inl e' ↦ absurd (ground arith)
    | inr (j, e') ↦ get_elem-position keys key i (ground arith)
  ]
]

-- Two lists made from the same indices.
get_elem-map {ℓ} :
    {A : Type ℓ} (f : A → ℕ) (g : ℕ → A) (is : List ℕ) (i key : ℕ) (a : A)
    → get_elem? (map (λ j. f (g j)) is) i ≡ some key
    → get_elem? (map g is) i ≡ some a
    → key ≡ f a
get_elem-map f g [] i key a h h' = absurd (ground arith)
get_elem-map f g (j ∷ is) zero key a h h' = cc
get_elem-map f g (j ∷ is) (suc i) key a h h' = get_elem-map f g is i key a h h'

-- A payout under the token of the epoch.
abbrev AllOf : ℕ → List (ℕ × ℕ × ℕ) → Type 0
AllOf tok [] = Unit {0}
AllOf tok ((_, t, _) ∷ ns) = (t ≡ tok) × AllOf tok ns

payouts-AllOf :
    (tok : ℕ) (x : EpochExecutor) (rs : List Request)
    → AllSameToken x rs
    → IsHolder tok x x.sink_key
    → AllOf tok (payouts rs)
payouts-AllOf tok x [] all sink = tt
payouts-AllOf tok x (load_of from to t amount ∷ rs) all sink = payouts-AllOf tok x rs all.1 sink
payouts-AllOf tok x (spend_of from to t amount ∷ rs) all sink = payouts-AllOf tok x rs all.1 sink
payouts-AllOf tok x (withdraw_of payee t amount ∷ rs) all sink =
    (ground (arith, all.0.1, sink), payouts-AllOf tok x rs all.1 sink)

module _ (H : Hashes) (F : Arkworks) (B D : ℕ) where
  -- An entry as a settlement contract reads it: the address's key, the token, the amount.
  abbrev pub entry_net : ℕ → NetEntry → ℕ × ℕ × ℕ
  entry_net tok e = (field_key H e.addr epoch_token, tok, e.amount)

  net_entries-keys :
      (n tok : ℕ) (nets : List (ℕ × ℕ × ℕ)) (es : List NetEntry)
      → AllOf tok nets
      → net_entries (map payee_addr (range_from 0 n)) (payee_keys H F B D n) nets ≡ ok es
      → map (entry_net tok) es ≡ nets
  unfolding net_entries payee_keys
  net_entries-keys n tok [] es all h = ap (map (entry_net tok)) (sym (ok-injective h))
  net_entries-keys n tok ((key, t, amount) ∷ nets) es all h =
      let addrs = map payee_addr (range_from 0 n) in
      let (idx, e, h₁) = expect-ok (position (payee_keys H F B D n) key) _ _ h in
      let (a, e', h₂) = expect-ok (get_elem? addrs idx) _ _ h₁ in
      let (rest, e'', h₃) = >>=-ok (net_entries addrs (payee_keys H F B D n) nets) _ h₂ in
      let own =
        get_elem-map (λ b. field_key H b epoch_token) payee_addr (range_from 0 n) idx key a
          (get_elem-position (payee_keys H F B D n) key idx e) e' in
      ap (map (entry_net tok)) (sym (ok-injective h₃))
      ∙ ap₂ ◌∷◌ (ap₂ (λ k s. (k, s, amount)) (sym own) (sym all.0))
          (net_entries-keys n tok nets rest all.1 e'')

module _ (H : Hashes) (F : Arkworks) (B D : ℕ) (field : IsField F) (small : 2 ^ D < 2 ^ 64)
    (spec : WorkloadSpec) (epoch : ℕ) (w : Workload) (loads : spec.loads < 2 ^ 64)
    (ops : total_ops spec < 2 ^ 64) (h : build H F B D spec epoch ≡ ok w) where
  -- The nets of a workload that builds, with 64-bit sizes, read as the key of each address, the
  -- epoch's token and the amount, fold to the nets accumulator of its final state.
  pub build-nets :
      fold_nets F 0 (map (entry_net H F B D (token H F B D)) w.nets) ≡ get_or w.native_zn 2 0
  unfolding state
  build-nets =
      let b = build-IsBuilt H F B D field small spec epoch w loads ops h in
      let (list, acc) = run-nets F b.rs b.start b.final b.ws b.calls in
      let paid = list ∙ ap (λ l. l ++ payouts b.rs) b.fresh.fresh.unpaid in
      let tokens = payouts-AllOf (token H F B D) b.start b.rs b.ready.tokens b.fresh.sink in
      let keys =
        net_entries-keys H F B D spec.n_payees (token H F B D) (payouts b.rs) w.nets tokens (
          ap
            (net_entries (map payee_addr (range_from 0 spec.n_payees))
              (payee_keys H F B D spec.n_payees))
            (sym paid)
          ∙ b.made.paid) in
      ap (fold_nets F 0) keys
      ∙ ap (λ a. fold_nets F a (payouts b.rs)) (sym b.unfolded.1)
      ∙ sym acc
      ∙ ap (λ z. get_or z 2 0) (sym b.made.last)

  -- The exit witness of a workload that builds, with 64-bit sizes, opens the leaf of its key,
  -- with its balance and its nonce, against the state root of the final state.
  pub build-exit :
      root_from_leaf F
        (h4 F w.exit.key (token H F B D) (of_int F w.exit.balance) (of_int F w.exit.nonce))
        w.exit.siblings
        w.exit.is_right
      ≡ get_or w.native_zn 0 0
  unfolding state
  build-exit =
      let b = build-IsBuilt H F B D field small spec epoch w loads ops h in
      let (ready, _) = run-run_ops F D field b.rs b.start b.final b.ws b.ready b.calls in
      let holder =
        get_elem-IsHolder (token H F B D) b.start (account_keys H F B D spec.n_accounts) 0
          w.exit.key b.fresh.accounts b.made.account in
      exit_witness-root F D b.final w.exit.key (token H F B D) _ ready.valid
        (ap (lookup w.exit.key) (run-token_of F D b.rs b.start (b.final, b.ws) b.calls) ∙ holder)
        b.made.path
      ∙ ap (λ z. get_or z 0 0) (sym b.made.last)
