-- ===== src/Prover/Workload/Completed.antt =====
-- The operation stream of a workload whose loads fund its spends returns, phase by phase.
use ivc_checkpoints.Prelude.Results.{ok, >>=-then}
use ivc_checkpoints.Prelude.{
  ℕ, ◌*◌, ◌%◌, ◌^◌, ◌≤◌, ◌<◌, ◌≡◌, Bool, if◌then◌else◌, refl, sym, ap, ◌∙◌, subst, List, ◌++◌,
  arith, inl, inr, Bool-cases, ◌==◌, ==_iff, get_elem?, replicate, range_from, length-range_from,
  length-replicate,
}
use ivc_checkpoints.Prelude.Dict.{total}
use ivc_checkpoints.Field.{Arkworks}
use ivc_checkpoints.Native.{EpochExecutor, Request, run}
use ivc_checkpoints.Native.Book.{if_key, demand}
use ivc_checkpoints.Native.Open.{book_of, IsOpen}
use ivc_checkpoints.Native.Covered.{IsCovered, run-covered}
use ivc_checkpoints.Hashes.{Hashes}
use ivc_checkpoints.Prover.Workload.{
  WorkloadSpec, at_least_one, token, pool, account_keys, payee_keys, perform_each, load_at,
  spend_at, count_nets, withdrawals, op_stream,
}
use ivc_checkpoints.Prover.Workload.Opened.{
  AllOpenKeys, AllOpenKeys-kept, Avoids, length-payee_keys,
}
use ivc_checkpoints.Prover.Workload.Settling.{IsCounted, count_nets-IsCounted, withdrawals-demand}
use ivc_checkpoints.Prover.Workload.Streamed.{
  income-map, in_turn, get_elem-AllOpenKeys, withdrawals-AllOpen, perform_each-run,
}
use ivc_checkpoints.Prover.Workload.Phases.{
  owed-zeros, sum-zeros, map-AllOpen, account, payee, load_req, spend_req, loads, spends,
  load_at-load_req, spend_at-spend_req, loads-demand, spends-demand, spends-demand-pool,
}

module _ (H : Hashes) (F : Arkworks) (B D : ℕ) (spec : WorkloadSpec) where
  abbrev pub tok : ℕ
  tok = token H F B D

  abbrev pub payees : List ℕ
  payees = payee_keys H F B D spec.n_payees

  -- The sizes for which the loads fund the spends.
  pub record IsFunding : Type 0 where
    pub some_payee : 0 < spec.n_payees
    pub some_account : 0 < spec.n_accounts
    pub loaded : spec.n_accounts ≤ spec.loads
    pub spent : spec.spends ≤ 1000 * spec.n_accounts
    pub bounded : spec.loads < 2 ^ 64
    pub bounded_spends : spec.spends < 2 ^ 64

  -- What genesis leaves for the stream.
  pub record IsStocked (x : EpochExecutor) : Type 0 where
    pub sink : IsOpen x tok x.sink_key
    pub pool_lem : IsOpen x tok (pool H F B D)
    pub accounts : AllOpenKeys tok x (account_keys H F B D spec.n_accounts)
    pub payees_lem : AllOpenKeys tok x payees
    pub supply : total x.balances < 2 ^ 128

  pub IsStocked-kept :
      (x : EpochExecutor) (rs : List Request) (c : IsCovered F x rs)
      → IsStocked x
      → IsStocked c.after
  IsStocked-kept x rs c s = record {
    sink = subst (IsOpen c.after tok) (sym c.keeps.sink) (c.keeps.open_lem tok x.sink_key s.sink);
    pool_lem = c.keeps.open_lem tok (pool H F B D) s.pool_lem;
    accounts = AllOpenKeys-kept tok x c.after _ (c.keeps.open_lem tok) s.accounts;
    payees_lem = AllOpenKeys-kept tok x c.after _ (c.keeps.open_lem tok) s.payees_lem;
    supply = omega (arith, c.keeps.supply, s.supply);
  }

  module _ (small : 2 ^ D < 2 ^ 64) (f : IsFunding) where
    pub account-IsOpen :
        (x : EpochExecutor) (i : ℕ)
        → IsStocked x
        → IsOpen x tok (account H F B D spec (i % spec.n_accounts))
    unfolding account_keys
    account-IsOpen x i s =
        get_elem-AllOpenKeys tok x (account_keys H F B D spec.n_accounts)
          (i % at_least_one spec.n_accounts) _ s.accounts
          (in_turn (account H F B D spec) spec.n_accounts i f.some_account)

    payee-IsOpen :
        (x : EpochExecutor) (i : ℕ)
        → IsStocked x
        → IsOpen x tok (payee H F B D spec (i % spec.n_payees))
    unfolding payee_keys
    payee-IsOpen x i s =
        get_elem-AllOpenKeys tok x payees (i % at_least_one spec.n_payees) _ s.payees_lem
          (in_turn (payee H F B D spec) spec.n_payees i f.some_payee)

    loads-IsCovered :
        (x : EpochExecutor)
        → IsStocked x
        → 1000 * spec.loads ≤ (book_of x).balance (pool H F B D)
        → IsCovered F x (loads H F B D spec)
    loads-IsCovered x s rich =
        run-covered F (loads H F B D spec) x s.supply
          (map-AllOpen x (load_req H F B D spec) (λ i. (s.pool_lem, account-IsOpen x i s, tt))
            (range_from 0 spec.loads))
          λ k.
            subst (λ d. d ≤ (book_of x).balance k) (sym (loads-demand H F B D spec k))
              (elim (Bool-cases (pool H F B D == k)) [
                | inl e ↦
                    subst (λ j. if_key (pool H F B D) j 1000 * spec.loads ≤ (book_of x).balance j)
                      ((==_iff (pool H F B D) k).0 e) (ground (arith, rich))
                | inr e ↦ rw e (omega arith)
              ])

    spends-IsCovered :
        (x : EpochExecutor) (c : IsCovered F x (loads H F B D spec))
        → IsStocked x
        → Avoids (pool H F B D) (account_keys H F B D spec.n_accounts)
        → IsCovered F c.after (spends H F B D spec)
          × ((k : ℕ) → demand k (spends H F B D spec) ≤ (book_of c.after).balance k)
    spends-IsCovered x c s apart =
        let s' = IsStocked-kept x (loads H F B D spec) c s in
        let enough : (k : ℕ) → demand k (spends H F B D spec) ≤ (book_of c.after).balance k = λ k.
          elim (Bool-cases (pool H F B D == k)) [
            | inl e ↦
                subst (λ j. demand j (spends H F B D spec) ≤ (book_of c.after).balance j)
                  ((==_iff (pool H F B D) k).0 e)
                  (omega (arith, spends-demand-pool H F B D spec f.spent apart))
            | inr e ↦ omega (
              arith,
              c.balance_lem k,
              loads-demand H F B D spec k,
              ap (λ (t : Bool). (if t then 1000 else 0) * spec.loads) e,
              spends-demand H F B D spec x.sink_key k f.loaded f.spent,
            )
          ] in
        (
          run-covered F (spends H F B D spec) c.after s'.supply
              (map-AllOpen c.after (spend_req H F B D spec)
                (λ i. (account-IsOpen c.after i s', payee-IsOpen c.after i s', tt))
                (range_from 0 spec.spends))
              enough,
          enough,
        )

    -- Each payee's withdraw is what its spends have paid in.
    abbrev pub picks : ℕ → ℕ
    picks i = payee H F B D spec (i % spec.n_payees)

    pub counted : IsCounted payees picks (range_from 0 spec.spends) (replicate spec.n_payees 0)
    unfolding payee_keys
    counted =
        let n = length-payee_keys H F B D small spec.n_payees in
        count_nets-IsCounted payees picks
          (λ i.
            ap (λ m. get_elem? payees (i % at_least_one m)) n
            ∙ in_turn (payee H F B D spec) spec.n_payees i f.some_payee)
          (range_from 0 spec.spends) (replicate spec.n_payees 0)
          (n ∙ sym (length-replicate spec.n_payees 0))
          (omega
            (arith, sum-zeros spec.n_payees, length-range_from 0 spec.spends, f.bounded_spends))

    settles-IsCovered :
        (x : EpochExecutor) (c : IsCovered F x (spends H F B D spec))
        → IsStocked c.after
        → ((k : ℕ) → demand k (spends H F B D spec) ≤ (book_of x).balance k)
        → IsCovered F c.after (withdrawals tok payees counted.after)
    settles-IsCovered x c s enough =
        run-covered F (withdrawals tok payees counted.after) c.after s.supply
          (withdrawals-AllOpen tok c.after payees counted.after s.payees_lem s.sink)
          λ k. omega (
            arith,
            withdrawals-demand tok payees counted.after k,
            counted.owed_lem k,
            owed-zeros k spec.n_payees payees,
            income-map x.sink_key (spend_req H F B D spec) (range_from 0 spec.spends) k,
            c.balance_lem k,
            enough k,
          )

    -- The stream, as three runs.
    pub record IsStreamed (x : EpochExecutor) : Type 0 where
      pub loaded : IsCovered F x (loads H F B D spec)
      pub spent : IsCovered F loaded.after (spends H F B D spec)
      pub settled : IsCovered F spent.after (withdrawals tok payees counted.after)
      pub returned :
          op_stream H F B D spec x ≡ ok (settled.after, loaded.ws ++ (spent.ws ++ settled.ws))

    pub op_stream-IsStreamed :
        (x : EpochExecutor)
        → IsStocked x
        → 1000 * spec.loads ≤ (book_of x).balance (pool H F B D)
        → Avoids (pool H F B D) (account_keys H F B D spec.n_accounts)
        → IsStreamed x
    unfolding op_stream
    op_stream-IsStreamed x s rich apart =
        let c₁ = loads-IsCovered x s rich in
        let (c₂, enough) = spends-IsCovered x c₁ s apart in
        let s₂ =
          IsStocked-kept c₁.after (spends H F B D spec) c₂
            (IsStocked-kept x (loads H F B D spec) c₁ s) in
        let c₃ = settles-IsCovered c₁.after c₂ s₂ enough in
        let e₁ =
          perform_each-run H F B D (load_at H F B D spec) (load_req H F B D spec)
            (load_at-load_req H F B D spec f.some_account f.some_payee) (range_from 0 spec.loads) x
            (c₁.after, c₁.ws) c₁.calls in
        let e₂ =
          perform_each-run H F B D (spend_at H F B D spec) (spend_req H F B D spec)
            (spend_at-spend_req H F B D spec f.some_account f.some_payee) (range_from 0 spec.spends)
            c₁.after (c₂.after, c₂.ws) c₂.calls in
        let e₃ =
          ap (λ n. count_nets n (range_from 0 spec.spends) (replicate spec.n_payees 0))
            (sym (length-payee_keys H F B D small spec.n_payees))
          ∙ counted.returned in
        record {
          loaded = c₁;
          spent = c₂;
          settled = c₃;
          returned =
              >>=-then (perform_each H F B D (load_at H F B D spec) (range_from 0 spec.loads) x) _
                e₁
                (>>=-then
                  (perform_each H F B D (spend_at H F B D spec) (range_from 0 spec.spends) c₁.after)
                  _ e₂
                  (>>=-then
                    (count_nets spec.n_payees (range_from 0 spec.spends)
                      (replicate spec.n_payees 0))
                    _ e₃
                    (>>=-then (run F c₂.after (withdrawals tok payees counted.after)) _ c₃.calls
                      refl)));
        }
