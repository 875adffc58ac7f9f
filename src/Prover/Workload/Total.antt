-- ===== src/Prover/Workload/Total.antt =====
-- The build of a workload returns.
use ivc_checkpoints.Prelude.Results.{ok, >>=-Returns, expect-Returns, Returns}
use ivc_checkpoints.Prelude.{
  ℕ, ◌+◌, ◌*◌, ◌^◌, ◌≤◌, ◌<◌, ◌≡◌, refl, sym, ap, ap₂, ◌∙◌, subst, List, [], ◌∷◌, ◌++◌, map, some,
  arith, length, length-append, get_elem?, range_from,
}
use ivc_checkpoints.Prelude.Ranges.{length-map_range}
use ivc_checkpoints.Field.{Arkworks}
use ivc_checkpoints.Ops.{OpWitness}
use ivc_checkpoints.Native.{EpochExecutor, Request, exit_witness, initial_state}
use ivc_checkpoints.Native.Nets.{payouts, run-nets}
use ivc_checkpoints.Imt.{root}
use ivc_checkpoints.Hashes.{Hashes}
use ivc_checkpoints.Prover.{chunk_into_batches, pad_to_steps}
use ivc_checkpoints.Prover.Workload.{
  WorkloadSpec, Workload, total_ops, net_entries, withdrawals, pool, account_keys, payee_keys,
  payee_addr, genesis, op_stream, assemble, build,
}
use ivc_checkpoints.Prover.Workload.Genesis.{genesis-IsGenesis}
use ivc_checkpoints.Prover.Workload.Opened.{Avoids, length-payee_keys, genesis-IsOpenGenesis}
use ivc_checkpoints.Prover.Workload.Streamed.{get_elem-range, get_elem-AllOpenKeys}
use ivc_checkpoints.Prover.Workload.Phases.{account, load_req, spend_req, loads, spends}
use ivc_checkpoints.Prover.Workload.Completed.{
  tok, payees, IsFunding, IsStocked, IsStocked-kept, counted, IsStreamed, op_stream-IsStreamed,
}
use ivc_checkpoints.Prover.Workload.Assembled.{
  Known, withdrawals-Known, length-withdrawals, net_entries-Returns, exit_witness-IsOpen,
  pad_to_steps-returns, length-run,
}

initial_state-returns :
    (x : EpochExecutor)
    → x.ops_acc ≡ 0
    → x.nets_acc ≡ 0
    → initial_state x ≡ ok (root x.tree ∷ 0 ∷ 0 ∷ [])
unfolding initial_state
initial_state-returns x e e' = rw (e, e') refl

module _ (H : Hashes) (F : Arkworks) (B D : ℕ) (pos : 0 < B) (small : 2 ^ D < 2 ^ 64)
    (spec : WorkloadSpec) (f : IsFunding H F B D spec) where
  payouts-loads : (is : List ℕ) → payouts (map (load_req H F B D spec) is) ≡ []
  payouts-loads [] = refl
  payouts-loads (i ∷ is) = payouts-loads is

  payouts-spends : (is : List ℕ) → payouts (map (spend_req H F B D spec) is) ≡ []
  payouts-spends [] = refl
  payouts-spends (i ∷ is) = payouts-spends is

  abbrev settles : List Request
  settles =
      withdrawals (tok H F B D spec) (payees H F B D spec) (counted H F B D spec small f).after

  -- The payouts after the stream are those of the withdraws.
  streamed-nets :
      (x : EpochExecutor) (s : IsStreamed H F B D spec small f x)
      → x.nets ≡ []
      → s.settled.after.nets ≡ payouts settles
  streamed-nets x s none_yet =
      (run-nets F settles s.spent.after s.settled.after s.settled.ws s.settled.calls).0
      ∙ ap (λ l. l ++ payouts settles)
          ((run-nets F (spends H F B D spec) s.loaded.after s.spent.after s.spent.ws
              s.spent.calls).0
            ∙ ap₂ ◌++◌
                ((run-nets F (loads H F B D spec) x s.loaded.after s.loaded.ws s.loaded.calls).0
                  ∙ ap₂ ◌++◌ none_yet (payouts-loads (range_from 0 spec.loads)))
                (payouts-spends (range_from 0 spec.spends)))

  streamed-length :
      (x : EpochExecutor) (s : IsStreamed H F B D spec small f x)
      → length (s.loaded.ws ++ (s.spent.ws ++ s.settled.ws)) ≤ total_ops spec
  streamed-length x s = omega (
    arith,
    length-append s.loaded.ws (s.spent.ws ++ s.settled.ws),
    length-append s.spent.ws s.settled.ws,
    length-run F (loads H F B D spec) x (s.loaded.after, s.loaded.ws) s.loaded.calls,
    length-run F (spends H F B D spec) s.loaded.after (s.spent.after, s.spent.ws) s.spent.calls,
    length-run F settles s.spent.after (s.settled.after, s.settled.ws) s.settled.calls,
    length-map_range (load_req H F B D spec) 0 spec.loads,
    length-map_range (spend_req H F B D spec) 0 spec.spends,
    length-withdrawals (tok H F B D spec) (payees H F B D spec)
        (counted H F B D spec small f).after,
    length-payee_keys H F B D small spec.n_payees,
  )

  -- The last part of the build.
  assemble-Returns :
      (epoch : ℕ) (z0 : List ℕ) (x : EpochExecutor) (ws : List OpWitness)
      → ((target : ℕ) → spec.pad_to_steps ≡ some target → length ws ≤ target * B)
      → IsStocked H F B D spec x
      → Known (payees H F B D spec) x.nets
      → Returns (assemble H F B D spec epoch z0 x ws)
  unfolding assemble account_keys
  assemble-Returns epoch z0 x ws fit s known =
      let first = get_elem-range (account H F B D spec) 0 spec.n_accounts 0 f.some_account in
      let owner = get_elem-AllOpenKeys (tok H F B D spec) x _ 0 _ s.accounts first in
      let (p, e₁) = exit_witness-IsOpen x (tok H F B D spec) _ owner in
      let addrs = map payee_addr (range_from 0 spec.n_payees) in
      let (es, e₂) =
        net_entries-Returns addrs (payees H F B D spec) x.nets
          (length-map_range payee_addr 0 spec.n_payees
            ∙ sym (length-payee_keys H F B D small spec.n_payees))
          known in
      let (bs, e₃) = pad_to_steps-returns B D pos spec.pad_to_steps ws fit in
      expect-Returns (get_elem? (account_keys H F B D spec.n_accounts) 0) _ _ first (
        expect-Returns (exit_witness x (account H F B D spec (0 + 0))) _ _ e₁ (
          >>=-Returns (net_entries addrs (payees H F B D spec) x.nets) _ e₂ (
            expect-Returns (pad_to_steps B D spec.pad_to_steps (chunk_into_batches B D ws)) _ _ e₃
              (_, refl))))

  -- A workload builds, over batches that are not empty, if it has at least one account and one
  -- payee, its tree has fewer than 2 ^ 64 leaves and room for the sink, the pool, the accounts and
  -- the payees, its loads fund its spends (at least one load for each account and at most 1000
  -- spends for each, and 64-bit sizes), its operations fit in the requested steps, and neither an
  -- account nor a payee has the key of the pool.
  pub build-returns :
      (epoch : ℕ)
      → 2 + spec.n_accounts + spec.n_payees ≤ 2 ^ D
      → ((target : ℕ) → spec.pad_to_steps ≡ some target → total_ops spec ≤ target * B)
      → Avoids (pool H F B D) (account_keys H F B D spec.n_accounts)
      → Avoids (pool H F B D) (payee_keys H F B D spec.n_payees)
      → (w : Workload) × (build H F B D spec epoch ≡ ok w)
  unfolding build
  build-returns epoch room fits apart apart' =
      let g = genesis-IsOpenGenesis H F B D small spec room apart apart' in
      let fresh = (genesis-IsGenesis H F B D small spec g.start g.returned).fresh in
      let stocked : IsStocked H F B D spec g.start = record {
        sink = g.sink;
        pool_lem = g.pool_lem;
        accounts = g.accounts;
        payees_lem = g.payees;
        supply = omega (arith, fresh.supply);
      } in
      let s =
        op_stream-IsStreamed H F B D spec small f g.start stocked
          (omega (arith, g.funded, f.bounded)) apart in
      let x₃ = IsStocked-kept H F B D spec s.spent.after settles s.settled (
        IsStocked-kept H F B D spec s.loaded.after (spends H F B D spec) s.spent
          (IsStocked-kept H F B D spec g.start (loads H F B D spec) s.loaded stocked)) in
      >>=-Returns (genesis H F B D spec) _ g.returned (
        >>=-Returns (initial_state g.start) _ (initial_state-returns g.start g.accs.0 g.accs.1) (
          >>=-Returns (op_stream H F B D spec g.start) _ s.returned (
            assemble-Returns epoch _ s.settled.after _
              (λ target e. omega (arith, streamed-length g.start s, fits target e)) x₃
              (subst (Known (payees H F B D spec)) (sym (streamed-nets g.start s fresh.unpaid)) (
                withdrawals-Known (tok H F B D spec) (payees H F B D spec)
                  (counted H F B D spec small f).after)))))
