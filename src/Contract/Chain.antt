-- ===== src/Contract/Chain.antt =====
-- The chain of proven roots along any history of transactions.
use ivc_checkpoints.Prelude.{
  ℕ, suc, ◌≤◌, ◌≡◌, refl, sym, ap, ◌∙◌, subst, Bool, true, false, ◌==◌, ==_refl, ==_iff, Bool-cases,
  ◌⊎◌, inl, inr, arith, write,
}
use ivc_checkpoints.Prelude.Results.{ok}
use ivc_checkpoints.Hashes.{Hashes}
use ivc_checkpoints.Poseidon.Codegen.{PoseidonT5}
use ivc_checkpoints.Contract.Settle.{Settlement, Proof, settle_epoch_proven, settle_epoch}
use ivc_checkpoints.Contract.{
  EpochStatus, unproven, is_proven, ProvenCheckpoint, proven, Message, Evm, catchup_epochs, deploy,
}
use ivc_checkpoints.Contract.Calls.{
  Call, create, initialize, propose, upgrade, freeze, mark_closed, leave, request, answer,
  settle_proven, settle_unproven, execute, transaction, Reach, here, next,
}
use ivc_checkpoints.Contract.Checked.{
  settle_epoch_proven-IsProvenBy, settle_epoch-IsUnprovenBy, exit-IsExitBy,
}
use ivc_checkpoints.Contract.Governed.{
  create_token-ok, initialize_decider-ok, propose_decider_upgrade-ok, execute_decider_upgrade-ok,
  freeze_verifier-ok, answer_exit_data-ok, mark_epoch_closed-ok, request_exit_data-ok,
}

-- The last proven epoch is recorded as proven with the last proven root, and the streak counts the
-- `n` settlements without a proof since, which are few.
pub record IsChained (n : ℕ) (c : ProvenCheckpoint) : Type 0 where
  pub root : c.state_root c.last_proven_epoch ≡ c.last_proven_root
  pub status : c.epoch_status c.last_proven_epoch ≡ proven
  pub streak : c.unproven_streak ≡ n
  pub few : n ≤ catchup_epochs

-- The settlements without a proof since the last one with a proof: `n` before the call.
abbrev pub count_unproven : Call → ℕ → ℕ
count_unproven (settle_proven s p) n = 0
count_unproven (settle_unproven s) n = suc n
count_unproven _ n = n

-- The part of the storage that only the settlements write.
abbrev pub Keeps : ProvenCheckpoint → ProvenCheckpoint → Type 0
Keeps c t =
    (t.state_root ≡ c.state_root)
    × (t.epoch_status ≡ c.epoch_status)
    × (t.last_proven_root ≡ c.last_proven_root)
    × (t.last_proven_epoch ≡ c.last_proven_epoch)
    × (t.unproven_streak ≡ c.unproven_streak)
    × (t.org_nonce ≡ c.org_nonce)

kept : (c : ProvenCheckpoint) → Keeps c c
kept c = (refl, refl, refl, refl, refl, refl)

-- A settlement.
abbrev pub is_settle : Call → Bool
is_settle (settle_proven s p) = true
is_settle (settle_unproven s) = true
is_settle _ = false

pub Call-cases :
    (call : Call)
    → ((is_settle call ≡ false) × ((n : ℕ) → count_unproven call n ≡ n))
      ⊎ (((s : Settlement) × (p : Proof) × (call ≡ settle_proven s p))
          ⊎ ((s : Settlement) × (call ≡ settle_unproven s)))
Call-cases (settle_proven s p) = inr (inl (s, p, refl))
Call-cases (settle_unproven s) = inr (inr (s, refl))
Call-cases (create id org) = inl (refl, λ _. refl)
Call-cases (initialize d q) = inl (refl, λ _. refl)
Call-cases (propose d q) = inl (refl, λ _. refl)
Call-cases upgrade = inl (refl, λ _. refl)
Call-cases freeze = inl (refl, λ _. refl)
Call-cases (mark_closed epoch) = inl (refl, λ _. refl)
Call-cases (leave d b n w r) = inl (refl, λ _. refl)
Call-cases (request epoch) = inl (refl, λ _. refl)
Call-cases (answer epoch) = inl (refl, λ _. refl)

module _ (H : Hashes) (lib : PoseidonT5) (E : Evm) where
  pub execute-Keeps :
      (c : ProvenCheckpoint) (msg : Message) (call : Call) (t : ProvenCheckpoint)
      → is_settle call ≡ false
      → execute H lib E c msg call ≡ ok t
      → Keeps c t
  unfolding execute
  execute-Keeps c msg (create id org) t q h =
      subst (Keeps c) (sym (create_token-ok c t msg id org h).1) (kept c)
  execute-Keeps c msg (initialize decider pp_hash) t q h =
      subst (Keeps c) (sym (initialize_decider-ok c t msg decider pp_hash h).2) (kept c)
  execute-Keeps c msg (propose decider pp_hash) t q h =
      subst (Keeps c) (sym (propose_decider_upgrade-ok c t msg decider pp_hash h).2) (kept c)
  execute-Keeps c msg upgrade t q h =
      let (_, _, _, _, e) = execute_decider_upgrade-ok c t msg h in subst (Keeps c) (sym e) (kept c)
  execute-Keeps c msg freeze t q h = subst (Keeps c) (sym (freeze_verifier-ok c t msg h).1) (kept c)
  execute-Keeps c msg (mark_closed epoch) t q h =
      subst (Keeps c) (sym (mark_epoch_closed-ok c t msg epoch h).1) (kept c)
  execute-Keeps c msg (leave token_id balance nonce siblings is_right) t q h =
      let e = exit-IsExitBy H lib c msg token_id balance nonce siblings is_right t h in
      subst (Keeps c) (sym e.after) (kept c)
  execute-Keeps c msg (request epoch) t q h =
      subst (Keeps c) (sym (request_exit_data-ok c t msg epoch h).1) (kept c)
  execute-Keeps c msg (answer epoch) t q h =
      subst (Keeps c) (sym (answer_exit_data-ok c t msg epoch h).1) (kept c)
  execute-Keeps c msg (settle_proven s p) t q h = absurd (ground arith)
  execute-Keeps c msg (settle_unproven s) t q h = absurd (ground arith)

  Keeps-IsChained : (c t : ProvenCheckpoint) (n : ℕ) → Keeps c t → IsChained n c → IsChained n t
  Keeps-IsChained c t n (roots, statuses, root, epoch, streak, _) i = record {
    root = rw (roots, root, epoch) i.root;
    status = rw (statuses, epoch) i.status;
    streak = streak ∙ i.streak;
    few = i.few;
  }

  -- Writing another status leaves that of a proven epoch.
  write-proven :
      (status : ℕ → EpochStatus) (e k : ℕ)
      → is_proven (status e) ≡ false
      → status k ≡ proven
      → write status e unproven k ≡ proven
  write-proven status e k fresh h = elim (Bool-cases (e == k)) [
    | inl q ↦
        absurd (ground (arith, ap is_proven h, ap (λ j. is_proven (status j)) ((==_iff e k).0 q)))
    | inr q ↦ ground arith
  ]

  settle_proven-IsChained :
      (c : ProvenCheckpoint) (s : Settlement) (p : Proof) (t : ProvenCheckpoint)
      → settle_epoch_proven H lib E c s p ≡ ok t
      → IsChained 0 t
  settle_proven-IsChained c s p t h =
      let e = settle_epoch_proven-IsProvenBy H E lib c s p t h in
      let last = ap (λ z. z.last_proven_epoch) e.after in
      record {
        root =
            rw (ap (λ z. z.state_root) e.after, last, ap (λ z. z.last_proven_root) e.after)
              (ground (arith, ==_refl s.epoch));
        status = rw (ap (λ z. z.epoch_status) e.after, last) (ground (arith, ==_refl s.epoch));
        streak = ap (λ z. z.unproven_streak) e.after;
        few = omega arith;
      }

  settle_unproven-IsChained :
      (c : ProvenCheckpoint) (msg : Message) (s : Settlement) (t : ProvenCheckpoint) (n : ℕ)
      → IsChained n c
      → settle_epoch H lib E c msg s ≡ ok t
      → IsChained (suc n) t
  settle_unproven-IsChained c msg s t n i h =
      let e = settle_epoch-IsUnprovenBy H E lib c msg s t h in
      let a = e.authorized.after in
      let last = ap (λ z. z.last_proven_epoch) e.after ∙ ap (λ z. z.last_proven_epoch) a in
      record {
        root =
            rw
              (
                ap (λ z. z.state_root) e.after ∙ ap (λ z. z.state_root) a,
                last,
                ap (λ z. z.last_proven_root) e.after ∙ ap (λ z. z.last_proven_root) a,
              )
              i.root;
        status =
            rw
              (
                ap (λ z. z.epoch_status) e.after
                    ∙ ap (λ z. write z.epoch_status s.epoch unproven) a,
                last,
              )
              (write-proven c.epoch_status s.epoch c.last_proven_epoch e.fresh i.status);
        streak = omega (arith, ap (λ z. z.unproven_streak) e.after, i.streak);
        few = omega (arith, i.streak, e.streak_le);
      }

  execute-IsChained :
      (c : ProvenCheckpoint) (msg : Message) (call : Call) (t : ProvenCheckpoint) (n : ℕ)
      → IsChained n c
      → execute H lib E c msg call ≡ ok t
      → IsChained (count_unproven call n) t
  unfolding execute
  execute-IsChained c msg call t n i h = elim (Call-cases call) [
    | inl (quiet, same) ↦
        subst (λ m. IsChained m t) (sym (same n))
          (Keeps-IsChained c t n (execute-Keeps c msg call t quiet h) i)
    | inr (inl (s, p, e)) ↦
        subst (λ k. IsChained (count_unproven k n) t) (sym e)
          (settle_proven-IsChained c s p t (sym (ap (execute H lib E c msg) e) ∙ h))
    | inr (inr (s, e)) ↦
        subst (λ k. IsChained (count_unproven k n) t) (sym e)
          (settle_unproven-IsChained c msg s t n i (sym (ap (execute H lib E c msg) e) ∙ h))
  ]

  deploy-IsChained : (governance root : ℕ) → IsChained 0 (deploy governance root)
  unfolding deploy
  deploy-IsChained governance root = record {
    root = refl;
    status = refl;
    streak = refl;
    few = omega arith;
  }

  -- The settlements without a proof along a history, since the last one with a proof.
  unfoldable pub unproven_since : {s c : ProvenCheckpoint} → Reach H lib E s c → ℕ
  unproven_since here = 0
  unproven_since (next r (transaction msg call e)) = count_unproven call (unproven_since r)

  -- After any history from deployment, the last proven epoch is recorded as proven with the last
  -- proven root, and the streak is the number of settlements without a proof since the last one
  -- with a proof, at most three.
  pub Reach-IsChained :
      (governance root : ℕ) {c : ProvenCheckpoint} (r : Reach H lib E (deploy governance root) c)
      → IsChained (unproven_since r) c
  unfolding unproven_since
  Reach-IsChained governance root here = deploy-IsChained governance root
  Reach-IsChained governance root (next r (transaction msg call e)) =
      execute-IsChained _ msg call _ (unproven_since r) (Reach-IsChained governance root r) e
