-- ===== src/Contract/Upgrade.antt =====
-- The verifier along any history: its timelock, and the freeze.
use ivc_checkpoints.Prelude.{
  ℕ, ◌+◌, ◌≤◌, ◌≡◌, refl, sym, ap, ◌∙◌, ◌≢◌, ◌⊎◌, inl, inr, Bool, true, false, arith,
}
use ivc_checkpoints.Prelude.Results.{ok}
use ivc_checkpoints.Hashes.{Hashes}
use ivc_checkpoints.Poseidon.Codegen.{PoseidonT5}
use ivc_checkpoints.Contract.{
  ProvenCheckpoint, Message, Evm, propose_decider_upgrade, execute_decider_upgrade,
  decider_timelock,
}
use ivc_checkpoints.Contract.Calls.{
  Call, create, initialize, propose, upgrade, freeze, mark_closed, leave, request, answer,
  settle_proven, settle_unproven, execute, transaction, Reach, here, next,
}
use ivc_checkpoints.Contract.Checked.{
  settle_epoch_proven-IsProvenBy, settle_epoch-IsUnprovenBy, exit-IsExitBy,
}
use ivc_checkpoints.Contract.Governed.{
  create_token-ok, initialize_decider-ok, propose_decider_upgrade-ok, execute_decider_upgrade-ok,
  freeze_verifier-ok, answer_exit_data-ok, mark_epoch_closed-ok, request_exit_data-ok,
}

-- The verifier's part of the storage.
abbrev pub Verifier : Type 0
Verifier = ℕ × ℕ × ℕ × ℕ × ℕ × Bool

abbrev pub verifier : ProvenCheckpoint → Verifier
verifier c = (
  c.nova_decider, c.pp_hash, c.pending_decider, c.pending_pp_hash, c.decider_eta, c.verifier_frozen,
)

-- What a call does to it.
abbrev pub Verified : ProvenCheckpoint → Message → Call → ProvenCheckpoint → Type 0
Verified c msg (initialize d q) t =
    (c.nova_decider ≡ 0)
    × (verifier t ≡ (d, q, c.pending_decider, c.pending_pp_hash, c.decider_eta, c.verifier_frozen))
Verified c msg (propose d q) t =
    (c.verifier_frozen ≡ false)
    × (verifier t
        ≡ (c.nova_decider, c.pp_hash, d, q, msg.timestamp + decider_timelock, c.verifier_frozen))
Verified c msg upgrade t =
    (c.verifier_frozen ≡ false)
    × (c.decider_eta ≢ 0)
    × (c.decider_eta ≤ msg.timestamp)
    × (verifier t ≡ (c.pending_decider, c.pending_pp_hash, 0, 0, 0, c.verifier_frozen))
Verified c msg freeze t =
    verifier t
    ≡ (c.nova_decider, c.pp_hash, c.pending_decider, c.pending_pp_hash, c.decider_eta, true)
Verified c msg _ t = verifier t ≡ verifier c

module _ (H : Hashes) (lib : PoseidonT5) (E : Evm) where
  execute-Verified :
      (c : ProvenCheckpoint) (msg : Message) (call : Call) (t : ProvenCheckpoint)
      → execute H lib E c msg call ≡ ok t
      → Verified c msg call t
  unfolding execute
  execute-Verified c msg (create id org) t h = ap verifier (create_token-ok c t msg id org h).1
  execute-Verified c msg (initialize d q) t h =
      let (_, unset, e) = initialize_decider-ok c t msg d q h in (unset, ap verifier e)
  execute-Verified c msg (propose d q) t h =
      let (_, thawed, e) = propose_decider_upgrade-ok c t msg d q h in (thawed, ap verifier e)
  execute-Verified c msg upgrade t h =
      let (_, thawed, pending, due, e) = execute_decider_upgrade-ok c t msg h in
      (thawed, pending, due, ap verifier e)
  execute-Verified c msg freeze t h = ap verifier (freeze_verifier-ok c t msg h).1
  execute-Verified c msg (mark_closed epoch) t h =
      ap verifier (mark_epoch_closed-ok c t msg epoch h).1
  execute-Verified c msg (leave d b n w r) t h =
      let e = exit-IsExitBy H lib c msg d b n w r t h in ap verifier e.after
  execute-Verified c msg (request epoch) t h = ap verifier (request_exit_data-ok c t msg epoch h).1
  execute-Verified c msg (answer epoch) t h = ap verifier (answer_exit_data-ok c t msg epoch h).1
  execute-Verified c msg (settle_proven s p) t h =
      let e = settle_epoch_proven-IsProvenBy H E lib c s p t h in
      ap verifier e.after ∙ ap verifier e.authorized.after
  execute-Verified c msg (settle_unproven s) t h =
      let e = settle_epoch-IsUnprovenBy H E lib c msg s t h in
      ap verifier e.after ∙ ap verifier e.authorized.after

  -- A frozen verifier that is set.
  abbrev IsFrozen : ℕ → ℕ → ProvenCheckpoint → Type 0
  IsFrozen d q c = (c.nova_decider ≡ d) × (c.pp_hash ≡ q) × (c.verifier_frozen ≡ true) × (d ≢ 0)

  IsFrozen-verifier :
      (d q : ℕ) (c t : ProvenCheckpoint) → verifier t ≡ verifier c → IsFrozen d q c → IsFrozen d q t
  IsFrozen-verifier d q c t e (a, b, f, z) =
      (ap (λ v. v.0) e ∙ a, ap (λ v. v.1) e ∙ b, ap (λ v. v.5) e ∙ f, z)

  Verified-IsFrozen :
      (d q : ℕ) (c : ProvenCheckpoint) (msg : Message) (call : Call) (t : ProvenCheckpoint)
      → Verified c msg call t
      → IsFrozen d q c
      → IsFrozen d q t
  Verified-IsFrozen d q c msg (initialize d' q') t v (a, b, f, z) = absurd (z (sym a ∙ v.0))
  Verified-IsFrozen d q c msg (propose d' q') t v (a, b, f, z) = cc (v.0, f)
  Verified-IsFrozen d q c msg upgrade t v (a, b, f, z) = cc (v.0, f)
  Verified-IsFrozen d q c msg freeze t v (a, b, f, z) =
      (ap (λ w. w.0) v ∙ a, ap (λ w. w.1) v ∙ b, ap (λ w. w.5) v, z)
  Verified-IsFrozen d q c msg (create id org) t v i = IsFrozen-verifier d q c t v i
  Verified-IsFrozen d q c msg (mark_closed epoch) t v i = IsFrozen-verifier d q c t v i
  Verified-IsFrozen d q c msg (leave x b n w r) t v i = IsFrozen-verifier d q c t v i
  Verified-IsFrozen d q c msg (request epoch) t v i = IsFrozen-verifier d q c t v i
  Verified-IsFrozen d q c msg (answer epoch) t v i = IsFrozen-verifier d q c t v i
  Verified-IsFrozen d q c msg (settle_proven s p) t v i = IsFrozen-verifier d q c t v i
  Verified-IsFrozen d q c msg (settle_unproven s) t v i = IsFrozen-verifier d q c t v i

  Reach-IsFrozen :
      (d q : ℕ) {c t : ProvenCheckpoint} → Reach H lib E c t → IsFrozen d q c → IsFrozen d q t
  Reach-IsFrozen d q here i = i
  Reach-IsFrozen d q (next {t} {u} r (transaction msg call e)) i =
      Verified-IsFrozen d q t msg call u (execute-Verified t msg call u e) (Reach-IsFrozen d q r i)

  -- Once the verifier is set and frozen, no transaction changes it, its parameters or the freeze.
  pub frozen_forever :
      (c t : ProvenCheckpoint)
      → c.nova_decider ≢ 0
      → c.verifier_frozen ≡ true
      → Reach H lib E c t
      → (t.nova_decider ≡ c.nova_decider) × (t.pp_hash ≡ c.pp_hash) × (t.verifier_frozen ≡ true)
  frozen_forever c t z f r =
      let (a, b, f', _) = Reach-IsFrozen c.nova_decider c.pp_hash r (refl, refl, f, z) in (a, b, f')

  abbrev pub is_propose : Call → Bool
  is_propose (propose d q) = true
  is_propose _ = false

  -- The storage after any number of transactions of which none is a proposal.
  pub data Waits (s : ProvenCheckpoint) : ProvenCheckpoint → Type 0 where
    now : Waits s s
    later :
        {t u : ProvenCheckpoint} (msg : Message) (call : Call)
        → Waits s t
        → is_propose call ≡ false
        → execute H lib E t msg call ≡ ok u
        → Waits s u

  -- A proposal that waits, or one that is used up.
  abbrev IsPending : ℕ → ℕ → ℕ → ProvenCheckpoint → Type 0
  IsPending d q eta c =
      ((c.pending_decider ≡ d) × (c.pending_pp_hash ≡ q) × (c.decider_eta ≡ eta))
      ⊎ (c.decider_eta ≡ 0)

  IsPending-cong :
      (d q eta : ℕ) (c t : ProvenCheckpoint)
      → t.pending_decider ≡ c.pending_decider
      → t.pending_pp_hash ≡ c.pending_pp_hash
      → t.decider_eta ≡ c.decider_eta
      → IsPending d q eta c
      → IsPending d q eta t
  IsPending-cong d q eta c t e₁ e₂ e₃ (inl (a, b, f)) = inl (e₁ ∙ a, e₂ ∙ b, e₃ ∙ f)
  IsPending-cong d q eta c t e₁ e₂ e₃ (inr z) = inr (e₃ ∙ z)

  IsPending-verifier :
      (d q eta : ℕ) (c t : ProvenCheckpoint)
      → verifier t ≡ verifier c
      → IsPending d q eta c
      → IsPending d q eta t
  IsPending-verifier d q eta c t e =
      IsPending-cong d q eta c t (ap (λ v. v.2) e) (ap (λ v. v.3) e) (ap (λ v. v.4) e)

  Verified-IsPending :
      (d q eta : ℕ) (c : ProvenCheckpoint) (msg : Message) (call : Call) (t : ProvenCheckpoint)
      → is_propose call ≡ false
      → Verified c msg call t
      → IsPending d q eta c
      → IsPending d q eta t
  Verified-IsPending d q eta c msg (initialize d' q') t n v i =
      IsPending-cong d q eta c t (ap (λ w. w.2) v.1) (ap (λ w. w.3) v.1) (ap (λ w. w.4) v.1) i
  Verified-IsPending d q eta c msg (propose d' q') t n v i = absurd (ground arith)
  Verified-IsPending d q eta c msg upgrade t n v i = inr (ap (λ w. w.4) v.3)
  Verified-IsPending d q eta c msg freeze t n v i =
      IsPending-cong d q eta c t (ap (λ w. w.2) v) (ap (λ w. w.3) v) (ap (λ w. w.4) v) i
  Verified-IsPending d q eta c msg (create id org) t n v i = IsPending-verifier d q eta c t v i
  Verified-IsPending d q eta c msg (mark_closed e) t n v i = IsPending-verifier d q eta c t v i
  Verified-IsPending d q eta c msg (leave x b m w r) t n v i = IsPending-verifier d q eta c t v i
  Verified-IsPending d q eta c msg (request e) t n v i = IsPending-verifier d q eta c t v i
  Verified-IsPending d q eta c msg (answer e) t n v i = IsPending-verifier d q eta c t v i
  Verified-IsPending d q eta c msg (settle_proven s p) t n v i = IsPending-verifier d q eta c t v i
  Verified-IsPending d q eta c msg (settle_unproven s) t n v i = IsPending-verifier d q eta c t v i

  Waits-IsPending :
      (d q eta : ℕ) {c t : ProvenCheckpoint} → Waits c t → IsPending d q eta c → IsPending d q eta t
  Waits-IsPending d q eta now i = i
  Waits-IsPending d q eta (later {t} {u} msg call w n e) i =
      Verified-IsPending d q eta t msg call u n (execute-Verified t msg call u e)
        (Waits-IsPending d q eta w i)

  -- After a proposal, an upgrade that goes through before the next proposal installs what was
  -- proposed, and at least two days after it.
  pub upgrade_delayed :
      (c t u v : ProvenCheckpoint) (msg msg' : Message) (d q : ℕ)
      → propose_decider_upgrade c msg d q ≡ ok t
      → Waits t u
      → execute_decider_upgrade u msg' ≡ ok v
      → (msg.timestamp + decider_timelock ≤ msg'.timestamp) × (v.nova_decider ≡ d) × (v.pp_hash ≡ q)
  upgrade_delayed c t u v msg msg' d q h w h' =
      let (_, _, after) = propose_decider_upgrade-ok c t msg d q h in
      let eta = msg.timestamp + decider_timelock in
      let (_, _, pending, due, e) = execute_decider_upgrade-ok u v msg' h' in
      elim (Waits-IsPending d q eta w (
        inl (
          ap (λ z. z.pending_decider) after,
          ap (λ z. z.pending_pp_hash) after,
          ap (λ z. z.decider_eta) after,
        ))) [
          | inl (a, b, f) ↦
              (omega (arith, f, due), ap (λ z. z.nova_decider) e ∙ a, ap (λ z. z.pp_hash) e ∙ b)
          | inr z ↦ absurd (pending z)
        ]
