-- ===== src/Contract/Replay.antt =====
-- Nothing is settled or withdrawn twice: nonces and nullifiers along any history.
use ivc_checkpoints.Prelude.{
  ℕ, ◌+◌, ◌≤◌, ◌≡◌, sym, ap, ◌∙◌, Bool, true, ==_refl, List, inl, inr, arith,
}
use ivc_checkpoints.Prelude.Results.{ok}
use ivc_checkpoints.Hashes.{Hashes}
use ivc_checkpoints.Poseidon.Codegen.{PoseidonT5}
use ivc_checkpoints.Contract.{ProvenCheckpoint, Message, Evm, field_key}
use ivc_checkpoints.Contract.Settle.{digest_proven, digest_unproven}
use ivc_checkpoints.Contract.Escape.{nullifier, exit}
use ivc_checkpoints.Contract.Calls.{
  Call, create, initialize, propose, upgrade, freeze, mark_closed, leave, request, answer,
  settle_proven, settle_unproven, execute, transaction, Reach, here, next,
}
use ivc_checkpoints.Contract.Checked.{
  IsAuthorized, settle_epoch_proven-IsProvenBy, settle_epoch-IsUnprovenBy, exit-IsExitBy,
}
use ivc_checkpoints.Contract.Governed.{
  create_token-ok, initialize_decider-ok, propose_decider_upgrade-ok, execute_decider_upgrade-ok,
  freeze_verifier-ok, answer_exit_data-ok, mark_epoch_closed-ok, request_exit_data-ok,
}
use ivc_checkpoints.Contract.Chain.{Call-cases, execute-Keeps}

module _ (H : Hashes) (lib : PoseidonT5) (E : Evm) where
  -- A nullifier that is spent stays spent.
  execute-exited :
      (c : ProvenCheckpoint) (msg : Message) (call : Call) (t : ProvenCheckpoint) (nk : ℕ)
      → execute H lib E c msg call ≡ ok t
      → c.exited nk ≡ true
      → t.exited nk ≡ true
  unfolding execute
  execute-exited c msg (create id org) t nk h s =
      ap (λ z. z.exited nk) (create_token-ok c t msg id org h).1 ∙ s
  execute-exited c msg (initialize d q) t nk h s =
      ap (λ z. z.exited nk) (initialize_decider-ok c t msg d q h).2 ∙ s
  execute-exited c msg (propose d q) t nk h s =
      ap (λ z. z.exited nk) (propose_decider_upgrade-ok c t msg d q h).2 ∙ s
  execute-exited c msg upgrade t nk h s =
      let (_, _, _, _, e) = execute_decider_upgrade-ok c t msg h in ap (λ z. z.exited nk) e ∙ s
  execute-exited c msg freeze t nk h s = ap (λ z. z.exited nk) (freeze_verifier-ok c t msg h).1 ∙ s
  execute-exited c msg (mark_closed epoch) t nk h s =
      ap (λ z. z.exited nk) (mark_epoch_closed-ok c t msg epoch h).1 ∙ s
  execute-exited c msg (leave d b n w r) t nk h s =
      let e = exit-IsExitBy H lib c msg d b n w r t h in
      ap (λ z. z.exited nk) e.after ∙ ground (arith, s)
  execute-exited c msg (request epoch) t nk h s =
      ap (λ z. z.exited nk) (request_exit_data-ok c t msg epoch h).1 ∙ s
  execute-exited c msg (answer epoch) t nk h s =
      ap (λ z. z.exited nk) (answer_exit_data-ok c t msg epoch h).1 ∙ s
  execute-exited c msg (settle_proven q p) t nk h s =
      let e = settle_epoch_proven-IsProvenBy H E lib c q p t h in
      ap (λ z. z.exited nk) e.after ∙ ap (λ z. z.exited nk) e.authorized.after ∙ s
  execute-exited c msg (settle_unproven q) t nk h s =
      let e = settle_epoch-IsUnprovenBy H E lib c msg q t h in
      ap (λ z. z.exited nk) e.after ∙ ap (λ z. z.exited nk) e.authorized.after ∙ s

  Reach-exited :
      {c t : ProvenCheckpoint} (nk : ℕ)
      → Reach H lib E c t
      → c.exited nk ≡ true
      → t.exited nk ≡ true
  Reach-exited nk here s = s
  Reach-exited nk (next r (transaction msg call e)) s =
      execute-exited _ msg call _ nk e (Reach-exited nk r s)

  -- After an exit, no exit of the same address from the same token goes through, whatever
  -- balance, nonce and path it gives and whatever transactions come between.
  pub exit_once :
      (c t u v : ProvenCheckpoint) (msg msg' : Message) (token_id b n b' n' : ℕ)
      (path path' : List ℕ) (sides sides' : List Bool)
      → exit H lib c msg token_id b n path sides ≡ ok t
      → Reach H lib E t u
      → msg'.sender ≡ msg.sender
      → ¬ (exit H lib u msg' token_id b' n' path' sides' ≡ ok v)
  exit_once c t u v msg msg' token_id b n b' n' path path' sides sides' h r same h' =
      let nk = nullifier H token_id (field_key H msg.sender token_id) in
      let first = exit-IsExitBy H lib c msg token_id b n path sides t h in
      let second = exit-IsExitBy H lib u msg' token_id b' n' path' sides' v h' in
      let spent =
        Reach-exited nk r (ap (λ z. z.exited nk) first.after ∙ ground (arith, ==_refl nk)) in
      let unspent =
        ap (λ a. u.exited (nullifier H token_id (field_key H a token_id))) (sym same)
        ∙ second.first in
      cc (spent, unspent)

  -- What an authorisation does to the nonces.
  authorized-nonce :
      (c a : ProvenCheckpoint) (token_id nonce : ℕ) (digest sig : List ℕ) (k : ℕ)
      → IsAuthorized H E c token_id nonce digest sig a
      → c.org_nonce k ≤ a.org_nonce k
  authorized-nonce c a token_id nonce digest sig k i =
      let e = ap (λ z. z.org_nonce k) i.after in ground (arith, e, i.current, ap c.org_nonce)

  -- A settlement by a call, with its token and nonce.
  abbrev pub Settles : Call → ℕ → ℕ → Type 0
  Settles (settle_proven s p) token_id nonce = (s.token_id ≡ token_id) × (s.nonce ≡ nonce)
  Settles (settle_unproven s) token_id nonce = (s.token_id ≡ token_id) × (s.nonce ≡ nonce)
  Settles _ token_id nonce = ⊥

  execute-nonce :
      (c : ProvenCheckpoint) (msg : Message) (call : Call) (t : ProvenCheckpoint) (k : ℕ)
      → execute H lib E c msg call ≡ ok t
      → c.org_nonce k ≤ t.org_nonce k
  unfolding execute
  execute-nonce c msg call t k h = elim (Call-cases call) [
    | inl (quiet, _) ↦
        let (_, _, _, _, _, e) = execute-Keeps H lib E c msg call t quiet h in
        omega (arith, ap (λ f. f k) e)
    | inr (inl (s, p, q)) ↦
        let e =
          settle_epoch_proven-IsProvenBy H E lib c s p t (sym (ap (execute H lib E c msg) q) ∙ h) in
        omega (
          arith,
          ap (λ z. z.org_nonce k) e.after,
          authorized-nonce c e.a s.token_id s.nonce (digest_proven H E s p) s.sig k e.authorized,
        )
    | inr (inr (s, q)) ↦
        let e =
          settle_epoch-IsUnprovenBy H E lib c msg s t (sym (ap (execute H lib E c msg) q) ∙ h) in
        omega (
          arith,
          ap (λ z. z.org_nonce k) e.after,
          authorized-nonce c e.a s.token_id s.nonce (digest_unproven H E s) s.sig k e.authorized,
        )
  ]

  Reach-nonce : {c t : ProvenCheckpoint} (k : ℕ) → Reach H lib E c t → c.org_nonce k ≤ t.org_nonce k
  Reach-nonce k here = omega arith
  Reach-nonce k (next r (transaction msg call e)) =
      omega (arith, Reach-nonce k r, execute-nonce _ msg call _ k e)

  -- A settlement uses the current nonce and leaves the next one.
  Settles-nonce :
      (c : ProvenCheckpoint) (msg : Message) (call : Call) (t : ProvenCheckpoint)
      (token_id nonce : ℕ)
      → Settles call token_id nonce
      → execute H lib E c msg call ≡ ok t
      → (c.org_nonce token_id ≡ nonce) × (t.org_nonce token_id ≡ nonce + 1)
  unfolding execute
  Settles-nonce c msg (settle_proven s p) t token_id nonce (e, e') h =
      let q = settle_epoch_proven-IsProvenBy H E lib c s p t h in
      (
        sym (ap c.org_nonce e) ∙ sym q.authorized.current ∙ e',
        ap (λ z. z.org_nonce token_id) q.after
            ∙ ap (λ z. z.org_nonce token_id) q.authorized.after
            ∙ ground (arith, e, e'),
      )
  Settles-nonce c msg (settle_unproven s) t token_id nonce (e, e') h =
      let q = settle_epoch-IsUnprovenBy H E lib c msg s t h in
      (
        sym (ap c.org_nonce e) ∙ sym q.authorized.current ∙ e',
        ap (λ z. z.org_nonce token_id) q.after
            ∙ ap (λ z. z.org_nonce token_id) q.authorized.after
            ∙ ground (arith, e, e'),
      )
  Settles-nonce c msg (create id org) t token_id nonce e h = elim e [ ]
  Settles-nonce c msg (initialize d q) t token_id nonce e h = elim e [ ]
  Settles-nonce c msg (propose d q) t token_id nonce e h = elim e [ ]
  Settles-nonce c msg upgrade t token_id nonce e h = elim e [ ]
  Settles-nonce c msg freeze t token_id nonce e h = elim e [ ]
  Settles-nonce c msg (mark_closed epoch) t token_id nonce e h = elim e [ ]
  Settles-nonce c msg (leave d b n w r) t token_id nonce e h = elim e [ ]
  Settles-nonce c msg (request epoch) t token_id nonce e h = elim e [ ]
  Settles-nonce c msg (answer epoch) t token_id nonce e h = elim e [ ]

  -- After a settlement, proven or not, no settlement of the same token with the same nonce goes
  -- through, whatever transactions come between.
  pub settle_once :
      (c t u v : ProvenCheckpoint) (msg msg' : Message) (call call' : Call) (token_id nonce : ℕ)
      → Settles call token_id nonce
      → Settles call' token_id nonce
      → execute H lib E c msg call ≡ ok t
      → Reach H lib E t u
      → ¬ (execute H lib E u msg' call' ≡ ok v)
  settle_once c t u v msg msg' call call' token_id nonce s s' h r h' = omega (
    arith,
    (Settles-nonce c msg call t token_id nonce s h).1,
    Reach-nonce token_id r,
    (Settles-nonce u msg' call' v token_id nonce s' h').0,
  )
