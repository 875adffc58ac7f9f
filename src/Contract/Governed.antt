-- ===== src/Contract/Governed.antt =====
-- What a governance call that does not revert has checked, and the storage that it leaves.
use ivc_checkpoints.Prelude.{
  ℕ, ◌+◌, ◌≤◌, ◌≡◌, sym, ap, ◌∙◌, ◌≢◌, Bool, true, false, not, ltb, ◌==◌, ==_iff, write,
  if◌then◌else◌,
}
use ivc_checkpoints.Prelude.Results.{ok, ok-injective, >>=-ok, assert-ok}
use ivc_checkpoints.Contract.{
  ProvenCheckpoint, frozen, not_governance, no_pending_upgrade, Message, create_token,
  initialize_decider, propose_decider_upgrade, execute_decider_upgrade, freeze_verifier,
  mark_epoch_closed, request_exit_data, answer_exit_data, checked_add, decider_timelock,
}
use ivc_checkpoints.Contract.Checked.{checked_add-ok, not-true, ==-false, not-ltb}

module _ (c t : ProvenCheckpoint) (msg : Message) where
  pub create_token-ok :
      (id org : ℕ)
      → create_token c id org ≡ ok t
      → (c.org_of id ≡ 0) × (t ≡ record c { org_of = write c.org_of id org })
  unfolding create_token
  create_token-ok id org h =
      let (e, h') = assert-ok (c.org_of id == 0) _ _ h in ((==_iff _ _).0 e, sym (ok-injective h'))

  pub initialize_decider-ok :
      (decider pp_hash : ℕ)
      → initialize_decider c msg decider pp_hash ≡ ok t
      → (msg.sender ≡ c.governance)
        × (c.nova_decider ≡ 0)
        × (t ≡ record c { nova_decider = decider; pp_hash = pp_hash })
  unfolding initialize_decider
  initialize_decider-ok decider pp_hash h =
      let (e₁, h₁) = assert-ok (msg.sender == c.governance) not_governance _ h in
      let (e₂, h₂) = assert-ok (c.nova_decider == 0) _ _ h₁ in
      ((==_iff _ _).0 e₁, (==_iff _ _).0 e₂, sym (ok-injective h₂))

  pub propose_decider_upgrade-ok :
      (decider pp_hash : ℕ)
      → propose_decider_upgrade c msg decider pp_hash ≡ ok t
      → (msg.sender ≡ c.governance)
        × (c.verifier_frozen ≡ false)
        × (t ≡ record c {
          pending_decider = decider;
          pending_pp_hash = pp_hash;
          decider_eta = msg.timestamp + decider_timelock;
        })
  unfolding propose_decider_upgrade
  propose_decider_upgrade-ok decider pp_hash h =
      let (e₁, h₁) = assert-ok (msg.sender == c.governance) not_governance _ h in
      let (e₂, h₂) = assert-ok (not c.verifier_frozen) frozen _ h₁ in
      let (eta, e₃, h₃) = >>=-ok (checked_add 256 msg.timestamp decider_timelock) _ h₂ in
      (
        (==_iff _ _).0 e₁,
        not-true _ e₂,
        sym (ok-injective h₃)
            ∙ ap
                (λ n. record c {
                  pending_decider = decider;
                  pending_pp_hash = pp_hash;
                  decider_eta = n;
                })
                (checked_add-ok 256 msg.timestamp decider_timelock e₃).0,
      )

  pub execute_decider_upgrade-ok :
      execute_decider_upgrade c msg ≡ ok t
      → (msg.sender ≡ c.governance)
        × (c.verifier_frozen ≡ false)
        × (c.decider_eta ≢ 0)
        × (c.decider_eta ≤ msg.timestamp)
        × (t ≡ record c {
          nova_decider = c.pending_decider;
          pp_hash = c.pending_pp_hash;
          pending_decider = 0;
          pending_pp_hash = 0;
          decider_eta = 0;
        })
  unfolding execute_decider_upgrade
  execute_decider_upgrade-ok h =
      let (e₁, h₁) = assert-ok (msg.sender == c.governance) not_governance _ h in
      let (e₂, h₂) = assert-ok (not c.verifier_frozen) frozen _ h₁ in
      let (e₃, h₃) = assert-ok (not (c.decider_eta == 0)) no_pending_upgrade _ h₂ in
      let (e₄, h₄) = assert-ok (not (ltb msg.timestamp c.decider_eta)) _ _ h₃ in
      (
        (==_iff _ _).0 e₁,
        not-true _ e₂,
        ==-false _ _ e₃,
        not-ltb msg.timestamp c.decider_eta e₄,
        sym (ok-injective h₄),
      )

  pub freeze_verifier-ok :
      freeze_verifier c msg ≡ ok t
      → (msg.sender ≡ c.governance) × (t ≡ record c { verifier_frozen = true })
  unfolding freeze_verifier
  freeze_verifier-ok h =
      let (e, h') = assert-ok (msg.sender == c.governance) not_governance _ h in
      ((==_iff _ _).0 e, sym (ok-injective h'))

  pub answer_exit_data-ok :
      (epoch : ℕ)
      → answer_exit_data c msg epoch ≡ ok t
      → (msg.sender ≡ c.governance)
        × (t ≡ record c { exit_data_served = write c.exit_data_served epoch true })
  unfolding answer_exit_data
  answer_exit_data-ok epoch h =
      let (e, h') = assert-ok (msg.sender == c.governance) not_governance _ h in
      ((==_iff _ _).0 e, sym (ok-injective h'))

  -- A conditional write of a field, as an unconditional one.
  pub mark_epoch_closed-ok :
      (epoch : ℕ)
      → mark_epoch_closed c msg epoch ≡ ok t
      → (at_ : ℕ → ℕ) × (t ≡ record c { epoch_closed_at = at_ })
  unfolding mark_epoch_closed
  mark_epoch_closed-ok epoch h = kept (c.epoch_closed_at epoch == 0) (ok-injective h)
    where
      kept :
          (b : Bool)
          → (if b
              then record c { epoch_closed_at = write c.epoch_closed_at epoch msg.timestamp }
              else c)
            ≡ t
          → (at_ : ℕ → ℕ) × (t ≡ record c { epoch_closed_at = at_ })
      kept true e = (write c.epoch_closed_at epoch msg.timestamp, sym e)
      kept false e = (c.epoch_closed_at, sym e)

  pub request_exit_data-ok :
      (epoch : ℕ)
      → request_exit_data c msg epoch ≡ ok t
      → (at_ : ℕ → ℕ) × (t ≡ record c { exit_data_requested_at = at_ })
  unfolding request_exit_data
  request_exit_data-ok epoch h = kept (c.exit_data_requested_at epoch == 0) (ok-injective h)
    where
      kept :
          (b : Bool)
          → (if b
              then record c {
                exit_data_requested_at = write c.exit_data_requested_at epoch msg.timestamp;
              }
              else c)
            ≡ t
          → (at_ : ℕ → ℕ) × (t ≡ record c { exit_data_requested_at = at_ })
      kept true e = (write c.exit_data_requested_at epoch msg.timestamp, sym e)
      kept false e = (c.exit_data_requested_at, sym e)
