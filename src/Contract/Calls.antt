-- ===== src/Contract/Calls.antt =====
-- The transactions on the settlement contract, and what histories of them reach.
use ivc_checkpoints.Prelude.{ℕ, ◌≡◌, Bool, List}
use ivc_checkpoints.Prelude.Results.{Result, ok}
use ivc_checkpoints.Hashes.{Hashes}
use ivc_checkpoints.Poseidon.Codegen.{PoseidonT5}
use ivc_checkpoints.Contract.{
  ProvenCheckpoint, Revert, Message, Evm, create_token, initialize_decider, propose_decider_upgrade,
  execute_decider_upgrade, freeze_verifier, mark_epoch_closed, request_exit_data, answer_exit_data,
}
use ivc_checkpoints.Contract.Settle.{Settlement, Proof, settle_epoch_proven, settle_epoch}
use ivc_checkpoints.Contract.Escape.{exit}

-- An external function with its calldata.
pub data Call : Type 0 where
  create : ℕ → ℕ → Call
  initialize : ℕ → ℕ → Call
  propose : ℕ → ℕ → Call
  upgrade : Call
  freeze : Call
  mark_closed : ℕ → Call
  leave : ℕ → ℕ → ℕ → List ℕ → List Bool → Call
  request : ℕ → Call
  answer : ℕ → Call
  settle_proven : Settlement → Proof → Call
  settle_unproven : Settlement → Call

module _ (H : Hashes) (lib : PoseidonT5) (E : Evm) where
  unfoldable pub execute : ProvenCheckpoint → Message → Call → Result Revert ProvenCheckpoint
  execute c msg (create id org) = create_token c id org
  execute c msg (initialize decider pp_hash) = initialize_decider c msg decider pp_hash
  execute c msg (propose decider pp_hash) = propose_decider_upgrade c msg decider pp_hash
  execute c msg upgrade = execute_decider_upgrade c msg
  execute c msg freeze = freeze_verifier c msg
  execute c msg (mark_closed epoch) = mark_epoch_closed c msg epoch
  execute c msg (leave token_id balance nonce siblings is_right) =
      exit H lib c msg token_id balance nonce siblings is_right
  execute c msg (request epoch) = request_exit_data c msg epoch
  execute c msg (answer epoch) = answer_exit_data c msg epoch
  execute c msg (settle_proven s p) = settle_epoch_proven H lib E c s p
  execute c msg (settle_unproven s) = settle_epoch H lib E c msg s

  -- The storage `t` follows `s` by one transaction that does not revert.
  pub data Step (s : ProvenCheckpoint) (t : ProvenCheckpoint) : Type 0 where
    transaction : (msg : Message) (call : Call) → execute s msg call ≡ ok t → Step s t

  -- The storage after any number of transactions from `s`.
  pub data Reach (s : ProvenCheckpoint) : ProvenCheckpoint → Type 0 where
    here : Reach s s
    next : {t u : ProvenCheckpoint} → Reach s t → Step t u → Reach s u
