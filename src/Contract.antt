-- ===== src/Contract.antt =====
-- contracts/src/ProvenCheckpoint.sol: the storage of the settlement contract, its governance and
-- its records of closed epochs and of requests for exit data. A call returns the new storage or
-- the reason of the revert, which leaves the old one. Events are left out. Words and addresses
-- are numbers; a mapping is a function with its default.
pub mod Settle
pub mod Escape
pub mod Calls
pub mod Checked
pub mod Governed
pub mod Chain
pub mod Upgrade
pub mod Replay
use ivc_checkpoints.Prelude.{
  ℕ, ◌+◌, ◌*◌, ◌%◌, ◌^◌, Bool, true, false, ◌&&◌, not, List, ◌++◌, Option, ltb, ◌==◌, if◌then◌else◌,
  write,
}
use ivc_checkpoints.Prelude.Bytes.{to_be_bytes, of_be_bytes}
use ivc_checkpoints.Prelude.Results.{Result, panic, ok, ◌>>=◌, ◌>>◌, assert}
use ivc_checkpoints.Hashes.{Hashes}

pub data EpochStatus : Type 0 where
  unset proven unproven : EpochStatus

abbrev pub is_proven : EpochStatus → Bool
is_proven proven = true
is_proven _ = false

-- The contract's errors, and the compiler's for arithmetic and for calldata out of range.
pub data Revert : Type 0 where
  bad_auth bad_nonce exists root_mismatch not_governance decider_unset : Revert
  already_initialized no_pending_upgrade timelock_not_elapsed nets_acc_mismatch : Revert
  proof_rejected prev_root_mismatch timeout_not_elapsed catchup_exceeded : Revert
  length_mismatch already_proven frozen already_exited inclusion_failed : Revert
  arithmetic_overflow bad_calldata : Revert

pub record ProvenCheckpoint : Type 0 where
  pub transfers_root : ℕ → ℕ
  pub org_of : ℕ → ℕ
  pub org_nonce : ℕ → ℕ
  pub balance_of : ℕ → ℕ → ℕ
  pub state_root : ℕ → ℕ
  pub epoch_status : ℕ → EpochStatus
  pub epoch_closed_at : ℕ → ℕ
  pub nova_decider : ℕ
  pub pp_hash : ℕ
  pub governance : ℕ
  pub pending_decider : ℕ
  pub pending_pp_hash : ℕ
  pub decider_eta : ℕ
  pub last_proven_root : ℕ
  pub last_proven_epoch : ℕ
  pub unproven_streak : ℕ
  pub verifier_frozen : Bool
  pub exited : ℕ → Bool
  pub exit_data_requested_at : ℕ → ℕ
  pub exit_data_served : ℕ → Bool

-- `msg.sender` and `block.timestamp`
pub record Message : Type 0 where
  pub sender : ℕ
  pub timestamp : ℕ

-- The chain's other services: `ecrecover` on a digest with v, r and s, which returns 0 for a bad
-- signature, and a call of the verifier at an address, which may revert.
pub record Evm : Type 0 where
  pub chainid : ℕ
  pub self : ℕ
  pub ecrecover : List ℕ → ℕ → ℕ → ℕ → ℕ
  pub verify : ℕ → ℕ → List ℕ → List ℕ → List ℕ → Option Bool

abbrev pub prover_timeout : ℕ
prover_timeout = 6 * 3600

abbrev pub catchup_epochs : ℕ
catchup_epochs = 3

abbrev pub decider_timelock : ℕ
decider_timelock = 2 * 86400

abbrev pub exit_data_window : ℕ
exit_data_window = 86400

abbrev pub bn254_fr : ℕ
bn254_fr = 21888242871839275222246405745257275088548364400416034343698204186575808495617

-- Checked addition of `w`-bit integers.
unfoldable pub checked_add : ℕ → ℕ → ℕ → Result Revert ℕ
checked_add w a b = if ltb (a + b) (2 ^ w) then ok (a + b) else panic arithmetic_overflow

unfoldable pub field_key : Hashes → ℕ → ℕ → ℕ
field_key H a token_id =
    of_be_bytes (H.keccak256 (to_be_bytes 20 a ++ to_be_bytes 4 token_id)) % bn254_fr

unfoldable pub deploy : ℕ → ℕ → ProvenCheckpoint
deploy governance genesis_root = record {
  transfers_root = λ epoch. 0;
  org_of = λ id. 0;
  org_nonce = λ id. 0;
  balance_of = λ id owner. 0;
  state_root = write (λ epoch. 0) 0 genesis_root;
  epoch_status = write (λ epoch. unset) 0 proven;
  epoch_closed_at = λ epoch. 0;
  nova_decider = 0;
  pp_hash = 0;
  governance = governance;
  pending_decider = 0;
  pending_pp_hash = 0;
  decider_eta = 0;
  last_proven_root = genesis_root;
  last_proven_epoch = 0;
  unproven_streak = 0;
  verifier_frozen = false;
  exited = λ nullifier. false;
  exit_data_requested_at = λ epoch. 0;
  exit_data_served = λ epoch. false;
}

unfoldable pub create_token : ProvenCheckpoint → ℕ → ℕ → Result Revert ProvenCheckpoint
create_token c id org = do
  assert (c.org_of id == 0) exists
  ok (record c { org_of = write c.org_of id org })

abbrev pub only_governance : ProvenCheckpoint → Message → Result Revert (Unit {0})
only_governance c msg = assert (msg.sender == c.governance) not_governance

unfoldable pub initialize_decider :
    ProvenCheckpoint → Message → ℕ → ℕ → Result Revert ProvenCheckpoint
initialize_decider c msg decider pp_hash = do
  only_governance c msg
  assert (c.nova_decider == 0) already_initialized
  ok (record c { nova_decider = decider; pp_hash = pp_hash })

unfoldable pub propose_decider_upgrade :
    ProvenCheckpoint → Message → ℕ → ℕ → Result Revert ProvenCheckpoint
propose_decider_upgrade c msg decider pp_hash = do
  only_governance c msg
  assert (not c.verifier_frozen) frozen
  eta ← checked_add 256 msg.timestamp decider_timelock
  ok (record c { pending_decider = decider; pending_pp_hash = pp_hash; decider_eta = eta })

unfoldable pub execute_decider_upgrade : ProvenCheckpoint → Message → Result Revert ProvenCheckpoint
execute_decider_upgrade c msg = do
  only_governance c msg
  assert (not c.verifier_frozen) frozen
  assert (not (c.decider_eta == 0)) no_pending_upgrade
  assert (not (ltb msg.timestamp c.decider_eta)) timelock_not_elapsed
  ok (record c {
    nova_decider = c.pending_decider;
    pp_hash = c.pending_pp_hash;
    pending_decider = 0;
    pending_pp_hash = 0;
    decider_eta = 0;
  })

unfoldable pub freeze_verifier : ProvenCheckpoint → Message → Result Revert ProvenCheckpoint
freeze_verifier c msg = do only_governance c msg; ok (record c { verifier_frozen = true })

unfoldable pub mark_epoch_closed : ProvenCheckpoint → Message → ℕ → Result Revert ProvenCheckpoint
mark_epoch_closed c msg epoch = ok (
    if c.epoch_closed_at epoch == 0
    then record c { epoch_closed_at = write c.epoch_closed_at epoch msg.timestamp }
    else c)

unfoldable pub request_exit_data : ProvenCheckpoint → Message → ℕ → Result Revert ProvenCheckpoint
request_exit_data c msg epoch = ok (
    if c.exit_data_requested_at epoch == 0
    then record c { exit_data_requested_at = write c.exit_data_requested_at epoch msg.timestamp }
    else c)

unfoldable pub answer_exit_data : ProvenCheckpoint → Message → ℕ → Result Revert ProvenCheckpoint
answer_exit_data c msg epoch = do
  only_governance c msg
  ok (record c { exit_data_served = write c.exit_data_served epoch true })

-- The conjunction stops at the first false part, so only the last can overflow.
unfoldable pub exit_data_overdue : ProvenCheckpoint → Message → ℕ → Result Revert Bool
exit_data_overdue c msg epoch =
    let t = c.exit_data_requested_at epoch in
    if not (t == 0) && not (c.exit_data_served epoch)
    then (do due ← checked_add 256 t exit_data_window; ok (not (ltb msg.timestamp due)))
    else ok false

unfoldable pub status_of : ProvenCheckpoint → ℕ → EpochStatus
status_of c epoch = c.epoch_status epoch
