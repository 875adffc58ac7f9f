-- ===== src/Contract/Settle.antt =====
-- contracts/src/ProvenCheckpoint.sol: the proven and the unproven settlement.
use ivc_checkpoints.Prelude.{
  ℕ, zero, suc, Bool, false, List, [], ◌∷◌, ◌++◌, Option, none, some, ltb, not, ◌==◌, length,
  get_elem?, write,
}
use ivc_checkpoints.Prelude.Bytes.{to_be_bytes, of_be_bytes}
use ivc_checkpoints.Prelude.Results.{Result, panic, ok, ◌>>=◌, ◌>>◌, expect, assert}
use ivc_checkpoints.Hashes.{Hashes}
use ivc_checkpoints.Poseidon.Codegen.{PoseidonT5, fold_net}
use ivc_checkpoints.Contract.{
  ProvenCheckpoint, proven, unproven, is_proven, Revert, bad_auth, bad_nonce, decider_unset,
  nets_acc_mismatch, proof_rejected, timeout_not_elapsed, catchup_exceeded, length_mismatch,
  already_proven, bad_calldata, Message, Evm, prover_timeout, catchup_epochs, checked_add,
  field_key,
}

-- The calldata that both settlements take.
pub record Settlement : Type 0 where
  pub epoch : ℕ
  pub transfers_root : ℕ
  pub token_id : ℕ
  pub tos : List ℕ
  pub amounts : List ℕ
  pub nonce : ℕ
  pub sig : List ℕ

-- What only the proven one takes: `zi`, the steps and the words of the proof.
pub record Proof : Type 0 where
  pub new_state_root : ℕ
  pub ops_acc : ℕ
  pub nets_acc : ℕ
  pub steps : ℕ
  pub words : List ℕ

abbrev pub tag_settle_v : ℕ
tag_settle_v = 40

abbrev pub tag_settle : ℕ
tag_settle = 30

abbrev pub take : ℕ → List ℕ → List ℕ
take zero bs = []
take (suc n) [] = []
take (suc n) (b ∷ bs) = b ∷ take n bs

abbrev pub drop : ℕ → List ℕ → List ℕ
drop zero bs = bs
drop (suc n) [] = []
drop (suc n) (b ∷ bs) = drop n bs

-- The packed elements of an array, 32 bytes each.
unfoldable pub packed : List ℕ → List ℕ
packed [] = []
packed (word ∷ words) = to_be_bytes 32 word ++ packed words

module _ (H : Hashes) (E : Evm) where
  unfoldable pub digest_proven : Settlement → Proof → List ℕ
  digest_proven s p = H.keccak256 (
      to_be_bytes 32 E.chainid
      ++ (to_be_bytes 20 E.self
          ++ (to_be_bytes 1 tag_settle_v
              ++ (to_be_bytes 32 s.epoch
                  ++ (to_be_bytes 32 s.transfers_root
                      ++ (to_be_bytes 32 p.new_state_root
                          ++ (to_be_bytes 32 p.ops_acc
                              ++ (to_be_bytes 32 p.nets_acc
                                  ++ (to_be_bytes 4 s.token_id
                                      ++ (H.keccak256 (packed s.tos)
                                          ++ (H.keccak256 (packed s.amounts)
                                              ++ (to_be_bytes 32 p.steps
                                                  ++ to_be_bytes 4 s.nonce))))))))))))

  unfoldable pub digest_unproven : Settlement → List ℕ
  digest_unproven s = H.keccak256 (
      to_be_bytes 32 E.chainid
      ++ (to_be_bytes 20 E.self
          ++ (to_be_bytes 1 tag_settle
              ++ (to_be_bytes 32 s.epoch
                  ++ (to_be_bytes 32 s.transfers_root
                      ++ (to_be_bytes 4 s.token_id
                          ++ (H.keccak256 (packed s.tos)
                              ++ (H.keccak256 (packed s.amounts) ++ to_be_bytes 4 s.nonce))))))))

  -- The slices of the signature are out of range if it has fewer than 65 bytes.
  unfoldable pub auth : ProvenCheckpoint → ℕ → ℕ → List ℕ → List ℕ → Result Revert ProvenCheckpoint
  auth c token_id nonce digest sig = do
    assert (nonce == c.org_nonce token_id) bad_nonce
    next ← checked_add 32 nonce 1
    v ← expect (get_elem? sig 64) bad_calldata
    let r = of_be_bytes (take 32 sig)
    let s = of_be_bytes (take 32 (drop 32 sig))
    assert (E.ecrecover digest v r s == c.org_of token_id) bad_auth
    ok (record c { org_nonce = write c.org_nonce token_id next })

-- The loop `bal[tos[i]] += amounts[i]`.
unfoldable pub credit_all : List ℕ → List ℕ → (ℕ → ℕ) → Result Revert (ℕ → ℕ)
credit_all [] amounts bal = ok bal
credit_all (to ∷ tos) [] bal = panic bad_calldata
credit_all (to ∷ tos) (amount ∷ amounts) bal = do
  sum ← checked_add 256 (bal to) amount
  credit_all tos amounts (write bal to sum)

module _ (H : Hashes) (lib : PoseidonT5) where
  -- The loop that recomputes the accumulator.
  unfoldable pub withdrawals_acc : ℕ → List ℕ → List ℕ → ℕ → ℕ
  withdrawals_acc token_id [] amounts acc = acc
  withdrawals_acc token_id (to ∷ tos) [] acc = acc
  withdrawals_acc token_id (to ∷ tos) (amount ∷ amounts) acc =
      withdrawals_acc token_id tos amounts
        (fold_net lib acc (field_key H to token_id) token_id amount)

-- `verifyOpaqueNovaProofWithInputs` under `try`: a revert of the verifier is a rejection.
abbrev pub accepts : Option Bool → Bool
accepts none = false
accepts (some answer) = answer

module _ (H : Hashes) (lib : PoseidonT5) (E : Evm) where
  unfoldable pub settle_epoch_proven :
      ProvenCheckpoint → Settlement → Proof → Result Revert ProvenCheckpoint
  settle_epoch_proven c s p = do
    assert (length s.tos == length s.amounts) length_mismatch
    assert (not (c.nova_decider == 0)) decider_unset
    assert (not (is_proven (c.epoch_status s.epoch))) already_proven
    c' ← auth H E c s.token_id s.nonce (digest_proven H E s p) s.sig
    assert (withdrawals_acc H lib s.token_id s.tos s.amounts 0 == p.nets_acc) nets_acc_mismatch
    assert
        (accepts (
          E.verify c'.nova_decider p.steps (c'.last_proven_root ∷ 0 ∷ 0 ∷ [])
            (p.new_state_root ∷ p.ops_acc ∷ p.nets_acc ∷ []) p.words))
        proof_rejected
    bal ← credit_all s.tos s.amounts (c'.balance_of s.token_id)
    ok (record c' {
      transfers_root = write c'.transfers_root s.epoch s.transfers_root;
      state_root = write c'.state_root s.epoch p.new_state_root;
      epoch_status = write c'.epoch_status s.epoch proven;
      last_proven_root = p.new_state_root;
      last_proven_epoch = s.epoch;
      unproven_streak = 0;
      balance_of = write c'.balance_of s.token_id bal;
    })

  unfoldable pub settle_epoch :
      ProvenCheckpoint → Message → Settlement → Result Revert ProvenCheckpoint
  settle_epoch c msg s = do
    assert (length s.tos == length s.amounts) length_mismatch
    assert (not (is_proven (c.epoch_status s.epoch))) already_proven
    let closed_at = c.epoch_closed_at s.epoch
    assert (not (closed_at == 0)) timeout_not_elapsed
    due ← checked_add 256 closed_at prover_timeout
    assert (not (ltb msg.timestamp due)) timeout_not_elapsed
    streak ← checked_add 256 c.unproven_streak 1
    assert (not (ltb catchup_epochs streak)) catchup_exceeded
    c' ← auth H E c s.token_id s.nonce (digest_unproven H E s) s.sig
    bal ← credit_all s.tos s.amounts (c'.balance_of s.token_id)
    ok (record c' {
      transfers_root = write c'.transfers_root s.epoch s.transfers_root;
      epoch_status = write c'.epoch_status s.epoch unproven;
      unproven_streak = streak;
      balance_of = write c'.balance_of s.token_id bal;
    })
