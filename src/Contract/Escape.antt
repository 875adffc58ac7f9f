-- ===== src/Contract/Escape.antt =====
-- contracts/src/ProvenCheckpoint.sol: the exit against the last proven root. The calldata types
-- fix the path's length to TREE_DEPTH and keep the balance and the nonce below 2 ^ 96 and 2 ^ 64.
use ivc_checkpoints.Prelude.{ℕ, Bool, true, not, List, [], ◌∷◌, ◌++◌, ◌==◌, if◌then◌else◌, write}
use ivc_checkpoints.Prelude.Bytes.{to_be_bytes, of_be_bytes}
use ivc_checkpoints.Prelude.Results.{Result, ok, ◌>>=◌, ◌>>◌, assert}
use ivc_checkpoints.Hashes.{Hashes}
use ivc_checkpoints.Poseidon.Codegen.{PoseidonT5, hash2, hash4}
use ivc_checkpoints.Contract.{
  ProvenCheckpoint, Revert, inclusion_failed, already_exited, Message, checked_add, field_key,
}

-- The key of the nullifier.
unfoldable pub nullifier : Hashes → ℕ → ℕ → ℕ
nullifier H token_id key = of_be_bytes (H.keccak256 (to_be_bytes 32 token_id ++ to_be_bytes 32 key))

module _ (H : Hashes) (lib : PoseidonT5) where
  -- The loop up the path.
  unfoldable pub climb : List ℕ → List Bool → ℕ → ℕ
  climb [] is_right node = node
  climb (sibling ∷ siblings) [] node = node
  climb (sibling ∷ siblings) (right ∷ is_right) node =
      climb siblings is_right (if right then hash2 lib sibling node else hash2 lib node sibling)

  unfoldable pub exit :
      ProvenCheckpoint → Message → ℕ → ℕ → ℕ → List ℕ → List Bool → Result Revert ProvenCheckpoint
  exit c msg token_id balance nonce siblings is_right = do
    let key = field_key H msg.sender token_id
    let node = climb siblings is_right (hash4 lib key token_id balance nonce)
    assert (node == c.last_proven_root) inclusion_failed
    let nk = nullifier H token_id key
    assert (not (c.exited nk)) already_exited
    sum ← checked_add 256 (c.balance_of token_id msg.sender) balance
    ok (record c {
      exited = write c.exited nk true;
      balance_of = write c.balance_of token_id (write (c.balance_of token_id) msg.sender sum);
    })
