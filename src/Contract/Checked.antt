-- ===== src/Contract/Checked.antt =====
-- What a settlement or an exit that does not revert has checked, and the storage that it leaves.
use ivc_checkpoints.Prelude.{
  ℕ, ◌+◌, ◌^◌, ◌≤◌, ◌<◌, ◌≡◌, sym, ap, ◌∙◌, ◌≢◌, Bool, true, false, not, List, [], ◌∷◌, arith, ltb,
  refl, ltb→lt, lt→ltb, ◌==◌, ==_iff, inl, inr, Bool-cases, length, get_elem?, write,
}
use ivc_checkpoints.Prelude.Bytes.{of_be_bytes}
use ivc_checkpoints.Prelude.Results.{ok, ok-injective, expect-ok, >>=-ok, assert-ok}
use ivc_checkpoints.Hashes.{Hashes}
use ivc_checkpoints.Poseidon.Codegen.{PoseidonT5, hash4}
use ivc_checkpoints.Contract.{
  ProvenCheckpoint, is_proven, proven, unproven, Message, Evm, prover_timeout, catchup_epochs,
  checked_add, field_key,
}
use ivc_checkpoints.Contract.Settle.{
  Settlement, Proof, take, drop, digest_proven, digest_unproven, auth, credit_all, withdrawals_acc,
  accepts, settle_epoch_proven, settle_epoch,
}
use ivc_checkpoints.Contract.Escape.{nullifier, climb, exit}

pub checked_add-ok : (w a b : ℕ) {r : ℕ} → checked_add w a b ≡ ok r → (r ≡ a + b) × (a + b < 2 ^ w)
unfolding checked_add
checked_add-ok w a b h = elim (Bool-cases (ltb (a + b) (2 ^ w))) [
  | inl e ↦ (ground arith, ltb→lt (a + b) (2 ^ w) e)
  | inr e ↦ absurd (ground arith)
]

pub checked_add-fits : (w a b : ℕ) → a + b < 2 ^ w → checked_add w a b ≡ ok (a + b)
unfolding checked_add
checked_add-fits w a b h = rw (lt→ltb (a + b) (2 ^ w) h) refl

pub not-true : (b : Bool) → not b ≡ true → b ≡ false
not-true b h = ground arith

pub ==-false : (a b : ℕ) → not (a == b) ≡ true → a ≢ b
==-false a b h = λ e. ground (arith, h, e)

pub not-ltb : (a b : ℕ) → not (ltb a b) ≡ true → b ≤ a
not-ltb a b h = ground arith

module _ (H : Hashes) (E : Evm) where
  -- A signature of the organisation on the digest, with the current nonce.
  pub record IsAuthorized (c : ProvenCheckpoint) (token_id nonce : ℕ) (digest sig : List ℕ)
      (a : ProvenCheckpoint) : Type 0 where
    pub v : ℕ
    pub current : nonce ≡ c.org_nonce token_id
    pub room : nonce + 1 < 2 ^ 32
    pub signed :
        E.ecrecover digest v (of_be_bytes (take 32 sig)) (of_be_bytes (take 32 (drop 32 sig)))
        ≡ c.org_of token_id
    pub after : a ≡ record c { org_nonce = write c.org_nonce token_id (nonce + 1) }

  auth-IsAuthorized :
      (c : ProvenCheckpoint) (token_id nonce : ℕ) (digest sig : List ℕ) (a : ProvenCheckpoint)
      → auth H E c token_id nonce digest sig ≡ ok a
      → IsAuthorized c token_id nonce digest sig a
  unfolding auth
  auth-IsAuthorized c token_id nonce digest sig a h =
      let (e₁, h₁) = assert-ok _ _ _ h in
      let (next, e₂, h₂) = >>=-ok (checked_add 32 nonce 1) _ h₁ in
      let (v, _, h₃) = expect-ok (get_elem? sig 64) _ _ h₂ in
      let (e₄, h₄) = assert-ok _ _ _ h₃ in
      let (e₅, small) = checked_add-ok 32 nonce 1 e₂ in
      record {
        v = v;
        current = (==_iff _ _).0 e₁;
        room = small;
        signed = (==_iff _ _).0 e₄;
        after =
            sym (ok-injective h₄)
            ∙ ap (λ n. record c { org_nonce = write c.org_nonce token_id n }) e₅;
      }

  module _ (lib : PoseidonT5) where
    pub record IsProvenBy (c : ProvenCheckpoint) (s : Settlement) (p : Proof) (t : ProvenCheckpoint)
        : Type 0 where
      pub a : ProvenCheckpoint
      pub bal : ℕ → ℕ
      pub lengths : length s.tos ≡ length s.amounts
      pub fresh : is_proven (c.epoch_status s.epoch) ≡ false
      pub authorized : IsAuthorized c s.token_id s.nonce (digest_proven H E s p) s.sig a
      pub nets : withdrawals_acc H lib s.token_id s.tos s.amounts 0 ≡ p.nets_acc
      pub accepted :
          accepts (
            E.verify a.nova_decider p.steps
              (a.last_proven_root ∷ 0 ∷ 0 ∷ [])
              (p.new_state_root ∷ p.ops_acc ∷ p.nets_acc ∷ [])
              p.words)
          ≡ true
      pub credited : credit_all s.tos s.amounts (a.balance_of s.token_id) ≡ ok bal
      pub after : t ≡ record a {
        transfers_root = write a.transfers_root s.epoch s.transfers_root;
        state_root = write a.state_root s.epoch p.new_state_root;
        epoch_status = write a.epoch_status s.epoch proven;
        last_proven_root = p.new_state_root;
        last_proven_epoch = s.epoch;
        unproven_streak = 0;
        balance_of = write a.balance_of s.token_id bal;
      }

    pub settle_epoch_proven-IsProvenBy :
        (c : ProvenCheckpoint) (s : Settlement) (p : Proof) (t : ProvenCheckpoint)
        → settle_epoch_proven H lib E c s p ≡ ok t
        → IsProvenBy c s p t
    unfolding settle_epoch_proven
    settle_epoch_proven-IsProvenBy c s p t h =
        let (e₁, h₁) = assert-ok _ _ _ h in
        let (e₂, h₂) = assert-ok _ _ _ h₁ in
        let (e₃, h₃) = assert-ok _ _ _ h₂ in
        let (a, e₄, h₄) =
          >>=-ok (auth H E c s.token_id s.nonce (digest_proven H E s p) s.sig) _ h₃ in
        let (e₅, h₅) = assert-ok _ _ _ h₄ in
        let (e₆, h₆) = assert-ok _ _ _ h₅ in
        let (bal, e₇, h₇) = >>=-ok (credit_all s.tos s.amounts (a.balance_of s.token_id)) _ h₆ in
        record {
          a = a;
          bal = bal;
          lengths = (==_iff _ _).0 e₁;
          fresh = not-true _ e₃;
          authorized = auth-IsAuthorized c s.token_id s.nonce (digest_proven H E s p) s.sig a e₄;
          nets = (==_iff _ _).0 e₅;
          accepted = e₆;
          credited = e₇;
          after = sym (ok-injective h₇);
        }

    pub record IsUnprovenBy (c : ProvenCheckpoint) (msg : Message) (s : Settlement)
        (t : ProvenCheckpoint) : Type 0 where
      pub a : ProvenCheckpoint
      pub bal : ℕ → ℕ
      pub fresh : is_proven (c.epoch_status s.epoch) ≡ false
      pub closed : c.epoch_closed_at s.epoch ≢ 0
      pub elapsed : c.epoch_closed_at s.epoch + prover_timeout ≤ msg.timestamp
      pub streak_le : c.unproven_streak + 1 ≤ catchup_epochs
      pub authorized : IsAuthorized c s.token_id s.nonce (digest_unproven H E s) s.sig a
      pub credited : credit_all s.tos s.amounts (a.balance_of s.token_id) ≡ ok bal
      pub after : t ≡ record a {
        transfers_root = write a.transfers_root s.epoch s.transfers_root;
        epoch_status = write a.epoch_status s.epoch unproven;
        unproven_streak = c.unproven_streak + 1;
        balance_of = write a.balance_of s.token_id bal;
      }

    pub settle_epoch-IsUnprovenBy :
        (c : ProvenCheckpoint) (msg : Message) (s : Settlement) (t : ProvenCheckpoint)
        → settle_epoch H lib E c msg s ≡ ok t
        → IsUnprovenBy c msg s t
    unfolding settle_epoch
    settle_epoch-IsUnprovenBy c msg s t h =
        let (e₁, h₁) = assert-ok (length s.tos == length s.amounts) _ _ h in
        let (e₂, h₂) = assert-ok _ _ _ h₁ in
        let (e₃, h₃) = assert-ok _ _ _ h₂ in
        let (due, e₄, h₄) =
          >>=-ok (checked_add 256 (c.epoch_closed_at s.epoch) prover_timeout) _ h₃ in
        let (e₅, h₅) = assert-ok _ _ _ h₄ in
        let (streak, e₆, h₆) = >>=-ok (checked_add 256 c.unproven_streak 1) _ h₅ in
        let (e₇, h₇) = assert-ok _ _ _ h₆ in
        let (a, e₈, h₈) =
          >>=-ok (auth H E c s.token_id s.nonce (digest_unproven H E s) s.sig) _ h₇ in
        let (bal, e₉, h₉) = >>=-ok (credit_all s.tos s.amounts (a.balance_of s.token_id)) _ h₈ in
        let (due_lem, _) = checked_add-ok 256 (c.epoch_closed_at s.epoch) prover_timeout e₄ in
        let (streak_lem, _) = checked_add-ok 256 c.unproven_streak 1 e₆ in
        let late : due ≤ msg.timestamp = not-ltb msg.timestamp due e₅ in
        let few : streak ≤ catchup_epochs = not-ltb catchup_epochs streak e₇ in
        record {
          a = a;
          bal = bal;
          fresh = not-true _ e₂;
          closed = ==-false _ _ e₃;
          elapsed = omega (arith, due_lem, late);
          streak_le = omega (arith, streak_lem, few);
          authorized = auth-IsAuthorized c s.token_id s.nonce (digest_unproven H E s) s.sig a e₈;
          credited = e₉;
          after =
              sym (ok-injective h₉)
              ∙ ap
                  (λ n. record a {
                    transfers_root = write a.transfers_root s.epoch s.transfers_root;
                    epoch_status = write a.epoch_status s.epoch unproven;
                    unproven_streak = n;
                    balance_of = write a.balance_of s.token_id bal;
                  })
                  streak_lem;
        }

module _ (H : Hashes) (lib : PoseidonT5) where
  pub record IsExitBy (c : ProvenCheckpoint) (msg : Message) (token_id balance nonce : ℕ)
      (siblings : List ℕ) (is_right : List Bool) (t : ProvenCheckpoint) : Type 0 where
    pub opened :
        climb H lib siblings is_right
          (hash4 lib (field_key H msg.sender token_id) token_id balance nonce)
        ≡ c.last_proven_root
    pub first : c.exited (nullifier H token_id (field_key H msg.sender token_id)) ≡ false
    pub after : t ≡ record c {
      exited = write c.exited (nullifier H token_id (field_key H msg.sender token_id)) true;
      balance_of =
          write c.balance_of token_id
            (write (c.balance_of token_id) msg.sender (c.balance_of token_id msg.sender + balance));
    }

  pub exit-IsExitBy :
      (c : ProvenCheckpoint) (msg : Message) (token_id balance nonce : ℕ) (siblings : List ℕ)
      (is_right : List Bool) (t : ProvenCheckpoint)
      → exit H lib c msg token_id balance nonce siblings is_right ≡ ok t
      → IsExitBy c msg token_id balance nonce siblings is_right t
  unfolding exit
  exit-IsExitBy c msg token_id balance nonce siblings is_right t h =
      let key = field_key H msg.sender token_id in
      let nk = nullifier H token_id key in
      let node = climb H lib siblings is_right (hash4 lib key token_id balance nonce) in
      let (e₁, h₁) = assert-ok (node == c.last_proven_root) _ _ h in
      let (e₂, h₂) = assert-ok (not (c.exited nk)) _ _ h₁ in
      let (sum, e₃, h₃) =
        >>=-ok (checked_add 256 (c.balance_of token_id msg.sender) balance) _ h₂ in
      record {
        opened = (==_iff _ _).0 e₁;
        first = not-true _ e₂;
        after =
            sym (ok-injective h₃)
            ∙ ap
                (λ n. record c {
                  exited = write c.exited nk true;
                  balance_of =
                      write c.balance_of token_id (write (c.balance_of token_id) msg.sender n);
                })
                (checked_add-ok 256 (c.balance_of token_id msg.sender) balance e₃).0;
      }
