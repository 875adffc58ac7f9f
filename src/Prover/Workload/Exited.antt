-- ===== src/Prover/Workload/Exited.antt =====
-- The exit witness of a workload in `exit` of contracts/src/ProvenCheckpoint.sol.
use native.Mathlib.Nat.{mod-eq_of_lt}
use ivc_checkpoints.Prelude.Bytes.{of_be_bytes}
use ivc_checkpoints.Prelude.Bytes.Spelled.{AllBytes-zeros}
use ivc_checkpoints.Prelude.Results.{ok, assert-then, >>=-then}
use ivc_checkpoints.Prelude.{
  ℕ, zero, suc, ◌+◌, ◌/◌, ◌%◌, ◌^◌, ◌<◌, ◌≡◌, refl, sym, ap, ap₂, ◌∙◌, Bool, true, false, not, List,
  [], ◌∷◌, map, some, arith, ==_iff, ==_refl, if◌then◌else◌, get_elem?, get_or, range_from, write,
}
use ivc_checkpoints.Field.{Arkworks, IsField, of_int}
use ivc_checkpoints.Poseidon.{h2, h4}
use ivc_checkpoints.Poseidon.Codegen.{PoseidonConfig, PoseidonT5, hash2, hash4}
use ivc_checkpoints.Poseidon.Reference.{IsShaped}
use ivc_checkpoints.Poseidon.Agreement.{IsPoseidon, hash2-h2, hash4-h4}
use ivc_checkpoints.Imt.{root_from_leaf}
use ivc_checkpoints.Hashes.{Hashes, IsReduction}
use ivc_checkpoints.Contract
use ivc_checkpoints.Contract.{ProvenCheckpoint, Message, checked_add}
use ivc_checkpoints.Contract.Checked.{checked_add-fits}
use ivc_checkpoints.Contract.Escape.{nullifier, climb, exit}
use ivc_checkpoints.Prover.Workload.{
  WorkloadSpec, Workload, total_ops, build, token, field_key, account_addr, account_keys,
  epoch_token,
}
use ivc_checkpoints.Native.Canonical.{AllBelow, h2-lt, h4-lt}
use ivc_checkpoints.Prover.Workload.Canonical.{exit_siblings-AllBelow}
use ivc_checkpoints.Prover.Workload.Proven.{build-IsBuilt}
use ivc_checkpoints.Prover.Workload.Settled.{build-exit}
use ivc_checkpoints.Prover.Workload.Paid.{IsAddress, field_key-reduced}

account_addr-IsAddress : (i : ℕ) → IsAddress (account_addr i)
unfolding account_addr
account_addr-IsAddress i = (
  refl,
  (
    omega arith,
    AllBytes-zeros 17 ((i / 256) % 256 ∷ i % 256 ∷ []) (omega arith, (omega arith, tt)),
  ),
)

first_key : (f : ℕ → ℕ) (n key : ℕ) → get_elem? (map f (range_from 0 n)) 0 ≡ some key → key ≡ f 0
first_key f zero key h = absurd (ground arith)
first_key f (suc n) key h = cc

module _ (H : Hashes) (F : Arkworks) (reduction : IsReduction F H)
    (bn254 : F.modulus ≡ Contract.bn254_fr) (B D : ℕ) (field : IsField F) (cfg : PoseidonConfig)
    (lib : PoseidonT5) (printed : IsShaped cfg lib) (modulus : lib.modulus ≡ F.modulus)
    (poseidon : IsPoseidon F cfg) where
  hash2-canonical : (a b : ℕ) → a < F.modulus → b < F.modulus → hash2 lib a b ≡ h2 F a b
  hash2-canonical a b a_lt b_lt =
      hash2-h2 F field cfg lib printed modulus poseidon a b
      ∙ ap₂ (h2 F) (mod-eq_of_lt a_lt) (mod-eq_of_lt b_lt)

  -- The contract's climb is that of the native mirror.
  climb-root_from_leaf :
      (siblings : List ℕ) (bits : List Bool) (x : ℕ)
      → AllBelow F.modulus siblings
      → x < F.modulus
      → climb H lib siblings bits x ≡ root_from_leaf F x siblings bits
  unfolding climb root_from_leaf
  climb-root_from_leaf [] bits x all lt = refl
  climb-root_from_leaf (s ∷ siblings) [] x all lt = refl
  climb-root_from_leaf (s ∷ siblings) (true ∷ bits) x all lt =
      ap (climb H lib siblings bits) (hash2-canonical s x all.0 lt)
      ∙ climb-root_from_leaf siblings bits (h2 F s x) all.1 (h2-lt F field s x)
  climb-root_from_leaf (s ∷ siblings) (false ∷ bits) x all lt =
      ap (climb H lib siblings bits) (hash2-canonical x s lt all.0)
      ∙ climb-root_from_leaf siblings bits (h2 F x s) all.1 (h2-lt F field x s)

  module _ (small : 2 ^ D < 2 ^ 64) (spec : WorkloadSpec) (epoch : ℕ) (w : Workload)
      (loads : spec.loads < 2 ^ 64) (ops : total_ops spec < 2 ^ 64)
      (h : build H F B D spec epoch ≡ ok w) where
    owner_key :
        Contract.field_key H (of_be_bytes w.exit.owner) w.exit.token_id % F.modulus ≡ w.exit.key
    unfolding account_keys
    owner_key =
        let b = build-IsBuilt H F B D field small spec epoch w loads ops h in
        ap₂ (λ a t. Contract.field_key H (of_be_bytes a) t % F.modulus) b.made.owner.0
          b.made.owner.1
        ∙ field_key-reduced H F reduction bn254 (account_addr 0) epoch_token
            (account_addr-IsAddress 0)
        ∙ sym (
            first_key (λ i. field_key H (account_addr i) epoch_token) spec.n_accounts w.exit.key
              b.made.account)

    exit_leaf :
        hash4 lib
          (Contract.field_key H (of_be_bytes w.exit.owner) w.exit.token_id)
          w.exit.token_id
          w.exit.balance
          w.exit.nonce
        ≡ h4 F w.exit.key (token H F B D) (of_int F w.exit.balance) (of_int F w.exit.nonce)
    unfolding of_int
    exit_leaf =
        let b = build-IsBuilt H F B D field small spec epoch w loads ops h in
        hash4-h4 F field cfg lib printed modulus poseidon
          (Contract.field_key H (of_be_bytes w.exit.owner) w.exit.token_id) w.exit.token_id
          w.exit.balance w.exit.nonce
        ∙ ap₂
            (λ k t. h4 F k (t % F.modulus) (w.exit.balance % F.modulus) (w.exit.nonce % F.modulus))
            owner_key b.made.owner.1

    exit_root :
        climb H lib w.exit.siblings w.exit.is_right (
          hash4 lib
            (Contract.field_key H (of_be_bytes w.exit.owner) w.exit.token_id)
            w.exit.token_id
            w.exit.balance
            w.exit.nonce)
        ≡ get_or w.native_zn 0 0
    exit_root =
        ap (climb H lib w.exit.siblings w.exit.is_right) exit_leaf
        ∙ climb-root_from_leaf w.exit.siblings w.exit.is_right
            (h4 F w.exit.key (token H F B D) (of_int F w.exit.balance) (of_int F w.exit.nonce))
            (exit_siblings-AllBelow H F B D field small spec epoch w loads ops h)
            (h4-lt F field _ _ _ _)
        ∙ build-exit H F B D field small spec epoch w loads ops h

    -- The exit witness of a workload that builds, with 64-bit sizes: its owner, who has not left
    -- before and whose payouts do not overflow, leaves with it from a storage whose last proven
    -- root is the workload's final root, and is paid its balance.
    pub build-exits :
        (c : ProvenCheckpoint) (msg : Message)
        → msg.sender ≡ of_be_bytes w.exit.owner
        → c.last_proven_root ≡ get_or w.native_zn 0 0
        → c.exited (nullifier H w.exit.token_id (Contract.field_key H msg.sender w.exit.token_id))
          ≡ false
        → c.balance_of w.exit.token_id msg.sender + w.exit.balance < 2 ^ 256
        → (t : ProvenCheckpoint) × (exit H lib c msg w.exit.token_id w.exit.balance w.exit.nonce
              w.exit.siblings w.exit.is_right
            ≡ ok t)
          × (t.balance_of w.exit.token_id msg.sender
              ≡ c.balance_of w.exit.token_id msg.sender + w.exit.balance)
    unfolding exit
    build-exits c msg sender proven fresh room =
        let tok = w.exit.token_id in
        let key = Contract.field_key H msg.sender tok in
        let nk = nullifier H tok key in
        let sum = c.balance_of tok msg.sender + w.exit.balance in
        let opened =
          ap
            (λ a.
              climb H lib w.exit.siblings w.exit.is_right
                (hash4 lib (Contract.field_key H a tok) tok w.exit.balance w.exit.nonce))
            sender
          ∙ exit_root
          ∙ sym proven in
        (
          record c {
            exited = write c.exited nk true;
            balance_of = write c.balance_of tok (write (c.balance_of tok) msg.sender sum);
          },
          assert-then _ _ _ ((==_iff _ _).1 opened) (
              assert-then (not (c.exited nk)) _ _ (ap not fresh) (
                >>=-then (checked_add 256 (c.balance_of tok msg.sender) w.exit.balance) _
                  (checked_add-fits 256 (c.balance_of tok msg.sender) w.exit.balance room) refl)),
          ap
                (λ b.
                  (if b then write (c.balance_of tok) msg.sender sum else c.balance_of tok)
                    msg.sender)
                (==_refl tok)
              ∙ ap (λ b. if b then sum else c.balance_of tok msg.sender) (==_refl msg.sender),
        )
