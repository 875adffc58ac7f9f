-- ===== src/Prover/Workload/Paid.antt =====
-- The payouts of a workload as contracts/src/ProvenCheckpoint.sol recomputes them: `_fieldKey` of
-- the addresses, and `foldNet` of the printed library.
use native.Mathlib.Nat.{mod-mod, mod-eq_of_lt}
use ivc_checkpoints.Prelude.Results.{>>=-ok, expect-ok, ok, ok-injective}
use ivc_checkpoints.Prelude.Bytes.{to_be_bytes, of_be_bytes}
use ivc_checkpoints.Prelude.Bytes.Spelled.{AllBytes, AllBytes-zeros, to_be_bytes-of_be_bytes}
use ivc_checkpoints.Prelude.{
  ℕ, zero, suc, ◌+◌, ◌/◌, ◌%◌, ◌^◌, ◌<◌, ◌≡◌, refl, sym, ap, ap₂, ◌∙◌, subst, List, [], ◌∷◌, ◌++◌,
  map, some, arith, length, get_elem?, get_or, range_from,
}
use ivc_checkpoints.Field.{Arkworks, IsField, of_int}
use ivc_checkpoints.Poseidon.{h4}
use ivc_checkpoints.Poseidon.Codegen.{PoseidonConfig, PoseidonT5, fold_net}
use ivc_checkpoints.Poseidon.Reference.{IsShaped}
use ivc_checkpoints.Poseidon.Agreement.{IsPoseidon, positive, fold_net-h4}
use ivc_checkpoints.Hashes.{Hashes, IsReduction}
use ivc_checkpoints.Contract
use ivc_checkpoints.Contract.Settle.{withdrawals_acc}
use ivc_checkpoints.Native.Nets.{fold_nets}
use ivc_checkpoints.Prover.Workload.{
  WorkloadSpec, Workload, total_ops, build, token, NetEntry, field_key, payee_addr, epoch_token,
  position, net_entries, payee_keys,
}
use ivc_checkpoints.Prover.Workload.Proven.{build-IsBuilt}
use ivc_checkpoints.Prover.Workload.Settled.{entry_net, build-nets}

-- The 20 bytes of an address.
abbrev pub IsAddress : List ℕ → Type 0
IsAddress addr = (length addr ≡ 20) × AllBytes addr

abbrev pub AllAddresses : List NetEntry → Type 0
AllAddresses [] = Unit {0}
AllAddresses (e ∷ es) = IsAddress e.addr × AllAddresses es

payee_addr-IsAddress : (r : ℕ) → IsAddress (payee_addr r)
unfolding payee_addr
payee_addr-IsAddress r = (
  refl,
  AllBytes-zeros 18 ((r / 256) % 256 ∷ (r % 256 + 1) % 256 ∷ []) (omega arith, (omega arith, tt)),
)

get_elem-IsAddress :
    (is : List ℕ) (i : ℕ) (a : List ℕ) → get_elem? (map payee_addr is) i ≡ some a → IsAddress a
get_elem-IsAddress [] i a h = absurd (ground arith)
get_elem-IsAddress (j ∷ is) zero a h =
    let same : payee_addr j ≡ a = cc h in subst IsAddress same (payee_addr-IsAddress j)
get_elem-IsAddress (j ∷ is) (suc i) a h = get_elem-IsAddress is i a h

net_entries-AllAddresses :
    (is keys : List ℕ) (nets : List (ℕ × ℕ × ℕ)) (es : List NetEntry)
    → net_entries (map payee_addr is) keys nets ≡ ok es
    → AllAddresses es
unfolding net_entries
net_entries-AllAddresses is keys [] es h = subst AllAddresses (ok-injective h) tt
net_entries-AllAddresses is keys ((key, t, amount) ∷ nets) es h =
    let (idx, _, h₁) = expect-ok (position keys key) _ _ h in
    let (a, e, h₂) = expect-ok (get_elem? (map payee_addr is) idx) _ _ h₁ in
    let (rest, e', h₃) = >>=-ok (net_entries (map payee_addr is) keys nets) _ h₂ in
    subst AllAddresses (ok-injective h₃)
      (get_elem-IsAddress is idx a e, net_entries-AllAddresses is keys nets rest e')

-- An entry's address as the contract's word.
abbrev pub to_word : NetEntry → ℕ
to_word e = of_be_bytes e.addr

abbrev pub to_amount : NetEntry → ℕ
to_amount e = e.amount

module _ (H : Hashes) (F : Arkworks) (reduction : IsReduction F H)
    (bn254 : F.modulus ≡ Contract.bn254_fr) where
  -- The contract's key of an address, 20 bytes as a word, and a token is the prover's.
  field_key-field_key :
      (addr : List ℕ) (token_id : ℕ)
      → IsAddress addr
      → Contract.field_key H (of_be_bytes addr) token_id ≡ field_key H addr token_id
  unfolding field_key Contract.field_key
  field_key-field_key addr token_id (len, bytes) =
      let spelled : to_be_bytes 20 (of_be_bytes addr) ≡ addr =
        ap (λ n. to_be_bytes n (of_be_bytes addr)) (sym len) ∙ to_be_bytes-of_be_bytes addr bytes in
      ap (λ bs. of_be_bytes (H.keccak256 (bs ++ to_be_bytes 4 token_id)) % Contract.bn254_fr)
        spelled
      ∙ ap (λ p. of_be_bytes (H.keccak256 (addr ++ to_be_bytes 4 token_id)) % p) (sym bn254)
      ∙ sym (reduction.reduces (H.keccak256 (addr ++ to_be_bytes 4 token_id)))

  pub field_key-reduced :
      (addr : List ℕ) (token_id : ℕ)
      → IsAddress addr
      → Contract.field_key H (of_be_bytes addr) token_id % F.modulus ≡ field_key H addr token_id
  unfolding field_key
  field_key-reduced addr token_id a =
      let bytes = H.keccak256 (addr ++ to_be_bytes 4 token_id) in
      ap (λ k. k % F.modulus) (field_key-field_key addr token_id a)
      ∙ ap (λ k. k % F.modulus) (reduction.reduces bytes)
      ∙ mod-mod (of_be_bytes bytes) F.modulus
      ∙ sym (reduction.reduces bytes)

  module _ (B D : ℕ) (field : IsField F) (cfg : PoseidonConfig) (lib : PoseidonT5)
      (printed : IsShaped cfg lib) (modulus : lib.modulus ≡ F.modulus)
      (poseidon : IsPoseidon F cfg) where
    withdrawals_acc-fold_nets :
        (es : List NetEntry) (acc : ℕ)
        → AllAddresses es
        → acc < F.modulus
        → withdrawals_acc H lib epoch_token (map to_word es) (map to_amount es) acc
          ≡ fold_nets F acc (map (entry_net H F B D (token H F B D)) es)
    unfolding withdrawals_acc
    withdrawals_acc-fold_nets [] acc all lt = refl
    withdrawals_acc-fold_nets (e ∷ es) acc all lt =
        let key = field_key H e.addr epoch_token in
        let step : fold_net lib acc (Contract.field_key H (to_word e) epoch_token) epoch_token
              e.amount
            ≡ h4 F acc key (token H F B D) (of_int F e.amount) =
          unfold of_int in
          (fold_net-h4 F field cfg lib printed modulus poseidon acc
              (Contract.field_key H (to_word e) epoch_token) epoch_token e.amount
            ∙ ap₂ (λ a k. h4 F a k (epoch_token % F.modulus) (e.amount % F.modulus))
                (mod-eq_of_lt lt) (field_key-reduced e.addr epoch_token all.0)) in
        ap (withdrawals_acc H lib epoch_token (map to_word es) (map to_amount es)) step
        ∙ withdrawals_acc-fold_nets es (h4 F acc key (token H F B D) (of_int F e.amount)) all.1
            (unfold h4 in field.evaluate_lt _)

    -- The addresses and the amounts of the nets of a workload that builds, with 64-bit sizes: the
    -- accumulator that the contract recomputes from them is the nets accumulator of the
    -- workload's final state.
    pub build-paid :
        (small : 2 ^ D < 2 ^ 64) (spec : WorkloadSpec) (epoch : ℕ) (w : Workload)
        → spec.loads < 2 ^ 64
        → total_ops spec < 2 ^ 64
        → build H F B D spec epoch ≡ ok w
        → withdrawals_acc H lib epoch_token (map to_word w.nets) (map to_amount w.nets) 0
          ≡ get_or w.native_zn 2 0
    build-paid small spec epoch w loads ops h =
        let b = build-IsBuilt H F B D field small spec epoch w loads ops h in
        withdrawals_acc-fold_nets w.nets 0
          (net_entries-AllAddresses (range_from 0 spec.n_payees) (payee_keys H F B D spec.n_payees)
            b.final.nets w.nets b.made.paid)
          (positive F field cfg lib printed modulus poseidon)
        ∙ build-nets H F B D field small spec epoch w loads ops h
