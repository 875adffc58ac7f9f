-- ===== src/Prover/Workload.antt =====
-- crates/prover/src/workload.rs: the synthetic epoch that the prover and the benchmark fold, and
-- `field_key` of crates/prover/src/lib.rs. Bytes are numbers below 256.
pub mod Genesis
pub mod Requests
pub mod Proven
pub mod Settled
pub mod Paid
pub mod Canonical
pub mod Sized
pub mod Exited
pub mod Registered
pub mod Opened
pub mod Settling
pub mod Streamed
pub mod Phases
pub mod Completed
pub mod Assembled
pub mod Total
use ivc_checkpoints.Prelude.Results.{expect, ok, panic, ◌>>=◌}
use ivc_checkpoints.Prelude.{
  ℕ, zero, suc, ◌+◌, ◌-◌, ◌*◌, ◌/◌, ◌%◌, ◌^◌, Bool, List, [], ◌∷◌, ◌++◌, map, Option, none, some,
  ltb, ◌==◌, if◌then◌else◌, length, replicate, range_from, get_elem?,
}
use ivc_checkpoints.Field.{Arkworks, of_int}
use ivc_checkpoints.Ops.{OpWitness, EpochStepInput}
use ivc_checkpoints.Native.{
  EpochExecutor, Result, no_such_index, account_0_registered, known_payee_key, too_many_steps,
  register, Request, load_of, spend_of, withdraw_of, perform, run, state, initial_state,
  exit_witness,
}
use ivc_checkpoints.Native
use ivc_checkpoints.Prelude.Bytes.{to_be_bytes}
use ivc_checkpoints.Hashes.{Hashes}
use ivc_checkpoints.Prover.{chunk_into_batches}
use ivc_checkpoints.Prover

pub record WorkloadSpec : Type 0 where
  pub n_accounts : ℕ
  pub n_payees : ℕ
  pub loads : ℕ
  pub spends : ℕ
  pub pad_to_steps : Option ℕ

abbrev pub small : WorkloadSpec
small = record { n_accounts = 8; n_payees = 3; loads = 120; spends = 60; pad_to_steps = none }

abbrev pub large_daily : WorkloadSpec
large_daily = record {
  n_accounts = 9328;
  n_payees = 42;
  loads = 18240;
  spends = 24423;
  pad_to_steps = none;
}

abbrev pub total_ops : WorkloadSpec → ℕ
total_ops spec = spec.loads + spec.spends + spec.n_payees

abbrev pub with_pad_to_steps : WorkloadSpec → Option ℕ → WorkloadSpec
with_pad_to_steps spec steps = record spec { pad_to_steps = steps }

pub record NetEntry : Type 0 where
  pub addr : List ℕ
  pub key : ℕ
  pub amount : ℕ

pub record ExitWitness : Type 0 where
  pub owner : List ℕ
  pub token_id : ℕ
  pub key : ℕ
  pub balance : ℕ
  pub nonce : ℕ
  pub siblings : List ℕ
  pub is_right : List Bool

pub record Workload : Type 0 where
  pub token_id : ℕ
  pub z0 : List ℕ
  pub native_zn : List ℕ
  pub batches : List EpochStepInput
  pub nets : List NetEntry
  pub transfers_root : List ℕ
  pub op_count : ℕ
  pub exit : ExitWitness

unfoldable pub field_key : Hashes → List ℕ → ℕ → ℕ
field_key H addr token_id = H.from_be_bytes_mod_order (H.keccak256 (addr ++ to_be_bytes 4 token_id))

-- The bytes of "transfersRoot", then the epoch as a `u64`.
unfoldable pub transfers_root_for : Hashes → ℕ → List ℕ
transfers_root_for H epoch = H.keccak256 (
    (116 ∷ 114 ∷ 97 ∷ 110 ∷ 115 ∷ 102 ∷ 101 ∷ 114 ∷ 115 ∷ 82 ∷ 111 ∷ 111 ∷ 116 ∷ [])
    ++ to_be_bytes 8 epoch)

-- The addresses of account `i` and of payee `r`.
unfoldable pub account_addr : ℕ → List ℕ
account_addr i = 172 ∷ replicate 17 0 ++ ((i / 256) % 256 ∷ i % 256 ∷ [])

unfoldable pub payee_addr : ℕ → List ℕ
payee_addr r = replicate 18 0 ++ ((r / 256) % 256 ∷ (r % 256 + 1) % 256 ∷ [])

abbrev pub epoch_token : ℕ
epoch_token = 1

-- `n.max(1)`
abbrev pub at_least_one : ℕ → ℕ
at_least_one zero = 1
at_least_one (suc n) = suc n

-- `v[i]`
abbrev pub index {ℓ} : {A : Type ℓ} → List A → ℕ → Result A
index v i = expect (get_elem? v i) no_such_index

-- `v[i] += 1`
unfoldable pub increment : List ℕ → ℕ → Result (List ℕ)
increment [] i = panic no_such_index
increment (v ∷ vs) zero = ok ((v + 1) % 2 ^ 128 ∷ vs)
increment (v ∷ vs) (suc i) = do vs' ← increment vs i; ok (v ∷ vs')

-- The loop that counts the spends routed to each payee.
unfoldable pub count_nets : ℕ → List ℕ → List ℕ → Result (List ℕ)
count_nets n_payees [] net_amounts = ok net_amounts
count_nets n_payees (i ∷ is) net_amounts = do
  net_amounts' ← increment net_amounts (i % at_least_one n_payees)
  count_nets n_payees is net_amounts'

-- `keys.iter().position(|k| k == key)`
unfoldable pub position : List ℕ → ℕ → Option ℕ
position [] key = none
position (k ∷ ks) key =
    let rest = position ks key in
    if k == key then some 0 else elim rest [ none ↦ none | some i ↦ some (suc i) ]

-- The withdraws of the payees with a net, in payee order.
unfoldable pub withdrawals : ℕ → List ℕ → List ℕ → List Request
withdrawals token [] net_amounts = []
withdrawals token (key ∷ keys) [] = []
withdrawals token (key ∷ keys) (amount ∷ net_amounts) =
    let rest = withdrawals token keys net_amounts in
    if ltb 0 amount then withdraw_of key token amount ∷ rest else rest

-- The executor's payouts with the payees' addresses.
unfoldable pub net_entries : List (List ℕ) → List ℕ → List (ℕ × ℕ × ℕ) → Result (List NetEntry)
net_entries payee_addrs payee_keys [] = ok []
net_entries payee_addrs payee_keys ((key, _, amount) ∷ nets) = do
  idx ← expect (position payee_keys key) known_payee_key
  addr ← index payee_addrs idx
  rest ← net_entries payee_addrs payee_keys nets
  ok (record { addr = addr; key = key; amount = amount } ∷ rest)

module _ (H : Hashes) (F : Arkworks) (B D : ℕ) where
  abbrev pub token : ℕ
  token = of_int F epoch_token

  abbrev pub pool : ℕ
  pool = of_int F 7

  unfoldable pub account_keys : ℕ → List ℕ
  account_keys n = map (λ i. field_key H (account_addr i) epoch_token) (range_from 0 n)

  unfoldable pub payee_keys : ℕ → List ℕ
  payee_keys n = map (λ r. field_key H (payee_addr r) epoch_token) (range_from 0 n)

  unfoldable pub register_all : List ℕ → EpochExecutor → Result EpochExecutor
  register_all [] exec = ok exec
  register_all (key ∷ keys) exec = do
    exec' ← register F D exec key token 0 0
    register_all keys exec'

  -- Genesis: the sink, the funded pool, the accounts and the payees.
  unfoldable pub genesis : WorkloadSpec → Result EpochExecutor
  genesis spec = do
    exec₁ ← register F D (Native.new F D) (Native.new F D).sink_key token 0 0
    exec₂ ← register F D exec₁ pool token (((spec.loads + 1) * 1000) % 2 ^ 128) 0
    exec₃ ← register_all (account_keys spec.n_accounts) exec₂
    register_all (payee_keys spec.n_payees) exec₃

  -- A `for` loop that pushes the witness of one call in each round.
  unfoldable pub perform_each :
      (ℕ → Result Request) → List ℕ → EpochExecutor → Result (EpochExecutor × List OpWitness)
  perform_each next [] exec = ok (exec, [])
  perform_each next (i ∷ is) exec = do
    r ← next i
    (exec', op) ← perform F exec r
    (exec'', ops) ← perform_each next is exec'
    ok (exec'', op ∷ ops)

  unfoldable pub load_at : WorkloadSpec → ℕ → Result Request
  load_at spec i = do
    b ← index (account_keys spec.n_accounts) (i % at_least_one spec.n_accounts)
    ok (load_of pool b token 1000)

  unfoldable pub spend_at : WorkloadSpec → ℕ → Result Request
  spend_at spec i = do
    b ← index (account_keys spec.n_accounts) (i % at_least_one spec.n_accounts)
    payee ← index (payee_keys spec.n_payees) (i % at_least_one spec.n_payees)
    ok (spend_of b payee token 1)

  -- The op stream: loads, spends, withdraws.
  unfoldable pub op_stream : WorkloadSpec → EpochExecutor → Result (EpochExecutor × List OpWitness)
  op_stream spec exec = do
    (exec₁, loads) ← perform_each (load_at spec) (range_from 0 spec.loads) exec
    (exec₂, spends) ← perform_each (spend_at spec) (range_from 0 spec.spends) exec₁
    net_amounts ← count_nets spec.n_payees (range_from 0 spec.spends) (replicate spec.n_payees 0)
    (exec₃, settled) ← run F exec₂ (withdrawals token (payee_keys spec.n_payees) net_amounts)
    ok (exec₃, loads ++ (spends ++ settled))

  -- The part of `build` after the operations: the exit witness, the nets and the batches.
  unfoldable pub assemble :
      WorkloadSpec → ℕ → List ℕ → EpochExecutor → List OpWitness → Result Workload
  assemble spec epoch z0 exec' ops = do
    account_0 ← index (account_keys spec.n_accounts) 0
    path ← expect (exit_witness exec' account_0) account_0_registered
    nets ←
        net_entries (map payee_addr (range_from 0 spec.n_payees)) (payee_keys spec.n_payees)
          exec'.nets
    batches ←
        expect (Prover.pad_to_steps B D spec.pad_to_steps (chunk_into_batches B D ops))
          too_many_steps
    ok (record {
      token_id = epoch_token;
      z0 = z0;
      native_zn = state exec';
      batches = batches;
      nets = nets;
      transfers_root = transfers_root_for H epoch;
      op_count = length ops;
      exit = record {
        owner = account_addr 0;
        token_id = epoch_token;
        key = account_0;
        balance = path.balance;
        nonce = path.nonce;
        siblings = path.siblings;
        is_right = path.index_bits;
      };
    })

  unfoldable pub build : WorkloadSpec → ℕ → Result Workload
  build spec epoch = do
    exec ← genesis spec
    z0 ← initial_state exec
    (exec', ops) ← op_stream spec exec
    assemble spec epoch z0 exec' ops
