-- ===== src/Lib.antt =====
-- Verification of the epoch ledger of ivc-checkpoints: the step circuit, the native executor that
-- feeds it, and the prover that folds an epoch.
--
-- The executor (crates/ledger-circuit/src/native.rs) keeps balances, nonces and a Poseidon Merkle
-- tree (imt.rs), and turns each load, spend or withdraw into an operation witness (ops.rs). The
-- prover (crates/prover/src/lib.rs) chunks the witnesses into batches, and folds the step circuit
-- (crates/ledger-circuit/src/lib.rs) over them; the state [stateRoot, opsAcc, netsAcc] runs
-- through.
--
-- Files, and the code that each models:
--   Field: what is used of the vendored arkworks libraries, as the parameter `Arkworks`
--     (modulus, CRH::evaluate, to_bits_le) with the record `IsField` of documented laws. A
--     field element is its canonical representative, a number below the modulus; addition and
--     subtraction wrap.
--   Poseidon: crates/ledger-circuit/src/poseidon.rs (h2, h4, hn), for the native hasher and for
--     the gadget on values. Poseidon/Codegen is crates/prover/src/poseidon_codegen.rs: the
--     library contracts/src/PoseidonT5.sol that it prints, as data and functions; Tables and
--     Reference compare it with the rows of the configuration, and Agreement with the library's
--     CRH; Fixture is its sample hashes. Poseidon/Gadget has the gadget over variables of a
--     constraint system, and Gadget/Values what it does to their values.
--   Hashes: Keccak-256 and the reduction of bytes to a field element, as the parameter
--     `Hashes`.
--   Imt: MerkleTree of imt.rs. The hash map of nodes is a function of level and index.
--     Consistent has the invariant, Paths what siblings and index_bits give, Binding what a
--     path proves, and Gadget the recomputation of a root over variables.
--   Ops: OpKind, OpWitness, EpochStepInput and the allocation of ops.rs. Arrays of length D are
--     lists. `new_variable` is the allocation with the value present, on values; Ops/Alloc has
--     it over a constraint system and with operations that may be absent, with the library's
--     calls as the parameter `Constraints`, and Agree and Shape compare key generation with
--     proving.
--   Circuit: generate_step_constraints and enforce_bit_width of lib.rs, on values: each call
--     that enforces a constraint is a Boolean, and a step returns the conjunction with the next
--     state. Range, Gadget, Padding, Sound, Batch and Accumulators hold its theorems; Ledger
--     has the transfer of a ledger that a step stands for.
--   Native: EpochExecutor of native.rs. Maps are association lists keyed by the field element.
--     A panic is an error value. u128 and u64 additions wrap, as in a release build. Valid has
--     the invariant, Applied and Complete one operation, Epoch a sequence of them, Nets the
--     ordered payouts, Returns when an operation returns, Exit the escape-hatch witness,
--     SelfPaid a withdraw that is not credited to the sink. Book is an abstract ledger of
--     balances and payouts; Open and Refined hold the executor against it, and Covered has the
--     sequences that the balances cover, and Canonical the nodes of the tree as field elements.
--   Prover: chunk_into_batches and the fold loop of prove_epoch in crates/prover/src/lib.rs,
--     and the padding to a number of steps of build in crates/prover/src/workload.rs. The Nova
--     library is the parameter `Nova`, with its documented behaviour in `IsNova`.
--   Prover/Workload: crates/prover/src/workload.rs, and field_key, NetEntry and ExitWitness of
--     crates/prover/src/lib.rs. `genesis`, `op_stream` and `assemble` are the three parts of
--     build. Genesis and Requests hold what the first two leave, Proven the fold, Settled
--     payouts and exit, Paid the payouts as the settlement contract reads them, Exited its
--     exit (Canonical has its siblings). Registered, Opened, Settling, Streamed, Phases, Completed and Assembled hold when
--     each part returns, Total when build does, and Sized how many batches it has.
--   Prover/Epoch: prove_epoch and fr_to_hex of crates/prover/src/lib.rs. What they call of the
--     folding scheme, the decider, the Solidity compiler and the EVM is the parameter `Sonobe`,
--     whose laws are `IsFolding`, `IsSound` and `IsComplete` of Prover/Epoch/Folding.
--   Cli: the mains of crates/prover/src/bin/prove_epoch.rs and bench/src/main.rs, from their
--     parsed arguments to the object that they write; Returned has the first one's result and
--     Total when it returns.
--   Contract: contracts/src/ProvenCheckpoint.sol. A call returns the new storage or the reason
--     of the revert; ecrecover and the verifier are the parameter `Evm`. Settle has both
--     settlements, Escape the exit, Calls the transactions and the storages that histories of
--     them reach. Checked and Governed invert a call that returns; Chain, Replay and Upgrade
--     hold invariants of histories.
--   UnitTests: the unit tests of crates/ledger-circuit, as functions into Bool; Passed and Batch
--     are about their runs.
--   Tests: runs at concrete inputs over the BN254 field with a toy hash in place of Poseidon.
--
-- Bounds and fuel: loops over the levels of a tree recur on the levels left. The loop of
-- chunk_into_batches takes the number of operations as fuel; each round takes at least one. The
-- theorems about collisions compare, level by level, the inputs that a presented path hashes with
-- those of the tree's own path, and need no more of the hash than that these do not collide.
--
-- Not modelled: the inside of the folding scheme, of the decider and of the generated verifier;
-- the events of the contract; the parsing of command lines, files, messages and scripts; the
-- vendored libraries.
pub mod Prelude
pub mod Field
pub mod Poseidon
pub mod Hashes
pub mod Imt
pub mod Ops
pub mod Circuit
pub mod Native
pub mod Prover
pub mod Contract
pub mod Cli
pub mod Tests
pub mod UnitTests
