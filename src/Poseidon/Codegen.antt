-- ===== src/Poseidon/Codegen.antt =====
-- crates/prover/src/poseidon_codegen.rs: what `generate_solidity` prints, contracts/src/PoseidonT5.sol,
-- as data, and the functions that the template prints verbatim. A word is a number.
use ivc_checkpoints.Prelude.{
  ℕ, zero, suc, ◌+◌, ◌*◌, ◌/◌, ◌%◌, ◌||◌, not, List, [], ◌∷◌, ◌++◌, map, ltb, ◌==◌, if◌then◌else◌,
  length, write, get_or, range_from,
}
use ivc_checkpoints.Prelude.Results.{Result, ok, ◌>>◌, assert}

-- What is used of the library's `PoseidonConfig`.
pub record PoseidonConfig : Type 0 where
  pub full_rounds : ℕ
  pub partial_rounds : ℕ
  pub rate : ℕ
  pub capacity : ℕ
  pub ark : List (List ℕ)
  pub mds : List (List ℕ)

-- The three assertions.
pub data BadConfig : Type 0 where
  width_not_5 ark_round_count mds_rows : BadConfig

-- The printed library: its constants, and the assignments of `_ark` and of `_mds` in order.
pub record PoseidonT5 : Type 0 where
  pub modulus : ℕ
  pub rounds : ℕ
  pub full_half : ℕ
  pub partial_end : ℕ
  pub width : ℕ
  pub ark_assigns : List (ℕ × ℕ)
  pub mds_assigns : List (ℕ × ℕ)

-- The inner loop: `base + j` gets the `j`-th value of the row.
unfoldable pub assign_row : ℕ → ℕ → List ℕ → List (ℕ × ℕ)
assign_row base j [] = []
assign_row base j (v ∷ row) = (base + j, v) ∷ assign_row base (suc j) row

-- The outer loop over the rows, from row `r`.
unfoldable pub assigns : ℕ → ℕ → List (List ℕ) → List (ℕ × ℕ)
assigns t r [] = []
assigns t r (row ∷ rows) = assign_row (r * t) 0 row ++ assigns t (suc r) rows

abbrev pub bn254_fr_modulus : ℕ
bn254_fr_modulus = 21888242871839275222246405745257275088548364400416034343698204186575808495617

unfoldable pub generate_solidity : PoseidonConfig → Result BadConfig PoseidonT5
generate_solidity cfg = do
  let t = cfg.rate + cfg.capacity
  let rounds = cfg.full_rounds + cfg.partial_rounds
  let full_half = cfg.full_rounds / 2
  assert (t == 5) width_not_5
  assert (length cfg.ark == rounds) ark_round_count
  assert (length cfg.mds == t) mds_rows
  ok (record {
    modulus = bn254_fr_modulus;
    rounds = rounds;
    full_half = full_half;
    partial_end = full_half + cfg.partial_rounds;
    width = t;
    ark_assigns = assigns t 0 cfg.ark;
    mds_assigns = assigns t 0 cfg.mds;
  })

-- A memory array after assignments, over zeroes at first.
unfoldable pub store : (ℕ → ℕ) → List (ℕ × ℕ) → ℕ → ℕ
store memory [] = memory
store memory ((k, v) ∷ assignments) = store (write memory k v) assignments

abbrev pub array : List (ℕ × ℕ) → ℕ → ℕ
array assignments = store (λ i. 0) assignments

-- `addmod`, `mulmod`
abbrev pub addmod : ℕ → ℕ → ℕ → ℕ
addmod a b n = (a + b) % n

abbrev pub mulmod : ℕ → ℕ → ℕ → ℕ
mulmod a b n = (a * b) % n

module _ (lib : PoseidonT5) where
  unfoldable pub pow5 : ℕ → ℕ
  pow5 x =
      let x2 = mulmod x x lib.modulus in
      let x4 = mulmod x2 x2 lib.modulus in mulmod x4 x lib.modulus

  -- The loop of additions of round `r`.
  unfoldable pub add_constants : ℕ → List ℕ → List ℕ
  add_constants r s =
      map (λ j. addmod (get_or s j 0) (array lib.ark_assigns (r * lib.width + j)) lib.modulus)
        (range_from 0 lib.width)

  -- `s[0] = _pow5(s[0])`
  abbrev pub pow5_first : List ℕ → List ℕ
  pow5_first [] = []
  pow5_first (x ∷ xs) = pow5 x ∷ xs

  unfoldable pub substitute : ℕ → List ℕ → List ℕ
  substitute r s =
      if ltb r lib.full_half || not (ltb r lib.partial_end) then map pow5 s else pow5_first s

  -- The inner loop of the matrix product, over the columns that are left.
  unfoldable pub mix_row : ℕ → List ℕ → List ℕ → ℕ → ℕ
  mix_row i s [] acc = acc
  mix_row i s (j ∷ js) acc = mix_row i s js (
      addmod acc (mulmod (array lib.mds_assigns (i * lib.width + j)) (get_or s j 0) lib.modulus)
        lib.modulus)

  unfoldable pub mix : List ℕ → List ℕ
  mix s = map (λ i. mix_row i s (range_from 0 lib.width) 0) (range_from 0 lib.width)

  -- The rounds from `r`, `n` of them.
  unfoldable pub rounds_from : ℕ → ℕ → List ℕ → List ℕ
  rounds_from r zero s = s
  rounds_from r (suc n) s = rounds_from (suc r) n (mix (substitute r (add_constants r s)))

  unfoldable pub permute : List ℕ → List ℕ
  permute s = rounds_from 0 lib.rounds s

  unfoldable pub hash4 : ℕ → ℕ → ℕ → ℕ → ℕ
  hash4 a b c d =
      get_or
        (permute (0 ∷ a % lib.modulus ∷ b % lib.modulus ∷ c % lib.modulus ∷ d % lib.modulus ∷ [])) 1
        0

  unfoldable pub hash2 : ℕ → ℕ → ℕ
  hash2 a b = get_or (permute (0 ∷ a % lib.modulus ∷ b % lib.modulus ∷ 0 ∷ 0 ∷ [])) 1 0

  unfoldable pub fold_net : ℕ → ℕ → ℕ → ℕ → ℕ
  fold_net acc payee_key token_id amount = hash4 acc payee_key token_id amount
