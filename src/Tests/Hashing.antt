-- ===== src/Tests/Hashing.antt =====
-- A small configuration, the library that is printed from it, and its hashes.
use ivc_checkpoints.Prelude.{◌%◌, ◌≡◌, refl, [], ◌∷◌, replicate}
use ivc_checkpoints.Poseidon.Codegen.{
  PoseidonConfig, PoseidonT5, assign_row, assigns, generate_solidity, hash4, hash2, fold_net,
}
use ivc_checkpoints.Poseidon.Reference.{reference_hash, IsShaped, hash4-reference_hash}
use ivc_checkpoints.Tests.Ledger.{value_or}

abbrev pub cfg : PoseidonConfig
cfg = record {
  full_rounds = 2;
  partial_rounds = 1;
  rate = 4;
  capacity = 1;
  ark = (1 ∷ 2 ∷ 3 ∷ 4 ∷ 5 ∷ []) ∷ (6 ∷ 7 ∷ 8 ∷ 9 ∷ 10 ∷ []) ∷ replicate 5 11 ∷ [];
  mds =
      (2 ∷ 3 ∷ 1 ∷ 1 ∷ 1 ∷ [])
      ∷ (1 ∷ 2 ∷ 3 ∷ 1 ∷ 1 ∷ [])
      ∷ (1 ∷ 1 ∷ 2 ∷ 3 ∷ 1 ∷ [])
      ∷ (1 ∷ 1 ∷ 1 ∷ 2 ∷ 3 ∷ [])
      ∷ (3 ∷ 1 ∷ 1 ∷ 1 ∷ 2 ∷ [])
      ∷ [];
}

abbrev pub lib : PoseidonT5
lib = value_or (generate_solidity cfg) (record {
  modulus = 0;
  rounds = 0;
  full_half = 0;
  partial_end = 0;
  width = 0;
  ark_assigns = [];
  mds_assigns = [];
})

pub cfg-IsShaped : IsShaped cfg lib
unfolding generate_solidity assigns assign_row
cfg-IsShaped = record {
  returned = refl;
  ark_rows = (refl, (refl, (refl, tt)));
  mds_rows = (refl, (refl, (refl, (refl, (refl, tt)))));
}

hash4-reference_hash_example :
    (hash4 lib 1 2 3 4
      ≡ reference_hash lib.modulus cfg
          (1 % lib.modulus ∷ 2 % lib.modulus ∷ 3 % lib.modulus ∷ 4 % lib.modulus ∷ []))
    × (fold_net lib 1 2 3 4
        ≡ reference_hash lib.modulus cfg
            (1 % lib.modulus ∷ 2 % lib.modulus ∷ 3 % lib.modulus ∷ 4 % lib.modulus ∷ []))
    × (hash2 lib 1 2
        ≡ reference_hash lib.modulus cfg (1 % lib.modulus ∷ 2 % lib.modulus ∷ 0 ∷ 0 ∷ []))
hash4-reference_hash_example = hash4-reference_hash cfg lib cfg-IsShaped 1 2 3 4
