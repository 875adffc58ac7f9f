-- ===== src/Poseidon/Fixture.antt =====
-- crates/prover/src/poseidon_codegen.rs: generate_fixture, the sample hashes that the contract's
-- tests compare the printed library with. A text is a list of characters; `to_string` is the
-- standard library's, and `to_bytes_be` and `encode` are what `fr_to_hex` uses.
use ivc_checkpoints.Prelude.{ℕ, ◌≡◌, List, [], ◌∷◌, map, length, ap, ap₂, fun_ext, sym}
use ivc_checkpoints.Field.{Arkworks, IsField, of_int}
use ivc_checkpoints.Poseidon.{h2, h4}
use ivc_checkpoints.Poseidon.Codegen.{PoseidonConfig, PoseidonT5, hash2, hash4}
use ivc_checkpoints.Poseidon.Reference.{IsShaped}
use ivc_checkpoints.Poseidon.Agreement.{IsPoseidon, hash2-h2, hash4-h4}
use ivc_checkpoints.Prover.Epoch.{fr_to_hex}

-- The object of one sample.
pub record Sample : Type 0 where
  pub inputs : List (List ℕ)
  pub output : List ℕ

pub record Fixture : Type 0 where
  pub hash4_count : ℕ
  pub hash2_count : ℕ
  pub hash4_samples : List Sample
  pub hash2_samples : List Sample

abbrev pub v4 : List (ℕ × ℕ × ℕ × ℕ)
v4 = (1, 2, 3, 4) ∷ (0, 0, 0, 0) ∷ (42, 7, 1, 99) ∷ (1_000_000, 2, 1, 500) ∷ []

abbrev pub v2 : List (ℕ × ℕ)
v2 = (1, 2) ∷ (3, 4) ∷ (0, 0) ∷ (123_456, 789) ∷ []

module _ (to_string : ℕ → List ℕ) (to_bytes_be : ℕ → List ℕ) (encode : List ℕ → List ℕ) where
  -- The samples of four, and of two, numbers that hash with the given function.
  abbrev pub sample4 : (ℕ → ℕ → ℕ → ℕ → ℕ) → ℕ × ℕ × ℕ × ℕ → Sample
  sample4 hash (a, b, c, d) = record {
    inputs = map to_string (a ∷ b ∷ c ∷ d ∷ []);
    output = fr_to_hex to_bytes_be encode (hash a b c d);
  }

  abbrev pub sample2 : (ℕ → ℕ → ℕ) → ℕ × ℕ → Sample
  sample2 hash (a, b) = record {
    inputs = map to_string (a ∷ b ∷ []);
    output = fr_to_hex to_bytes_be encode (hash a b);
  }

  unfoldable pub generate_fixture : Arkworks → Fixture
  generate_fixture F =
      let hash4_samples =
        map (sample4 (λ a b c d. h4 F (of_int F a) (of_int F b) (of_int F c) (of_int F d))) v4 in
      let hash2_samples = map (sample2 (λ a b. h2 F (of_int F a) (of_int F b))) v2 in
      record {
        hash4_count = length hash4_samples;
        hash2_count = length hash2_samples;
        hash4_samples = hash4_samples;
        hash2_samples = hash2_samples;
      }

  module _ (F : Arkworks) (field : IsField F) (cfg : PoseidonConfig) (lib : PoseidonT5)
      (printed : IsShaped cfg lib) (modulus : lib.modulus ≡ F.modulus)
      (poseidon : IsPoseidon F cfg) where
    sample4_lem :
        (v : ℕ × ℕ × ℕ × ℕ)
        → sample4 (hash4 lib) v
          ≡ sample4 (λ a b c d. h4 F (of_int F a) (of_int F b) (of_int F c) (of_int F d)) v
    unfolding of_int
    sample4_lem (a, b, c, d) =
        ap
          (λ out. record {
            inputs = map to_string (a ∷ b ∷ c ∷ d ∷ []);
            output = fr_to_hex to_bytes_be encode out;
          })
          (hash4-h4 F field cfg lib printed modulus poseidon a b c d)

    sample2_lem :
        (v : ℕ × ℕ) → sample2 (hash2 lib) v ≡ sample2 (λ a b. h2 F (of_int F a) (of_int F b)) v
    unfolding of_int
    sample2_lem (a, b) =
        ap
          (λ out. record {
            inputs = map to_string (a ∷ b ∷ []);
            output = fr_to_hex to_bytes_be encode out;
          })
          (hash2-h2 F field cfg lib printed modulus poseidon a b)

    -- The fixture of the native hasher has the inputs of the source with the outputs of the
    -- library that is printed from the same configuration, if the library's CRH is the
    -- permutation over the rows of that configuration.
    pub generate_fixture-printed : generate_fixture F ≡ record {
      hash4_count = 4;
      hash2_count = 4;
      hash4_samples = map (sample4 (hash4 lib)) v4;
      hash2_samples = map (sample2 (hash2 lib)) v2;
    }
    unfolding generate_fixture of_int
    generate_fixture-printed =
        ap₂
          (λ samples samples'. record {
            hash4_count = 4;
            hash2_count = 4;
            hash4_samples = samples;
            hash2_samples = samples';
          })
          (ap (λ f. map f v4) (sym (fun_ext sample4_lem)))
          (ap (λ f. map f v2) (sym (fun_ext sample2_lem)))
