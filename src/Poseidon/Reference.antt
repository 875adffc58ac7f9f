-- ===== src/Poseidon/Reference.antt =====
-- The Poseidon permutation over the configuration's rows, and the printed functions against it.
use native.Mathlib.Nat.{
  mod-add-mod, add-mod-mod, add-mul-mod_self_left, add-mul, mul_assoc, mul_comm, div-add-mod,
  mod-mod,
}
use ivc_checkpoints.Prelude.{
  ℕ, zero, suc, ◌+◌, ◌*◌, ◌/◌, ◌%◌, ◌<◌, ◌≡◌, refl, sym, ap, ap₂, ◌∙◌, Bool, true, false, ◌||◌, not,
  List, [], ◌∷◌, map, arith, ltb, if◌then◌else◌, length, get_or, range_from, fun_ext, ==_iff,
}
use ivc_checkpoints.Prelude.Results.{ok, ok-injective, assert-ok}
use ivc_checkpoints.Prelude.Ranges.{
  map_range-cong, map_range-get_or, length-map_range, zip_with, map_range-zip_with, sum_of, dot,
  sum_of-cong, sum_of-dot,
}
use ivc_checkpoints.Poseidon.Codegen.{
  PoseidonConfig, PoseidonT5, assigns, array, generate_solidity, pow5, pow5_first, add_constants,
  substitute, mix_row, mix, rounds_from, permute, hash4, hash2, fold_net, bn254_fr_modulus,
}
use ivc_checkpoints.Poseidon.Tables.{AllRows, array-assigns}

-- The textbook round: add the round's row, raise to the fifth power, multiply by the matrix.
module _ (p : ℕ) where
  abbrev pub fifth : ℕ → ℕ
  fifth x = (x * x * x * x * x) % p

  abbrev pub first_fifth : List ℕ → List ℕ
  first_fifth [] = []
  first_fifth (x ∷ xs) = fifth x ∷ xs

  -- A full round at both ends, a partial one between.
  abbrev pub reference_sbox : Bool → List ℕ → List ℕ
  reference_sbox true s = map fifth s
  reference_sbox false s = first_fifth s

  abbrev pub reference_mix : List (List ℕ) → List ℕ → List ℕ
  reference_mix mds s = map (λ row. dot row s % p) mds

module _ (p : ℕ) (cfg : PoseidonConfig) where
  abbrev pub is_full : ℕ → Bool
  is_full r = ltb r (cfg.full_rounds / 2) || not (ltb r (cfg.full_rounds / 2 + cfg.partial_rounds))

  abbrev pub reference_round : ℕ → List ℕ → List ℕ
  reference_round r s =
      reference_mix p cfg.mds
        (reference_sbox p (is_full r) (zip_with (λ x c. (x + c) % p) s (get_or cfg.ark r [])))

  unfoldable pub reference_rounds : ℕ → ℕ → List ℕ → List ℕ
  reference_rounds r zero s = s
  reference_rounds r (suc n) s = reference_rounds (suc r) n (reference_round r s)

  -- The permutation, squeezed at the first rate element.
  unfoldable pub reference_hash : List ℕ → ℕ
  reference_hash input =
      get_or (reference_rounds 0 (cfg.full_rounds + cfg.partial_rounds) (0 ∷ input)) 1 0

mod-mul_left : (a b p : ℕ) → ((a % p) * b) % p ≡ (a * b) % p
mod-mul_left a b p =
    sym (add-mul-mod_self_left ((a % p) * b) p (a / p * b))
    ∙ ap (λ t. t % p)
        (omega (
          arith,
          ap (λ t. t * b) (div-add-mod a p),
          add-mul (p * (a / p)) (a % p) b,
          mul_assoc p (a / p) b,
        ))

module _ (lib : PoseidonT5) where
  pow5-fifth : (x : ℕ) → pow5 lib x ≡ fifth lib.modulus x
  unfolding pow5
  pow5-fifth x =
      let p = lib.modulus in
      mod-mul_left ((x * x) % p * ((x * x) % p)) x p
      ∙ ap (λ t. t % p) (mul_assoc ((x * x) % p) ((x * x) % p) x)
      ∙ mod-mul_left (x * x) ((x * x) % p * x) p
      ∙ ap (λ t. t % p) (mul_comm (x * x) ((x * x) % p * x) ∙ mul_assoc ((x * x) % p) x (x * x))
      ∙ mod-mul_left (x * x) (x * (x * x)) p
      ∙ ap (λ t. t % p) (sym (mul_assoc (x * x) x (x * x)) ∙ sym (mul_assoc (x * x * x) x x))

  -- The accumulator of a row is the sum of the products, reduced once.
  mix_row-sum_of :
      (i : ℕ) (s js : List ℕ) (acc : ℕ)
      → acc % lib.modulus ≡ acc
      → mix_row lib i s js acc
        ≡ (acc + sum_of (λ j. array lib.mds_assigns (i * lib.width + j) * get_or s j 0) js)
          % lib.modulus
  unfolding mix_row
  mix_row-sum_of i s [] acc h = sym h ∙ ap (λ t. t % lib.modulus) (omega arith)
  mix_row-sum_of i s (j ∷ js) acc h =
      let p = lib.modulus in
      let f : ℕ → ℕ = λ k. array lib.mds_assigns (i * lib.width + k) * get_or s k 0 in
      let rest = sum_of f js in
      mix_row-sum_of i s js ((acc + f j % p) % p) (mod-mod (acc + f j % p) p)
      ∙ ap (λ t. (t + rest) % p) (add-mod-mod acc (f j) p)
      ∙ mod-add-mod (acc + f j) p rest
      ∙ ap (λ t. t % p) (omega arith)

-- What the assertions and the shape of a configuration give.
pub record IsShaped (cfg : PoseidonConfig) (lib : PoseidonT5) : Type 0 where
  pub returned : generate_solidity cfg ≡ ok lib
  pub ark_rows : AllRows 5 cfg.ark
  pub mds_rows : AllRows 5 cfg.mds

module _ (cfg : PoseidonConfig) (lib : PoseidonT5) where
  -- The fields of the printed library.
  record IsPrinted : Type 0 where
    modulus_lem : lib.modulus ≡ bn254_fr_modulus
    width_lem : lib.width ≡ 5
    rounds_lem : lib.rounds ≡ cfg.full_rounds + cfg.partial_rounds
    half_lem : lib.full_half ≡ cfg.full_rounds / 2
    end_lem : lib.partial_end ≡ cfg.full_rounds / 2 + cfg.partial_rounds
    ark_lem : lib.ark_assigns ≡ assigns 5 0 cfg.ark
    mds_lem : lib.mds_assigns ≡ assigns 5 0 cfg.mds
    ark_count : length cfg.ark ≡ cfg.full_rounds + cfg.partial_rounds
    mds_count : length cfg.mds ≡ 5

  generate_solidity-IsPrinted : generate_solidity cfg ≡ ok lib → IsPrinted
  unfolding generate_solidity
  generate_solidity-IsPrinted h =
      let (e₁, h₁) = assert-ok _ _ _ h in
      let (e₂, h₂) = assert-ok _ _ _ h₁ in
      let (e₃, h₃) = assert-ok _ _ _ h₂ in
      let out = ok-injective h₃ in
      let five : cfg.rate + cfg.capacity ≡ 5 = (==_iff _ _).0 e₁ in
      record {
        modulus_lem = sym (ap (λ l. l.modulus) out);
        width_lem = sym (ap (λ l. l.width) out) ∙ five;
        rounds_lem = sym (ap (λ l. l.rounds) out);
        half_lem = sym (ap (λ l. l.full_half) out);
        end_lem = sym (ap (λ l. l.partial_end) out);
        ark_lem = sym (ap (λ l. l.ark_assigns) out) ∙ ap (λ t. assigns t 0 cfg.ark) five;
        mds_lem = sym (ap (λ l. l.mds_assigns) out) ∙ ap (λ t. assigns t 0 cfg.mds) five;
        ark_count = (==_iff _ _).0 e₂;
        mds_count = (==_iff _ _).0 e₃ ∙ five;
      }

  AllRows-get_or :
      (rows : List (List ℕ)) (r : ℕ)
      → AllRows 5 rows
      → r < length rows
      → length (get_or rows r []) ≡ 5
  AllRows-get_or [] r w l = absurd (omega (arith, l))
  AllRows-get_or (row ∷ rows) zero w l = w.0
  AllRows-get_or (row ∷ rows) (suc r) w l = AllRows-get_or rows r w.1 (omega (arith, l))

  module _ (g : IsShaped cfg lib) where
    printed : IsPrinted
    printed = generate_solidity-IsPrinted g.returned

    abbrev p : ℕ
    p = lib.modulus

    add_constants-zip_with :
        (r : ℕ) (s : List ℕ)
        → r < lib.rounds
        → length s ≡ 5
        → add_constants lib r s ≡ zip_with (λ x c. (x + c) % p) s (get_or cfg.ark r [])
    unfolding add_constants
    add_constants-zip_with r s h e =
        let count : r < length cfg.ark = omega (arith, h, printed.rounds_lem, printed.ark_count) in
        ap₂ (λ a w. map (λ j. (get_or s j 0 + array a (r * w + j)) % p) (range_from 0 w))
          printed.ark_lem printed.width_lem
        ∙ (map_range-cong _ _ 0 5 (λ j l.
              ap (λ c. (get_or s j 0 + c) % p) (array-assigns 5 cfg.ark r j g.ark_rows count l))
            ∙ map_range-zip_with (λ x c. (x + c) % p) s (get_or cfg.ark r []) 5 e
                (AllRows-get_or cfg.ark r g.ark_rows count))

    sbox_cases :
        (b : Bool) (s : List ℕ)
        → (if b then map (pow5 lib) s else pow5_first lib s) ≡ reference_sbox p b s
    sbox_cases true s = ap (λ f. map f s) (fun_ext (pow5-fifth lib))
    sbox_cases false [] = refl
    sbox_cases false (x ∷ s) = ap (λ y. y ∷ s) (pow5-fifth lib x)

    substitute-reference_sbox :
        (r : ℕ) (s : List ℕ) → substitute lib r s ≡ reference_sbox p (is_full p cfg r) s
    unfolding substitute
    substitute-reference_sbox r s =
        ap₂
          (λ half end_.
            if ltb r half || not (ltb r end_) then map (pow5 lib) s else pow5_first lib s)
          printed.half_lem printed.end_lem
        ∙ sbox_cases (is_full p cfg r) s

    mix_row-dot :
        (s : List ℕ) (i : ℕ)
        → length s ≡ 5
        → i < 5
        → mix_row lib i s (range_from 0 5) 0 ≡ dot (get_or cfg.mds i []) s % p
    mix_row-dot s i e l =
        let count : i < length cfg.mds = omega (arith, l, printed.mds_count) in
        mix_row-sum_of lib i s (range_from 0 5) 0 (ap (λ m. 0 % m) printed.modulus_lem)
        ∙ ap (λ t. (0 + t) % p)
            (sum_of-cong _ (λ j. get_or (get_or cfg.mds i []) j 0 * get_or s j 0) 0 5
                (λ j l'.
                  ap (λ c. c * get_or s j 0)
                    (ap₂ (λ a w. array a (i * w + j)) printed.mds_lem printed.width_lem
                      ∙ array-assigns 5 cfg.mds i j g.mds_rows count l'))
              ∙ sum_of-dot (get_or cfg.mds i []) s 5 (AllRows-get_or cfg.mds i g.mds_rows count) e)
        ∙ ap (λ t. t % p) (omega arith)

    mix-reference_mix : (s : List ℕ) → length s ≡ 5 → mix lib s ≡ reference_mix p cfg.mds s
    unfolding mix
    mix-reference_mix s e =
        ap (λ n. map (λ i. mix_row lib i s (range_from 0 n) 0) (range_from 0 n)) printed.width_lem
        ∙ map_range-cong _ _ 0 5 (λ i l. mix_row-dot s i e l)
        ∙ map_range-get_or (λ row. dot row s % p) cfg.mds [] 5 printed.mds_count

    length-mix : (s : List ℕ) → length (mix lib s) ≡ 5
    unfolding mix
    length-mix s = length-map_range _ 0 lib.width ∙ printed.width_lem

    length-map_lem : (f : ℕ → ℕ) (s : List ℕ) → length (map f s) ≡ length s
    length-map_lem f [] = refl
    length-map_lem f (x ∷ s) = ap suc (length-map_lem f s)

    length-substitute : (r : ℕ) (s : List ℕ) → length (substitute lib r s) ≡ length s
    length-substitute r s =
        ap length (substitute-reference_sbox r s) ∙ sbox-length (is_full p cfg r) s
      where
        sbox-length : (b : Bool) (s' : List ℕ) → length (reference_sbox p b s') ≡ length s'
        sbox-length true s' = length-map_lem (fifth p) s'
        sbox-length false [] = refl
        sbox-length false (x ∷ s') = refl

    length-add_constants : (r : ℕ) (s : List ℕ) → length (add_constants lib r s) ≡ 5
    unfolding add_constants
    length-add_constants r s = length-map_range _ 0 lib.width ∙ printed.width_lem

    rounds_from-reference :
        (n r : ℕ) (s : List ℕ)
        → r + n ≡ lib.rounds
        → length s ≡ 5
        → rounds_from lib r n s ≡ reference_rounds p cfg r n s
    unfolding rounds_from reference_rounds
    rounds_from-reference zero r s h e = refl
    rounds_from-reference (suc n) r s h e =
        let added = add_constants lib r s in
        rounds_from-reference n (suc r) (mix lib (substitute lib r added)) (omega (arith, h))
          (length-mix (substitute lib r added))
        ∙ ap (reference_rounds p cfg (suc r) n) (
            mix-reference_mix (substitute lib r added)
              (length-substitute r added ∙ length-add_constants r s)
            ∙ ap (reference_mix p cfg.mds) (
                substitute-reference_sbox r added
                ∙ ap (reference_sbox p (is_full p cfg r))
                    (add_constants-zip_with r s (omega (arith, h)) e)))

    permute-reference :
        (s : List ℕ)
        → length s ≡ 5
        → permute lib s ≡ reference_rounds p cfg 0 (cfg.full_rounds + cfg.partial_rounds) s
    unfolding permute
    permute-reference s e =
        rounds_from-reference lib.rounds 0 s (omega arith) e
        ∙ ap (λ n. reference_rounds p cfg 0 n s) printed.rounds_lem

    -- The printed `hash4`, `hash2` and `foldNet`, on words of any size, are the permutation over
    -- the rows of a configuration of five columns, from which the library was printed without a
    -- failed assertion, applied to the reduced words.
    pub hash4-reference_hash :
        (a b c d : ℕ)
        → (hash4 lib a b c d ≡ reference_hash p cfg (a % p ∷ b % p ∷ c % p ∷ d % p ∷ []))
          × (fold_net lib a b c d ≡ reference_hash p cfg (a % p ∷ b % p ∷ c % p ∷ d % p ∷ []))
          × (hash2 lib a b ≡ reference_hash p cfg (a % p ∷ b % p ∷ 0 ∷ 0 ∷ []))
    unfolding hash4 hash2 fold_net reference_hash
    hash4-reference_hash a b c d =
        let four =
          ap (λ s. get_or s 1 0)
            (permute-reference (0 ∷ a % p ∷ b % p ∷ c % p ∷ d % p ∷ []) refl) in
        (
          four,
          four,
          ap (λ s. get_or s 1 0) (permute-reference (0 ∷ a % p ∷ b % p ∷ 0 ∷ 0 ∷ []) refl),
        )
