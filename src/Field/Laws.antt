-- ===== src/Field/Laws.antt =====
-- Field arithmetic on canonical representatives, where it does and does not wrap.
use native.Mathlib.Nat.{mod-eq_of_lt, add-mod_right}
use ivc_checkpoints.Prelude.{ℕ, ◌+◌, ◌-◌, ◌%◌, ◌≤◌, ◌<◌, ◌≡◌, ◌∙◌, ap, arith}
use ivc_checkpoints.Field.{Arkworks, IsField, of_int, add, sub}

module _ (F : Arkworks) where
  pub of_int_small : (n : ℕ) → n < F.modulus → of_int F n ≡ n
  unfolding of_int
  of_int_small n h = mod-eq_of_lt h

  pub add_small : (a b : ℕ) → a + b < F.modulus → add F a b ≡ a + b
  unfolding add
  add_small a b h = mod-eq_of_lt h

  -- From the modulus on the sum wraps round to the bottom of the field.
  pub add_wrap :
      (a b : ℕ) → a < F.modulus → b < F.modulus → F.modulus ≤ a + b → add F a b + F.modulus ≡ a + b
  unfolding add
  add_wrap a b a_lt b_lt h =
      let rest : (a + b) % F.modulus ≡ a + b - F.modulus =
        ap (λ n. n % F.modulus) {x = a + b} {y = a + b - F.modulus + F.modulus} (omega arith)
        ∙ add-mod_right (a + b - F.modulus) F.modulus
        ∙ mod-eq_of_lt (omega arith) in
      omega (arith, rest)

  pub sub_small : (a b : ℕ) → b ≤ a → a < F.modulus → sub F a b ≡ a - b
  unfolding sub
  sub_small a b h lt =
      ap (λ n. n % F.modulus) {x = a + F.modulus - b} {y = a - b + F.modulus} (omega arith)
      ∙ add-mod_right (a - b) F.modulus
      ∙ mod-eq_of_lt (omega arith)

  -- Below zero the difference wraps round to the top of the field.
  pub sub_borrow : (a b : ℕ) → a < b → b ≤ F.modulus → sub F a b ≡ a + F.modulus - b
  unfolding sub
  sub_borrow a b h le = mod-eq_of_lt (omega arith)

  pub add-canonical : (a b : ℕ) → IsField F → add F a b < F.modulus
  unfolding add
  add-canonical a b v = grind (arith, v.wide)

  pub sub-canonical : (a b : ℕ) → IsField F → sub F a b < F.modulus
  unfolding sub
  sub-canonical a b v = grind (arith, v.wide)
