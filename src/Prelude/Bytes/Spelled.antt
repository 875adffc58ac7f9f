-- ===== src/Prelude/Bytes/Spelled.antt =====
-- The bytes of the number that bytes spell.
use native.Mathlib.Nat.{div-div-eq-div-mul, div-one, pow-suc}
use ivc_checkpoints.Prelude.{
  ℕ, zero, suc, ◌+◌, ◌*◌, ◌/◌, ◌%◌, ◌^◌, ◌<◌, ◌≡◌, refl, sym, ap, ap₂, ◌∙◌, List, [], ◌∷◌, ◌++◌,
  arith, length, replicate,
}
use ivc_checkpoints.Prelude.Bytes.{to_be_bytes, of_be_bytes, of_be_bytes_from}

abbrev pub AllBytes : List ℕ → Type 0
AllBytes [] = Unit {0}
AllBytes (b ∷ bs) = (b < 256) × AllBytes bs

pub AllBytes-zeros : (n : ℕ) (bs : List ℕ) → AllBytes bs → AllBytes (replicate n 0 ++ bs)
AllBytes-zeros zero bs h = h
AllBytes-zeros (suc n) bs h = (omega arith, AllBytes-zeros n bs h)

of_be_bytes_from-high :
    (acc : ℕ) (bs : List ℕ) → AllBytes bs → of_be_bytes_from acc bs / 256 ^ length bs ≡ acc
of_be_bytes_from-high acc [] h = div-one acc
of_be_bytes_from-high acc (b ∷ bs) h =
    ap (λ k. of_be_bytes_from (256 * acc + b) bs / k) (pow-suc 256 (length bs))
    ∙ sym (div-div-eq-div-mul (of_be_bytes_from (256 * acc + b) bs) (256 ^ length bs) 256)
    ∙ ap (λ k. k / 256) (of_be_bytes_from-high (256 * acc + b) bs h.1)
    ∙ omega (arith, h.0)

to_be_bytes-of_be_bytes_from :
    (acc : ℕ) (bs : List ℕ) → AllBytes bs → to_be_bytes (length bs) (of_be_bytes_from acc bs) ≡ bs
unfolding to_be_bytes
to_be_bytes-of_be_bytes_from acc [] h = refl
to_be_bytes-of_be_bytes_from acc (b ∷ bs) h =
    ap₂ ◌∷◌ (ap (λ k. k % 256) (of_be_bytes_from-high (256 * acc + b) bs h.1) ∙ omega (arith, h.0))
      (to_be_bytes-of_be_bytes_from (256 * acc + b) bs h.1)

pub to_be_bytes-of_be_bytes :
    (bs : List ℕ) → AllBytes bs → to_be_bytes (length bs) (of_be_bytes bs) ≡ bs
unfolding of_be_bytes
to_be_bytes-of_be_bytes bs h = to_be_bytes-of_be_bytes_from 0 bs h
