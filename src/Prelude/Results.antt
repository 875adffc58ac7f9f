-- ===== src/Prelude/Results.antt =====
-- Calls that fail with an error of type `E`, for every component with error values.
use mathlib.Core.Path.{◌≡◌, refl, ap, ◌∙◌}
use mathlib.Core.Bool.{Bool, true, false}
use mathlib.Core.Option.{Option, none, some}

pub data Result {ε ℓ} (E : Type ε) (A : Type ℓ) : Type (ε ⊔ ℓ) where
  panic : E → Result E A
  ok : A → Result E A

-- A failure ends the caller, too.
infixl 5 ◌>>=◌
abbrev pub ◌>>=◌ {ε ℓ κ} :
    {E : Type ε} {A : Type ℓ} {B : Type κ} → Result E A → (A → Result E B) → Result E B
panic why >>= next = panic why
ok value >>= next = next value

-- `Option::expect`
abbrev pub expect {ε ℓ} : {E : Type ε} {A : Type ℓ} → Option A → E → Result E A
expect none why = panic why
expect (some value) why = ok value

-- `assert!`
abbrev pub assert {ε} : {E : Type ε} → Bool → E → Result E (Unit {0})
assert false why = panic why
assert true why = ok tt

infixl 5 ◌>>◌
abbrev pub ◌>>◌ {ε κ} : {E : Type ε} {B : Type κ} → Result E (Unit {0}) → Result E B → Result E B
check >> rest = check >>= λ _. rest

module _ {ε} {E : Type ε} where
  pub ok-injective {ℓ} : {A : Type ℓ} {a b : A} → ◌≡◌ {A = Result E A} (ok a) (ok b) → a ≡ b
  ok-injective h = cc

  pub expect-ok {ℓ κ} :
      {A : Type ℓ} {B : Type κ} (o : Option A) (why : E) (next : A → Result E B) {r : B}
      → (expect o why >>= next) ≡ ok r
      → (a : A) × (o ≡ some a) × (next a ≡ ok r)
  expect-ok none why next h = cc
  expect-ok (some value) why next h = (value, refl, h)

  -- A call that returns has returned from its first part.
  pub >>=-ok {ℓ κ} :
      {A : Type ℓ} {B : Type κ} (first : Result E A) (next : A → Result E B) {r : B}
      → (first >>= next) ≡ ok r
      → (value : A) × (first ≡ ok value) × (next value ≡ ok r)
  >>=-ok (panic why) next h = cc
  >>=-ok (ok value) next h = (value, refl, h)

  pub assert-ok {κ} :
      {B : Type κ} (b : Bool) (why : E) (rest : Result E B) {r : B}
      → (assert b why >> rest) ≡ ok r
      → (b ≡ true) × (rest ≡ ok r)
  assert-ok true why rest h = (refl, h)
  assert-ok false why rest h = cc

  -- The call returns.
  abbrev pub Returns {ℓ} : {A : Type ℓ} → Result E A → Type (ε ⊔ ℓ)
  Returns {A} r = (a : A) × (r ≡ ok a)

  pub expect-Returns {ℓ κ} :
      {A : Type ℓ} {B : Type κ} (o : Option A) (why : E) (next : A → Result E B) {a : A}
      → o ≡ some a
      → Returns (next a)
      → Returns (expect o why >>= next)
  expect-Returns o why next e r = (r.0, ap (λ p. expect p why >>= next) e ∙ r.1)

  pub >>=-Returns {ℓ κ} :
      {A : Type ℓ} {B : Type κ} (first : Result E A) (next : A → Result E B) {a : A}
      → first ≡ ok a
      → Returns (next a)
      → Returns (first >>= next)
  >>=-Returns first next e r = (r.0, ap (λ p. p >>= next) e ∙ r.1)

  pub assert-Returns {κ} :
      {B : Type κ} (b : Bool) (why : E) (rest : Result E B)
      → b ≡ true
      → Returns rest
      → Returns (assert b why >> rest)
  assert-Returns b why rest e r = (r.0, ap (λ c. assert c why >> rest) e ∙ r.1)

  -- A step that succeeds, in front of the rest.
  pub expect-then {ℓ κ} :
      {A : Type ℓ} {B : Type κ} (o : Option A) (why : E) (next : A → Result E B) {a : A}
      {r : Result E B}
      → o ≡ some a
      → next a ≡ r
      → (expect o why >>= next) ≡ r
  expect-then o why next e h = ap (λ p. expect p why >>= next) e ∙ h

  pub assert-then {κ} :
      {B : Type κ} (b : Bool) (why : E) (rest : Result E B) {r : Result E B}
      → b ≡ true
      → rest ≡ r
      → (assert b why >> rest) ≡ r
  assert-then b why rest e h = ap (λ c. assert c why >> rest) e ∙ h

  pub >>=-then {ℓ κ} :
      {A : Type ℓ} {B : Type κ} (first : Result E A) (next : A → Result E B) {a : A}
      {r : Result E B}
      → first ≡ ok a
      → next a ≡ r
      → (first >>= next) ≡ r
  >>=-then first next e h = ap (λ p. p >>= next) e ∙ h
