-- ===== src/Poseidon/Tables.antt =====
-- The printed tables read back as the configuration's rows.
use native.Mathlib.Nat.{suc-mul}
use ivc_checkpoints.Prelude.{
  ℕ, zero, suc, ◌+◌, ◌*◌, ◌<◌, ◌≡◌, refl, ◌∙◌, List, [], ◌∷◌, ◌++◌, arith, length, get_or, write,
}
use ivc_checkpoints.Poseidon.Codegen.{assign_row, assigns, store, array}

-- Every row has `t` values.
abbrev pub AllRows : ℕ → List (List ℕ) → Type 0
AllRows t [] = Unit {0}
AllRows t (row ∷ rows) = (length row ≡ t) × AllRows t rows

store-append :
    (xs ys : List (ℕ × ℕ)) (m : ℕ → ℕ) (i : ℕ) → store m (xs ++ ys) i ≡ store (store m xs) ys i
unfolding store
store-append [] ys m i = refl
store-append ((k, v) ∷ xs) ys m i = store-append xs ys (write m k v) i

-- The assignments of a row leave what is below it.
store-assign_row_below :
    (base j : ℕ) (row : List ℕ) (m : ℕ → ℕ) (i : ℕ)
    → i < base + j
    → store m (assign_row base j row) i ≡ m i
unfolding store assign_row
store-assign_row_below base j [] m i h = refl
store-assign_row_below base j (v ∷ row) m i h =
    store-assign_row_below base (suc j) row (write m (base + j) v) i (omega (arith, h))
    ∙ ground (arith, h)

store-assign_row :
    (base j : ℕ) (row : List ℕ) (m : ℕ → ℕ) (k i : ℕ)
    → k < length row
    → i ≡ base + j + k
    → store m (assign_row base j row) i ≡ get_or row k 0
unfolding store assign_row
store-assign_row base j [] m k i h e = absurd (omega (arith, h))
store-assign_row base j (v ∷ row) m zero i h e =
    store-assign_row_below base (suc j) row (write m (base + j) v) i (omega (arith, e))
    ∙ ground (arith, e)
store-assign_row base j (v ∷ row) m (suc k) i h e =
    store-assign_row base (suc j) row (write m (base + j) v) k i (omega (arith, h))
      (omega (arith, e))

store-assigns_below :
    (t r : ℕ) (rows : List (List ℕ)) (m : ℕ → ℕ) (i : ℕ)
    → i < r * t
    → store m (assigns t r rows) i ≡ m i
unfolding assigns
store-assigns_below t r [] m i h = unfold store in refl
store-assigns_below t r (row ∷ rows) m i h =
    let first = assign_row (r * t) 0 row in
    store-append first (assigns t (suc r) rows) m i
    ∙ store-assigns_below t (suc r) rows (store m first) i (omega (arith, h, suc-mul r t))
    ∙ store-assign_row_below (r * t) 0 row m i (omega (arith, h))

-- The table of `rows` at `r * t + j` is the value `j` of row `r`.
store-assigns :
    (t r : ℕ) (rows : List (List ℕ)) (m : ℕ → ℕ) (k j i : ℕ)
    → AllRows t rows
    → k < length rows
    → j < t
    → i ≡ r * t + k * t + j
    → store m (assigns t r rows) i ≡ get_or (get_or rows k []) j 0
unfolding assigns
store-assigns t r [] m k j i w h l e = absurd (omega (arith, h))
store-assigns t r (row ∷ rows) m zero j i w h l e =
    let first = assign_row (r * t) 0 row in
    store-append first (assigns t (suc r) rows) m i
    ∙ store-assigns_below t (suc r) rows (store m first) i (omega (arith, e, l, suc-mul r t))
    ∙ store-assign_row (r * t) 0 row m j i (omega (arith, l, w.0)) (omega (arith, e))
store-assigns t r (row ∷ rows) m (suc k) j i w h l e =
    let first = assign_row (r * t) 0 row in
    store-append first (assigns t (suc r) rows) m i
    ∙ store-assigns t (suc r) rows (store m first) k j i w.1 (omega (arith, h)) l
        (omega (arith, e, suc-mul r t, suc-mul k t))

pub array-assigns :
    (t : ℕ) (rows : List (List ℕ)) (r j : ℕ)
    → AllRows t rows
    → r < length rows
    → j < t
    → array (assigns t 0 rows) (r * t + j) ≡ get_or (get_or rows r []) j 0
array-assigns t rows r j w h l = store-assigns t 0 rows (λ i. 0) r j (r * t + j) w h l (omega arith)
