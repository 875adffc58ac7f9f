-- ===== src/Prover/Chunks.antt =====
-- Chunking keeps the operations in order and pads the last batch alone.
use ivc_checkpoints.Prelude.{
  ℕ, zero, suc, ◌+◌, ◌-◌, ◌*◌, ◌≤◌, ◌<◌, ◌≡◌, refl, sym, ap, ap₂, ◌∙◌, List, [], ◌∷◌, ◌++◌, length,
  replicate, arith, dec_lt, some, leb, leb→le, Bool-cases, inl, inr, subst, length-append,
  length-replicate,
}
use mathlib.Core.List.{append_assoc, append-nil}
use ivc_checkpoints.Ops.{OpWitness, EpochStepInput, padding, default_input}
use ivc_checkpoints.Prover.{next_batch, chunk_loop, chunk_into_batches, pad_to_steps}

-- The batches one after another, and the statement that each is full.
abbrev pub flatten : List EpochStepInput → List OpWitness
flatten [] = []
flatten (b ∷ bs) = b ++ flatten bs

abbrev pub AllFull : ℕ → List EpochStepInput → Type 0
AllFull B [] = Unit {0}
AllFull B (b ∷ bs) = (length b ≡ B) × AllFull B bs

nil_of_length : (xs : List OpWitness) → length xs ≡ 0 → xs ≡ []
nil_of_length [] h = refl
nil_of_length (x ∷ xs) h = absurd (omega arith)

flatten-append : (bs cs : List EpochStepInput) → flatten (bs ++ cs) ≡ flatten bs ++ flatten cs
flatten-append [] cs = refl
flatten-append (b ∷ bs) cs =
    ap (◌++◌ b) (flatten-append bs cs) ∙ sym (append_assoc b (flatten bs) (flatten cs))

AllFull-append :
    (B : ℕ) (bs cs : List EpochStepInput) → AllFull B bs → AllFull B cs → AllFull B (bs ++ cs)
AllFull-append B [] cs f g = g
AllFull-append B (b ∷ bs) cs f g = (f.0, AllFull-append B bs cs f.1 g)

module _ (B D : ℕ) where
  -- Some operations followed by `k` inactive ones.
  abbrev pub padded : List OpWitness → ℕ → List OpWitness
  padded ops k = ops ++ replicate k (padding D)

  next_batch_lem :
      (n : ℕ) (it : List OpWitness)
      → let (arr, rest) = next_batch B D n it in
        (length arr ≡ n) × (length rest ≡ length it - n) × (arr ++ rest ≡ padded it (n - length it))
  unfolding next_batch
  next_batch_lem zero [] = (refl, refl, refl)
  next_batch_lem zero (op ∷ it) = (
    refl,
    omega arith,
    sym (append-nil (op ∷ it))
        ∙ ap (padded (op ∷ it)) {x = 0} {y = 0 - suc (length it)} (omega arith),
  )
  next_batch_lem (suc n) [] =
      let (l, r, e) = next_batch_lem n [] in
      (
        ap suc l,
        omega arith,
        ap (◌∷◌ (padding D)) e ∙ ap (padded []) {x = suc (n - 0)} {y = suc n - 0} (omega arith),
      )
  next_batch_lem (suc n) (op ∷ it) =
      let (l, r, e) = next_batch_lem n it in
      (
        ap suc l,
        omega arith,
        ap (◌∷◌ op) e
            ∙ ap (padded (op ∷ it)) {x = n - length it} {y = suc n - suc (length it)} (omega arith),
      )

  replicate-append :
      (j k : ℕ) → replicate j (padding D) ++ replicate k (padding D) ≡ replicate (j + k) (padding D)
  replicate-append zero k = ap (λ n. replicate n (padding D)) (omega arith)
  replicate-append (suc j) k =
      ap (◌∷◌ (padding D)) (replicate-append j k)
      ∙ ap (λ n. replicate n (padding D)) {x = suc (j + k)} {y = suc j + k} (omega arith)

  pub padded-padded :
      (ops : List OpWitness) (j k : ℕ)
      → padded ops j ++ replicate k (padding D) ≡ padded ops (j + k)
  padded-padded ops j k =
      append_assoc ops (replicate j (padding D)) (replicate k (padding D))
      ∙ ap (◌++◌ ops) (replicate-append j k)

  chunk_loop-nil : (fuel : ℕ) (it : List OpWitness) → length it ≡ 0 → chunk_loop B D fuel it ≡ []
  unfolding chunk_loop
  chunk_loop-nil zero it h = refl
  chunk_loop-nil (suc fuel) [] h = refl
  chunk_loop-nil (suc fuel) (op ∷ it) h = absurd (omega arith)

  chunk_loop-enough :
      (f g : ℕ) (it : List OpWitness)
      → 0 < B
      → length it ≤ f
      → length it ≤ g
      → chunk_loop B D f it ≡ chunk_loop B D g it
  unfolding chunk_loop
  chunk_loop-enough f g [] pos hf hg = chunk_loop-nil f [] refl ∙ sym (chunk_loop-nil g [] refl)
  chunk_loop-enough zero g (op ∷ it) pos hf hg = absurd (omega arith)
  chunk_loop-enough (suc f) zero (op ∷ it) pos hf hg = absurd (omega arith)
  chunk_loop-enough (suc f) (suc g) (op ∷ it) pos hf hg =
      let (l, r, e) = next_batch_lem B (op ∷ it) in
      ap (◌∷◌ (next_batch B D B (op ∷ it)).0)
        (chunk_loop-enough f g (next_batch B D B (op ∷ it)).1 pos (omega arith) (omega arith))

  -- With batches that are not empty, the loop ends: any fuel of at least the number of operations
  -- gives the same batches as `chunk_into_batches`.
  pub chunk_loop-chunk_into_batches :
      (fuel : ℕ) (ops : List OpWitness)
      → 0 < B
      → length ops ≤ fuel
      → chunk_loop B D fuel ops ≡ chunk_into_batches B D ops
  unfolding chunk_into_batches
  chunk_loop-chunk_into_batches fuel ops pos h =
      chunk_loop-enough fuel (length ops) ops pos h (omega arith)

  -- What the batches of some operations are.
  abbrev IsChunking : List OpWitness → List EpochStepInput → Type 0
  IsChunking ops bs = (k : ℕ) × (k < B) × (flatten bs ≡ padded ops k) × AllFull B bs

  chunk_loop-IsChunking :
      (fuel : ℕ) (it : List OpWitness)
      → 0 < B
      → length it ≤ fuel
      → IsChunking it (chunk_loop B D fuel it)
  unfolding chunk_loop
  chunk_loop-IsChunking zero [] pos h = (0, pos, refl, tt)
  chunk_loop-IsChunking zero (op ∷ it) pos h = absurd (omega arith)
  chunk_loop-IsChunking (suc fuel) [] pos h = (0, pos, refl, tt)
  chunk_loop-IsChunking (suc fuel) (op ∷ it) pos h =
      let (l, r, e) = next_batch_lem B (op ∷ it) in
      let rest = (next_batch B D B (op ∷ it)).1 in
      let (k, lt, e', full) = chunk_loop-IsChunking fuel rest pos (omega arith) in
      elim (dec_lt (length (op ∷ it)) B) [
        | yes short ↦ (
          B - length (op ∷ it),
          omega arith,
          ap (λ bs. (next_batch B D B (op ∷ it)).0 ++ flatten bs)
                (chunk_loop-nil fuel rest (omega arith))
              ∙ ap (◌++◌ (next_batch B D B (op ∷ it)).0) (sym (nil_of_length rest (omega arith)))
              ∙ e,
          (l, full),
        )
        | no long ↦ (
          k,
          lt,
          ap (◌++◌ (next_batch B D B (op ∷ it)).0) e'
              ∙ sym (append_assoc (next_batch B D B (op ∷ it)).0 rest (replicate k (padding D)))
              ∙ ap (λ xs. xs ++ replicate k (padding D)) e
              ∙ padded-padded (op ∷ it) (B - length (op ∷ it)) k
              ∙ ap (padded (op ∷ it)) {x = B - length (op ∷ it) + k} {y = k} (omega arith),
          (l, full),
        )
      ]

  -- The batches hold the operations in order, followed by fewer than `B` inactive ones, and each
  -- batch is full.
  pub chunk_into_batches-flatten :
      (ops : List OpWitness)
      → 0 < B
      → (k : ℕ) × (k < B)
        × (flatten (chunk_into_batches B D ops) ≡ padded ops k)
        × AllFull B (chunk_into_batches B D ops)
  unfolding chunk_into_batches
  chunk_into_batches-flatten ops pos = chunk_loop-IsChunking (length ops) ops pos (omega arith)

  replicate_batches :
      (n : ℕ)
      → AllFull B (replicate n (default_input B D))
        × (flatten (replicate n (default_input B D)) ≡ replicate (n * B) (padding D))
  unfolding default_input
  replicate_batches zero = (tt, ap (λ k. replicate k (padding D)) {x = 0} {y = 0 * B} (omega arith))
  replicate_batches (suc n) =
      let (full, e) = replicate_batches n in
      (
        (length-replicate B (padding D), full),
        ap (◌++◌ (replicate B (padding D))) e
            ∙ replicate-append B (n * B)
            ∙ ap (λ k. replicate k (padding D)) {x = B + n * B} {y = suc n * B} (omega arith),
      )

  -- Padding to a number of steps gives that number, and appends inactive operations alone.
  pub pad_to_steps-flatten :
      (target : ℕ) (ops : List OpWitness) (k : ℕ) (batches out : List EpochStepInput)
      → AllFull B batches
      → flatten batches ≡ padded ops k
      → pad_to_steps B D (some target) batches ≡ some out
      → (length out ≡ target) × AllFull B out × ((j : ℕ) × (flatten out ≡ padded ops j))
  unfolding pad_to_steps
  pad_to_steps-flatten target ops k batches out full e h =
      elim (Bool-cases (leb (length batches) target)) [
        | inl le ↦
            let n = target - length batches in
            let pads = replicate n (default_input B D) in
            let (pads_full, pads_e) = replicate_batches n in
            let eq : batches ++ pads ≡ out = ground arith in
            (
              sym (ap length eq)
                  ∙ length-append batches pads
                  ∙ omega (
                    arith,
                    length-replicate n (default_input B D),
                    leb→le (length batches) target le,
                  ),
              subst (AllFull B) eq (AllFull-append B batches pads full pads_full),
              (
                k + n * B,
                sym (ap flatten eq)
                    ∙ flatten-append batches pads
                    ∙ ap₂ ◌++◌ e pads_e
                    ∙ padded-padded ops k (n * B),
              ),
            )
        | inr gt ↦ absurd (ground arith)
      ]
