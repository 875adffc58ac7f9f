-- ===== src/Prover/Workload/Assembled.antt =====
-- The parts of a workload's assembly that can fail: when each returns.
use native.Mathlib.Nat.{mul-le-mul_right}
use ivc_checkpoints.Prelude.Results.{ok, ok-injective, >>=-ok, >>=-Returns, expect-Returns, Returns}
use ivc_checkpoints.Prelude.{
  ℕ, zero, suc, ◌+◌, ◌-◌, ◌*◌, true, ◌≤◌, ◌<◌, ◌≡◌, refl, sym, ap, ◌∙◌, List, [], ◌∷◌, ◌++◌, Option,
  some, none, arith, inl, inr, ltb, le→leb, Bool-cases, Option-cases, dec_lt, ◌==◌, ==_iff, length,
  length-append, length-replicate, get_elem?, replicate,
}
use ivc_checkpoints.Field.{Arkworks}
use ivc_checkpoints.Ops.{OpWitness, EpochStepInput, padding, default_input}
use ivc_checkpoints.Native.{EpochExecutor, ExitPath, Request, exit_witness, perform, run}
use ivc_checkpoints.Native.Nets.{payouts}
use ivc_checkpoints.Native.Open.{IsOpen}
use ivc_checkpoints.Prover.{chunk_into_batches, pad_to_steps}
use ivc_checkpoints.Prover.Chunks.{flatten, AllFull, chunk_into_batches-flatten}
use ivc_checkpoints.Prover.Workload.{position, net_entries, withdrawals}
use ivc_checkpoints.Prover.Workload.Completed.{tok}

-- Each payout is of a key of the list.
abbrev pub Known : List ℕ → List (ℕ × ℕ × ℕ) → Type 0
Known keys [] = Unit {0}
Known keys ((key, _, _) ∷ nets) = ((i : ℕ) × (get_elem? keys i ≡ some key)) × Known keys nets

Known-cons :
    (k : ℕ) (keys : List ℕ) (nets : List (ℕ × ℕ × ℕ)) → Known keys nets → Known (k ∷ keys) nets
Known-cons k keys [] h = tt
Known-cons k keys ((key, _, _) ∷ nets) h = ((suc h.0.0, h.0.1), Known-cons k keys nets h.1)

pub withdrawals-Known :
    (tok : ℕ) (keys amounts : List ℕ) → Known keys (payouts (withdrawals tok keys amounts))
unfolding withdrawals
withdrawals-Known tok [] amounts = tt
withdrawals-Known tok (key ∷ keys) [] = tt
withdrawals-Known tok (key ∷ keys) (amount ∷ amounts) =
    let rest = Known-cons key keys _ (withdrawals-Known tok keys amounts) in
    elim (Bool-cases (ltb 0 amount)) [ inl e ↦ rw e ((0, refl), rest) | inr e ↦ rw e rest ]

pub length-withdrawals :
    (tok : ℕ) (keys amounts : List ℕ) → length (withdrawals tok keys amounts) ≤ length keys
unfolding withdrawals
length-withdrawals tok [] amounts = omega arith
length-withdrawals tok (key ∷ keys) [] = omega arith
length-withdrawals tok (key ∷ keys) (amount ∷ amounts) =
    ground (arith, length-withdrawals tok keys amounts)

-- A key that is there is found, at a place that is there in a list of the same length.
position-found :
    {A : Type 0} (keys : List ℕ) (xs : List A) (i key : ℕ)
    → length xs ≡ length keys
    → get_elem? keys i ≡ some key
    → (j : ℕ) × (x : A) × (position keys key ≡ some j) × (get_elem? xs j ≡ some x)
unfolding position
position-found [] xs i key e h = absurd (ground arith)
position-found (k ∷ keys) [] i key e h = absurd (omega (arith, e))
position-found (k ∷ keys) (x ∷ xs) zero key e h =
    let same : (k == key) ≡ true = (==_iff k key).1 (cc h) in (0, x, rw same refl, refl)
position-found (k ∷ keys) (x ∷ xs) (suc i) key e h = elim (Bool-cases (k == key)) [
  | inl same ↦ (0, x, rw same refl, refl)
  | inr other ↦
      let (j, y, found, there) = position-found keys xs i key (omega (arith, e)) h in
      (suc j, y, rw (other, found) refl, there)
]

pub net_entries-Returns :
    (addrs : List (List ℕ)) (keys : List ℕ) (nets : List (ℕ × ℕ × ℕ))
    → length addrs ≡ length keys
    → Known keys nets
    → Returns (net_entries addrs keys nets)
unfolding net_entries
net_entries-Returns addrs keys [] e known = ([], refl)
net_entries-Returns addrs keys ((key, t, amount) ∷ nets) e known =
    let (j, a, found, there) = position-found keys addrs known.0.0 key e known.0.1 in
    let (es, rest) = net_entries-Returns addrs keys nets e known.1 in
    expect-Returns (position keys key) _ _ found (
      expect-Returns (get_elem? addrs j) _ _ there
        (>>=-Returns (net_entries addrs keys nets) _ rest (_, refl)))

pub exit_witness-IsOpen :
    (x : EpochExecutor) (tok key : ℕ)
    → IsOpen x tok key
    → (p : ExitPath) × (exit_witness x key ≡ some p)
unfolding exit_witness
exit_witness-IsOpen x tok key o = elim (Option-cases (exit_witness x key)) [
  | inl e ↦ absurd (ground (arith, o.account.slot, o.account.balance, o.account.nonce))
  | inr found ↦ found
]

pub length-flatten :
    (B : ℕ) (bs : List EpochStepInput) → AllFull B bs → length (flatten bs) ≡ length bs * B
length-flatten B [] full = omega arith
length-flatten B (b ∷ bs) full =
    length-append b (flatten bs) ∙ grind (arith, length-flatten B bs full.1, full.0)

module _ (B D : ℕ) (pos : 0 < B) where
  -- Operations that fit in the target's batches leave room for the padding.
  length-chunk_into_batches :
      (ops : List OpWitness) (target : ℕ)
      → length ops ≤ target * B
      → length (chunk_into_batches B D ops) ≤ target
  length-chunk_into_batches ops target fit =
      let bs = chunk_into_batches B D ops in
      let (k, lt, e, full) = chunk_into_batches-flatten B D ops pos in
      let size : length bs * B ≡ length ops + k = omega (
        arith,
        length-flatten B bs full,
        ap length e,
        length-append ops (replicate k (padding D)),
        length-replicate k (padding D),
      ) in
      elim (dec_lt target (length bs)) [
        | yes more ↦
            let many : suc target * B ≤ length bs * B = mul-le-mul_right B more in
            absurd (omega (arith, size, fit, lt, many))
        | no less ↦ omega (arith, less)
      ]

  pub pad_to_steps-returns :
      (steps : Option ℕ) (ops : List OpWitness)
      → ((target : ℕ) → steps ≡ some target → length ops ≤ target * B)
      → (out : List EpochStepInput) × (pad_to_steps B D steps (chunk_into_batches B D ops)
          ≡ some out)
  unfolding pad_to_steps
  pad_to_steps-returns none ops fit = (_, refl)
  pad_to_steps-returns (some target) ops fit =
      let batches = chunk_into_batches B D ops in
      let fits =
        le→leb (length batches) target (length-chunk_into_batches ops target (fit target refl)) in
      (batches ++ replicate (target - length batches) (default_input B D), rw fits refl)

pub length-run :
    (F : Arkworks) (rs : List Request) (x : EpochExecutor) (p : EpochExecutor × List OpWitness)
    → run F x rs ≡ ok p
    → length p.1 ≡ length rs
unfolding run
length-run F [] x p h = sym (ap (λ q. length q.1) (ok-injective h))
length-run F (r ∷ rs) x p h =
    let ((y, w), e, h₁) = >>=-ok (perform F x r) _ h in
    let ((z, ws), e', h₂) = >>=-ok (run F y rs) _ h₁ in
    sym (ap (λ q. length q.1) (ok-injective h₂)) ∙ ap suc (length-run F rs y (z, ws) e')
