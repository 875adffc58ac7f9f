-- ===== src/Prover/Workload/Settling.antt =====
-- The spends counted for each payee, and the withdraws that settle them.
use ivc_checkpoints.Prelude.Results.{ok, >>=-then}
use ivc_checkpoints.Prelude.{
  ℕ, zero, suc, ◌+◌, ◌%◌, ◌^◌, ◌<◌, ◌≡◌, refl, sym, ap, ◌∙◌, List, [], ◌∷◌, some, arith, length,
  get_elem?,
}
use ivc_checkpoints.Prelude.Ranges.{sum_of}
use ivc_checkpoints.Native.Book.{if_key, demand}
use ivc_checkpoints.Prover.Workload.{at_least_one, increment, count_nets, withdrawals}

-- What the amounts give to the key `k`, and their sum.
abbrev pub owed : ℕ → List ℕ → List ℕ → ℕ
owed k [] amounts = 0
owed k (key ∷ keys) [] = 0
owed k (key ∷ keys) (amount ∷ amounts) = if_key key k amount + owed k keys amounts

abbrev pub sum : List ℕ → ℕ
sum [] = 0
sum (amount ∷ amounts) = amount + sum amounts

record IsIncremented (keys amounts : List ℕ) (key : ℕ) (i : ℕ) : Type 0 where
  after : List ℕ
  returned : increment amounts i ≡ ok after
  length_lem : length after ≡ length amounts
  sum_lem : sum after ≡ sum amounts + 1
  owed_lem : (k : ℕ) → owed k keys after ≡ owed k keys amounts + if_key key k 1

if_key-suc : (j k v : ℕ) → if_key j k (v + 1) ≡ if_key j k v + if_key j k 1
if_key-suc j k v = ground arith

increment-IsIncremented :
    (keys amounts : List ℕ) (key i : ℕ)
    → length keys ≡ length amounts
    → get_elem? keys i ≡ some key
    → sum amounts + 1 < 2 ^ 128
    → IsIncremented keys amounts key i
unfolding increment
increment-IsIncremented [] amounts key i e h small = absurd (ground arith)
increment-IsIncremented (j ∷ keys) [] key i e h small = absurd (omega (arith, e))
increment-IsIncremented (j ∷ keys) (v ∷ amounts) key zero e h small =
    let exact : (v + 1) % 2 ^ 128 ≡ v + 1 = omega (arith, small) in
    let same : j ≡ key = cc h in
    record {
      after = (v + 1) ∷ amounts;
      returned = ap (λ t. ok (t ∷ amounts)) exact;
      length_lem = refl;
      sum_lem = omega arith;
      owed_lem = λ k.
          ap (λ t. t + owed k keys amounts) (if_key-suc j k v)
          ∙ ap (λ t. if_key j k v + if_key t k 1 + owed k keys amounts) same
          ∙ omega arith;
    }
increment-IsIncremented (j ∷ keys) (v ∷ amounts) key (suc i) e h small =
    let r =
      increment-IsIncremented keys amounts key i (omega (arith, e)) h (omega (arith, small)) in
    record {
      after = v ∷ r.after;
      returned = >>=-then (increment amounts i) _ r.returned refl;
      length_lem = ap suc r.length_lem;
      sum_lem = omega (arith, r.sum_lem);
      owed_lem = λ k. omega (arith, r.owed_lem k);
    }

pub record IsCounted (keys : List ℕ) (pick : ℕ → ℕ) (is amounts : List ℕ) : Type 0 where
  pub after : List ℕ
  pub returned : count_nets (length keys) is amounts ≡ ok after
  pub length_lem : length after ≡ length keys
  pub owed_lem :
      (k : ℕ) → owed k keys after ≡ owed k keys amounts + sum_of (λ i. if_key (pick i) k 1) is

count_nets-cons :
    (n j : ℕ) (js amounts next last : List ℕ)
    → increment amounts (j % at_least_one n) ≡ ok next
    → count_nets n js next ≡ ok last
    → count_nets n (j ∷ js) amounts ≡ ok last
unfolding count_nets
count_nets-cons n j js amounts next last h h' =
    >>=-then (increment amounts (j % at_least_one n)) _ h h'

pub count_nets-IsCounted :
    (keys : List ℕ) (pick : ℕ → ℕ)
    → ((i : ℕ) → get_elem? keys (i % at_least_one (length keys)) ≡ some (pick i))
    → (is amounts : List ℕ) → length keys ≡ length amounts
    → sum amounts + length is < 2 ^ 128
    → IsCounted keys pick is amounts
count_nets-IsCounted keys pick picks [] amounts e small = record {
  after = amounts;
  returned = unfold count_nets in refl;
  length_lem = sym e;
  owed_lem = λ k. omega arith;
}
count_nets-IsCounted keys pick picks (i ∷ is) amounts e small =
    let one =
      increment-IsIncremented keys amounts (pick i) (i % at_least_one (length keys)) e (picks i)
        (omega (arith, small)) in
    let rest =
      count_nets-IsCounted keys pick picks is one.after (e ∙ sym one.length_lem)
        (omega (arith, small, one.sum_lem)) in
    record {
      after = rest.after;
      returned =
          count_nets-cons (length keys) i is amounts one.after rest.after one.returned
            rest.returned;
      length_lem = rest.length_lem;
      owed_lem = λ k. omega (arith, rest.owed_lem k, one.owed_lem k);
    }

-- The withdraws demand from each key what is owed to it.
pub withdrawals-demand :
    (tok : ℕ) (keys amounts : List ℕ) (k : ℕ)
    → demand k (withdrawals tok keys amounts) ≡ owed k keys amounts
unfolding withdrawals demand
withdrawals-demand tok [] amounts k = refl
withdrawals-demand tok (key ∷ keys) [] k = refl
withdrawals-demand tok (key ∷ keys) (amount ∷ amounts) k =
    ground (arith, withdrawals-demand tok keys amounts k)
