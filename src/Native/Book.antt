-- ===== src/Native/Book.antt =====
-- The ledger that EpochExecutor of crates/ledger-circuit/src/native.rs keeps, without the tree,
-- the slots, the nonces and the accumulators: unbounded balances, and the list of payouts.
use ivc_checkpoints.Prelude.{
  ℕ, ◌+◌, ◌-◌, ◌≤◌, ◌≡◌, List, [], ◌∷◌, ◌++◌, Option, some, none, arith, refl, subst, ap, ◌∙◌, inl,
  inr, Bool-cases, ==_iff, le→leb, leb, ◌==◌, if◌then◌else◌, write,
}
use ivc_checkpoints.Native.{Request, load_of, spend_of, withdraw_of}
use ivc_checkpoints.Native.Nets.{payouts}

pub record Book : Type 0 where
  pub balance : ℕ → ℕ
  pub paid : List (ℕ × ℕ × ℕ)

-- The account that a call debits, the one that it credits, and the amount.
abbrev pub source : Request → ℕ
source (load_of from to tok amount) = from
source (spend_of from to tok amount) = from
source (withdraw_of payee tok amount) = payee

abbrev pub target : ℕ → Request → ℕ
target sink (load_of from to tok amount) = to
target sink (spend_of from to tok amount) = to
target sink (withdraw_of payee tok amount) = sink

abbrev pub value : Request → ℕ
value (load_of from to tok amount) = amount
value (spend_of from to tok amount) = amount
value (withdraw_of payee tok amount) = amount

-- The balances after `amount` has moved.
abbrev pub moved : (ℕ → ℕ) → ℕ → ℕ → ℕ → ℕ → ℕ
moved balance from to amount =
    let left = write balance from (balance from - amount) in write left to (left to + amount)

module _ (sink : ℕ) where
  -- The book after a call that the balance covers.
  abbrev pub posted : Book → Request → Book
  posted b r = record {
    balance = moved b.balance (source r) (target sink r) (value r);
    paid = b.paid ++ payouts (r ∷ []);
  }

  unfoldable pub post : Book → Request → Option Book
  post b r = if leb (value r) (b.balance (source r)) then some (posted b r) else none

  unfoldable pub post_all : Book → List Request → Option Book
  post_all b [] = some b
  post_all b (r ∷ rs) = elim (post b r) [ none ↦ none | some b' ↦ post_all b' rs ]

-- What a sequence takes from a key, and what it gives to it.
abbrev pub if_key : ℕ → ℕ → ℕ → ℕ
if_key j k v = if j == k then v else 0

if_key_self : (j v : ℕ) → if_key j j v ≡ v
if_key_self j v = ground arith

unfoldable pub demand : ℕ → List Request → ℕ
demand k [] = 0
demand k (r ∷ rs) = if_key (source r) k (value r) + demand k rs

unfoldable pub income : ℕ → ℕ → List Request → ℕ
income sink k [] = 0
income sink k (r ∷ rs) = if_key (target sink r) k (value r) + income sink k rs

-- Money is moved, and not made.
moved_lem :
    (f : ℕ → ℕ) (from to amount k : ℕ)
    → amount ≤ f from
    → moved f from to amount k + if_key from k amount ≡ f k + if_key to k amount
moved_lem f from to amount k h = elim (Bool-cases (from == k)) [
  | inl e ↦
      let same : from ≡ k = (==_iff from k).0 e in
      subst (λ j. moved f from to amount j + if_key from j amount ≡ f j + if_key to j amount) same
        (moved-source to)
  | inr e ↦ ground (arith, e)
]
  where
    moved-source :
        (t : ℕ)
        → moved f from t amount from + if_key from from amount ≡ f from + if_key t from amount
    moved-source t = ground (arith, h)

module _ (sink : ℕ) where
  post-covered :
      (b : Book) (r : Request)
      → value r ≤ b.balance (source r)
      → (b' : Book) × (post sink b r ≡ some b')
        × ((k : ℕ)
            → b'.balance k + if_key (source r) k (value r)
              ≡ b.balance k + if_key (target sink r) k (value r))
  unfolding post
  post-covered b r h = (
    posted sink b r,
    ap (λ t. if t then some (posted sink b r) else none)
        (le→leb (value r) (b.balance (source r)) h),
    λ k. moved_lem b.balance (source r) (target sink r) (value r) k h,
  )

  pub post_all-cons :
      (b b' : Book) (r : Request) (rs : List Request)
      → post sink b r ≡ some b'
      → post_all sink b (r ∷ rs) ≡ post_all sink b' rs
  unfolding post_all
  post_all-cons b b' r rs e = rw (e, post_all) refl

  pub post_all-none :
      (b : Book) (r : Request) (rs : List Request)
      → post sink b r ≡ none
      → post_all sink b (r ∷ rs) ≡ none
  unfolding post_all
  post_all-none b r rs e = rw (e, post_all) refl

  -- A sequence whose demand is covered at the start goes through: income only helps.
  pub post_all-covered :
      (rs : List Request) (b : Book)
      → ((k : ℕ) → demand k rs ≤ b.balance k)
      → (b' : Book) × (post_all sink b rs ≡ some b')
        × ((k : ℕ) → b'.balance k + demand k rs ≡ b.balance k + income sink k rs)
  unfolding demand income
  post_all-covered [] b h = (b, unfold post_all in refl, λ k. refl)
  post_all-covered (r ∷ rs) b h =
      let first : value r ≤ b.balance (source r) =
        omega (arith, h (source r), if_key_self (source r) (value r)) in
      let (b₁, e, step) = post-covered b r first in
      let (b₂, e', rest) = post_all-covered rs b₁ (λ k. omega (arith, h k, step k)) in
      (b₂, post_all-cons b b₁ r rs e ∙ e', λ k. omega (arith, step k, rest k))
