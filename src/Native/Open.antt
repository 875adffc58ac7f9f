-- ===== src/Native/Open.antt =====
-- Registered accounts, and the book that EpochExecutor of crates/ledger-circuit/src/native.rs keeps.
use ivc_checkpoints.Prelude.Results.{ok, panic}
use ivc_checkpoints.Prelude.{
  ℕ, ◌+◌, ◌-◌, ◌%◌, ◌^◌, ◌<◌, ◌≡◌, sym, ap, ◌∙◌, List, [], ◌∷◌, Option, some, none, arith,
  unwrap_or,
}
use ivc_checkpoints.Prelude.Dict.{lookup, insert, lookup-insert, total}
use ivc_checkpoints.Field.{Arkworks}
use ivc_checkpoints.Ops.{OpKind, OpWitness}
use ivc_checkpoints.Native.{
  EpochExecutor, Result, Request, load_of, spend_of, withdraw_of, debit, credit, accumulate,
  debited, outcome, apply,
}
use ivc_checkpoints.Native.Valid.{IsAccount}
use ivc_checkpoints.Native.Applied.{apply-IsApplied, credit_small, apply-maps}
use ivc_checkpoints.Native.Returns.{lookup-written}
use ivc_checkpoints.Native.Book.{Book, source, target, moved}

-- The book that an executor keeps: an account that is not there has no balance.
abbrev pub book_of : EpochExecutor → Book
book_of x = record { balance = λ k. unwrap_or (lookup k x.balances) 0; paid = x.nets }

-- A result seen as a book; a panic has none.
abbrev pub seen : Result (EpochExecutor × List OpWitness) → Option Book
seen (panic why) = none
seen (ok (x, ws)) = some (book_of x)

abbrev pub token_of : Request → ℕ
token_of (load_of from to tok amount) = tok
token_of (spend_of from to tok amount) = tok
token_of (withdraw_of payee tok amount) = tok

-- A key that is registered under a token.
pub record IsOpen (x : EpochExecutor) (tok k : ℕ) : Type 0 where
  pub slot : ℕ
  pub balance : ℕ
  pub nonce : ℕ
  pub account : IsAccount x k slot tok balance nonce

-- The accounts of each call are registered under its token.
abbrev pub AllOpen : EpochExecutor → List Request → Type 0
AllOpen x [] = Unit {0}
AllOpen x (r ∷ rs) =
    IsOpen x (token_of r) (source r) × IsOpen x (token_of r) (target x.sink_key r) × AllOpen x rs

module _ (F : Arkworks) (x : EpochExecutor) (kind : OpKind) (from to tok amount : ℕ)
    (x' : EpochExecutor) (w : OpWitness) (h : apply F x kind from to tok amount ≡ ok (x', w)) where
  pub apply-balances :
      total x.balances < 2 ^ 128
      → (k : ℕ) → (book_of x').balance k ≡ moved (book_of x).balance from to amount k
  unfolding outcome debited debit credit accumulate
  apply-balances small k =
      let a = apply-IsApplied F x kind from to tok amount (x', w) h in
      let left = insert from (a.fb - amount) x.balances in
      let exact : (a.tb + amount) % 2 ^ 128 ≡ a.tb + amount =
        omega (arith, credit_small F x kind from to tok amount (x', w) a (2 ^ 128) small) in
      sym (ap (λ r. unwrap_or (lookup k r.0.balances) 0) a.returned)
      ∙ ap (λ v. unwrap_or (lookup k (insert to v left)) 0) exact
      ∙ ground (
        arith,
        lookup-insert to k (a.tb + amount) left,
        lookup-insert from k (a.fb - amount) x.balances,
        lookup-insert from to (a.fb - amount) x.balances,
        a.from_balance,
        a.to_balance,
      )

  -- The accounts stay open, under their tokens.
  pub apply-IsOpen : (tok' k : ℕ) → IsOpen x tok' k → IsOpen x' tok' k
  unfolding outcome debited debit credit accumulate
  apply-IsOpen tok' k o =
      let a = apply-IsApplied F x kind from to tok amount (x', w) h in
      let (slots, tokens, _, (n, _, nonces)) = apply-maps F x kind from to tok amount x' w h in
      let (u, e) = lookup-written from k (a.fb - amount) x.balances o.account.balance in
      let (v, e') =
        lookup-written to k ((a.tb + amount) % 2 ^ 128) (insert from (a.fb - amount) x.balances)
          e in
      let (m, e'') = lookup-written from k ((n + 1) % 2 ^ 64) x.nonces o.account.nonce in
      record {
        slot = o.slot;
        balance = v;
        nonce = m;
        account = record {
          slot = ap (lookup k) slots ∙ o.account.slot;
          token = ap (lookup k) tokens ∙ o.account.token;
          balance = sym (ap (λ r. lookup k r.0.balances) a.returned) ∙ e';
          nonce = ap (lookup k) nonces ∙ e'';
        };
      }
