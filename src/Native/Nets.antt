-- ===== src/Native/Nets.antt =====
-- The ordered list of payouts against the accumulator that the circuit folds.
use ivc_checkpoints.Prelude.Results.{>>=-ok, ok, ok-injective}
use ivc_checkpoints.Prelude.{ℕ, ◌≡◌, refl, sym, ap, ◌∙◌, subst, List, [], ◌∷◌, ◌++◌}
use ivc_checkpoints.Field.{Arkworks, of_int}
use ivc_checkpoints.Poseidon.{h4}
use ivc_checkpoints.Ops.{OpKind, OpWitness, load, spend, withdraw}
use ivc_checkpoints.Native.{
  EpochExecutor, debit, credit, accumulate, debited, outcome, apply, Request, load_of, spend_of,
  withdraw_of, perform, run,
}
use ivc_checkpoints.Native.Applied.{apply-IsApplied}

-- The payouts of a sequence of calls: payee, token and amount of each withdraw, in order.
abbrev pub payouts : List Request → List (ℕ × ℕ × ℕ)
payouts [] = []
payouts (load_of from to tok amount ∷ rs) = payouts rs
payouts (spend_of from to tok amount ∷ rs) = payouts rs
payouts (withdraw_of payee tok amount ∷ rs) = (payee, tok, amount) ∷ payouts rs

module _ (F : Arkworks) where
  -- The fold of a list of payouts, as a settlement contract recomputes it.
  abbrev pub fold_nets : ℕ → List (ℕ × ℕ × ℕ) → ℕ
  fold_nets acc [] = acc
  fold_nets acc ((key, tok, amount) ∷ ns) = fold_nets (h4 F acc key tok (of_int F amount)) ns

  append_assoc : (xs ys zs : List (ℕ × ℕ × ℕ)) → (xs ++ ys) ++ zs ≡ xs ++ (ys ++ zs)
  append_assoc [] ys zs = refl
  append_assoc (x ∷ xs) ys zs = ap (λ l. x ∷ l) (append_assoc xs ys zs)

  append_nil : (xs : List (ℕ × ℕ × ℕ)) → xs ++ [] ≡ xs
  append_nil [] = refl
  append_nil (x ∷ xs) = ap (λ l. x ∷ l) (append_nil xs)

  -- One operation adds one payout, or none.
  abbrev pub own : OpKind → ℕ → ℕ → ℕ → List (ℕ × ℕ × ℕ)
  own withdraw from tok amount = (from, tok, amount) ∷ []
  own _ from tok amount = []

  pub apply-nets :
      (x : EpochExecutor) (kind : OpKind) (from to tok amount : ℕ) (x' : EpochExecutor)
      (w : OpWitness)
      → apply F x kind from to tok amount ≡ ok (x', w)
      → (x'.nets ≡ x.nets ++ own kind from tok amount)
        × (x'.nets_acc ≡ fold_nets x.nets_acc (own kind from tok amount))
  unfolding outcome debited debit credit accumulate
  apply-nets x load from to tok amount x' w h =
      let a = apply-IsApplied F x load from to tok amount (x', w) h in
      (
        sym (ap (λ r. r.0.nets) a.returned) ∙ sym (append_nil x.nets),
        sym (ap (λ r. r.0.nets_acc) a.returned),
      )
  apply-nets x spend from to tok amount x' w h =
      let a = apply-IsApplied F x spend from to tok amount (x', w) h in
      (
        sym (ap (λ r. r.0.nets) a.returned) ∙ sym (append_nil x.nets),
        sym (ap (λ r. r.0.nets_acc) a.returned),
      )
  apply-nets x withdraw from to tok amount x' w h =
      let a = apply-IsApplied F x withdraw from to tok amount (x', w) h in
      (sym (ap (λ r. r.0.nets) a.returned), sym (ap (λ r. r.0.nets_acc) a.returned))

  -- The payouts `own` of one call, and the rest of the sequence.
  perform-nets :
      (x x' : EpochExecutor) (r : Request) (rs : List Request) (w : OpWitness)
      → perform F x r ≡ ok (x', w)
      → (x'.nets ++ payouts rs ≡ x.nets ++ payouts (r ∷ rs))
        × (fold_nets x'.nets_acc (payouts rs) ≡ fold_nets x.nets_acc (payouts (r ∷ rs)))
  unfolding perform
  perform-nets x x' (load_of from to tok amount) rs w h =
      let (e, e') = apply-nets x load from to tok amount x' w h in
      (ap (λ l. l ++ payouts rs) (e ∙ append_nil x.nets), ap (λ a. fold_nets a (payouts rs)) e')
  perform-nets x x' (spend_of from to tok amount) rs w h =
      let (e, e') = apply-nets x spend from to tok amount x' w h in
      (ap (λ l. l ++ payouts rs) (e ∙ append_nil x.nets), ap (λ a. fold_nets a (payouts rs)) e')
  perform-nets x x' (withdraw_of payee tok amount) rs w h =
      let (e, e') = apply-nets x withdraw payee x.sink_key tok amount x' w h in
      (
        ap (λ l. l ++ payouts rs) e ∙ append_assoc x.nets ((payee, tok, amount) ∷ []) (payouts rs),
        ap (λ a. fold_nets a (payouts rs)) e',
      )

  abbrev Settles : EpochExecutor → List Request → EpochExecutor × List OpWitness → Type 0
  Settles x rs r =
      (r.0.nets ≡ x.nets ++ payouts rs) × (r.0.nets_acc ≡ fold_nets x.nets_acc (payouts rs))

  run-Settles :
      (rs : List Request) (x : EpochExecutor) (r : EpochExecutor × List OpWitness)
      → run F x rs ≡ ok r
      → Settles x rs r
  unfolding run
  run-Settles [] x r h = subst (Settles x []) (ok-injective h) (sym (append_nil x.nets), refl)
  run-Settles (q ∷ rs) x r h =
      let ((y, w), e, h₁) = >>=-ok (perform F x q) _ h in
      let ((z, ws), e', h₂) = >>=-ok (run F y rs) _ h₁ in
      let (list, acc) = perform-nets x y q rs w e in
      let (list', acc') = run-Settles rs y (z, ws) e' in
      subst (Settles x (q ∷ rs)) (ok-injective h₂) (list' ∙ list, acc' ∙ acc)

  -- A sequence of calls that returns appends to the list of payouts the payee, token and amount
  -- of each withdraw, in order, and the nets accumulator is the fold of them onto the old one.
  pub run-nets :
      (rs : List Request) (x x' : EpochExecutor) (ws : List OpWitness)
      → run F x rs ≡ ok (x', ws)
      → (x'.nets ≡ x.nets ++ payouts rs) × (x'.nets_acc ≡ fold_nets x.nets_acc (payouts rs))
  run-nets rs x x' ws h = run-Settles rs x (x', ws) h
