-- ===== src/Native/Canonical.antt =====
-- The nodes of the executor's tree are field elements in their canonical form, below the modulus.
use Prim.Native.Nat.{bit_xor}
use ivc_checkpoints.Prelude.{
  ℕ, zero, suc, ◌+◌, ◌/◌, ◌^◌, ◌<◌, ◌≤◌, ◌≡◌, sym, ap, subst, List, [], ◌∷◌, arith, Option-cases,
  Bool-cases, inl, inr, ltb,
}
use ivc_checkpoints.Prelude.Results.{>>=-ok, ok, ok-injective}
use ivc_checkpoints.Prelude.Dict.{lookup}
use ivc_checkpoints.Field.{Arkworks, IsField, of_int}
use ivc_checkpoints.Poseidon.{h2, h4}
use ivc_checkpoints.Imt
use ivc_checkpoints.Imt.{MerkleTree, zeros_from, node, leaf, siblings_from, siblings, set_leaf}
use ivc_checkpoints.Imt.Consistent.{IsConsistent}
use ivc_checkpoints.Imt.Paths.{leaf-set_leaf}
use ivc_checkpoints.Ops.{OpKind, OpWitness}
use ivc_checkpoints.Native.{
  EpochExecutor, new, register, debit, credit, accumulate, debited, outcome, apply, Request,
  load_of, spend_of, withdraw_of, perform, run,
}
use ivc_checkpoints.Native.Applied.{apply-IsApplied}

abbrev pub AllBelow : ℕ → List ℕ → Type 0
AllBelow p [] = Unit {0}
AllBelow p (x ∷ xs) = (x < p) × AllBelow p xs

module _ (F : Arkworks) (field : IsField F) where
  abbrev pub IsCanonical : MerkleTree → Type 0
  IsCanonical t = (i : ℕ) → leaf t i < F.modulus

  pub h2-lt : (a b : ℕ) → h2 F a b < F.modulus
  unfolding h2
  h2-lt a b = field.evaluate_lt (a ∷ b ∷ [])

  pub h4-lt : (a b c d : ℕ) → h4 F a b c d < F.modulus
  unfolding h4
  h4-lt a b c d = field.evaluate_lt (a ∷ b ∷ c ∷ d ∷ [])

  set_leaf-IsCanonical :
      (t : MerkleTree) (slot key tok b n : ℕ)
      → IsCanonical t
      → IsCanonical (set_leaf F t slot (h4 F key tok b n))
  set_leaf-IsCanonical t slot key tok b n c i =
      ground (arith, leaf-set_leaf F t slot (h4 F key tok b n) i, h4-lt key tok b n, c i)

  -- A registration writes one leaf.
  register-tree :
      (D : ℕ) (x : EpochExecutor) (key tok b n : ℕ) (x' : EpochExecutor)
      → register F D x key tok b n ≡ ok x'
      → (slot : ℕ) × (x'.tree ≡ set_leaf F x.tree slot (h4 F key tok (of_int F b) (of_int F n)))
  unfolding register
  register-tree D x key tok b n x' h = elim (Option-cases (lookup key x.slots)) [
    | inl e ↦ elim (Bool-cases (ltb x.next_slot (2 ^ D))) [
      | inl room ↦ (x.next_slot, ground arith)
      | inr full ↦ absurd (ground arith)
    ]
    | inr (s, e) ↦ (s, ground arith)
  ]

  pub register-IsCanonical :
      (D : ℕ) (x : EpochExecutor) (key tok b n : ℕ) (x' : EpochExecutor)
      → register F D x key tok b n ≡ ok x'
      → IsCanonical x.tree
      → IsCanonical x'.tree
  register-IsCanonical D x key tok b n x' h c =
      let (slot, e) = register-tree D x key tok b n x' h in
      subst IsCanonical (sym e)
        (set_leaf-IsCanonical x.tree slot key tok (of_int F b) (of_int F n) c)

  apply-IsCanonical :
      (x : EpochExecutor) (kind : OpKind) (from to tok amount : ℕ) (x' : EpochExecutor)
      (w : OpWitness)
      → apply F x kind from to tok amount ≡ ok (x', w)
      → IsCanonical x.tree
      → IsCanonical x'.tree
  unfolding outcome debited debit credit accumulate
  apply-IsCanonical x kind from to tok amount x' w h c =
      let a = apply-IsApplied F x kind from to tok amount (x', w) h in
      subst IsCanonical (ap (λ r. r.0.tree) a.returned)
        (set_leaf-IsCanonical _ a.ts to tok _ _ (set_leaf-IsCanonical x.tree a.fs from tok _ _ c))

  perform-IsCanonical :
      (x x' : EpochExecutor) (r : Request) (w : OpWitness)
      → perform F x r ≡ ok (x', w)
      → IsCanonical x.tree
      → IsCanonical x'.tree
  unfolding perform
  perform-IsCanonical x x' (load_of from to tok amount) w h =
      apply-IsCanonical x _ from to tok amount x' w h
  perform-IsCanonical x x' (spend_of from to tok amount) w h =
      apply-IsCanonical x _ from to tok amount x' w h
  perform-IsCanonical x x' (withdraw_of payee tok amount) w h =
      apply-IsCanonical x _ payee x.sink_key tok amount x' w h

  pub run-IsCanonical :
      (rs : List Request) (x : EpochExecutor) (r : EpochExecutor × List OpWitness)
      → run F x rs ≡ ok r
      → IsCanonical x.tree
      → IsCanonical r.0.tree
  unfolding run
  run-IsCanonical [] x r h c = subst (λ s. IsCanonical s.0.tree) (ok-injective h) c
  run-IsCanonical (q ∷ rs) x r h c =
      let ((y, w), e, h₁) = >>=-ok (perform F x q) _ h in
      let ((y', ws), e', h₂) = >>=-ok (run F y rs) _ h₁ in
      subst (λ s. IsCanonical s.0.tree) (ok-injective h₂)
        (run-IsCanonical rs y (y', ws) e' (perform-IsCanonical x y q w e c))

  node-lt :
      (t : MerkleTree) (l i : ℕ)
      → IsConsistent F t
      → IsCanonical t
      → l ≤ t.depth
      → node t l i < F.modulus
  unfolding leaf
  node-lt t zero i consistent c h = c i
  node-lt t (suc l) i consistent c h =
      subst (λ v. v < F.modulus) (sym (consistent l i (omega arith))) (h2-lt _ _)

  siblings_from-AllBelow :
      (t : MerkleTree) (n level idx : ℕ)
      → IsConsistent F t
      → IsCanonical t
      → level + n ≤ t.depth
      → AllBelow F.modulus (siblings_from t n level idx)
  unfolding siblings_from
  siblings_from-AllBelow t zero level idx consistent c h = tt
  siblings_from-AllBelow t (suc n) level idx consistent c h = (
    node-lt t level (bit_xor idx 1) consistent c (omega arith),
    siblings_from-AllBelow t n (suc level) (idx / 2) consistent c (omega arith),
  )

  pub siblings-AllBelow :
      (t : MerkleTree) (index : ℕ)
      → IsConsistent F t
      → IsCanonical t
      → AllBelow F.modulus (siblings t index)
  unfolding siblings
  siblings-AllBelow t index consistent c =
      siblings_from-AllBelow t t.depth 0 index consistent c (omega arith)

  pub new-IsCanonical : (D : ℕ) → IsCanonical (new F D).tree
  unfolding new leaf node Imt.new zeros_from
  new-IsCanonical zero i = omega (arith, field.wide)
  new-IsCanonical (suc D) i = omega (arith, field.wide)
