-- ===== src/Bdd/Comparing.antt =====
-- Two results of `_BDD.apply` of src/rebac/compile/evaluate.py are compared by their indices.
use django_zed_rebac.Prelude.{
  ℕ, ◌+◌, ◌<◌, some, ◌≡◌, ◌↔◌, Option-cases, inl, inr, arith, refl, sym, ◌∙◌, subst,
}
use django_zed_rebac.Bdd.Defs.{Operator, Bdd, size, apply}
use django_zed_rebac.Bdd.Order.{Assignment, eval, eval-Grows, size-Grows}
use django_zed_rebac.Bdd.Unique.{IsValid}
use django_zed_rebac.Bdd.Cofactor.{operated}
use django_zed_rebac.Bdd.Merge.{Applied}
use django_zed_rebac.Bdd.Apply.{apply-Applied}
use django_zed_rebac.Bdd.Canonical.{same_index_iff}

-- A call on a valid diagram returns.
apply-returns :
    (f : ℕ) (op : Operator) (l r : ℕ) (s : Bdd)
    → IsValid s
    → l < size s.nodes
    → r < size s.nodes
    → l + r < f
    → (i : ℕ) × (t : Bdd) × (apply f op l r s ≡ some (i, t)) × Applied s op l r (some (i, t))
apply-returns f op l r s ok hl hr h =
    let done = apply-Applied f op l r s ok hl hr h in
    elim (Option-cases (apply f op l r s)) [
      | inl e ↦ absurd (subst (Applied s op l r) e done)
      | inr ((i, t), e) ↦ (i, t, e, subst (Applied s op l r) e done)
    ]

-- Two combinations of nodes of a valid diagram, the second built on the diagram that the first
-- leaves: both calls return when their fuel is more than the sum of the indices, and the indices
-- they return are the same exactly when the combinations have one value under every assignment.
pub apply-same_index_iff :
    (f g : ℕ) (op op' : Operator) (l r l' r' : ℕ) (s : Bdd)
    → IsValid s
    → l < size s.nodes
    → r < size s.nodes
    → l' < size s.nodes
    → r' < size s.nodes
    → l + r < f
    → l' + r' < g
    → (i j : ℕ) × (t u : Bdd) × (apply f op l r s ≡ some (i, t))
      × (apply g op' l' r' t ≡ some (j, u))
      × ((i ≡ j) ↔ ((a : Assignment) → operated s.nodes op l r a ≡ operated s.nodes op' l' r' a))
apply-same_index_iff f g op op' l r l' r' s ok hl hr hl' hr' hf hg =
    let (i, t, e, one) = apply-returns f op l r s ok hl hr hf in
    let grown = size-Grows one.grown in
    let (j, u, e', two) = apply-returns g op' l' r' t one.valid (omega arith) (omega arith) hg in
    let same =
      same_index_iff u i j two.valid (omega (arith, one.inside, size-Grows two.grown)) two.inside in
    let first : (a : Assignment) → eval u.nodes i a ≡ operated s.nodes op l r a =
      λ a. eval-Grows i a two.grown one.inside ∙ one.value a in
    let second : (a : Assignment) → eval u.nodes j a ≡ operated s.nodes op' l' r' a =
      λ a. two.value a ∙ rw (eval-Grows l' a one.grown hl', eval-Grows r' a one.grown hr') refl in
    (
      i,
      j,
      t,
      u,
      e,
      e',
      (
        λ p a. sym (first a) ∙ (same.0 p a ∙ second a),
        λ m. same.1 (λ a. first a ∙ (m a ∙ sym (second a))),
      ),
    )
