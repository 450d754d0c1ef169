-- ===== src/Bdd/Negate.antt =====
-- `_BDD.negate` of src/rebac/compile/evaluate.py on valid diagrams.
use django_zed_rebac.Prelude.{
  ℕ, zero, suc, ◌-◌, ◌≤◌, ◌<◌, Option, none, some, nat_eq, not, ◌≡◌, arith, Bool-cases,
  Option-cases, inl, inr, ◌∙◌, ap, leb,
}
use django_zed_rebac.Bdd.Defs.{Node, Bdd, size, node_at, make_node, negate}
use django_zed_rebac.Bdd.Order.{
  Assignment, eval, Above, IsNode, Grows, eval-Grows, node_at-IsNode, node_at_inside, Above-Grows,
  size-Grows, Grows-trans, terminal-Above, eval_terminal,
}
use django_zed_rebac.Bdd.Unique.{IsValid, Built, make_node-Built, chosen}
use django_zed_rebac.Bdd.Merge.{Above-variable}

-- The computation ends, with the negation of the operand.
abbrev pub Negated : Bdd → ℕ → Option (ℕ × Bdd) → Type 0
Negated s i none = ⊥
Negated s i (some (j, t)) = Built s (λ a. not (eval s.nodes i a)) (λ w. Above w s.nodes i) j t

terminal-Negated : (s : Bdd) (i : ℕ) → IsValid s → i ≤ 1 → Negated s i (some (1 - i, s))
terminal-Negated s i ok h = record {
  valid = ok;
  grown = Grows.same;
  inside = omega arith;
  value = λ a.
      rw (eval_terminal s.nodes i a h, eval_terminal s.nodes (1 - i) a (omega arith))
        (ground arith);
  above = λ w b. terminal-Above w s.nodes (1 - i) (omega arith);
}

module _ (s : Bdd) (ok : IsValid s) (i : ℕ) (k : Node) (at : node_at s.nodes i ≡ some k) where
  node : IsNode s.nodes i k
  node = node_at-IsNode s.nodes i k ok.reduced at

  high_inside : k.high < size s.nodes
  high_inside = omega (arith, node.high_lt, node.inside)

  low_inside : k.low < size s.nodes
  low_inside = omega (arith, node.low_lt, node.inside)

  module _ (t u : Bdd) (low high : ℕ) (bl : Negated s k.low (some (low, t)))
      (bh : Negated t k.high (some (high, u))) where
    made_Built :
        Built u
          (chosen u.nodes k.variable low high)
          (λ w. w < k.variable)
          (make_node k.variable low high u).0
          (make_node k.variable low high u).1
    made_Built =
        make_node-Built k.variable low high u bh.valid
          (omega (arith, bl.inside, size-Grows bh.grown)) bh.inside
          (Above-Grows k.variable low bh.grown bl.inside (bl.above k.variable node.low_above))
          (bh.above k.variable (Above-Grows k.variable k.high bl.grown high_inside node.high_above))

    chosen-not : (a : Assignment) → chosen u.nodes k.variable low high a ≡ not (eval s.nodes i a)
    chosen-not a = elim (Bool-cases (a k.variable)) [
      | inl e ↦
          rw (e, node.value a, e) (bh.value a ∙ ap not (eval-Grows k.high a bl.grown high_inside))
      | inr e ↦ rw (e, node.value a, e) (eval-Grows low a bh.grown bl.inside ∙ bl.value a)
    ]

    merge : Negated s i (some (make_node k.variable low high u))
    merge = record {
      valid = made_Built.valid;
      grown = Grows-trans bl.grown (Grows-trans bh.grown made_Built.grown);
      inside = made_Built.inside;
      value = λ a. made_Built.value a ∙ chosen-not a;
      above = λ w b. made_Built.above w (Above-variable s.nodes i w k at b);
    }

-- `negate` returns on a valid diagram with one of its nodes, when the fuel is more than the index.
-- The new diagram is valid and only grows; the returned node is one of its nodes, and means the
-- negation of the operand.
pub negate-Negated :
    (f i : ℕ) (s : Bdd) → IsValid s → i < size s.nodes → i < f → Negated s i (negate f i s)
unfolding negate
negate-Negated zero i s ok il h = absurd (omega arith)
negate-Negated (suc f) i s ok il h = elim (Bool-cases (leb i 1)) [
  | inl e ↦ rw (negate, e) (terminal-Negated s i ok (ground arith))
  | inr e ↦ elim (node_at_inside s.nodes i il) [
    | inl p ↦ absurd (ground arith)
    | inr (k, p) ↦
        let ih_low =
          negate-Negated f k.low s ok (low_inside s ok i k p)
            (omega (arith, (node s ok i k p).low_lt)) in
        elim (Option-cases (negate f k.low s)) [
          | inl m ↦ absurd (rw m at ih_low)
          | inr ((low, t), m) ↦
              let bl : Negated s k.low (some (low, t)) = rw m at ih_low in
              let ih_high =
                negate-Negated f k.high t bl.valid
                  (omega (arith, high_inside s ok i k p, size-Grows bl.grown))
                  (omega (arith, (node s ok i k p).high_lt)) in
              elim (Option-cases (negate f k.high t)) [
                | inl q ↦ absurd (rw q at ih_high)
                | inr ((high, u), q) ↦
                    rw (negate, e, p, m, q) (merge s ok i k p t u low high bl (rw q at ih_high))
              ]
        ]
  ]
]
