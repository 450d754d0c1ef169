-- ===== src/Bdd/Merge.antt =====
-- One step of `_BDD.apply` of src/rebac/compile/evaluate.py: the node made of the two answers.
use django_zed_rebac.Prelude.{
  ℕ, ◌+◌, ◌≤◌, ◌<◌, Bool, true, false, Option, none, some, List, [], ◌∷◌, nat_eq, ◌≡◌, arith,
  Bool-cases, inl, inr, ==_cases, ◌⊎◌, ◌∙◌, leb,
}
use django_zed_rebac.Bdd.Defs.{
  Node, Operator, Bdd, size, node_at, branch, cache_key, make_node, remember,
}
use django_zed_rebac.Bdd.Order.{
  Assignment, eval, Above, Grows, eval-Grows, Above-Grows, size-Grows, Grows-trans, Above-shrink,
}
use django_zed_rebac.Bdd.Unique.{IsEntry, AllEntries, IsValid, Built, make_node-Built, chosen}
use django_zed_rebac.Bdd.Cofactor.{
  BeforeBoth, operated, IsEntry-swap, IsCofactor, branch-IsCofactor, branch_lt,
}

-- The computation ends, with the conjunction or the disjunction of the operands.
abbrev pub Applied : Bdd → Operator → ℕ → ℕ → Option (ℕ × Bdd) → Type 0
Applied s op l r none = ⊥
Applied s op l r (some (i, t)) = Built s (operated s.nodes op l r) (BeforeBoth s.nodes l r) i t

pub Above-variable :
    (ns : List Node) (i w : ℕ) (k : Node) → node_at ns i ≡ some k → Above w ns i → w < k.variable
unfolding node_at
Above-variable [] i w k h a = cc
Above-variable (n ∷ ns) i w k h a = elim (==_cases i (size ns)) [
  | inl (e, p) ↦ let whole : some n ≡ some k = rw e at h in let q : n ≡ k = cc in rw (← q) (a.0 p)
  | inr e ↦ Above-variable ns i w k (rw e at h) a.1
]

-- The two operands are stored nodes and `v` is the first of their variables.
pub record IsFirst (ns : List Node) (l r v : ℕ) (kl kr : Node) : Type 0 where
  pub left : node_at ns l ≡ some kl
  pub right : node_at ns r ≡ some kr
  pub le_left : v ≤ kl.variable
  pub le_right : v ≤ kr.variable
  pub one : (v ≡ kl.variable) ⊎ (v ≡ kr.variable)

module _ (op : Operator) (s : Bdd) (ok : IsValid s) (l r v : ℕ) (kl kr : Node)
    (first : IsFirst s.nodes l r v kl kr) where
  abbrev left_child : Bool → ℕ
  left_child side = branch s.nodes v l side

  abbrev right_child : Bool → ℕ
  right_child side = branch s.nodes v r side

  pub left_IsCofactor : (side : Bool) → IsCofactor s.nodes v l side (left_child side)
  left_IsCofactor side = branch-IsCofactor s.nodes v l side kl ok.reduced first.left first.le_left

  pub right_IsCofactor : (side : Bool) → IsCofactor s.nodes v r side (right_child side)
  right_IsCofactor side =
      branch-IsCofactor s.nodes v r side kr ok.reduced first.right first.le_right

  pub children_lt : (side : Bool) → left_child side + right_child side < l + r
  children_lt side = elim first.one [
    | inl p ↦
        omega
          (arith, branch_lt s.nodes v l side kl ok.reduced first.left p, (right_IsCofactor side).le)
    | inr p ↦
        omega
          (arith, branch_lt s.nodes v r side kr ok.reduced first.right p, (left_IsCofactor side).le)
  ]

  operated-child :
      (side : Bool) (a : Assignment)
      → a v ≡ side
      → operated s.nodes op (left_child side) (right_child side) a ≡ operated s.nodes op l r a
  operated-child side a h = rw ((left_IsCofactor side).value a h, (right_IsCofactor side).value a h)

  module _ (t u : Bdd) (low high : ℕ)
      (bl : Built s
        (operated s.nodes op (left_child false) (right_child false))
        (BeforeBoth s.nodes (left_child false) (right_child false))
        low
        t)
      (bh : Built t
        (operated s.nodes op (left_child true) (right_child true))
        (BeforeBoth s.nodes (left_child true) (right_child true))
        high
        u) where
    abbrev joined : Bdd
    joined = (make_node v low high u).1

    abbrev index : ℕ
    index = (make_node v low high u).0

    made_Built : Built u (chosen u.nodes v low high) (λ w. w < v) index joined
    made_Built =
        make_node-Built v low high u bh.valid (omega (arith, bl.inside, size-Grows bh.grown))
          bh.inside
          (Above-Grows v low bh.grown bl.inside
            (bl.above v ((left_IsCofactor false).above, (right_IsCofactor false).above)))
          (bh.above v ((left_IsCofactor true).above, (right_IsCofactor true).above))

    joined-grown : Grows s.nodes joined.nodes
    joined-grown = Grows-trans bl.grown (Grows-trans bh.grown made_Built.grown)

    chosen-operated : (a : Assignment) → chosen u.nodes v low high a ≡ operated s.nodes op l r a
    chosen-operated a = elim (Bool-cases (a v)) [
      | inl e ↦ rw e (bh.value a ∙ operated-child true a e)
      | inr e ↦ rw e (eval-Grows low a bh.grown bl.inside ∙ bl.value a ∙ operated-child false a e)
    ]

    joined-value : (a : Assignment) → eval joined.nodes index a ≡ operated s.nodes op l r a
    joined-value a = made_Built.value a ∙ chosen-operated a

    joined-Above : (w : ℕ) → BeforeBoth s.nodes l r w → Above w joined.nodes index
    joined-Above w b = made_Built.above w (elim first.one [
      | inl p ↦ rw p (Above-variable s.nodes l w kl first.left b.0)
      | inr p ↦ rw p (Above-variable s.nodes r w kr first.right b.1)
    ])

    joined-IsEntry : l < size s.nodes → r < size s.nodes → IsEntry joined.nodes op l r index
    joined-IsEntry il ir = record {
      left_inside = omega (arith, size-Grows joined-grown);
      right_inside = omega (arith, size-Grows joined-grown);
      inside = made_Built.inside;
      meaning =
          λ a. rw (joined-value a, eval-Grows l a joined-grown il, eval-Grows r a joined-grown ir);
      above = λ w x y.
          joined-Above w (Above-shrink w l joined-grown x, Above-shrink w r joined-grown y);
    }

    remembered-entries :
        IsEntry joined.nodes op l r index
        → AllEntries joined.nodes ((cache_key op l r, index) ∷ joined.apply_cache)
    remembered-entries e = elim (Bool-cases (leb l r)) [
      | inl p ↦ rw p (e, made_Built.valid.entries)
      | inr p ↦ rw p (IsEntry-swap e, made_Built.valid.entries)
    ]

    -- The node made of the two answers, with its cache entry.
    pub merge :
        l < size s.nodes
        → r < size s.nodes
        → Applied s op l r (some (remember (cache_key op l r) (make_node v low high u)))
    merge il ir = record {
      valid = record {
        reduced = made_Built.valid.reduced;
        table = made_Built.valid.table;
        entries = remembered-entries (joined-IsEntry il ir);
      };
      grown = joined-grown;
      inside = made_Built.inside;
      value = joined-value;
      above = joined-Above;
    }

  -- The answer for the high children, read in the diagram before the low ones.
  pub earlier :
      (t u : Bdd) (high : ℕ)
      → Grows s.nodes t.nodes
      → Applied t op (left_child true) (right_child true) (some (high, u))
      → Built t
          (operated s.nodes op (left_child true) (right_child true))
          (BeforeBoth s.nodes (left_child true) (right_child true))
          high
          u
  earlier t u high g b = record {
    valid = b.valid;
    grown = b.grown;
    inside = b.inside;
    value = λ a.
        rw
          (
            ← eval-Grows (left_child true) a g (left_IsCofactor true).inside,
            ← eval-Grows (right_child true) a g (right_IsCofactor true).inside,
          )
          (b.value a);
    above = λ w x. b.above w (
      Above-Grows w (left_child true) g (left_IsCofactor true).inside x.0,
      Above-Grows w (right_child true) g (right_IsCofactor true).inside x.1,
    );
  }
