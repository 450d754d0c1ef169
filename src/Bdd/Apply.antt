-- ===== src/Bdd/Apply.antt =====
-- `_BDD.apply` of src/rebac/compile/evaluate.py on valid diagrams.
use django_zed_rebac.Prelude.{
  ℕ, zero, suc, ◌+◌, ◌≤◌, ◌<◌, true, false, Option, some, List, nat_eq, ◌≡◌, ◌≢◌, refl, arith,
  Bool-cases, Option-cases, inl, inr, ◌⊎◌, ltb,
}
use django_zed_rebac.Bdd.Defs.{
  Node, Operator, Bdd, size, node_at, find_cached, shortcut, branch, variable_of, cache_key,
  min_variable, apply, apply_branches,
}
use django_zed_rebac.Bdd.Order.{Grows, node_at_inside, size-Grows}
use django_zed_rebac.Bdd.Unique.{IsEntry, IsValid}
use django_zed_rebac.Bdd.Cofactor.{shortcut-Built, shortcut-none, cached-IsEntry, branch-Grows}
use django_zed_rebac.Bdd.Merge.{
  Applied, IsFirst, left_IsCofactor, right_IsCofactor, children_lt, earlier, merge,
}

-- The recursive calls answer on smaller operands.
abbrev IsAnswering : Operator → ℕ → (ℕ → ℕ → Bdd → Option (ℕ × Bdd)) → Type 0
IsAnswering op bound go =
    (t : Bdd) (x y : ℕ)
    → IsValid t
    → x < size t.nodes
    → y < size t.nodes
    → x + y < bound
    → Applied t op x y (go x y t)

IsFirst-of :
    (ns : List Node) (l r : ℕ) (kl kr : Node)
    → node_at ns l ≡ some kl
    → node_at ns r ≡ some kr
    → (v : ℕ) × (min_variable (variable_of ns l) (variable_of ns r) ≡ some v)
      × IsFirst ns l r v kl kr
unfolding variable_of
IsFirst-of ns l r kl kr p q = elim (Bool-cases (ltb kr.variable kl.variable)) [
  | inl e ↦ (
    kr.variable,
    rw (variable_of, p, q, e),
    record { left = p; right = q; le_left = ground arith; le_right = omega arith; one = inr refl },
  )
  | inr e ↦ (
    kl.variable,
    rw (variable_of, p, q, e),
    record { left = p; right = q; le_left = omega arith; le_right = ground arith; one = inl refl },
  )
]

apply_branches-Applied :
    (op : Operator) (l r : ℕ) (s : Bdd) (go : ℕ → ℕ → Bdd → Option (ℕ × Bdd)) (v : ℕ) (kl kr : Node)
    → IsAnswering op (l + r) go
    → IsValid s
    → l < size s.nodes
    → r < size s.nodes
    → min_variable (variable_of s.nodes l) (variable_of s.nodes r) ≡ some v
    → IsFirst s.nodes l r v kl kr
    → Applied s op l r (apply_branches go op l r s)
unfolding apply_branches
apply_branches-Applied op l r s go v kl kr ih ok il ir m first =
    let inside_left = left_IsCofactor op s ok l r v kl kr first in
    let inside_right = right_IsCofactor op s ok l r v kl kr first in
    let lt = children_lt op s ok l r v kl kr first in
    let ih_low =
      ih s (branch s.nodes v l false) (branch s.nodes v r false) ok (inside_left false).inside
        (inside_right false).inside (lt false) in
    elim (Option-cases (go (branch s.nodes v l false) (branch s.nodes v r false) s)) [
      | inl e ↦ absurd (rw e at ih_low)
      | inr ((low, t), e) ↦
          let bl : Applied s op (branch s.nodes v l false) (branch s.nodes v r false)
              (some (low, t)) =
            rw e at ih_low in
          let ih_high =
            ih t (branch s.nodes v l true) (branch s.nodes v r true) bl.valid
              (omega (arith, (inside_left true).inside, size-Grows bl.grown))
              (omega (arith, (inside_right true).inside, size-Grows bl.grown)) (lt true) in
          elim (Option-cases (go (branch s.nodes v l true) (branch s.nodes v r true) t)) [
            | inl h ↦ absurd (rw h at ih_high)
            | inr ((high, u), h) ↦
                let bh : Applied t op (branch s.nodes v l true) (branch s.nodes v r true)
                    (some (high, u)) =
                  rw h at ih_high in
                rw
                  (
                    apply_branches,
                    m,
                    e,
                    branch-Grows v l true bl.grown il,
                    branch-Grows v r true bl.grown ir,
                    h,
                  )
                  (merge op s ok l r v kl kr first t u low high bl
                    (earlier op s ok l r v kl kr first t u high bl.grown bh) il ir)
          ]
    ]

-- `apply` returns on a valid diagram with two of its nodes, whatever its caches hold, when the
-- fuel is more than the sum of the two indices. The new diagram is valid and only grows; the
-- returned node is one of its nodes, and means the conjunction or the disjunction of the operands.
pub apply-Applied :
    (f : ℕ) (op : Operator) (l r : ℕ) (s : Bdd)
    → IsValid s
    → l < size s.nodes
    → r < size s.nodes
    → l + r < f
    → Applied s op l r (apply f op l r s)
unfolding apply
apply-Applied zero op l r s ok il ir h = absurd (omega arith)
apply-Applied (suc f) op l r s ok il ir h = elim (Option-cases (shortcut op l r)) [
  | inr (i, e) ↦ rw (apply, e) (shortcut-Built op l r i s ok il ir e)
  | inl e ↦ elim (Option-cases (find_cached (cache_key op l r) s.apply_cache)) [
    | inr (i, c) ↦ rw (apply, e, c) (hit (cached-IsEntry s op l r i ok c))
    | inl c ↦
        rw (apply, e, c)
          (walk (λ t x y okt xl yl lt. apply-Applied f op x y t okt xl yl (omega arith))
            (shortcut-none op l r e) (node_at_inside s.nodes l il) (node_at_inside s.nodes r ir))
  ]
]
  where
    hit : {i : ℕ} → IsEntry s.nodes op l r i → Applied s op l r (some (i, s))
    hit e = record {
      valid = ok;
      grown = Grows.same;
      inside = e.inside;
      value = e.meaning;
      above = λ v b. e.above v b.0 b.1;
    }

    walk :
        IsAnswering op (l + r) (apply f op)
        → (1 < l) × (1 < r) × (l ≢ r)
        → (l ≤ 1) ⊎ ((k : Node) × (node_at s.nodes l ≡ some k))
        → (r ≤ 1) ⊎ ((k : Node) × (node_at s.nodes r ≡ some k))
        → Applied s op l r (apply_branches (apply f op) op l r s)
    walk ih n (inl p) y = absurd (omega arith)
    walk ih n (inr x) (inl p) = absurd (omega arith)
    walk ih n (inr (kl, p)) (inr (kr, q)) =
        let (v, m, first) = IsFirst-of s.nodes l r kl kr p q in
        apply_branches-Applied op l r s (apply f op) v kl kr ih ok il ir m first
