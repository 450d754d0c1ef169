-- ===== src/Bdd/Cofactor.antt =====
-- The parts of one step of `_BDD.apply`, src/rebac/compile/evaluate.py: the answers without a new
-- node, the cache, and the children at the first variable.
use django_zed_rebac.Prelude.{
  ℕ, ◌≤◌, ◌<◌, Bool, true, false, none, some, List, [], ◌∷◌, if◌then◌else◌, nat_eq, ◌≡◌, ◌≢◌, refl,
  arith, Bool-cases, inl, inr, ==_cases, ◌⊎◌, ◌∙◌, leb,
}
use django_zed_rebac.Bdd.Defs.{
  Node, Operator, and_op, or_op, Bdd, CacheKey, size, node_at, find_cached, same_key, shortcut,
  branch, cache_key,
}
use django_zed_rebac.Bdd.Order.{
  Assignment, eval, bool_operator, Above, Reduced, Grows, node_at-Grows, node_at-IsNode,
  eval_terminal, terminal-Above,
}
use django_zed_rebac.Bdd.Unique.{IsEntry, AllEntries, IsValid, Built}

shortcut-value :
    (op : Operator) (l r i : ℕ) (value : ℕ → Bool)
    → value 0 ≡ false
    → value 1 ≡ true
    → shortcut op l r ≡ some i
    → value i ≡ bool_operator op (value l) (value r)
unfolding shortcut
shortcut-value and_op l r i value z o h = ground arith
shortcut-value or_op l r i value z o h = ground arith

shortcut-operand :
    (op : Operator) (l r i : ℕ) → shortcut op l r ≡ some i → (i ≤ 1) ⊎ ((i ≡ l) ⊎ (i ≡ r))
unfolding shortcut
shortcut-operand and_op l r i h = ground arith
shortcut-operand or_op l r i h = ground arith

pub shortcut-none : (op : Operator) (l r : ℕ) → shortcut op l r ≡ none → (1 < l) × (1 < r) × (l ≢ r)
unfolding shortcut
shortcut-none and_op l r h = ground arith
shortcut-none or_op l r h = ground arith

-- The bounds that a result keeps: a variable before both operands is before the result.
abbrev pub BeforeBoth : List Node → ℕ → ℕ → ℕ → Type 0
BeforeBoth ns l r v = Above v ns l × Above v ns r

abbrev pub operated : List Node → Operator → ℕ → ℕ → Assignment → Bool
operated ns op l r a = bool_operator op (eval ns l a) (eval ns r a)

pub shortcut-Built :
    (op : Operator) (l r i : ℕ) (s : Bdd)
    → IsValid s
    → l < size s.nodes
    → r < size s.nodes
    → shortcut op l r ≡ some i
    → Built s (operated s.nodes op l r) (BeforeBoth s.nodes l r) i s
shortcut-Built op l r i s ok il ir h = record {
  valid = ok;
  grown = Grows.same;
  inside = elim (shortcut-operand op l r i h) [
    | inl z ↦ omega arith
    | inr (inl e) ↦ omega arith
    | inr (inr e) ↦ omega arith
  ];
  value = λ a.
      shortcut-value op l r i (λ k. eval s.nodes k a) (eval_terminal s.nodes 0 a (omega arith))
        (eval_terminal s.nodes 1 a (omega arith)) h;
  above = λ v b. elim (shortcut-operand op l r i h) [
    | inl z ↦ terminal-Above v s.nodes i z
    | inr (inl e) ↦ rw e b.0
    | inr (inr e) ↦ rw e b.1
  ];
}

same_key→eq :
    (op o : Operator) (l r x y : ℕ)
    → same_key (op, l, r) (o, x, y) ≡ true
    → (op ≡ o) × (l ≡ x) × (r ≡ y)
unfolding same_key
same_key→eq op o l r x y h = ground arith

find_cached-IsEntry :
    (ns : List Node) (op : Operator) (l r i : ℕ) (cs : List (CacheKey × ℕ))
    → AllEntries ns cs
    → find_cached (op, l, r) cs ≡ some i
    → IsEntry ns op l r i
unfolding find_cached
find_cached-IsEntry ns op l r i [] all h = cc
find_cached-IsEntry ns op l r i (((o, x, y), j) ∷ cs) all h =
    elim (Bool-cases (same_key (op, l, r) (o, x, y))) [
      | inl e ↦
          let (p, q, t) = same_key→eq op o l r x y e in
          let whole : some j ≡ some i = rw e at h in let ij : i ≡ j = cc in rw (p, q, t, ij) all.0
      | inr e ↦ find_cached-IsEntry ns op l r i cs all.1 (rw e at h)
    ]

operator_comm : (op : Operator) (x y : Bool) → bool_operator op x y ≡ bool_operator op y x
operator_comm and_op x y = ground arith
operator_comm or_op x y = ground arith

pub IsEntry-swap :
    {ns : List Node} {op : Operator} {l r i : ℕ} → IsEntry ns op l r i → IsEntry ns op r l i
IsEntry-swap {ns} {op} {l} {r} e = record {
  left_inside = e.right_inside;
  right_inside = e.left_inside;
  inside = e.inside;
  meaning = λ s. e.meaning s ∙ operator_comm op (eval ns l s) (eval ns r s);
  above = λ v a b. e.above v b a;
}

-- A remembered answer.
pub cached-IsEntry :
    (s : Bdd) (op : Operator) (l r i : ℕ)
    → IsValid s
    → find_cached (cache_key op l r) s.apply_cache ≡ some i
    → IsEntry s.nodes op l r i
cached-IsEntry s op l r i ok h = elim (Bool-cases (leb l r)) [
  | inl e ↦ find_cached-IsEntry s.nodes op l r i s.apply_cache ok.entries (rw e at h)
  | inr e ↦ IsEntry-swap (find_cached-IsEntry s.nodes op r l i s.apply_cache ok.entries (rw e at h))
]

-- A child at a variable that is not after the node's own.
pub record IsCofactor (ns : List Node) (v i : ℕ) (side : Bool) (c : ℕ) : Type 0 where
  pub inside : c < size ns
  pub le : c ≤ i
  pub above : Above v ns c
  pub value : (a : Assignment) → a v ≡ side → eval ns c a ≡ eval ns i a

pub branch-IsCofactor :
    (ns : List Node) (v i : ℕ) (side : Bool) (k : Node)
    → Reduced ns
    → node_at ns i ≡ some k
    → v ≤ k.variable
    → IsCofactor ns v i side (branch ns v i side)
unfolding branch
branch-IsCofactor ns v i side k ok h le =
    let node = node_at-IsNode ns i k ok h in
    elim (==_cases k.variable v) [
      | inl (e, p) ↦ rw (branch, h, e) (child side p)
      | inr e ↦
          rw (branch, h, e)
            (record {
              inside = node.inside;
              le = omega arith;
              above = node.above v (ground arith);
              value = λ a q. refl;
            })
    ]
  where
    child : (side : Bool) → k.variable ≡ v → IsCofactor ns v i side (if side then k.high else k.low)
    child true p =
        let node = node_at-IsNode ns i k ok h in
        record {
          inside = omega (arith, node.high_lt, node.inside);
          le = omega (arith, node.high_lt);
          above = rw (← p) node.high_above;
          value = λ a q. rw (node.value a, p, q);
        }
    child false p =
        let node = node_at-IsNode ns i k ok h in
        record {
          inside = omega (arith, node.low_lt, node.inside);
          le = omega (arith, node.low_lt);
          above = rw (← p) node.low_above;
          value = λ a q. rw (node.value a, p, q);
        }

-- At the node's own variable the child is an older node.
pub branch_lt :
    (ns : List Node) (v i : ℕ) (side : Bool) (k : Node)
    → Reduced ns
    → node_at ns i ≡ some k
    → v ≡ k.variable
    → branch ns v i side < i
unfolding branch
branch_lt ns v i side k ok h p =
    let node = node_at-IsNode ns i k ok h in
    rw (branch, h, p) (ground (arith, node.low_lt, node.high_lt))

pub branch-Grows :
    {ns ms : List Node} (v i : ℕ) (side : Bool)
    → Grows ns ms
    → i < size ns
    → branch ms v i side ≡ branch ns v i side
unfolding branch
branch-Grows v i side g h = rw (branch, node_at-Grows i g h)
