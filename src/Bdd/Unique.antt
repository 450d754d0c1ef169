-- ===== src/Bdd/Unique.antt =====
-- The table of unique nodes and the invariant of the diagram: src/rebac/compile/evaluate.py,
-- `_BDD._node`.
use django_zed_rebac.Prelude.{
  ℕ, ◌<◌, Bool, true, false, none, some, List, [], ◌∷◌, if◌then◌else◌, ◌==◌, nat_eq, ◌≡◌, ◌≢◌, refl,
  arith, All, Bool-cases, Option-cases, inl, inr, ==_cases,
}
use django_zed_rebac.Bdd.Defs.{
  Node, Operator, Bdd, CacheKey, size, node_at, same_node, find_unique, make_node, empty,
}
use django_zed_rebac.Bdd.Order.{
  Assignment, eval, bool_operator, Above, Reduced, IsReducedNode, Grows, same, eval-Grows,
  Above-Grows, size-Grows, Above-le, node_at-IsNode, Above-shrink, IsNode-top, step,
}

-- The dictionary holds each stored node with its index.
abbrev pub index_table : List Node → List (Node × ℕ)
index_table [] = []
index_table (n ∷ ns) = (n, size ns) ∷ index_table ns

pub same_node→eq : (a b : Node) → same_node a b ≡ true → a ≡ b
unfolding same_node
same_node→eq a b h = ground arith

pub eq→same_node : (a b : Node) → a ≡ b → same_node a b ≡ true
unfolding same_node
eq→same_node a b h = ground arith

pub find_unique-found :
    (k : Node) (ns : List Node) (i : ℕ)
    → find_unique k (index_table ns) ≡ some i
    → (node_at ns i ≡ some k) × (i < size ns)
unfolding find_unique node_at
find_unique-found k [] i h = cc
find_unique-found k (n ∷ ns) i h = elim (Bool-cases (same_node k n)) [
  | inl e ↦
      let q : k ≡ n = same_node→eq k n e in
      let whole : some (size ns) ≡ some i = rw e at h in
      let p : i ≡ size ns = cc in (rw p (ground arith), omega arith)
  | inr e ↦
      let ih = find_unique-found k ns i (rw e at h) in (ground (arith, ih), omega (arith, ih.1))
]

pub find_unique-absent :
    (k : Node) (ns : List Node) → find_unique k (index_table ns) ≡ none → All (λ m. k ≢ m) ns
unfolding find_unique
find_unique-absent k [] h = tt
find_unique-absent k (n ∷ ns) h = elim (Bool-cases (same_node k n)) [
  | inl e ↦ cc (rw e at h)
  | inr e ↦ ((λ q. cc (eq→same_node k n q)), find_unique-absent k ns (rw e at h))
]

-- A remembered result has the meaning of its key, and begins no earlier than both operands.
pub record IsEntry (ns : List Node) (op : Operator) (l r i : ℕ) : Type 0 where
  pub left_inside : l < size ns
  pub right_inside : r < size ns
  pub inside : i < size ns
  pub meaning : (s : Assignment) → eval ns i s ≡ bool_operator op (eval ns l s) (eval ns r s)
  pub above : (v : ℕ) → Above v ns l → Above v ns r → Above v ns i

abbrev pub AllEntries : List Node → List (CacheKey × ℕ) → Type 0
AllEntries ns [] = Unit
AllEntries ns (((op, l, r), i) ∷ cs) = IsEntry ns op l r i × AllEntries ns cs

pub IsEntry-Grows :
    {ns ms : List Node} {op : Operator} {l r i : ℕ}
    → Grows ns ms
    → IsEntry ns op l r i
    → IsEntry ms op l r i
IsEntry-Grows {ns} {ms} {op} {l} {r} {i} g e = record {
  left_inside = omega (arith, e.left_inside, size-Grows g);
  right_inside = omega (arith, e.right_inside, size-Grows g);
  inside = omega (arith, e.inside, size-Grows g);
  meaning = λ s.
      rw
        (eval-Grows i s g e.inside, eval-Grows l s g e.left_inside, eval-Grows r s g e.right_inside)
        (e.meaning s);
  above =
      λ v a b. Above-Grows v i g e.inside (e.above v (Above-shrink v l g a) (Above-shrink v r g b));
}

pub AllEntries-Grows :
    {ns ms : List Node} (cs : List (CacheKey × ℕ))
    → Grows ns ms
    → AllEntries ns cs
    → AllEntries ms cs
AllEntries-Grows [] g h = tt
AllEntries-Grows (((op, l, r), i) ∷ cs) g h = (IsEntry-Grows g h.0, AllEntries-Grows cs g h.1)

pub record IsValid (s : Bdd) : Type 0 where
  pub reduced : Reduced s.nodes
  pub table : s.unique ≡ index_table s.nodes
  pub entries : AllEntries s.nodes s.apply_cache

pub empty-IsValid : IsValid empty
empty-IsValid = record { reduced = tt; table = refl; entries = tt }

-- What an operation that returns the node `i` has done: the diagram is valid and has only grown,
-- and the node has the given meaning and begins after each bound of its operands.
pub record Built (s : Bdd) (meaning : Assignment → Bool) (bound : ℕ → Type 0) (i : ℕ) (t : Bdd)
    : Type 0 where
  pub valid : IsValid t
  pub grown : Grows s.nodes t.nodes
  pub inside : i < size t.nodes
  pub value : (a : Assignment) → eval t.nodes i a ≡ meaning a
  pub above : (v : ℕ) → bound v → Above v t.nodes i

abbrev pub chosen : List Node → ℕ → ℕ → ℕ → Assignment → Bool
chosen ns v low high a = if a v then eval ns high a else eval ns low a

pub unequal : (a b : ℕ) → (a == b) ≡ false → a ≢ b
unequal a b h = ground arith

module _ (v low high : ℕ) (s : Bdd) (ok : IsValid s) where
  abbrev made : Node
  made = record { variable = v; low = low; high = high }

  found-Built :
      (i : ℕ)
      → find_unique made s.unique ≡ some i
      → Built s (chosen s.nodes v low high) (λ w. w < v) i s
  found-Built i f =
      let hit = find_unique-found made s.nodes i (rw ok.table at f) in
      let node = node_at-IsNode s.nodes i made ok.reduced hit.0 in
      record { valid = ok; grown = same; inside = hit.1; value = node.value; above = node.above }

  new-Built :
      IsReducedNode made s.nodes
      → Built s
          (chosen s.nodes v low high)
          (λ w. w < v)
          (size s.nodes)
          (record s { nodes = made ∷ s.nodes; unique = (made, size s.nodes) ∷ s.unique })
  new-Built r =
      let node = IsNode-top made s.nodes r in
      record {
        valid = record {
          reduced = (r, ok.reduced);
          table = rw ok.table;
          entries = AllEntries-Grows s.apply_cache (step made s.nodes) ok.entries;
        };
        grown = step made s.nodes;
        inside = omega arith;
        value = λ a. rw (
          node.value a,
          eval-Grows low a (step made s.nodes) r.low_old,
          eval-Grows high a (step made s.nodes) r.high_old,
        );
        above = node.above;
      }

  equal-Built :
      low ≡ high
      → low < size s.nodes
      → Above v s.nodes low
      → Built s (chosen s.nodes v low high) (λ w. w < v) low s
  equal-Built p il al = record {
    valid = ok;
    grown = same;
    inside = il;
    value = λ a. rw (← p) (ground arith);
    above = λ w h. Above-le v w s.nodes low (omega arith) al;
  }

  -- `_node` on two nodes that begin after the variable.
  pub make_node-Built :
      low < size s.nodes
      → high < size s.nodes
      → Above v s.nodes low
      → Above v s.nodes high
      → Built s
          (chosen s.nodes v low high)
          (λ w. w < v)
          (make_node v low high s).0
          (make_node v low high s).1
  unfolding make_node
  make_node-Built il ih al ah = elim (==_cases low high) [
    | inl (e, p) ↦ rw e (equal-Built p il al)
    | inr e ↦ elim (Option-cases (find_unique made s.unique)) [
      | inr (i, f) ↦ rw (e, f) (found-Built i f)
      | inl f ↦
          rw (e, f)
            (new-Built (record {
              low_old = il;
              high_old = ih;
              distinct = unequal low high e;
              low_above = al;
              high_above = ah;
              fresh = find_unique-absent made s.nodes (rw ok.table at f);
            }))
    ]
  ]
