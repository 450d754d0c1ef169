-- ===== src/Bdd/Defs.antt =====
-- `_BDD` of src/rebac/compile/evaluate.py. The node list is kept newest first and without its two
-- fixed terminals: the node with the index `i` is the one that has `i - 2` nodes behind it, and
-- `len(self.nodes)` is the length and two. The fields of a terminal are never read. A recursion
-- that the program bounds by the ordering of the nodes takes fuel; `none` is the end of the fuel,
-- a read behind the list, or the variable of two terminals.
use django_zed_rebac.Prelude.{
  ℕ, zero, suc, ◌+◌, ◌-◌, Bool, true, false, Option, none, some, List, [], ◌∷◌, if◌then◌else◌, ◌==◌,
  nat_eq, leb, ltb, ◌&&◌, ◌||◌, length,
}

pub record Node : Type 0 where
  pub variable : ℕ
  pub low : ℕ
  pub high : ℕ

pub data Operator : Type 0 where
  and_op or_op : Operator

abbrev pub CacheKey : Type 0
CacheKey = Operator × ℕ × ℕ

pub record Bdd : Type 0 where
  pub nodes : List Node
  pub unique : List (Node × ℕ)
  pub apply_cache : List (CacheKey × ℕ)

abbrev pub empty : Bdd
empty = record { nodes = []; unique = []; apply_cache = [] }

abbrev pub size : List Node → ℕ
size ns = length ns + 2

unfoldable pub same_node : Node → Node → Bool
same_node a b = a.variable == b.variable && (a.low == b.low && a.high == b.high)

abbrev pub same_operator : Operator → Operator → Bool
same_operator and_op and_op = true
same_operator or_op or_op = true
same_operator _ _ = false

unfoldable pub same_key : CacheKey → CacheKey → Bool
same_key (o, a, b) (p, c, d) = same_operator o p && (a == c && b == d)

-- `self.nodes[i]`, for `i > 1`.
unfoldable pub node_at : List Node → ℕ → Option Node
node_at [] i = none
node_at (n ∷ ns) i = if i == size ns then some n else node_at ns i

unfoldable pub find_unique : Node → List (Node × ℕ) → Option ℕ
find_unique k [] = none
find_unique k ((n, i) ∷ us) = if same_node k n then some i else find_unique k us

unfoldable pub find_cached : CacheKey → List (CacheKey × ℕ) → Option ℕ
find_cached k [] = none
find_cached k ((c, r) ∷ cs) = if same_key k c then some r else find_cached k cs

-- `_node`.
unfoldable pub make_node : ℕ → ℕ → ℕ → Bdd → ℕ × Bdd
make_node variable low high s =
    let k : Node = record { variable = variable; low = low; high = high } in
    if low == high then (low, s) else elim (find_unique k s.unique) [
      | some i ↦ (i, s)
      | none ↦
          (size s.nodes, record s { nodes = k ∷ s.nodes; unique = (k, size s.nodes) ∷ s.unique })
    ]

unfoldable pub atom : ℕ → Bdd → ℕ × Bdd
unfolding make_node
atom variable s = make_node variable 0 1 s

-- The answers that need no node: a terminal operand, or equal operands.
unfoldable pub shortcut : Operator → ℕ → ℕ → Option ℕ
shortcut and_op l r =
    if l == 0 || r == 0
    then some 0
    else if l == 1
    then some r
    else if r == 1
    then some l
    else if l == r
    then some l
    else none
shortcut or_op l r =
    if l == 1 || r == 1
    then some 1
    else if l == 0
    then some r
    else if r == 0
    then some l
    else if l == r
    then some l
    else none

-- `self.nodes[i][0] if i > 1 else inf`; `none` is infinity.
unfoldable pub variable_of : List Node → ℕ → Option ℕ
unfolding node_at
variable_of ns i = elim (node_at ns i) [ none ↦ none | some n ↦ some n.variable ]

abbrev pub min_variable : Option ℕ → Option ℕ → Option ℕ
min_variable none b = b
min_variable (some a) none = some a
min_variable (some a) (some b) = if ltb b a then some b else some a

unfoldable pub branch : List Node → ℕ → ℕ → Bool → ℕ
unfolding node_at
branch ns variable i high = elim (node_at ns i) [
  | none ↦ i
  | some n ↦ if n.variable == variable then (if high then n.high else n.low) else i
]

abbrev pub cache_key : Operator → ℕ → ℕ → CacheKey
cache_key op l r = if leb l r then (op, l, r) else (op, r, l)

abbrev pub remember : CacheKey → ℕ × Bdd → ℕ × Bdd
remember k (i, s) = (i, record s { apply_cache = (k, i) ∷ s.apply_cache })

-- Both branches, the new node, and the cache.
unfoldable pub apply_branches :
    (ℕ → ℕ → Bdd → Option (ℕ × Bdd)) → Operator → ℕ → ℕ → Bdd → Option (ℕ × Bdd)
unfolding variable_of branch make_node
apply_branches go op l r s = elim (min_variable (variable_of s.nodes l) (variable_of s.nodes r)) [
  | none ↦ none
  | some v ↦ elim (go (branch s.nodes v l false) (branch s.nodes v r false) s) [
    | none ↦ none
    | some (low, t) ↦ elim (go (branch t.nodes v l true) (branch t.nodes v r true) t) [
      | none ↦ none
      | some (high, u) ↦ some (remember (cache_key op l r) (make_node v low high u))
    ]
  ]
]

unfoldable pub apply : ℕ → Operator → ℕ → ℕ → Bdd → Option (ℕ × Bdd)
unfolding shortcut find_cached apply_branches
apply zero op l r s = none
apply (suc f) op l r s = elim (shortcut op l r) [
  | some i ↦ some (i, s)
  | none ↦ elim (find_cached (cache_key op l r) s.apply_cache) [
    | some i ↦ some (i, s)
    | none ↦ apply_branches (apply f op) op l r s
  ]
]

unfoldable pub negate : ℕ → ℕ → Bdd → Option (ℕ × Bdd)
unfolding node_at make_node
negate zero i s = none
negate (suc f) i s = if leb i 1 then some (1 - i, s) else elim (node_at s.nodes i) [
  | none ↦ none
  | some n ↦ elim (negate f n.low s) [
    | none ↦ none
    | some (low, t) ↦ elim (negate f n.high t) [
      | none ↦ none
      | some (high, u) ↦ some (make_node n.variable low high u)
    ]
  ]
]
