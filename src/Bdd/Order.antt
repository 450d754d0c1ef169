-- ===== src/Bdd/Order.antt =====
-- The meaning of a node of the diagram of src/rebac/compile/evaluate.py, and the order of its
-- nodes.
use django_zed_rebac.Prelude.{
  ℕ, ◌≤◌, ◌<◌, Bool, none, some, List, [], ◌∷◌, if◌then◌else◌, ◌==◌, nat_eq, ◌&&◌, ◌||◌, ◌≡◌, ◌≢◌,
  refl, arith, All, inl, inr, ==_cases, ◌⊎◌,
}
use django_zed_rebac.Bdd.Defs.{Node, Operator, and_op, or_op, size, node_at}

abbrev pub Assignment : Type 0
Assignment = ℕ → Bool

-- The value of a node: by its variable, that of its high or of its low child.
unfoldable pub eval : List Node → ℕ → Assignment → Bool
eval [] i a = i == 1
eval (n ∷ ns) i a =
    if i == size ns
    then (if a n.variable then eval ns n.high a else eval ns n.low a)
    else eval ns i a

abbrev pub bool_operator : Operator → Bool → Bool → Bool
bool_operator and_op x y = x && y
bool_operator or_op x y = x || y

-- The variable of the node `i`, if it has one, comes after `v`.
abbrev pub Above : ℕ → List Node → ℕ → Type 0
Above v [] i = Unit
Above v (n ∷ ns) i = (i ≡ size ns → v < n.variable) × Above v ns i

-- A new node: its children are older, different, and begin with later variables; no older node
-- is equal to it.
pub record IsReducedNode (n : Node) (ns : List Node) : Type 0 where
  pub low_old : n.low < size ns
  pub high_old : n.high < size ns
  pub distinct : n.low ≢ n.high
  pub low_above : Above n.variable ns n.low
  pub high_above : Above n.variable ns n.high
  pub fresh : All (λ m. n ≢ m) ns

abbrev pub Reduced : List Node → Type 0
Reduced [] = Unit
Reduced (n ∷ ns) = IsReducedNode n ns × Reduced ns

pub Above-le : (v w : ℕ) (ns : List Node) (i : ℕ) → w ≤ v → Above v ns i → Above w ns i
Above-le v w [] i h a = tt
Above-le v w (n ∷ ns) i h a = ((λ e. omega (arith, a.0 e)), Above-le v w ns i h a.1)

-- An older node has the same meaning and order when the list grows.
pub data Grows (base : List Node) : List Node → Type 0 where
  same : Grows base base
  more : {ns : List Node} (n : Node) → Grows base ns → Grows base (n ∷ ns)

pub Grows-trans : {a b c : List Node} → Grows a b → Grows b c → Grows a c
Grows-trans g same = g
Grows-trans g (more n h) = more n (Grows-trans g h)

pub size-Grows : {a b : List Node} → Grows a b → size a ≤ size b
size-Grows same = omega arith
size-Grows (more n g) = omega (arith, size-Grows g)

pub eval-Grows :
    {a b : List Node} (i : ℕ) (s : Assignment) → Grows a b → i < size a → eval b i s ≡ eval a i s
unfolding eval
eval-Grows i s same h = refl
eval-Grows i s (more n g) h = ground (arith, size-Grows g, eval-Grows i s g h)

pub node_at-Grows : {a b : List Node} (i : ℕ) → Grows a b → i < size a → node_at b i ≡ node_at a i
unfolding node_at
node_at-Grows i same h = refl
node_at-Grows i (more n g) h = ground (arith, size-Grows g, node_at-Grows i g h)

pub Above-Grows : {a b : List Node} (v i : ℕ) → Grows a b → i < size a → Above v a i → Above v b i
Above-Grows v i same h x = x
Above-Grows v i (more n g) h x =
    ((λ e. absurd (omega (arith, size-Grows g))), Above-Grows v i g h x)

-- What is known of a stored node, at its index.
pub record IsNode (ns : List Node) (i : ℕ) (k : Node) : Type 0 where
  pub low_lt : k.low < i
  pub high_lt : k.high < i
  pub inside : i < size ns
  pub inner : 1 < i
  pub distinct : k.low ≢ k.high
  pub low_above : Above k.variable ns k.low
  pub high_above : Above k.variable ns k.high
  pub above : (w : ℕ) → w < k.variable → Above w ns i
  pub value :
      (s : Assignment) → eval ns i s ≡ (if s k.variable then eval ns k.high s else eval ns k.low s)

beyond-Above : (v : ℕ) (ns : List Node) (i : ℕ) → size ns ≤ i → Above v ns i
beyond-Above v [] i h = tt
beyond-Above v (n ∷ ns) i h = ((λ e. absurd (omega arith)), beyond-Above v ns i (omega arith))

pub step : (n : Node) (ns : List Node) → Grows ns (n ∷ ns)
step n ns = more n same

pub IsNode-top : (n : Node) (ns : List Node) → IsReducedNode n ns → IsNode (n ∷ ns) (size ns) n
unfolding eval
IsNode-top n ns r = record {
  low_lt = r.low_old;
  high_lt = r.high_old;
  inside = omega arith;
  inner = omega arith;
  distinct = r.distinct;
  low_above = Above-Grows n.variable n.low (step n ns) r.low_old r.low_above;
  high_above = Above-Grows n.variable n.high (step n ns) r.high_old r.high_above;
  above = λ w h. ((λ e. h), beyond-Above w ns (size ns) (omega arith));
  value = λ s. ground (arith, r.low_old, r.high_old);
}

IsNode-step : (n : Node) (ns : List Node) (i : ℕ) (k : Node) → IsNode ns i k → IsNode (n ∷ ns) i k
unfolding eval
IsNode-step n ns i k r = record {
  low_lt = r.low_lt;
  high_lt = r.high_lt;
  inside = omega (arith, r.inside);
  inner = r.inner;
  distinct = r.distinct;
  low_above =
      Above-Grows k.variable k.low (step n ns) (omega (arith, r.low_lt, r.inside)) r.low_above;
  high_above =
      Above-Grows k.variable k.high (step n ns) (omega (arith, r.high_lt, r.inside)) r.high_above;
  above = λ w h. Above-Grows w i (step n ns) r.inside (r.above w h);
  value = λ s. ground (arith, r.value s, r.inside, r.low_lt, r.high_lt);
}

pub node_at-IsNode :
    (ns : List Node) (i : ℕ) (k : Node) → Reduced ns → node_at ns i ≡ some k → IsNode ns i k
unfolding node_at
node_at-IsNode [] i k r h = cc
node_at-IsNode (n ∷ ns) i k r h = elim (==_cases i (size ns)) [
  | inl (e, p) ↦
      let whole : some n ≡ some k = rw e at h in
      let q : n ≡ k = cc in rw (p, ← q) (IsNode-top n ns r.0)
  | inr e ↦ IsNode-step n ns i k (node_at-IsNode ns i k r.1 (rw e at h))
]

-- An index inside the list is a terminal or a stored node.
pub node_at_inside :
    (ns : List Node) (i : ℕ) → i < size ns → (i ≤ 1) ⊎ ((k : Node) × (node_at ns i ≡ some k))
unfolding node_at
node_at_inside [] i h = inl (omega arith)
node_at_inside (n ∷ ns) i h = elim (==_cases i (size ns)) [
  | inl (e, p) ↦ inr (n, rw e)
  | inr e ↦ rw e (node_at_inside ns i (ground arith))
]

pub node_at_terminal : (ns : List Node) (i : ℕ) → i ≤ 1 → node_at ns i ≡ none
unfolding node_at
node_at_terminal [] i h = refl
node_at_terminal (n ∷ ns) i h = ground (arith, node_at_terminal ns i h)

pub eval_terminal : (ns : List Node) (i : ℕ) (s : Assignment) → i ≤ 1 → eval ns i s ≡ (i == 1)
unfolding eval
eval_terminal [] i s h = refl
eval_terminal (n ∷ ns) i s h = ground (arith, eval_terminal ns i s h)

pub terminal-Above : (v : ℕ) (ns : List Node) (i : ℕ) → i ≤ 1 → Above v ns i
terminal-Above v [] i h = tt
terminal-Above v (n ∷ ns) i h = ((λ e. absurd (omega arith)), terminal-Above v ns i h)

pub Above-shrink : {a b : List Node} (v i : ℕ) → Grows a b → Above v b i → Above v a i
Above-shrink v i same h = h
Above-shrink v i (more n g) h = Above-shrink v i g h.1
