-- ===== src/Bdd/Canonical.antt =====
-- The nodes of a valid diagram of src/rebac/compile/evaluate.py are canonical, so that a test of a
-- formula is a comparison of indices.
use django_zed_rebac.Prelude.{
  ℕ, ◌<◌, Bool, true, false, some, List, [], ◌∷◌, if◌then◌else◌, ◌==◌, nat_eq, ◌≡◌, ◌≢◌, ◌↔◌, refl,
  arith, All, Bool-cases, inl, inr, ==_cases, sym, ◌∙◌, ap, ltb, subst,
}
use django_zed_rebac.Bdd.Defs.{Node, Bdd, size, node_at}
use django_zed_rebac.Bdd.Order.{
  Assignment, eval, Above, Above-le, Reduced, IsReducedNode, IsNode, IsNode-top, step, eval-Grows,
  node_at-Grows, Above-Grows, node_at-IsNode, node_at_inside, terminal-Above,
}
use django_zed_rebac.Bdd.Unique.{IsValid}

abbrev pub set : ℕ → Bool → Assignment → Assignment
set v b a = λ x. if x == v then b else a x

-- A node that begins after a variable does not read it.
pub eval-set :
    (ns : List Node) (v i : ℕ) (b : Bool) (a : Assignment)
    → Reduced ns
    → Above v ns i
    → eval ns i (set v b a) ≡ eval ns i a
unfolding eval
eval-set [] v i b a r h = refl
eval-set (n ∷ ns) v i b a r h = elim (==_cases i (size ns)) [
  | inr e ↦ rw (eval, e) (eval-set ns v i b a r.1 h.1)
  | inl (e, p) ↦
      let hl =
        eval-set ns v n.low b a r.1
          (Above-le n.variable v ns n.low (omega (arith, h.0 p)) r.0.low_above) in
      let hh =
        eval-set ns v n.high b a r.1
          (Above-le n.variable v ns n.high (omega (arith, h.0 p)) r.0.high_above) in
      ground (arith, hl, hh, h.0 p)
]

abbrev SameMeaning : List Node → ℕ → ℕ → Type 0
SameMeaning ns i j = (a : Assignment) → eval ns i a ≡ eval ns j a

-- A node with the meaning of one that begins later has children of one meaning.
children_same :
    (ns : List Node) (i j : ℕ) (k : Node)
    → Reduced ns
    → IsNode ns j k
    → Above k.variable ns i
    → SameMeaning ns i j
    → SameMeaning ns k.low k.high
children_same ns i j k r n h m a =
    let v = k.variable in
    let part : (b : Bool)
        → eval ns i a ≡ (if b then eval ns k.high (set v b a) else eval ns k.low (set v b a)) =
      λ b. sym (eval-set ns v i b a r h) ∙ m (set v b a) ∙ n.value (set v b a) ∙ ground arith in
    ground (
      arith,
      part true,
      part false,
      eval-set ns v k.low false a r n.low_above,
      eval-set ns v k.high true a r n.high_above,
    )

-- Nodes of one variable and one meaning have children of one meaning.
children_agree :
    (ns : List Node) (i j : ℕ) (m k : Node)
    → Reduced ns
    → IsNode ns i m
    → IsNode ns j k
    → m.variable ≡ k.variable
    → SameMeaning ns i j
    → SameMeaning ns m.low k.low × SameMeaning ns m.high k.high
children_agree ns i j m k r x y p h = (
  (λ a. ground (
    arith,
    x.value (set m.variable false a),
    y.value (set m.variable false a),
    h (set m.variable false a),
    eval-set ns m.variable m.low false a r x.low_above,
    eval-set ns k.variable k.low false a r y.low_above,
  )),
  (λ a. ground (
    arith,
    x.value (set m.variable true a),
    y.value (set m.variable true a),
    h (set m.variable true a),
    eval-set ns m.variable m.high true a r x.high_above,
    eval-set ns k.variable k.high true a r y.high_above,
  )),
)

All-node_at :
    (P : Node → Type 0) (ns : List Node) (i : ℕ) (k : Node) → All P ns → node_at ns i ≡ some k → P k
unfolding node_at
All-node_at P [] i k h p = cc
All-node_at P (n ∷ ns) i k h p = elim (==_cases i (size ns)) [
  | inl (e, q) ↦
      let whole : some n ≡ some k = rw e at p in let same : n ≡ k = cc in subst P same h.0
  | inr e ↦ All-node_at P ns i k h.1 (rw e at p)
]

node_eq : (m k : Node) → m.variable ≡ k.variable → m.low ≡ k.low → m.high ≡ k.high → m ≡ k
node_eq m k p q r = cc

module _ (n : Node) (ns : List Node) (fresh : IsReducedNode n ns) (r : Reduced ns)
    (ih : (x y : ℕ) → x < size ns → y < size ns → SameMeaning ns x y → x ≡ y) where
  whole : Reduced (n ∷ ns)
  whole = (fresh, r)

  top : IsNode (n ∷ ns) (size ns) n
  top = IsNode-top n ns fresh

  settled : (x y : ℕ) → x < size ns → y < size ns → SameMeaning (n ∷ ns) x y → x ≡ y
  settled x y hx hy m =
      ih x y hx hy
        (λ a. rw (← eval-Grows x a (step n ns) hx, ← eval-Grows y a (step n ns) hy) (m a))

  later_differs :
      (j : ℕ) → j < size ns → Above n.variable ns j → SameMeaning (n ∷ ns) (size ns) j → ⊥
  later_differs j h a m = fresh.distinct (
      settled n.low n.high fresh.low_old fresh.high_old (
        children_same (n ∷ ns) j (size ns) n whole top (Above-Grows n.variable j (step n ns) h a)
          (λ s. sym (m s))))

  older_differs : (j : ℕ) → j < size ns → SameMeaning (n ∷ ns) (size ns) j → ⊥
  older_differs j h m = elim (node_at_inside ns j h) [
    | inl p ↦ later_differs j h (terminal-Above n.variable ns j p) m
    | inr (k, p) ↦
        let old = node_at-IsNode ns j k r p in
        let stored = node_at-IsNode (n ∷ ns) j k whole (node_at-Grows j (step n ns) h ∙ p) in
        elim (Bool-cases (ltb n.variable k.variable)) [
          | inl lt ↦ later_differs j h (old.above n.variable (ground arith)) m
          | inr ge ↦ elim (==_cases n.variable k.variable) [
            | inr ne ↦ old.distinct (
                settled k.low k.high (omega (arith, old.low_lt)) (omega (arith, old.high_lt)) (
                  children_same (n ∷ ns) (size ns) j k whole stored
                    (top.above k.variable (ground arith)) m))
            | inl (e, q) ↦
                let agree = children_agree (n ∷ ns) (size ns) j n k whole top stored q m in
                All-node_at (λ x. n ≢ x) ns j k fresh.fresh p
                  (node_eq n k q
                    (settled n.low k.low fresh.low_old (omega (arith, old.low_lt)) agree.0)
                    (settled n.high k.high fresh.high_old (omega (arith, old.high_lt)) agree.1))
          ]
        ]
  ]

-- Two nodes of a reduced diagram with one meaning under every assignment are the same index.
pub Reduced-canonical :
    (ns : List Node) (i j : ℕ)
    → Reduced ns
    → i < size ns
    → j < size ns
    → ((a : Assignment) → eval ns i a ≡ eval ns j a)
    → i ≡ j
unfolding eval
Reduced-canonical [] i j r hi hj m = ground (arith, m (λ x. true))
Reduced-canonical (n ∷ ns) i j r hi hj m =
    let ih : (x y : ℕ) → x < size ns → y < size ns → SameMeaning ns x y → x ≡ y =
      λ x y hx hy s. Reduced-canonical ns x y r.1 hx hy s in
    elim (==_cases i (size ns)) [
      | inl (e, p) ↦ elim (==_cases j (size ns)) [
        | inl (f, q) ↦ cc
        | inr f ↦ absurd (
            older_differs n ns r.0 r.1 ih j (ground arith)
              (subst (λ x. SameMeaning (n ∷ ns) x j) p m))
      ]
      | inr e ↦ elim (==_cases j (size ns)) [
        | inl (f, q) ↦ absurd (
            older_differs n ns r.0 r.1 ih i (ground arith)
              (λ a. sym (subst (λ x. SameMeaning (n ∷ ns) i x) q m a)))
        | inr f ↦ ih i j (ground arith) (ground arith) (λ a.
            rw
              (
                ← eval-Grows i a (step n ns) (ground arith),
                ← eval-Grows j a (step n ns) (ground arith),
              )
              (m a))
      ]
    ]

-- In a valid diagram two nodes are the same index exactly when they have one value under every
-- assignment. So a formula holds always exactly when its node is 1, and never exactly when it
-- is 0.
pub same_index_iff :
    (s : Bdd) (i j : ℕ)
    → IsValid s
    → i < size s.nodes
    → j < size s.nodes
    → (i ≡ j) ↔ ((a : Assignment) → eval s.nodes i a ≡ eval s.nodes j a)
same_index_iff s i j ok hi hj =
    ((λ p a. ap (λ k. eval s.nodes k a) p), (λ m. Reduced-canonical s.nodes i j ok.reduced hi hj m))
