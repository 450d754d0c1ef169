-- ===== src/Bdd/Reaching.antt =====
-- The search of `_BDD.relevant`, src/rebac/compile/evaluate.py, ends with the variables of exactly
-- the nodes below its root.
use django_zed_rebac.Prelude.{
  ℕ, zero, suc, ◌+◌, ◌*◌, ◌≤◌, ◌<◌, true, false, some, List, [], ◌∷◌, if◌then◌else◌, nat_eq, leb,
  ◌||◌, contains, length, Mem, here, there, contains→Mem, ◌≡◌, refl, arith, Bool-cases, inl, inr,
  ==_cases, ◌⊎◌, sym, ap, ◌∙◌,
}
use django_zed_rebac.Bdd.Defs.{Node, Bdd, size, node_at}
use django_zed_rebac.Bdd.Order.{Reduced, node_at-IsNode, node_at_inside, node_at_terminal}
use django_zed_rebac.Bdd.Search.{collect, relevant}

-- A node below another, by its edges.
pub data Below (ns : List Node) (root : ℕ) : ℕ → Type 0 where
  start : Below ns root root
  low : {i : ℕ} {k : Node} → Below ns root i → node_at ns i ≡ some k → Below ns root k.low
  high : {i : ℕ} {k : Node} → Below ns root i → node_at ns i ≡ some k → Below ns root k.high

unseen : List ℕ → List Node → ℕ
unseen visited [] = 0
unseen visited (n ∷ ns) =
    if contains visited (size ns) then unseen visited ns else suc (unseen visited ns)

unseen-le-length : (visited : List ℕ) (ns : List Node) → unseen visited ns ≤ length ns
unfolding unseen
unseen-le-length visited [] = omega arith
unseen-le-length visited (n ∷ ns) = ground (arith, unseen-le-length visited ns)

unseen-cons_le :
    (visited : List ℕ) (i : ℕ) (ns : List Node) → unseen (i ∷ visited) ns ≤ unseen visited ns
unfolding unseen contains
unseen-cons_le visited i [] = omega arith
unseen-cons_le visited i (n ∷ ns) = ground (arith, unseen-cons_le visited i ns)

unseen-cons_lt :
    (visited : List ℕ) (i : ℕ) (k : Node) (ns : List Node)
    → node_at ns i ≡ some k
    → contains visited i ≡ false
    → unseen (i ∷ visited) ns < unseen visited ns
unfolding unseen contains node_at
unseen-cons_lt visited i k [] h c = cc
unseen-cons_lt visited i k (n ∷ ns) h c = elim (==_cases i (size ns)) [
  | inl (e, p) ↦ ground (arith, unseen-cons_le visited i ns)
  | inr e ↦ ground (arith, unseen-cons_lt visited i k ns (rw e at h) c)
]

-- Where a node that must be looked at can be.
abbrev Covered : List ℕ → List ℕ → ℕ → Type 0
Covered visited pending j = (j ≤ 1) ⊎ (Mem j visited ⊎ Mem j pending)

seen_before :
    (i : ℕ) (visited : List ℕ) → (leb i 1 || contains visited i) ≡ true → (i ≤ 1) ⊎ Mem i visited
seen_before i visited h = elim (Bool-cases (leb i 1)) [
  | inl e ↦ inl (ground arith)
  | inr e ↦ inr (contains→Mem visited i (ground arith))
]

-- The variables of the nodes below a root, and no others.
abbrev pub IsSupport : List Node → ℕ → List ℕ → Type 0
IsSupport ns root found =
    ((v : ℕ)
      → Mem v found
      → (i : ℕ) × (k : Node) × Below ns root i × (node_at ns i ≡ some k) × (k.variable ≡ v))
    × ((i : ℕ) (k : Node) → Below ns root i → node_at ns i ≡ some k → Mem k.variable found)

module _ (ns : List Node) (ok : Reduced ns) (root : ℕ) where
  -- The state of a search.
  record IsSearch (found visited pending : List ℕ) : Type 0 where
    inside : (j : ℕ) → Mem j pending → j < size ns
    reached : (j : ℕ) → Mem j pending → Below ns root j
    origins :
        (v : ℕ)
        → Mem v found
        → (i : ℕ) × (k : Node) × Below ns root i × (node_at ns i ≡ some k) × (k.variable ≡ v)
    covered : Covered visited pending root
    lows :
        (i : ℕ) (k : Node) → Mem i visited → node_at ns i ≡ some k → Covered visited pending k.low
    highs :
        (i : ℕ) (k : Node) → Mem i visited → node_at ns i ≡ some k → Covered visited pending k.high
    named : (i : ℕ) (k : Node) → Mem i visited → node_at ns i ≡ some k → Mem k.variable found

  ended : (found visited : List ℕ) → IsSearch found visited [] → IsSupport ns root found
  ended found visited s = (s.origins, λ i k b p. s.named i k (stored i k p (closed i b)) p)
    where
      stored : (i : ℕ) (k : Node) → node_at ns i ≡ some k → Covered visited [] i → Mem i visited
      stored i k p (inl t) = cc (node_at_terminal ns i t)
      stored i k p (inr (inl m)) = m
      stored i k p (inr (inr m)) = elim m [ ]

      closed : (i : ℕ) → Below ns root i → Covered visited [] i
      closed i start = s.covered
      closed i (low {i = j} {k = k} b p) = s.lows j k (stored j k p (closed j b)) p
      closed i (high {i = j} {k = k} b p) = s.highs j k (stored j k p (closed j b)) p

  skipped :
      (found visited pending : List ℕ) (i : ℕ)
      → (i ≤ 1) ⊎ Mem i visited
      → IsSearch found visited (i ∷ pending)
      → IsSearch found visited pending
  skipped found visited pending i h s = record {
    inside = λ j m. s.inside j (there m);
    reached = λ j m. s.reached j (there m);
    origins = s.origins;
    covered = move root s.covered;
    lows = λ j k m p. move k.low (s.lows j k m p);
    highs = λ j k m p. move k.high (s.highs j k m p);
    named = s.named;
  }
    where
      move : (j : ℕ) → Covered visited (i ∷ pending) j → Covered visited pending j
      move j (inl t) = inl t
      move j (inr (inl m)) = inr (inl m)
      move j (inr (inr (there m))) = inr (inr m)
      move j (inr (inr (here e))) = elim h [ inl t ↦ inl (rw e t) | inr m ↦ inr (inl (rw e m)) ]

  visited_next :
      (found visited pending : List ℕ) (i : ℕ) (k : Node)
      → node_at ns i ≡ some k
      → IsSearch found visited (i ∷ pending)
      → IsSearch (k.variable ∷ found) (i ∷ visited) (k.high ∷ k.low ∷ pending)
  visited_next found visited pending i k h s =
      let node = node_at-IsNode ns i k ok h in
      let at = s.reached i (here refl) in
      record {
        inside = λ j m. elim m [
          | here e ↦ rw e (omega (arith, node.high_lt, node.inside))
          | there n ↦ elim n [
            | here e ↦ rw e (omega (arith, node.low_lt, node.inside))
            | there q ↦ s.inside j (there q)
          ]
        ];
        reached = λ j m. elim m [
          | here e ↦ rw e (high at h)
          | there n ↦ elim n [ here e ↦ rw e (low at h) | there q ↦ s.reached j (there q) ]
        ];
        origins = λ v m. elim m [ here e ↦ (i, k, at, h, sym e) | there n ↦ s.origins v n ];
        covered = move root s.covered;
        lows = λ j m mem p. elim mem [
          | here e ↦ rw (low_of j m e p) (inr (inr (there (here refl))))
          | there n ↦ move m.low (s.lows j m n p)
        ];
        highs = λ j m mem p. elim mem [
          | here e ↦ rw (high_of j m e p) (inr (inr (here refl)))
          | there n ↦ move m.high (s.highs j m n p)
        ];
        named = λ j m mem p. elim mem [
          | here e ↦ here (variable_eq j m e p)
          | there n ↦ there (s.named j m n p)
        ];
      }
    where
      same : (j : ℕ) (m : Node) → j ≡ i → node_at ns j ≡ some m → m ≡ k
      same j m e p = let whole : some m ≡ some k = sym p ∙ ap (node_at ns) e ∙ h in cc

      low_of : (j : ℕ) (m : Node) → j ≡ i → node_at ns j ≡ some m → m.low ≡ k.low
      low_of j m e p = ap (λ (n : Node). n.low) (same j m e p)

      high_of : (j : ℕ) (m : Node) → j ≡ i → node_at ns j ≡ some m → m.high ≡ k.high
      high_of j m e p = ap (λ (n : Node). n.high) (same j m e p)

      variable_eq : (j : ℕ) (m : Node) → j ≡ i → node_at ns j ≡ some m → m.variable ≡ k.variable
      variable_eq j m e p = ap (λ (n : Node). n.variable) (same j m e p)

      move :
          (j : ℕ)
          → Covered visited (i ∷ pending) j
          → Covered (i ∷ visited) (k.high ∷ k.low ∷ pending) j
      move j (inl t) = inl t
      move j (inr (inl m)) = inr (inl (there m))
      move j (inr (inr (here e))) = inr (inl (here e))
      move j (inr (inr (there m))) = inr (inr (there (there m)))

  collect-IsSupport :
      (f : ℕ) (found visited pending : List ℕ)
      → IsSearch found visited pending
      → 2 * unseen visited ns + length pending < f
      → (result : List ℕ) × (collect f ns found visited pending ≡ some result)
        × IsSupport ns root result
  unfolding collect
  collect-IsSupport zero found visited pending s h = absurd (omega arith)
  collect-IsSupport (suc f) found visited [] s h = (found, refl, ended found visited s)
  collect-IsSupport (suc f) found visited (i ∷ pending) s h =
      elim (Bool-cases (leb i 1 || contains visited i)) [
        | inl e ↦
            let r =
              collect-IsSupport f found visited pending
                (skipped found visited pending i (seen_before i visited e) s) (omega arith) in
            (r.0, rw (collect, e) r.1, r.2)
        | inr e ↦ elim (node_at_inside ns i (s.inside i (here refl))) [
          | inl p ↦ absurd (ground arith)
          | inr (k, p) ↦
              let fresh = unseen-cons_lt visited i k ns p (ground arith) in
              let r =
                collect-IsSupport f (k.variable ∷ found) (i ∷ visited) (k.high ∷ k.low ∷ pending)
                  (visited_next found visited pending i k p s) (omega arith) in
              (r.0, rw (collect, e, p) r.1, r.2)
        ]
      ]

-- The search returns, whatever node of the diagram it starts from.
pub relevant-IsSupport :
    (s : Bdd) (root : ℕ)
    → Reduced s.nodes
    → root < size s.nodes
    → (result : List ℕ) × (relevant s root ≡ some result) × IsSupport s.nodes root result
unfolding relevant
relevant-IsSupport s root ok h =
    collect-IsSupport s.nodes ok root (2 * length s.nodes + 2) [] [] (root ∷ [])
      (record {
        inside = λ j m. elim m [ here e ↦ rw e h | there n ↦ elim n [ ] ];
        reached = λ j m. elim m [ here e ↦ rw e start | there n ↦ elim n [ ] ];
        origins = λ v m. elim m [ ];
        covered = inr (inr (here refl));
        lows = λ i k m p. elim m [ ];
        highs = λ i k m p. elim m [ ];
        named = λ i k m p. elim m [ ];
      })
      (omega (arith, unseen-le-length [] s.nodes))
