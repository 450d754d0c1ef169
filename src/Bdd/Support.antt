-- ===== src/Bdd/Support.antt =====
-- The variables that `_BDD.relevant` finds, src/rebac/compile/evaluate.py, are exactly those that
-- the meaning of a node depends on.
use django_zed_rebac.Prelude.{
  ℕ, zero, suc, ◌<◌, Bool, true, false, some, List, [], ◌∷◌, if◌then◌else◌, nat_eq, contains, Mem,
  contains→Mem, Mem→contains, ◌≡◌, ◌≢◌, ◌↔◌, refl, arith, Bool-cases, inl, inr, ==_cases, ==_iff,
  sym, ◌∙◌, subst, ==_refl,
}
use django_zed_rebac.Bdd.Defs.{Node, Bdd, size, node_at}
use django_zed_rebac.Bdd.Order.{
  Assignment, eval, Reduced, IsNode, node_at-IsNode, node_at_inside, eval_terminal,
}
use django_zed_rebac.Bdd.Unique.{IsValid}
use django_zed_rebac.Bdd.Canonical.{set, eval-set, Reduced-canonical}
use django_zed_rebac.Bdd.Search.{relevant}
use django_zed_rebac.Bdd.Reaching.{Below, start, low, high, relevant-IsSupport}

-- Nothing that is said of `v` changes the value of the node.
abbrev pub Ignores : List Node → ℕ → ℕ → Type 0
Ignores ns v i = (a : Assignment) → eval ns i (set v true a) ≡ eval ns i (set v false a)

-- Equal assignments give equal values.
eval_ext :
    (ns : List Node) (i : ℕ) (a b : Assignment) → ((x : ℕ) → a x ≡ b x) → eval ns i a ≡ eval ns i b
unfolding eval
eval_ext [] i a b h = refl
eval_ext (n ∷ ns) i a b h =
    ground
      (arith, h n.variable, eval_ext ns i a b h, eval_ext ns n.low a b h, eval_ext ns n.high a b h)

set-set :
    (v w : ℕ) (b c : Bool) (a : Assignment)
    → v ≢ w
    → (x : ℕ) → set v b (set w c a) x ≡ set w c (set v b a) x
set-set v w b c a h x = ground (arith, ==_iff x v, ==_iff x w)

module _ (ns : List Node) (ok : Reduced ns) where
  -- A child's value is the node's, with the node's variable set.
  child_value :
      (i : ℕ) (k : Node) (side : Bool) (a : Assignment)
      → IsNode ns i k
      → eval ns i (set k.variable side a) ≡ eval ns (if side then k.high else k.low) a
  child_value i k true a n =
      n.value (set k.variable true a)
      ∙ ground (arith, eval-set ns k.variable k.high true a ok n.high_above)
  child_value i k false a n =
      n.value (set k.variable false a)
      ∙ ground (arith, eval-set ns k.variable k.low false a ok n.low_above)

  Ignores-child :
      (v i : ℕ) (k : Node) (side : Bool)
      → IsNode ns i k
      → v ≢ k.variable
      → Ignores ns v i
      → Ignores ns v (if side then k.high else k.low)
  Ignores-child v i k side n d h a =
      sym (child_value i k side (set v true a) n)
      ∙ eval_ext ns i (set k.variable side (set v true a)) (set v true (set k.variable side a))
          (λ x. sym (set-set v k.variable true side a d x))
      ∙ h (set k.variable side a)
      ∙ eval_ext ns i (set v false (set k.variable side a)) (set k.variable side (set v false a))
          (set-set v k.variable false side a d)
      ∙ child_value i k side (set v false a) n

  -- A node does not ignore its own variable.
  not-Ignores-own : (i : ℕ) (k : Node) → IsNode ns i k → Ignores ns k.variable i → ⊥
  not-Ignores-own i k n h = n.distinct (
      Reduced-canonical ns k.low k.high ok (omega (arith, n.low_lt, n.inside))
        (omega (arith, n.high_lt, n.inside))
        (λ a. sym (child_value i k false a n) ∙ sym (h a) ∙ child_value i k true a n))

  Ignores-step :
      (v i : ℕ) (k : Node) (side : Bool)
      → node_at ns i ≡ some k
      → Ignores ns v i
      → Ignores ns v (if side then k.high else k.low)
  Ignores-step v i k side p h =
      let n = node_at-IsNode ns i k ok p in
      elim (==_cases v k.variable) [
        | inl (e, q) ↦ absurd (not-Ignores-own i k n (subst (λ x. Ignores ns x i) q h))
        | inr e ↦ Ignores-child v i k side n (λ q. cc (rw (q, ==_refl k.variable) at e)) h
      ]

  Ignores-Below : (v root i : ℕ) → Below ns root i → Ignores ns v root → Ignores ns v i
  Ignores-Below v root i start h = h
  Ignores-Below v root i (low {i = j} {k = k} b p) h =
      Ignores-step v j k false p (Ignores-Below v root j b h)
  Ignores-Below v root i (high {i = j} {k = k} b p) h =
      Ignores-step v j k true p (Ignores-Below v root j b h)

  -- No node below the root has the variable.
  abbrev Misses : ℕ → ℕ → Type 0
  Misses v root = (j : ℕ) (k : Node) → Below ns root j → node_at ns j ≡ some k → k.variable ≢ v

  Below-under : {a b c : ℕ} → Below ns a b → Below ns b c → Below ns a c
  Below-under x start = x
  Below-under x (low y p) = low (Below-under x y) p
  Below-under x (high y p) = high (Below-under x y) p

  Misses-Ignores : (f v i : ℕ) → i < size ns → i < f → Misses v i → Ignores ns v i
  Misses-Ignores zero v i hi hf m a = absurd (omega arith)
  Misses-Ignores (suc f) v i hi hf m a = elim (node_at_inside ns i hi) [
    | inl t ↦ eval_terminal ns i (set v true a) t ∙ sym (eval_terminal ns i (set v false a) t)
    | inr (k, p) ↦
        let n = node_at-IsNode ns i k ok p in
        let ih_low =
          Misses-Ignores f v k.low (omega (arith, n.low_lt, n.inside)) (omega (arith, n.low_lt))
            (λ j q b. m j q (Below-under (low start p) b)) a in
        let ih_high =
          Misses-Ignores f v k.high (omega (arith, n.high_lt, n.inside)) (omega (arith, n.high_lt))
            (λ j q b. m j q (Below-under (high start p) b)) a in
        ground (
          arith,
          n.value (set v true a),
          n.value (set v false a),
          ih_low,
          ih_high,
          m i k start p,
          ==_iff k.variable v,
        )
  ]

-- In a valid diagram the search for the variables of one of its nodes returns, and a variable is
-- outside the result exactly when setting it, whatever the others are, never changes the value
-- of the node.
pub relevant-Ignores :
    (s : Bdd) (root : ℕ)
    → IsValid s
    → root < size s.nodes
    → (found : List ℕ) × (relevant s root ≡ some found)
      × ((v : ℕ) → (contains found v ≡ false) ↔ Ignores s.nodes v root)
relevant-Ignores s root ok h =
    let (found, e, support) = relevant-IsSupport s root ok.reduced h in
    (
      found,
      e,
      λ v. (
        (λ c. Misses-Ignores s.nodes ok.reduced (suc root) v root h (omega arith) (λ j k b p q.
            cc (Mem→contains found (subst (λ x. Mem x found) q (support.1 j k b p))))),
        (λ g. elim (Bool-cases (contains found v)) [
          | inr n ↦ n
          | inl y ↦
              let (i, k, b, p, q) = support.0 v (contains→Mem found v y) in
              absurd (
                not-Ignores-own s.nodes ok.reduced i k (node_at-IsNode s.nodes i k ok.reduced p) (
                  subst (λ x. Ignores s.nodes x i) (sym q)
                    (Ignores-Below s.nodes ok.reduced v root i b g)))
        ]),
      ),
    )
