-- ===== src/Program/Polarity.antt =====
-- The sign of a dependency is the direction in which it moves a permission:
-- src/rebac/compile/program.py.
use django_zed_rebac.Prelude.{
  Text, Bool, true, false, none, some, List, [], ◌∷◌, ◌++◌, if◌then◌else◌, nat_eq, bool_eq, list_eq,
  pair_eq, contains, not, ◌&&◌, ◌||◌, ◌≡◌, refl, ap, arith, any_of, Mem, here, there,
  Mem-append_left, Mem-append_right, Mem-append_split, contains→Mem, Bool-cases, Option-cases, inl,
  inr, ◌⊎◌, ◌↔◌, subst, sym,
}
use django_zed_rebac.Schema.{
  AllowedSubject, Relation, PermExpr, ref, arrow, bin_op, nil, Op, union, intersection, exclusion,
  Schema, builtin_actor_types,
}
use django_zed_rebac.Program.Defs.{
  Node, Dependency, distinct, arrow_dependencies, is_exclusion, xor, via_relation,
  expr_dependencies, arrow_vias,
}

-- A state of the graph: the value of every node, of the built-in terms, and the subjects that an
-- arrow of a row leads to, by the declared alternative.
pub record State : Type 0 where
  pub value : Node → Bool
  pub builtin : Text → Bool
  pub linked : Text → AllowedSubject → Bool

abbrev pub truth : Op → Bool → Bool → Bool
truth union a b = a || b
truth intersection a b = a && b
truth exclusion a b = a && not b

unfoldable pub decided : Schema → Text → State → PermExpr → Bool
unfolding via_relation
decided s t w nil = false
decided s t w (ref n) = if contains builtin_actor_types n then w.builtin n else w.value (t, n)
decided s t w (arrow via target) = elim (via_relation s t via) [
  | none ↦ false
  | some r ↦
      any_of (λ (a : AllowedSubject). w.linked via a && w.value (a.type, target)) r.allowed_subjects
]
decided s t w (bin_op op l r) = truth op (decided s t w l) (decided s t w r)

-- A value moves up, or down under a negation.
abbrev pub Moves : Bool → Bool → Bool → Type 0
Moves negative a b = (if negative then b else a) ≡ true → (if negative then a else b) ≡ true

-- Two states with the same rows of the relations `vs` of a type, each dependency moved in its
-- direction.
pub record Moved (t : Text) (ds : List Dependency) (vs : List Node) (v w : State) : Type 0 where
  pub same_builtin : (n : Text) → v.builtin n ≡ w.builtin n
  pub same_linked :
      (via : Text) (a : AllowedSubject) → Mem (t, via) vs → v.linked via a ≡ w.linked via a
  pub moves :
      (k : Node) (negative traverses : Bool)
      → Mem (k, (negative, traverses)) ds
      → Moves negative (v.value k) (w.value k)

distinct-keeps :
    (d : Dependency) (seen ds : List Dependency) → Mem d ds → Mem d seen ⊎ Mem d (distinct seen ds)
unfolding distinct
distinct-keeps d seen [] m = elim m [ ]
distinct-keeps d seen (x ∷ xs) m = elim (Bool-cases (contains seen x)) [
  | inl e ↦ elim m [
    | here p ↦ inl (rw p (contains→Mem seen x e))
    | there n ↦ rw (distinct, e) (distinct-keeps d seen xs n)
  ]
  | inr e ↦ elim m [
    | here p ↦ inr (rw (distinct, e) (here p))
    | there n ↦ elim (distinct-keeps d (x ∷ seen) xs n) [
      | inr r ↦ inr (rw (distinct, e) (there r))
      | inl (here p) ↦ inr (rw (distinct, e) (here p))
      | inl (there q) ↦ inl q
    ]
  ]
]

distinct-adds_none :
    (d : Dependency) (seen ds : List Dependency) → Mem d (distinct seen ds) → Mem d ds
unfolding distinct
distinct-adds_none d seen [] m = elim m [ ]
distinct-adds_none d seen (x ∷ xs) m = elim (Bool-cases (contains seen x)) [
  | inl e ↦ there (distinct-adds_none d seen xs (rw (distinct, e) at m))
  | inr e ↦
      let n : Mem d (x ∷ distinct (x ∷ seen) xs) = rw (distinct, e) at m in
      elim n [ here p ↦ here p | there q ↦ there (distinct-adds_none d (x ∷ seen) xs q) ]
]

distinct-all : (d : Dependency) (ds : List Dependency) → Mem d ds → Mem d (distinct [] ds)
distinct-all d ds m = elim (distinct-keeps d [] ds m) [ inl n ↦ elim n [ ] | inr r ↦ r ]

Moved-left :
    {t : Text} {xs : List Dependency} (ys : List Dependency) {vs : List Node} (us : List Node)
    {v w : State}
    → Moved t (xs ++ ys) (vs ++ us) v w
    → Moved t xs vs v w
Moved-left ys us h = record {
  same_builtin = h.same_builtin;
  same_linked = λ via a m. h.same_linked via a (Mem-append_left us m);
  moves = λ k n r m. h.moves k n r (Mem-append_left ys m);
}

Moved-right :
    {t : Text} (xs : List Dependency) {ys : List Dependency} (vs : List Node) {us : List Node}
    {v w : State}
    → Moved t (xs ++ ys) (vs ++ us) v w
    → Moved t ys us v w
Moved-right xs vs h = record {
  same_builtin = h.same_builtin;
  same_linked = λ via a m. h.same_linked via a (Mem-append_right vs m);
  moves = λ k n r m. h.moves k n r (Mem-append_right xs m);
}

Moves-same : (negative a b : Bool) → a ≡ b → Moves negative a b
Moves-same true a b h = λ k. ground arith
Moves-same false a b h = λ k. ground arith

truth-Moves :
    (op : Op) (negative a b c d : Bool)
    → Moves negative a b
    → Moves (xor negative (is_exclusion op)) c d
    → Moves negative (truth op a c) (truth op b d)
truth-Moves union true a b c d h k = λ p. ground arith
truth-Moves union false a b c d h k = λ p. ground arith
truth-Moves intersection true a b c d h k = λ p. ground arith
truth-Moves intersection false a b c d h k = λ p. ground arith
truth-Moves exclusion true a b c d h k = λ p. ground arith
truth-Moves exclusion false a b c d h k = λ p. ground arith

xor-false : (b : Bool) → xor b false ≡ b
xor-false true = refl
xor-false false = refl

any_of-Moves :
    (negative : Bool) (p q : AllowedSubject → Bool) (xs : List AllowedSubject)
    → ((a : AllowedSubject) → Mem a xs → Moves negative (p a) (q a))
    → Moves negative (any_of p xs) (any_of q xs)
unfolding any_of
any_of-Moves negative p q [] h = Moves-same negative false false refl
any_of-Moves negative p q (x ∷ xs) h =
    truth-Moves union negative (p x) (q x) (any_of p xs) (any_of q xs) (h x (here refl))
      (rw (xor-false negative) (any_of-Moves negative p q xs (λ a m. h a (there m))))

arrow-Mem :
    (negative : Bool) (target : Text) (a : AllowedSubject) (xs : List AllowedSubject)
    → Mem a xs
    → Mem ((a.type, target), (negative, true)) (arrow_dependencies negative target xs)
arrow-Mem negative target a [] m = elim m [ ]
arrow-Mem negative target a (x ∷ xs) (here p) =
    here (ap (λ (b : AllowedSubject). ((b.type, target), (negative, true))) p)
arrow-Mem negative target a (x ∷ xs) (there m) = there (arrow-Mem negative target a xs m)

-- The sign of the right side of an operator, under a sign.
abbrev right_sign : Op → Bool → Bool
right_sign exclusion negative = not negative
right_sign union negative = negative
right_sign intersection negative = negative

-- The expression reads the node with the sign: as a name that is not built in, or as the target of
-- an arrow, at a type that the arrow's relation allows. Each subtrahend turns the sign.
abbrev pub Occurs : Schema → Text → PermExpr → Bool → Dependency → Type 0
Occurs s t nil negative d = ⊥
Occurs s t (ref n) negative d =
    (contains builtin_actor_types n ≡ false) × (d ≡ ((t, n), (negative, false)))
Occurs s t (arrow via target) negative d =
    (r : Relation) × (a : AllowedSubject) × (via_relation s t via ≡ some r)
    × Mem a r.allowed_subjects
    × (d ≡ ((a.type, target), (negative, true)))
Occurs s t (bin_op op l r) negative d =
    Occurs s t l negative d ⊎ Occurs s t r (right_sign op negative) d

arrow-Mem_inv :
    (negative : Bool) (target : Text) (d : Dependency) (xs : List AllowedSubject)
    → Mem d (arrow_dependencies negative target xs)
    → (a : AllowedSubject) × Mem a xs × (d ≡ ((a.type, target), (negative, true)))
arrow-Mem_inv negative target d [] m = elim m [ ]
arrow-Mem_inv negative target d (x ∷ xs) (here p) = (x, here refl, p)
arrow-Mem_inv negative target d (x ∷ xs) (there m) =
    let (a, n, p) = arrow-Mem_inv negative target d xs m in (a, there n, p)

xor-right_sign :
    (op : Op) (negative : Bool) → xor negative (is_exclusion op) ≡ right_sign op negative
xor-right_sign union negative = xor-false negative
xor-right_sign intersection negative = xor-false negative
xor-right_sign exclusion true = refl
xor-right_sign exclusion false = refl

Mem-Occurs :
    (s : Schema) (t : Text) (e : PermExpr) (negative : Bool) (d : Dependency)
    → Mem d (expr_dependencies s t e negative)
    → Occurs s t e negative d
unfolding expr_dependencies
Mem-Occurs s t nil negative d m = elim m [ ]
Mem-Occurs s t (ref n) negative d m = elim (Bool-cases (contains builtin_actor_types n)) [
  | inl e ↦ elim (rw (expr_dependencies, e) at m) [ ]
  | inr e ↦
      let k : Mem d (((t, n), (negative, false)) ∷ []) = rw (expr_dependencies, e) at m in
      elim k [ here p ↦ (e, p) | there q ↦ elim q [ ] ]
]
Mem-Occurs s t (arrow via target) negative d m = elim (Option-cases (via_relation s t via)) [
  | inl e ↦ elim (rw (expr_dependencies, e) at m) [ ]
  | inr (r, e) ↦
      let k : Mem d (distinct [] (arrow_dependencies negative target r.allowed_subjects)) =
        rw (expr_dependencies, e) at m in
      let (a, n, p) =
        arrow-Mem_inv negative target d r.allowed_subjects
          (distinct-adds_none d [] (arrow_dependencies negative target r.allowed_subjects) k) in
      (r, a, e, n, p)
]
Mem-Occurs s t (bin_op op l r) negative d m =
    elim (Mem-append_split (expr_dependencies s t l negative) m) [
      | inl k ↦ inl (Mem-Occurs s t l negative d k)
      | inr k ↦ inr (
          Mem-Occurs s t r (right_sign op negative) d
            (subst (λ b. Mem d (expr_dependencies s t r b)) (xor-right_sign op negative) k))
    ]

Occurs-Mem :
    (s : Schema) (t : Text) (e : PermExpr) (negative : Bool) (d : Dependency)
    → Occurs s t e negative d
    → Mem d (expr_dependencies s t e negative)
unfolding expr_dependencies
Occurs-Mem s t nil negative d m = absurd m
Occurs-Mem s t (ref n) negative d (e, p) = rw (expr_dependencies, e) (here p)
Occurs-Mem s t (arrow via target) negative d (r, a, e, n, p) =
    rw (expr_dependencies, e, p)
      (distinct-all ((a.type, target), (negative, true))
        (arrow_dependencies negative target r.allowed_subjects)
        (arrow-Mem negative target a r.allowed_subjects n))
Occurs-Mem s t (bin_op op l r) negative d (inl k) =
    Mem-append_left (expr_dependencies s t r (xor negative (is_exclusion op)))
      (Occurs-Mem s t l negative d k)
Occurs-Mem s t (bin_op op l r) negative d (inr k) =
    Mem-append_right (expr_dependencies s t l negative) (
      subst (λ b. Mem d (expr_dependencies s t r b)) (sym (xor-right_sign op negative))
        (Occurs-Mem s t r (right_sign op negative) d k))

dependencies-Moves :
    (s : Schema) (t : Text) (e : PermExpr) (negative : Bool) (v w : State)
    → Moved t (expr_dependencies s t e negative) (arrow_vias t e) v w
    → Moves negative (decided s t v e) (decided s t w e)
unfolding expr_dependencies decided arrow_vias
dependencies-Moves s t nil negative v w h = Moves-same negative false false refl
dependencies-Moves s t (ref n) negative v w h = elim (Bool-cases (contains builtin_actor_types n)) [
  | inl e ↦ rw (decided, e) (Moves-same negative (v.builtin n) (w.builtin n) (h.same_builtin n))
  | inr e ↦ rw (decided, e) (h.moves (t, n) negative false (rw (expr_dependencies, e) (here refl)))
]
dependencies-Moves s t (arrow via target) negative v w h =
    elim (Option-cases (via_relation s t via)) [
      | inl e ↦ rw (decided, e) (Moves-same negative false false refl)
      | inr (r, e) ↦
          rw (decided, e)
            (any_of-Moves negative
              (λ (a : AllowedSubject). v.linked via a && v.value (a.type, target))
              (λ (a : AllowedSubject). w.linked via a && w.value (a.type, target))
              r.allowed_subjects
              (λ a m.
                truth-Moves intersection negative (v.linked via a) (w.linked via a)
                  (v.value (a.type, target)) (w.value (a.type, target))
                  (Moves-same negative (v.linked via a) (w.linked via a)
                    (h.same_linked via a (here refl)))
                  (rw (xor-false negative) (
                    h.moves (a.type, target) negative true
                      (rw (expr_dependencies, e)
                        (distinct-all ((a.type, target), (negative, true))
                          (arrow_dependencies negative target r.allowed_subjects)
                          (arrow-Mem negative target a r.allowed_subjects m)))))))
    ]
dependencies-Moves s t (bin_op op l r) negative v w h =
    truth-Moves op negative (decided s t v l) (decided s t w l) (decided s t v r) (decided s t w r)
      (dependencies-Moves s t l negative v w
        (Moved-left (expr_dependencies s t r (xor negative (is_exclusion op))) (arrow_vias t r) h))
      (dependencies-Moves s t r (xor negative (is_exclusion op)) v w
        (Moved-right (expr_dependencies s t l negative) (arrow_vias t l) h))

-- The dependencies of an expression are exactly its occurrences with their signs: the names that
-- are not built in and, at each type that the arrow's relation allows, the targets of arrows, the
-- sign turned by each subtrahend. When these nodes move, those of positive dependencies from false
-- to true at most and those of negative ones from true to false at most, while the built-in names
-- and the rows of the relations that its arrows go by, those of `arrow_vias`, are held fixed, the expression moves from false to true at most,
-- and the other way round for an expression that is itself negated.
pub expr_dependencies-Moves :
    (s : Schema) (t : Text) (e : PermExpr) (negative : Bool) (v w : State)
    → Moved t (expr_dependencies s t e negative) (arrow_vias t e) v w
    → ((d : Dependency) → Mem d (expr_dependencies s t e negative) ↔ Occurs s t e negative d)
      × Moves negative (decided s t v e) (decided s t w e)
expr_dependencies-Moves s t e negative v w h = (
  λ d. (Mem-Occurs s t e negative d, Occurs-Mem s t e negative d),
  dependencies-Moves s t e negative v w h,
)
