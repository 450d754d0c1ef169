-- ===== src/Walker/Totality.antt =====
-- The walk always ends: each nested permission is another one of the definition, so as much fuel
-- as the definition has permissions is enough. src/rebac/schema/walker.py, `eval_expr`.
use django_zed_rebac.Prelude.{
  ℕ, zero, suc, ◌≤◌, ◌<◌, Text, Bool, false, Option, none, some, List, [], ◌∷◌, ◌≡◌, ◌≢◌, refl,
  contains, nat_eq, list_eq, pair_eq, arith, Bool-cases, Option-cases, inl, inr, length,
  if◌then◌else◌, find_first, ◌==◌, ==_iff, ==_refl,
}
use django_zed_rebac.Schema.{
  Definition, Permission, PermExpr, ref, arrow, bin_op, nil, Op, union, intersection, exclusion,
  find_relation, find_permission, builtin_actor_types,
}
use django_zed_rebac.Walker.Defs.{
  Context, Key, Missing, Answer, value, unknown_relation, depth_exceeded, enter, eval_expr,
  eval_ref, eval_arrow, eval_permission_ref, combine, settles, with_right, after_unknown, eval_from,
}

-- How many of the permissions of a definition are not being evaluated.
abbrev fresh : Text → List Key → List Permission → ℕ
fresh t seen [] = 0
fresh t seen (p ∷ ps) = if contains seen (t, p.name) then fresh t seen ps else suc (fresh t seen ps)

fresh-le-length : (t : Text) (seen : List Key) (ps : List Permission) → fresh t seen ps ≤ length ps
fresh-le-length t seen [] = omega arith
fresh-le-length t seen (p ∷ ps) = ground (arith, fresh-le-length t seen ps)

-- A key more leaves fewer fresh permissions.
fresh-cons_le :
    (t : Text) (k : Key) (seen : List Key) (ps : List Permission)
    → fresh t (k ∷ seen) ps ≤ fresh t seen ps
unfolding contains
fresh-cons_le t k seen [] = omega arith
fresh-cons_le t k seen (p ∷ ps) = ground (arith, fresh-cons_le t k seen ps)

abbrev named : Text → List Permission → Option Permission
named n ps = find_first (λ (p : Permission). p.name == n) ps

fresh-cons_lt :
    (t n : Text) (seen : List Key) (ps : List Permission) {q : Permission}
    → contains seen (t, n) ≡ false
    → named n ps ≡ some q
    → fresh t ((t, n) ∷ seen) ps < fresh t seen ps
unfolding contains find_first
fresh-cons_lt t n seen [] c h = cc
fresh-cons_lt t n seen (p ∷ ps) c h = elim (Bool-cases (p.name == n)) [
  | inl e ↦
      let same : p.name ≡ n = (==_iff p.name n).0 e in
      rw (same, ==_refl {A = Key} (t, n), c) (ground (arith, fresh-cons_le t (t, n) seen ps))
  | inr e ↦ ground (arith, fresh-cons_lt t n seen ps c (rw e at h))
]

after_unknown-ne-none : (r : Option Answer) → r ≢ none → after_unknown r ≢ none
unfolding after_unknown
after_unknown-ne-none r h = ground arith

with_right-ne-none :
    (op : Op) (l : Option Bool) (r : Option Answer) → r ≢ none → with_right op l r ≢ none
unfolding with_right
with_right-ne-none op l r h = ground arith

combine-ne-none :
    (op : Op) (u : Bool) (l : Option Answer) (right : Missing → Option Answer)
    → l ≢ none
    → ((m : Missing) → right m ≢ none)
    → combine op u l right ≢ none
unfolding combine
combine-ne-none op u none right h k = λ _. h refl
combine-ne-none op u (some (depth_exceeded m)) right h k = cc
combine-ne-none union u (some (unknown_relation m)) right h k =
    after_unknown-ne-none (right m) (k m)
combine-ne-none intersection u (some (unknown_relation m)) right h k = cc
combine-ne-none exclusion u (some (unknown_relation m)) right h k = cc
combine-ne-none op u (some (value v m)) right h k = elim (Bool-cases (settles op u v)) [
  | inl s ↦ rw s (cc)
  | inr s ↦ rw s (with_right-ne-none op v (right m) (k m))
]

module _ (ctx : Context) (d : Definition) (rid : Text) (depth : ℕ) where
  enter-ne-none :
      (m : Missing) (body : Option Answer) → body ≢ none → enter ctx d rid depth m body ≢ none
  unfolding enter
  enter-ne-none m body h = ground arith

  eval_permission_ref-ne-none :
      (n : Text) (seen : List Key) (m : Missing)
      (go : PermExpr → List Key → Missing → Option Answer)
      → ((p : Permission)
          → contains seen (d.resource_type, n) ≡ false
          → find_permission d n ≡ some p
          → go p.expression ((d.resource_type, n) ∷ seen) m ≢ none)
      → eval_permission_ref ctx d rid depth n seen m go ≢ none
  unfolding eval_permission_ref
  eval_permission_ref-ne-none n seen m go k =
      elim (Bool-cases (contains seen (d.resource_type, n))) [
        | inl c ↦ rw c (cc)
        | inr c ↦ elim (Option-cases (find_permission d n)) [
          | inl e ↦ rw (c, e) (cc)
          | inr (p, e) ↦ rw (c, e) (k p c e)
        ]
      ]

  eval_ref-ne-none :
      (n : Text) (seen : List Key) (m : Missing)
      (go : PermExpr → List Key → Missing → Option Answer)
      → ((p : Permission)
          → contains seen (d.resource_type, n) ≡ false
          → find_permission d n ≡ some p
          → go p.expression ((d.resource_type, n) ∷ seen) m ≢ none)
      → eval_ref ctx d rid depth n seen m go ≢ none
  unfolding eval_ref
  eval_ref-ne-none n seen m go k = elim (Bool-cases (contains builtin_actor_types n)) [
    | inl b ↦ rw b (cc)
    | inr b ↦ elim (Option-cases (find_relation d n)) [
      | inr (r, e) ↦ rw (b, e) (cc)
      | inl e ↦ rw (b, e) (eval_permission_ref-ne-none n seen m go k)
    ]
  ]

  eval_arrow-ne-none :
      (via target : Text) (m : Missing) → eval_arrow ctx d rid depth via target m ≢ none
  unfolding eval_arrow
  eval_arrow-ne-none via target m = ground arith

  eval_expr-ne-none :
      (fuel : ℕ) (e : PermExpr) (seen : List Key) (m : Missing)
      → fresh d.resource_type seen d.permissions ≤ fuel
      → eval_expr ctx d rid depth fuel e seen m ≢ none
  unfolding eval_expr find_permission
  eval_expr-ne-none fuel nil seen m h = enter-ne-none m _ (cc)
  eval_expr-ne-none zero (ref n) seen m h = enter-ne-none m _ (
      eval_ref-ne-none n seen m (λ _ _ _. none)
        (λ p c q. absurd (omega (arith, fresh-cons_lt d.resource_type n seen d.permissions c q))))
  eval_expr-ne-none (suc fuel) (ref n) seen m h = enter-ne-none m _ (
      eval_ref-ne-none n seen m (eval_expr ctx d rid depth fuel) (λ p c q.
        eval_expr-ne-none fuel p.expression ((d.resource_type, n) ∷ seen) m
          (omega (arith, fresh-cons_lt d.resource_type n seen d.permissions c q))))
  eval_expr-ne-none fuel (arrow via target) seen m h =
      enter-ne-none m _ (eval_arrow-ne-none via target m)
  eval_expr-ne-none fuel (bin_op op l r) seen m h = enter-ne-none m _ (
      combine-ne-none op ctx.has_unknown_relations _ _ (eval_expr-ne-none fuel l seen m h)
        (λ k. eval_expr-ne-none fuel r seen k h))

  -- A client's walk of any expression ends, also where permissions refer to one another in a
  -- circle.
  pub eval_from_total : (e : PermExpr) (m : Missing) → eval_from ctx d rid depth e m ≢ none
  unfolding eval_from
  eval_from_total e m =
      eval_expr-ne-none (length d.permissions) e [] m
        (fresh-le-length d.resource_type [] d.permissions)
