-- ===== src/Walker/Soundness.antt =====
-- The walker's definite answers are the meaning of the expression: src/rebac/schema/walker.py.
use django_zed_rebac.Prelude.{
  ℕ, zero, suc, Text, Bool, true, false, Option, none, some, List, ◌≡◌, refl, contains, nat_eq,
  list_eq, pair_eq, arith, ltb, Bool-cases, inl, inr,
}
use django_zed_rebac.Schema.{
  Definition, PermExpr, ref, arrow, bin_op, nil, Op, union, intersection, exclusion,
}
use django_zed_rebac.Walker.Tri.{Tri, Completes, bool_op, tri_op-Completes}
use django_zed_rebac.Walker.Defs.{
  Context, Key, Missing, Answer, value, unknown_relation, depth_exceeded, enter, eval_expr,
  eval_ref, eval_arrow, combine, settles, with_right, after_unknown,
}
use django_zed_rebac.Walker.Meaning.{
  World, Means, nothing, builtin, relation, cyclic, undeclared, permission, no_arrow, arrow_over,
  operator, MayAgree, IsFaithful,
}

with_right-MayAgree :
    (op : Op) (l : Tri) (r : Option Answer) (a b : Bool)
    → Completes l a
    → MayAgree r b
    → MayAgree (with_right op l r) (bool_op op a b)
unfolding with_right
with_right-MayAgree op l none a b h k = tt
with_right-MayAgree op l (some (value r m)) a b h k = tri_op-Completes op l r a b h k
with_right-MayAgree op l (some (unknown_relation m)) a b h k = tt
with_right-MayAgree op l (some (depth_exceeded m)) a b h k = tt

settled-Completes :
    (op : Op) (unknowns : Bool) (v : Tri) (a b : Bool)
    → settles op unknowns v ≡ true
    → Completes v a
    → Completes v (bool_op op a b)
unfolding settles
settled-Completes union unknowns v a b s h = ground arith
settled-Completes intersection unknowns v a b s h = ground arith
settled-Completes exclusion unknowns v a b s h = ground arith

after_unknown-MayAgree :
    (r : Option Answer) (a b : Bool) → MayAgree r b → MayAgree (after_unknown r) (bool_op union a b)
unfolding after_unknown
after_unknown-MayAgree none a b h = tt
after_unknown-MayAgree (some (value (some true) m)) a b h = ground arith
after_unknown-MayAgree (some (value (some false) m)) a b h = tt
after_unknown-MayAgree (some (value none m)) a b h = tt
after_unknown-MayAgree (some (unknown_relation m)) a b h = tt
after_unknown-MayAgree (some (depth_exceeded m)) a b h = tt

combine-MayAgree :
    (op : Op) (unknowns : Bool) (l : Option Answer) (right : Missing → Option Answer) (a b : Bool)
    → MayAgree l a
    → ((m : Missing) → MayAgree (right m) b)
    → MayAgree (combine op unknowns l right) (bool_op op a b)
unfolding combine
combine-MayAgree op unknowns none right a b h k = tt
combine-MayAgree op unknowns (some (depth_exceeded m)) right a b h k = tt
combine-MayAgree union unknowns (some (unknown_relation m)) right a b h k =
    after_unknown-MayAgree (right m) a b (k m)
combine-MayAgree intersection unknowns (some (unknown_relation m)) right a b h k = tt
combine-MayAgree exclusion unknowns (some (unknown_relation m)) right a b h k = tt
combine-MayAgree op unknowns (some (value v m)) right a b h k =
    elim (Bool-cases (settles op unknowns v)) [
      | inl s ↦ rw s (settled-Completes op unknowns v a b s h)
      | inr s ↦ rw s (with_right-MayAgree op v (right m) a b h (k m))
    ]

module _ (ctx : Context) (d : Definition) (rid : Text) (depth : ℕ) (w : World) where
  enter-MayAgree :
      (m : Missing) (body : Option Answer) (b : Bool)
      → MayAgree body b
      → MayAgree (enter ctx d rid depth m body) b
  unfolding enter
  enter-MayAgree m body b h = elim (Bool-cases (ltb ctx.depth_limit depth)) [
    | inl s ↦ rw s tt
    | inr s ↦ rw s h
  ]

  eval_ref-MayAgree :
      IsFaithful ctx d rid depth w
      → (m : Missing) (go : PermExpr → List Key → Missing → Option Answer)
      → {seen : List Key} {n : Text} {b : Bool}
      → ((s : List Key) (e : PermExpr) (k : Missing) → Means ctx d w s e b → MayAgree (go e s k) b)
      → Means ctx d w seen (ref n) b
      → MayAgree (eval_ref ctx d rid depth n seen m go) b
  unfolding eval_ref
  eval_ref-MayAgree f m go ih (builtin h e) = rw (h, e)
  eval_ref-MayAgree f m go ih (relation {n} h k e) = rw (h, k, e) (f.relations n m)
  eval_ref-MayAgree f m go ih (cyclic h k c) = rw (h, k, c)
  eval_ref-MayAgree f m go ih (undeclared {seen} {n} h k p) =
      elim (Bool-cases (contains seen (d.resource_type, n))) [
        | inl c ↦ rw (h, k, c)
        | inr c ↦ rw (h, k, c, p)
      ]
  eval_ref-MayAgree f m go ih (permission {p} h k c q e) = rw (h, k, c, q) (ih _ p.expression m e)

  eval_arrow-MayAgree :
      IsFaithful ctx d rid depth w
      → (m : Missing) {seen : List Key} {via target : Text} {b : Bool}
      → Means ctx d w seen (arrow via target) b
      → MayAgree (eval_arrow ctx d rid depth via target m) b
  unfolding eval_arrow
  eval_arrow-MayAgree f m (no_arrow h) = rw (h, MayAgree) refl
  eval_arrow-MayAgree f m (arrow_over {via} {target} h e) =
      rw (h, e, MayAgree) (f.arrows via target m)

  none-MayAgree : (s : List Key) (e : PermExpr) (k : Missing) (b : Bool) → MayAgree none b
  none-MayAgree s e k b = tt

  eval_expr-MayAgree :
      IsFaithful ctx d rid depth w
      → (fuel : ℕ) (e : PermExpr) {seen : List Key} {b : Bool} (m : Missing)
      → Means ctx d w seen e b
      → MayAgree (eval_expr ctx d rid depth fuel e seen m) b
  unfolding eval_expr
  eval_expr-MayAgree f fuel nil m nothing = enter-MayAgree m _ false refl
  eval_expr-MayAgree f zero (ref n) {b} m dn =
      enter-MayAgree m _ b
        (eval_ref-MayAgree f m (λ _ _ _. none) (λ s e k x. none-MayAgree s e k b) dn)
  eval_expr-MayAgree f (suc fuel) (ref n) {b} m dn =
      enter-MayAgree m _ b (eval_ref-MayAgree f m _ (λ s e k x. eval_expr-MayAgree f fuel e k x) dn)
  eval_expr-MayAgree f fuel (arrow via target) {b} m dn =
      enter-MayAgree m _ b (eval_arrow-MayAgree f m dn)
  eval_expr-MayAgree f fuel (bin_op op l r) m (operator {a} {b} dl dr) =
      enter-MayAgree m _ (bool_op op a b) (
        combine-MayAgree op ctx.has_unknown_relations _ _ a b (eval_expr-MayAgree f fuel l m dl)
          (λ k. eval_expr-MayAgree f fuel r k dr))

  -- A definite answer of the walk is what the expression means, in every world that the
  -- callbacks are faithful to: neither the parameters still missing, nor an unknown relation,
  -- nor the order and the short cuts of the evaluation can change it.
  pub eval_expr_sound :
      (fuel : ℕ) (e : PermExpr) (seen : List Key) (m m' : Missing) (v b : Bool)
      → IsFaithful ctx d rid depth w
      → eval_expr ctx d rid depth fuel e seen m ≡ some (value (some v) m')
      → Means ctx d w seen e b
      → v ≡ b
  eval_expr_sound fuel e seen m m' v b f h dn = rw h at (eval_expr-MayAgree f fuel e m dn)
