-- ===== src/Residual/Ending.antt =====
-- The walks of source paths in src/rebac/compile/evaluate.py end, also over circular data.
use django_zed_rebac.Prelude.{
  ℕ, zero, suc, ◌<◌, Text, false, Option, none, some, List, [], ◌∷◌, if◌then◌else◌, nat_eq, list_eq,
  pair_eq, contains, is_empty, ◌≡◌, ◌≢◌, refl, arith, Bool-cases, Option-cases, inl, inr, All, Mem,
  unseen, unseen-le-length, unseen-cons_lt, length,
}
use django_zed_rebac.Types.{ObjectRef, SubjectRef, subject_type, subject_id, object_eq, subject_eq}
use django_zed_rebac.Schema.{
  Schema, Definition, Relation, Permission, PermExpr, ref, arrow, bin_op, nil, union, intersection,
  exclusion, find_relation, get_definition, get_permission, builtin_actor_types,
}
use django_zed_rebac.Residual.Rows.{Edge}
use django_zed_rebac.Residual.Names.{
  Site, gather, both_sets, named, subjects_expr, own_subject, row_subjects, subjects_step, subjects,
}
use django_zed_rebac.Residual.Agreement.{named-subjects}

both_sets-ne-none : (s t : Option (List SubjectRef)) → s ≢ none → t ≢ none → both_sets s t ≢ none
both_sets-ne-none none t h k = absurd (h refl)
both_sets-ne-none (some xs) none h k = absurd (k refl)
both_sets-ne-none (some xs) (some ys) h k = cc

gather-ne-none :
    (g : Edge → Option (List SubjectRef)) (es : List Edge)
    → All (λ e. g e ≢ none) es
    → gather g es ≢ none
unfolding gather
gather-ne-none g [] h = cc
gather-ne-none g (e ∷ es) h = ground (arith, h.0, gather-ne-none g es h.1)

All-map {ℓ κ} :
    {A : Type ℓ} (P Q : A → Type κ) (xs : List A) → ((a : A) → P a → Q a) → All P xs → All Q xs
All-map P Q [] f h = tt
All-map P Q (x ∷ xs) f h = (f x h.0, All-map P Q xs f h.1)

module _ (schema : Schema) (rows : ObjectRef → Relation → Definition → List Edge)
    (sites : List Site) where
  -- The calls of an expression are among the sites.
  abbrev pub ExprWithin : Definition → ObjectRef → PermExpr → Type 0
  ExprWithin d o nil = Unit
  ExprWithin d o (ref n) = contains builtin_actor_types n ≡ false → Mem (o, n) sites
  ExprWithin d o (arrow via target) =
      (r : Relation)
      → find_relation d via ≡ some r
      → All (λ (e : Edge). Mem (e.subject.object, target) sites) (rows o r d)
  ExprWithin d o (bin_op op l r) = ExprWithin d o l × ExprWithin d o r

  -- Every call that starts at a site leads to sites.
  pub record IsClosed : Type 0 where
    pub expressions :
        (o : ObjectRef) (n : Text) (d : Definition) (p : Permission)
        → Mem (o, n) sites
        → get_definition schema o.resource_type ≡ some d
        → get_permission schema o.resource_type n ≡ some p
        → ExprWithin d o p.expression
    pub sets :
        (o : ObjectRef) (n : Text) (d : Definition) (r : Relation)
        → Mem (o, n) sites
        → get_definition schema o.resource_type ≡ some d
        → find_relation d n ≡ some r
        → All
            (λ (e : Edge).
              is_empty e.subject.optional_relation ≡ false
              → Mem (e.subject.object, e.subject.optional_relation) sites)
            (rows o r d)

  abbrev Answers : (ObjectRef → Text → Option (List SubjectRef)) → Type 0
  Answers go = (o : ObjectRef) (n : Text) → Mem (o, n) sites → go o n ≢ none

  expr-ne-none :
      (go : ObjectRef → Text → Option (List SubjectRef)) (d : Definition) (o : ObjectRef)
      (e : PermExpr)
      → Answers go
      → ExprWithin d o e
      → subjects_expr schema rows go d o e ≢ none
  unfolding subjects_expr
  expr-ne-none go d o nil a h = cc
  expr-ne-none go d o (ref n) a h = elim (Bool-cases (contains builtin_actor_types n)) [
    | inl b ↦ rw (subjects_expr, b) (λ e. cc)
    | inr b ↦ rw (subjects_expr, b) (a o n (h b))
  ]
  expr-ne-none go d o (arrow via target) a h = elim (Option-cases (find_relation d via)) [
    | inl b ↦ rw (subjects_expr, b) (λ e. cc)
    | inr (r, b) ↦
        rw (subjects_expr, b)
          (gather-ne-none (λ (e : Edge). go e.subject.object target) (rows o r d)
            (All-map (λ (e : Edge). Mem (e.subject.object, target) sites)
              (λ (e : Edge). go e.subject.object target ≢ none) (rows o r d)
              (λ e m. a e.subject.object target m) (h r b)))
  ]
  expr-ne-none go d o (bin_op exclusion l r) a h = expr-ne-none go d o l a h.0
  expr-ne-none go d o (bin_op union l r) a h =
      both_sets-ne-none _ _ (expr-ne-none go d o l a h.0) (expr-ne-none go d o r a h.1)
  expr-ne-none go d o (bin_op intersection l r) a h =
      both_sets-ne-none _ _ (expr-ne-none go d o l a h.0) (expr-ne-none go d o r a h.1)

  row-ne-none :
      (go : ObjectRef → Text → Option (List SubjectRef)) (t : Text) (e : Edge)
      → Answers go
      → (is_empty e.subject.optional_relation ≡ false
          → Mem (e.subject.object, e.subject.optional_relation) sites)
      → row_subjects go t e ≢ none
  row-ne-none go t e a h =
      both_sets-ne-none (some (own_subject t e))
        (if is_empty e.subject.optional_relation
          then some []
          else go e.subject.object e.subject.optional_relation)
        (λ k. cc)
        (elim (Bool-cases (is_empty e.subject.optional_relation)) [
          | inl b ↦ rw b (λ k. cc)
          | inr b ↦ rw b (a e.subject.object e.subject.optional_relation (h b))
        ])

  step-ne-none :
      (go : ObjectRef → Text → Option (List SubjectRef)) (o : ObjectRef) (n t : Text)
      → IsClosed
      → Mem (o, n) sites
      → Answers go
      → subjects_step schema rows go o n t ≢ none
  unfolding subjects_step
  step-ne-none go o n t c m a = elim (Option-cases (get_definition schema o.resource_type)) [
    | inl x ↦ rw (subjects_step, x) (λ k. cc)
    | inr (d, x) ↦ elim (Option-cases (get_permission schema o.resource_type n)) [
      | inr (p, y) ↦
          rw (subjects_step, x, y)
            (expr-ne-none go d o p.expression a (c.expressions o n d p m x y))
      | inl y ↦ elim (Option-cases (find_relation d n)) [
        | inl z ↦ rw (subjects_step, x, y, z) (λ k. cc)
        | inr (r, z) ↦
            rw (subjects_step, x, y, z)
              (gather-ne-none (row_subjects go t) (rows o r d) (
                All-map _ (λ (e : Edge). row_subjects go t e ≢ none) (rows o r d)
                  (λ e h. row-ne-none go t e a h) (c.sets o n d r m x z)))
      ]
    ]
  ]

  subjects-ne-none :
      (f : ℕ) (o : ObjectRef) (n t : Text) (seen : List Site)
      → IsClosed
      → Mem (o, n) sites
      → unseen seen sites < f
      → subjects schema rows f o n t seen ≢ none
  unfolding subjects
  subjects-ne-none zero o n t seen c m h = absurd (omega arith)
  subjects-ne-none (suc f) o n t seen c m h = elim (Bool-cases (contains seen (o, n))) [
    | inl b ↦ rw (subjects, b) (λ k. cc)
    | inr b ↦
        rw (subjects, b)
          (step-ne-none (λ p x. subjects schema rows f p x t ((o, n) ∷ seen)) o n t c m
            (λ p x k.
              subjects-ne-none f p x t ((o, n) ∷ seen) c k
                (omega (arith, unseen-cons_lt seen (o, n) sites m b))))
  ]

  -- When finitely many sites hold every resource and name that the calls from a site lead to, both
  -- walks from this site return with one unit of fuel more than there are sites, whatever
  -- circles the data has, and the test for a concrete subject is membership in the collection
  -- of its type.
  pub named-returns :
      (o : ObjectRef) (n : Text) (c : SubjectRef)
      → IsClosed
      → Mem (o, n) sites
      → is_empty (subject_id c) ≡ false
      → (found : List SubjectRef) × (subjects schema rows
            (suc (length sites))
            o
            n
            (subject_type c)
            []
          ≡ some found)
        × (named schema rows (suc (length sites)) o n c [] ≡ some (contains found c))
  named-returns o n c closed m q =
      elim (Option-cases (subjects schema rows (suc (length sites)) o n (subject_type c) [])) [
        | inl e ↦ absurd (
            subjects-ne-none (suc (length sites)) o n (subject_type c) [] closed m
              (omega (arith, unseen-le-length [] sites)) e)
        | inr (found, e) ↦ (
          found,
          e,
          named-subjects c schema rows (suc (length sites)) o n (subject_type c) [] found refl q e,
        )
      ]
