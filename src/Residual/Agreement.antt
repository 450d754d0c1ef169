-- ===== src/Residual/Agreement.antt =====
-- `named` and `subjects` of src/rebac/compile/evaluate.py answer the same question.
use django_zed_rebac.Prelude.{
  ℕ, zero, suc, Text, Bool, true, false, Option, none, some, List, [], ◌∷◌, ◌++◌, if◌then◌else◌,
  ◌==◌, ==_iff, nat_eq, list_eq, pair_eq, contains, not, is_empty, ◌&&◌, ◌||◌, ◌≡◌, refl, arith,
  Bool-cases, Option-cases, inl, inr, ◌∙◌, ap,
}
use django_zed_rebac.Types.{ObjectRef, SubjectRef, subject_type, subject_id, object_eq, subject_eq}
use django_zed_rebac.Schema.{
  Schema, Definition, Relation, PermExpr, ref, arrow, bin_op, nil, union, intersection, exclusion,
  find_relation, get_definition, get_permission, builtin_actor_types,
}
use django_zed_rebac.Residual.Rows.{Edge}
use django_zed_rebac.Residual.Names.{
  Site, any_edge, gather, or_else, both_sets, named_expr, row_named, named_step, named,
  subjects_expr, own_subject, row_subjects, subjects_step, subjects,
}

contains-append :
    (xs ys : List SubjectRef) (c : SubjectRef)
    → contains (xs ++ ys) c ≡ (contains xs c || contains ys c)
unfolding contains
contains-append [] ys c = refl
contains-append (x ∷ xs) ys c = ground (arith, contains-append xs ys c)

any_edge-cons :
    (f : Edge → Option Bool) (e : Edge) (es : List Edge)
    → any_edge f (e ∷ es) ≡ or_else (f e) (any_edge f es)
unfolding any_edge
any_edge-cons f e es = go (f e)
  where
    go :
        (r : Option Bool)
        → (elim r [ none ↦ none | some true ↦ some true | some false ↦ any_edge f es ])
          ≡ or_else r (any_edge f es)
    go none = refl
    go (some true) = refl
    go (some false) = refl

gather-cons :
    (g : Edge → Option (List SubjectRef)) (e : Edge) (es : List Edge)
    → gather g (e ∷ es) ≡ both_sets (g e) (gather g es)
unfolding gather
gather-cons g e es = go (g e) (gather g es)
  where
    go :
        (r s : Option (List SubjectRef))
        → (elim r [ none ↦ none | some xs ↦ elim s [ none ↦ none | some ys ↦ some (xs ++ ys) ] ])
          ≡ both_sets r s
    go none s = refl
    go (some xs) none = refl
    go (some xs) (some ys) = refl

row_named_or : (b : Bool) (r : Option Bool) → (if b then some true else r) ≡ or_else (some b) r
row_named_or true r = refl
row_named_or false r = refl

module _ (c : SubjectRef) where
  -- Where the set is computed, the test is its membership.
  abbrev Agrees : Option Bool → Option (List SubjectRef) → Type 0
  Agrees r s = (xs : List SubjectRef) → s ≡ some xs → r ≡ some (contains xs c)

  or_else-Agrees :
      (r q : Option Bool) (s t : Option (List SubjectRef))
      → Agrees r s
      → Agrees q t
      → Agrees (or_else r q) (both_sets s t)
  or_else-Agrees r q none t h k zs e = cc
  or_else-Agrees r q (some xs) none h k zs e = cc
  or_else-Agrees r q (some xs) (some ys) h k zs e =
      let whole : xs ++ ys ≡ zs = cc in
      rw (← whole, h xs refl, k ys refl, contains-append xs ys c)
        (by_left (contains xs c) (contains ys c))
    where
      by_left : (a b : Bool) → or_else (some a) (some b) ≡ some (a || b)
      by_left true b = refl
      by_left false b = refl

  any_edge-Agrees :
      (f : Edge → Option Bool) (g : Edge → Option (List SubjectRef)) (es : List Edge)
      → ((e : Edge) → Agrees (f e) (g e))
      → Agrees (any_edge f es) (gather g es)
  unfolding any_edge gather contains
  any_edge-Agrees f g [] h = λ xs e. ground arith
  any_edge-Agrees f g (x ∷ es) h =
      rw (any_edge-cons f x es, gather-cons g x es)
        (or_else-Agrees (f x) (any_edge f es) (g x) (gather g es) (h x) (any_edge-Agrees f g es h))

  own_subject-Agrees :
      (t : Text) (e : Edge)
      → subject_type c ≡ t
      → is_empty (subject_id c) ≡ false
      → contains (own_subject t e) c ≡ (e.subject == c)
  unfolding contains
  own_subject-Agrees t e p q = elim (Bool-cases (e.subject == c)) [
    | inl h ↦ hit e.subject ((==_iff e.subject c).0 h)
    | inr h ↦ rw h (other e.subject h)
  ]
    where
      hit :
          (s : SubjectRef)
          → s ≡ c
          → contains (if subject_type s == t && not (is_empty (subject_id s)) then s ∷ [] else []) c
            ≡ (s == c)
      hit s same =
          let typed : (subject_type s == t) ≡ true =
            (==_iff (subject_type s) t).1 (ap subject_type same ∙ p) in
          let named : is_empty (subject_id s) ≡ false =
            ap (λ x. is_empty (subject_id x)) same ∙ q in
          ground (arith, typed, named, ==_iff s c, ==_iff c s)

      other :
          (s : SubjectRef)
          → (s == c) ≡ false
          → contains (if subject_type s == t && not (is_empty (subject_id s)) then s ∷ [] else []) c
            ≡ false
      other s h = ground (arith, ==_iff s c, ==_iff c s)

  row-Agrees :
      (go : ObjectRef → Text → Option Bool) (gs : ObjectRef → Text → Option (List SubjectRef))
      (t : Text) (e : Edge)
      → subject_type c ≡ t
      → is_empty (subject_id c) ≡ false
      → ((o : ObjectRef) (n : Text) → Agrees (go o n) (gs o n))
      → Agrees (row_named go c e) (row_subjects gs t e)
  unfolding contains
  row-Agrees go gs t e p q h =
      rw
        (row_named_or (e.subject == c) (
          if is_empty e.subject.optional_relation
          then some false
          else go e.subject.object e.subject.optional_relation))
        (or_else-Agrees (some (e.subject == c))
          (if is_empty e.subject.optional_relation
            then some false
            else go e.subject.object e.subject.optional_relation)
          (some (own_subject t e))
          (if is_empty e.subject.optional_relation
            then some []
            else gs e.subject.object e.subject.optional_relation)
          (λ xs k.
            let same : own_subject t e ≡ xs = cc in rw (← same, own_subject-Agrees t e p q) refl)
          (elim (Bool-cases (is_empty e.subject.optional_relation)) [
            | inl b ↦ rw b (λ xs k. ground arith)
            | inr b ↦ rw b (h e.subject.object e.subject.optional_relation)
          ]))

  module _ (schema : Schema) (rows : ObjectRef → Relation → Definition → List Edge) where
    expr-Agrees :
        (go : ObjectRef → Text → Option Bool) (gs : ObjectRef → Text → Option (List SubjectRef))
        (d : Definition) (resource : ObjectRef) (e : PermExpr)
        → ((o : ObjectRef) (n : Text) → Agrees (go o n) (gs o n))
        → Agrees
            (named_expr schema rows go d resource e)
            (subjects_expr schema rows gs d resource e)
    unfolding named_expr subjects_expr contains
    expr-Agrees go gs d resource nil h = λ xs k. ground arith
    expr-Agrees go gs d resource (ref n) h = elim (Bool-cases (contains builtin_actor_types n)) [
      | inl b ↦ rw (named_expr, subjects_expr, b) (λ xs k. ground arith)
      | inr b ↦ rw (named_expr, subjects_expr, b) (h resource n)
    ]
    expr-Agrees go gs d resource (arrow via target) h = elim (Option-cases (find_relation d via)) [
      | inl b ↦ rw (named_expr, subjects_expr, b) (λ xs k. ground arith)
      | inr (r, b) ↦
          rw (named_expr, subjects_expr, b)
            (any_edge-Agrees (λ (e : Edge). go e.subject.object target)
              (λ (e : Edge). gs e.subject.object target) (rows resource r d)
              (λ e. h e.subject.object target))
    ]
    expr-Agrees go gs d resource (bin_op exclusion l r) h = expr-Agrees go gs d resource l h
    expr-Agrees go gs d resource (bin_op union l r) h =
        or_else-Agrees _ _ _ _ (expr-Agrees go gs d resource l h) (expr-Agrees go gs d resource r h)
    expr-Agrees go gs d resource (bin_op intersection l r) h =
        or_else-Agrees _ _ _ _ (expr-Agrees go gs d resource l h) (expr-Agrees go gs d resource r h)

    step-Agrees :
        (go : ObjectRef → Text → Option Bool) (gs : ObjectRef → Text → Option (List SubjectRef))
        (resource : ObjectRef) (name t : Text)
        → subject_type c ≡ t
        → is_empty (subject_id c) ≡ false
        → ((o : ObjectRef) (n : Text) → Agrees (go o n) (gs o n))
        → Agrees
            (named_step schema rows go resource name c)
            (subjects_step schema rows gs resource name t)
    unfolding named_step subjects_step contains
    step-Agrees go gs resource name t p q h =
        elim (Option-cases (get_definition schema resource.resource_type)) [
          | inl a ↦ rw (named_step, subjects_step, a) (λ xs k. ground arith)
          | inr (d, a) ↦ elim (Option-cases (get_permission schema resource.resource_type name)) [
            | inr (pm, b) ↦
                rw (named_step, subjects_step, a, b) (expr-Agrees go gs d resource pm.expression h)
            | inl b ↦ elim (Option-cases (find_relation d name)) [
              | inl z ↦ rw (named_step, subjects_step, a, b, z) (λ xs k. ground arith)
              | inr (r, z) ↦
                  rw (named_step, subjects_step, a, b, z)
                    (any_edge-Agrees (row_named go c) (row_subjects gs t) (rows resource r d)
                      (λ e. row-Agrees go gs t e p q h))
            ]
          ]
        ]

    -- Where the walk that collects the subjects of a type returns, the walk that tests for one
    -- concrete subject of this type returns too, and tells whether it was collected.
    pub named-subjects :
        (f : ℕ) (resource : ObjectRef) (name t : Text) (seen : List Site) (found : List SubjectRef)
        → subject_type c ≡ t
        → is_empty (subject_id c) ≡ false
        → subjects schema rows f resource name t seen ≡ some found
        → named schema rows f resource name c seen ≡ some (contains found c)
    unfolding named subjects contains
    named-subjects zero resource name t seen found p q h = cc
    named-subjects (suc f) resource name t seen found p q h =
        elim (Bool-cases (contains seen (resource, name))) [
          | inl b ↦
              let whole : some [] ≡ some found = rw (subjects, b) at h in
              let empty : [] ≡ found = cc in rw (named, b, ← empty) refl
          | inr b ↦
              rw (named, b)
                (step-Agrees (λ o n. named schema rows f o n c ((resource, name) ∷ seen))
                  (λ o n. subjects schema rows f o n t ((resource, name) ∷ seen)) resource name t p
                  q (λ o n xs k. named-subjects f o n t ((resource, name) ∷ seen) xs p q k) found
                  (rw (subjects, b) at h))
        ]
