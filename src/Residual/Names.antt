-- ===== src/Residual/Names.antt =====
-- `named`, `subjects` and their walks of expressions: `_Evaluator` of src/rebac/compile/evaluate.py.
-- A set is a list. A nested call takes one unit of fuel; `none` is only the end of the fuel.
use django_zed_rebac.Prelude.{
  ℕ, zero, suc, Text, Bool, true, false, Option, none, some, List, [], ◌∷◌, ◌++◌, if◌then◌else◌,
  ◌==◌, nat_eq, list_eq, pair_eq, contains, not, is_empty, ◌&&◌,
}
use django_zed_rebac.Types.{ObjectRef, SubjectRef, subject_type, subject_id, object_eq, subject_eq}
use django_zed_rebac.Schema.{
  Schema, Definition, Relation, PermExpr, ref, arrow, bin_op, nil, union, intersection, exclusion,
  find_relation, get_definition, get_permission, builtin_actor_types,
}
use django_zed_rebac.Residual.Rows.{Edge}

abbrev pub Site : Type 0
Site = ObjectRef × Text

-- `any(...)`, which stops at the first hit.
unfoldable pub any_edge : (Edge → Option Bool) → List Edge → Option Bool
any_edge f [] = some false
any_edge f (e ∷ es) = elim (f e) [
  | none ↦ none
  | some true ↦ some true
  | some false ↦ any_edge f es
]

unfoldable pub gather : (Edge → Option (List SubjectRef)) → List Edge → Option (List SubjectRef)
gather f [] = some []
gather f (e ∷ es) = elim (f e) [
  | none ↦ none
  | some xs ↦ elim (gather f es) [ none ↦ none | some ys ↦ some (xs ++ ys) ]
]

-- `left or right`, where the right operand is asked only after a false left one.
abbrev pub or_else : Option Bool → Option Bool → Option Bool
or_else none r = none
or_else (some true) r = some true
or_else (some false) r = r

abbrev pub both_sets :
    Option (List SubjectRef) → Option (List SubjectRef) → Option (List SubjectRef)
both_sets none r = none
both_sets (some xs) none = none
both_sets (some xs) (some ys) = some (xs ++ ys)

abbrev pub row_named : (ObjectRef → Text → Option Bool) → SubjectRef → Edge → Option Bool
row_named go candidate e =
    if e.subject == candidate
    then some true
    else if is_empty e.subject.optional_relation
    then some false
    else go e.subject.object e.subject.optional_relation

abbrev pub own_subject : Text → Edge → List SubjectRef
own_subject t e =
    if subject_type e.subject == t && not (is_empty (subject_id e.subject))
    then e.subject ∷ []
    else []

abbrev pub row_subjects :
    (ObjectRef → Text → Option (List SubjectRef)) → Text → Edge → Option (List SubjectRef)
row_subjects go t e = both_sets (some (own_subject t e)) (
    if is_empty e.subject.optional_relation
    then some []
    else go e.subject.object e.subject.optional_relation)

module _ (schema : Schema) (rows : ObjectRef → Relation → Definition → List Edge) where
  unfoldable pub named_expr :
      (ObjectRef → Text → Option Bool) → Definition → ObjectRef → PermExpr → Option Bool
  unfolding any_edge
  named_expr go d resource nil = some false
  named_expr go d resource (ref n) =
      if contains builtin_actor_types n then some false else go resource n
  named_expr go d resource (arrow via target) = elim (find_relation d via) [
    | none ↦ some false
    | some r ↦ any_edge (λ (e : Edge). go e.subject.object target) (rows resource r d)
  ]
  named_expr go d resource (bin_op exclusion l r) = named_expr go d resource l
  named_expr go d resource (bin_op union l r) =
      or_else (named_expr go d resource l) (named_expr go d resource r)
  named_expr go d resource (bin_op intersection l r) =
      or_else (named_expr go d resource l) (named_expr go d resource r)

  -- One call, by its recursive calls.
  unfoldable pub named_step :
      (ObjectRef → Text → Option Bool) → ObjectRef → Text → SubjectRef → Option Bool
  unfolding named_expr
  named_step go resource name candidate = elim (get_definition schema resource.resource_type) [
    | none ↦ some false
    | some d ↦ elim (get_permission schema resource.resource_type name) [
      | some p ↦ named_expr go d resource p.expression
      | none ↦ elim (find_relation d name) [
        | none ↦ some false
        | some r ↦ any_edge (row_named go candidate) (rows resource r d)
      ]
    ]
  ]

  unfoldable pub named : ℕ → ObjectRef → Text → SubjectRef → List Site → Option Bool
  unfolding named_step
  named zero resource name candidate seen = none
  named (suc f) resource name candidate seen =
      if contains seen (resource, name)
      then some false
      else named_step (λ o n. named f o n candidate ((resource, name) ∷ seen)) resource name
          candidate

  unfoldable pub subjects_expr :
      (ObjectRef → Text → Option (List SubjectRef))
      → Definition
      → ObjectRef
      → PermExpr
      → Option (List SubjectRef)
  unfolding gather
  subjects_expr go d resource nil = some []
  subjects_expr go d resource (ref n) =
      if contains builtin_actor_types n then some [] else go resource n
  subjects_expr go d resource (arrow via target) = elim (find_relation d via) [
    | none ↦ some []
    | some r ↦ gather (λ (e : Edge). go e.subject.object target) (rows resource r d)
  ]
  subjects_expr go d resource (bin_op exclusion l r) = subjects_expr go d resource l
  subjects_expr go d resource (bin_op union l r) =
      both_sets (subjects_expr go d resource l) (subjects_expr go d resource r)
  subjects_expr go d resource (bin_op intersection l r) =
      both_sets (subjects_expr go d resource l) (subjects_expr go d resource r)

  unfoldable pub subjects_step :
      (ObjectRef → Text → Option (List SubjectRef))
      → ObjectRef
      → Text
      → Text
      → Option (List SubjectRef)
  unfolding subjects_expr
  subjects_step go resource name t = elim (get_definition schema resource.resource_type) [
    | none ↦ some []
    | some d ↦ elim (get_permission schema resource.resource_type name) [
      | some p ↦ subjects_expr go d resource p.expression
      | none ↦ elim (find_relation d name) [
        | none ↦ some []
        | some r ↦ gather (row_subjects go t) (rows resource r d)
      ]
    ]
  ]

  unfoldable pub subjects : ℕ → ObjectRef → Text → Text → List Site → Option (List SubjectRef)
  unfolding subjects_step
  subjects zero resource name t seen = none
  subjects (suc f) resource name t seen =
      if contains seen (resource, name)
      then some []
      else subjects_step (λ o n. subjects f o n t ((resource, name) ∷ seen)) resource name t
