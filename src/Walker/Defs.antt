-- ===== src/Walker/Defs.antt =====
-- `eval_expr` of src/rebac/schema/walker.py. `ctx.missing` is the list that is passed along.
-- A sub-permission is evaluated with one unit of fuel less; `none` is only the end of the fuel.
use django_zed_rebac.Prelude.{
  ℕ, zero, suc, Text, Bool, true, false, Option, none, some, List, [], ◌∷◌, if◌then◌else◌, ◌==◌,
  nat_eq, list_eq, pair_eq, contains, ltb, not, ◌&&◌, any_of, length,
}
use django_zed_rebac.Types.{SubjectRef, subject_type, subject_id}
use django_zed_rebac.Schema.{
  Definition, Relation, AllowedSubject, PermExpr, ref, arrow, bin_op, nil, Op, union, intersection,
  exclusion, find_relation, find_permission, builtin_actor_types,
}
use django_zed_rebac.Actors.{Settings, builtin_actor_matches, star}
use django_zed_rebac.Walker.Tri.{Tri, tri_op}

abbrev pub Missing : Type 0
Missing = List Text

-- A value, `_UnknownRelation` or `PermissionDepthExceeded`, with the parameters collected so far.
pub data Answer : Type 0 where
  value : Tri → Missing → Answer
  unknown_relation : Missing → Answer
  depth_exceeded : Missing → Answer

-- WalkContext, with the settings that the built-in actor terms read.
pub record Context : Type 0 where
  pub settings : Settings
  pub subject : SubjectRef
  pub depth_limit : ℕ
  pub resolve_relation : Definition → Text → Text → ℕ → Missing → Answer
  pub resolve_arrow : Definition → Text → Text → Text → ℕ → Missing → Answer
  pub has_unknown_relations : Bool

abbrev pub Key : Type 0
Key = Text × Text

-- The right operand after a left value. A left True settles a union, a left False an
-- intersection or exclusion of a walk that has no unknown relation.
unfoldable pub settles : Op → Bool → Tri → Bool
settles union unknowns (some true) = true
settles intersection unknowns (some false) = not unknowns
settles exclusion unknowns (some false) = not unknowns
settles _ unknowns v = false

unfoldable pub with_right : Op → Tri → Option Answer → Option Answer
with_right op l (some (value r m)) = some (value (tri_op op l r) m)
with_right op l other = other

-- After an unknown left operand only a union goes on, and only an independent True settles it.
unfoldable pub after_unknown : Option Answer → Option Answer
after_unknown (some (value (some true) m)) = some (value (some true) m)
after_unknown (some (value v m)) = some (unknown_relation m)
after_unknown other = other

unfoldable pub combine : Op → Bool → Option Answer → (Missing → Option Answer) → Option Answer
unfolding settles with_right after_unknown
combine op unknowns none right = none
combine op unknowns (some (depth_exceeded m)) right = some (depth_exceeded m)
combine union unknowns (some (unknown_relation m)) right = after_unknown (right m)
combine intersection unknowns (some (unknown_relation m)) right = some (unknown_relation m)
combine exclusion unknowns (some (unknown_relation m)) right = some (unknown_relation m)
combine op unknowns (some (value v m)) right =
    if settles op unknowns v then some (value v m) else with_right op v (right m)

module _ (ctx : Context) (definition : Definition) (resource_id : Text) (depth : ℕ) where
  -- The check on entry.
  unfoldable pub enter : Missing → Option Answer → Option Answer
  enter m body = if ltb ctx.depth_limit depth then some (depth_exceeded m) else body

  unfoldable pub eval_permission_ref :
      Text → List Key → Missing → (PermExpr → List Key → Missing → Option Answer) → Option Answer
  eval_permission_ref n seen m go =
      let key : Key = (definition.resource_type, n) in
      if contains seen key
      then some (value (some false) m)
      else elim (find_permission definition n) [
        | none ↦ some (value (some false) m)
        | some p ↦ go p.expression (key ∷ seen) m
      ]

  unfoldable pub eval_ref :
      Text → List Key → Missing → (PermExpr → List Key → Missing → Option Answer) → Option Answer
  unfolding eval_permission_ref
  eval_ref n seen m go =
      if contains builtin_actor_types n
      then some (value (some (builtin_actor_matches ctx.settings n ctx.subject)) m)
      else elim (find_relation definition n) [
        | some _ ↦ some (ctx.resolve_relation definition resource_id n depth m)
        | none ↦ eval_permission_ref n seen m go
      ]

  unfoldable pub eval_arrow : Text → Text → Missing → Option Answer
  eval_arrow via target m = elim (find_relation definition via) [
    | none ↦ some (value (some false) m)
    | some _ ↦ some (ctx.resolve_arrow definition resource_id via target depth m)
  ]

  unfoldable pub eval_expr : ℕ → PermExpr → List Key → Missing → Option Answer
  unfolding enter eval_ref eval_arrow combine
  eval_expr fuel nil seen m = enter m (some (value (some false) m))
  eval_expr zero (ref n) seen m = enter m (eval_ref n seen m (λ e s k. none))
  eval_expr (suc fuel) (ref n) seen m = enter m (eval_ref n seen m (eval_expr fuel))
  eval_expr fuel (arrow via target) seen m = enter m (eval_arrow via target m)
  eval_expr fuel (bin_op op l r) seen m = enter m (
      combine op ctx.has_unknown_relations (eval_expr fuel l seen m) (λ k. eval_expr fuel r seen k))

  -- The call of a client: no permission is being evaluated yet, and each nested one is another
  -- permission of the definition.
  unfoldable pub eval_from : PermExpr → Missing → Option Answer
  unfolding eval_expr
  eval_from e m = eval_expr (length definition.permissions) e [] m

-- A subject against one declared alternative.
unfoldable pub subject_matches_allowed : AllowedSubject → SubjectRef → Bool
subject_matches_allowed allowed s =
    if not (subject_type s == allowed.type)
    then false
    else if allowed.wildcard
    then subject_id s == star && s.optional_relation == []
    else if subject_id s == star
    then false
    else if not (allowed.id == []) && not (subject_id s == allowed.id)
    then false
    else if not (allowed.relation == [])
    then s.optional_relation == allowed.relation
    else s.optional_relation == []

unfoldable pub subject_allowed_by_relation : Relation → SubjectRef → Option Text → Bool
unfolding subject_matches_allowed
subject_allowed_by_relation r s caveat_name =
    any_of
      (λ a.
        subject_matches_allowed a s
        && elim caveat_name [ none ↦ true | some c ↦ a.with_caveat == c ])
      r.allowed_subjects

-- A stored row: its subject, its caveat name and whether it expires.
pub record Row : Type 0 where
  pub subject : SubjectRef
  pub caveat_name : Text
  pub expires : Bool

unfoldable pub relationship_row_allowed_by_relation : Relation → Row → Bool
unfolding subject_allowed_by_relation
relationship_row_allowed_by_relation r row =
    if row.expires && not r.with_expiration
    then false
    else subject_allowed_by_relation r row.subject (some row.caveat_name)
