-- ===== src/Program/Defs.antt =====
-- `_expr_dependencies`, `_arrow_vias` and the tables of `CompileProgram.build` of
-- src/rebac/compile/program.py. A dictionary is a list of entries.
use django_zed_rebac.Prelude.{
  Text, Bool, true, false, Option, none, some, List, [], ◌∷◌, ◌++◌, map, if◌then◌else◌, nat_eq,
  bool_eq, list_eq, pair_eq, contains, not, is_empty,
}
use django_zed_rebac.Schema.{
  Definition, Relation, AllowedSubject, PermExpr, ref, arrow, bin_op, nil, Op, exclusion, Schema,
  Permission, find_relation, get_definition, builtin_actor_types,
}

abbrev pub Node : Type 0
Node = Text × Text

-- A target, whether it stands under a negation, and whether it is reached over a relation.
abbrev pub Dependency : Type 0
Dependency = Node × (Bool × Bool)

-- `list(dict.fromkeys(...))`: the first of equal elements stays.
unfoldable pub distinct : List Dependency → List Dependency → List Dependency
distinct seen [] = []
distinct seen (d ∷ ds) =
    let rest = distinct (d ∷ seen) ds in if contains seen d then distinct seen ds else d ∷ rest

abbrev pub arrow_dependencies : Bool → Text → List AllowedSubject → List Dependency
arrow_dependencies negative target [] = []
arrow_dependencies negative target (a ∷ rest) =
    ((a.type, target), (negative, true)) ∷ arrow_dependencies negative target rest

abbrev pub is_exclusion : Op → Bool
is_exclusion exclusion = true
is_exclusion _ = false

-- `a ^ b`.
abbrev pub xor : Bool → Bool → Bool
xor true b = not b
xor false b = b

-- The relation `via` of a type, if both are there.
unfoldable pub via_relation : Schema → Text → Text → Option Relation
via_relation s t via = elim (get_definition s t) [ none ↦ none | some d ↦ find_relation d via ]

unfoldable pub expr_dependencies : Schema → Text → PermExpr → Bool → List Dependency
unfolding via_relation distinct
expr_dependencies s t (ref n) negative =
    if contains builtin_actor_types n then [] else ((t, n), (negative, false)) ∷ []
expr_dependencies s t (arrow via target) negative = elim (via_relation s t via) [
  | none ↦ []
  | some r ↦ distinct [] (arrow_dependencies negative target r.allowed_subjects)
]
expr_dependencies s t (bin_op op l r) negative =
    expr_dependencies s t l negative ++ expr_dependencies s t r (xor negative (is_exclusion op))
expr_dependencies s t nil negative = []

unfoldable pub arrow_vias : Text → PermExpr → List Node
arrow_vias t (arrow via target) = (t, via) ∷ []
arrow_vias t (bin_op op l r) = arrow_vias t l ++ arrow_vias t r
arrow_vias t (ref n) = []
arrow_vias t nil = []

-- The subject sets of a relation.
abbrev pub set_dependencies : List AllowedSubject → List Dependency
set_dependencies [] = []
set_dependencies (a ∷ rest) =
    if is_empty a.relation
    then set_dependencies rest
    else ((a.type, a.relation), (false, true)) ∷ set_dependencies rest

unfoldable pub relation_dependencies : Relation → List Dependency
unfolding distinct
relation_dependencies r = distinct [] (set_dependencies r.allowed_subjects)

-- The two tables, by definition.
unfoldable pub definition_dependencies : Schema → Definition → List (Node × List Dependency)
unfolding relation_dependencies expr_dependencies
definition_dependencies s d =
    map (λ (r : Relation). ((d.resource_type, r.name), relation_dependencies r)) d.relations
    ++ map
        (λ (p : Permission).
          ((d.resource_type, p.name), expr_dependencies s d.resource_type p.expression false))
        d.permissions

unfoldable pub definition_vias : Definition → List (Node × List Node)
unfolding arrow_vias
definition_vias d =
    map (λ (p : Permission). ((d.resource_type, p.name), arrow_vias d.resource_type p.expression))
      d.permissions
