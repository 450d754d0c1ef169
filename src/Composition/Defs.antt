-- ===== src/Composition/Defs.antt =====
-- `_compose_permission` and `_compose_caveat` of src/rebac/composition.py. A row has the columns
-- that these read; a timestamp and a key are numbers. The two dictionaries of tags, keyed by the
-- identity of a syntax node, are lists of the node and its tag in the order of insertion.
use django_zed_rebac.Prelude.{
  ℕ, Text, Bool, true, false, Option, none, some, List, [], ◌∷◌, ◌++◌, if◌then◌else◌, ◌==◌, nat_eq,
  ◌&&◌, ◌||◌, ltb,
}
use django_zed_rebac.Schema.{
  PermExpr, ref, arrow, bin_op, nil, Op, union, intersection, exclusion, Permission, Caveat,
}
use django_zed_rebac.Parser.{ok, Unicode}
use django_zed_rebac.Rendering.RoundTrip.{read_expression}

pub data Change : Type 0 where
  extend loosen disable tighten recaveat : Change

pub record Override : Type 0 where
  pub kind : Change
  pub created_at : ℕ
  pub pk : ℕ
  pub expression : Text
  pub expires_at : Option ℕ

pub record ArmTag : Type 0 where
  pub deadline : Option ℕ
  pub override : Change × ℕ

abbrev pub Tags : Type 0
Tags = List (PermExpr × ArmTag)

abbrev pub is_extend : Change → Bool
is_extend extend = true
is_extend loosen = true
is_extend _ = false

abbrev pub is_disable : Change → Bool
is_disable disable = true
is_disable _ = false

abbrev pub is_tighten : Change → Bool
is_tighten tighten = true
is_tighten _ = false

abbrev pub is_recaveat : Change → Bool
is_recaveat recaveat = true
is_recaveat _ = false

-- `(created_at, pk)`, as tuples are compared.
unfoldable pub before : Override → Override → Bool
before a b = ltb a.created_at b.created_at || (a.created_at == b.created_at && ltb a.pk b.pk)

-- `sorted`, which is stable: a row goes behind the rows that are not after it.
unfoldable pub insert : Override → List Override → List Override
unfolding before
insert r [] = r ∷ []
insert r (x ∷ xs) = if before x r then x ∷ insert r xs else r ∷ x ∷ xs

unfoldable pub sorted : List Override → List Override
unfolding insert
sorted [] = []
sorted (r ∷ rs) = insert r (sorted rs)

unfoldable pub rows_of : (Change → Bool) → List Override → List Override
rows_of p [] = []
rows_of p (r ∷ rs) = if p r.kind then r ∷ rows_of p rs else rows_of p rs

abbrev pub tag : Override → ArmTag
tag r = record { deadline = r.expires_at; override = (r.kind, r.pk) }

-- `_parse_expr`; `none` is the raised SchemaError.
unfoldable pub parse_expr : Unicode → Text → Option PermExpr
parse_expr u t = elim (read_expression u t) [ ok e ↦ some e | other ↦ none ]

-- The union with each arm; the arm is tagged.
unfoldable pub add_extends : Unicode → List Override → PermExpr → Tags → Option (PermExpr × Tags)
unfolding parse_expr
add_extends u [] e arms = some (e, arms)
add_extends u (r ∷ rs) e arms = elim (parse_expr u r.expression) [
  | none ↦ none
  | some arm ↦ add_extends u rs (bin_op union e arm) (arms ++ ((arm, tag r) ∷ []))
]

-- One operator per row; the new node is tagged.
unfoldable pub add_sites : Unicode → Op → List Override → PermExpr → Tags → Option (PermExpr × Tags)
unfolding parse_expr
add_sites u op [] e sites = some (e, sites)
add_sites u op (r ∷ rs) e sites = elim (parse_expr u r.expression) [
  | none ↦ none
  | some arm ↦ add_sites u op rs (bin_op op e arm) (sites ++ ((bin_op op e arm, tag r) ∷ []))
]

pub record Composed : Type 0 where
  pub permission : Permission
  pub arms : Tags
  pub sites : Tags

unfoldable pub compose_permission :
    Unicode → Permission → List Override → Tags → Tags → Option Composed
unfolding sorted rows_of add_extends add_sites
compose_permission u p overrides arms sites =
    elim (add_extends u (sorted (rows_of is_extend overrides)) p.expression arms) [
      | none ↦ none
      | some (e, arms') ↦
          elim (add_sites u exclusion (sorted (rows_of is_disable overrides)) e sites) [
            | none ↦ none
            | some (d, mid) ↦
                elim (add_sites u intersection (sorted (rows_of is_tighten overrides)) d mid) [
                  | none ↦ none
                  | some (t, sites') ↦ some (record {
                    permission = record { name = p.name; expression = t; raw_text = p.raw_text };
                    arms = arms';
                    sites = sites';
                  })
                ]
          ]
    ]

unfoldable pub last_of : List Override → Option Override
last_of [] = none
last_of (r ∷ rs) = elim (last_of rs) [ none ↦ some r | some w ↦ some w ]

unfoldable pub compose_caveat : Caveat → List Override → Caveat
unfolding sorted rows_of last_of
compose_caveat c overrides = elim (last_of (sorted (rows_of is_recaveat overrides))) [
  | none ↦ c
  | some winner ↦ record { name = c.name; params = c.params; expression = winner.expression }
]

-- `_refs_in_expr`, the set as a list.
unfoldable pub refs_in_expr : PermExpr → List Text
refs_in_expr nil = []
refs_in_expr (ref n) = n ∷ []
refs_in_expr (arrow via target) = []
refs_in_expr (bin_op op l r) = refs_in_expr l ++ refs_in_expr r
