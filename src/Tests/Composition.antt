-- ===== src/Tests/Composition.antt =====
-- Runs and instances for src/rebac/composition.py and src/rebac/codenames.py.
use django_zed_rebac.Prelude.{
  ℕ, Text, ◌≡◌, refl, codes, [], ◌∷◌, ◌++◌, false, true, list_beq, contains, some, none, List, not,
  ◌&&◌, ◌||◌, list_eq, nat_eq,
}
use django_zed_rebac.Schema.{
  PermExpr, ref, bin_op, union, intersection, exclusion, Permission, Caveat, Schema,
}
use django_zed_rebac.Parser.{
  Unicode, tokenize, parse_permission_expression, span_name, word_kind, name_char, name_start,
  skip_line,
}
use django_zed_rebac.Composition.{
  Override, Change, extend, disable, tighten, recaveat, Composed, compose_permission,
  compose_caveat, compose_schema, compose_definitions, compose_permissions, compose_one, parse_expr,
  add_extends, add_sites, sorted, rows_of, is_extend, is_disable, is_tighten, is_recaveat,
}
use django_zed_rebac.Composition.Permissions.{
  Facts, granted, row_granted, some_row, compose_permission-granted,
}
use django_zed_rebac.Composition.Caveats.{Redefined, compose_caveat-Redefined}
use django_zed_rebac.Composition.Shape.{outlines, caveat_outlines, compose_schema-outlines}
use django_zed_rebac.Codenames.{
  codename_to_action, codename_to_action-label, get, default_codename_map,
}

abbrev plain : Unicode
plain = record { alpha = λ c. false; space = λ c. false; digit = λ c. false }

abbrev row : Change → ℕ → Text → Override
row k n t = record { kind = k; created_at = n; pk = n; expression = t; expires_at = none }

abbrev rows : List Override
rows = row disable 3 (codes "c") ∷ (row extend 2 (codes "b") ∷ (row tighten 1 (codes "d") ∷ []))

abbrev read : Permission
read = record { name = codes "read"; expression = ref (codes "a"); raw_text = codes "a" }

abbrev composed_expr : PermExpr
composed_expr =
    bin_op intersection
      (bin_op exclusion (bin_op union (ref (codes "a")) (ref (codes "b"))) (ref (codes "c")))
      (ref (codes "d"))

abbrev composed : Composed
composed = record {
  permission = record { name = codes "read"; expression = composed_expr; raw_text = codes "a" };
  arms = (ref (codes "b"), record { deadline = none; override = (extend, 2) }) ∷ [];
  sites =
      (
        bin_op exclusion (bin_op union (ref (codes "a")) (ref (codes "b"))) (ref (codes "c")),
        record { deadline = none; override = (disable, 3) },
      )
      ∷ ((composed_expr, record { deadline = none; override = (tighten, 1) }) ∷ []);
}

read-composed : compose_permission plain read rows [] [] ≡ some composed
unfolding compose_permission sorted rows_of add_extends add_sites parse_expr tokenize
    parse_permission_expression contains list_beq span_name word_kind name_char name_start skip_line
read-composed = refl

abbrev facts : Facts
facts = record { holds = λ n. true; reaches = λ v t. false }

compose_permission-granted_example : granted facts composed.permission.expression ≡ (
    ((granted facts read.expression || some_row is_extend (row_granted plain facts) rows)
      && not (some_row is_disable (row_granted plain facts) rows))
    && not (some_row is_tighten (λ r. not (row_granted plain facts r)) rows))
compose_permission-granted_example =
    compose_permission-granted plain facts read rows [] [] composed read-composed

abbrev office : Caveat
office = record { name = codes "office"; params = []; expression = codes "hour > 8" }

abbrev late : List Override
late = row recaveat 5 (codes "hour > 10") ∷ (row recaveat 4 (codes "hour > 9") ∷ [])

compose_caveat-Redefined_example :
    ((compose_caveat office late).name ≡ office.name)
    × ((compose_caveat office late).params ≡ office.params)
    × Redefined office (rows_of is_recaveat late) (compose_caveat office late).expression
compose_caveat-Redefined_example = compose_caveat-Redefined office late

last_wins : (compose_caveat office late).expression ≡ codes "hour > 10"
unfolding compose_caveat sorted rows_of
last_wins = refl

abbrev small : Schema
small = record {
  definitions =
      (record { resource_type = codes "doc"; relations = []; permissions = read ∷ [] }) ∷ [];
  caveats = office ∷ [];
  directives = [];
  headers = [];
}

abbrev overridden : Schema
overridden = record {
  definitions =
      (record {
        resource_type = codes "doc";
        relations = [];
        permissions = composed.permission ∷ [];
      })
      ∷ [];
  caveats = (record { name = codes "office"; params = []; expression = codes "hour > 10" }) ∷ [];
  directives = [];
  headers = [];
}

small_composed :
    compose_schema plain (λ t n. rows) (λ n. late) small
    ≡ some (overridden, composed.arms, composed.sites)
unfolding compose_schema compose_definitions compose_permissions compose_one compose_permission
    compose_caveat sorted rows_of add_extends add_sites parse_expr tokenize
    parse_permission_expression contains list_beq span_name word_kind name_char name_start skip_line
small_composed = refl

compose_schema-outlines_example :
    (outlines overridden.definitions ≡ outlines small.definitions)
    × (caveat_outlines overridden.caveats ≡ caveat_outlines small.caveats)
    × (overridden.directives ≡ small.directives)
    × (overridden.headers ≡ small.headers)
compose_schema-outlines_example =
    compose_schema-outlines plain (λ t n. rows) (λ n. late) small overridden composed.arms
      composed.sites small_composed

codename_to_action-label_example :
    codename_to_action (codes "blog" ++ (b'.' ∷ (codes "view" ++ (b'_' ∷ codes "post")))) []
    ≡ (elim (get [] (codes "blog" ++ (b'.' ∷ (codes "view" ++ (b'_' ∷ codes "post"))))) [
      | some action ↦ some action
      | none ↦ get default_codename_map (codes "view")
    ])
unfolding contains
codename_to_action-label_example =
    codename_to_action-label (codes "blog") (codes "view") (codes "post") [] refl refl
