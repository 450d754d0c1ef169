-- ===== src/Composition/Schemas.antt =====
-- The composition of a whole schema before it is validated: the first half of `compose_tagged` of
-- src/rebac/composition.py. The rows come grouped by their target, as `_group_overrides` leaves
-- them: a list for each permission and for each caveat, empty when there is none.
use django_zed_rebac.Prelude.{Text, Option, none, some, List, [], ◌∷◌, map}
use django_zed_rebac.Schema.{Permission, Caveat, Definition, Schema}
use django_zed_rebac.Parser.{Unicode}
use django_zed_rebac.Composition.Defs.{Override, Composed, Tags, compose_permission, compose_caveat}

abbrev pub Groups : Type 0
Groups = Text → Text → List Override

abbrev pub CaveatGroups : Type 0
CaveatGroups = Text → List Override

-- A permission without overrides is kept as it is.
unfoldable pub compose_one : Unicode → Permission → List Override → Tags → Tags → Option Composed
unfolding compose_permission
compose_one u p [] arms sites = some (record { permission = p; arms = arms; sites = sites })
compose_one u p (r ∷ rows) arms sites = compose_permission u p (r ∷ rows) arms sites

abbrev pub Tagged : Type 0 → Type 0
Tagged A = A × Tags × Tags

unfoldable pub compose_permissions :
    Unicode
    → (Text → List Override)
    → List Permission
    → Tags
    → Tags
    → Option (Tagged (List Permission))
unfolding compose_one
compose_permissions u rows [] arms sites = some ([], arms, sites)
compose_permissions u rows (p ∷ ps) arms sites = elim (compose_one u p (rows p.name) arms sites) [
  | none ↦ none
  | some c ↦ elim (compose_permissions u rows ps c.arms c.sites) [
    | none ↦ none
    | some (qs, a, b) ↦ some (c.permission ∷ qs, a, b)
  ]
]

unfoldable pub compose_definitions :
    Unicode → Groups → List Definition → Tags → Tags → Option (Tagged (List Definition))
unfolding compose_permissions
compose_definitions u groups [] arms sites = some ([], arms, sites)
compose_definitions u groups (d ∷ ds) arms sites =
    elim (compose_permissions u (groups d.resource_type) d.permissions arms sites) [
      | none ↦ none
      | some (ps, a, b) ↦ elim (compose_definitions u groups ds a b) [
        | none ↦ none
        | some (es, a', b') ↦ some (record d { permissions = ps } ∷ es, a', b')
      ]
    ]

unfoldable pub compose_schema : Unicode → Groups → CaveatGroups → Schema → Option (Tagged Schema)
unfolding compose_definitions compose_caveat
compose_schema u groups caveats s = elim (compose_definitions u groups s.definitions [] []) [
  | none ↦ none
  | some (ds, a, b) ↦ some (
    record s {
      definitions = ds;
      caveats = map (λ (c : Caveat). compose_caveat c (caveats c.name)) s.caveats;
    },
    a,
    b,
  )
]
