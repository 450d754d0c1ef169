-- ===== src/Composition/Shape.antt =====
-- What a composition never changes: src/rebac/composition.py, `compose_tagged`.
use django_zed_rebac.Prelude.{Text, some, List, [], ◌∷◌, map, ◌≡◌, refl, Option-cases, inl, inr}
use django_zed_rebac.Schema.{
  exclusion, intersection, CaveatParam, Permission, Caveat, Definition, Relation, Schema,
}
use django_zed_rebac.Parser.{Unicode}
use django_zed_rebac.Composition.Defs.{
  Override, Composed, Tags, compose_permission, compose_caveat, add_extends, add_sites, sorted,
  rows_of, is_extend, is_disable, is_tighten,
}
use django_zed_rebac.Composition.Caveats.{compose_caveat-Redefined}
use django_zed_rebac.Composition.Schemas.{
  Groups, CaveatGroups, compose_one, compose_permissions, compose_definitions, compose_schema,
}

compose_permission-name :
    (u : Unicode) (p : Permission) (rows : List Override) (arms sites : Tags) (c : Composed)
    → compose_permission u p rows arms sites ≡ some c
    → c.permission.name ≡ p.name
unfolding compose_permission
compose_permission-name u p rows arms sites c h =
    elim (Option-cases (add_extends u (sorted (rows_of is_extend rows)) p.expression arms)) [
      | inl a ↦ cc (rw (compose_permission, a) at h)
      | inr ((e, arms'), a) ↦
          elim (Option-cases (add_sites u exclusion (sorted (rows_of is_disable rows)) e sites)) [
            | inl b ↦ cc (rw (compose_permission, a, b) at h)
            | inr ((d, mid), b) ↦
                elim (Option-cases
                  (add_sites u intersection (sorted (rows_of is_tighten rows)) d mid)) [
                    | inl x ↦ cc (rw (compose_permission, a, b, x) at h)
                    | inr ((t, sites'), x) ↦
                        let built : some (record {
                          permission = record {
                            name = p.name;
                            expression = t;
                            raw_text = p.raw_text;
                          };
                          arms = arms';
                          sites = sites';
                        })
                            ≡ some c =
                          rw (compose_permission, a, b, x) at h in
                        cc
                  ]
          ]
    ]

compose_one-name :
    (u : Unicode) (p : Permission) (rows : List Override) (arms sites : Tags) (c : Composed)
    → compose_one u p rows arms sites ≡ some c
    → c.permission.name ≡ p.name
unfolding compose_one
compose_one-name u p [] arms sites c h = cc
compose_one-name u p (r ∷ rows) arms sites c h =
    compose_permission-name u p (r ∷ rows) arms sites c h

abbrev pub permission_names : List Permission → List Text
permission_names [] = []
permission_names (p ∷ ps) = p.name ∷ permission_names ps

compose_permissions-names :
    (u : Unicode) (rows : Text → List Override) (ps : List Permission) (arms sites : Tags)
    (qs : List Permission) (a b : Tags)
    → compose_permissions u rows ps arms sites ≡ some (qs, a, b)
    → permission_names qs ≡ permission_names ps
unfolding compose_permissions
compose_permissions-names u rows [] arms sites qs a b h = cc
compose_permissions-names u rows (p ∷ ps) arms sites qs a b h =
    elim (Option-cases (compose_one u p (rows p.name) arms sites)) [
      | inl e ↦ cc (rw (compose_permissions, e) at h)
      | inr (c, e) ↦ elim (Option-cases (compose_permissions u rows ps c.arms c.sites)) [
        | inl f ↦ cc (rw (compose_permissions, e, f) at h)
        | inr ((rs, a', b'), f) ↦
            let name = compose_one-name u p (rows p.name) arms sites c e in
            let ih = compose_permissions-names u rows ps c.arms c.sites rs a' b' f in
            let built : some (c.permission ∷ rs, a', b') ≡ some (qs, a, b) =
              rw (compose_permissions, e, f) at h in
            let same : c.permission ∷ rs ≡ qs = cc in rw (← same, name, ih) refl
      ]
    ]

-- What a composition keeps of each definition.
abbrev pub outlines : List Definition → List (Text × List Relation × List Text)
outlines [] = []
outlines (d ∷ ds) = (d.resource_type, d.relations, permission_names d.permissions) ∷ outlines ds

compose_definitions-outlines :
    (u : Unicode) (groups : Groups) (ds : List Definition) (arms sites : Tags)
    (es : List Definition) (a b : Tags)
    → compose_definitions u groups ds arms sites ≡ some (es, a, b)
    → outlines es ≡ outlines ds
unfolding compose_definitions
compose_definitions-outlines u groups [] arms sites es a b h = cc
compose_definitions-outlines u groups (d ∷ ds) arms sites es a b h =
    elim (Option-cases (compose_permissions u (groups d.resource_type) d.permissions arms sites)) [
      | inl e ↦ cc (rw (compose_definitions, e) at h)
      | inr ((ps, x, y), e) ↦ elim (Option-cases (compose_definitions u groups ds x y)) [
        | inl f ↦ cc (rw (compose_definitions, e, f) at h)
        | inr ((rs, a', b'), f) ↦
            let names =
              compose_permissions-names u (groups d.resource_type) d.permissions arms sites ps x y
                e in
            let ih = compose_definitions-outlines u groups ds x y rs a' b' f in
            let built : some (record d { permissions = ps } ∷ rs, a', b') ≡ some (es, a, b) =
              rw (compose_definitions, e, f) at h in
            let same : record d { permissions = ps } ∷ rs ≡ es = cc in rw (← same, names, ih) refl
      ]
    ]

abbrev pub caveat_outlines : List Caveat → List (Text × List CaveatParam)
caveat_outlines [] = []
caveat_outlines (c ∷ cs) = (c.name, c.params) ∷ caveat_outlines cs

caveats-outlines :
    (caveats : CaveatGroups) (cs : List Caveat)
    → caveat_outlines (map (λ (c : Caveat). compose_caveat c (caveats c.name)) cs)
      ≡ caveat_outlines cs
caveats-outlines caveats [] = refl
caveats-outlines caveats (c ∷ cs) =
    let kept = compose_caveat-Redefined c (caveats c.name) in
    rw (kept.0, kept.1, caveats-outlines caveats cs) refl

-- A composed schema has the definitions of the baseline in their order, each with its relations
-- and with permissions of the same names in the same order, the caveats of the baseline with
-- their parameters, and its directives and headers: overrides add and remove no name.
pub compose_schema-outlines :
    (u : Unicode) (groups : Groups) (caveats : CaveatGroups) (s q : Schema) (a b : Tags)
    → compose_schema u groups caveats s ≡ some (q, a, b)
    → (outlines q.definitions ≡ outlines s.definitions)
      × (caveat_outlines q.caveats ≡ caveat_outlines s.caveats)
      × (q.directives ≡ s.directives)
      × (q.headers ≡ s.headers)
unfolding compose_schema
compose_schema-outlines u groups caveats s q a b h =
    elim (Option-cases (compose_definitions u groups s.definitions [] [])) [
      | inl e ↦ cc (rw (compose_schema, e) at h)
      | inr ((ds, x, y), e) ↦
          let built : some (
            record s {
              definitions = ds;
              caveats = map (λ (c : Caveat). compose_caveat c (caveats c.name)) s.caveats;
            },
            x,
            y,
          )
              ≡ some (q, a, b) =
            rw (compose_schema, e) at h in
          let same : record s {
            definitions = ds;
            caveats = map (λ (c : Caveat). compose_caveat c (caveats c.name)) s.caveats;
          }
              ≡ q =
            cc in
          rw (← same) (
            compose_definitions-outlines u groups s.definitions [] [] ds x y e,
            caveats-outlines caveats s.caveats,
            refl,
            refl,
          )
    ]
