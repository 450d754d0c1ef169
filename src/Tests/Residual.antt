-- ===== src/Tests/Residual.antt =====
-- A run and an instance for `named` and `subjects` of src/rebac/compile/evaluate.py.
use django_zed_rebac.Prelude.{
  ◌≡◌, refl, sym, ap, subst, ◌∙◌, Text, false, Option, none, some, List, [], ◌∷◌, codes, nat_eq,
  list_eq, list_beq, contains, find_first, is_empty, Mem, here, there, any_of, All,
}
use django_zed_rebac.Types.{ObjectRef, SubjectRef, subject_type, subject_eq, object_eq, same_object}
use django_zed_rebac.Schema.{
  AllowedSubject, Relation, Definition, Schema, get_definition, get_permission, find_relation,
  find_permission, backing_covers,
}
use django_zed_rebac.Walker.{relationship_row_allowed_by_relation}
use django_zed_rebac.Residual.{
  Edge, plain_edge, StoredRow, Database, rows_of_relation, Site, subjects, named,
}
use django_zed_rebac.Residual.Ending.{IsClosed, named-returns}
use django_zed_rebac.Tests.Actors.{alice}

abbrev group : ObjectRef
group = record { resource_type = codes "auth/group"; resource_id = codes "eng" }

abbrev members : SubjectRef
members = record { object = group; optional_relation = codes "member" }

abbrev alternative : Text → AllowedSubject
alternative r = record {
  type = codes "auth/group";
  relation = r;
  wildcard = false;
  with_caveat = [];
  id = [];
}

-- relation member: auth/user | auth/group#member
abbrev member : Relation
member = record {
  name = codes "member";
  allowed_subjects =
      (record {
        type = codes "auth/user";
        relation = [];
        wildcard = false;
        with_caveat = [];
        id = [];
      })
      ∷ (alternative (codes "member") ∷ []);
  with_expiration = false;
  backing = none;
}

abbrev group_type : Definition
group_type = record {
  resource_type = codes "auth/group";
  relations = member ∷ [];
  permissions = [];
}

abbrev schema : Schema
schema = record { definitions = group_type ∷ []; caveats = []; directives = []; headers = [] }

abbrev row_of : SubjectRef → StoredRow
row_of s = record {
  resource = group;
  relation = codes "member";
  edge = plain_edge s;
  expires_at = none;
}

-- The group has its own members for members, and alice.
abbrev database : Database
database = record {
  rows = row_of members ∷ (row_of alice ∷ []);
  field_targets = λ d r rid. [];
  attribute_targets = λ d r rid. [];
  const_matches = λ d r rid. false;
  arranged = λ es. es;
}

abbrev edges : ObjectRef → Relation → Definition → List Edge
edges o r d = rows_of_relation database 5 o r d

group_rows : edges group member group_type ≡ plain_edge members ∷ (plain_edge alice ∷ [])
unfolding rows_of_relation list_beq backing_covers same_object any_of
    relationship_row_allowed_by_relation
group_rows = refl

abbrev sites : List Site
sites = (group, codes "member") ∷ []

group_found : get_definition schema group.resource_type ≡ some group_type
unfolding get_definition find_first list_beq
group_found = refl

no_permission_found : get_permission schema group.resource_type (codes "member") ≡ none
unfolding get_permission find_first list_beq get_definition find_permission
no_permission_found = refl

member_found : find_relation group_type (codes "member") ≡ some member
unfolding find_relation find_first list_beq
member_found = refl

none-ne-some : {A : Type 0} {a : A} → Path (Option A) none (some a) → ⊥
none-ne-some h = cc

some-injective : {A : Type 0} {a b : A} → some a ≡ some b → a ≡ b
some-injective h = cc

abbrev Leads : Edge → Type 0
Leads e =
    is_empty e.subject.optional_relation ≡ false
    → Mem (e.subject.object, e.subject.optional_relation) sites

rows_lead :
    (o : ObjectRef) (n : Text) (d : Definition) (r : Relation)
    → Path Site (group, codes "member") (o, n)
    → get_definition schema o.resource_type ≡ some d
    → find_relation d n ≡ some r
    → All Leads (edges o r d)
rows_lead o n d r e x y =
    let same_d : group_type ≡ d =
      some-injective
        (sym group_found ∙ (ap (λ (s : Site). get_definition schema s.0.resource_type) e ∙ x)) in
    let same_r : member ≡ r = some-injective (
      sym member_found
      ∙ (ap (λ (s : Site). find_relation group_type s.1) e
          ∙ (ap (λ z. find_relation z n) same_d ∙ y))) in
    let same_rows : edges group member group_type ≡ edges o r d =
      ap (λ (s : Site). edges s.0 member group_type) e
      ∙ (ap (λ z. edges o z group_type) same_r ∙ ap (λ z. edges o r z) same_d) in
    subst (All Leads) (sym group_rows ∙ same_rows) ((λ _. here refl), ((λ h. cc), tt))

closed : IsClosed schema edges sites
closed = record {
  expressions = λ o n d p m x y. elim m [
    | here e ↦ absurd (
        none-ne-some (
          sym no_permission_found
          ∙ (ap (λ (s : Site). get_permission schema s.0.resource_type s.1) (sym e) ∙ y)))
    | there q ↦ elim q [ ]
  ];
  sets = λ o n d r m x y. elim m [ here e ↦ rows_lead o n d r (sym e) x y | there q ↦ elim q [ ] ];
}

named-returns_example :
    (found : List SubjectRef) × (subjects schema edges 2 group
        (codes "member")
        (subject_type alice)
        []
      ≡ some found)
    × (named schema edges 2 group (codes "member") alice [] ≡ some (contains found alice))
named-returns_example =
    named-returns schema edges sites group (codes "member") alice closed (here refl) refl
