-- ===== src/Schema/Validation.antt =====
-- Cross-checks of a schema: `_validate_expr`, `reference_issues`, `subject_relation_errors` and the
-- loop over the definitions of `validate_schema`, src/rebac/schema/parser.py. A message is a
-- constructor with what the message names.
use django_zed_rebac.Prelude.{
  Text, Bool, true, false, none, some, List, [], ◌∷◌, ◌++◌, map, nat_eq, list_eq, contains, length,
  not, is_empty, nat_beq, ◌&&◌, ◌||◌, if◌then◌else◌, inl, inr,
}
use django_zed_rebac.Schema.Ast.{
  builtin_actor_types, AllowedSubject, Backing, Relation, PermExpr, ref, arrow, bin_op, nil,
  Permission, Definition, Schema, get_definition,
}
use django_zed_rebac.Schema.Documents.{BackingError, backing_to_dict, backing_from_dict}

-- ReferenceIssue.kind
pub data ReferenceKind : Type 0 where
  reference through_arrow : ReferenceKind

pub record ReferenceIssue : Type 0 where
  pub resource_type : Text
  pub permission : Text
  pub kind : ReferenceKind
  pub name : Text

pub data Issue : Type 0 where
  undefined : ReferenceIssue → Issue
  -- The Boolean is whether the subject relation names a permission.
  subject_relation : Text → Text → AllowedSubject → Bool → Issue
  reserved_definition duplicate_relation duplicate_permission name_collision : Text → Issue
  reserved_relation backed_subjects backed_expiration backed_concrete backed_caveat :
      Text → Text → Issue
  backing_error : Text → Text → BackingError → Issue
  reserved_subject unknown_caveat : Text → Text → Text → Issue

abbrev pub relation_names : Definition → List Text
relation_names d = map (λ (r : Relation). r.name) d.relations

abbrev pub permission_names : Definition → List Text
permission_names d = map (λ (p : Permission). p.name) d.permissions

unfoldable pub validate_expr : PermExpr → Definition → Text → List ReferenceIssue
unfolding contains
validate_expr nil d p = []
validate_expr (ref n) d p =
    if contains builtin_actor_types n
      || (contains (relation_names d) n || contains (permission_names d) n)
    then []
    else record { resource_type = d.resource_type; permission = p; kind = reference; name = n } ∷ []
validate_expr (arrow via target) d p =
    if contains (relation_names d) via
    then []
    else record {
      resource_type = d.resource_type;
      permission = p;
      kind = through_arrow;
      name = via;
    }
      ∷ []
validate_expr (bin_op op l r) d p = validate_expr l d p ++ validate_expr r d p

unfoldable pub permission_issues : Definition → List Permission → List ReferenceIssue
unfolding validate_expr
permission_issues d [] = []
permission_issues d (p ∷ ps) = validate_expr p.expression d p.name ++ permission_issues d ps

unfoldable pub reference_issues : List Definition → List ReferenceIssue
unfolding permission_issues
reference_issues [] = []
reference_issues (d ∷ ds) = permission_issues d d.permissions ++ reference_issues ds

unfoldable pub subject_errors : Schema → Definition → Relation → List AllowedSubject → List Issue
unfolding get_definition contains
subject_errors s d r [] = []
subject_errors s d r (a ∷ as') =
    let rest = subject_errors s d r as' in
    if is_empty a.relation then rest else elim (get_definition s a.type) [
      | none ↦ rest
      | some target ↦
          if contains (relation_names target) a.relation
          then rest
          else subject_relation d.resource_type r.name a
              (contains (permission_names target) a.relation)
            ∷ rest
    ]

unfoldable pub relations_subject_errors : Schema → Definition → List Relation → List Issue
unfolding subject_errors
relations_subject_errors s d [] = []
relations_subject_errors s d (r ∷ rs) =
    subject_errors s d r r.allowed_subjects ++ relations_subject_errors s d rs

unfoldable pub definitions_subject_errors : Schema → List Definition → List Issue
unfolding relations_subject_errors
definitions_subject_errors s [] = []
definitions_subject_errors s (d ∷ ds) =
    relations_subject_errors s d d.relations ++ definitions_subject_errors s ds

abbrev pub subject_relation_errors : Schema → List Issue
unfolding definitions_subject_errors
subject_relation_errors s = definitions_subject_errors s s.definitions

abbrev pub issue_when : Bool → Issue → List Issue
issue_when true i = i ∷ []
issue_when false i = []

-- `set(xs)`, as a list without repetitions.
unfoldable pub set_of : List Text → List Text
unfolding contains
set_of [] = []
set_of (x ∷ xs) = let rest = set_of xs in if contains rest x then rest else x ∷ rest

-- `len(xs) != len(set(xs))`
unfoldable pub has_repeats : List Text → Bool
unfolding set_of
has_repeats xs = not (nat_beq (length (set_of xs)) (length xs))

module _ (is_identifier is_finite : Text → Bool) (caveats : List Text) where
  unfoldable pub subject_issues : Definition → Relation → AllowedSubject → List Issue
  unfolding contains
  subject_issues d r a =
      elim r.backing [
        | none ↦ []
        | some b ↦
            issue_when (a.wildcard || (not (is_empty a.relation) || not (is_empty a.id)))
              (backed_concrete d.resource_type r.name)
            ++ issue_when (not (is_empty a.with_caveat)) (backed_caveat d.resource_type r.name)
      ]
      ++ (issue_when (contains builtin_actor_types a.type)
            (reserved_subject d.resource_type r.name a.type)
          ++ issue_when (not (is_empty a.with_caveat) && not (contains caveats a.with_caveat))
              (unknown_caveat d.resource_type r.name a.with_caveat))

  unfoldable pub subjects_issues : Definition → Relation → List AllowedSubject → List Issue
  unfolding subject_issues
  subjects_issues d r [] = []
  subjects_issues d r (a ∷ as') = subject_issues d r a ++ subjects_issues d r as'

  unfoldable pub backing_issues : Definition → Relation → Backing → List Issue
  unfolding backing_to_dict backing_from_dict
  backing_issues d r b =
      elim (backing_from_dict is_identifier is_finite (backing_to_dict (some b))) [
        | inl x ↦ []
        | inr e ↦ backing_error d.resource_type r.name e ∷ []
      ]
      ++ (issue_when (not (nat_beq (length r.allowed_subjects) 1))
            (backed_subjects d.resource_type r.name)
          ++ issue_when r.with_expiration (backed_expiration d.resource_type r.name))

  unfoldable pub relation_issues : Definition → Relation → List Issue
  unfolding contains backing_issues subjects_issues
  relation_issues d r =
      issue_when (contains builtin_actor_types r.name) (reserved_relation d.resource_type r.name)
      ++ (elim r.backing [ none ↦ [] | some b ↦ backing_issues d r b ]
          ++ subjects_issues d r r.allowed_subjects)

  unfoldable pub relations_issues : Definition → List Relation → List Issue
  unfolding relation_issues
  relations_issues d [] = []
  relations_issues d (r ∷ rs) = relation_issues d r ++ relations_issues d rs

  unfoldable pub definition_issues : Definition → List Issue
  unfolding contains has_repeats relations_issues permission_issues set_of
  definition_issues d =
      issue_when (contains builtin_actor_types d.resource_type)
        (reserved_definition d.resource_type)
      ++ (issue_when (has_repeats (relation_names d)) (duplicate_relation d.resource_type)
          ++ (issue_when (has_repeats (permission_names d)) (duplicate_permission d.resource_type)
              ++ (relations_issues d d.relations
                  ++ (map (λ i. undefined i) (permission_issues d d.permissions)
                      ++ issue_when
                          (has_repeats (set_of (relation_names d) ++ set_of (permission_names d)))
                          (name_collision d.resource_type)))))
