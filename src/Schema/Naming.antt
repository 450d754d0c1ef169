-- ===== src/Schema/Naming.antt =====
-- Names in a definition without issues: `validate_schema` of src/rebac/schema/parser.py.
use django_zed_rebac.Prelude.{
  suc, ◌≤◌, Text, Bool, true, false, some, List, [], ◌∷◌, ◌++◌, ◌≡◌, inl, inr, map, nat_eq, list_eq,
  contains, contains→Mem, Mem→contains, Mem, here, there, length, nat_beq_iff, find_first, ◌==◌,
  refl, sym, ap, ◌∙◌, subst, ==_cases, ==_refl, Bool-cases, arith,
}
use django_zed_rebac.Schema.Ast.{
  builtin_actor_types, Relation, Permission, Definition, find_relation, find_permission,
}
use django_zed_rebac.Schema.Validation.{
  Issue, undefined, reserved_definition, duplicate_relation, duplicate_permission, name_collision,
  ReferenceIssue, relation_names, permission_names, permission_issues, set_of, has_repeats,
  issue_when, relations_issues, definition_issues,
}
use django_zed_rebac.Schema.Resolving.{
  append-nil_iff, Mem-found, ResolvesAll, permission_issues-ResolvesAll,
}

unfoldable IsDistinct : List Text → Type 0
IsDistinct [] = Unit
IsDistinct (x ∷ xs) = (contains xs x ≡ false) × IsDistinct xs

set_of-contains : (xs : List Text) (n : Text) → contains (set_of xs) n ≡ contains xs n
unfolding set_of contains
set_of-contains [] n = refl
set_of-contains (x ∷ xs) n = elim (Bool-cases (contains (set_of xs) x)) [
  | inl e ↦ elim (==_cases n x) [
    | inl (b, p) ↦ rw (set_of, e, b) (ap (contains (set_of xs)) p ∙ e)
    | inr b ↦ rw (set_of, e, b) (set_of-contains xs n)
  ]
  | inr e ↦ rw (set_of, e, set_of-contains xs n) refl
]

length-set_of : (xs : List Text) → length (set_of xs) ≤ length xs
unfolding set_of
length-set_of [] = omega arith
length-set_of (x ∷ xs) = elim (Bool-cases (contains (set_of xs) x)) [
  | inl e ↦ rw (set_of, e) (omega (arith, length-set_of xs))
  | inr e ↦ rw (set_of, e) (omega (arith, length-set_of xs))
]

whole-IsDistinct : (xs : List Text) → length (set_of xs) ≡ length xs → IsDistinct xs
unfolding set_of IsDistinct
whole-IsDistinct [] h = tt
whole-IsDistinct (x ∷ xs) h = elim (Bool-cases (contains (set_of xs) x)) [
  | inl e ↦
      let short : length (set_of xs) ≡ suc (length xs) = sym (rw (set_of, e) refl) ∙ h in
      absurd (omega (arith, short, length-set_of xs))
  | inr e ↦
      let longer : suc (length (set_of xs)) ≡ suc (length xs) = sym (rw (set_of, e) refl) ∙ h in
      (sym (set_of-contains xs x) ∙ e, whole-IsDistinct xs (omega (arith, longer)))
]

has_repeats-IsDistinct : (xs : List Text) → has_repeats xs ≡ false → IsDistinct xs
unfolding has_repeats
has_repeats-IsDistinct xs h =
    whole-IsDistinct xs ((nat_beq_iff (length (set_of xs)) (length xs)).0 (ground arith))

module _ {A : Type 0} (name : A → Text) where
  found-own :
      (x : A) (xs : List A)
      → IsDistinct (map name xs)
      → Mem x xs
      → find_first (λ y. name y == name x) xs ≡ some x
  unfolding find_first IsDistinct
  found-own x [] d m = elim m [ ]
  found-own x (y ∷ xs) (e, d) (here p) =
      rw (ap (λ z. name y == name z) p ∙ ==_refl (name y)) (ap some (sym p))
  found-own x (y ∷ xs) (e, d) (there m) = elim (==_cases (name y) (name x)) [
    | inl (b, p) ↦ absurd (
        ground (
          arith,
          Mem→contains (map name xs) (subst (λ z. Mem z (map name xs)) (sym p) (Mem-map m)),
        ))
    | inr b ↦ rw b (found-own x xs d m)
  ]
    where
      Mem-map : {x : A} {xs : List A} → Mem x xs → Mem (name x) (map name xs)
      Mem-map (here p) = here (ap name p)
      Mem-map (there m) = there (Mem-map m)

contains-append :
    (xs ys : List Text) (n : Text) → contains ys n ≡ true → contains (xs ++ ys) n ≡ true
unfolding contains
contains-append [] ys n h = h
contains-append (x ∷ xs) ys n h = ground (arith, contains-append xs ys n h)

apart : (xs ys : List Text) (n : Text) → IsDistinct (xs ++ ys) → Mem n xs → contains ys n ≡ true → ⊥
unfolding IsDistinct
apart [] ys n d m h = elim m [ ]
apart (x ∷ xs) ys n (e, d) (here p) h =
    absurd (ground (arith, contains-append xs ys x (subst (λ z. contains ys z ≡ true) p h)))
apart (x ∷ xs) ys n (e, d) (there m) h = apart xs ys n d m h

-- Each relation and permission is the one that its name finds, no name finds both, and the
-- references and the relations of arrows in its permissions are found. Targets of arrows are not
-- looked up.
pub record IsUnambiguous (d : Definition) : Type 0 where
  pub relations : (r : Relation) → Mem r d.relations → find_relation d r.name ≡ some r
  pub permissions : (p : Permission) → Mem p d.permissions → find_permission d p.name ≡ some p
  pub apart :
      (n : Text) (r : Relation) (p : Permission)
      → find_relation d n ≡ some r
      → find_permission d n ≡ some p
      → ⊥
  pub resolved : ResolvesAll d d.permissions

no-issue : (b : Bool) (i : Issue) → issue_when b i ≡ [] → b ≡ false
no-issue true i h = absurd cc
no-issue false i h = refl

map-nil : (is : List ReferenceIssue) → map (λ i. undefined i) is ≡ [] → is ≡ []
map-nil [] h = refl
map-nil (i ∷ is) h = absurd cc

module _ (is_identifier is_finite : Text → Bool) (caveats : List Text) where
  -- In a definition for which the validation has no issue each relation and permission is the one
  -- that its name finds, no name finds both, and the references and the relations of arrows in its
  -- permissions are found. Targets of arrows are not looked up.
  pub definition_issues-IsUnambiguous :
      (d : Definition) → definition_issues is_identifier is_finite caveats d ≡ [] → IsUnambiguous d
  unfolding definition_issues find_relation find_permission
  definition_issues-IsUnambiguous d h =
      let t = d.resource_type in
      let one =
        (append-nil_iff (issue_when (contains builtin_actor_types t) (reserved_definition t)) _).0
          h in
      let two =
        (append-nil_iff (issue_when (has_repeats (relation_names d)) (duplicate_relation t)) _).0
          one.1 in
      let three =
        (append-nil_iff (issue_when (has_repeats (permission_names d)) (duplicate_permission t))
            _).0
          two.1 in
      let four =
        (append-nil_iff (relations_issues is_identifier is_finite caveats d d.relations) _).0
          three.1 in
      let five =
        (append-nil_iff (map (λ i. undefined i) (permission_issues d d.permissions)) _).0 four.1 in
      let rels = set_of (relation_names d) in
      let perms = set_of (permission_names d) in
      let no_collision =
        has_repeats-IsDistinct (rels ++ perms) (no-issue _ (name_collision t) five.1) in
      record {
        relations = λ r m.
            found-own (λ (x : Relation). x.name) r d.relations
              (has_repeats-IsDistinct (relation_names d) (no-issue _ (duplicate_relation t) two.0))
              m;
        permissions = λ p m.
            found-own (λ (x : Permission). x.name) p d.permissions
              (has_repeats-IsDistinct (permission_names d)
                (no-issue _ (duplicate_permission t) three.0))
              m;
        apart = λ n r p x y.
            apart rels perms n no_collision
              (contains→Mem rels n (
                set_of-contains (relation_names d) n
                ∙ Mem→contains (relation_names d)
                    (Mem-found (λ (z : Relation). z.name) n d.relations r x)))
              (set_of-contains (permission_names d) n
                ∙ Mem→contains (permission_names d)
                    (Mem-found (λ (z : Permission). z.name) n d.permissions p y));
        resolved = (permission_issues-ResolvesAll d d.permissions).0 (map-nil _ five.0);
      }
