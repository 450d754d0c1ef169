-- ===== src/Schema/Resolving.antt =====
-- What a schema without issues promises to the look-ups: src/rebac/schema/parser.py.
use django_zed_rebac.Prelude.{
  Text, Bool, true, false, some, List, [], ◌∷◌, ◌++◌, ◌≡◌, ◌↔◌, ◌⊎◌, inl, inr, map, nat_eq, list_eq,
  contains, contains→Mem, Mem→contains, Mem, here, there, All, find_first, ◌||◌, ◌==◌,
  if◌then◌else◌, refl, sym, ap, ◌∙◌, ==_cases, ==_refl, arith,
}
use django_zed_rebac.Schema.Ast.{
  builtin_actor_types, Relation, PermExpr, ref, arrow, bin_op, nil, Permission, Definition,
  find_relation, find_permission,
}
use django_zed_rebac.Schema.Validation.{
  relation_names, permission_names, validate_expr, permission_issues, reference_issues,
}

-- The look-up by a name finds something exactly when the name is among the names.
module _ {A : Type 0} (name : A → Text) where
  found-Mem :
      (n : Text) (xs : List A)
      → Mem n (map name xs)
      → (x : A) × (find_first (λ y. name y == n) xs ≡ some x)
  unfolding find_first
  found-Mem n [] m = elim m [ ]
  found-Mem n (x ∷ xs) m = elim (==_cases (name x) n) [
    | inl (e, p) ↦ (x, rw e refl)
    | inr e ↦ elim m [
      | here p ↦ absurd (ground (arith, ==_refl n, ap (λ y. y == n) p))
      | there q ↦ let r = found-Mem n xs q in (r.0, rw e r.1)
    ]
  ]

  pub Mem-found :
      (n : Text) (xs : List A) (x : A)
      → find_first (λ y. name y == n) xs ≡ some x
      → Mem n (map name xs)
  unfolding find_first
  Mem-found n [] x h = absurd cc
  Mem-found n (y ∷ xs) x h = elim (==_cases (name y) n) [
    | inl (e, p) ↦ here (sym p)
    | inr e ↦ there (Mem-found n xs x (sym (rw e refl) ∙ h))
  ]

-- What an expression refers to within its definition is there: a reference is an actor type, a
-- relation or a permission, and an arrow goes by a relation, whatever its target.
unfoldable pub Resolves : Definition → PermExpr → Type 0
Resolves d nil = Unit
Resolves d (ref n) =
    Mem n builtin_actor_types
    ⊎ (((r : Relation) × (find_relation d n ≡ some r))
        ⊎ ((p : Permission) × (find_permission d n ≡ some p)))
Resolves d (arrow via target) = (r : Relation) × (find_relation d via ≡ some r)
Resolves d (bin_op op l r) = Resolves d l × Resolves d r

pub append-nil_iff {ℓ} : {A : Type ℓ} (xs ys : List A) → (xs ++ ys ≡ []) ↔ ((xs ≡ []) × (ys ≡ []))
append-nil_iff [] ys = (λ h. (refl, h), λ h. h.1)
append-nil_iff (x ∷ xs) ys = (λ h. absurd cc, λ h. absurd cc)

relation_iff :
    (d : Definition) (n : Text)
    → (contains (relation_names d) n ≡ true) ↔ ((r : Relation) × (find_relation d n ≡ some r))
unfolding find_relation
relation_iff d n = (
  λ h. found-Mem (λ (r : Relation). r.name) n d.relations (contains→Mem (relation_names d) n h),
  λ (r, h).
      Mem→contains (relation_names d) (Mem-found (λ (r : Relation). r.name) n d.relations r h),
)

permission_iff :
    (d : Definition) (n : Text)
    → (contains (permission_names d) n ≡ true) ↔ ((p : Permission) × (find_permission d n ≡ some p))
unfolding find_permission
permission_iff d n = (
  λ h.
      found-Mem (λ (p : Permission). p.name) n d.permissions
        (contains→Mem (permission_names d) n h),
  λ (p, h).
      Mem→contains (permission_names d)
        (Mem-found (λ (p : Permission). p.name) n d.permissions p h),
)

when_iff {ℓ} : {A : Type ℓ} (b : Bool) (x : A) → ((if b then [] else x ∷ []) ≡ []) ↔ (b ≡ true)
when_iff true x = (λ _. refl, λ _. refl)
when_iff false x = (λ h. absurd cc, λ h. absurd cc)

or_iff : (a b : Bool) → ((a || b) ≡ true) ↔ ((a ≡ true) ⊎ (b ≡ true))
or_iff true b = (λ _. inl refl, λ _. refl)
or_iff false b = (λ h. inr h, λ h. elim h [ inl x ↦ absurd cc | inr x ↦ x ])

validate_expr-Resolves :
    (e : PermExpr) (d : Definition) (p : Text) → (validate_expr e d p ≡ []) ↔ Resolves d e
unfolding validate_expr Resolves
validate_expr-Resolves nil d p = (λ _. tt, λ _. refl)
validate_expr-Resolves (ref n) d p =
    let actor = contains builtin_actor_types n in
    let names = contains (relation_names d) n in
    let perms = contains (permission_names d) n in
    let whole = when_iff (actor || (names || perms)) _ in
    (
      (λ h. elim ((or_iff actor (names || perms)).0 (whole.0 h)) [
        | inl x ↦ inl (contains→Mem builtin_actor_types n x)
        | inr y ↦ inr (elim ((or_iff names perms).0 y) [
          | inl z ↦ inl ((relation_iff d n).0 z)
          | inr z ↦ inr ((permission_iff d n).0 z)
        ])
      ]),
      (λ h. whole.1 (
          (or_iff actor (names || perms)).1 (elim h [
            | inl x ↦ inl (Mem→contains builtin_actor_types x)
            | inr y ↦ inr (
                (or_iff names perms).1 (elim y [
                  | inl z ↦ inl ((relation_iff d n).1 z)
                  | inr z ↦ inr ((permission_iff d n).1 z)
                ]))
          ]))),
    )
validate_expr-Resolves (arrow via target) d p =
    let whole = when_iff (contains (relation_names d) via) _ in
    (λ h. (relation_iff d via).0 (whole.0 h), λ h. whole.1 ((relation_iff d via).1 h))
validate_expr-Resolves (bin_op op l r) d p =
    let both = append-nil_iff (validate_expr l d p) (validate_expr r d p) in
    let left = validate_expr-Resolves l d p in
    let right = validate_expr-Resolves r d p in
    (λ h. (left.0 (both.0 h).0, right.0 (both.0 h).1), λ (x, y). both.1 (left.1 x, right.1 y))

abbrev pub ResolvesAll : Definition → List Permission → Type 0
ResolvesAll d ps = All (λ (p : Permission). Resolves d p.expression) ps

pub permission_issues-ResolvesAll :
    (d : Definition) (ps : List Permission) → (permission_issues d ps ≡ []) ↔ ResolvesAll d ps
unfolding permission_issues
permission_issues-ResolvesAll d [] = (λ _. tt, λ _. refl)
permission_issues-ResolvesAll d (p ∷ ps) =
    let both = append-nil_iff (validate_expr p.expression d p.name) (permission_issues d ps) in
    let one = validate_expr-Resolves p.expression d p.name in
    let ih = permission_issues-ResolvesAll d ps in
    (λ h. (one.0 (both.0 h).0, ih.0 (both.0 h).1), λ (x, y). both.1 (one.1 x, ih.1 y))

-- There is no reference issue exactly when, in the permissions of every definition, each reference
-- is a built-in name or a relation or permission of the definition, and the relation that each
-- arrow goes by is one of the definition. The target of an arrow is not looked up.
pub reference_issues-ResolvesAll :
    (ds : List Definition)
    → (reference_issues ds ≡ []) ↔ All (λ (d : Definition). ResolvesAll d d.permissions) ds
unfolding reference_issues
reference_issues-ResolvesAll [] = (λ _. tt, λ _. refl)
reference_issues-ResolvesAll (d ∷ ds) =
    let both = append-nil_iff (permission_issues d d.permissions) (reference_issues ds) in
    let one = permission_issues-ResolvesAll d d.permissions in
    let ih = reference_issues-ResolvesAll ds in
    (λ h. (one.0 (both.0 h).0, ih.0 (both.0 h).1), λ (x, y). both.1 (one.1 x, ih.1 y))
