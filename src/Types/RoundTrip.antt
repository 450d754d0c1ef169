-- ===== src/Types/RoundTrip.antt =====
-- References and tokens are read back from their wire form: src/rebac/types.py.
use django_zed_rebac.Prelude.{
  ℕ, Text, ◌≡◌, refl, some, none, false, contains, Option, [], ◌∷◌, ◌++◌, arith, ◌⊎◌, inl, inr,
  nat_eq, Bool-cases, ◌∙◌,
}
use django_zed_rebac.Types.Split.{
  joined-split_once, split_once-joined, contains-joined, contains-append,
}
use django_zed_rebac.Types.Defs.{
  ObjectRef, SubjectRef, Zookie, print_object, parse_object, print_subject, parse_subject,
  subject_of, print_zookie, parse_zookie, colon, hash, dot, subject_type, subject_id,
}

pub parse_object-print_object :
    (o : ObjectRef)
    → contains o.resource_type colon ≡ false
    → parse_object (print_object o) ≡ some o
unfolding parse_object print_object
parse_object-print_object o h =
    rw (
      contains-joined colon o.resource_type o.resource_id,
      split_once-joined colon _ o.resource_id h,
    )

-- The texts that a reference is printed from do not hold the separators that end them.
pub record IsPrintable (s : SubjectRef) : Type 0 where
  pub type_no_colon : contains (subject_type s) colon ≡ false
  pub type_no_hash : contains (subject_type s) hash ≡ false
  pub id_no_hash : contains (subject_id s) hash ≡ false

contains-hash-print_object :
    (o : ObjectRef)
    → contains o.resource_type hash ≡ false
    → contains o.resource_id hash ≡ false
    → contains (print_object o) hash ≡ false
unfolding print_object contains
contains-hash-print_object o h k = contains-append hash o.resource_type (colon ∷ o.resource_id) h k

-- A subject reference whose type holds neither ':' nor '#' and whose id holds no '#' is read
-- back from its wire form, whatever its relation.
pub parse_subject-print_subject :
    (s : SubjectRef) → IsPrintable s → parse_subject (print_subject s) ≡ some s
unfolding parse_subject print_subject
parse_subject-print_subject s p = go s.optional_relation refl
  where
    go : (r : Text) → s.optional_relation ≡ r → parse_subject (print_subject s) ≡ some s
    go [] e =
        rw
          (
            e,
            contains-hash-print_object s.object p.type_no_hash p.id_no_hash,
            parse_object-print_object s.object p.type_no_colon,
            subject_of,
          )
          (ground arith)
    go (c ∷ r) e =
        rw
          (
            e,
            contains-joined hash (print_object s.object) (c ∷ r),
            split_once-joined hash (print_object s.object) (c ∷ r)
                (contains-hash-print_object s.object p.type_no_hash p.id_no_hash),
            parse_object-print_object s.object p.type_no_colon,
            subject_of,
          )
          (ground arith)

parse_object_inv : (t : Text) (o : ObjectRef) → parse_object t ≡ some o → print_object o ≡ t
unfolding parse_object print_object
parse_object_inv t o h = ground (arith, joined-split_once colon t)

subject_of_inv :
    (o : Option ObjectRef) (rel : Text) (s : SubjectRef)
    → subject_of o rel ≡ some s
    → (o ≡ some s.object) × (s.optional_relation ≡ rel)
unfolding subject_of
subject_of_inv none rel s h = cc
subject_of_inv (some o) rel s h = ground arith

print_subject_nil :
    (s : SubjectRef) → s.optional_relation ≡ [] → print_subject s ≡ print_object s.object
unfolding print_subject
print_subject_nil s e = rw e

print_subject_cons :
    (s : SubjectRef) {c : ℕ} {r : Text}
    → s.optional_relation ≡ c ∷ r
    → print_subject s ≡ print_object s.object ++ hash ∷ s.optional_relation
unfolding print_subject
print_subject_cons s e = rw e

print_subject_by_relation :
    (s : SubjectRef) (t : Text)
    → print_object s.object ++ hash ∷ s.optional_relation ≡ t
    → (print_subject s ≡ t) ⊎ ((s.optional_relation ≡ []) × (print_subject s ++ hash ∷ [] ≡ t))
print_subject_by_relation s t h = go s.optional_relation refl
  where
    go :
        (r : Text)
        → s.optional_relation ≡ r
        → (print_subject s ≡ t) ⊎ ((s.optional_relation ≡ []) × (print_subject s ++ hash ∷ [] ≡ t))
    go [] e = inr (e, rw (print_subject_nil s e) (rw e at h))
    go (c ∷ r) e = inl (print_subject_cons s e ∙ h)

-- A text that is read as a subject reference is its wire form, but for an empty relation, which
-- is accepted after a final '#' and printed without it.
pub print_subject-parse_subject :
    (t : Text) (s : SubjectRef)
    → parse_subject t ≡ some s
    → (print_subject s ≡ t) ⊎ ((s.optional_relation ≡ []) × (print_subject s ++ hash ∷ [] ≡ t))
unfolding parse_subject
print_subject-parse_subject t s h = elim (Bool-cases (contains t hash)) [
  | inl y ↦
      let inv = subject_of_inv _ _ s (rw y at h) in
      print_subject_by_relation s t
        (rw (inv.1, parse_object_inv _ s.object inv.0) (joined-split_once hash t y))
  | inr n ↦
      let inv = subject_of_inv _ _ s (rw n at h) in
      inl (print_subject_nil s inv.1 ∙ parse_object_inv _ s.object inv.0)
]

-- A token whose backend kind holds no '.' is read back from its wire form, and prints as every text
-- from which it is read.
pub parse_zookie-print_zookie :
    (z : Zookie) (t : Text)
    → contains z.backend dot ≡ false
    → (parse_zookie (print_zookie z) ≡ some z) × (parse_zookie t ≡ some z → print_zookie z ≡ t)
unfolding parse_zookie print_zookie
parse_zookie-print_zookie z t h = (
  rw (contains-joined dot z.backend z.token, split_once-joined dot z.backend z.token h),
  λ k. ground (arith, joined-split_once dot t),
)
