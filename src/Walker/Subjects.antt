-- ===== src/Walker/Subjects.antt =====
-- Which stored subjects a declared relation admits: src/rebac/schema/walker.py.
use django_zed_rebac.Prelude.{
  Bool, true, false, List, [], ◌∷◌, ◌≡◌, ◌≢◌, ◌↔◌, ◌⊎◌, refl, arith, ==_iff, nat_eq, list_eq, inl,
  inr, Mem, here, there, any_of, ◌==◌, ◌&&◌, not, Bool-cases,
}
use django_zed_rebac.Types.{SubjectRef, subject_type, subject_id}
use django_zed_rebac.Schema.{AllowedSubject, Relation}
use django_zed_rebac.Actors.{star}
use django_zed_rebac.Walker.Defs.{
  subject_matches_allowed, Row, relationship_row_allowed_by_relation,
}

-- The declared shapes: `type:*` admits the wildcard subject only; every other shape admits a
-- concrete id (the declared one, if there is one) with exactly the declared subject relation.
abbrev pub Admits : AllowedSubject → SubjectRef → Type 0
Admits a s =
    (subject_type s ≡ a.type)
    × (((a.wildcard ≡ true) × (subject_id s ≡ star) × (s.optional_relation ≡ []))
        ⊎ ((a.wildcard ≡ false)
            × (subject_id s ≢ star)
            × ((a.id ≡ []) ⊎ (subject_id s ≡ a.id))
            × (s.optional_relation ≡ a.relation)))

matches→Admits :
    (a : AllowedSubject) (s : SubjectRef) → subject_matches_allowed a s ≡ true → Admits a s
unfolding subject_matches_allowed
matches→Admits a s h = ground (
  arith,
  ==_iff (subject_type s) a.type,
  ==_iff (subject_id s) star,
  ==_iff s.optional_relation [],
  ==_iff a.id [],
  ==_iff (subject_id s) a.id,
  ==_iff a.relation [],
  ==_iff s.optional_relation a.relation,
)

Admits→matches :
    (a : AllowedSubject) (s : SubjectRef) → Admits a s → subject_matches_allowed a s ≡ true
unfolding subject_matches_allowed
Admits→matches a s h = ground (
  arith,
  ==_iff (subject_type s) a.type,
  ==_iff (subject_id s) star,
  ==_iff s.optional_relation [],
  ==_iff a.id [],
  ==_iff (subject_id s) a.id,
  ==_iff a.relation [],
  ==_iff s.optional_relation a.relation,
)

any_of→Mem :
    (test : AllowedSubject → Bool) (xs : List AllowedSubject)
    → any_of test xs ≡ true
    → (a : AllowedSubject) × Mem a xs × (test a ≡ true)
unfolding any_of
any_of→Mem test [] h = cc
any_of→Mem test (x ∷ xs) h = elim (Bool-cases (test x)) [
  | inl e ↦ (x, here refl, e)
  | inr e ↦ let (a, m, t) = any_of→Mem test xs (rw e at h) in (a, there m, t)
]

Mem→any_of :
    (test : AllowedSubject → Bool) (xs : List AllowedSubject) {a : AllowedSubject}
    → Mem a xs
    → test a ≡ true
    → any_of test xs ≡ true
unfolding any_of
Mem→any_of test [] m t = elim m [ ]
Mem→any_of test (x ∷ xs) (here e) t = rw (rw e at t)
Mem→any_of test (x ∷ xs) (there m) t = ground (arith, Mem→any_of test xs m t)

and_true : (a b : Bool) → a && b ≡ true → (a ≡ true) × (b ≡ true)
and_true a b h = ground arith

-- A stored row counts for a relation exactly when one declared alternative admits its subject
-- under exactly the caveat of the row, and the row expires only where the relation may.
pub relationship_row_allowed_iff :
    (r : Relation) (row : Row)
    → (relationship_row_allowed_by_relation r row ≡ true) ↔ (
        ((row.expires ≡ false) ⊎ (r.with_expiration ≡ true))
        × ((a : AllowedSubject) × Mem a r.allowed_subjects
            × Admits a row.subject
            × (a.with_caveat ≡ row.caveat_name)))
unfolding relationship_row_allowed_by_relation
relationship_row_allowed_iff r row = (forward, backward)
  where
    test : AllowedSubject → Bool
    test a = subject_matches_allowed a row.subject && a.with_caveat == row.caveat_name

    forward :
        relationship_row_allowed_by_relation r row ≡ true
        → ((row.expires ≡ false) ⊎ (r.with_expiration ≡ true))
          × ((a : AllowedSubject) × Mem a r.allowed_subjects
              × Admits a row.subject
              × (a.with_caveat ≡ row.caveat_name))
    forward h = elim (Bool-cases (row.expires && not r.with_expiration)) [
      | inl e ↦ cc (rw e at h)
      | inr e ↦
          let (a, m, t) = any_of→Mem test r.allowed_subjects (rw e at h) in
          let parts = and_true (subject_matches_allowed a row.subject) _ t in
          (
            ground arith,
            (
              a,
              m,
              matches→Admits a row.subject parts.0,
              (==_iff a.with_caveat row.caveat_name).0 parts.1,
            ),
          )
    ]

    backward :
        ((row.expires ≡ false) ⊎ (r.with_expiration ≡ true))
          × ((a : AllowedSubject) × Mem a r.allowed_subjects
              × Admits a row.subject
              × (a.with_caveat ≡ row.caveat_name))
        → relationship_row_allowed_by_relation r row ≡ true
    backward (x, (a, m, adm, c)) =
        let hit : any_of test r.allowed_subjects ≡ true =
          Mem→any_of test r.allowed_subjects m
            (rw (Admits→matches a row.subject adm, (==_iff a.with_caveat row.caveat_name).1 c)) in
        ground (arith, hit, x)
