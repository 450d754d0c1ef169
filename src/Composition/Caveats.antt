-- ===== src/Composition/Caveats.antt =====
-- Which row redefines a caveat: src/rebac/composition.py, `_compose_caveat`.
use django_zed_rebac.Prelude.{
  true, false, none, some, List, [], ◌∷◌, nat_eq, ◌≡◌, refl, arith, All, Bool-cases, inl, inr,
  Option-cases, ◌⊎◌, Mem, here, there, ◌≢◌, subst, Text,
}
use django_zed_rebac.Schema.{Caveat}
use django_zed_rebac.Composition.Defs.{
  Override, is_recaveat, before, insert, sorted, rows_of, last_of, compose_caveat,
}

-- No row is after `w`.
abbrev pub Latest : Override → List Override → Type 0
Latest w rs = All (λ r. before w r ≡ false) rs

All-insert :
    (P : Override → Type 0) (r : Override) (rs : List Override)
    → All P (insert r rs)
    → P r × All P rs
unfolding insert
All-insert P r [] h = h
All-insert P r (x ∷ xs) h = elim (Bool-cases (before x r)) [
  | inr e ↦ rw (insert, e) at h
  | inl e ↦
      let split : P x × All P (insert r xs) = rw (insert, e) at h in
      let rest = All-insert P r xs split.1 in (rest.0, (split.0, rest.1))
]

insert-All :
    (P : Override → Type 0) (r : Override) (rs : List Override)
    → P r
    → All P rs
    → All P (insert r rs)
unfolding insert
insert-All P r [] p h = (p, tt)
insert-All P r (x ∷ xs) p h = elim (Bool-cases (before x r)) [
  | inr e ↦ rw (insert, e) (p, h)
  | inl e ↦ rw (insert, e) (h.0, insert-All P r xs p h.1)
]

All-sorted : (P : Override → Type 0) (rs : List Override) → All P (sorted rs) → All P rs
unfolding sorted
All-sorted P [] h = h
All-sorted P (r ∷ rs) h =
    let part = All-insert P r (sorted rs) h in (part.0, All-sorted P rs part.1)

sorted-All : (P : Override → Type 0) (rs : List Override) → All P rs → All P (sorted rs)
unfolding sorted
sorted-All P [] h = h
sorted-All P (r ∷ rs) h = insert-All P r (sorted rs) h.0 (sorted-All P rs h.1)

abbrev Ascending : List Override → Type 0
Ascending [] = Unit
Ascending (x ∷ xs) = All (λ y. before y x ≡ false) xs × Ascending xs

not_before_trans : (a b c : Override) → before a b ≡ false → before b c ≡ false → before a c ≡ false
unfolding before
not_before_trans a b c h k = ground arith

before_asym : (a b : Override) → before a b ≡ true → before b a ≡ false
unfolding before
before_asym a b h = ground arith

not_before_self : (a : Override) → before a a ≡ false
unfolding before
not_before_self a = ground arith

not_before_all :
    (x r : Override) (xs : List Override)
    → before x r ≡ false
    → All (λ y. before y x ≡ false) xs
    → All (λ y. before y r ≡ false) xs
not_before_all x r [] h a = tt
not_before_all x r (y ∷ ys) h a = (not_before_trans y x r a.0 h, not_before_all x r ys h a.1)

insert-Ascending : (r : Override) (rs : List Override) → Ascending rs → Ascending (insert r rs)
unfolding insert
insert-Ascending r [] h = (tt, tt)
insert-Ascending r (x ∷ xs) h = elim (Bool-cases (before x r)) [
  | inr e ↦ rw (insert, e) ((e, not_before_all x r xs e h.0), h)
  | inl e ↦
      rw (insert, e)
        (
          insert-All (λ y. before y x ≡ false) r xs (before_asym x r e) h.0,
          insert-Ascending r xs h.1,
        )
]

sorted-Ascending : (rs : List Override) → Ascending (sorted rs)
unfolding sorted
sorted-Ascending [] = tt
sorted-Ascending (r ∷ rs) = insert-Ascending r (sorted rs) (sorted-Ascending rs)

last_of-All :
    (P : Override → Type 0) (rs : List Override) (w : Override)
    → All P rs
    → last_of rs ≡ some w
    → P w
unfolding last_of
last_of-All P [] w a h = cc
last_of-All P (x ∷ xs) w a h = elim (Option-cases (last_of xs)) [
  | inl e ↦
      let whole : some x ≡ some w = rw (last_of, e) at h in
      let same : x ≡ w = cc in subst P same a.0
  | inr (v, e) ↦
      let whole : some v ≡ some w = rw (last_of, e) at h in
      let same : v ≡ w = cc in last_of-All P xs w a.1 (rw (← same) e)
]

last_of-none : (rs : List Override) → last_of rs ≡ none → rs ≡ []
unfolding last_of
last_of-none [] h = refl
last_of-none (x ∷ xs) h = elim (Option-cases (last_of xs)) [
  | inl e ↦ cc (rw (last_of, e) at h)
  | inr (v, e) ↦ cc (rw (last_of, e) at h)
]

last_of-Latest :
    (rs : List Override) (w : Override) → Ascending rs → last_of rs ≡ some w → Latest w rs
unfolding last_of
last_of-Latest [] w a h = tt
last_of-Latest (x ∷ xs) w a h = elim (Option-cases (last_of xs)) [
  | inl e ↦
      let whole : some x ≡ some w = rw (last_of, e) at h in
      let same : x ≡ w = cc in rw (last_of-none xs e, ← same) (not_before_self x, tt)
  | inr (v, e) ↦
      let whole : some v ≡ some w = rw (last_of, e) at h in
      let same : v ≡ w = cc in
      let ends : last_of xs ≡ some w = rw (← same) e in
      (last_of-All (λ y. before y x ≡ false) xs w a.0 ends, last_of-Latest xs w a.1 ends)
]

insert-nonempty : (r : Override) (rs : List Override) → insert r rs ≢ []
unfolding insert
insert-nonempty r [] h = cc
insert-nonempty r (x ∷ xs) h = elim (Bool-cases (before x r)) [
  | inl e ↦ cc (rw (insert, e) at h)
  | inr e ↦ cc (rw (insert, e) at h)
]

sorted-empty : (rs : List Override) → sorted rs ≡ [] → rs ≡ []
unfolding sorted
sorted-empty [] h = refl
sorted-empty (r ∷ rs) h = absurd (insert-nonempty r (sorted rs) h)

all_members : (rs : List Override) → All (λ r. Mem r rs) rs
all_members rs = go rs rs (λ w m. m)
  where
    go : (xs ys : List Override) → ((w : Override) → Mem w xs → Mem w ys) → All (λ r. Mem r ys) xs
    go [] ys f = tt
    go (x ∷ xs) ys f = (f x (here refl), go xs ys (λ w m. f w (there m)))

-- What replaces the expression of a caveat.
abbrev pub Redefined : Caveat → List Override → Text → Type 0
Redefined c rs e =
    ((rs ≡ []) × (e ≡ c.expression))
    ⊎ ((w : Override) × Mem w rs × Latest w rs × (e ≡ w.expression))

-- A composed caveat keeps its name and parameters. With no row that redefines it, its expression
-- is the baseline's; otherwise it is that of such a row that no other is after, by the time and
-- then by the key.
pub compose_caveat-Redefined :
    (c : Caveat) (rows : List Override)
    → ((compose_caveat c rows).name ≡ c.name)
      × ((compose_caveat c rows).params ≡ c.params)
      × Redefined c (rows_of is_recaveat rows) (compose_caveat c rows).expression
unfolding compose_caveat
compose_caveat-Redefined c rows =
    let rs = rows_of is_recaveat rows in
    elim (Option-cases (last_of (sorted rs))) [
      | inl e ↦
          rw (compose_caveat, e)
            (refl, refl, inl (sorted-empty rs (last_of-none (sorted rs) e), refl))
      | inr (w, e) ↦
          let member =
            last_of-All (λ r. Mem r rs) (sorted rs) w
              (sorted-All (λ r. Mem r rs) rs (all_members rs)) e in
          let latest =
            All-sorted (λ r. before w r ≡ false) rs
              (last_of-Latest (sorted rs) w (sorted-Ascending rs) e) in
          rw (compose_caveat, e) (refl, refl, inr (w, member, latest, refl))
    ]
