-- ===== src/Evaluator/Recalling.antt =====
-- Recalling decisions of field visibility keeps their number: src/rebac/evaluator.py.
use django_zed_rebac.Prelude.{
  ℕ, suc, ◌+◌, Text, Bool, true, false, Option, none, some, List, [], ◌∷◌, ◌++◌, ◌==◌, nat_eq,
  list_eq, pair_eq, length, length-append, contains, ◌≡◌, inl, inr, refl, sym, ap, ◌∙◌, ==_cases,
  ==_refl, Bool-cases, Option-cases, All, arith,
}
use django_zed_rebac.Evaluator.Visibility.{
  DecisionKey, Decisions, find_decision, drop_decision, move_to_end, put_decision, distinct_names,
  Recalled, add_answer, add_missing, recall,
}

-- The candidates of all decisions.
unfoldable pub total : Decisions → ℕ
total [] = 0
total ((k, v) ∷ d) = length k.1.0 + total d

total-append : (c d : Decisions) → total (c ++ d) ≡ total c + total d
unfolding total
total-append [] d = omega arith
total-append ((k, v) ∷ c) d = omega (arith, total-append c d)

some-ne-none : {A : Type 0} {a : A} → Path (Option A) (some a) none → ⊥
some-ne-none h = cc

true-ne-false : Path Bool true false → ⊥
true-ne-false h = cc

add_comm : (a b : ℕ) → a + b ≡ b + a
add_comm a b = omega arith

module _ (k : DecisionKey) where
  drop_decision-total :
      (v : List Text) (d : Decisions)
      → find_decision k d ≡ some v
      → total (drop_decision k d) + length k.1.0 ≡ total d
  unfolding find_decision drop_decision total
  drop_decision-total v [] h = absurd cc
  drop_decision-total v ((x, w) ∷ d) h = elim (==_cases k x) [
    | inl (e, p) ↦
        rw (drop_decision, e)
          (ap (λ z. total d + length z.1.0) p ∙ add_comm (total d) (length x.1.0))
    | inr e ↦
        let ih = drop_decision-total v d (sym (rw (find_decision, e) refl) ∙ h) in
        rw (drop_decision, e) (omega (arith, ih))
  ]

  length-drop_decision :
      (v : List Text) (d : Decisions)
      → find_decision k d ≡ some v
      → suc (length (drop_decision k d)) ≡ length d
  unfolding find_decision drop_decision
  length-drop_decision v [] h = absurd cc
  length-drop_decision v ((x, w) ∷ d) h = elim (==_cases k x) [
    | inl (e, p) ↦ rw (drop_decision, e) refl
    | inr e ↦
        let ih = length-drop_decision v d (sym (rw (find_decision, e) refl) ∙ h) in
        rw (drop_decision, e) (omega (arith, ih))
  ]

  move_to_end-total :
      (v : List Text) (d : Decisions)
      → find_decision k d ≡ some v
      → total (move_to_end k v d) ≡ total d
  unfolding move_to_end total
  move_to_end-total v d h =
      omega (arith, total-append (drop_decision k d) ((k, v) ∷ []), drop_decision-total v d h)

  length-move_to_end :
      (v : List Text) (d : Decisions)
      → find_decision k d ≡ some v
      → length (move_to_end k v d) ≡ length d
  unfolding move_to_end
  length-move_to_end v d h =
      omega (arith, length-append (drop_decision k d) ((k, v) ∷ []), length-drop_decision v d h)

  pub put_decision-total :
      (v : List Text) (d : Decisions)
      → find_decision k d ≡ none
      → total (put_decision k v d) ≡ total d + length k.1.0
  unfolding find_decision put_decision total
  put_decision-total v [] h = omega arith
  put_decision-total v ((x, w) ∷ d) h = elim (==_cases k x) [
    | inl (e, p) ↦ absurd cc
    | inr e ↦
        let ih = put_decision-total v d (sym (rw (find_decision, e) refl) ∙ h) in
        rw (put_decision, e) (omega (arith, ih))
  ]

unfoldable pub Absent : DecisionKey → Decisions → Type 0
Absent k d = find_decision k d ≡ none

Absent-drop_decision :
    (k j : DecisionKey) (d : Decisions) → Absent k d → Absent k (drop_decision j d)
unfolding find_decision drop_decision Absent
Absent-drop_decision k j [] h = refl
Absent-drop_decision k j ((x, w) ∷ d) h = elim (Bool-cases (k == x)) [
  | inl e ↦ absurd (some-ne-none {a = w} (sym (rw (find_decision, e) refl) ∙ h))
  | inr e ↦
      let later : find_decision k d ≡ none = sym (rw (find_decision, e) refl) ∙ h in
      elim (Bool-cases (j == x)) [
        | inl f ↦ rw (drop_decision, f) later
        | inr f ↦ rw (drop_decision, f, find_decision, e) (Absent-drop_decision k j d later)
      ]
]

Absent-append_one :
    (k j : DecisionKey) (v : List Text) (d : Decisions)
    → Absent k d
    → (k == j) ≡ false
    → Absent k (d ++ ((j, v) ∷ []))
unfolding find_decision Absent
Absent-append_one k j v [] h e = rw (find_decision, e) refl
Absent-append_one k j v ((x, w) ∷ d) h e = elim (Bool-cases (k == x)) [
  | inl f ↦ absurd (some-ne-none {a = w} (sym (rw (find_decision, f) refl) ∙ h))
  | inr f ↦
      rw (find_decision, f) (Absent-append_one k j v d (sym (rw (find_decision, f) refl) ∙ h) e)
]

Absent-move_to_end :
    (k j : DecisionKey) (v : List Text) (d : Decisions)
    → Absent k d
    → find_decision j d ≡ some v
    → Absent k (move_to_end j v d)
unfolding move_to_end Absent
Absent-move_to_end k j v d h g = elim (==_cases k j) [
  | inl (e, p) ↦ absurd (some-ne-none (sym g ∙ (ap (λ z. find_decision z d) (sym p) ∙ h)))
  | inr e ↦ Absent-append_one k j v (drop_decision j d) (Absent-drop_decision k j d h) e
]

pub Absent-put_decision :
    (k j : DecisionKey) (v : List Text) (d : Decisions)
    → Absent k d
    → (k == j) ≡ false
    → Absent k (put_decision j v d)
unfolding find_decision put_decision Absent
Absent-put_decision k j v [] h e = rw (find_decision, e) refl
Absent-put_decision k j v ((x, w) ∷ d) h e = elim (Bool-cases (k == x)) [
  | inl f ↦ absurd (some-ne-none {a = w} (sym (rw (find_decision, f) refl) ∙ h))
  | inr f ↦
      let later : find_decision k d ≡ none = sym (rw (find_decision, f) refl) ∙ h in
      elim (Bool-cases (j == x)) [
        | inl g ↦ rw (put_decision, g, find_decision, f) later
        | inr g ↦ rw (put_decision, g, find_decision, f) (Absent-put_decision k j v d later e)
      ]
]

unfoldable pub IsDistinct : List Text → Type 0
IsDistinct [] = Unit
IsDistinct (n ∷ ns) = (contains ns n ≡ false) × IsDistinct ns

contains-distinct_names :
    (ns seen : List Text) (n : Text)
    → contains seen n ≡ true
    → contains (distinct_names ns seen) n ≡ false
unfolding distinct_names contains
contains-distinct_names [] seen n h = refl
contains-distinct_names (m ∷ ns) seen n h = elim (Bool-cases (contains seen m)) [
  | inl e ↦ rw (distinct_names, e) (contains-distinct_names ns seen n h)
  | inr e ↦ elim (==_cases n m) [
    | inl (b, p) ↦ absurd (true-ne-false (sym h ∙ (ap (contains seen) p ∙ e)))
    | inr b ↦ rw (distinct_names, e, b) (contains-distinct_names ns (m ∷ seen) n (ground (arith)))
  ]
]

pub distinct_names-IsDistinct : (ns seen : List Text) → IsDistinct (distinct_names ns seen)
unfolding distinct_names IsDistinct contains
distinct_names-IsDistinct [] seen = tt
distinct_names-IsDistinct (m ∷ ns) seen = elim (Bool-cases (contains seen m)) [
  | inl e ↦ rw (distinct_names, e) (distinct_names-IsDistinct ns seen)
  | inr e ↦
      rw (distinct_names, e)
        (
          contains-distinct_names ns (m ∷ seen) m (ground (arith, ==_refl m)),
          distinct_names-IsDistinct ns (m ∷ seen),
        )
]

module _ (scope : Text) (ids : List Text) where
  abbrev key : Text → DecisionKey
  key n = (scope, (ids, n))

  contains-recall :
      (ns : List Text) (d : Decisions) (n : Text)
      → contains ns n ≡ false
      → contains (recall scope ids ns d).missing n ≡ false
  unfolding recall add_answer add_missing contains
  contains-recall [] d n h = refl
  contains-recall (m ∷ ns) d n h = elim (Option-cases (find_decision (key m) d)) [
    | inr (v, e) ↦
        rw (recall, e, add_answer) (contains-recall ns (move_to_end (key m) v d) n (ground arith))
    | inl e ↦ rw (recall, e, add_missing) (ground (arith, contains-recall ns d n (ground arith)))
  ]

  recall-Absent :
      (ns : List Text) (d : Decisions) (k : DecisionKey)
      → Absent k d
      → Absent k (recall scope ids ns d).decisions
  unfolding recall add_answer add_missing
  recall-Absent [] d k h = h
  recall-Absent (m ∷ ns) d k h = elim (Option-cases (find_decision (key m) d)) [
    | inr (v, e) ↦
        rw (recall, e, add_answer)
          (recall-Absent ns (move_to_end (key m) v d) k (Absent-move_to_end k (key m) v d h e))
    | inl e ↦ rw (recall, e, add_missing) (recall-Absent ns d k h)
  ]

  -- What the first loop leaves: as many decisions and candidates as before, and distinct names
  -- that are not decided.
  pub record IsRecalled (d : Decisions) (r : Recalled) : Type 0 where
    pub same_total : total r.decisions ≡ total d
    pub same_length : length r.decisions ≡ length d
    pub absent : All (λ n. Absent (key n) r.decisions) r.missing
    pub distinct : IsDistinct r.missing

  pub recall-IsRecalled :
      (ns : List Text) (d : Decisions) → IsDistinct ns → IsRecalled d (recall scope ids ns d)
  unfolding recall add_answer add_missing IsDistinct Absent
  recall-IsRecalled [] d i = record {
    same_total = refl;
    same_length = refl;
    absent = tt;
    distinct = tt;
  }
  recall-IsRecalled (n ∷ ns) d (c, i) = elim (Option-cases (find_decision (key n) d)) [
    | inr (v, e) ↦
        let ih = recall-IsRecalled ns (move_to_end (key n) v d) i in
        rw (recall, e, add_answer)
          (record {
            same_total = ih.same_total ∙ move_to_end-total (key n) v d e;
            same_length = ih.same_length ∙ length-move_to_end (key n) v d e;
            absent = ih.absent;
            distinct = ih.distinct;
          })
    | inl e ↦
        let ih = recall-IsRecalled ns d i in
        rw (recall, e, add_missing)
          (record {
            same_total = ih.same_total;
            same_length = ih.same_length;
            absent = (recall-Absent ns d (key n) e, ih.absent);
            distinct = (contains-recall ns d n c, ih.distinct);
          })
  ]
