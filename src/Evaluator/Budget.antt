-- ===== src/Evaluator/Budget.antt =====
-- The remembered field visibility stays within its budget: src/rebac/evaluator.py.
use django_zed_rebac.Prelude.{
  ℕ, ◌+◌, ◌-◌, ◌≤◌, Text, Bool, true, false, Option, List, [], ◌∷◌, is_empty, ◌==◌, ◌||◌, nat_eq,
  list_eq, pair_eq, ltb, length, contains, sort_texts, ◌≡◌, inl, inr, sym, ap, ◌∙◌, ==_cases,
  ==_refl, Bool-cases, Option-cases, All, arith,
}
use django_zed_rebac.Evaluator.Visibility.{
  DecisionKey, Decisions, Visibility, put_decision, distinct_names, recall, store_found, evict,
  held_remembered, held_many,
}
use django_zed_rebac.Schema.Validation.{set_of}
use django_zed_rebac.Evaluator.Recalling.{
  total, put_decision-total, Absent, Absent-put_decision, IsDistinct, distinct_names-IsDistinct,
  recall-IsRecalled,
}

true-ne-false : Path Bool true false → ⊥
true-ne-false h = cc

-- The counter is right, and there are not too many decisions or candidates.
pub record IsWithin (max : ℕ) (s : Visibility) : Type 0 where
  pub counted : s.decision_ids ≡ total s.decisions
  pub few : length s.decisions ≤ max
  pub small : s.decision_ids ≤ max

contains_apart : (n m : Text) (ns : List Text) → contains (m ∷ ns) n ≡ false → (m == n) ≡ false
unfolding contains
contains_apart n m ns c = elim (==_cases m n) [
  | inl (e, p) ↦
      let same : (n == m) ≡ true = ap (λ z. n == z) p ∙ ==_refl n in absurd (ground (arith, same))
  | inr e ↦ e
]

module _ (scope : Text) (ids : List Text) where
  abbrev key : Text → DecisionKey
  key n = (scope, (ids, n))

  abbrev AllAbsent : List Text → Decisions → Type 0
  AllAbsent ns d = All (λ n. Absent (key n) d) ns

  key-apart : (n m : Text) → (n == m) ≡ false → (key n == key m) ≡ false
  key-apart n m h = elim (==_cases (key n) (key m)) [
    | inl (e, p) ↦
        absurd (true-ne-false (sym (==_refl n) ∙ (ap (λ (k : DecisionKey). n == k.1.1) p ∙ h)))
    | inr e ↦ e
  ]

  AllAbsent-put_decision :
      (n : Text) (v : List Text) (ns : List Text) (d : Decisions)
      → contains ns n ≡ false
      → AllAbsent ns d
      → AllAbsent ns (put_decision (key n) v d)
  unfolding contains
  AllAbsent-put_decision n v [] d c a = tt
  AllAbsent-put_decision n v (m ∷ ns) d c (h, a) = (
    Absent-put_decision (key m) (key n) v d h (key-apart m n (contains_apart n m ns c)),
    AllAbsent-put_decision n v ns d (ground arith) a,
  )

  store_found-counted :
      (found : Text → List Text) (ns : List Text) (s : Visibility)
      → IsDistinct ns
      → AllAbsent ns s.decisions
      → s.decision_ids ≡ total s.decisions
      → (let r = store_found found scope ids ns s in r.decision_ids ≡ total r.decisions)
  unfolding store_found IsDistinct Absent
  store_found-counted found [] s i a c = c
  store_found-counted found (n ∷ ns) s (x, i) (h, a) c =
      store_found-counted found ns
        (record {
          decisions = put_decision (key n) (found n) s.decisions;
          decision_ids = s.decision_ids + length ids;
        })
        i (AllAbsent-put_decision n (found n) ns s.decisions x a)
        (ap (λ z. z + length ids) c ∙ sym (put_decision-total (key n) (found n) s.decisions h))

evict-IsWithin : (max : ℕ) (d : Decisions) (n : ℕ) → n ≡ total d → IsWithin max (evict max d n)
unfolding evict total
evict-IsWithin max [] n h = record { counted = h; few = omega arith; small = omega (arith, h) }
evict-IsWithin max ((k, v) ∷ d) n h =
    elim (Bool-cases (ltb max (length ((k, v) ∷ d)) || ltb max n)) [
      | inl e ↦ rw (evict, e) (evict-IsWithin max d (n - length k.1.0) (omega (arith, h)))
      | inr e ↦ rw (evict, e) (record { counted = h; few = ground arith; small = ground arith })
    ]

held_remembered-IsWithin :
    (max : ℕ) (held : List Text → List Text → Text → List Text) (scope : Text)
    (names ids : List Text) (s : Visibility)
    → IsDistinct names
    → IsWithin max s
    → IsWithin max (held_remembered max held scope names ids s).1
unfolding held_remembered
held_remembered-IsWithin max held scope names ids s i w =
    let r = recall-IsRecalled scope ids names s.decisions i in
    elim (Bool-cases (is_empty (recall scope ids names s.decisions).missing)) [
      | inl e ↦
          rw (held_remembered, e)
            (record {
              counted = w.counted ∙ sym r.same_total;
              few = omega (arith, w.few, r.same_length);
              small = w.small;
            })
      | inr e ↦
          let missing = (recall scope ids names s.decisions).missing in
          let before : Visibility = record {
            decisions = (recall scope ids names s.decisions).decisions;
            decision_ids = s.decision_ids;
          } in
          let stored = store_found (held missing ids) scope ids missing before in
          rw (held_remembered, e)
            (evict-IsWithin max stored.decisions stored.decision_ids (
              store_found-counted scope ids (held missing ids) missing before r.distinct r.absent
                (w.counted ∙ sym r.same_total)))
    ]

-- A call keeps the memory of field visibility within its budget: the counter is the number of
-- the candidates of all decisions, and neither they nor the decisions are more than the limit.
pub held_many-IsWithin :
    (max : ℕ) (held : List Text → List Text → Text → List Text) (scope : Option Text)
    (actions ids : List Text) (s : Visibility)
    → IsWithin max s
    → IsWithin max (held_many max held scope actions ids s).1
unfolding held_many
held_many-IsWithin max held scope actions ids s w =
    elim (Bool-cases (is_empty (distinct_names actions []))) [
      | inl a ↦ rw (held_many, a) w
      | inr a ↦ elim (Bool-cases (is_empty (sort_texts (set_of ids)))) [
        | inl b ↦ rw (held_many, a, b) w
        | inr b ↦ elim (Bool-cases (ltb max (length (sort_texts (set_of ids))))) [
          | inl c ↦ rw (held_many, a, b, c) w
          | inr c ↦ elim (Option-cases scope) [
            | inl d ↦ rw (held_many, a, b, c, d) w
            | inr (k, d) ↦
                rw (held_many, a, b, c, d)
                  (held_remembered-IsWithin max held k (distinct_names actions [])
                    (sort_texts (set_of ids)) s (distinct_names-IsDistinct actions []) w)
          ]
        ]
      ]
    ]
