-- ===== src/Conditions/Bounds.antt =====
-- The bounds hold for rows that were not there yet: src/rebac/compile/conditions.py.
use django_zed_rebac.Prelude.{
  Text, Bool, true, false, Option, none, some, List, [], ◌∷◌, is_empty, nat_eq, list_eq, contains,
  contains→Mem, Mem, here, there, ◌||◌, ◌⊎◌, inl, inr, ◌≡◌, refl, sym, ap, ◌∙◌, subst, Bool-cases,
  Option-cases,
}
use django_zed_rebac.Schema.{Schema}
use django_zed_rebac.Parser.{Unicode}
use django_zed_rebac.Caveats.{Cel}
use django_zed_rebac.Formulas.{Found, leaf, evaluate_formula}
use django_zed_rebac.Conditions.Defs.{
  ConditionRow, CaveatVerdicts, no_verdicts, add_key, found_or_error, row_verdict, prepare_rows,
  lower_allows, upper_allows,
}

some-injective : {A : Type 0} {a b : A} → some a ≡ some b → a ≡ b
some-injective h = cc

true-ne-false : Path Bool true false → ⊥
true-ne-false h = cc

none-ne-some : {A : Type 0} {a : A} → Path (Option A) none (some a) → ⊥
none-ne-some h = cc

module _ {V : Type 0} (u : Unicode) (cel : Cel V) (key : Text → List (Text × Option V) → Text)
    (s : Schema) (context : List (Text × Option V)) where
  -- The condition of the row was decided.
  abbrev pub DecidedAs : ConditionRow V → Bool → Type 0
  DecidedAs r b = (x : Found) × (row_verdict u cel key s context r ≡ some x) × (x.verdict ≡ some b)

  abbrev Backs : List (ConditionRow V) → Text → Bool → Type 0
  Backs rows k b = (q : ConditionRow V) × Mem q rows × (q.caveat_key ≡ k) × DecidedAs q b

  -- Every decided key is that of a row with this verdict.
  record AreBacked (rows : List (ConditionRow V)) (v : CaveatVerdicts) : Type 0 where
    truths : (k : Text) → Mem k v.true_keys → Backs rows k true
    falsehoods : (k : Text) → Mem k v.false_keys → Backs rows k false

  add_key-AreBacked :
      (rows : List (ConditionRow V)) (r : ConditionRow V) (x : Found) (v : CaveatVerdicts)
      → Mem r rows
      → row_verdict u cel key s context r ≡ some x
      → AreBacked rows v
      → AreBacked rows (add_key r.caveat_key x v)
  unfolding add_key
  add_key-AreBacked rows r x v m e w = elim (Option-cases x.verdict) [
    | inl o ↦ rw (add_key, o) (record { truths = w.truths; falsehoods = w.falsehoods })
    | inr (b, o) ↦ elim (Bool-cases b) [
      | inl y ↦
          rw (add_key, o, y)
            (record {
              truths = λ k n. elim n [
                | here p ↦ (r, m, sym p, (x, e, o ∙ ap some y))
                | there q ↦ w.truths k q
              ];
              falsehoods = w.falsehoods;
            })
      | inr y ↦
          rw (add_key, o, y)
            (record {
              truths = w.truths;
              falsehoods = λ k n. elim n [
                | here p ↦ (r, m, sym p, (x, e, o ∙ ap some y))
                | there q ↦ w.falsehoods k q
              ];
            })
    ]
  ]

  prepare_rows-AreBacked :
      (rows rs : List (ConditionRow V)) (seen : List Text) (v w : CaveatVerdicts)
      → ((r : ConditionRow V) → Mem r rs → Mem r rows)
      → AreBacked rows v
      → prepare_rows u cel key s context rs seen v ≡ some w
      → AreBacked rows w
  unfolding prepare_rows
  prepare_rows-AreBacked rows [] seen v w i b h = subst (AreBacked rows) (some-injective h) b
  prepare_rows-AreBacked rows (r ∷ rs) seen v w i b h =
      elim (Bool-cases (is_empty r.caveat_key || contains seen r.caveat_key)) [
        | inl e ↦
            prepare_rows-AreBacked rows rs seen v w (λ q m. i q (there m)) b
              (sym (rw (prepare_rows, e) refl) ∙ h)
        | inr e ↦ elim (Option-cases (row_verdict u cel key s context r)) [
          | inl x ↦ absurd (none-ne-some (sym (rw (prepare_rows, e, x) refl) ∙ h))
          | inr (x, y) ↦
              prepare_rows-AreBacked rows rs (r.caveat_key ∷ seen) (add_key r.caveat_key x v) w
                (λ q m. i q (there m)) (add_key-AreBacked rows r x v (i r (here refl)) y b)
                (sym (rw (prepare_rows, e, y) refl) ∙ h)
        ]
      ]

  -- The rows that have the key of this row have its condition.
  abbrev pub OwnsKey : List (ConditionRow V) → ConditionRow V → Type 0
  OwnsKey rows r =
      (q : ConditionRow V)
      → Mem q rows
      → q.caveat_key ≡ r.caveat_key
      → (q.caveat_name ≡ r.caveat_name) × (q.caveat_context ≡ r.caveat_context)

  same-verdict :
      (q r : ConditionRow V)
      → q.caveat_name ≡ r.caveat_name
      → q.caveat_context ≡ r.caveat_context
      → row_verdict u cel key s context q ≡ row_verdict u cel key s context r
  unfolding row_verdict
  same-verdict q r n c =
      ap (λ x. found_or_error (evaluate_formula u cel key s context (leaf x q.caveat_context))) n
      ∙ ap (λ x. found_or_error (evaluate_formula u cel key s context (leaf r.caveat_name x))) c

  backed-DecidedAs :
      (rows : List (ConditionRow V)) (r : ConditionRow V) (b : Bool)
      → OwnsKey rows r
      → Backs rows r.caveat_key b
      → DecidedAs r b
  backed-DecidedAs rows r b o (q, m, p, (x, e, f)) =
      let own = o q m p in (x, sym (same-verdict q r own.0 own.1) ∙ e, f)

  no_verdicts-AreBacked : (rows : List (ConditionRow V)) → AreBacked rows no_verdicts
  no_verdicts-AreBacked rows = record { truths = λ k m. elim m [ ]; falsehoods = λ k m. elim m [ ] }

  prepared-AreBacked :
      (rows : List (ConditionRow V)) (v : CaveatVerdicts)
      → prepare_rows u cel key s context rows [] no_verdicts ≡ some v
      → AreBacked rows v
  prepared-AreBacked rows v h =
      prepare_rows-AreBacked rows rows [] no_verdicts v (λ q m. m) (no_verdicts-AreBacked rows) h

  -- For every row, written before or after the verdicts were prepared, whose key stands for its
  -- condition in the rows that were read: when the lower bound allows it, then it has no
  -- condition or its condition is true.
  pub prepare_rows-lower :
      (rows : List (ConditionRow V)) (v : CaveatVerdicts) (r : ConditionRow V)
      → prepare_rows u cel key s context rows [] no_verdicts ≡ some v
      → OwnsKey rows r
      → lower_allows v r ≡ true
      → (is_empty r.caveat_name ≡ true) ⊎ DecidedAs r true
  unfolding lower_allows
  prepare_rows-lower rows v r h o l = elim (Bool-cases (is_empty v.true_keys)) [
    | inl e ↦ inl (sym (rw (lower_allows, e) refl) ∙ l)
    | inr e ↦ elim (Bool-cases (is_empty r.caveat_name)) [
      | inl n ↦ inl n
      | inr n ↦
          let held : contains v.true_keys r.caveat_key ≡ true =
            sym (rw (lower_allows, e, n) refl) ∙ l in
          inr (
            backed-DecidedAs rows r true o (
              (prepared-AreBacked rows v h).truths r.caveat_key
                (contains→Mem v.true_keys r.caveat_key held)))
    ]
  ]

  -- For every row, written before or after the verdicts were prepared, whose key stands for its
  -- condition in the rows that were read: when the upper bound does not allow it, then its
  -- condition is false.
  pub prepare_rows-upper :
      (rows : List (ConditionRow V)) (v : CaveatVerdicts) (r : ConditionRow V)
      → prepare_rows u cel key s context rows [] no_verdicts ≡ some v
      → OwnsKey rows r
      → upper_allows v r ≡ false
      → DecidedAs r false
  unfolding upper_allows
  prepare_rows-upper rows v r h o l = elim (Bool-cases (is_empty v.false_keys)) [
    | inl e ↦ absurd (true-ne-false (sym (rw (upper_allows, e) refl) ∙ l))
    | inr e ↦ elim (Bool-cases (contains v.false_keys r.caveat_key)) [
      | inl c ↦ backed-DecidedAs rows r false o (
          (prepared-AreBacked rows v h).falsehoods r.caveat_key
            (contains→Mem v.false_keys r.caveat_key c))
      | inr c ↦ absurd (true-ne-false (sym (rw (upper_allows, e, c) refl) ∙ l))
    ]
  ]
