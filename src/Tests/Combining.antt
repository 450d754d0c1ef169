-- ===== src/Tests/Combining.antt =====
-- A run and an instance for `_combine` of src/rebac/compile/formulas.py.
use django_zed_rebac.Prelude.{
  ℕ, ◌≡◌, refl, sym, ap, ◌∙◌, Text, Bool, true, false, Option, List, [], ◌∷◌, codes, nat_eq,
  list_eq, list_beq, contains, here, there, ◌==◌,
}
use django_zed_rebac.Formulas.{
  Formula, always, leaf, all_terms, end, term, conjunction, disjunction, combine_formulas, children,
}
use django_zed_rebac.Formulas.Joining.{Completion, truth}
use django_zed_rebac.Formulas.Absorbing.{value_of}
use django_zed_rebac.Formulas.Combined.{parts, Labels, combine_formulas-value_of}

abbrev name_of : Text → List (Text × Option ℕ) → Text
name_of n pinned = n

abbrev label : Formula ℕ → Text
label (leaf n pinned) = n
label f = []

abbrev first : Formula ℕ
first = leaf (codes "a") []

abbrev second : Formula ℕ
second = leaf (codes "b") []

-- a and (b and a)
abbrev three : List (Formula ℕ)
three = first ∷ (always ∷ (all_terms (term second (term first end)) ∷ []))

three_combined : combine_formulas label conjunction three ≡ all_terms (term first (term second end))
unfolding combine_formulas contains list_beq
three_combined = refl

abbrev only_a : Completion
only_a k = k == codes "a"

true-ne-false : Path Bool true false → ⊥
true-ne-false h = cc

a-ne-b : codes "a" ≡ codes "b" → ⊥
unfolding list_beq
a-ne-b h = true-ne-false (ap (λ x. x == codes "a") h)

two_labels : Labels name_of only_a label disjunction (parts disjunction (first ∷ (second ∷ [])))
unfolding parts children
two_labels f g (here p) (here q) h = p ∙ sym q
two_labels f g (here p) (there (here q)) h = absurd (a-ne-b (ap label (sym p) ∙ (h ∙ ap label q)))
two_labels f g (there (here p)) (here q) h =
    absurd (a-ne-b (ap label (sym q) ∙ (sym h ∙ ap label p)))
two_labels f g (there (here p)) (there (here q)) h = p ∙ sym q
two_labels f g (there (there m)) n h = elim m [ ]
two_labels f g (here p) (there (there n)) h = elim n [ ]
two_labels f g (there (here p)) (there (there n)) h = elim n [ ]

combine_formulas-value_of_example :
    truth name_of only_a (combine_formulas label disjunction (first ∷ (second ∷ [])))
    ≡ value_of name_of only_a disjunction (first ∷ (second ∷ []))
combine_formulas-value_of_example =
    combine_formulas-value_of name_of only_a label disjunction (first ∷ (second ∷ [])) two_labels
