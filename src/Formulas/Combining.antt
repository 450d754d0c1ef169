-- ===== src/Formulas/Combining.antt =====
-- `_combine`, and_ and or_ of src/rebac/compile/formulas.py.
use django_zed_rebac.Prelude.{
  Text, true, false, List, [], ◌∷◌, ◌++◌, nat_eq, list_eq, contains, ◌⊎◌, inl, inr,
}
use django_zed_rebac.Formulas.Defs.{Formula, always, never, all_terms, any_term, Terms, end, term}

-- The operators "and" and "or".
pub data Junction : Type 0 where
  conjunction disjunction : Junction

module _ {V : Type 0} where
  unfoldable pub list_of : Terms V → List (Formula V)
  list_of end = []
  list_of (term f fs) = f ∷ list_of fs

  unfoldable pub terms_of : List (Formula V) → Terms V
  terms_of [] = end
  terms_of (f ∷ fs) = term f (terms_of fs)

  -- `formula[operator] if operator in formula else [formula]`
  unfoldable pub children : Junction → Formula V → List (Formula V)
  unfolding list_of
  children conjunction (all_terms fs) = list_of fs
  children disjunction (any_term fs) = list_of fs
  children j f = f ∷ []

  -- What is left of one term, two or more terms or none.
  unfoldable pub join_terms : Junction → List (Formula V) → Formula V
  unfolding terms_of
  join_terms conjunction [] = always
  join_terms disjunction [] = never
  join_terms j (f ∷ []) = f
  join_terms conjunction (f ∷ (g ∷ fs)) = all_terms (terms_of (f ∷ (g ∷ fs)))
  join_terms disjunction (f ∷ (g ∷ fs)) = any_term (terms_of (f ∷ (g ∷ fs)))

  -- The label of a formula is its digest.
  module _ (label : Formula V → Text) where
    -- `terms` and `seen`, after the children.
    unfoldable pub add_children :
        List (Formula V) → List (Formula V) → List Text → List (Formula V) × List Text
    unfolding contains
    add_children [] terms seen = (terms, seen)
    add_children (f ∷ fs) terms seen = elim (contains seen (label f)) [
      | true ↦ add_children fs terms seen
      | false ↦ add_children fs (terms ++ (f ∷ [])) (label f ∷ seen)
    ]

    -- The loop; inl is an early return.
    unfoldable pub combine_terms :
        Junction → List (Formula V) → List (Formula V) → List Text → Formula V ⊎ List (Formula V)
    unfolding children add_children
    combine_terms j [] terms seen = inr terms
    combine_terms disjunction (always ∷ fs) terms seen = inl always
    combine_terms conjunction (always ∷ fs) terms seen = combine_terms conjunction fs terms seen
    combine_terms conjunction (never ∷ fs) terms seen = inl never
    combine_terms disjunction (never ∷ fs) terms seen = combine_terms disjunction fs terms seen
    combine_terms j (f ∷ fs) terms seen =
        let added = add_children (children j f) terms seen in combine_terms j fs added.0 added.1

    unfoldable pub joined_or_returned : Junction → Formula V ⊎ List (Formula V) → Formula V
    unfolding join_terms
    joined_or_returned j (inl f) = f
    joined_or_returned j (inr fs) = join_terms j fs

    unfoldable pub combine_formulas : Junction → List (Formula V) → Formula V
    unfolding combine_terms joined_or_returned
    combine_formulas j fs = joined_or_returned j (combine_terms j fs [] [])
