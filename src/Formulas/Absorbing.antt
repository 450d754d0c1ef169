-- ===== src/Formulas/Absorbing.antt =====
-- A combined formula means what its parts mean together: src/rebac/compile/formulas.py.
use django_zed_rebac.Prelude.{
  Text, Bool, true, false, Option, List, [], ◌∷◌, ◌++◌, nat_eq, list_eq, ◌&&◌, ◌||◌, ◌≡◌, refl, sym,
  ap, ◌∙◌, Mem, here, there, arith,
}
use django_zed_rebac.Formulas.Defs.{
  Formula, always, never, leaf, all_terms, any_term, Terms, end, term,
}
use django_zed_rebac.Formulas.Joining.{Completion, truth, truth_all, truth_any}
use django_zed_rebac.Formulas.Combining.{
  Junction, conjunction, disjunction, list_of, terms_of, children, join_terms,
}

unfoldable pub meet : Junction → Bool → Bool → Bool
meet conjunction a b = a && b
meet disjunction a b = a || b

unfoldable pub neutral : Junction → Bool
neutral conjunction = true
neutral disjunction = false

pub meet_id_right : (j : Junction) (a : Bool) → meet j a (neutral j) ≡ a
unfolding meet neutral
meet_id_right conjunction a = ground arith
meet_id_right disjunction a = ground arith

pub meet_id_left : (j : Junction) (a : Bool) → meet j (neutral j) a ≡ a
unfolding meet neutral
meet_id_left conjunction a = refl
meet_id_left disjunction a = refl

pub meet_assoc : (j : Junction) (a b c : Bool) → meet j (meet j a b) c ≡ meet j a (meet j b c)
unfolding meet
meet_assoc conjunction a b c = ground arith
meet_assoc disjunction a b c = ground arith

meet_absorbs : (j : Junction) (a b : Bool) → meet j (meet j a b) a ≡ meet j a b
unfolding meet
meet_absorbs conjunction a b = ground arith
meet_absorbs disjunction a b = ground arith

module _ {V : Type 0} (key : Text → List (Text × Option V) → Text) (c : Completion)
    (j : Junction) where
  -- The truth value of formulas together.
  unfoldable pub value_of : List (Formula V) → Bool
  unfolding meet neutral truth
  value_of [] = neutral j
  value_of (f ∷ fs) = meet j (truth key c f) (value_of fs)

  pub value_of-append :
      (fs gs : List (Formula V)) → value_of (fs ++ gs) ≡ meet j (value_of fs) (value_of gs)
  unfolding value_of
  value_of-append [] gs = sym (meet_id_left j (value_of gs))
  value_of-append (f ∷ fs) gs =
      ap (meet j (truth key c f)) (value_of-append fs gs)
      ∙ sym (meet_assoc j (truth key c f) (value_of fs) (value_of gs))

  pub value_of-one : (f : Formula V) → value_of (f ∷ []) ≡ truth key c f
  unfolding value_of
  value_of-one f = meet_id_right j (truth key c f)

  -- A formula that is among the others adds nothing.
  pub absorbed :
      (f : Formula V) (fs : List (Formula V))
      → Mem f fs
      → meet j (value_of fs) (truth key c f) ≡ value_of fs
  unfolding value_of
  absorbed f [] m = elim m [ ]
  absorbed f (g ∷ fs) (here e) =
      ap (λ x. meet j (meet j (truth key c g) (value_of fs)) (truth key c x)) e
      ∙ meet_absorbs j (truth key c g) (value_of fs)
  absorbed f (g ∷ fs) (there m) =
      meet_assoc j (truth key c g) (value_of fs) (truth key c f)
      ∙ ap (meet j (truth key c g)) (absorbed f fs m)

module _ {V : Type 0} (key : Text → List (Text × Option V) → Text) (c : Completion) where
  list_of-all : (fs : Terms V) → value_of key c conjunction (list_of fs) ≡ truth_all key c fs
  unfolding value_of list_of truth meet neutral
  list_of-all end = refl
  list_of-all (term f fs) = ap (λ x. truth key c f && x) (list_of-all fs)

  list_of-any : (fs : Terms V) → value_of key c disjunction (list_of fs) ≡ truth_any key c fs
  unfolding value_of list_of truth meet neutral
  list_of-any end = refl
  list_of-any (term f fs) = ap (λ x. truth key c f || x) (list_of-any fs)

  list_of-terms_of : (fs : List (Formula V)) → list_of (terms_of fs) ≡ fs
  unfolding list_of terms_of
  list_of-terms_of [] = refl
  list_of-terms_of (f ∷ fs) = ap (λ x. f ∷ x) (list_of-terms_of fs)

  pub children-value :
      (j : Junction) (f : Formula V) → value_of key c j (children j f) ≡ truth key c f
  unfolding children truth
  children-value conjunction (all_terms fs) = list_of-all fs
  children-value disjunction (any_term fs) = list_of-any fs
  children-value conjunction always = value_of-one key c conjunction always
  children-value conjunction never = value_of-one key c conjunction never
  children-value conjunction (leaf n p) = value_of-one key c conjunction (leaf n p)
  children-value conjunction (any_term fs) = value_of-one key c conjunction (any_term fs)
  children-value disjunction always = value_of-one key c disjunction always
  children-value disjunction never = value_of-one key c disjunction never
  children-value disjunction (leaf n p) = value_of-one key c disjunction (leaf n p)
  children-value disjunction (all_terms fs) = value_of-one key c disjunction (all_terms fs)

  pub join_terms-value :
      (j : Junction) (fs : List (Formula V)) → truth key c (join_terms j fs) ≡ value_of key c j fs
  unfolding join_terms value_of truth neutral
  join_terms-value conjunction [] = refl
  join_terms-value disjunction [] = refl
  join_terms-value conjunction (f ∷ []) = sym (value_of-one key c conjunction f)
  join_terms-value disjunction (f ∷ []) = sym (value_of-one key c disjunction f)
  join_terms-value conjunction (f ∷ (g ∷ fs)) =
      sym (list_of-all (terms_of (f ∷ (g ∷ fs))))
      ∙ ap (value_of key c conjunction) (list_of-terms_of (f ∷ (g ∷ fs)))
  join_terms-value disjunction (f ∷ (g ∷ fs)) =
      sym (list_of-any (terms_of (f ∷ (g ∷ fs))))
      ∙ ap (value_of key c disjunction) (list_of-terms_of (f ∷ (g ∷ fs)))
