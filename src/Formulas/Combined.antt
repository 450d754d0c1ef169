-- ===== src/Formulas/Combined.antt =====
-- `_combine` keeps the meaning: src/rebac/compile/formulas.py.
use django_zed_rebac.Prelude.{
  Text, Bool, true, false, Option, List, [], ◌∷◌, ◌++◌, nat_eq, list_eq, contains, ◌⊎◌, inl, inr,
  ◌≡◌, refl, sym, ap, ◌∙◌, subst, Mem, here, there, Mem-append_left, Mem-append_right,
  Mem-append_split, ==_cases, Bool-cases, arith,
}
use django_zed_rebac.Formulas.Defs.{Formula, always, never, leaf, all_terms, any_term}
use django_zed_rebac.Formulas.Joining.{Completion, truth}
use django_zed_rebac.Formulas.Combining.{
  Junction, conjunction, disjunction, children, add_children, combine_terms, joined_or_returned,
  combine_formulas,
}
use django_zed_rebac.Formulas.Absorbing.{
  meet, neutral, meet_id_right, meet_id_left, meet_assoc, value_of, value_of-append, value_of-one,
  absorbed, children-value, join_terms-value,
}

-- The children of all formulas, which are the terms that are compared.
unfoldable pub parts : {V : Type 0} → Junction → List (Formula V) → List (Formula V)
parts j [] = []
parts j (f ∷ fs) = children j f ++ parts j fs

module _ {V : Type 0} (key : Text → List (Text × Option V) → Text) (c : Completion)
    (label : Formula V → Text) (j : Junction) (all : List (Formula V)) where
  -- Terms with one label are equal.
  abbrev pub Labels : Type 0
  Labels = (f g : Formula V) → Mem f all → Mem g all → label f ≡ label g → f ≡ g

  record IsSeen (terms : List (Formula V)) (seen : List Text) : Type 0 where
    covers : (k : Text) → contains seen k ≡ true → (t : Formula V) × Mem t terms × (label t ≡ k)
    inside : (t : Formula V) → Mem t terms → Mem t all

  IsSeen-more :
      (f : Formula V) (terms : List (Formula V)) (seen : List Text)
      → Mem f all
      → IsSeen terms seen
      → IsSeen (terms ++ (f ∷ [])) (label f ∷ seen)
  unfolding contains
  IsSeen-more f terms seen m s = record {
    covers = λ k h. elim (==_cases k (label f)) [
      | inl (e, p) ↦ (f, Mem-append_right terms (here refl), sym p)
      | inr e ↦
          let old = s.covers k (sym (rw e refl) ∙ h) in
          (old.0, Mem-append_left (f ∷ []) old.1, old.2)
    ];
    inside = λ t m'. elim (Mem-append_split terms m') [
      | inl x ↦ s.inside t x
      | inr x ↦ elim x [ here e ↦ subst (λ y. Mem y all) (sym e) m | there y ↦ elim y [ ] ]
    ];
  }

  abbrev Adds : List (Formula V) → List (Formula V) → List (Formula V) × List Text → Type 0
  Adds fs terms r =
      (value_of key c j r.0 ≡ meet j (value_of key c j terms) (value_of key c j fs))
      × IsSeen r.0 r.1

  add_children-value :
      (fs terms : List (Formula V)) (seen : List Text)
      → Labels
      → ((f : Formula V) → Mem f fs → Mem f all)
      → IsSeen terms seen
      → Adds fs terms (add_children label fs terms seen)
  unfolding add_children value_of
  add_children-value [] terms seen l i s = (sym (meet_id_right j (value_of key c j terms)), s)
  add_children-value (f ∷ fs) terms seen l i s = elim (Bool-cases (contains seen (label f))) [
    | inl e ↦
        let (t, m, p) = s.covers (label f) e in
        let same : t ≡ f = l t f (s.inside t m) (i f (here refl)) p in
        let rest = add_children-value fs terms seen l (λ g n. i g (there n)) s in
        rw (add_children, e)
          (
            rest.0
                ∙ (ap (λ x. meet j x (value_of key c j fs))
                      (sym (absorbed key c j f terms (subst (λ x. Mem x terms) same m)))
                    ∙ meet_assoc j (value_of key c j terms) (truth key c f) (value_of key c j fs)),
            rest.1,
          )
    | inr e ↦
        let rest =
          add_children-value fs (terms ++ (f ∷ [])) (label f ∷ seen) l (λ g n. i g (there n))
            (IsSeen-more f terms seen (i f (here refl)) s) in
        rw (add_children, e)
          (
            rest.0
                ∙ (ap (λ x. meet j x (value_of key c j fs))
                      (value_of-append key c j terms (f ∷ [])
                        ∙ ap (meet j (value_of key c j terms)) (value_of-one key c j f))
                    ∙ meet_assoc j (value_of key c j terms) (truth key c f) (value_of key c j fs)),
            rest.1,
          )
  ]

-- The truth value of what the loop gives.
unfoldable value_given :
    {V : Type 0}
    → (Text → List (Text × Option V) → Text)
    → Completion
    → Junction
    → Formula V ⊎ List (Formula V)
    → Bool
value_given key c j (inl f) = truth key c f
value_given key c j (inr fs) = value_of key c j fs

module _ {V : Type 0} (key : Text → List (Text × Option V) → Text) (c : Completion)
    (label : Formula V → Text) (all : List (Formula V)) where
  abbrev Together : Junction → List (Formula V) → List (Formula V) → List Text → Type 0
  Together j fs terms seen =
      value_given key c j (combine_terms label j fs terms seen)
      ≡ meet j (value_of key c j terms) (value_of key c j fs)

  abbrev Within : Junction → List (Formula V) → Type 0
  Within j fs = (f : Formula V) → Mem f (parts j fs) → Mem f all

  later : (j : Junction) (f : Formula V) (fs : List (Formula V)) → Within j (f ∷ fs) → Within j fs
  unfolding parts
  later j f fs i = λ g m. i g (Mem-append_right (children j f) m)

  -- The step of a formula that is not a constant.
  step-value :
      (j : Junction) (f : Formula V) (fs terms : List (Formula V)) (seen : List Text)
      → Labels key c label j all
      → Within j (f ∷ fs)
      → IsSeen key c label j all terms seen
      → ((ts : List (Formula V)) (ks : List Text)
          → IsSeen key c label j all ts ks
          → Together j fs ts ks)
      → (let added = add_children label (children j f) terms seen in
          value_given key c j (combine_terms label j fs added.0 added.1)
          ≡ meet j (value_of key c j terms) (value_of key c j (f ∷ fs)))
  unfolding parts value_of
  step-value j f fs terms seen l i s ih =
      let added =
        add_children-value key c label j all (children j f) terms seen l
          (λ g m. i g (Mem-append_left (parts j fs) m)) s in
      ih (add_children label (children j f) terms seen).0
        (add_children label (children j f) terms seen).1 added.1
      ∙ (ap (λ x. meet j x (value_of key c j fs))
            (added.0 ∙ ap (meet j (value_of key c j terms)) (children-value key c j f))
          ∙ meet_assoc j (value_of key c j terms) (truth key c f) (value_of key c j fs))

  combine_terms-value :
      (j : Junction) (fs terms : List (Formula V)) (seen : List Text)
      → Labels key c label j all
      → Within j fs
      → IsSeen key c label j all terms seen
      → Together j fs terms seen
  unfolding combine_terms value_given value_of parts meet truth neutral
  combine_terms-value j [] terms seen l i s = sym (meet_id_right j (value_of key c j terms))
  combine_terms-value disjunction (always ∷ fs) terms seen l i s = ground arith
  combine_terms-value conjunction (never ∷ fs) terms seen l i s = ground arith
  combine_terms-value conjunction (always ∷ fs) terms seen l i s =
      combine_terms-value conjunction fs terms seen l (later conjunction always fs i) s
  combine_terms-value disjunction (never ∷ fs) terms seen l i s =
      combine_terms-value disjunction fs terms seen l (later disjunction never fs i) s
  combine_terms-value conjunction (leaf n p ∷ fs) terms seen l i s =
      step-value conjunction (leaf n p) fs terms seen l i s (λ ts ks x.
        combine_terms-value conjunction fs ts ks l (later conjunction (leaf n p) fs i) x)
  combine_terms-value disjunction (leaf n p ∷ fs) terms seen l i s =
      step-value disjunction (leaf n p) fs terms seen l i s (λ ts ks x.
        combine_terms-value disjunction fs ts ks l (later disjunction (leaf n p) fs i) x)
  combine_terms-value conjunction (all_terms gs ∷ fs) terms seen l i s =
      step-value conjunction (all_terms gs) fs terms seen l i s (λ ts ks x.
        combine_terms-value conjunction fs ts ks l (later conjunction (all_terms gs) fs i) x)
  combine_terms-value disjunction (all_terms gs ∷ fs) terms seen l i s =
      step-value disjunction (all_terms gs) fs terms seen l i s (λ ts ks x.
        combine_terms-value disjunction fs ts ks l (later disjunction (all_terms gs) fs i) x)
  combine_terms-value conjunction (any_term gs ∷ fs) terms seen l i s =
      step-value conjunction (any_term gs) fs terms seen l i s (λ ts ks x.
        combine_terms-value conjunction fs ts ks l (later conjunction (any_term gs) fs i) x)
  combine_terms-value disjunction (any_term gs ∷ fs) terms seen l i s =
      step-value disjunction (any_term gs) fs terms seen l i s (λ ts ks x.
        combine_terms-value disjunction fs ts ks l (later disjunction (any_term gs) fs i) x)

joined_or_returned-value :
    {V : Type 0} (key : Text → List (Text × Option V) → Text) (c : Completion)
    (label : Formula V → Text) (j : Junction) (r : Formula V ⊎ List (Formula V))
    → truth key c (joined_or_returned label j r) ≡ value_given key c j r
unfolding joined_or_returned value_given
joined_or_returned-value key c label j (inl f) = refl
joined_or_returned-value key c label j (inr fs) = join_terms-value key c j fs

-- Where terms that are joined have one label only when they are equal, the combined formula has, for
-- every completion, the value that the formulas have together.
pub combine_formulas-value_of :
    {V : Type 0} (key : Text → List (Text × Option V) → Text) (c : Completion)
    (label : Formula V → Text) (j : Junction) (fs : List (Formula V))
    → Labels key c label j (parts j fs)
    → truth key c (combine_formulas label j fs) ≡ value_of key c j fs
unfolding combine_formulas value_of
combine_formulas-value_of key c label j fs l =
    joined_or_returned-value key c label j (combine_terms label j fs [] [])
    ∙ (combine_terms-value key c label (parts j fs) j fs [] [] l (λ f m. m)
          (record { covers = λ k h. absurd (false-ne-true h); inside = λ t m. elim m [ ] })
        ∙ meet_id_left j (value_of key c j fs))
  where
    false-ne-true : Path Bool false true → ⊥
    false-ne-true h = cc
