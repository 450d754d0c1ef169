-- ===== src/Formulas/Paths.antt =====
-- What the paths of a formula say of it: `Evaluation.paths` of src/rebac/compile/formulas.py.
use django_zed_rebac.Prelude.{
  Text, Bool, true, false, Option, none, some, List, [], ◌∷◌, ◌++◌, ◌&&◌, ◌||◌, ◌≡◌, ◌⊎◌, inl, inr,
  refl, sym, ◌∙◌, nat_eq, list_eq, ==_cases, ==_refl, subst, arith,
}
use mathlib.Core.Sum.{inl-injective, inr-ne-inl}
use django_zed_rebac.Schema.{Schema}
use django_zed_rebac.Parser.{Unicode}
use django_zed_rebac.Caveats.{Cel, Failure}
use django_zed_rebac.Formulas.Defs.{
  Formula, always, never, leaf, all_terms, any_term, Terms, end, term, Found, Atoms, find_atom,
  cross, Paths, use_atom, add_first, either_paths, both_paths, check_leaf, paths, paths_any,
  paths_all,
}
use django_zed_rebac.Formulas.Joining.{
  Completion, every, any_path, any_path-append, any_path-cross, AllKnown, Kept, AllKnown-Kept,
  AllKnown-append, AllKnown-cross, truth, truth_all, truth_any,
}

-- What a walk that began with the verdicts `a` gives for the truth function `t`.
pub record Walked (a : Atoms) (t : Completion → Bool) (x : List (List Text) × Atoms) : Type 0 where
  pub kept : Kept a x.1
  pub known : AllKnown x.1 x.0
  pub same : (c : Completion) → any_path c x.0 ≡ t c

Walked-or :
    (a : Atoms) (t r : Completion → Bool) (x y : List (List Text) × Atoms)
    → Walked a t x
    → Walked x.1 r y
    → Walked a (λ c. t c || r c) (x.0 ++ y.0, y.1)
Walked-or a t r x y v w = record {
  kept = λ k f e. w.kept k f (v.kept k f e);
  known = AllKnown-append y.1 x.0 y.0 (AllKnown-Kept x.1 y.1 x.0 w.kept v.known) w.known;
  same = λ c. any_path-append c x.0 y.0 ∙ rw (v.same c, w.same c) refl;
}

Walked-and :
    (a : Atoms) (t r : Completion → Bool) (x y : List (List Text) × Atoms)
    → Walked a t x
    → Walked x.1 r y
    → Walked a (λ c. t c && r c) (cross x.0 y.0, y.1)
Walked-and a t r x y v w = record {
  kept = λ k f e. w.kept k f (v.kept k f e);
  known = AllKnown-cross y.1 x.0 y.0 (AllKnown-Kept x.1 y.1 x.0 w.kept v.known) w.known;
  same = λ c. any_path-cross c x.0 y.0 ∙ rw (v.same c, w.same c) refl;
}

atom-same : (c : Completion) (k : Text) → any_path c ((k ∷ []) ∷ []) ≡ c k
unfolding any_path every
atom-same c k = ground arith

Walked-old :
    (a : Atoms) (k : Text) (v : Found)
    → find_atom a k ≡ some v
    → Walked a (λ c. c k) ((k ∷ []) ∷ [], a)
Walked-old a k v e = record {
  kept = λ _ _ h. h;
  known = ((λ h. absurd cc, tt), tt);
  same = λ c. atom-same c k;
}

find-added : (a : Atoms) (k : Text) (v : Found) → find_atom ((k, v) ∷ a) k ≡ some v
unfolding find_atom
find-added a k v = rw (find_atom, ==_refl k) refl

Kept-added : (a : Atoms) (k : Text) (v : Found) → find_atom a k ≡ none → Kept a ((k, v) ∷ a)
unfolding find_atom
Kept-added a k v e j w h = elim (==_cases j k) [
  | inl (b, p) ↦ absurd cc
  | inr b ↦ rw (find_atom, b) h
]

Walked-new :
    (a : Atoms) (k : Text) (v : Found)
    → find_atom a k ≡ none
    → Walked a (λ c. c k) ((k ∷ []) ∷ [], (k, v) ∷ a)
Walked-new a k v e = record {
  kept = Kept-added a k v e;
  known = ((λ h. absurd (ground (arith, find-added a k v)), tt), tt);
  same = λ c. atom-same c k;
}

Walked-true : (a : Atoms) → Walked a (λ c. true) ([] ∷ [], a)
unfolding any_path every
Walked-true a = record { kept = λ _ _ e. e; known = (tt, tt); same = λ c. refl }

Walked-false : (a : Atoms) → Walked a (λ c. false) ([], a)
unfolding any_path
Walked-false a = record { kept = λ _ _ e. e; known = tt; same = λ c. refl }

use_atom-Walked :
    (a : Atoms) (k : Text) (o : Option Found) (r : Found ⊎ Failure) (x : List (List Text) × Atoms)
    → find_atom a k ≡ o
    → use_atom k a o r ≡ inl x
    → Walked a (λ c. c k) x
unfolding use_atom
use_atom-Walked a k (some v) r x e h =
    subst (Walked a (λ c. c k)) (inl-injective _ _ h) (Walked-old a k v e)
use_atom-Walked a k none (inl v) x e h =
    subst (Walked a (λ c. c k)) (inl-injective _ _ h) (Walked-new a k v e)
use_atom-Walked a k none (inr f) x e h = absurd cc

pub Sum-cases {ℓ κ} :
    {A : Type ℓ} {B : Type κ} (s : A ⊎ B) → ((a : A) × (s ≡ inl a)) ⊎ ((b : B) × (s ≡ inr b))
Sum-cases (inl a) = inl (a, refl)
Sum-cases (inr b) = inr (b, refl)

module _ (a : Atoms) (t r : Completion → Bool) (first : Paths) (rest : Atoms → Paths)
    (x : List (List Text) × Atoms) where
  abbrev Goes : Paths → (Completion → Bool) → Atoms → Type 0
  Goes p f b = (y : List (List Text) × Atoms) → p ≡ inl y → Walked b f y

  either_paths-Walked :
      Goes first t a
      → ((b : Atoms) → Goes (rest b) r b)
      → either_paths first rest ≡ inl x
      → Walked a (λ c. t c || r c) x
  unfolding either_paths add_first
  either_paths-Walked g k h = elim (Sum-cases first) [
    | inr (e, p) ↦ absurd (inr-ne-inl {b = e} (sym (rw (either_paths, p) refl) ∙ h))
    | inl (y, p) ↦ elim (Sum-cases (rest y.1)) [
      | inr (e, q) ↦ absurd (inr-ne-inl {b = e} (sym (rw (either_paths, p, add_first, q) refl) ∙ h))
      | inl (z, q) ↦
          subst (Walked a (λ c. t c || r c))
            (inl-injective _ _ (sym (rw (either_paths, p, add_first, q) refl) ∙ h))
            (Walked-or a t r y z (g y p) (k y.1 z q))
    ]
  ]

  both_paths-Walked :
      Goes first t a
      → ((b : Atoms) → Goes (rest b) r b)
      → both_paths first rest ≡ inl x
      → Walked a (λ c. t c && r c) x
  unfolding both_paths add_first
  both_paths-Walked g k h = elim (Sum-cases first) [
    | inr (e, p) ↦ absurd (inr-ne-inl {b = e} (sym (rw (both_paths, p) refl) ∙ h))
    | inl (y, p) ↦ elim (Sum-cases (rest y.1)) [
      | inr (e, q) ↦ absurd (inr-ne-inl {b = e} (sym (rw (both_paths, p, add_first, q) refl) ∙ h))
      | inl (z, q) ↦
          subst (Walked a (λ c. t c && r c))
            (inl-injective _ _ (sym (rw (both_paths, p, add_first, q) refl) ∙ h))
            (Walked-and a t r y z (g y p) (k y.1 z q))
    ]
  ]

module _ {V : Type 0} (u : Unicode) (cel : Cel V) (key : Text → List (Text × Option V) → Text)
    (s : Schema) (context : List (Text × Option V)) where
  mutual
    unfolding paths truth

    -- The paths of a formula hold together for the completions that make it true, and the walk
    -- keeps the verdicts that it found and gives one to each atom.
    pub paths-Walked :
        (f : Formula V) (a : Atoms) (x : List (List Text) × Atoms)
        → paths u cel key s context f a ≡ inl x
        → Walked a (λ c. truth key c f) x
    paths-Walked always a x h = subst (Walked a (λ c. true)) (inl-injective _ _ h) (Walked-true a)
    paths-Walked never a x h = subst (Walked a (λ c. false)) (inl-injective _ _ h) (Walked-false a)
    paths-Walked (leaf n pinned) a x h =
        use_atom-Walked a (key n pinned) (find_atom a (key n pinned))
          (check_leaf u cel key s context n pinned) x refl h
    paths-Walked (any_term fs) a x h = paths_any-Walked fs a x h
    paths-Walked (all_terms fs) a x h = paths_all-Walked fs a x h

    paths_any-Walked :
        (fs : Terms V) (a : Atoms) (x : List (List Text) × Atoms)
        → paths_any u cel key s context fs a ≡ inl x
        → Walked a (λ c. truth_any key c fs) x
    paths_any-Walked end a x h =
        subst (Walked a (λ c. false)) (inl-injective _ _ h) (Walked-false a)
    paths_any-Walked (term f fs) a x h =
        either_paths-Walked a (λ c. truth key c f) (λ c. truth_any key c fs)
          (paths u cel key s context f a) (λ b. paths_any u cel key s context fs b) x
          (λ y p. paths-Walked f a y p) (λ b y p. paths_any-Walked fs b y p) h

    paths_all-Walked :
        (fs : Terms V) (a : Atoms) (x : List (List Text) × Atoms)
        → paths_all u cel key s context fs a ≡ inl x
        → Walked a (λ c. truth_all key c fs) x
    paths_all-Walked end a x h = subst (Walked a (λ c. true)) (inl-injective _ _ h) (Walked-true a)
    paths_all-Walked (term f fs) a x h =
        both_paths-Walked a (λ c. truth key c f) (λ c. truth_all key c fs)
          (paths u cel key s context f a) (λ b. paths_all u cel key s context fs b) x
          (λ y p. paths-Walked f a y p) (λ b y p. paths_all-Walked fs b y p) h
