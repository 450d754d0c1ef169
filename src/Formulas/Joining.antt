-- ===== src/Formulas/Joining.antt =====
-- Alternatives and their joins: `Evaluation.paths` of src/rebac/compile/formulas.py.
use django_zed_rebac.Prelude.{
  Text, Bool, true, false, Option, none, some, List, [], ◌∷◌, ◌++◌, ◌&&◌, ◌||◌, ◌≡◌, ◌≢◌, inl, inr,
  refl, nat_eq, list_eq, All, Option-cases, arith,
}
use django_zed_rebac.Formulas.Defs.{
  Formula, always, never, leaf, all_terms, any_term, Terms, end, term, Found, Atoms, find_atom,
  join, cross,
}

-- What completes the verdicts: a truth value for each atom.
abbrev pub Completion : Type 0
Completion = Text → Bool

unfoldable pub every : Completion → List Text → Bool
every c [] = true
every c (k ∷ p) = c k && every c p

unfoldable pub any_path : Completion → List (List Text) → Bool
unfolding every
any_path c [] = false
any_path c (p ∷ ps) = every c p || any_path c ps

-- The truth value of a formula from those of its leaves.
module _ {V : Type 0} (key : Text → List (Text × Option V) → Text) (c : Completion) where
  unfoldable mutual
    pub truth : Formula V → Bool
    truth always = true
    truth never = false
    truth (leaf n pinned) = c (key n pinned)
    truth (all_terms fs) = truth_all fs
    truth (any_term fs) = truth_any fs

    pub truth_all : Terms V → Bool
    truth_all end = true
    truth_all (term f fs) = truth f && truth_all fs

    pub truth_any : Terms V → Bool
    truth_any end = false
    truth_any (term f fs) = truth f || truth_any fs

every-append : (c : Completion) (p q : List Text) → every c (p ++ q) ≡ (every c p && every c q)
unfolding every
every-append c [] q = refl
every-append c (k ∷ p) q = ground (arith, every-append c p q)

pub any_path-append :
    (c : Completion) (ps qs : List (List Text))
    → any_path c (ps ++ qs) ≡ (any_path c ps || any_path c qs)
unfolding any_path
any_path-append c [] qs = refl
any_path-append c (p ∷ ps) qs = ground (arith, any_path-append c ps qs)

pub any_path-join :
    (c : Completion) (p : List Text) (qs : List (List Text))
    → any_path c (join p qs) ≡ (every c p && any_path c qs)
unfolding any_path join
any_path-join c p [] = ground arith
any_path-join c p (q ∷ qs) = ground (arith, any_path-join c p qs, every-append c p q)

pub any_path-cross :
    (c : Completion) (ps qs : List (List Text))
    → any_path c (cross ps qs) ≡ (any_path c ps && any_path c qs)
unfolding any_path cross
any_path-cross c [] qs = refl
any_path-cross c (p ∷ ps) qs = ground (
  arith,
  any_path-append c (join p qs) (cross ps qs),
  any_path-join c p qs,
  any_path-cross c ps qs,
)

-- Every atom of the paths has a verdict.
abbrev pub Known : Atoms → List Text → Type 0
Known a p = All (λ k. find_atom a k ≢ none) p

abbrev pub AllKnown : Atoms → List (List Text) → Type 0
AllKnown a ps = All (Known a) ps

abbrev pub Kept : Atoms → Atoms → Type 0
Kept a b = (k : Text) (v : Found) → find_atom a k ≡ some v → find_atom b k ≡ some v

pub Known-Kept : (a b : Atoms) (p : List Text) → Kept a b → Known a p → Known b p
Known-Kept a b [] h r = r
Known-Kept a b (k ∷ p) h (x, r) = (
  elim (Option-cases (find_atom a k)) [
    | inl e ↦ absurd (x e)
    | inr (v, e) ↦ λ n. absurd (ground (arith, h k v e))
  ],
  Known-Kept a b p h r,
)

pub AllKnown-Kept : (a b : Atoms) (ps : List (List Text)) → Kept a b → AllKnown a ps → AllKnown b ps
AllKnown-Kept a b [] h r = r
AllKnown-Kept a b (p ∷ ps) h (x, r) = (Known-Kept a b p h x, AllKnown-Kept a b ps h r)

pub Known-append : (a : Atoms) (p q : List Text) → Known a p → Known a q → Known a (p ++ q)
Known-append a [] q x y = y
Known-append a (k ∷ p) q (h, x) y = (h, Known-append a p q x y)

pub AllKnown-append :
    (a : Atoms) (ps qs : List (List Text)) → AllKnown a ps → AllKnown a qs → AllKnown a (ps ++ qs)
AllKnown-append a [] qs x y = y
AllKnown-append a (p ∷ ps) qs (h, x) y = (h, AllKnown-append a ps qs x y)

pub AllKnown-join :
    (a : Atoms) (p : List Text) (qs : List (List Text))
    → Known a p
    → AllKnown a qs
    → AllKnown a (join p qs)
unfolding join
AllKnown-join a p [] h x = x
AllKnown-join a p (q ∷ qs) h (y, x) = (Known-append a p q h y, AllKnown-join a p qs h x)

pub AllKnown-cross :
    (a : Atoms) (ps qs : List (List Text))
    → AllKnown a ps
    → AllKnown a qs
    → AllKnown a (cross ps qs)
unfolding cross
AllKnown-cross a [] qs x y = x
AllKnown-cross a (p ∷ ps) qs (h, x) y =
    AllKnown-append a (join p qs) (cross ps qs) (AllKnown-join a p qs h y)
      (AllKnown-cross a ps qs x y)
