-- ===== src/Formulas/Bounds.antt =====
-- The number of the paths of a formula and their length: `size` and `Evaluation.paths` of
-- src/rebac/compile/formulas.py.
use django_zed_rebac.Prelude.{
  ℕ, suc, ◌≤◌, ◌+◌, ◌*◌, Text, Option, none, some, List, [], ◌∷◌, ◌++◌, ◌≡◌, ◌⊎◌, inl, inr, refl,
  subst, ap, ◌∙◌, nat_eq, list_eq, All, length, length-append, arith,
}
use mathlib.Core.Sum.{inl-injective, inr-ne-inl}
use django_zed_rebac.Schema.{Schema}
use django_zed_rebac.Parser.{Unicode}
use django_zed_rebac.Caveats.{Cel, Failure}
use django_zed_rebac.Formulas.Defs.{
  Formula, always, never, leaf, all_terms, any_term, Terms, end, term, size, size_terms, Found,
  Atoms, find_atom, join, cross, Paths, use_atom, add_first, either_paths, both_paths, check_leaf,
  paths, paths_any, paths_all,
}

abbrev pub AllWithin : ℕ → List (List Text) → Type 0
AllWithin n ps = All (λ p. length p ≤ n) ps

AllWithin-le : (n m : ℕ) (ps : List (List Text)) → n ≤ m → AllWithin n ps → AllWithin m ps
AllWithin-le n m [] h x = tt
AllWithin-le n m (p ∷ ps) h (l, x) = (omega arith, AllWithin-le n m ps h x)

AllWithin-append :
    (n : ℕ) (ps qs : List (List Text)) → AllWithin n ps → AllWithin n qs → AllWithin n (ps ++ qs)
AllWithin-append n [] qs x y = y
AllWithin-append n (p ∷ ps) qs (h, x) y = (h, AllWithin-append n ps qs x y)

AllWithin-join :
    (n m : ℕ) (p : List Text) (qs : List (List Text))
    → length p ≤ n
    → AllWithin m qs
    → AllWithin (n + m) (join p qs)
unfolding join
AllWithin-join n m p [] h x = tt
AllWithin-join n m p (q ∷ qs) h (y, x) =
    (omega (arith, length-append p q), AllWithin-join n m p qs h x)

AllWithin-cross :
    (n m : ℕ) (ps qs : List (List Text))
    → AllWithin n ps
    → AllWithin m qs
    → AllWithin (n + m) (cross ps qs)
unfolding cross
AllWithin-cross n m [] qs x y = tt
AllWithin-cross n m (p ∷ ps) qs (h, x) y =
    AllWithin-append (n + m) (join p qs) (cross ps qs) (AllWithin-join n m p qs h y)
      (AllWithin-cross n m ps qs x y)

-- The paths that come with a result are not longer than the number.
abbrev Within : ℕ → Paths → Type 0
Within n r = (x : List (List Text) × Atoms) → r ≡ inl x → AllWithin n x.0

Within-inl : (n : ℕ) (x : List (List Text) × Atoms) → AllWithin n x.0 → Within n (inl x)
Within-inl n x h y e = subst (λ z. AllWithin n z.0) (inl-injective _ _ e) h

use_atom-Within :
    (a : Atoms) (k : Text) (o : Option Found) (r : Found ⊎ Failure) → Within 1 (use_atom k a o r)
unfolding use_atom
use_atom-Within a k (some v) r = Within-inl 1 _ (omega arith, tt)
use_atom-Within a k none (inl v) = Within-inl 1 _ (omega arith, tt)
use_atom-Within a k none (inr f) = λ x h. absurd (inr-ne-inl {b = f} h)

add_first-Within :
    (n : ℕ) (g : List (List Text) → List (List Text)) (m : ℕ) (r : Paths)
    → ((ps : List (List Text)) → AllWithin m ps → AllWithin n (g ps))
    → Within m r
    → Within n (add_first g r)
unfolding add_first
add_first-Within n g m (inl y) h w = Within-inl n _ (h y.0 (w y refl))
add_first-Within n g m (inr e) h w = λ x k. absurd (inr-ne-inl {b = e} k)

either_paths-Within :
    (n m : ℕ) (first : Paths) (rest : Atoms → Paths)
    → Within n first
    → ((b : Atoms) → Within m (rest b))
    → Within (n + m) (either_paths first rest)
unfolding either_paths
either_paths-Within n m (inr e) rest w v = λ x k. absurd (inr-ne-inl {b = e} k)
either_paths-Within n m (inl y) rest w v =
    add_first-Within (n + m) (λ ps. y.0 ++ ps) m (rest y.1)
      (λ ps h.
        AllWithin-append (n + m) y.0 ps (AllWithin-le n (n + m) y.0 (omega arith) (w y refl))
          (AllWithin-le m (n + m) ps (omega arith) h))
      (v y.1)

both_paths-Within :
    (n m : ℕ) (first : Paths) (rest : Atoms → Paths)
    → Within n first
    → ((b : Atoms) → Within m (rest b))
    → Within (n + m) (both_paths first rest)
unfolding both_paths
both_paths-Within n m (inr e) rest w v = λ x k. absurd (inr-ne-inl {b = e} k)
both_paths-Within n m (inl y) rest w v =
    add_first-Within (n + m) (λ ps. cross y.0 ps) m (rest y.1)
      (λ ps h. AllWithin-cross n m y.0 ps (w y refl) h) (v y.1)

-- How many ways there are to choose a term of each alternative, whatever the verdicts.
unfoldable mutual
  pub count : {V : Type 0} → Formula V → ℕ
  count always = 1
  count never = 0
  count (leaf n c) = 1
  count (any_term fs) = count_any fs
  count (all_terms fs) = count_all fs

  count_any : {V : Type 0} → Terms V → ℕ
  count_any end = 0
  count_any (term f fs) = count f + count_any fs

  count_all : {V : Type 0} → Terms V → ℕ
  count_all end = 1
  count_all (term f fs) = count f * count_all fs

length-join : (p : List Text) (qs : List (List Text)) → length (join p qs) ≡ length qs
unfolding join
length-join p [] = refl
length-join p (q ∷ qs) = ap suc (length-join p qs)

length-cross : (ps qs : List (List Text)) → length (cross ps qs) ≡ length ps * length qs
unfolding cross
length-cross [] qs = omega arith
length-cross (p ∷ ps) qs =
    length-append (join p qs) (cross ps qs)
    ∙ rw (length-join p qs, length-cross ps qs) (omega arith)

-- The paths that come with a result are of this number.
abbrev Counts : ℕ → Paths → Type 0
Counts n r = (x : List (List Text) × Atoms) → r ≡ inl x → length x.0 ≡ n

Counts-inl : (n : ℕ) (x : List (List Text) × Atoms) → length x.0 ≡ n → Counts n (inl x)
Counts-inl n x h y e = subst (λ z. length z.0 ≡ n) (inl-injective _ _ e) h

use_atom-Counts :
    (a : Atoms) (k : Text) (o : Option Found) (r : Found ⊎ Failure) → Counts 1 (use_atom k a o r)
unfolding use_atom
use_atom-Counts a k (some v) r = Counts-inl 1 _ refl
use_atom-Counts a k none (inl v) = Counts-inl 1 _ refl
use_atom-Counts a k none (inr f) = λ x h. absurd (inr-ne-inl {b = f} h)

add_first-Counts :
    (n : ℕ) (g : List (List Text) → List (List Text)) (m : ℕ) (r : Paths)
    → ((ps : List (List Text)) → length ps ≡ m → length (g ps) ≡ n)
    → Counts m r
    → Counts n (add_first g r)
unfolding add_first
add_first-Counts n g m (inl y) h w = Counts-inl n _ (h y.0 (w y refl))
add_first-Counts n g m (inr e) h w = λ x k. absurd (inr-ne-inl {b = e} k)

either_paths-Counts :
    (n m : ℕ) (first : Paths) (rest : Atoms → Paths)
    → Counts n first
    → ((b : Atoms) → Counts m (rest b))
    → Counts (n + m) (either_paths first rest)
unfolding either_paths
either_paths-Counts n m (inr e) rest w v = λ x k. absurd (inr-ne-inl {b = e} k)
either_paths-Counts n m (inl y) rest w v =
    add_first-Counts (n + m) (λ ps. y.0 ++ ps) m (rest y.1)
      (λ ps h. omega (arith, length-append y.0 ps, w y refl, h)) (v y.1)

both_paths-Counts :
    (n m : ℕ) (first : Paths) (rest : Atoms → Paths)
    → Counts n first
    → ((b : Atoms) → Counts m (rest b))
    → Counts (n * m) (both_paths first rest)
unfolding both_paths
both_paths-Counts n m (inr e) rest w v = λ x k. absurd (inr-ne-inl {b = e} k)
both_paths-Counts n m (inl y) rest w v =
    add_first-Counts (n * m) (λ ps. cross y.0 ps) m (rest y.1)
      (λ ps h. length-cross y.0 ps ∙ rw (w y refl, h) refl) (v y.1)

module _ {V : Type 0} (u : Unicode) (cel : Cel V) (key : Text → List (Text × Option V) → Text)
    (s : Schema) (context : List (Text × Option V)) where
  mutual
    unfolding paths size

    paths-Within : (f : Formula V) (a : Atoms) → Within (size f) (paths u cel key s context f a)
    paths-Within always a = Within-inl 0 _ (omega arith, tt)
    paths-Within never a = Within-inl 0 _ tt
    paths-Within (leaf n pinned) a =
        use_atom-Within a (key n pinned) (find_atom a (key n pinned))
          (check_leaf u cel key s context n pinned)
    paths-Within (any_term fs) a = paths_any-Within fs a
    paths-Within (all_terms fs) a = paths_all-Within fs a

    paths_any-Within :
        (fs : Terms V) (a : Atoms) → Within (size_terms fs) (paths_any u cel key s context fs a)
    paths_any-Within end a = Within-inl 0 _ tt
    paths_any-Within (term f fs) a =
        either_paths-Within (size f) (size_terms fs) (paths u cel key s context f a)
          (λ b. paths_any u cel key s context fs b) (paths-Within f a) (λ b. paths_any-Within fs b)

    paths_all-Within :
        (fs : Terms V) (a : Atoms) → Within (size_terms fs) (paths_all u cel key s context fs a)
    paths_all-Within end a = Within-inl 0 _ (omega arith, tt)
    paths_all-Within (term f fs) a =
        both_paths-Within (size f) (size_terms fs) (paths u cel key s context f a)
          (λ b. paths_all u cel key s context fs b) (paths-Within f a) (λ b. paths_all-Within fs b)

  mutual
    unfolding paths count

    paths-Counts : (f : Formula V) (a : Atoms) → Counts (count f) (paths u cel key s context f a)
    paths-Counts always a = Counts-inl 1 _ refl
    paths-Counts never a = Counts-inl 0 _ refl
    paths-Counts (leaf n pinned) a =
        use_atom-Counts a (key n pinned) (find_atom a (key n pinned))
          (check_leaf u cel key s context n pinned)
    paths-Counts (any_term fs) a = paths_any-Counts fs a
    paths-Counts (all_terms fs) a = paths_all-Counts fs a

    paths_any-Counts :
        (fs : Terms V) (a : Atoms) → Counts (count_any fs) (paths_any u cel key s context fs a)
    paths_any-Counts end a = Counts-inl 0 _ refl
    paths_any-Counts (term f fs) a =
        either_paths-Counts (count f) (count_any fs) (paths u cel key s context f a)
          (λ b. paths_any u cel key s context fs b) (paths-Counts f a) (λ b. paths_any-Counts fs b)

    paths_all-Counts :
        (fs : Terms V) (a : Atoms) → Counts (count_all fs) (paths_all u cel key s context fs a)
    paths_all-Counts end a = Counts-inl 1 _ refl
    paths_all-Counts (term f fs) a =
        both_paths-Counts (count f) (count_all fs) (paths u cel key s context f a)
          (λ b. paths_all u cel key s context fs b) (paths-Counts f a) (λ b. paths_all-Counts fs b)

  -- Where the paths of a formula are found, they are as many as there are ways to choose one term
  -- of each alternative of it: the sum over the terms of an alternative, the product over those of
  -- a conjunction, one for a leaf. None of them has more atoms than the formula has leaves.
  pub paths-le-size :
      (f : Formula V) (a : Atoms) (x : List (List Text) × Atoms)
      → paths u cel key s context f a ≡ inl x
      → (length x.0 ≡ count f) × AllWithin (size f) x.0
  paths-le-size f a x h = (paths-Counts f a x h, paths-Within f a x h)
