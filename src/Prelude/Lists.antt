-- ===== src/Prelude/Lists.antt =====
-- Lists over the native numbers, membership tests and predicates by recursion.
use Prim.Native.Nat.{ℕ, zero, suc, ◌+◌}
use mathlib.Core.Path.{◌≡◌}
use mathlib.Core.Logic.{◌⊎◌, inl, inr}
use mathlib.Core.Bool.{Bool, true, false, ◌||◌}
use mathlib.Core.List.{List, [], ◌∷◌, ◌++◌}
use mathlib.Core.Option.{Option, none, some}
use native.Mathlib.Omega.{arith}
use django_zed_rebac.Prelude.Tests.{Eq, ◌==◌, ==_iff, ==_cases, if◌then◌else◌}

module _ {ℓ} {A : Type ℓ} where
  abbrev pub length : List A → ℕ
  length [] = 0
  length (x ∷ xs) = suc (length xs)

  abbrev pub get_elem? : List A → ℕ → Option A
  get_elem? [] i = none
  get_elem? (x ∷ xs) zero = some x
  get_elem? (x ∷ xs) (suc i) = get_elem? xs i

  pub length-append : (xs ys : List A) → length (xs ++ ys) ≡ length xs + length ys
  length-append [] ys = omega arith
  length-append (x ∷ xs) ys = omega (arith, length-append xs ys)

  -- `next((x for x in xs if p(x)), None)`, and the loops that return the first hit.
  unfoldable pub find_first : (A → Bool) → List A → Option A
  find_first p [] = none
  find_first p (x ∷ xs) = if p x then some x else find_first p xs

  unfoldable pub any_of : (A → Bool) → List A → Bool
  any_of p [] = false
  any_of p (x ∷ xs) = p x || any_of p xs

  abbrev pub All {κ} : (A → Type κ) → List A → Type κ
  All P [] = Unit
  All P (x ∷ xs) = P x × All P xs

  -- Membership as a family.
  pub data Mem (a : A) : List A → Type ℓ where
    here : {x : A} {xs : List A} → a ≡ x → Mem a (x ∷ xs)
    there : {x : A} {xs : List A} → Mem a xs → Mem a (x ∷ xs)

  pub Mem-append_left : {a : A} {xs : List A} (ys : List A) → Mem a xs → Mem a (xs ++ ys)
  Mem-append_left ys (here e) = here e
  Mem-append_left ys (there m) = there (Mem-append_left ys m)

  pub Mem-append_right : {a : A} (xs : List A) {ys : List A} → Mem a ys → Mem a (xs ++ ys)
  Mem-append_right [] m = m
  Mem-append_right (x ∷ xs) m = there (Mem-append_right xs m)

  pub Mem-append_split :
      {a : A} (xs : List A) {ys : List A} → Mem a (xs ++ ys) → Mem a xs ⊎ Mem a ys
  Mem-append_split [] m = inr m
  Mem-append_split (x ∷ xs) (here e) = inl (here e)
  Mem-append_split (x ∷ xs) (there m) = elim (Mem-append_split xs m) [
    | inl l ↦ inl (there l)
    | inr r ↦ inr r
  ]

module _ {ℓ} {A : Type ℓ} ⦃e : Eq A⦄ where
  -- `x in xs`.
  unfoldable pub contains : List A → A → Bool
  contains [] a = false
  contains (x ∷ xs) a = a == x || contains xs a

  pub contains→Mem : (xs : List A) (a : A) → contains xs a ≡ true → Mem a xs
  unfolding contains
  contains→Mem [] a h = cc
  contains→Mem (x ∷ xs) a h = elim (==_cases a x) [
    | inl p ↦ here p.1
    | inr n ↦ there (contains→Mem xs a (rw n at h))
  ]

  pub Mem→contains : {a : A} (xs : List A) → Mem a xs → contains xs a ≡ true
  unfolding contains
  Mem→contains [] m = elim m [ ]
  Mem→contains {a} (x ∷ xs) (here p) = ground (arith, ==_iff a x)
  Mem→contains {a} (x ∷ xs) (there m) = ground (arith, Mem→contains xs m)
