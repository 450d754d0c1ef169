-- ===== src/Prelude/Counting.antt =====
-- How much of a finite list a search has not seen: the measure of a walk that marks what it visits.
use Prim.Native.Nat.{ℕ, suc, ◌≤◌, ◌<◌}
use mathlib.Core.Path.{◌≡◌}
use mathlib.Core.Bool.{false}
use mathlib.Core.List.{List, [], ◌∷◌}
use native.Mathlib.Omega.{arith}
use django_zed_rebac.Prelude.Tests.{Eq, ==_refl, if◌then◌else◌}
use django_zed_rebac.Prelude.Lists.{length, contains, Mem, here, there}

module _ {ℓ} {A : Type ℓ} ⦃e : Eq A⦄ where
  pub unseen : List A → List A → ℕ
  unseen seen [] = 0
  unseen seen (x ∷ xs) = if contains seen x then unseen seen xs else suc (unseen seen xs)

  pub unseen-le-length : (seen xs : List A) → unseen seen xs ≤ length xs
  unfolding unseen
  unseen-le-length seen [] = omega arith
  unseen-le-length seen (x ∷ xs) = ground (arith, unseen-le-length seen xs)

  unseen-cons_le : (seen : List A) (a : A) (xs : List A) → unseen (a ∷ seen) xs ≤ unseen seen xs
  unfolding unseen contains
  unseen-cons_le seen a [] = omega arith
  unseen-cons_le seen a (x ∷ xs) = ground (arith, unseen-cons_le seen a xs)

  -- To mark a member that was not marked lowers the count.
  pub unseen-cons_lt :
      (seen : List A) (a : A) (xs : List A)
      → Mem a xs
      → contains seen a ≡ false
      → unseen (a ∷ seen) xs < unseen seen xs
  unfolding unseen contains
  unseen-cons_lt seen a [] m h = elim m [ ]
  unseen-cons_lt seen a (x ∷ xs) (here p) h =
      rw (← p, ==_refl a, h) (ground (arith, unseen-cons_le seen a xs))
  unseen-cons_lt seen a (x ∷ xs) (there m) h = ground (arith, unseen-cons_lt seen a xs m h)
