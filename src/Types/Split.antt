-- ===== src/Types/Split.antt =====
-- `s.split(sep, 1)` on a text that contains `sep`: the two sides of its first occurrence.
use django_zed_rebac.Prelude.{
  ℕ, Text, true, false, [], ◌∷◌, ◌++◌, if◌then◌else◌, ◌≡◌, refl, contains, nat_eq, ◌==◌, arith,
  ==_refl,
}

unfoldable pub split_once : ℕ → Text → Text × Text
split_once sep [] = ([], [])
split_once sep (c ∷ s) =
    let rest = split_once sep s in if c == sep then ([], s) else (c ∷ rest.0, rest.1)

abbrev pub joined : ℕ → Text × Text → Text
joined sep p = p.0 ++ sep ∷ p.1

-- A text is the join of its two sides.
pub joined-split_once :
    (sep : ℕ) (s : Text) → contains s sep ≡ true → joined sep (split_once sep s) ≡ s
unfolding split_once contains
joined-split_once sep [] h = ground arith
joined-split_once sep (c ∷ s) h = ground (arith, joined-split_once sep s)

-- What stands left of a separator is found again if it does not hold the separator itself.
pub split_once-joined :
    (sep : ℕ) (l r : Text) → contains l sep ≡ false → split_once sep (l ++ sep ∷ r) ≡ (l, r)
unfolding split_once contains
split_once-joined sep [] r h = ground (arith, ==_refl sep)
split_once-joined sep (c ∷ l) r h = ground (arith, split_once-joined sep l r)

pub contains-joined : (sep : ℕ) (l r : Text) → contains (l ++ sep ∷ r) sep ≡ true
unfolding contains
contains-joined sep [] r = ground (arith, ==_refl sep)
contains-joined sep (c ∷ l) r = ground (arith, contains-joined sep l r)

-- Left of the first separator there is none.
pub contains-split_once : (sep : ℕ) (s : Text) → contains (split_once sep s).0 sep ≡ false
unfolding split_once contains
contains-split_once sep [] = refl
contains-split_once sep (c ∷ s) = ground (arith, contains-split_once sep s)

pub contains-append :
    (sep : ℕ) (l r : Text)
    → contains l sep ≡ false
    → contains r sep ≡ false
    → contains (l ++ r) sep ≡ false
unfolding contains
contains-append sep [] r h k = k
contains-append sep (c ∷ l) r h k = ground (arith, contains-append sep l r)
