-- ===== src/Tests/Visibility.antt =====
-- Runs and an instance for `_held_many` of src/rebac/evaluator.py.
use django_zed_rebac.Prelude.{
  ◌≡◌, refl, arith, Text, some, List, [], ◌∷◌, codes, list_beq, pair_beq, contains, sort_texts,
}
use django_zed_rebac.Evaluator.Visibility.{Visibility, held_many}
use django_zed_rebac.Evaluator.Recalling.{total}
use django_zed_rebac.Evaluator.Budget.{IsWithin, held_many-IsWithin}

abbrev held : List Text → List Text → Text → List Text
held names ids n = ids

abbrev actions : List Text
actions = codes "read" ∷ (codes "write" ∷ (codes "read" ∷ []))

abbrev ids : List Text
ids = codes "1" ∷ []

-- A call has been remembered for the action read.
abbrev one_read : Visibility
one_read = record { decisions = ((codes "s", (ids, codes "read")), ids) ∷ []; decision_ids = 1 }

-- With room for one candidate, the older decision goes.
read_is_evicted :
    (held_many 1 held (some (codes "s")) actions ids one_read).1
    ≡ record { decisions = ((codes "s", (ids, codes "write")), ids) ∷ []; decision_ids = 1 }
unfolding held_many list_beq pair_beq contains sort_texts
read_is_evicted = refl

one_read-IsWithin : IsWithin 1 one_read
unfolding total
one_read-IsWithin = record { counted = refl; few = omega arith; small = omega arith }

held_many-IsWithin_example : IsWithin 1 (held_many 1 held (some (codes "s")) actions ids one_read).1
held_many-IsWithin_example =
    held_many-IsWithin 1 held (some (codes "s")) actions ids one_read one_read-IsWithin
