-- ===== src/Composition/Order.antt =====
-- The sorting of override rows of src/rebac/composition.py.
use django_zed_rebac.Prelude.{
  Bool, List, [], ◌∷◌, nat_eq, ◌&&◌, ◌||◌, ◌≡◌, refl, arith, any_of, ◌∙◌,
}
use django_zed_rebac.Composition.Defs.{Override, Change, insert, sorted, rows_of}

any_of-insert :
    (p : Override → Bool) (r : Override) (rs : List Override)
    → any_of p (insert r rs) ≡ (p r || any_of p rs)
unfolding insert any_of
any_of-insert p r [] = refl
any_of-insert p r (x ∷ xs) = ground (arith, any_of-insert p r xs)

-- A test of any row does not see the order.
pub any_of-sorted : (p : Override → Bool) (rs : List Override) → any_of p (sorted rs) ≡ any_of p rs
unfolding sorted any_of
any_of-sorted p [] = refl
any_of-sorted p (r ∷ rs) = any_of-insert p r (sorted rs) ∙ ground (arith, any_of-sorted p rs)

pub any_of-rows_of :
    (p : Override → Bool) (k : Change → Bool) (rs : List Override)
    → any_of p (rows_of k rs) ≡ any_of (λ r. k r.kind && p r) rs
unfolding rows_of any_of
any_of-rows_of p k [] = refl
any_of-rows_of p k (r ∷ rs) = ground (arith, any_of-rows_of p k rs)
