-- ===== src/Prelude/Sorting.antt =====
-- `sorted` on texts: insertion by the order of code points.
use mathlib.Core.Path.{◌≡◌}
use mathlib.Core.Logic.{◌↔◌, ◌⊎◌, inl, inr}
use mathlib.Core.Bool.{Bool, true, false, ◌&&◌, ◌||◌}
use mathlib.Core.List.{List, [], ◌∷◌}
use django_zed_rebac.Prelude.Tests.{nat_eq, ltb, ◌==◌, if◌then◌else◌, Bool-cases}
use django_zed_rebac.Prelude.Lists.{Mem, here, there}
use django_zed_rebac.Prelude.Texts.{Text}

unfoldable pub text_leb : Text → Text → Bool
text_leb [] t = true
text_leb (c ∷ s) [] = false
text_leb (c ∷ s) (d ∷ t) = ltb c d || (c == d && text_leb s t)

unfoldable pub insert_text : Text → List Text → List Text
unfolding text_leb
insert_text t [] = t ∷ []
insert_text t (x ∷ xs) = if text_leb t x then t ∷ x ∷ xs else x ∷ insert_text t xs

unfoldable pub sort_texts : List Text → List Text
unfolding insert_text
sort_texts [] = []
sort_texts (x ∷ xs) = insert_text x (sort_texts xs)

Mem-insert_text : (a t : Text) (xs : List Text) → Mem a (insert_text t xs) ↔ ((a ≡ t) ⊎ Mem a xs)
unfolding insert_text
Mem-insert_text a t [] = (
  λ m. elim m [ here p ↦ inl p | there n ↦ inr n ],
  λ m. elim m [ inl p ↦ here p | inr n ↦ there n ],
)
Mem-insert_text a t (x ∷ xs) = elim (Bool-cases (text_leb t x)) [
  | inl e ↦
      rw (insert_text, e)
        (
          λ m. elim m [ here p ↦ inl p | there n ↦ inr n ],
          λ m. elim m [ inl p ↦ here p | inr n ↦ there n ],
        )
  | inr e ↦
      let ih = Mem-insert_text a t xs in
      rw (insert_text, e)
        (
          λ m. elim m [
            | here p ↦ inr (here p)
            | there n ↦ elim (ih.0 n) [ inl p ↦ inl p | inr q ↦ inr (there q) ]
          ],
          λ m. elim m [
            | inl p ↦ there (ih.1 (inl p))
            | inr n ↦ elim n [ here p ↦ here p | there q ↦ there (ih.1 (inr q)) ]
          ],
        )
]

-- Sorting keeps the elements.
pub Mem-sort_texts : (a : Text) (xs : List Text) → Mem a (sort_texts xs) ↔ Mem a xs
unfolding sort_texts
Mem-sort_texts a [] = (λ m. m, λ m. m)
Mem-sort_texts a (x ∷ xs) =
    let part = Mem-insert_text a x (sort_texts xs) in
    let ih = Mem-sort_texts a xs in
    (
      (λ m. elim (part.0 m) [ inl p ↦ here p | inr n ↦ there (ih.0 n) ]),
      (λ m. elim m [ here p ↦ part.1 (inl p) | there n ↦ part.1 (inr (ih.1 n)) ]),
    )
