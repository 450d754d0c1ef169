-- ===== src/Caveats/Declared.antt =====
-- The declared names of a caveat and those that are absent: src/rebac/caveats.py.
use django_zed_rebac.Prelude.{
  Text, List, [], ◌∷◌, ◌≡◌, ◌↔◌, ◌⊎◌, inl, inr, nat_eq, list_eq, sym, ◌∙◌, Mem, here, there,
  ==_cases,
}
use django_zed_rebac.Schema.{Caveat, CaveatParam}
use django_zed_rebac.Caveats.Defs.{put_type, declare, declared}

-- The names of the caveat's parameters.
unfoldable pub names : List CaveatParam → List Text
names [] = []
names (p ∷ ps) = p.name ∷ names ps

unfoldable pub keys : List (Text × Text) → List Text
keys [] = []
keys ((n, t) ∷ d) = n ∷ keys d

Mem-put_type :
    (n k t : Text) (d : List (Text × Text))
    → Mem n (keys (put_type k t d)) ↔ (n ≡ k) ⊎ Mem n (keys d)
unfolding put_type keys
Mem-put_type n k t [] = (
  λ m. elim m [ here p ↦ inl p | there q ↦ inr q ],
  λ m. elim m [ inl p ↦ here p | inr q ↦ there q ],
)
Mem-put_type n k t ((x, s) ∷ d) = elim (==_cases k x) [
  | inl (e, p) ↦
      rw (put_type, e)
        (
          λ m. elim m [ here q ↦ inl (q ∙ sym p) | there q ↦ inr (there q) ],
          λ m. elim m [
            | inl q ↦ here (q ∙ p)
            | inr q ↦ elim q [ here r ↦ here r | there r ↦ there r ]
          ],
        )
  | inr e ↦
      let ih = Mem-put_type n k t d in
      rw (put_type, e)
        (
          λ m. elim m [
            | here q ↦ inr (here q)
            | there q ↦ elim (ih.0 q) [ inl r ↦ inl r | inr r ↦ inr (there r) ]
          ],
          λ m. elim m [
            | inl q ↦ there (ih.1 (inl q))
            | inr q ↦ elim q [ here r ↦ here r | there r ↦ there (ih.1 (inr r)) ]
          ],
        )
]

Mem-declare :
    (n : Text) (ps : List CaveatParam) (d : List (Text × Text))
    → Mem n (keys (declare ps d)) ↔ Mem n (names ps) ⊎ Mem n (keys d)
unfolding declare names
Mem-declare n [] d = (λ m. inr m, λ m. elim m [ inl x ↦ elim x [ ] | inr q ↦ q ])
Mem-declare n (p ∷ ps) d =
    let ih = Mem-declare n ps (put_type p.name p.type d) in
    let one = Mem-put_type n p.name p.type d in
    (
      (λ m. elim (ih.0 m) [
        | inl q ↦ inl (there q)
        | inr q ↦ elim (one.0 q) [ inl r ↦ inl (here r) | inr r ↦ inr r ]
      ]),
      (λ m. elim m [
        | inl q ↦ elim q [ here r ↦ ih.1 (inr (one.1 (inl r))) | there r ↦ ih.1 (inl r) ]
        | inr q ↦ ih.1 (inr (one.1 (inr q)))
      ]),
    )

pub Mem-declared : (n : Text) (c : Caveat) → Mem n (keys (declared c)) ↔ Mem n (names c.params)
unfolding declared keys
Mem-declared n c =
    let both = Mem-declare n c.params [] in
    (λ m. elim (both.0 m) [ inl q ↦ q | inr q ↦ elim q [ ] ], λ m. both.1 (inl m))
