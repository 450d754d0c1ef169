-- ===== src/Formulas/Minimal.antt =====
-- Some path of `open_paths` is not longer than needed: `decide` of src/rebac/compile/formulas.py.
use django_zed_rebac.Prelude.{
  Text, true, false, List, [], ◌∷◌, ◌≡◌, inl, inr, refl, sym, ap, ◌∙◌, nat_eq, list_eq, any_of, map,
  Mem, here, there, contains→Mem, Mem→contains, Bool-cases, arith, is_empty,
}
use django_zed_rebac.Formulas.Defs.{Open, subset, proper, needed}

abbrev pub atoms_of : Open → List Text
atoms_of p = map (λ (x : Text × List Text). x.0) p

subset-Mem : (p q : Open) (k : Text) → subset p q ≡ true → Mem k (atoms_of p) → Mem k (atoms_of q)
unfolding subset
subset-Mem [] q k h m = elim m [ ]
subset-Mem ((j, n) ∷ p) q k h (here e) = contains→Mem (atoms_of q) k (ground (arith, e))
subset-Mem ((j, n) ∷ p) q k h (there m) = subset-Mem p q k (ground arith) m

Mem-subset :
    (p q : Open) → ((k : Text) → Mem k (atoms_of p) → Mem k (atoms_of q)) → subset p q ≡ true
unfolding subset
Mem-subset [] q h = refl
Mem-subset ((j, n) ∷ p) q h =
    rw (Mem→contains (atoms_of q) (h j (here refl)), Mem-subset p q (λ k m. h k (there m))) refl

subset_trans : (p q r : Open) → subset p q ≡ true → subset q r ≡ true → subset p r ≡ true
subset_trans p q r h k = Mem-subset p r (λ x m. subset-Mem q r x k (subset-Mem p q x h m))

proper_irrefl : (p : Open) → proper p p ≡ true → ⊥
unfolding proper
proper_irrefl p h = ground arith

proper_trans : (p q r : Open) → proper p q ≡ true → proper q r ≡ true → proper p r ≡ true
unfolding proper
proper_trans p q r h k = elim (Bool-cases (subset r p)) [
  | inl b ↦ absurd (ground (arith, subset_trans r p q b (ground arith)))
  | inr b ↦ ground (arith, subset_trans p q r (ground arith) (ground arith))
]

-- No path of the list is a proper part of the path.
abbrev IsMinimal : List Open → Open → Type 0
IsMinimal ps m = (q : Open) → Mem q ps → proper q m ≡ false

proper-false : (p : Open) → proper p p ≡ false
proper-false p = elim (Bool-cases (proper p p)) [ inl b ↦ absurd (proper_irrefl p b) | inr b ↦ b ]

IsMinimal-of : (p : Open) (ps : List Open) → (m : Open) × Mem m (p ∷ ps) × IsMinimal (p ∷ ps) m
IsMinimal-of p [] =
    (p, here refl, λ q h. elim h [ here e ↦ rw e (proper-false p) | there x ↦ elim x [ ] ])
IsMinimal-of p (r ∷ ps) =
    let best = IsMinimal-of r ps in
    elim (Bool-cases (proper p best.0)) [
      | inl b ↦ (
        p,
        here refl,
        λ q h. elim h [
          | here e ↦ rw e (proper-false p)
          | there x ↦ elim (Bool-cases (proper q p)) [
            | inl d ↦ absurd (ground (arith, best.2 q x, proper_trans q p best.0 d b))
            | inr d ↦ d
          ]
        ],
      )
      | inr b ↦ (best.0, there best.1, λ q h. elim h [ here e ↦ rw e b | there x ↦ best.2 q x ])
    ]

any-proper :
    (ps : List Open) (m : Open) → IsMinimal ps m → any_of (λ other. proper other m) ps ≡ false
unfolding any_of
any-proper [] m h = refl
any-proper (p ∷ ps) m h = ground (arith, h p (here refl), any-proper ps m (λ q x. h q (there x)))

needed-Mem :
    (ps all : List Open) (m : Open) → IsMinimal all m → Mem m ps → is_empty (needed all ps) ≡ false
unfolding needed
needed-Mem [] all m h x = elim x [ ]
needed-Mem (p ∷ ps) all m h (here e) =
    rw (needed, sym (ap (λ y. any_of (λ other. proper other y) all) e) ∙ any-proper all m h) refl
needed-Mem (p ∷ ps) all m h (there x) = elim (Bool-cases (any_of (λ other. proper other p) all)) [
  | inl b ↦ rw (needed, b) (needed-Mem ps all m h x)
  | inr b ↦ rw (needed, b) refl
]

-- What is left of open paths that are not none is not nothing.
pub needed-ne-nil : (p : Open) (ps : List Open) → is_empty (needed (p ∷ ps) (p ∷ ps)) ≡ false
needed-ne-nil p ps =
    let best = IsMinimal-of p ps in needed-Mem (p ∷ ps) (p ∷ ps) best.0 best.2 best.1
