-- ===== src/Consistency/Latest.antt =====
-- A scope keeps the largest token that its writes recorded: src/rebac/consistency.py.
use django_zed_rebac.Prelude.{
  ℕ, Text, true, false, Option, none, some, List, [], ◌∷◌, ◌==◌, nat_eq, list_eq, ltb, All, ◌≡◌,
  refl, arith, Bool-cases, inl, inr, ==_iff, ==_cases, Option-cases, ◌∙◌, ◌≤◌,
}
use django_zed_rebac.Types.{Zookie}
use django_zed_rebac.Consistency.Defs.{
  Slot, no_scope, scope, ℤ, pos, negsuc, greater, keeps, record_zookie, record_all,
  effective_consistency, at_least_as_fresh,
}

-- A token of the backend `b` with the value `n`.
abbrev pub IsToken : (Text → Option ℤ) → Text → Zookie → ℕ → Type 0
IsToken int b z n = (z.backend ≡ b) × (int z.token ≡ some (pos n))

-- The records of successful writes to one backend, with their values.
pub data Recorded (int : Text → Option ℤ) (b : Text) : List (Option Zookie) → List ℕ → Type 0 where
  done : Recorded int b [] []
  skip :
      {zs : List (Option Zookie)} {ns : List ℕ}
      → Recorded int b zs ns
      → Recorded int b (none ∷ zs) ns
  token :
      {z : Zookie} {n : ℕ} {zs : List (Option Zookie)} {ns : List ℕ}
      → IsToken int b z n
      → Recorded int b zs ns
      → Recorded int b (some z ∷ zs) (n ∷ ns)

record_zookie-max :
    (int : Text → Option ℤ) (b : Text) (p z : Zookie) (m n : ℕ)
    → IsToken int b p m
    → IsToken int b z n
    → (w : Zookie) × (k : ℕ) × (record_zookie int (some z) (scope (some p)) ≡ scope (some w))
      × IsToken int b w k
      × (m ≤ k)
      × (n ≤ k)
unfolding record_zookie keeps greater
record_zookie-max int b p z m n hp hz =
    let same : (p.backend == z.backend) ≡ true = ground (arith, ==_iff p.backend z.backend) in
    elim (Bool-cases (ltb n m)) [
      | inl e ↦
          let kept : keeps int p z ≡ true = rw (keeps, same, hp.1, hz.1, e) refl in
          (p, m, rw (record_zookie, kept) refl, hp, omega arith, ground arith)
      | inr e ↦
          let dropped : keeps int p z ≡ false = rw (keeps, same, hp.1, hz.1, e) refl in
          (z, n, rw (record_zookie, dropped) refl, hz, ground arith, omega arith)
    ]

record_zookie-dropped :
    (int : Text → Option ℤ) (b : Text) (p z : Zookie) (n : ℕ)
    → IsToken int b z n
    → keeps int p z ≡ false
    → (w : Zookie) × (k : ℕ) × (record_zookie int (some z) (scope (some p)) ≡ scope (some w))
      × IsToken int b w k
      × (n ≤ k)
unfolding record_zookie
record_zookie-dropped int b p z n h e = (z, n, rw (record_zookie, e) refl, h, omega arith)

-- Whatever the scope held, a token of another backend or no number among them.
record_zookie-least :
    (int : Text → Option ℤ) (b : Text) (o : Option Zookie) (z : Zookie) (n : ℕ)
    → IsToken int b z n
    → (w : Zookie) × (k : ℕ) × (record_zookie int (some z) (scope o) ≡ scope (some w))
      × IsToken int b w k
      × (n ≤ k)
unfolding record_zookie keeps greater
record_zookie-least int b none z n h = (z, n, refl, h, omega arith)
record_zookie-least int b (some p) z n h = elim (==_cases p.backend z.backend) [
  | inr e ↦ record_zookie-dropped int b p z n h (rw (keeps, e) refl)
  | inl (e, same) ↦ elim (Option-cases (int p.token)) [
    | inl f ↦ record_zookie-dropped int b p z n h (rw (keeps, e, f) refl)
    | inr (negsuc m, f) ↦ record_zookie-dropped int b p z n h (rw (keeps, e, f, h.1, greater) refl)
    | inr (pos m, f) ↦
        let (w, k, r, hw, mk, nk) = record_zookie-max int b p z m n (same ∙ h.0, f) h in
        (w, k, r, hw, nk)
  ]
]

-- What a reader of the slot gets: a token that is at least as fresh as each write.
abbrev pub IsFresh : (Text → Option ℤ) → Text → List ℕ → Slot → Type 0
IsFresh int b ns slot =
    (w : Zookie) × (k : ℕ) × (effective_consistency none none slot
      ≡ (some at_least_as_fresh, some w))
    × IsToken int b w k
    × All (λ n. n ≤ k) ns

record_all-max :
    (int : Text → Option ℤ) (b : Text) (zs : List (Option Zookie)) (ns : List ℕ) (p : Zookie)
    (m : ℕ)
    → IsToken int b p m
    → Recorded int b zs ns
    → (w : Zookie) × (k : ℕ) × (record_all int zs (scope (some p)) ≡ scope (some w))
      × IsToken int b w k
      × (m ≤ k)
      × All (λ n. n ≤ k) ns
unfolding record_all
record_all-max int b [] [] p m h done = (p, m, refl, h, omega arith, tt)
record_all-max int b [] (n ∷ ns) p m h x = elim x [ ]
record_all-max int b (some z ∷ zs) [] p m h x = elim x [ ]
record_all-max int b (none ∷ zs) ns p m h (skip r) = record_all-max int b zs ns p m h r
record_all-max int b (some z ∷ zs) (n ∷ ns) p m h (token t r) =
    let (w, k, e, hw, mk, nk) = record_zookie-max int b p z m n h t in
    let (v, j, f, hv, kj, all) = record_all-max int b zs ns w k hw r in
    (v, j, rw (record_all, e) f, hv, omega arith, (omega arith, all))

-- After writes to one backend with natural numbers for tokens, one of them at least, a read in the
-- scope with no consistency of its own asks for a token of that backend that is no older than any
-- token of these writes, whatever token of any backend, a number or not, the scope held before.
pub record_all-IsFresh :
    (int : Text → Option ℤ) (b : Text) (o : Option Zookie) (zs : List (Option Zookie)) (n : ℕ)
    (ns : List ℕ)
    → Recorded int b zs (n ∷ ns)
    → IsFresh int b (n ∷ ns) (record_all int zs (scope o))
unfolding record_all record_zookie effective_consistency
record_all-IsFresh int b o [] n ns x = elim x [ ]
record_all-IsFresh int b o (none ∷ zs) n ns (skip r) = record_all-IsFresh int b o zs n ns r
record_all-IsFresh int b o (some z ∷ zs) n ns (token t r) =
    let (p, m, f, hp, nm) = record_zookie-least int b o z n t in
    let (w, k, e, hw, mk, all) = record_all-max int b zs ns p m hp r in
    (w, k, rw (record_all, f, e) refl, hw, (omega arith, all))

-- Outside a scope no run of writes leaves a token behind.
pub record_all-no_scope :
    (int : Text → Option ℤ) (zs : List (Option Zookie)) → record_all int zs no_scope ≡ no_scope
unfolding record_all record_zookie
record_all-no_scope int [] = refl
record_all-no_scope int (none ∷ zs) = record_all-no_scope int zs
record_all-no_scope int (some z ∷ zs) = record_all-no_scope int zs
