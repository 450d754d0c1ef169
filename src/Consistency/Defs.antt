-- ===== src/Consistency/Defs.antt =====
-- src/rebac/consistency.py. The context variable is a value that is passed along. Python's `int` of
-- a token is a parameter; `none` is its ValueError.
use django_zed_rebac.Prelude.{
  ℕ, Text, Bool, true, false, Option, none, some, List, [], ◌∷◌, if◌then◌else◌, ◌==◌, nat_eq,
  list_eq, ltb,
}
use django_zed_rebac.Types.{Zookie}

-- The value of `_current_zookie`: no scope, or a scope with the token recorded so far.
pub data Slot : Type 0 where
  no_scope : Slot
  scope : Option Zookie → Slot

unfoldable pub current_zookie : Slot → Option Zookie
current_zookie no_scope = none
current_zookie (scope z) = z

pub data ℤ : Type 0 where
  pos : ℕ → ℤ
  negsuc : ℕ → ℤ

-- `a > b`; `negsuc n` is `-(n + 1)`.
unfoldable pub greater : ℤ → ℤ → Bool
greater (pos a) (pos b) = ltb b a
greater (pos a) (negsuc b) = true
greater (negsuc a) (pos b) = false
greater (negsuc a) (negsuc b) = ltb a b

-- The previous token stays when both are numbers and it is the larger.
unfoldable pub keeps : (Text → Option ℤ) → Zookie → Zookie → Bool
unfolding greater
keeps int previous zookie =
    if previous.backend == zookie.backend
    then elim (int previous.token) [
      | none ↦ false
      | some p ↦ elim (int zookie.token) [ none ↦ false | some n ↦ greater p n ]
    ]
    else false

unfoldable pub record_zookie : (Text → Option ℤ) → Option Zookie → Slot → Slot
unfolding keeps
record_zookie int none slot = slot
record_zookie int (some z) no_scope = no_scope
record_zookie int (some z) (scope none) = scope (some z)
record_zookie int (some z) (scope (some previous)) =
    if keeps int previous z then scope (some previous) else scope (some z)

-- The records of a run of writes.
unfoldable pub record_all : (Text → Option ℤ) → List (Option Zookie) → Slot → Slot
unfolding record_zookie
record_all int [] slot = slot
record_all int (z ∷ zs) slot = record_all int zs (record_zookie int z slot)

-- `zookie_scope` around a block: a fresh slot, and the old one after it.
unfoldable pub zookie_scope {ℓ} : {A : Type ℓ} → Option Zookie → (Slot → A × Slot) → Slot → A × Slot
zookie_scope initial body slot = let (a, inner) = body (scope initial) in (a, slot)

pub data Consistency : Type 0 where
  minimize_latency at_least_as_fresh at_exact_snapshot fully_consistent : Consistency

unfoldable pub effective_consistency :
    Option Consistency → Option Zookie → Slot → Option Consistency × Option Zookie
unfolding current_zookie
effective_consistency (some c) z slot = (some c, z)
effective_consistency none (some z) slot = (none, some z)
effective_consistency none none slot = elim (current_zookie slot) [
  | none ↦ (none, none)
  | some z ↦ (some at_least_as_fresh, some z)
]
