-- ===== src/Parser/Outcome.antt =====
-- The outcome of a parser run: src/rebac/schema/parser.py. `parse_error` is a raised ParseError
-- `index_error` the IndexError of a read behind the
-- last token and `assertion_error` a failed assert of the tokenizer; `out_of_fuel` has no
-- counterpart in the program.
use django_zed_rebac.Prelude.{◌≡◌, refl, ◌≢◌, Bool, true, false, if◌then◌else◌, subst}

pub data Result {ℓ} (A : Type ℓ) : Type ℓ where
  ok : A → Result A
  parse_error index_error assertion_error out_of_fuel : Result A

abbrev pub bind {ℓ κ} : {A : Type ℓ} {B : Type κ} → Result A → (A → Result B) → Result B
bind (ok a) f = f a
bind parse_error f = parse_error
bind index_error f = index_error
bind assertion_error f = assertion_error
bind out_of_fuel f = out_of_fuel

-- The run kept within its fuel, and what it returned, if it returned, satisfies `P`.
pub data Yields {ℓ} {A : Type ℓ} (P : A → Type 0) : Result A → Type ℓ where
  returns : {a : A} → P a → Yields P (ok a)
  fails : Yields P parse_error
  overruns : Yields P index_error
  asserts : Yields P assertion_error

module _ {ℓ} {A : Type ℓ} {P : A → Type 0} where
  pub Yields-ok : {r : Result A} {a : A} → Yields P r → r ≡ ok a → P a
  Yields-ok (returns h) e = subst P (cc) h
  Yields-ok fails e = cc
  Yields-ok overruns e = cc
  Yields-ok asserts e = cc

  pub Yields-ne-out_of_fuel : {r : Result A} → Yields P r → r ≢ out_of_fuel
  Yields-ne-out_of_fuel (returns h) = cc
  Yields-ne-out_of_fuel fails = cc
  Yields-ne-out_of_fuel overruns = cc
  Yields-ne-out_of_fuel asserts = cc

  pub Yields-map : {Q : A → Type 0} {r : Result A} → ((a : A) → P a → Q a) → Yields P r → Yields Q r
  Yields-map g (returns h) = returns (g _ h)
  Yields-map g fails = fails
  Yields-map g overruns = overruns
  Yields-map g asserts = asserts

  pub Yields-bind {κ} :
      {B : Type κ} {Q : B → Type 0} {r : Result A} {f : A → Result B}
      → Yields P r
      → ((a : A) → P a → Yields Q (f a))
      → Yields Q (bind r f)
  Yields-bind (returns {a} h) g = g a h
  Yields-bind fails g = fails
  Yields-bind overruns g = overruns
  Yields-bind asserts g = asserts

  pub Yields-if :
      (b : Bool) {x y : Result A}
      → (b ≡ true → Yields P x)
      → (b ≡ false → Yields P y)
      → Yields P (if b then x else y)
  Yields-if true h k = h refl
  Yields-if false h k = k refl
