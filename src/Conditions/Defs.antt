-- ===== src/Conditions/Defs.antt =====
-- `CaveatVerdicts` of src/rebac/compile/conditions.py: the loop over the rows that the query of
-- `prepare` selects, and `condition_q` as a test of a row.
use django_zed_rebac.Prelude.{
  Text, Bool, true, false, Option, none, some, List, [], ◌∷◌, is_empty, nat_eq, list_eq, contains,
  not, ◌||◌, if◌then◌else◌, ◌⊎◌, inl, inr,
}
use django_zed_rebac.Schema.{Schema}
use django_zed_rebac.Parser.{Unicode}
use django_zed_rebac.Caveats.{Cel, Failure}
use django_zed_rebac.Formulas.{leaf, Found, evaluate_formula}

pub record ConditionRow (V : Type 0) : Type 0 where
  pub caveat_name : Text
  pub caveat_context : List (Text × Option V)
  pub caveat_key : Text

pub record CaveatVerdicts : Type 0 where
  pub true_keys : List Text
  pub false_keys : List Text
  pub unknown : List (Text × List Text)

abbrev pub no_verdicts : CaveatVerdicts
no_verdicts = record { true_keys = []; false_keys = []; unknown = [] }

unfoldable pub add_key : Text → Found → CaveatVerdicts → CaveatVerdicts
add_key k x v = elim x.verdict [
  | some true ↦ record {
    true_keys = k ∷ v.true_keys;
    false_keys = v.false_keys;
    unknown = v.unknown;
  }
  | some false ↦ record {
    true_keys = v.true_keys;
    false_keys = k ∷ v.false_keys;
    unknown = v.unknown;
  }
  | none ↦ record {
    true_keys = v.true_keys;
    false_keys = v.false_keys;
    unknown = (k, x.needs) ∷ v.unknown;
  }
]

unfoldable pub found_or_error : Option Found ⊎ Failure → Option Found
found_or_error (inl x) = x
found_or_error (inr f) = none

module _ {V : Type 0} (u : Unicode) (cel : Cel V) (key : Text → List (Text × Option V) → Text)
    (s : Schema) (context : List (Text × Option V)) where
  -- none is an exception.
  unfoldable pub row_verdict : ConditionRow V → Option Found
  unfolding evaluate_formula found_or_error
  row_verdict r =
      found_or_error (evaluate_formula u cel key s context (leaf r.caveat_name r.caveat_context))

  -- The loop of `prepare`, with `seen`.
  unfoldable pub prepare_rows :
      List (ConditionRow V) → List Text → CaveatVerdicts → Option CaveatVerdicts
  unfolding contains row_verdict add_key
  prepare_rows [] seen v = some v
  prepare_rows (r ∷ rs) seen v = elim (is_empty r.caveat_key || contains seen r.caveat_key) [
    | true ↦ prepare_rows rs seen v
    | false ↦ elim (row_verdict r) [
      | none ↦ none
      | some x ↦ prepare_rows rs (r.caveat_key ∷ seen) (add_key r.caveat_key x v)
    ]
  ]

unfoldable pub is_empty_verdicts : CaveatVerdicts → Bool
is_empty_verdicts v =
    not (not (is_empty v.true_keys) || (not (is_empty v.false_keys) || not (is_empty v.unknown)))

-- `condition_q`, of a row.
unfoldable pub lower_allows : {V : Type 0} → CaveatVerdicts → ConditionRow V → Bool
unfolding contains
lower_allows v r =
    if is_empty v.true_keys
    then is_empty r.caveat_name
    else is_empty r.caveat_name || contains v.true_keys r.caveat_key

unfoldable pub upper_allows : {V : Type 0} → CaveatVerdicts → ConditionRow V → Bool
unfolding contains
upper_allows v r = if is_empty v.false_keys then true else not (contains v.false_keys r.caveat_key)
