-- ===== src/Tests/Caveats.antt =====
-- Runs and instances for caveats, formulas and the conditions on rows.
use django_zed_rebac.Prelude.{
  ℕ, ◌≡◌, ◌≢◌, ◌↔◌, refl, sym, ap, ◌∙◌, Text, true, false, Option, none, some, List, [], ◌∷◌, codes,
  nat_eq, list_eq, list_beq, contains, is_empty, sort_texts, length, Mem, here, there, find_first,
  leb, ◌⊎◌, inl, bool_eq,
}
use django_zed_rebac.Schema.{Caveat, Schema}
use django_zed_rebac.Parser.{Unicode}
use django_zed_rebac.Caveats.{Cel, boolean, decided, missing, evaluate, entry}
use django_zed_rebac.Caveats.Declared.{names}
use django_zed_rebac.Caveats.Inputs.{evaluate-missing, evaluate-pinned, evaluate-extended}
use django_zed_rebac.Formulas.{
  Formula, leaf, any_term, end, term, Found, Atoms, paths, decide, size,
}
use django_zed_rebac.Formulas.Joining.{truth}
use django_zed_rebac.Formulas.Deciding.{ExactVerdict, decide-ExactVerdict}
use django_zed_rebac.Formulas.Bounds.{AllWithin, count, paths-le-size}
use django_zed_rebac.Conditions.{
  ConditionRow, CaveatVerdicts, no_verdicts, prepare_rows, lower_allows, upper_allows,
}
use django_zed_rebac.Conditions.Bounds.{OwnsKey, DecidedAs, prepare_rows-lower, prepare_rows-upper}

abbrev ascii : Unicode
ascii = record { alpha = λ c. false; space = λ c. false; digit = λ c. false }

-- A CEL whose values are numbers, and whose programs ask for one variable that is at least 5.
abbrev cel : Cel ℕ
cel = record {
  Value = ℕ;
  installed = true;
  is_bool = λ v. false;
  raw = λ v. v;
  convert = λ t v. some v;
  run = λ e a. elim a [ [] ↦ boolean false | x ∷ rest ↦ boolean (leb 5 x.1) ];
}

abbrev level : Text
level = codes "level"

abbrev high : Caveat
high = record {
  name = codes "high";
  params = (record { name = level; type = codes "int" }) ∷ [];
  expression = codes "level >= 5";
}

abbrev Request : Type 0
Request = List (Text × Option ℕ)

abbrev nothing : Request
nothing = []

abbrev seven : Request
seven = (level, some 7) ∷ []

abbrev two : Request
two = (level, some 2) ∷ []

two_is_pinned : evaluate ascii cel high two seven ≡ decided false
unfolding evaluate list_beq
two_is_pinned = refl

-- Stored as None, with a value in the request.
abbrev unset : Request
unset = (level, none) ∷ []

unset_is_missing : evaluate ascii cel high unset seven ≡ missing (level ∷ [])
unfolding evaluate list_beq sort_texts
unset_is_missing = refl

evaluate-missing_example :
    ((level ∷ []) ≢ [])
    × ((n : Text)
        → Mem n (level ∷ []) ↔ (
            Mem n (names high.params)
            × ((entry n unset ≡ some none)
                ⊎ ((entry n unset ≡ none)
                    × ((entry n seven ≡ none) ⊎ (entry n seven ≡ some none))))))
evaluate-missing_example = evaluate-missing ascii cel high unset seven (level ∷ []) unset_is_missing

only_level : (n : Text) → Mem n (names high.params) → n ≡ level
unfolding names
only_level n (here p) = p
only_level n (there m) = elim m [ ]

level_is_pinned : entry level two ≢ none
unfolding entry list_beq
level_is_pinned h = cc

evaluate-pinned_example : evaluate ascii cel high two seven ≡ evaluate ascii cel high two nothing
evaluate-pinned_example =
    evaluate-pinned ascii cel high two seven nothing
      (λ n m h. absurd (level_is_pinned (ap (λ x. entry x two) (sym (only_level n m)) ∙ h)))

abbrev more : Request
more = (codes "other", some 1) ∷ seven

same_level : entry level seven ≡ entry level more
unfolding entry list_beq
same_level = refl

seven_is_high : evaluate ascii cel high nothing seven ≡ decided true
unfolding evaluate list_beq
seven_is_high = refl

decided-ne-missing : (ns : List Text) → decided true ≢ missing ns
decided-ne-missing ns h = cc

evaluate-extended_example :
    evaluate ascii cel high nothing seven ≡ evaluate ascii cel high nothing more
evaluate-extended_example =
    evaluate-extended ascii cel high nothing seven more
      (λ ns h. decided-ne-missing ns (sym seven_is_high ∙ h))
      (λ n v m h.
        ap (λ x. entry x more) (only_level n m)
        ∙ (sym same_level ∙ (ap (λ x. entry x seven) (sym (only_level n m)) ∙ h)))

abbrev pinned_key : Text → Request → Text
pinned_key n [] = n
pinned_key n (x ∷ rest) = b'1' ∷ n

abbrev schema : Schema
schema = record { definitions = []; caveats = high ∷ []; directives = []; headers = [] }

abbrev two_leaves : Formula ℕ
two_leaves = any_term (term (leaf (codes "high") two) (term (leaf (codes "high") nothing) end))

abbrev two_atoms : Atoms
two_atoms =
    (codes "high", record { verdict = none; needs = level ∷ [] })
    ∷ ((codes "1high", record { verdict = some false; needs = [] }) ∷ [])

abbrev two_paths : List (List Text) × Atoms
two_paths = ((codes "1high" ∷ []) ∷ ((codes "high" ∷ []) ∷ []), two_atoms)

leaf_paths_found : paths ascii cel pinned_key schema nothing two_leaves [] ≡ inl two_paths
unfolding paths list_beq sort_texts find_first
leaf_paths_found = refl

-- What is open is the second leaf.
level_is_needed :
    decide two_atoms two_paths.0 ≡ some (record { verdict = none; needs = level ∷ [] })
unfolding decide list_beq contains
level_is_needed = refl

decide-ExactVerdict_example :
    (v : Found) × (decide two_paths.1 two_paths.0 ≡ some v)
    × ExactVerdict two_paths.1 (λ c. truth pinned_key c two_leaves) v.verdict
decide-ExactVerdict_example =
    decide-ExactVerdict ascii cel pinned_key schema nothing two_leaves two_paths leaf_paths_found

paths-le-size_example :
    (length two_paths.0 ≡ count two_leaves) × AllWithin (size two_leaves) two_paths.0
paths-le-size_example =
    paths-le-size ascii cel pinned_key schema nothing two_leaves [] two_paths leaf_paths_found

abbrev row : Request → ConditionRow ℕ
row c = record {
  caveat_name = codes "high";
  caveat_context = c;
  caveat_key = pinned_key (codes "high") c;
}

abbrev rows : List (ConditionRow ℕ)
rows = row two ∷ []

abbrev two_verdicts : CaveatVerdicts
two_verdicts = record { true_keys = []; false_keys = codes "1high" ∷ []; unknown = [] }

rows_prepared :
    prepare_rows ascii cel pinned_key schema nothing rows [] no_verdicts ≡ some two_verdicts
unfolding prepare_rows list_beq find_first
rows_prepared = refl

row-OwnsKey : (c : Request) → OwnsKey ascii cel pinned_key schema nothing ((row c) ∷ []) (row c)
row-OwnsKey c q (here p) e = (ap (λ x. x.caveat_name) p, ap (λ x. x.caveat_context) p)
row-OwnsKey c q (there m) e = elim m [ ]

two_is_out : upper_allows two_verdicts (row two) ≡ false
unfolding upper_allows list_beq
two_is_out = refl

prepare_rows-upper_example : DecidedAs ascii cel pinned_key schema nothing (row two) false
prepare_rows-upper_example =
    prepare_rows-upper ascii cel pinned_key schema nothing rows two_verdicts (row two) rows_prepared
      (row-OwnsKey two) two_is_out

abbrev seven_verdicts : CaveatVerdicts
seven_verdicts = record { true_keys = codes "1high" ∷ []; false_keys = []; unknown = [] }

seven_prepared :
    prepare_rows ascii cel pinned_key schema nothing ((row seven) ∷ []) [] no_verdicts
    ≡ some seven_verdicts
unfolding prepare_rows list_beq find_first
seven_prepared = refl

seven_is_in : lower_allows seven_verdicts (row seven) ≡ true
unfolding lower_allows list_beq
seven_is_in = refl

prepare_rows-lower_example :
    (is_empty (row seven).caveat_name ≡ true)
    ⊎ DecidedAs ascii cel pinned_key schema nothing (row seven) true
prepare_rows-lower_example =
    prepare_rows-lower ascii cel pinned_key schema nothing ((row seven) ∷ []) seven_verdicts
      (row seven) seven_prepared (row-OwnsKey seven) seven_is_in
