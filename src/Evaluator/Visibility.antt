-- ===== src/Evaluator/Visibility.antt =====
-- `_held_many` of `PermissionEvaluator`, src/rebac/evaluator.py. The ordered dictionary is the list of
-- its entries, oldest first. The backend's `held_many` is a parameter.
use django_zed_rebac.Prelude.{
  ℕ, ◌+◌, ◌-◌, Text, true, false, Option, none, some, List, [], ◌∷◌, ◌++◌, is_empty, if◌then◌else◌,
  ◌==◌, ◌||◌, nat_eq, list_eq, pair_eq, ltb, length, contains, sort_texts,
}
use django_zed_rebac.Schema.Validation.{set_of}

-- The key of a decision: the backend, subject, model, type and alias as one text, the candidates
-- and the action.
abbrev pub DecisionKey : Type 0
DecisionKey = Text × (List Text × Text)

abbrev pub Decisions : Type 0
Decisions = List (DecisionKey × List Text)

pub record Visibility : Type 0 where
  pub decisions : Decisions
  pub decision_ids : ℕ

unfoldable pub find_decision : DecisionKey → Decisions → Option (List Text)
find_decision k [] = none
find_decision k ((x, v) ∷ d) = if k == x then some v else find_decision k d

unfoldable pub drop_decision : DecisionKey → Decisions → Decisions
drop_decision k [] = []
drop_decision k ((x, v) ∷ d) = if k == x then d else (x, v) ∷ drop_decision k d

-- `move_to_end`
unfoldable pub move_to_end : DecisionKey → List Text → Decisions → Decisions
unfolding drop_decision
move_to_end k v d = drop_decision k d ++ ((k, v) ∷ [])

-- `d[k] = v`
unfoldable pub put_decision : DecisionKey → List Text → Decisions → Decisions
put_decision k v [] = (k, v) ∷ []
put_decision k v ((x, w) ∷ d) = if k == x then (x, v) ∷ d else (x, w) ∷ put_decision k v d

-- `dict.fromkeys(actions)`
unfoldable pub distinct_names : List Text → List Text → List Text
unfolding contains
distinct_names [] seen = []
distinct_names (n ∷ ns) seen = elim (contains seen n) [
  | true ↦ distinct_names ns seen
  | false ↦ n ∷ distinct_names ns (n ∷ seen)
]

pub record Recalled : Type 0 where
  pub answers : List (Text × List Text)
  pub missing : List Text
  pub decisions : Decisions

unfoldable pub add_answer : Text → List Text → Recalled → Recalled
add_answer n v r = record {
  answers = (n, v) ∷ r.answers;
  missing = r.missing;
  decisions = r.decisions;
}

unfoldable pub add_missing : Text → Recalled → Recalled
add_missing n r = record { answers = r.answers; missing = n ∷ r.missing; decisions = r.decisions }

-- The loop over the names.
unfoldable pub recall : Text → List Text → List Text → Decisions → Recalled
unfolding find_decision move_to_end add_answer add_missing
recall scope ids [] d = record { answers = []; missing = []; decisions = d }
recall scope ids (n ∷ ns) d = elim (find_decision (scope, (ids, n)) d) [
  | some v ↦ add_answer n v (recall scope ids ns (move_to_end (scope, (ids, n)) v d))
  | none ↦ add_missing n (recall scope ids ns d)
]

-- The loop over the missing names.
unfoldable pub store_found :
    (Text → List Text) → Text → List Text → List Text → Visibility → Visibility
unfolding put_decision
store_found found scope ids [] s = s
store_found found scope ids (n ∷ ns) s = store_found found scope ids ns (record {
  decisions = put_decision (scope, (ids, n)) (found n) s.decisions;
  decision_ids = s.decision_ids + length ids;
})

-- The loop that evicts: the oldest decisions go while there are too many, or too many candidates.
unfoldable pub evict : ℕ → Decisions → ℕ → Visibility
evict max [] n = record { decisions = []; decision_ids = n }
evict max ((k, v) ∷ d) n =
    let rest = evict max d (n - length k.1.0) in
    if ltb max (length ((k, v) ∷ d)) || ltb max n
    then rest
    else record { decisions = (k, v) ∷ d; decision_ids = n }

unfoldable pub answers_of : (Text → List Text) → List Text → List (Text × List Text)
answers_of f [] = []
answers_of f (n ∷ ns) = (n, f n) ∷ answers_of f ns

-- The part with the memory.
unfoldable pub held_remembered :
    ℕ
    → (List Text → List Text → Text → List Text)
    → Text
    → List Text
    → List Text
    → Visibility
    → List (Text × List Text) × Visibility
unfolding recall store_found evict answers_of
held_remembered max held scope names ids s =
    let r = recall scope ids names s.decisions in
    let found = held r.missing ids in
    if is_empty r.missing
    then (r.answers, record { decisions = r.decisions; decision_ids = s.decision_ids })
    else (let stored =
          store_found found scope ids r.missing
            (record { decisions = r.decisions; decision_ids = s.decision_ids }) in
        (r.answers ++ answers_of found r.missing, evict max stored.decisions stored.decision_ids))

-- `scope` is none where the check cache could keep no answer, or the schema has a caveat.
unfoldable pub held_many :
    ℕ
    → (List Text → List Text → Text → List Text)
    → Option Text
    → List Text
    → List Text
    → Visibility
    → List (Text × List Text) × Visibility
unfolding distinct_names set_of held_remembered answers_of
held_many max held scope actions ids s =
    let names = distinct_names actions [] in
    let candidates = sort_texts (set_of ids) in
    if is_empty names
    then ([], s)
    else if is_empty candidates
    then (answers_of (λ n. []) names, s)
    else if ltb max (length candidates)
    then (answers_of (held names candidates) names, s)
    else elim scope [
      | none ↦ (answers_of (held names candidates) names, s)
      | some k ↦ held_remembered max held k names candidates s
    ]
