-- ===== src/Preflight/Defs.antt =====
-- `check_new` of src/rebac/preflight.py, with the walk's callbacks over the proposed relations.
-- `check` is the backend's check_access for the subject of the call, and `is_canonical` the test of
-- a candidate's identifier by its Django model and codec.
use django_zed_rebac.Prelude.{
  ℕ, ◌+◌, Text, Bool, true, false, Option, none, some, List, [], ◌∷◌, ◌++◌, is_empty, nat_eq,
  list_eq, any_of, not, ltb, ◌&&◌, ◌||◌, ◌==◌, if◌then◌else◌, sort_texts,
}
use django_zed_rebac.Types.{
  ObjectRef, SubjectRef, subject_type, subject_id, subject_ref, same_subject, has_permission,
  no_permission, conditional_permission, CheckResult, has, denied, conditional,
}
use django_zed_rebac.Schema.{
  const_binding, Relation, Definition, Schema, find_relation, find_permission, get_definition,
}
use django_zed_rebac.Schema.Validation.{set_of}
use django_zed_rebac.Actors.{Settings, star}
use django_zed_rebac.Walker.{
  Missing, Answer, value, unknown_relation, depth_exceeded, Context, eval_from,
  subject_allowed_by_relation,
}

-- `relationships`: None marks subjects that are not known before the row is stored.
abbrev pub Proposed : Type 0
Proposed = List (Text × Option (List SubjectRef))

-- `relationships.get(name, ())`
unfoldable pub proposed_for : Proposed → Text → Option (List SubjectRef)
proposed_for [] n = some []
proposed_for ((k, v) ∷ d) n = if n == k then v else proposed_for d n

unfoldable pub put_proposed : Text → Option (List SubjectRef) → Proposed → Proposed
put_proposed n v [] = (n, v) ∷ []
put_proposed n v ((k, w) ∷ d) = if n == k then (k, v) ∷ d else (k, w) ∷ put_proposed n v d

-- `setdefault(name, None)`
unfoldable pub default_unknown : Text → Proposed → Proposed
default_unknown n [] = (n, none) ∷ []
default_unknown n ((k, w) ∷ d) = if n == k then (k, w) ∷ d else (k, w) ∷ default_unknown n d

-- The subject of a relation with one alternative.
unfoldable pub put_const : Relation → Text → Proposed → Proposed
unfolding put_proposed
put_const r target d = elim r.allowed_subjects [
  | [] ↦ d
  | a ∷ [] ↦ put_proposed r.name (some (subject_ref a.type target [] ∷ [])) d
  | a ∷ (b ∷ as') ↦ d
]

-- One step of the merge; none is the SchemaError.
unfoldable pub merge_relation : Relation → Proposed → Option Proposed
unfolding proposed_for put_const default_unknown
merge_relation r d = elim r.backing [
  | some (const_binding target fs) ↦
      if is_empty fs
      then elim (proposed_for d r.name) [
        | none ↦ none
        | some [] ↦ some (put_const r target d)
        | some (s ∷ ss) ↦ none
      ]
      else some (default_unknown r.name d)
  | _ ↦ some d
]

unfoldable pub merge_const_backed : List Relation → Proposed → Option Proposed
unfolding merge_relation
merge_const_backed [] d = some d
merge_const_backed (r ∷ rs) d = elim (merge_relation r d) [
  | none ↦ none
  | some e ↦ merge_const_backed rs e
]

-- Whether a candidate fits the declared relation.
module _ (is_canonical : SubjectRef → Bool) where
  unfoldable pub refuses_candidate : Relation → SubjectRef → Bool
  unfolding subject_allowed_by_relation
  refuses_candidate declared c =
      (is_empty (subject_id c) || not (subject_allowed_by_relation declared c (some [])))
      || elim declared.backing [
        | some (const_binding target fs) ↦ not (subject_id c == target)
        | _ ↦ not (subject_id c == star && is_empty c.optional_relation) && not (is_canonical c)
      ]

  unfoldable pub refuses_candidates : Relation → Option (List SubjectRef) → Bool
  unfolding refuses_candidate any_of
  refuses_candidates declared none = false
  refuses_candidates declared (some cs) = elim declared.backing [
    | some (const_binding target fs) ↦
        if is_empty fs then false else any_of (refuses_candidate declared) cs
    | _ ↦ any_of (refuses_candidate declared) cs
  ]

  unfoldable pub refuses_proposal : Definition → Proposed → Bool
  unfolding refuses_candidates find_relation
  refuses_proposal d [] = false
  refuses_proposal d ((n, cs) ∷ rels) =
      elim (find_relation d n) [ none ↦ true | some r ↦ refuses_candidates r cs ]
      || refuses_proposal d rels

-- After the answer for one subject: a grant and an exception end the loop, and the flag
-- `saw_conditional` is set.
unfoldable pub go_on : Bool → Answer → (Bool → Missing → Answer) → Answer
go_on saw (value (some true) k) rest = value (some true) k
go_on saw (value (some false) k) rest = rest saw k
go_on saw (value none k) rest = rest true k
go_on saw (unknown_relation k) rest = unknown_relation k
go_on saw (depth_exceeded k) rest = depth_exceeded k

-- What the flag makes of a loop that came to its end.
unfoldable pub ended : Bool → Missing → Answer
ended true m = value none m
ended false m = value (some false) m

module _ (check : Text → ObjectRef → CheckResult) (schema : Schema) (subject : SubjectRef)
    (depth_limit : ℕ) where
  unfoldable pub backend_answer : CheckResult → Missing → Answer
  backend_answer r m = elim r.result [
    | has_permission ↦ value (some true) m
    | conditional_permission ↦ value none (r.conditional_on ++ m)
    | no_permission ↦ value (some false) m
  ]

  abbrev pub is_wildcard_for : SubjectRef → Bool
  is_wildcard_for c =
      (is_empty subject.optional_relation && is_empty c.optional_relation)
      && (subject_type c == subject_type subject && subject_id c == star)

  abbrev pub declares : SubjectRef → Bool
  declares c = elim (get_definition schema (subject_type c)) [
    | none ↦ false
    | some d ↦ elim (find_relation d c.optional_relation) [ none ↦ false | some r ↦ true ]
  ]

  unfoldable pub candidate_matches : ℕ → SubjectRef → Missing → Answer
  unfolding backend_answer same_subject get_definition find_relation
  candidate_matches depth c m =
      if same_subject c subject || is_wildcard_for c
      then value (some true) m
      else if is_empty c.optional_relation || not (declares c)
      then value (some false) m
      else if ltb depth_limit (depth + 1)
      then depth_exceeded m
      else backend_answer (check c.optional_relation c.object) m

  -- The loop over the candidates; the flag is `saw_conditional`.
  unfoldable pub membership : ℕ → Bool → List SubjectRef → Missing → Answer
  unfolding candidate_matches go_on ended
  membership depth saw [] m = ended saw m
  membership depth saw (c ∷ cs) m =
      go_on saw (candidate_matches depth c m) (λ s k. membership depth s cs k)

  unfoldable pub hops : Text → Bool → List SubjectRef → Missing → Answer
  unfolding backend_answer go_on ended
  hops target saw [] m = ended saw m
  hops target saw (c ∷ cs) m =
      go_on saw (backend_answer (check target c.object) m) (λ s k. hops target s cs k)

  module _ (rels : Proposed) where
    unfoldable pub resolve_relation : Definition → Text → Text → ℕ → Missing → Answer
    unfolding proposed_for membership find_relation
    resolve_relation d rid n depth m = elim (find_relation d n) [
      | none ↦ value (some false) m
      | some r ↦ elim (proposed_for rels n) [
        | none ↦ unknown_relation m
        | some cs ↦ membership depth false cs m
      ]
    ]

    unfoldable pub resolve_arrow : Definition → Text → Text → Text → ℕ → Missing → Answer
    unfolding proposed_for hops find_relation
    resolve_arrow d rid via target depth m = elim (find_relation d via) [
      | none ↦ value (some false) m
      | some r ↦ elim (proposed_for rels via) [
        | none ↦ unknown_relation m
        | some [] ↦ value (some false) m
        | some (c ∷ cs) ↦
            if ltb depth_limit (depth + 1) then depth_exceeded m else hops target false (c ∷ cs) m
      ]
    ]

-- A result or an exception.
pub data Outcome : Type 0 where
  result : CheckResult → Outcome
  schema_error depth_error : Outcome

unfoldable pub outcome_of : Answer → Outcome
unfolding set_of
outcome_of (value (some true) m) = result has
outcome_of (value (some false) m) = result denied
outcome_of (value none m) = result (conditional (sort_texts (set_of m)))
outcome_of (unknown_relation m) = result denied
outcome_of (depth_exceeded m) = depth_error

unfoldable pub is_unknown : Proposed → Text → Bool
unfolding proposed_for
is_unknown rels n = elim (proposed_for rels n) [ none ↦ true | some cs ↦ false ]

-- `required` are the names that `relation_dependencies` gives for the action.
module _ (settings : Settings) (is_canonical : SubjectRef → Bool)
    (check : Text → ObjectRef → CheckResult) (schema : Schema) (subject : SubjectRef)
    (depth_limit : ℕ) (required : List Text) where
  abbrev pub context_of : Proposed → Context
  context_of rels = record {
    settings = settings;
    subject = subject;
    depth_limit = depth_limit;
    resolve_relation = resolve_relation check schema subject depth_limit rels;
    resolve_arrow = resolve_arrow check schema subject depth_limit rels;
    has_unknown_relations = any_of (is_unknown rels) required;
  }

  -- The walk over the merged relations; none is only the end of the walker's fuel.
  unfoldable pub evaluate_action : Definition → Text → Proposed → Option Outcome
  unfolding eval_from outcome_of resolve_relation is_unknown find_permission
  evaluate_action d action rels = elim (find_permission d action) [
    | none ↦ some (outcome_of ((context_of rels).resolve_relation d [] action 0 []))
    | some p ↦ elim (eval_from (context_of rels) d [] 0 p.expression []) [
      | none ↦ none
      | some a ↦ some (outcome_of a)
    ]
  ]

  -- `find_permission(...) is None and find_relation(...) is None`
  unfoldable pub is_unknown_action : Definition → Text → Bool
  unfolding find_permission find_relation
  is_unknown_action d action = elim (find_permission d action) [
    | some p ↦ false
    | none ↦ elim (find_relation d action) [ none ↦ true | some r ↦ false ]
  ]

  unfoldable pub check_new : Text → Text → Proposed → Option Outcome
  unfolding get_definition is_unknown_action refuses_proposal merge_const_backed evaluate_action
  check_new action type rels = elim (get_definition schema type) [
    | none ↦ some (result denied)
    | some d ↦
        if is_unknown_action d action || refuses_proposal is_canonical d rels
        then some (result denied)
        else elim (merge_const_backed d.relations rels) [
          | none ↦ some schema_error
          | some merged ↦ evaluate_action d action merged
        ]
  ]
