-- ===== src/Evaluator/Defs.antt =====
-- The check cache of `PermissionEvaluator`, src/rebac/evaluator.py. The ordered dictionary is the
-- list of its entries, oldest first. The backend's `check_access` is a parameter.
use django_zed_rebac.Prelude.{
  ℕ, Text, Bool, true, false, Option, none, some, List, [], ◌∷◌, ◌++◌, if◌then◌else◌, ◌==◌, nat_eq,
  list_eq, pair_eq, ltb, length,
}
use django_zed_rebac.Types.{
  CheckResult, conditional_permission, SubjectRef, ObjectRef, print_subject, print_object,
}

-- A call of `check`: the identity of its backend, the backend's cache generation for the resource
-- type (none when it declines), the references, the summary `_ctx_key` of the context (none when
-- it holds a value that is not a scalar), and whether a consistency or a token is pinned.
pub record Request : Type 0 where
  pub backend : ℕ
  pub generation : Option ℕ
  pub subject : SubjectRef
  pub action : Text
  pub resource : ObjectRef
  pub context_key : Option Text
  pub pinned : Bool

abbrev pub Key : Type 0
Key = (ℕ × ℕ) × (Text × (Text × (Text × Text)))

abbrev pub Entries : Type 0
Entries = List (Key × CheckResult)

-- The key, unless the call bypasses the cache.
unfoldable pub key_of : Request → Option Key
key_of q = if q.pinned then none else elim (q.context_key) [
  | none ↦ none
  | some c ↦ elim (q.generation) [
    | none ↦ none
    | some g ↦
        some ((q.backend, g), (print_subject q.subject, (q.action, (print_object q.resource, c))))
  ]
]

unfoldable pub is_conditional : CheckResult → Bool
is_conditional r = elim (r.result) [ conditional_permission ↦ true | _ ↦ false ]

-- `self._check_cache[key]`.
unfoldable pub cached : Key → Entries → Option CheckResult
cached k [] = none
cached k ((x, r) ∷ es) = if k == x then some r else cached k es

unfoldable pub without : Key → Entries → Entries
without k [] = []
without k ((x, r) ∷ es) = if k == x then es else (x, r) ∷ without k es

-- The loop of `_evict_if_full`: the oldest entries go while there are too many.
unfoldable pub evict_if_full : ℕ → Entries → Entries
evict_if_full max [] = []
evict_if_full max (x ∷ es) = if ltb max (length (x ∷ es)) then evict_if_full max es else x ∷ es

-- `_store_check`, of a key that is not there.
unfoldable pub store_check : ℕ → Key → CheckResult → Entries → Entries
unfolding evict_if_full
store_check max k r es = evict_if_full max (es ++ ((k, r) ∷ []))

-- `check`, by the key of the call and the answer of the backend, which only a miss asks.
unfoldable pub check_key : ℕ → Option Key → CheckResult → Entries → CheckResult × Entries
unfolding cached without store_check is_conditional
check_key max none answer es = (answer, es)
check_key max (some k) answer es = elim (cached k es) [
  | some r ↦ (r, without k es ++ ((k, r) ∷ []))
  | none ↦ if is_conditional answer then (answer, es) else (answer, store_check max k answer es)
]

unfoldable pub check : (Request → CheckResult) → ℕ → Request → Entries → CheckResult × Entries
unfolding key_of check_key
check check_access max q es = check_key max (key_of q) (check_access q) es

-- The answers of a run of calls in one scope, and the cache after them.
unfoldable pub checks :
    (Request → CheckResult) → ℕ → List Request → Entries → List CheckResult × Entries
unfolding check
checks check_access max [] es = ([], es)
checks check_access max (q ∷ qs) es =
    let (r, es') = check check_access max q es in
    let (rs, last) = checks check_access max qs es' in (r ∷ rs, last)
