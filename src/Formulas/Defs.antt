-- ===== src/Formulas/Defs.antt =====
-- Formulas, `size`, and `paths` and `decide` of `Evaluation`: src/rebac/compile/formulas.py.
-- A frozenset is a list, of which only the members matter.
use django_zed_rebac.Prelude.{
  ℕ, ◌+◌, Text, Bool, true, false, Option, none, some, List, [], ◌∷◌, ◌++◌, is_empty, nat_eq,
  list_eq, contains, any_of, not, ◌&&◌, ◌==◌, if◌then◌else◌, ◌⊎◌, inl, inr, map,
}
use django_zed_rebac.Schema.{Schema, get_caveat}
use django_zed_rebac.Parser.{Unicode}
use django_zed_rebac.Caveats.{Cel, Failure, Verdict, decided, missing, unsupported, evaluate}

-- None and True are `always`, and False is `never`. The dictionaries are the other three.
mutual
  pub data Formula (V : Type 0) : Type 0 where
    always never : Formula V
    leaf : Text → List (Text × Option V) → Formula V
    all_terms any_term : Terms V → Formula V

  pub data Terms (V : Type 0) : Type 0 where
    end : Terms V
    term : Formula V → Terms V → Terms V

unfoldable mutual
  pub size : {V : Type 0} → Formula V → ℕ
  size always = 0
  size never = 0
  size (leaf n c) = 1
  size (all_terms fs) = size_terms fs
  size (any_term fs) = size_terms fs

  pub size_terms : {V : Type 0} → Terms V → ℕ
  size_terms end = 0
  size_terms (term f fs) = size f + size_terms fs

-- The verdict of an atom and the parameters still needed.
pub record Found : Type 0 where
  pub verdict : Option Bool
  pub needs : List Text

abbrev pub Atoms : Type 0
Atoms = List (Text × Found)

unfoldable pub find_atom : Atoms → Text → Option Found
find_atom [] a = none
find_atom ((k, v) ∷ d) a = if a == k then some v else find_atom d a

-- The unions of a path of the first alternatives with one of the others.
unfoldable pub join : List Text → List (List Text) → List (List Text)
join p [] = []
join p (q ∷ qs) = (p ++ q) ∷ join p qs

unfoldable pub cross : List (List Text) → List (List Text) → List (List Text)
unfolding join
cross [] qs = []
cross (p ∷ ps) qs = join p qs ++ cross ps qs

unfoldable pub found_of : Verdict → Found ⊎ Failure
found_of (decided b) = inl (record { verdict = some b; needs = [] })
found_of (missing ns) = inl (record { verdict = none; needs = ns })
found_of (unsupported f) = inr f

abbrev pub Paths : Type 0
Paths = (List (List Text) × Atoms) ⊎ Failure

-- The path of one atom, with its verdict put in where it has none yet.
unfoldable pub use_atom : Text → Atoms → Option Found → Found ⊎ Failure → Paths
use_atom k a (some v) r = inl ((k ∷ []) ∷ [], a)
use_atom k a none (inl v) = inl ((k ∷ []) ∷ [], (k, v) ∷ a)
use_atom k a none (inr f) = inr f

unfoldable pub add_first : (List (List Text) → List (List Text)) → Paths → Paths
add_first g (inr e) = inr e
add_first g (inl y) = inl (g y.0, y.1)

-- The paths of a first child, and those of the others, which go on from its verdicts.
unfoldable pub either_paths : Paths → (Atoms → Paths) → Paths
unfolding add_first
either_paths (inr e) rest = inr e
either_paths (inl x) rest = add_first (λ ps. x.0 ++ ps) (rest x.1)

unfoldable pub both_paths : Paths → (Atoms → Paths) → Paths
unfolding add_first cross
both_paths (inr e) rest = inr e
both_paths (inl x) rest = add_first (λ ps. cross x.0 ps) (rest x.1)

module _ {V : Type 0} (u : Unicode) (cel : Cel V) (key : Text → List (Text × Option V) → Text)
    (s : Schema) (context : List (Text × Option V)) where
  -- The verdict of an instance that has none yet.
  unfoldable pub check_leaf : Text → List (Text × Option V) → Found ⊎ Failure
  unfolding get_caveat evaluate found_of
  check_leaf n pinned = elim (get_caveat s n) [
    | none ↦ inl (record { verdict = some false; needs = [] })
    | some c ↦ found_of (evaluate u cel c pinned context)
  ]

  unfoldable mutual
    unfolding find_atom use_atom check_leaf either_paths both_paths

    pub paths : Formula V → Atoms → Paths
    paths always a = inl ([] ∷ [], a)
    paths never a = inl ([], a)
    paths (leaf n pinned) a =
        use_atom (key n pinned) a (find_atom a (key n pinned)) (check_leaf n pinned)
    paths (any_term fs) a = paths_any fs a
    paths (all_terms fs) a = paths_all fs a

    pub paths_any : Terms V → Atoms → Paths
    paths_any end a = inl ([], a)
    paths_any (term f fs) a = either_paths (paths f a) (λ b. paths_any fs b)

    pub paths_all : Terms V → Atoms → Paths
    paths_all end a = inl ([] ∷ [], a)
    paths_all (term f fs) a = both_paths (paths f a) (λ b. paths_all fs b)

-- What the verdicts of a path's atoms make of it: one is false, none is unknown, or those with
-- what they need are.
pub data State : Type 0 where
  dead holds : State
  waits : List (Text × List Text) → State

unfoldable pub add_verdict : Text → Found → State → State
add_verdict k v dead = dead
add_verdict k v holds = elim v.verdict [
  | some true ↦ holds
  | some false ↦ dead
  | none ↦ waits ((k, v.needs) ∷ [])
]
add_verdict k v (waits w) = elim v.verdict [
  | some true ↦ waits w
  | some false ↦ dead
  | none ↦ waits ((k, v.needs) ∷ w)
]

-- none is the KeyError of an atom without a verdict.
unfoldable pub state_of : Atoms → List Text → Option State
unfolding find_atom add_verdict
state_of a [] = some holds
state_of a (k ∷ p) =
    let rest = state_of a p in
    elim (find_atom a k) [
      | none ↦ none
      | some v ↦ elim rest [ none ↦ none | some st ↦ some (add_verdict k v st) ]
    ]

abbrev pub Open : Type 0
Open = List (Text × List Text)

unfoldable pub subset : Open → Open → Bool
subset [] q = true
subset ((k, n) ∷ p) q = contains (map (λ (x : Text × List Text). x.0) q) k && subset p q

-- `other < path`.
unfoldable pub proper : Open → Open → Bool
unfolding subset
proper p q = subset p q && not (subset q p)

-- The paths of `open_paths` that are not longer than needed.
unfoldable pub needed : List Open → List Open → List Open
unfolding proper any_of
needed waiting [] = []
needed waiting (p ∷ ps) =
    let rest = needed waiting ps in
    if any_of (λ other. proper other p) waiting then rest else p ∷ rest

unfoldable pub path_names : Open → List Text
path_names [] = []
path_names ((k, ns) ∷ p) = ns ++ path_names p

unfoldable pub missing_names : List Open → List Text
unfolding path_names
missing_names [] = []
missing_names (p ∷ ps) = path_names p ++ missing_names ps

unfoldable pub close : List Open → Found
unfolding needed missing_names
close waiting =
    let ns = needed waiting waiting in
    if is_empty ns
    then record { verdict = some false; needs = [] }
    else record { verdict = none; needs = missing_names ns }

unfoldable pub scan : Atoms → List (List Text) → List Open → Option Found
unfolding state_of close
scan a [] waiting = some (close waiting)
scan a (p ∷ ps) waiting = elim (state_of a p) [
  | none ↦ none
  | some dead ↦ scan a ps waiting
  | some holds ↦ some (record { verdict = some true; needs = [] })
  | some (waits w) ↦ scan a ps (w ∷ waiting)
]

unfoldable pub decide : Atoms → List (List Text) → Option Found
unfolding scan
decide a ps = scan a ps []

-- `evaluate`, of a formula; none is the KeyError of `decide`.
unfoldable pub decide_paths : Paths → Option Found ⊎ Failure
unfolding decide
decide_paths (inr f) = inr f
decide_paths (inl x) = inl (decide x.1 x.0)

unfoldable pub evaluate_formula :
    {V : Type 0}
    → Unicode
    → Cel V
    → (Text → List (Text × Option V) → Text)
    → Schema
    → List (Text × Option V)
    → Formula V
    → Option Found ⊎ Failure
unfolding paths decide_paths
evaluate_formula u cel key s context f = decide_paths (paths u cel key s context f [])
