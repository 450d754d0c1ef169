-- ===== src/Formulas/Deciding.antt =====
-- The verdict is exact: `Evaluation.decide` of src/rebac/compile/formulas.py.
use django_zed_rebac.Prelude.{
  Text, Bool, true, false, Option, none, some, List, [], ◌∷◌, ◌&&◌, ◌||◌, ◌≡◌, inl, inr, refl, sym,
  ap, ◌∙◌, nat_eq, list_eq, Option-cases, Bool-cases, is_empty, arith,
}
use django_zed_rebac.Schema.{Schema}
use django_zed_rebac.Parser.{Unicode}
use django_zed_rebac.Caveats.{Cel}
use django_zed_rebac.Formulas.Defs.{
  Formula, Found, Atoms, find_atom, State, dead, holds, waits, add_verdict, state_of, Open, close,
  scan, decide, paths,
}
use django_zed_rebac.Formulas.Joining.{Completion, every, any_path, truth, Known, AllKnown}
use django_zed_rebac.Formulas.Paths.{paths-Walked}
use django_zed_rebac.Formulas.Minimal.{atoms_of, needed-ne-nil}

-- The completion gives each decided atom its verdict.
abbrev pub Agrees : Atoms → Completion → Type 0
Agrees a c =
    (k : Text) (v : Found) (b : Bool) → find_atom a k ≡ some v → v.verdict ≡ some b → c k ≡ b

-- A verdict is the value at all completions, and an open one is at neither value only.
unfoldable pub ExactVerdict : Atoms → (Completion → Bool) → Option Bool → Type 0
ExactVerdict a t (some b) = (c : Completion) → Agrees a c → t c ≡ b
ExactVerdict a t none =
    ((c : Completion) × Agrees a c × (t c ≡ true)) × ((c : Completion) × Agrees a c × (t c ≡ false))

ExactVerdict-congr :
    (a : Atoms) (t r : Completion → Bool) (v : Option Bool)
    → ((c : Completion) → Agrees a c → t c ≡ r c)
    → ExactVerdict a t v
    → ExactVerdict a r v
unfolding ExactVerdict
ExactVerdict-congr a t r (some b) h e = λ c g. sym (h c g) ∙ e c g
ExactVerdict-congr a t r none h ((c, g, e), (d, k, x)) =
    ((c, g, sym (h c g) ∙ e), (d, k, sym (h d k) ∙ x))

-- The completion that gives the open atoms one value.
complete : Bool → Option Found → Bool
complete b none = b
complete b (some v) = elim v.verdict [ none ↦ b | some x ↦ x ]

completion : Atoms → Bool → Completion
unfolding complete
completion a b k = complete b (find_atom a k)

completion-Agrees : (a : Atoms) (b : Bool) → Agrees a (completion a b)
unfolding completion complete
completion-Agrees a b k v x e h = rw (completion, e, h) refl

-- The atoms of an open path are undecided.
unfoldable IsUnknown : Atoms → Open → Type 0
IsUnknown a [] = Unit
IsUnknown a ((k, n) ∷ w) =
    ((v : Found) × (find_atom a k ≡ some v) × (v.verdict ≡ none)) × IsUnknown a w

completion-unknown :
    (a : Atoms) (b : Bool) (k : Text) (v : Found)
    → find_atom a k ≡ some v
    → v.verdict ≡ none
    → completion a b k ≡ b
unfolding completion complete
completion-unknown a b k v e h = rw (completion, e, h) refl

every-open_true :
    (a : Atoms) (w : Open) → IsUnknown a w → every (completion a true) (atoms_of w) ≡ true
unfolding every IsUnknown
every-open_true a [] h = refl
every-open_true a ((k, n) ∷ w) ((v, e, h), r) =
    rw (completion-unknown a true k v e h) (every-open_true a w r)

every-open_false :
    (a : Atoms) (w : Open)
    → is_empty w ≡ false
    → IsUnknown a w
    → every (completion a false) (atoms_of w) ≡ false
unfolding every IsUnknown
every-open_false a [] q h = absurd cc
every-open_false a ((k, n) ∷ w) q ((v, e, h), r) = rw (completion-unknown a false k v e h) refl

unfoldable pub Means : Atoms → List Text → State → Type 0
unfolding IsUnknown
Means a p dead = (c : Completion) → Agrees a c → every c p ≡ false
Means a p holds = (c : Completion) → Agrees a c → every c p ≡ true
Means a p (waits w) =
    (is_empty w ≡ false)
    × IsUnknown a w
    × ((c : Completion) → Agrees a c → every c p ≡ every c (atoms_of w))

add_verdict-Means :
    (a : Atoms) (k : Text) (v : Found) (p : List Text) (st : State)
    → find_atom a k ≡ some v
    → Means a p st
    → Means a (k ∷ p) (add_verdict k v st)
unfolding Means add_verdict every IsUnknown
add_verdict-Means a k v p dead e m = λ c g. ground (arith, m c g)
add_verdict-Means a k v p holds e m = elim (Option-cases v.verdict) [
  | inl x ↦ rw (add_verdict, x) (refl, ((v, e, x), tt), λ c g. ground (arith, m c g))
  | inr (b, x) ↦ elim (Bool-cases b) [
    | inl y ↦ rw (add_verdict, x, y) (λ c g. ground (arith, m c g, g k v b e x))
    | inr y ↦ rw (add_verdict, x, y) (λ c g. ground (arith, g k v b e x))
  ]
]
add_verdict-Means a k v p (waits w) e (q, h, m) = elim (Option-cases v.verdict) [
  | inl x ↦ rw (add_verdict, x) (refl, ((v, e, x), h), λ c g. ap (λ y. c k && y) (m c g))
  | inr (b, x) ↦ elim (Bool-cases b) [
    | inl y ↦ rw (add_verdict, x, y) (q, h, λ c g. rw (g k v b e x, y) (m c g))
    | inr y ↦ rw (add_verdict, x, y) (λ c g. ground (arith, g k v b e x))
  ]
]

state_of-Means :
    (a : Atoms) (p : List Text) → Known a p → (st : State) × (state_of a p ≡ some st) × Means a p st
unfolding state_of Means every
state_of-Means a [] h = (holds, refl, λ c g. refl)
state_of-Means a (k ∷ p) (x, h) =
    let rest = state_of-Means a p h in
    elim (Option-cases (find_atom a k)) [
      | inl e ↦ absurd (x e)
      | inr (v, e) ↦ (
        add_verdict k v rest.0,
        rw (state_of, e, rest.1) refl,
        add_verdict-Means a k v p rest.0 e rest.2,
      )
    ]

unfoldable any_open : Completion → List Open → Bool
any_open c [] = false
any_open c (w ∷ ws) = every c (atoms_of w) || any_open c ws

unfoldable AllOpen : Atoms → List Open → Type 0
AllOpen a [] = Unit
AllOpen a (w ∷ ws) = ((is_empty w ≡ false) × IsUnknown a w) × AllOpen a ws

any_open-none :
    (a : Atoms) (ws : List Open) → AllOpen a ws → any_open (completion a false) ws ≡ false
unfolding any_open AllOpen
any_open-none a [] h = refl
any_open-none a (w ∷ ws) ((q, u), h) =
    ground (arith, every-open_false a w q u, any_open-none a ws h)

close-exact :
    (a : Atoms) (ws : List Open)
    → AllOpen a ws
    → ExactVerdict a (λ c. any_open c ws) (close ws).verdict
unfolding close any_open AllOpen ExactVerdict
close-exact a [] h = λ c g. refl
close-exact a (w ∷ ws) ((q, u), h) = rw (needed-ne-nil w ws) (
  (completion a true, completion-Agrees a true, ground (arith, every-open_true a w u)),
  (
    completion a false,
    completion-Agrees a false,
    ground (arith, every-open_false a w q u, any_open-none a ws h),
  ),
)

abbrev Scanned : Atoms → List (List Text) → List Open → Type 0
Scanned a ps ws =
    (v : Found) × (scan a ps ws ≡ some v)
    × ExactVerdict a (λ c. any_path c ps || any_open c ws) v.verdict

scan-step :
    (a : Atoms) (p : List Text) (ps : List (List Text)) (ws : List Open) (st : State)
    → state_of a p ≡ some st
    → Means a p st
    → ((us : List Open) → AllOpen a us → Scanned a ps us)
    → AllOpen a ws
    → Scanned a (p ∷ ps) ws
unfolding scan any_path any_open AllOpen Means ExactVerdict
scan-step a p ps ws dead e m ih o =
    let r = ih ws o in
    (r.0, rw (scan, e) r.1, ExactVerdict-congr a _ _ r.0.verdict (λ c g. ground (arith, m c g)) r.2)
scan-step a p ps ws holds e m ih o =
    (record { verdict = some true; needs = [] }, rw (scan, e) refl, λ c g. ground (arith, m c g))
scan-step a p ps ws (waits w) e (q, u, m) ih o =
    let r = ih (w ∷ ws) ((q, u), o) in
    (r.0, rw (scan, e) r.1, ExactVerdict-congr a _ _ r.0.verdict (λ c g. ground (arith, m c g)) r.2)

scan-exact :
    (a : Atoms) (ps : List (List Text)) (ws : List Open)
    → AllKnown a ps
    → AllOpen a ws
    → Scanned a ps ws
unfolding scan any_path
scan-exact a [] ws k o = (close ws, refl, close-exact a ws o)
scan-exact a (p ∷ ps) ws (h, k) o =
    let st = state_of-Means a p h in
    scan-step a p ps ws st.0 st.1 st.2 (λ us. scan-exact a ps us k) o

or-false : (b : Bool) → (b || false) ≡ b
or-false b = ground arith

module _ {V : Type 0} (u : Unicode) (cel : Cel V) (key : Text → List (Text × Option V) → Text)
    (s : Schema) (context : List (Text × Option V)) where
  -- When every caveat of a formula can be evaluated, then there is a verdict, and no atom of a
  -- path is without one. A true or false verdict is the value of the formula whatever the
  -- undecided caveats turn out to be, and where there is none, they can make it true and false.
  pub decide-ExactVerdict :
      (f : Formula V) (x : List (List Text) × Atoms)
      → paths u cel key s context f [] ≡ inl x
      → (v : Found) × (decide x.1 x.0 ≡ some v) × ExactVerdict x.1 (λ c. truth key c f) v.verdict
  unfolding decide any_open AllOpen
  decide-ExactVerdict f x h =
      let w = paths-Walked u cel key s context f [] x h in
      let r = scan-exact x.1 x.0 [] w.known tt in
      (
        r.0,
        r.1,
        ExactVerdict-congr x.1 _ _ r.0.verdict (λ c g. or-false (any_path c x.0) ∙ w.same c) r.2,
      )
