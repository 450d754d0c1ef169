-- ===== src/Caveats/Defs.antt =====
-- `evaluate` and `_coerce_param` of src/rebac/caveats.py. A context is a dictionary of JSON values,
-- a Python None among them. The library that runs CEL is a parameter, with its values.
use django_zed_rebac.Prelude.{
  Text, Bool, Option, none, some, List, [], ◌∷◌, codes, is_empty, if◌then◌else◌, ◌==◌, nat_eq,
  list_eq, contains, sort_texts, ◌&&◌, ◌⊎◌, inl, inr,
}
use django_zed_rebac.Types.Split.{split_once}
use django_zed_rebac.Schema.{Caveat, CaveatParam}
use django_zed_rebac.Parser.{Unicode, is_space}

-- What `Program.evaluate` does with a compiled expression, or that it does not compile. `raises`
-- is an exception that is not a CELEvalError.
pub data Run : Type 0 where
  not_compiled eval_error raises other : Run
  boolean : Bool → Run

pub record Cel (V : Type 0) : Type 1 where
  pub Value : Type 0
  pub installed : Bool
  pub is_bool : V → Bool
  pub raw : V → Value
  pub convert : Text → V → Option Value
  pub run : Text → List (Text × Value) → Run

-- The ways in which CaveatUnsupportedError is raised, and `escaped`, an exception of
-- `Program.evaluate` that no handler here takes.
pub data Failure : Type 0 where
  not_installed cannot_compile cannot_run not_boolean escaped : Failure
  bool_required invalid_value : Text → Failure

-- `unsupported` is a raised error.
pub data Verdict : Type 0 where
  decided : Bool → Verdict
  missing : List Text → Verdict
  unsupported : Failure → Verdict

unfoldable pub outcome : Run → Verdict
outcome not_compiled = unsupported cannot_compile
outcome eval_error = unsupported cannot_run
outcome raises = unsupported escaped
outcome other = unsupported not_boolean
outcome (boolean b) = decided b

-- `str.strip` for the white space of Python.
unfoldable pub strip_left : Unicode → Text → Text
strip_left u [] = []
strip_left u (c ∷ s) = if is_space u c then strip_left u s else c ∷ s

unfoldable pub strip_right : Unicode → Text → Text
strip_right u [] = []
strip_right u (c ∷ s) =
    let rest = strip_right u s in if is_empty rest && is_space u c then [] else c ∷ rest

unfoldable pub base_type : Unicode → Text → Text
unfolding strip_left strip_right split_once contains
base_type u t = strip_left u (strip_right u (if contains t b'<' then (split_once b'<' t).0 else t))

-- The types that celpy has a class for, next to bool.
abbrev pub cel_types : List Text
cel_types =
    codes "timestamp"
    ∷ (codes "duration"
        ∷ (codes "int"
            ∷ (codes "uint"
                ∷ (codes "double" ∷ (codes "float" ∷ (codes "string" ∷ (codes "bytes" ∷ [])))))))

module _ {V : Type 0} where
  -- `d[k]`, for a key that may be absent.
  unfoldable pub entry : Text → List (Text × Option V) → Option (Option V)
  entry k [] = none
  entry k ((x, v) ∷ d) = if k == x then some v else entry k d

  -- `static[name] if name in static else dynamic.get(name)`, where None is an absent value.
  unfoldable pub supplied : List (Text × Option V) → List (Text × Option V) → Text → Option V
  unfolding entry
  supplied static dynamic n = elim (entry n static) [
    | some v ↦ v
    | none ↦ elim (entry n dynamic) [ some v ↦ v | none ↦ none ]
  ]

-- `{p.name: p.type for p in caveat.params}`: a later parameter of the same name has its type win.
unfoldable pub put_type : Text → Text → List (Text × Text) → List (Text × Text)
put_type k t [] = (k, t) ∷ []
put_type k t ((x, s) ∷ d) = if k == x then (x, t) ∷ d else (x, s) ∷ put_type k t d

unfoldable pub declare : List CaveatParam → List (Text × Text) → List (Text × Text)
unfolding put_type
declare [] d = d
declare (p ∷ ps) d = declare ps (put_type p.name p.type d)

unfoldable pub declared : Caveat → List (Text × Text)
unfolding declare
declared c = declare c.params []

-- The declared names that neither context has a value for.
unfoldable pub absent_names :
    {V : Type 0} → List (Text × Option V) → List (Text × Option V) → List (Text × Text) → List Text
unfolding supplied
absent_names static dynamic [] = []
absent_names static dynamic ((n, t) ∷ ds) =
    let rest = absent_names static dynamic ds in
    elim (supplied static dynamic n) [ some v ↦ rest | none ↦ n ∷ rest ]

module _ {V : Type 0} (u : Unicode) (cel : Cel V) where
  -- none is an exception of the class's constructor.
  unfoldable pub coerce_param : Text → V → Text → Option cel.Value ⊎ Failure
  unfolding base_type contains
  coerce_param n v t =
      let base = base_type u t in
      if base == codes "bool"
      then (if cel.is_bool v then inl (cel.convert base v) else inr (bool_required n))
      else if contains cel_types base
      then inl (cel.convert base v)
      else inl (some (cel.raw v))

  unfoldable pub put_value :
      Text
      → Option cel.Value ⊎ Failure
      → List (Text × cel.Value) ⊎ Failure
      → List (Text × cel.Value) ⊎ Failure
  put_value n (inr f) rest = inr f
  put_value n (inl none) rest = inr (invalid_value n)
  put_value n (inl (some x)) (inl a) = inl ((n, x) ∷ a)
  put_value n (inl (some x)) (inr f) = inr f

  -- The loop that fills `activation`.
  unfoldable pub activation :
      List (Text × Option V)
      → List (Text × Option V)
      → List (Text × Text)
      → List (Text × cel.Value) ⊎ Failure
  unfolding supplied coerce_param put_value
  activation static dynamic [] = inl []
  activation static dynamic ((n, t) ∷ ds) =
      let rest = activation static dynamic ds in
      elim (supplied static dynamic n) [
        | none ↦ rest
        | some v ↦ put_value n (coerce_param n v t) rest
      ]

  -- What follows the loop: the program is compiled and run, and its result is a Boolean.
  unfoldable pub settle : Text → List (Text × cel.Value) ⊎ Failure → Verdict
  unfolding outcome
  settle e (inl a) = if cel.installed then outcome (cel.run e a) else unsupported not_installed
  settle e (inr f) = if cel.installed then unsupported f else unsupported not_installed

  unfoldable pub evaluate : Caveat → List (Text × Option V) → List (Text × Option V) → Verdict
  unfolding declared absent_names activation settle
  evaluate c static dynamic =
      let absent = absent_names static dynamic (declared c) in
      if is_empty absent
      then settle c.expression (activation static dynamic (declared c))
      else missing (sort_texts absent)
