-- ===== src/Schema/Ast.antt =====
-- The syntax tree of the .zed schema language: src/rebac/schema/ast.py, and the look-ups of
-- src/rebac/schema/walker.py. Tuples are lists. A JSON scalar of a backing filter keeps its
-- Python type; a float is its literal text.
use django_zed_rebac.Prelude.{
  ℕ, Text, Bool, true, false, Option, none, some, List, codes, find_first, nat_eq, list_eq, ◌==◌,
  ◌∷◌, [],
}

abbrev pub anonymous_name : Text
anonymous_name = codes "anonymous"

abbrev pub authenticated_name : Text
authenticated_name = codes "authenticated"

-- BUILTIN_ACTOR_TYPES, a frozenset.
abbrev pub builtin_actor_types : List Text
builtin_actor_types = anonymous_name ∷ authenticated_name ∷ []

pub record AllowedSubject : Type 0 where
  pub type : Text
  pub relation : Text
  pub wildcard : Bool
  pub with_caveat : Text
  pub id : Text

pub data Scalar : Type 0 where
  null : Scalar
  bool : Bool → Scalar
  int : Bool → ℕ → Scalar
  float : Text → Scalar
  text : Text → Scalar

abbrev pub Filters : Type 0
Filters = List (Text × Scalar)

pub record AttributeBinding : Type 0 where
  pub field : Text
  pub resource : Option Text
  pub value : Scalar
  pub filters : Filters

pub data Backing : Type 0 where
  field_binding : Text → Filters → Backing
  const_binding : Text → Filters → Backing
  attribute_binding : AttributeBinding → Backing

pub record Relation : Type 0 where
  pub name : Text
  pub allowed_subjects : List AllowedSubject
  pub with_expiration : Bool
  pub backing : Option Backing

-- `has_backing` by the backing: only a fixed attribute anchor looks at a given resource id.
unfoldable pub backing_covers : Option Backing → Option Text → Bool
backing_covers none rid = false
backing_covers (some (attribute_binding b)) (some rid) = elim (b.resource) [
  | none ↦ true
  | some anchor ↦ rid == anchor
]
backing_covers (some (attribute_binding b)) none = true
backing_covers (some (field_binding path fs)) rid = true
backing_covers (some (const_binding target fs)) rid = true

abbrev pub has_backing : Relation → Option Text → Bool
has_backing r rid = backing_covers r.backing rid

-- PermBinOp.op: "+", "&" or "-".
pub data Op : Type 0 where
  union intersection exclusion : Op

pub data PermExpr : Type 0 where
  ref : Text → PermExpr
  arrow : Text → Text → PermExpr
  bin_op : Op → PermExpr → PermExpr → PermExpr
  nil : PermExpr

pub record Permission : Type 0 where
  pub name : Text
  pub expression : PermExpr
  pub raw_text : Text

pub record CaveatParam : Type 0 where
  pub name : Text
  pub type : Text

pub record Caveat : Type 0 where
  pub name : Text
  pub params : List CaveatParam
  pub expression : Text

pub record Definition : Type 0 where
  pub resource_type : Text
  pub relations : List Relation
  pub permissions : List Permission

pub record Schema : Type 0 where
  pub definitions : List Definition
  pub caveats : List Caveat
  pub directives : List Text
  pub headers : List (Text × Text)

unfoldable pub find_relation : Definition → Text → Option Relation
find_relation d n = find_first (λ (r : Relation). r.name == n) d.relations

unfoldable pub find_permission : Definition → Text → Option Permission
find_permission d n = find_first (λ (p : Permission). p.name == n) d.permissions

unfoldable pub get_definition : Schema → Text → Option Definition
get_definition s t = find_first (λ (d : Definition). d.resource_type == t) s.definitions

unfoldable pub get_permission : Schema → Text → Text → Option Permission
get_permission s t n = elim (get_definition s t) [ none ↦ none | some d ↦ find_permission d n ]

unfoldable pub get_caveat : Schema → Text → Option Caveat
get_caveat s n = find_first (λ (c : Caveat). c.name == n) s.caveats
