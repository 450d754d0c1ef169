-- ===== src/Walker/Meaning.antt =====
-- What a permission expression means, independently of how it is evaluated: a two-valued reading
-- over a world in which every relation and every arrow holds or does not. Each operand counts.
-- A permission that is being read already contributes nothing, as in src/rebac/schema/walker.py.
use django_zed_rebac.Prelude.{
  ℕ, Text, Bool, true, false, Option, none, some, List, ◌∷◌, ◌≡◌, contains, nat_eq, list_eq,
  pair_eq,
}
use django_zed_rebac.Schema.{
  Definition, Relation, Permission, PermExpr, ref, arrow, bin_op, nil, Op, find_relation,
  find_permission, builtin_actor_types,
}
use django_zed_rebac.Actors.{builtin_actor_matches}
use django_zed_rebac.Walker.Tri.{Completes, bool_op}
use django_zed_rebac.Walker.Defs.{
  Context, Key, Missing, Answer, value, unknown_relation, depth_exceeded,
}

pub record World : Type 0 where
  pub related : Text → Bool
  pub reaches : Text → Text → Bool

module _ (ctx : Context) (definition : Definition) (world : World) where
  pub data Means : List Key → PermExpr → Bool → Type 0 where
    nothing : {seen : List Key} → Means seen nil false
    builtin :
        {seen : List Key} {n : Text} {b : Bool}
        → contains builtin_actor_types n ≡ true
        → b ≡ builtin_actor_matches ctx.settings n ctx.subject
        → Means seen (ref n) b
    relation :
        {seen : List Key} {n : Text} {r : Relation} {b : Bool}
        → contains builtin_actor_types n ≡ false
        → find_relation definition n ≡ some r
        → b ≡ world.related n
        → Means seen (ref n) b
    cyclic :
        {seen : List Key} {n : Text}
        → contains builtin_actor_types n ≡ false
        → find_relation definition n ≡ none
        → contains seen (definition.resource_type, n) ≡ true
        → Means seen (ref n) false
    undeclared :
        {seen : List Key} {n : Text}
        → contains builtin_actor_types n ≡ false
        → find_relation definition n ≡ none
        → find_permission definition n ≡ none
        → Means seen (ref n) false
    permission :
        {seen : List Key} {n : Text} {p : Permission} {b : Bool}
        → contains builtin_actor_types n ≡ false
        → find_relation definition n ≡ none
        → contains seen (definition.resource_type, n) ≡ false
        → find_permission definition n ≡ some p
        → Means ((definition.resource_type, n) ∷ seen) p.expression b
        → Means seen (ref n) b
    no_arrow :
        {seen : List Key} {via target : Text}
        → find_relation definition via ≡ none
        → Means seen (arrow via target) false
    arrow_over :
        {seen : List Key} {via target : Text} {r : Relation} {b : Bool}
        → find_relation definition via ≡ some r
        → b ≡ world.reaches via target
        → Means seen (arrow via target) b
    operator :
        {seen : List Key} {op : Op} {l r : PermExpr} {a b : Bool}
        → Means seen l a
        → Means seen r b
        → Means seen (bin_op op l r) (bool_op op a b)

-- An answer that the world may still confirm: an unknown relation, a depth error and a
-- conditional answer leave everything open.
abbrev pub Agrees : Answer → Bool → Type 0
Agrees (value v m) b = Completes v b
Agrees (unknown_relation m) b = Unit
Agrees (depth_exceeded m) b = Unit

abbrev pub MayAgree : Option Answer → Bool → Type 0
MayAgree none b = Unit
MayAgree (some a) b = Agrees a b

-- The callbacks answer in keeping with the world, at the resource and depth of the walk.
pub record IsFaithful (ctx : Context) (definition : Definition) (rid : Text) (depth : ℕ) (w : World)
    : Type 0 where
  pub relations :
      (n : Text) (m : Missing)
      → Agrees (ctx.resolve_relation definition rid n depth m) (w.related n)
  pub arrows :
      (via target : Text) (m : Missing)
      → Agrees (ctx.resolve_arrow definition rid via target depth m) (w.reaches via target)
