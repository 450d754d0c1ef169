-- ===== src/Tests/Walker.antt =====
-- Runs and instances for src/rebac/schema/walker.py.
use django_zed_rebac.Prelude.{
  Text, ◌≡◌, ◌≢◌, refl, some, none, codes, ◌⊎◌, ◌↔◌, [], ◌∷◌, false, true, list_beq, pair_beq,
  contains, find_first, Mem, if◌then◌else◌, ◌==◌, nat_eq, list_eq, arith,
}
use django_zed_rebac.Schema.{
  Definition, Relation, Permission, AllowedSubject, PermExpr, ref, bin_op, union, exclusion,
  find_relation, find_permission,
}
use django_zed_rebac.Walker.{
  Context, Answer, value, unknown_relation, Missing, eval_from, eval_expr, tri_op, Row,
  relationship_row_allowed_by_relation,
}
use django_zed_rebac.Walker.Meaning.{World, Means, relation, operator, IsFaithful, Agrees}
use django_zed_rebac.Walker.Soundness.{eval_expr_sound}
use django_zed_rebac.Walker.Totality.{eval_from_total}
use django_zed_rebac.Walker.Subjects.{Admits, relationship_row_allowed_iff}
use django_zed_rebac.Tests.Actors.{strict, alice}

abbrev user_type : AllowedSubject
user_type = record {
  type = codes "auth/user";
  relation = [];
  wildcard = false;
  with_caveat = [];
  id = [];
}

abbrev plain : Text → Relation
plain n = record {
  name = n;
  allowed_subjects = user_type ∷ [];
  with_expiration = false;
  backing = none;
}

abbrev grants : Text → PermExpr → Permission
grants n e = record { name = n; expression = e; raw_text = [] }

-- permission read = edit + viewer; permission edit = owner - banned
abbrev post : Definition
post = record {
  resource_type = codes "blog/post";
  relations = plain (codes "owner") ∷ plain (codes "viewer") ∷ plain (codes "banned") ∷ [];
  permissions =
      grants (codes "read") (bin_op union (ref (codes "edit")) (ref (codes "viewer")))
      ∷ grants (codes "edit") (bin_op exclusion (ref (codes "owner")) (ref (codes "banned")))
      ∷ [];
}

-- The actor is an owner; whether it is banned cannot be known, and nothing else is so.
abbrev answer_for : Text → Missing → Answer
answer_for n m =
    if n == codes "owner"
    then value (some true) m
    else if n == codes "banned"
    then unknown_relation m
    else value (some false) m

abbrev walk : Context
walk = record {
  settings = strict;
  subject = alice;
  depth_limit = 8;
  resolve_relation = λ d rid n depth m. answer_for n m;
  resolve_arrow = λ d rid via target depth m. value (some false) m;
  has_unknown_relations = true;
}

-- An unknown exclusion does not let an owner edit.
owner_cannot_edit : eval_from walk post [] 0 (ref (codes "edit")) [] ≡ some (unknown_relation [])
unfolding eval_from find_relation find_permission find_first contains list_beq pair_beq
owner_cannot_edit = refl

-- A permission that refers to itself denies.
abbrev circle : Definition
circle = record {
  resource_type = codes "blog/post";
  relations = [];
  permissions = grants (codes "a") (ref (codes "b")) ∷ grants (codes "b") (ref (codes "a")) ∷ [];
}

circle_denies : eval_from walk circle [] 0 (ref (codes "a")) [] ≡ some (value (some false) [])
unfolding eval_from find_relation find_permission find_first contains list_beq pair_beq
circle_denies = refl

eval_from_total_example : eval_from walk circle [] 0 (ref (codes "a")) [] ≢ none
eval_from_total_example = eval_from_total walk circle [] 0 (ref (codes "a")) []

-- A world in which only the owners are related.
abbrev owners : World
owners = record { related = λ n. n == codes "owner"; reaches = λ via target. false }

walk-IsFaithful : IsFaithful walk post [] 0 owners
walk-IsFaithful = record { relations = faithful; arrows = λ via target m. refl }
  where
    faithful : (n : Text) (m : Missing) → Agrees (answer_for n m) (n == codes "owner")
    faithful n m = ground arith

owner_or_viewer : PermExpr
owner_or_viewer = bin_op union (ref (codes "viewer")) (ref (codes "owner"))

owner_or_viewer_runs :
    eval_expr walk post [] 0 2 owner_or_viewer [] [] ≡ some (value (some true) [])
unfolding eval_expr owner_or_viewer find_relation find_permission find_first contains list_beq
    pair_beq tri_op
owner_or_viewer_runs = refl

owner_or_viewer_means : Means walk post owners [] owner_or_viewer true
unfolding owner_or_viewer find_relation find_first contains list_beq
owner_or_viewer_means =
    operator {op = union} {a = false} {b = true} (relation refl refl refl) (relation refl refl refl)

eval_expr_sound_example : true ≡ true
eval_expr_sound_example =
    eval_expr_sound walk post [] 0 owners 2 owner_or_viewer [] [] [] true true walk-IsFaithful
      owner_or_viewer_runs owner_or_viewer_means

abbrev stored : Row
stored = record { subject = alice; caveat_name = []; expires = false }

relationship_row_allowed_iff_example :
    (relationship_row_allowed_by_relation (plain (codes "owner")) stored ≡ true) ↔ (
      ((stored.expires ≡ false) ⊎ ((plain (codes "owner")).with_expiration ≡ true))
      × ((a : AllowedSubject) × Mem a (plain (codes "owner")).allowed_subjects
          × Admits a stored.subject
          × (a.with_caveat ≡ stored.caveat_name)))
relationship_row_allowed_iff_example = relationship_row_allowed_iff (plain (codes "owner")) stored
