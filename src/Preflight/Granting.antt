-- ===== src/Preflight/Granting.antt =====
-- What a grant before the row is stored means: `check_new` of src/rebac/preflight.py.
use django_zed_rebac.Prelude.{
  ℕ, Text, Bool, true, false, none, some, List, [], nat_eq, list_eq, length, inl, inr, ◌≡◌, ◌≢◌,
  refl, sym, ap, ◌∙◌, Bool-cases, Option-cases,
}
use django_zed_rebac.Types.{ObjectRef, SubjectRef, CheckResult, has, denied, conditional}
use django_zed_rebac.Schema.{Definition, Permission, Schema, find_permission, get_definition}
use django_zed_rebac.Actors.{Settings}
use django_zed_rebac.Walker.{Answer, value, unknown_relation, depth_exceeded, Context, eval_from}
use django_zed_rebac.Walker.Meaning.{World, Means, IsFaithful}
use django_zed_rebac.Walker.Soundness.{eval_expr_sound}
use django_zed_rebac.Walker.Totality.{eval_from_total}
use django_zed_rebac.Preflight.Defs.{
  Proposed, refuses_proposal, merge_const_backed, Outcome, result, schema_error, depth_error,
  outcome_of, context_of, evaluate_action, is_unknown_action, check_new,
}
use django_zed_rebac.Preflight.Agreement.{IsTrue, world_of, relation-Agrees, arrow-Agrees}

-- `allowed` of a result.
is_grant : Outcome → Bool
is_grant (result r) = r.allowed
is_grant schema_error = false
is_grant depth_error = false

false-ne-true : false ≢ true
false-ne-true e = cc

denied-ne-has : result denied ≢ result has
unfolding is_grant
denied-ne-has h = false-ne-true (ap is_grant h)

conditional-ne-has : (m : List Text) → result (conditional m) ≢ result has
unfolding is_grant
conditional-ne-has m h = false-ne-true (ap is_grant h)

some-injective : {A : Type 0} {a b : A} → some a ≡ some b → a ≡ b
some-injective h = cc

module _ (settings : Settings) (is_canonical : SubjectRef → Bool)
    (check : Text → ObjectRef → CheckResult) (schema : Schema) (subject : SubjectRef)
    (depth_limit : ℕ) (granted : Text → ObjectRef → Bool) (unknown : World) where
  module _ (required : List Text) where
    abbrev context : Proposed → Context
    context rels = context_of settings is_canonical check schema subject depth_limit required rels

    pub context-IsFaithful :
        (d : Definition) (rels : Proposed)
        → IsTrue settings is_canonical check schema subject depth_limit granted
        → IsFaithful
            (context rels)
            d
            []
            0
            (world_of settings is_canonical check schema subject depth_limit granted unknown d rels)
    unfolding world_of
    context-IsFaithful d rels t = record {
      relations = λ n m.
          relation-Agrees settings is_canonical check schema subject depth_limit granted unknown d
            rels [] n 0 m t;
      arrows = λ via target m.
          arrow-Agrees settings is_canonical check schema subject depth_limit granted unknown d rels
            [] via target 0 m t;
    }

    granted-value :
        (d : Definition) (merged : Proposed) (p : Permission) (a : Answer) (b : Bool)
        → IsTrue settings is_canonical check schema subject depth_limit granted
        → eval_from (context merged) d [] 0 p.expression [] ≡ some a
        → Means
            (context merged)
            d
            (world_of settings is_canonical check schema subject depth_limit granted unknown d
              merged)
            []
            p.expression
            b
        → outcome_of a ≡ result has
        → b ≡ true
    unfolding eval_from outcome_of
    granted-value d merged p (value (some true) m) b t e w h = sym (
        eval_expr_sound (context merged) d [] 0
          (world_of settings is_canonical check schema subject depth_limit granted unknown d merged)
          (length d.permissions) p.expression [] [] m true b (context-IsFaithful d merged t) e w)
    granted-value d merged p (value (some false) m) b t e w h = absurd (denied-ne-has h)
    granted-value d merged p (value none m) b t e w h = absurd (conditional-ne-has _ h)
    granted-value d merged p (unknown_relation m) b t e w h = absurd (denied-ne-has h)
    granted-value d merged p (depth_exceeded m) b t e w h = absurd cc

    -- A grant of a permission for a row that is not stored rests on what is proposed: no
    -- proposed relation was refused, and over the proposed relations with those of the constant
    -- backings the permission's expression means true, in every truth about the stored resources
    -- that the backend's results allow and whatever is true of the relations whose proposal is
    -- not known, also under an exclusion.
    pub check_new-granted :
        (action type : Text) (rels : Proposed) (d : Definition) (p : Permission) (merged : Proposed)
        (b : Bool)
        → IsTrue settings is_canonical check schema subject depth_limit granted
        → get_definition schema type ≡ some d
        → find_permission d action ≡ some p
        → merge_const_backed d.relations rels ≡ some merged
        → Means
            (context merged)
            d
            (world_of settings is_canonical check schema subject depth_limit granted unknown d
              merged)
            []
            p.expression
            b
        → check_new settings is_canonical check schema subject depth_limit required action type rels
          ≡ some (result has)
        → (refuses_proposal is_canonical d rels ≡ false) × (b ≡ true)
    unfolding check_new is_unknown_action evaluate_action
    check_new-granted action type rels d p merged b t e f g w h =
        elim (Bool-cases (refuses_proposal is_canonical d rels)) [
          | inl r ↦ absurd (
              denied-ne-has
                (some-injective (sym (rw (check_new, e, is_unknown_action, f, r) refl) ∙ h)))
          | inr r ↦ elim (Option-cases (eval_from (context merged) d [] 0 p.expression [])) [
            | inl x ↦ absurd (eval_from_total (context merged) d [] 0 p.expression [] x)
            | inr (a, x) ↦ (
              r,
              granted-value d merged p a b t x w (
                  some-injective (
                    sym (rw (check_new, e, is_unknown_action, f, r, g, evaluate_action, f, x) refl)
                    ∙ h)),
            )
          ]
        ]
