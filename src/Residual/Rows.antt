-- ===== src/Residual/Rows.antt =====
-- `_Evaluator._rows` of src/rebac/compile/evaluate.py: the subjects of one relation of one resource.
-- The stored rows are a list. What the database answers for a live-backed relation is a parameter,
-- and so is the final sort, whose order no result depends on.
use django_zed_rebac.Prelude.{
  ℕ, Text, Bool, true, false, Option, none, some, List, [], ◌∷◌, ◌++◌, map, if◌then◌else◌, ◌==◌,
  nat_eq, list_eq, leb, not, ◌&&◌,
}
use django_zed_rebac.Types.{ObjectRef, SubjectRef, subject_ref, object_eq}
use django_zed_rebac.Schema.{
  Definition, Relation, AllowedSubject, Backing, field_binding, attribute_binding, const_binding,
  has_backing, Filters,
}
use django_zed_rebac.Walker.{relationship_row_allowed_by_relation}

-- `_Edge`.
pub record Edge : Type 0 where
  pub subject : SubjectRef
  pub caveat_name : Text
  pub caveat_context : Filters
  pub caveat_key : Text

pub record StoredRow : Type 0 where
  pub resource : ObjectRef
  pub relation : Text
  pub edge : Edge
  pub expires_at : Option ℕ

-- What the database has: the rows, and for a backed relation of a resource the objects of a field
-- path or of an attribute, and whether a constant applies.
pub record Database : Type 0 where
  pub rows : List StoredRow
  pub field_targets : Definition → Relation → Text → List ObjectRef
  pub attribute_targets : Definition → Relation → Text → List ObjectRef
  pub const_matches : Definition → Relation → Text → Bool
  pub arranged : List Edge → List Edge

abbrev pub plain_edge : SubjectRef → Edge
plain_edge s = record { subject = s; caveat_name = []; caveat_context = []; caveat_key = [] }

-- `relation.allowed_subjects[0].relation`, where the schema was validated to have one.
abbrev pub first_allowed : Relation → AllowedSubject
first_allowed r = elim (r.allowed_subjects) [
  | [] ↦ record { type = []; relation = []; wildcard = false; with_caveat = []; id = [] }
  | a ∷ rest ↦ a
]

abbrev pub edge_to : Relation → ObjectRef → Edge
edge_to r o = plain_edge (record { object = o; optional_relation = (first_allowed r).relation })

abbrev pub backed_edges : Database → Definition → Relation → Text → Option Backing → List Edge
backed_edges db d r rid none = []
backed_edges db d r rid (some (field_binding path filters)) =
    map (edge_to r) (db.field_targets d r rid)
backed_edges db d r rid (some (attribute_binding b)) =
    if has_backing r (some rid) then map (edge_to r) (db.attribute_targets d r rid) else []
backed_edges db d r rid (some (const_binding target filters)) =
    if db.const_matches d r rid
    then plain_edge (subject_ref (first_allowed r).type target (first_allowed r).relation) ∷ []
    else []

abbrev pub is_expired : ℕ → Option ℕ → Bool
is_expired now none = false
is_expired now (some t) = leb t now

abbrev pub expires : Option ℕ → Bool
expires none = false
expires (some t) = true

-- A row of the resource and relation, still valid and admitted by the schema.
unfoldable pub counts : ℕ → ObjectRef → Relation → StoredRow → Bool
counts now resource r row =
    row.resource == resource
    && (row.relation == r.name
        && (not (is_expired now row.expires_at)
            && relationship_row_allowed_by_relation r (record {
              subject = row.edge.subject;
              caveat_name = row.edge.caveat_name;
              expires = expires row.expires_at;
            })))

unfoldable pub stored_edges : ℕ → ObjectRef → Relation → List StoredRow → List Edge
unfolding counts
stored_edges now resource r [] = []
stored_edges now resource r (row ∷ rows) =
    let rest = stored_edges now resource r rows in
    if counts now resource r row then row.edge ∷ rest else rest

unfoldable pub rows_of_relation : Database → ℕ → ObjectRef → Relation → Definition → List Edge
unfolding stored_edges
rows_of_relation db now resource r d =
    let stored =
      if has_backing r (some resource.resource_id)
      then []
      else stored_edges now resource r db.rows in
    db.arranged (backed_edges db d r resource.resource_id r.backing ++ stored)
