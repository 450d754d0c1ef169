-- ===== src/Types/Instances.antt =====
-- Equality of references, as the dataclasses of src/rebac/types.py have it.
use django_zed_rebac.Prelude.{Eq, true, ==_iff, list_eq, nat_eq, ◌≡◌, ◌↔◌, arith}
use django_zed_rebac.Types.Defs.{ObjectRef, SubjectRef, same_object, same_subject}

pub same_object_iff : (a b : ObjectRef) → (same_object a b ≡ true) ↔ (a ≡ b)
unfolding same_object
same_object_iff a b = (
  λ h. ground (arith, ==_iff a.resource_type b.resource_type, ==_iff a.resource_id b.resource_id),
  λ h. ground (arith, ==_iff a.resource_type b.resource_type, ==_iff a.resource_id b.resource_id),
)

instance abbrev pub object_eq : Eq ObjectRef
unfolding same_object
object_eq = record { test = same_object; decides = same_object_iff }

pub same_subject_iff : (a b : SubjectRef) → (same_subject a b ≡ true) ↔ (a ≡ b)
unfolding same_subject
same_subject_iff a b = (
  λ h.
      ground
        (arith, same_object_iff a.object b.object, ==_iff a.optional_relation b.optional_relation),
  λ h.
      ground
        (arith, same_object_iff a.object b.object, ==_iff a.optional_relation b.optional_relation),
)

instance abbrev pub subject_eq : Eq SubjectRef
unfolding same_subject
subject_eq = record { test = same_subject; decides = same_subject_iff }
