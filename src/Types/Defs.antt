-- ===== src/Types/Defs.antt =====
-- Subject and resource references, check results and consistency tokens: src/rebac/types.py.
-- Text is a list of code points, so the wire form of a reference is computed character by
-- character. A raised ValueError is `none`.
use django_zed_rebac.Types.Split.{split_once}
use django_zed_rebac.Prelude.{
  ℕ, Text, Bool, true, false, Option, none, some, List, [], ◌∷◌, ◌++◌, is_empty, if◌then◌else◌,
  contains, nat_eq, ◌==◌, list_eq, ◌&&◌,
}

abbrev pub colon : ℕ
colon = b':'

abbrev pub hash : ℕ
hash = b'#'

abbrev pub dot : ℕ
dot = b'.'

pub record ObjectRef : Type 0 where
  pub resource_type : Text
  pub resource_id : Text

unfoldable pub print_object : ObjectRef → Text
print_object o = o.resource_type ++ colon ∷ o.resource_id

unfoldable pub parse_object : Text → Option ObjectRef
parse_object s =
    if contains s colon
    then (let (rt, rid) = split_once colon s in
        some (record { resource_type = rt; resource_id = rid }))
    else none

pub record SubjectRef : Type 0 where
  pub object : ObjectRef
  pub optional_relation : Text

abbrev pub subject_type : SubjectRef → Text
subject_type s = s.object.resource_type

abbrev pub subject_id : SubjectRef → Text
subject_id s = s.object.resource_id

unfoldable pub print_subject : SubjectRef → Text
unfolding print_object
print_subject s =
    if is_empty s.optional_relation
    then print_object s.object
    else print_object s.object ++ hash ∷ s.optional_relation

unfoldable pub subject_of : Option ObjectRef → Text → Option SubjectRef
subject_of none rel = none
subject_of (some o) rel = some (record { object = o; optional_relation = rel })

unfoldable pub parse_subject : Text → Option SubjectRef
unfolding subject_of parse_object
parse_subject s =
    if contains s hash
    then (let (o, rel) = split_once hash s in subject_of (parse_object o) rel)
    else subject_of (parse_object s) []

-- `SubjectRef.of`.
abbrev pub subject_ref : Text → Text → Text → SubjectRef
subject_ref t i r = record {
  object = record { resource_type = t; resource_id = i };
  optional_relation = r;
}

-- Dataclass equality.
unfoldable pub same_object : ObjectRef → ObjectRef → Bool
same_object a b = a.resource_type == b.resource_type && a.resource_id == b.resource_id

unfoldable pub same_subject : SubjectRef → SubjectRef → Bool
unfolding same_object
same_subject a b = same_object a.object b.object && a.optional_relation == b.optional_relation

pub data PermissionResult : Type 0 where
  has_permission no_permission conditional_permission : PermissionResult

pub record CheckResult : Type 0 where
  pub allowed : Bool
  pub result : PermissionResult
  pub conditional_on : List Text

-- `CheckResult.has`, `.no` and `.conditional`; the free-text reason is left out.
abbrev pub has : CheckResult
has = record { allowed = true; result = has_permission; conditional_on = [] }

abbrev pub denied : CheckResult
denied = record { allowed = false; result = no_permission; conditional_on = [] }

abbrev pub conditional : List Text → CheckResult
conditional missing = record {
  allowed = false;
  result = conditional_permission;
  conditional_on = missing;
}

pub record Zookie : Type 0 where
  pub backend : Text
  pub token : Text

unfoldable pub print_zookie : Zookie → Text
print_zookie z = z.backend ++ dot ∷ z.token

unfoldable pub parse_zookie : Text → Option Zookie
parse_zookie s =
    if contains s dot
    then (let (b, t) = split_once dot s in some (record { backend = b; token = t }))
    else none
