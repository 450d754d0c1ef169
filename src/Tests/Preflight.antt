-- ===== src/Tests/Preflight.antt =====
-- A run and an instance for src/rebac/preflight.py.
use django_zed_rebac.Prelude.{
  ◌≡◌, refl, Text, Bool, true, false, none, some, [], ◌∷◌, codes, nat_eq, list_eq, list_beq,
  contains, find_first, ◌==◌, if◌then◌else◌, Bool-cases, inl, inr, any_of,
}
use django_zed_rebac.Types.{ObjectRef, SubjectRef, subject_ref, CheckResult, has, denied}
use django_zed_rebac.Schema.{
  AllowedSubject, PermExpr, ref, arrow, bin_op, union, exclusion, Permission, Definition, Schema,
  const_binding, find_relation, get_definition, find_permission,
}
use django_zed_rebac.Walker.Meaning.{World, Means, arrow_over, relation, operator}
use django_zed_rebac.Preflight.{
  proposed_for, resolve_arrow, Proposed, result, check_new, merge_const_backed, refuses_proposal,
  context_of,
}
use django_zed_rebac.Preflight.Granting.{check_new-granted}
use django_zed_rebac.Preflight.Agreement.{IsTrue, AllowsResult, world_of}
use django_zed_rebac.Tests.Actors.{strict, alice}

abbrev folder_type : AllowedSubject
folder_type = record {
  type = codes "drive/folder";
  relation = [];
  wildcard = false;
  with_caveat = [];
  id = [];
}

abbrev write_to_folder : PermExpr
write_to_folder = arrow (codes "folder") (codes "write")

-- (folder->write - banned) + folder->write
abbrev may_create : PermExpr
may_create = bin_op union (bin_op exclusion write_to_folder (ref (codes "banned"))) write_to_folder

-- relation folder: drive/folder; relation banned: drive/folder; relation root: drive/folder, a
-- constant; permission create = (folder->write - banned) + folder->write
abbrev file : Definition
file = record {
  resource_type = codes "drive/file";
  relations =
      (record {
        name = codes "folder";
        allowed_subjects = folder_type ∷ [];
        with_expiration = false;
        backing = none;
      })
      ∷ ((record {
        name = codes "banned";
        allowed_subjects = folder_type ∷ [];
        with_expiration = false;
        backing = none;
      })
          ∷ ((record {
            name = codes "root";
            allowed_subjects = folder_type ∷ [];
            with_expiration = false;
            backing = some (const_binding (codes "top") []);
          })
              ∷ []));
  permissions = (record { name = codes "create"; expression = may_create; raw_text = [] }) ∷ [];
}

abbrev schema : Schema
schema = record { definitions = file ∷ []; caveats = []; directives = []; headers = [] }

abbrev writes : Text → ObjectRef → Bool
writes action o = action == codes "write"

abbrev check_access : Text → ObjectRef → CheckResult
check_access action o = if action == codes "write" then has else denied

abbrev canonical : SubjectRef → Bool
canonical s = true

-- Who is banned is not known.
abbrev in_folder : Proposed
in_folder =
    (codes "folder", some (subject_ref (codes "drive/folder") (codes "f1") [] ∷ []))
    ∷ ((codes "banned", none) ∷ [])

abbrev merged : Proposed
merged =
    (codes "folder", some (subject_ref (codes "drive/folder") (codes "f1") [] ∷ []))
    ∷ ((codes "banned", none)
        ∷ ((codes "root", some (subject_ref (codes "drive/folder") (codes "top") [] ∷ [])) ∷ []))

merge_of_proposal : merge_const_backed file.relations in_folder ≡ some merged
unfolding merge_const_backed list_beq
merge_of_proposal = refl

file_is_created :
    check_new strict canonical check_access schema alice 8 []
      (codes "create")
      (codes "drive/file")
      in_folder
    ≡ some (result has)
unfolding check_new list_beq find_first contains any_of resolve_arrow
file_is_created = refl

abbrev create : Permission
create = record { name = codes "create"; expression = may_create; raw_text = [] }

check-IsTrue : IsTrue strict canonical check_access schema alice 8 writes
unfolding AllowsResult
check-IsTrue action o = elim (Bool-cases (action == codes "write")) [
  | inl e ↦ rw e refl
  | inr e ↦ rw e refl
]

file_found : get_definition schema (codes "drive/file") ≡ some file
unfolding get_definition find_first list_beq
file_found = refl

create_found : find_permission file (codes "create") ≡ some create
unfolding find_permission find_first list_beq
create_found = refl

-- Everything is true of what is not known.
abbrev anything : World
anything = record { related = λ n. true; reaches = λ via target. true }

create_means :
    Means
      (context_of strict canonical check_access schema alice 8 [] merged)
      file
      (world_of strict canonical check_access schema alice 8 writes anything file merged)
      []
      create.expression
      true
unfolding world_of find_relation find_first list_beq any_of proposed_for contains
create_means =
    operator (operator (arrow_over refl refl) (relation refl refl refl)) (arrow_over refl refl)

check_new-granted_example : (refuses_proposal canonical file in_folder ≡ false) × (true ≡ true)
check_new-granted_example =
    check_new-granted strict canonical check_access schema alice 8 writes anything []
      (codes "create") (codes "drive/file") in_folder file create merged true check-IsTrue
      file_found create_found merge_of_proposal create_means file_is_created
