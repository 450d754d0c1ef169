-- ===== src/Tests/Types.antt =====
-- Runs and instances for src/rebac/types.py.
use django_zed_rebac.Prelude.{
  ◌≡◌, refl, some, none, codes, ◌⊎◌, [], ◌∷◌, ◌++◌, false, contains, nat_eq,
}
use django_zed_rebac.Types.{
  SubjectRef, subject_ref, parse_subject, print_subject, parse_zookie, print_zookie, Zookie, hash,
  dot,
}
use django_zed_rebac.Types.Split.{split_once}
use django_zed_rebac.Types.RoundTrip.{
  IsPrintable, parse_subject-print_subject, print_subject-parse_subject, parse_zookie-print_zookie,
}

abbrev eng_members : SubjectRef
eng_members = subject_ref (codes "auth/group") (codes "eng") (codes "member")

print_eng_members : print_subject eng_members ≡ codes "auth/group:eng#member"
unfolding print_subject
print_eng_members = refl

parse_without_colon : parse_subject (codes "auth/group#member") ≡ none
unfolding parse_subject contains split_once
parse_without_colon = refl

eng_members-IsPrintable : IsPrintable eng_members
unfolding contains
eng_members-IsPrintable = record { type_no_colon = refl; type_no_hash = refl; id_no_hash = refl }

parse_subject-print_subject_example : parse_subject (print_subject eng_members) ≡ some eng_members
parse_subject-print_subject_example =
    parse_subject-print_subject eng_members eng_members-IsPrintable

abbrev open_set : SubjectRef
open_set = subject_ref (codes "auth/group") (codes "eng") []

parse_open_set : parse_subject (codes "auth/group:eng#") ≡ some open_set
unfolding parse_subject contains split_once
parse_open_set = refl

print_subject-parse_subject_example :
    (print_subject open_set ≡ codes "auth/group:eng#")
    ⊎ ((open_set.optional_relation ≡ [])
        × (print_subject open_set ++ hash ∷ [] ≡ codes "auth/group:eng#"))
print_subject-parse_subject_example =
    print_subject-parse_subject (codes "auth/group:eng#") open_set parse_open_set

abbrev local_token : Zookie
local_token = record { backend = codes "local"; token = codes "42" }

local_no_dot : contains (codes "local") dot ≡ false
unfolding contains
local_no_dot = refl

parse_zookie-print_zookie_example :
    (parse_zookie (print_zookie local_token) ≡ some local_token)
    × (parse_zookie (codes "local.42") ≡ some local_token
        → print_zookie local_token ≡ codes "local.42")
parse_zookie-print_zookie_example =
    parse_zookie-print_zookie local_token (codes "local.42") local_no_dot
