-- ===== src/Tests/Scopes.antt =====
-- Runs and instances for the scopes of src/rebac/actors.py, src/rebac/evaluator.py and
-- src/rebac/consistency.py.
use django_zed_rebac.Prelude.{
  Text, ◌≡◌, refl, arith, codes, [], ◌∷◌, if◌then◌else◌, false, some, none, List, Option, map,
  list_beq, contains, true, ◌==◌, list_eq, nat_eq,
}
use django_zed_rebac.Types.{CheckResult, has, denied, Zookie}
use django_zed_rebac.Actors.{Ambient, Block, finish, assign, as_actor, elevated, run}
use django_zed_rebac.Actors.Nesting.{run-sudo}
use django_zed_rebac.Evaluator.{Request, checks}
use django_zed_rebac.Evaluator.Cache.{IsSound, IsWellFormed, checks_exact}
use django_zed_rebac.Consistency.{scope, ℤ, pos, record_all}
use django_zed_rebac.Consistency.Latest.{done, token, IsFresh, record_all-IsFresh}
use django_zed_rebac.Tests.Actors.{strict, alice}

abbrev outside : Ambient
outside = record { actor = none; sudo = none }

abbrev job : Block
job =
    as_actor alice (elevated (some (codes "import")) (assign none finish) finish)
      (elevated none finish finish)

run-sudo_example : (run strict job outside).1.sudo ≡ outside.sudo
run-sudo_example = run-sudo strict job outside

abbrev request : Text → Request
request action = record {
  backend = 1;
  generation = some 7;
  subject = alice;
  action = action;
  resource = record { resource_type = codes "doc"; resource_id = codes "1" };
  context_key = some [];
  pinned = false;
}

-- A backend that grants reads, and writes at the pinned revision only.
abbrev backend : Request → CheckResult
backend q = if q.action == codes "read" then has else if q.pinned then has else denied

abbrev requests : List Request
requests =
    request (codes "read")
    ∷ (request (codes "write")
        ∷ (record (request (codes "write")) { pinned = true }
            ∷ (request (codes "read") ∷ (request (codes "write") ∷ []))))

request-IsWellFormed : (action : Text) → IsWellFormed (request action)
unfolding contains
request-IsWellFormed action =
    (record { type_no_colon = refl; type_no_hash = refl; id_no_hash = refl }, refl)

checks_exact_example :
    ((checks backend 2 requests []).0 ≡ map backend requests)
    × IsSound backend 2 (checks backend 2 requests []).1
checks_exact_example =
    checks_exact backend 2 requests []
      (
        request-IsWellFormed (codes "read"),
        (
          request-IsWellFormed (codes "write"),
          (
            request-IsWellFormed (codes "write"),
            (request-IsWellFormed (codes "read"), (request-IsWellFormed (codes "write"), tt)),
          ),
        ),
      )
      (omega arith, tt)

abbrev read_int : Text → Option ℤ
read_int t = if t == codes "5" then some (pos 5) else if t == codes "6" then some (pos 6) else none

abbrev zookie : Text → Zookie
zookie t = record { backend = codes "local"; token = t }

-- A token of another backend, from before.
abbrev elsewhere : Zookie
elsewhere = record { backend = codes "remote"; token = codes "6" }

record_all-IsFresh_example : IsFresh read_int (codes "local") (6 ∷ (5 ∷ [])) (
    record_all read_int
      (some (zookie (codes "6")) ∷ (some (zookie (codes "5")) ∷ []))
      (scope (some elsewhere)))
unfolding list_beq
record_all-IsFresh_example =
    record_all-IsFresh read_int (codes "local") (some elsewhere)
      (some (zookie (codes "6")) ∷ (some (zookie (codes "5")) ∷ [])) 6 (5 ∷ [])
      (token (refl, refl) (token (refl, refl) done))
