-- ===== src/Tests/Graph.antt =====
-- Instances for src/rebac/compile/program.py and the type unions of src/rebac/schema/parser.py.
use django_zed_rebac.Prelude.{
  Text, ◌≡◌, refl, sym, subst, arith, codes, [], ◌∷◌, if◌then◌else◌, false, true, Bool, Mem, here,
  there, list_beq, contains, find_first, none, ◌==◌, list_eq, nat_eq, ◌↔◌, List, inl, inr,
}
use django_zed_rebac.Schema.{
  AllowedSubject, PermExpr, ref, arrow, bin_op, exclusion, Schema, get_definition, find_relation,
}
use django_zed_rebac.Parser.{
  ok, Token, Tokens, token, ident, punct, keyword, eof, plain_subject, parse_subject_union, at,
}
use django_zed_rebac.Parser.Unions.{
  last, next, bare, bound, any, set_of_one, parse_subject_union-Union,
}
use django_zed_rebac.Program.{expr_dependencies, Dependency, arrow_vias}
use django_zed_rebac.Program.Polarity.{
  State, decided, Moves, Moved, Occurs, expr_dependencies-Moves,
}

-- viewer - folder->banned, over a folder of the type dir
abbrev viewer_not_banned : PermExpr
viewer_not_banned =
    bin_op exclusion (ref (codes "viewer")) (arrow (codes "folder") (codes "banned"))

abbrev documents : Schema
documents = record {
  definitions =
      (record {
        resource_type = codes "doc";
        relations =
            (record {
              name = codes "folder";
              allowed_subjects =
                  (record {
                    type = codes "dir";
                    relation = [];
                    wildcard = false;
                    with_caveat = [];
                    id = [];
                  })
                  ∷ [];
              with_expiration = false;
              backing = none;
            })
            ∷ [];
        permissions = [];
      })
      ∷ [];
  caveats = [];
  directives = [];
  headers = [];
}

-- Whether the subject is a viewer and is banned; the rows of other relations are the flag's too.
abbrev state : Bool → Bool → State
state v b = record {
  value = λ (t, n). if n == codes "viewer" then v else b;
  builtin = λ n. false;
  linked = λ via a. if via == codes "folder" then true else v;
}

abbrev MovedAt : Dependency → Type 0
MovedAt d = Moves d.1.0 ((state false true).value d.0) ((state true false).value d.0)

moved_at :
    (d : Dependency)
    → Mem d (expr_dependencies documents (codes "doc") viewer_not_banned false)
    → MovedAt d
unfolding expr_dependencies contains list_beq find_first get_definition find_relation
moved_at d (here p) = subst MovedAt (sym p) (λ h. refl)
moved_at d (there (here p)) = subst MovedAt (sym p) (λ h. refl)
moved_at d (there (there n)) = elim n [ ]

same_linked :
    (via : Text) (a : AllowedSubject)
    → Mem (codes "doc", via) (arrow_vias (codes "doc") viewer_not_banned)
    → (state false true).linked via a ≡ (state true false).linked via a
unfolding arrow_vias list_beq
same_linked via a (here p) =
    subst (λ (k : Text × Text). (state false true).linked k.1 a ≡ (state true false).linked k.1 a)
      (sym p) refl
same_linked via a (there n) = elim n [ ]

viewer_moves :
    Moved
      (codes "doc")
      (expr_dependencies documents (codes "doc") viewer_not_banned false)
      (arrow_vias (codes "doc") viewer_not_banned)
      (state false true)
      (state true false)
viewer_moves = record {
  same_builtin = λ n. refl;
  same_linked = same_linked;
  moves = λ k negative traverses m. moved_at (k, (negative, traverses)) m;
}

expr_dependencies-Moves_example :
    ((d : Dependency)
      → Mem d (expr_dependencies documents (codes "doc") viewer_not_banned false)
        ↔ Occurs documents (codes "doc") viewer_not_banned false d)
    × Moves false
        (decided documents (codes "doc") (state false true) viewer_not_banned)
        (decided documents (codes "doc") (state true false) viewer_not_banned)
expr_dependencies-Moves_example =
    expr_dependencies-Moves documents (codes "doc") viewer_not_banned false (state false true)
      (state true false) viewer_moves

abbrev symbol : Text → Token
symbol s = token punct s 1 1

abbrev word : Text → Token
word s = token ident s 1 1

-- with expiration
abbrev after : Tokens
after = token keyword (codes "with") 1 1 ∷ (word (codes "expiration") ∷ (token eof [] 1 1 ∷ []))

-- user | group:staff#member with office | team with expiration
abbrev union_tokens : Tokens
union_tokens =
    word (codes "user")
    ∷ (symbol (codes "|")
        ∷ (word (codes "group")
            ∷ (symbol (codes ":")
                ∷ (word (codes "staff")
                    ∷ (symbol (codes "#")
                        ∷ (word (codes "member")
                            ∷ (token keyword (codes "with") 1 1
                                ∷ (word (codes "office")
                                    ∷ (symbol (codes "|") ∷ (word (codes "team") ∷ after))))))))))

abbrev subjects : List AllowedSubject
subjects =
    plain_subject (codes "user")
    ∷ (record (plain_subject (codes "group")) {
      id = codes "staff";
      relation = codes "member";
      with_caveat = codes "office";
    }
        ∷ (plain_subject (codes "team") ∷ []))

parse_subject_union-Union_example : parse_subject_union 3 union_tokens ≡ ok (subjects, after)
unfolding list_beq at
parse_subject_union-Union_example =
    parse_subject_union-Union 3 subjects union_tokens after
      (next (bare (any refl) (refl, refl, inl refl)) refl (
        next (bound (set_of_one refl refl refl refl refl) refl refl refl) refl
          (last (bare (any refl) (refl, refl, inr refl)) (refl, refl, inr refl) refl)))
      (omega arith)
