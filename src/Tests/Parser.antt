-- ===== src/Tests/Parser.antt =====
-- Runs and instances for src/rebac/schema/parser.py and src/rebac/schema/rendering.py.
use django_zed_rebac.Prelude.{
  ℕ, inl, ◌≡◌, refl, codes, [], ◌∷◌, ◌++◌, false, true, list_beq, contains, arith,
}
use django_zed_rebac.Schema.{
  AllowedSubject, PermExpr, ref, arrow, bin_op, nil, union, intersection, exclusion,
}
use django_zed_rebac.Parser.{
  ok, bind, parse_subject_union, parse_error, Unicode, Tokens, at_eof, parse_permission_expression,
  tokenize, name_char, name_start, span_name, word_kind, eof, token, ident, Yields, skip_line,
}
use django_zed_rebac.Parser.Grammar.{Reads, exclusions, parse_permission_expression_sound}
use django_zed_rebac.Rendering.{render_expr, render_allowed_subject}
use django_zed_rebac.Rendering.Lexing.{WellNamed}
use django_zed_rebac.Rendering.Subjects.{IsSpellable, parse_subject_union-render_allowed_subject}
use django_zed_rebac.Rendering.RoundTrip.{read_expression, read_expression-render_expr}

abbrev ascii : Unicode
ascii = record { alpha = λ c. false; space = λ c. false; digit = λ c. false }

-- `+` binds tightest, and `-` loosest.
precedence :
    read_expression ascii (codes "a - b & c + d // e")
    ≡ ok (
        bin_op exclusion (ref (codes "a")) (
          bin_op intersection (ref (codes "b")) (bin_op union (ref (codes "c")) (ref (codes "d")))))
unfolding tokenize parse_permission_expression contains list_beq span_name word_kind name_char
    skip_line
precedence = refl

trailing : read_expression ascii (codes "a b") ≡ parse_error
unfolding tokenize parse_permission_expression contains list_beq span_name word_kind name_char
    skip_line
trailing = refl

-- ((folder->read + auth/x) - nil)
abbrev sample : PermExpr
sample =
    bin_op exclusion (bin_op union (arrow (codes "folder") (codes "read")) (ref (codes "auth/x")))
      nil

sample_text : render_expr sample ≡ codes "((folder->read + auth/x) - nil)"
unfolding render_expr
sample_text = refl

sample-WellNamed : WellNamed sample
unfolding span_name name_char name_start contains
sample-WellNamed =
    ((((refl, refl), ground arith, (refl, refl), refl), ((refl, refl), ground arith)), tt)

read_expression-render_expr_example : read_expression ascii (render_expr sample) ≡ ok sample
read_expression-render_expr_example = read_expression-render_expr ascii sample sample-WellNamed

abbrev two_tokens : Tokens
two_tokens = token ident (codes "a") 1 1 ∷ token eof [] 1 2 ∷ []

parse_permission_expression_sound_example :
    Yields
      (λ e.
        (us : Tokens) × (rest : Tokens) × Reads exclusions e us
        × (two_tokens ≡ us ++ rest)
        × (at_eof rest ≡ true))
      (parse_permission_expression two_tokens)
parse_permission_expression_sound_example = parse_permission_expression_sound two_tokens

-- auth/group:staff#member with office
abbrev staff : AllowedSubject
staff = record {
  type = codes "auth/group";
  relation = codes "member";
  wildcard = false;
  with_caveat = codes "office";
  id = codes "staff";
}

staff-IsSpellable : IsSpellable staff
unfolding name_start name_char span_name word_kind contains list_beq
staff-IsSpellable = record {
  named = ((refl, refl), refl);
  with_relation = ((refl, refl), refl);
  with_id = ((refl, refl), refl);
  with_caveat = ((refl, refl), refl, refl);
  alone = inl refl;
}

parse_subject_union-render_allowed_subject_example :
    (end : ℕ) × (bind (tokenize ascii (render_allowed_subject staff)) (parse_subject_union 1)
      ≡ ok (staff ∷ [], token eof [] 1 end ∷ []))
parse_subject_union-render_allowed_subject_example =
    parse_subject_union-render_allowed_subject ascii 0 staff staff-IsSpellable
