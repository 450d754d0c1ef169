-- ===== src/Rendering/RoundTrip.antt =====
-- A rendered permission expression is read back: src/rebac/schema/rendering.py against
-- src/rebac/schema/parser.py, from text to text.
use django_zed_rebac.Prelude.{
  ℕ, suc, ◌+◌, ◌-◌, ◌≤◌, Text, true, false, [], ◌∷◌, ◌++◌, ◌≡◌, ◌≢◌, refl, arith, length,
  length-append, append-nil, codes, contains, nat_eq, list_eq, list_beq, ==_iff,
}
use django_zed_rebac.Schema.{PermExpr, ref, arrow, bin_op, nil, Op, union, intersection, exclusion}
use django_zed_rebac.Parser.{
  Result, ok, bind, keyword, punct, eof, op_sign, nil_word, Unicode, word_kind, token, slash,
  tokenize, parse_permission_expression, is_token, starts_name, lparen, is_name,
}
use django_zed_rebac.Parser.Spelling.{
  Spelled, nil_spelled, ref_spelled, arrow_spelled, op_spelled, parse_permission_expression-Spelled,
}
use django_zed_rebac.Rendering.Defs.{render_expr}
use django_zed_rebac.Rendering.Lexing.{
  IsWord, WellNamed, width, rounds, spell, width-bin_op, lex-render_expr,
}

-- A text parsed as a permission expression alone. The scan of the constructor for directives in
-- `// rebac:` comments is left out: it does not change the tokens, and a text without such a
-- comment, as every rendered expression, passes it.
abbrev pub read_expression : Unicode → Text → Result PermExpr
read_expression u s = bind (tokenize u s) parse_permission_expression

word_starts_name : (n : Text) (line col : ℕ) → starts_name (token (word_kind n) n line col) ≡ true
unfolding word_kind
word_starts_name n line col = ground arith

word_not_punct :
    (n v : Text) (line col : ℕ) → is_token punct v (token (word_kind n) n line col) ≡ false
unfolding word_kind
word_not_punct n v line col = ground arith

word_not_nil :
    (n : Text) (line col : ℕ)
    → n ≢ nil_word
    → is_token keyword nil_word (token (word_kind n) n line col) ≡ false
word_not_nil n line col h = ground (arith, ==_iff n nil_word)

word_is_name :
    (n : Text) (line col : ℕ)
    → contains n slash ≡ false
    → is_name (token (word_kind n) n line col) ≡ true
unfolding word_kind
word_is_name n line col h = ground arith

spell-Spelled : (e : PermExpr) (line col : ℕ) → WellNamed e → Spelled e (spell e line col)
unfolding spell list_beq
spell-Spelled nil line col w = nil_spelled _ refl refl
spell-Spelled (ref n) line col (a, h) =
    ref_spelled _ (word_not_nil n line col h) (word_starts_name n line col)
      (word_not_punct n lparen line col) refl
spell-Spelled (arrow via target) line col (a, h, b, c) =
    arrow_spelled _ _ _ (word_not_nil via line col h) (word_starts_name via line col)
      (word_not_punct via lparen line col) refl (word_is_name target line (col + length via + 2) c)
      refl
spell-Spelled (bin_op op l r) line col (wl, wr) =
    op_spelled op _ _ _ refl (spell-Spelled l line (col + 1) wl)
      (op_token op line (col + 1 + width l + 1))
      (spell-Spelled r line (col + 1 + width l + 1 + 1 + 1) wr) refl refl
  where
    op_token :
        (op : Op) (line col : ℕ)
        → is_token punct (op_sign op) (token punct (op_sign op) line col) ≡ true
    op_token union line col = refl
    op_token intersection line col = refl
    op_token exclusion line col = refl

-- Each round reads at least one character.
word_pos : (n : Text) → IsWord n → 1 ≤ length n
word_pos [] (h, p) = cc
word_pos (c ∷ n) h = omega arith

rounds-add : (e : PermExpr) (f : ℕ) → rounds e f ≡ rounds e 0 + f
rounds-add nil f = omega arith
rounds-add (ref n) f = omega arith
rounds-add (arrow via target) f = omega arith
rounds-add (bin_op op l r) f = omega (
  arith,
  rounds-add l (suc (suc (suc (rounds r (suc f))))),
  rounds-add r (suc f),
  rounds-add l (suc (suc (suc (rounds r 1)))),
  rounds-add r 1,
)

rounds-le : (e : PermExpr) → WellNamed e → rounds e 0 ≤ width e
unfolding render_expr
rounds-le nil w = omega arith
rounds-le (ref n) w = word_pos n w.0
rounds-le (arrow via target) (a, h, b, c) =
    omega (arith, word_pos via a, word_pos target b, length-append via (codes "->" ++ target))
rounds-le (bin_op op l r) (wl, wr) = omega (
  arith,
  rounds-le l wl,
  rounds-le r wr,
  width-bin_op op l r 0,
  rounds-add l (suc (suc (suc (rounds r 1)))),
  rounds-add r 1,
)

tokenize-render_expr :
    (u : Unicode) (e : PermExpr)
    → WellNamed e
    → tokenize u (render_expr e) ≡ ok (spell e 1 1 ++ (token eof [] 1 (1 + width e) ∷ []))
unfolding tokenize
tokenize-render_expr u e w =
    let g = width e - rounds e 0 in
    let fuel : suc (length (render_expr e)) ≡ rounds e (suc g) =
      omega (arith, rounds-le e w, rounds-add e (suc g)) in
    let run = lex-render_expr u e (suc g) 1 1 [] w tt in rw (fuel) (rw append-nil at run)

-- An expression whose names are words of the language is read back from its canonical text: the
-- text is accepted as a whole and gives the same tree.
pub read_expression-render_expr :
    (u : Unicode) (e : PermExpr) → WellNamed e → read_expression u (render_expr e) ≡ ok e
read_expression-render_expr u e w = rw (tokenize-render_expr u e w) (
    parse_permission_expression-Spelled e (spell e 1 1) (token eof [] 1 (1 + width e))
      (spell-Spelled e 1 1 w) refl)
