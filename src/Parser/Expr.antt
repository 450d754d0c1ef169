-- ===== src/Parser/Expr.antt =====
-- Permission expressions, by recursive descent: src/rebac/schema/parser.py,
-- `_parse_expr_exclusion` and below. The `while` loops are functions over the operand that is
-- built so far. What a call leaves is no structural part of its input, so each call and each
-- round costs a unit of fuel.
use django_zed_rebac.Prelude.{
  ℕ, zero, suc, ◌+◌, ◌*◌, Text, Bool, codes, if◌then◌else◌, length, ◌||◌,
}
use django_zed_rebac.Schema.{PermExpr, ref, arrow, bin_op, nil, Op, union, intersection, exclusion}
use django_zed_rebac.Parser.Outcome
use django_zed_rebac.Parser.Outcome.{Result, ok, parse_error, out_of_fuel}
use django_zed_rebac.Parser.Stream.{
  Token, Tokens, Parser, same_kind, ident, type, keyword, punct, at, at_eof, consume, expect,
  expect_name, lparen, rparen, arrow_sign, nil_word,
}

abbrev pub op_sign : Op → Text
op_sign union = codes "+"
op_sign intersection = codes "&"
op_sign exclusion = codes "-"

-- The reference or arrow that begins with this token.
unfoldable pub arrow_or_ref : Token → Parser PermExpr
unfolding at consume expect_name
arrow_or_ref t ts =
    if at punct arrow_sign ts
    then Outcome.bind (consume ts) (λ (_, us).
      Outcome.bind (expect_name us) λ (target, vs). ok (arrow t.value target.value, vs))
    else ok (ref t.value, ts)

abbrev pub starts_name : Token → Bool
starts_name t = same_kind t.kind ident || (same_kind t.kind type || same_kind t.kind keyword)

unfoldable pub name_atom : Parser PermExpr
unfolding arrow_or_ref consume
name_atom ts =
    Outcome.bind (consume ts) λ (t, us). if starts_name t then arrow_or_ref t us else parse_error

unfoldable pub nil_or_name : Parser PermExpr
unfolding at name_atom consume
nil_or_name ts =
    if at keyword nil_word ts
    then Outcome.bind (consume ts) (λ (_, us). ok (nil, us))
    else name_atom ts

unfoldable mutual
  unfolding at consume expect nil_or_name

  pub parse_exclusion : ℕ → Parser PermExpr
  parse_exclusion zero ts = out_of_fuel
  parse_exclusion (suc f) ts =
      Outcome.bind (parse_intersection f ts) λ (l, us). exclusion_rest f l us

  pub exclusion_rest : ℕ → PermExpr → Parser PermExpr
  exclusion_rest zero l ts = out_of_fuel
  exclusion_rest (suc f) l ts =
      let more = Outcome.bind (consume ts) λ (_, us).
        Outcome.bind (parse_intersection f us)
          λ (r, vs). exclusion_rest f (bin_op exclusion l r) vs in
      if at punct (op_sign exclusion) ts then more else ok (l, ts)

  pub parse_intersection : ℕ → Parser PermExpr
  parse_intersection zero ts = out_of_fuel
  parse_intersection (suc f) ts =
      Outcome.bind (parse_union f ts) λ (l, us). intersection_rest f l us

  pub intersection_rest : ℕ → PermExpr → Parser PermExpr
  intersection_rest zero l ts = out_of_fuel
  intersection_rest (suc f) l ts =
      let more = Outcome.bind (consume ts) λ (_, us).
        Outcome.bind (parse_union f us)
          λ (r, vs). intersection_rest f (bin_op intersection l r) vs in
      if at punct (op_sign intersection) ts then more else ok (l, ts)

  pub parse_union : ℕ → Parser PermExpr
  parse_union zero ts = out_of_fuel
  parse_union (suc f) ts = Outcome.bind (parse_atom f ts) λ (l, us). union_rest f l us

  pub union_rest : ℕ → PermExpr → Parser PermExpr
  union_rest zero l ts = out_of_fuel
  union_rest (suc f) l ts =
      let more =
        Outcome.bind (consume ts)
          λ (_, us). Outcome.bind (parse_atom f us) λ (r, vs). union_rest f (bin_op union l r) vs in
      if at punct (op_sign union) ts then more else ok (l, ts)

  pub parse_atom : ℕ → Parser PermExpr
  parse_atom zero ts = out_of_fuel
  parse_atom (suc f) ts =
      let inner = Outcome.bind (consume ts) λ (_, us).
        Outcome.bind (parse_exclusion f us)
          λ (e, vs). Outcome.bind (expect punct rparen vs) λ (_, ws). ok (e, ws) in
      if at punct lparen ts then inner else nil_or_name ts

-- Fuel for any run over a token list.
abbrev pub enough : Tokens → ℕ
enough ts = 4 * length ts + 4

-- `parse_permission_expression`: the expression and then the end of the input.
unfoldable pub parse_permission_expression : Tokens → Result PermExpr
unfolding parse_exclusion at_eof
parse_permission_expression ts =
    Outcome.bind (parse_exclusion (enough ts) ts) λ (e, us). if at_eof us then ok e else parse_error
