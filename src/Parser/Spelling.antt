-- ===== src/Parser/Spelling.antt =====
-- The parser on the tokens of a fully parenthesised expression, which is how
-- src/rebac/schema/rendering.py writes one.
use django_zed_rebac.Prelude.{
  ℕ, zero, suc, ◌+◌, ◌-◌, ◌*◌, ◌≤◌, Text, true, false, [], ◌∷◌, ◌++◌, ◌≡◌, refl, arith, length,
  length-append, append_assoc, ◌==◌, ==_iff, nat_eq, list_eq, list_beq,
}
use django_zed_rebac.Schema.{PermExpr, ref, arrow, bin_op, nil, Op, union, intersection, exclusion}
use django_zed_rebac.Parser.Outcome.{ok}
use django_zed_rebac.Parser.Stream.{
  Token, Tokens, Kind, same_kind, keyword, punct, is_token, is_name, at, lparen, rparen, arrow_sign,
  nil_word,
}
use django_zed_rebac.Parser.Expr.{
  op_sign, starts_name, parse_exclusion, parse_atom, enough, parse_permission_expression,
}

-- The tokens of an expression in which each operator has its own parentheses.
pub data Spelled : PermExpr → Tokens → Type 0 where
  nil_spelled :
      {e : PermExpr} (t : Token) → is_token keyword nil_word t ≡ true → e ≡ nil → Spelled e (t ∷ [])
  ref_spelled :
      {e : PermExpr} (t : Token)
      → is_token keyword nil_word t ≡ false
      → starts_name t ≡ true
      → is_token punct lparen t ≡ false
      → e ≡ ref t.value
      → Spelled e (t ∷ [])
  arrow_spelled :
      {e : PermExpr} (t a u : Token)
      → is_token keyword nil_word t ≡ false
      → starts_name t ≡ true
      → is_token punct lparen t ≡ false
      → is_token punct arrow_sign a ≡ true
      → is_name u ≡ true
      → e ≡ arrow t.value u.value
      → Spelled e (t ∷ a ∷ u ∷ [])
  op_spelled :
      {l r : PermExpr} {ts us ws : Tokens} (op : Op) (a o b : Token)
      → is_token punct lparen a ≡ true
      → Spelled l ts
      → is_token punct (op_sign op) o ≡ true
      → Spelled r us
      → is_token punct rparen b ≡ true
      → ws ≡ a ∷ (ts ++ (o ∷ (us ++ (b ∷ []))))
      → Spelled (bin_op op l r) ws

other_sign :
    (v w : Text) (t : Token)
    → is_token punct v t ≡ true
    → (v == w) ≡ false
    → is_token punct w t ≡ false
other_sign v w t h n = ground (arith, ==_iff t.value v)

not_nil : (v : Text) (t : Token) → is_token punct v t ≡ true → is_token keyword nil_word t ≡ false
not_nil v t h = ground arith

-- Parsing an operand with enough fuel, whatever follows but an arrow sign.
abbrev Parses : PermExpr → Tokens → Type 0
Parses e ts =
    (f : ℕ) (rest : Tokens)
    → 4 * length ts + 1 ≤ f
    → at punct arrow_sign rest ≡ false
    → parse_atom f (ts ++ rest) ≡ ok (e, rest)

op_not_arrow :
    (op : Op) (o : Token)
    → is_token punct (op_sign op) o ≡ true
    → is_token punct arrow_sign o ≡ false
unfolding list_beq
op_not_arrow union o h = other_sign (op_sign union) arrow_sign o h refl
op_not_arrow intersection o h = other_sign (op_sign intersection) arrow_sign o h refl
op_not_arrow exclusion o h = other_sign (op_sign exclusion) arrow_sign o h refl

-- The inside of a pair of parentheses.
inside :
    (op : Op) {l r : PermExpr} (ts us : Tokens) (o b : Token) (rest : Tokens) (f : ℕ)
    → Parses l ts
    → Parses r us
    → is_token punct (op_sign op) o ≡ true
    → is_token punct rparen b ≡ true
    → 4 * length ts + 4 * length us + 2 ≤ f
    → parse_exclusion (suc (suc (suc (suc (suc (suc f)))))) (ts ++ (o ∷ (us ++ (b ∷ rest))))
      ≡ ok (bin_op op l r, b ∷ rest)
unfolding parse_exclusion list_beq
inside op {l} {r} ts us o b rest f pl pr ho hb n =
    let left =
      pl (suc (suc (suc f))) (o ∷ (us ++ (b ∷ rest))) (omega arith) (op_not_arrow op o ho) in
    let right =
      pr (suc (suc f)) (b ∷ rest) (omega arith) (other_sign rparen arrow_sign b hb refl) in
    let b1 = other_sign rparen (op_sign union) b hb refl in
    let b2 = other_sign rparen (op_sign intersection) b hb refl in
    let b3 = other_sign rparen (op_sign exclusion) b hb refl in finish op left right b1 b2 b3 ho
  where
    finish :
        (op : Op)
        → parse_atom (suc (suc (suc f))) (ts ++ (o ∷ (us ++ (b ∷ rest))))
          ≡ ok (l, o ∷ (us ++ (b ∷ rest)))
        → parse_atom (suc (suc f)) (us ++ (b ∷ rest)) ≡ ok (r, b ∷ rest)
        → is_token punct (op_sign union) b ≡ false
        → is_token punct (op_sign intersection) b ≡ false
        → is_token punct (op_sign exclusion) b ≡ false
        → is_token punct (op_sign op) o ≡ true
        → parse_exclusion (suc (suc (suc (suc (suc (suc f)))))) (ts ++ (o ∷ (us ++ (b ∷ rest))))
          ≡ ok (bin_op op l r, b ∷ rest)
    finish union left right b1 b2 b3 ho = rw (left, ho, right, b1, b2, b3)
    finish intersection left right b1 b2 b3 ho =
        rw (left, other_sign _ (op_sign union) o ho refl, ho, right, b1, b2, b3)
    finish exclusion left right b1 b2 b3 ho = rw (
      left,
      other_sign (op_sign exclusion) (op_sign union) o ho refl,
      other_sign (op_sign exclusion) (op_sign intersection) o ho refl,
      ho,
      right,
      b1,
      b2,
      b3,
    )

parens-Parses :
    (op : Op) {l r : PermExpr} (ts us : Tokens) (a o b : Token)
    → is_token punct lparen a ≡ true
    → Parses l ts
    → is_token punct (op_sign op) o ≡ true
    → Parses r us
    → is_token punct rparen b ≡ true
    → Parses (bin_op op l r) (a ∷ (ts ++ (o ∷ (us ++ (b ∷ [])))))
unfolding parse_atom
parens-Parses op {l} {r} ts us a o b ha pl ho pr hb f rest n k =
    let room = length-append ts (o ∷ (us ++ (b ∷ []))) in
    let room' = length-append us (b ∷ []) in
    let e : f ≡ suc (suc (suc (suc (suc (suc (suc (f - 7))))))) = omega arith in
    let flat : (ts ++ (o ∷ (us ++ (b ∷ [])))) ++ rest ≡ ts ++ (o ∷ (us ++ (b ∷ rest))) =
      simp append_assoc in
    rw (e, flat, ha, inside op ts us o b rest (f - 7) pl pr ho hb (omega arith), hb)

keyword_not_punct :
    (v w : Text) (t : Token) → is_token keyword v t ≡ true → is_token punct w t ≡ false
keyword_not_punct v w t h = ground arith

eof_not_punct :
    (w : Text) (t : Token) → same_kind t.kind Kind.eof ≡ true → is_token punct w t ≡ false
eof_not_punct w t h = ground arith

-- An operand before the end of the input is a whole expression.
before_end :
    {e : PermExpr} (ts : Tokens) (end : Token) (f : ℕ)
    → same_kind end.kind Kind.eof ≡ true
    → parse_atom (suc f) ts ≡ ok (e, end ∷ [])
    → parse_exclusion (suc (suc (suc (suc f)))) ts ≡ ok (e, end ∷ [])
unfolding parse_exclusion
before_end ts end f h p = rw (
  p,
  eof_not_punct (op_sign union) end h,
  eof_not_punct (op_sign intersection) end h,
  eof_not_punct (op_sign exclusion) end h,
)

parse_atom-Spelled : {e : PermExpr} {ts : Tokens} → Spelled e ts → Parses e ts
unfolding parse_atom
parse_atom-Spelled (nil_spelled t h p) zero rest n k = absurd (omega arith)
parse_atom-Spelled (nil_spelled t h p) (suc f) rest n k =
    rw (keyword_not_punct nil_word lparen t h, h, p)
parse_atom-Spelled (ref_spelled t h s x p) zero rest n k = absurd (omega arith)
parse_atom-Spelled (ref_spelled t h s x p) (suc f) rest n k = rw (x, h, s, k, p)
parse_atom-Spelled (arrow_spelled t a u h s x q y p) zero rest n k = absurd (omega arith)
parse_atom-Spelled (arrow_spelled t a u h s x q y p) (suc f) rest n k = rw (x, h, s, q, y, p)
parse_atom-Spelled (op_spelled {ts} {us} op a o b ha dl ho dr hb p) f rest n k = rw p (
    parens-Parses op ts us a o b ha (parse_atom-Spelled dl) ho (parse_atom-Spelled dr) hb f rest
      (rw p at n) k)

-- A permission expression whose operators all have their own parentheses is read back as its
-- tree: the tokens in front of the end token are read completely.
pub parse_permission_expression-Spelled :
    (e : PermExpr) (ts : Tokens) (end : Token)
    → Spelled e ts
    → same_kind end.kind Kind.eof ≡ true
    → parse_permission_expression (ts ++ (end ∷ [])) ≡ ok e
unfolding parse_permission_expression
parse_permission_expression-Spelled e ts end d h =
    let room = length-append ts (end ∷ []) in
    let e' : enough (ts ++ (end ∷ [])) ≡ suc (suc (suc (suc (4 * length ts + 4)))) = omega arith in
    rw (
      e',
      before_end (ts ++ (end ∷ [])) end (4 * length ts + 4) h (
          parse_atom-Spelled d (suc (4 * length ts + 4)) (end ∷ []) (omega arith)
            (eof_not_punct arrow_sign end h)),
      h,
    )
