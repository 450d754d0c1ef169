-- ===== src/Parser/Grammar.antt =====
-- The grammar of permission expressions, and that the parser of src/rebac/schema/parser.py
-- returns only what the grammar derives and never runs out of fuel. `+` binds tightest, then `&`,
-- then `-`, and each operator associates to the left.
use django_zed_rebac.Prelude.{
  ℕ, zero, suc, ◌+◌, ◌*◌, ◌≤◌, ◌<◌, Text, true, false, [], ◌∷◌, ◌++◌, ◌≡◌, refl, arith, length,
  length-append, append_assoc, append-nil, ap,
}
use django_zed_rebac.Schema.{PermExpr, ref, arrow, bin_op, nil, union, intersection, exclusion}
use django_zed_rebac.Parser.Outcome.{
  Yields, returns, fails, overruns, Yields-map, Yields-bind, Yields-if,
}
use django_zed_rebac.Parser.Stream.{
  Token, Tokens, keyword, punct, is_token, is_name, at_eof, expect, lparen, rparen, arrow_sign,
  nil_word,
}
use django_zed_rebac.Parser.Expr.{
  op_sign, arrow_or_ref, starts_name, nil_or_name, parse_exclusion, exclusion_rest,
  parse_intersection, intersection_rest, parse_union, union_rest, parse_atom, enough,
  parse_permission_expression,
}

pub data Level : Type 0 where
  exclusions intersections unions atoms : Level

-- `Reads level e ts`: the tokens `ts` are an expression of this level with the tree `e`.
pub data Reads : Level → PermExpr → Tokens → Type 0 where
  one_intersection : {e : PermExpr} {ts : Tokens} → Reads intersections e ts → Reads exclusions e ts
  one_union : {e : PermExpr} {ts : Tokens} → Reads unions e ts → Reads intersections e ts
  one_atom : {e : PermExpr} {ts : Tokens} → Reads atoms e ts → Reads unions e ts
  minus :
      {l r : PermExpr} {ts us ws : Tokens} (t : Token)
      → Reads exclusions l ts
      → is_token punct (op_sign exclusion) t ≡ true
      → Reads intersections r us
      → ws ≡ ts ++ (t ∷ us)
      → Reads exclusions (bin_op exclusion l r) ws
  both :
      {l r : PermExpr} {ts us ws : Tokens} (t : Token)
      → Reads intersections l ts
      → is_token punct (op_sign intersection) t ≡ true
      → Reads unions r us
      → ws ≡ ts ++ (t ∷ us)
      → Reads intersections (bin_op intersection l r) ws
  plus :
      {l r : PermExpr} {ts us ws : Tokens} (t : Token)
      → Reads unions l ts
      → is_token punct (op_sign union) t ≡ true
      → Reads atoms r us
      → ws ≡ ts ++ (t ∷ us)
      → Reads unions (bin_op union l r) ws
  nil_literal : (t : Token) → is_token keyword nil_word t ≡ true → Reads atoms nil (t ∷ [])
  name :
      {e : PermExpr} (t : Token)
      → is_token keyword nil_word t ≡ false
      → starts_name t ≡ true
      → e ≡ ref t.value
      → Reads atoms e (t ∷ [])
  path :
      {e : PermExpr} (t a u : Token)
      → is_token keyword nil_word t ≡ false
      → starts_name t ≡ true
      → is_token punct arrow_sign a ≡ true
      → is_name u ≡ true
      → e ≡ arrow t.value u.value
      → Reads atoms e (t ∷ a ∷ u ∷ [])
  parens :
      {e : PermExpr} {ts ws : Tokens} (a b : Token)
      → is_token punct lparen a ≡ true
      → Reads exclusions e ts
      → is_token punct rparen b ≡ true
      → ws ≡ a ∷ (ts ++ (b ∷ []))
      → Reads atoms e ws

-- What a parser of a level returns on `ts`: a tree of a non-empty beginning of `ts`, and the rest.
abbrev Front : Level → Tokens → PermExpr × Tokens → Type 0
Front lv ts (e, rest) = (us : Tokens) × Reads lv e us × (ts ≡ us ++ rest) × (0 < length us)

-- What a loop returns, from a left operand that was read off `ls`.
abbrev Onward : Level → Tokens → Tokens → PermExpr × Tokens → Type 0
Onward lv ls ts (e, rest) = (us : Tokens) × Reads lv e (ls ++ us) × (ts ≡ us ++ rest)

arrow_or_ref-Front :
    (t : Token) (ts : Tokens)
    → is_token keyword nil_word t ≡ false
    → starts_name t ≡ true
    → Yields (Front atoms (t ∷ ts)) (arrow_or_ref t ts)
unfolding arrow_or_ref
arrow_or_ref-Front t [] h k = returns (t ∷ [], name t h k refl, refl, omega arith)
arrow_or_ref-Front t (a ∷ []) h k =
    Yields-if (is_token punct arrow_sign a) (λ x. overruns)
      (λ x. returns (t ∷ [], name t h k refl, refl, omega arith))
arrow_or_ref-Front t (a ∷ u ∷ ts) h k =
    Yields-if (is_token punct arrow_sign a)
      (λ x.
        Yields-bind
          (Yields-if {P = λ (v, vs). (v ≡ u) × (vs ≡ ts) × (is_name u ≡ true)} (is_name u)
            (λ y. returns (refl, refl, y)) (λ y. fails))
          (λ (v, vs) y.
            returns (t ∷ a ∷ u ∷ [], path t a u h k x y.2 (rw y.0), rw y.1, omega arith)))
      (λ x. returns (t ∷ [], name t h k refl, refl, omega arith))

nil_or_name-Front : (ts : Tokens) → Yields (Front atoms ts) (nil_or_name ts)
unfolding nil_or_name
nil_or_name-Front [] = overruns
nil_or_name-Front (t ∷ ts) =
    Yields-if (is_token keyword nil_word t)
      (λ x. returns (t ∷ [], nil_literal t x, refl, omega arith))
      (λ x. Yields-if (starts_name t) (λ y. arrow_or_ref-Front t ts x y) (λ y. fails))

expect-Front :
    (v : Text) (ts : Tokens)
    → Yields (λ (t, rest). (ts ≡ t ∷ rest) × (is_token punct v t ≡ true)) (expect punct v ts)
unfolding expect
expect-Front v [] = overruns
expect-Front v (t ∷ ts) = Yields-if (is_token punct v t) (λ x. returns (refl, x)) (λ x. fails)

-- What a round of a loop has read is put in front of what the next rounds read.
Onward-cons :
    {lv : Level} (ls us : Tokens) {ts vs : Tokens} (t : Token) (out : PermExpr × Tokens)
    → ts ≡ us ++ vs
    → Onward lv (ls ++ (t ∷ us)) vs out
    → Onward lv ls (t ∷ ts) out
Onward-cons ls us t (e, rest) h (ws, k, p) =
    (t ∷ (us ++ ws), rw append_assoc at k, simp (h, p, append_assoc))

Onward-Front :
    {lv : Level} (us : Tokens) {ts vs : Tokens} (out : PermExpr × Tokens)
    → 0 < length us
    → ts ≡ us ++ vs
    → Onward lv us vs out
    → Front lv ts out
Onward-Front us (e, rest) n h (ws, k, p) =
    (us ++ ws, k, simp (h, p, append_assoc), omega (arith, length-append us ws))

shorter : (us vs : Tokens) {ts : Tokens} → 0 < length us → ts ≡ us ++ vs → length vs < length ts
shorter us vs n h = omega (arith, ap length h, length-append us vs)

-- One induction on the fuel: an operand takes at least one token, so the bound falls.
mutual
  unfolding parse_exclusion

  parse_exclusion-Front :
      (f : ℕ) (ts : Tokens)
      → 4 * length ts + 4 ≤ f
      → Yields (Front exclusions ts) (parse_exclusion f ts)
  parse_exclusion-Front zero ts h = absurd (omega arith)
  parse_exclusion-Front (suc f) ts h =
      Yields-bind (parse_intersection-Front f ts (omega arith)) λ (l, vs) (us, d, e, n).
        Yields-map (λ out o. Onward-Front us out n e o)
          (exclusion_rest-Onward f l us vs (one_intersection d) (omega (arith, shorter us vs n e)))

  exclusion_rest-Onward :
      (f : ℕ) (l : PermExpr) (ls ts : Tokens)
      → Reads exclusions l ls
      → 4 * length ts + 1 ≤ f
      → Yields (Onward exclusions ls ts) (exclusion_rest f l ts)
  exclusion_rest-Onward zero l ls ts d h = absurd (omega arith)
  exclusion_rest-Onward (suc f) l ls [] d h = returns ([], rw append-nil d, refl)
  exclusion_rest-Onward (suc f) l ls (t ∷ ts) d h =
      Yields-if (is_token punct (op_sign exclusion) t)
        (λ x. Yields-bind (parse_intersection-Front f ts (omega arith)) λ (r, vs) (us, k, e, n).
          Yields-map (λ out o. Onward-cons ls us t out e o)
            (exclusion_rest-Onward f (bin_op exclusion l r) (ls ++ (t ∷ us)) vs (minus t d x k refl)
              (omega (arith, shorter us vs n e))))
        (λ x. returns ([], rw append-nil d, refl))

  parse_intersection-Front :
      (f : ℕ) (ts : Tokens)
      → 4 * length ts + 3 ≤ f
      → Yields (Front intersections ts) (parse_intersection f ts)
  parse_intersection-Front zero ts h = absurd (omega arith)
  parse_intersection-Front (suc f) ts h =
      Yields-bind (parse_union-Front f ts (omega arith)) λ (l, vs) (us, d, e, n).
        Yields-map (λ out o. Onward-Front us out n e o)
          (intersection_rest-Onward f l us vs (one_union d) (omega (arith, shorter us vs n e)))

  intersection_rest-Onward :
      (f : ℕ) (l : PermExpr) (ls ts : Tokens)
      → Reads intersections l ls
      → 4 * length ts + 1 ≤ f
      → Yields (Onward intersections ls ts) (intersection_rest f l ts)
  intersection_rest-Onward zero l ls ts d h = absurd (omega arith)
  intersection_rest-Onward (suc f) l ls [] d h = returns ([], rw append-nil d, refl)
  intersection_rest-Onward (suc f) l ls (t ∷ ts) d h =
      Yields-if (is_token punct (op_sign intersection) t)
        (λ x. Yields-bind (parse_union-Front f ts (omega arith)) λ (r, vs) (us, k, e, n).
          Yields-map (λ out o. Onward-cons ls us t out e o)
            (intersection_rest-Onward f (bin_op intersection l r) (ls ++ (t ∷ us)) vs
              (both t d x k refl) (omega (arith, shorter us vs n e))))
        (λ x. returns ([], rw append-nil d, refl))

  parse_union-Front :
      (f : ℕ) (ts : Tokens) → 4 * length ts + 2 ≤ f → Yields (Front unions ts) (parse_union f ts)
  parse_union-Front zero ts h = absurd (omega arith)
  parse_union-Front (suc f) ts h =
      Yields-bind (parse_atom-Front f ts (omega arith)) λ (l, vs) (us, d, e, n).
        Yields-map (λ out o. Onward-Front us out n e o)
          (union_rest-Onward f l us vs (one_atom d) (omega (arith, shorter us vs n e)))

  union_rest-Onward :
      (f : ℕ) (l : PermExpr) (ls ts : Tokens)
      → Reads unions l ls
      → 4 * length ts + 1 ≤ f
      → Yields (Onward unions ls ts) (union_rest f l ts)
  union_rest-Onward zero l ls ts d h = absurd (omega arith)
  union_rest-Onward (suc f) l ls [] d h = returns ([], rw append-nil d, refl)
  union_rest-Onward (suc f) l ls (t ∷ ts) d h =
      Yields-if (is_token punct (op_sign union) t)
        (λ x. Yields-bind (parse_atom-Front f ts (omega arith)) λ (r, vs) (us, k, e, n).
          Yields-map (λ out o. Onward-cons ls us t out e o)
            (union_rest-Onward f (bin_op union l r) (ls ++ (t ∷ us)) vs (plus t d x k refl)
              (omega (arith, shorter us vs n e))))
        (λ x. returns ([], rw append-nil d, refl))

  parse_atom-Front :
      (f : ℕ) (ts : Tokens) → 4 * length ts + 1 ≤ f → Yields (Front atoms ts) (parse_atom f ts)
  parse_atom-Front zero ts h = absurd (omega arith)
  parse_atom-Front (suc f) [] h = nil_or_name-Front []
  parse_atom-Front (suc f) (t ∷ ts) h =
      Yields-if (is_token punct lparen t)
        (λ x. Yields-bind (parse_exclusion-Front f ts (omega arith)) λ (e, vs) (us, d, p, n).
          Yields-bind (expect-Front rparen vs) λ (c, ws) (q, y).
            returns
              (t ∷ (us ++ (c ∷ [])), parens t c x d y refl, simp (p, q, append_assoc), omega arith))
        (λ x. nil_or_name-Front (t ∷ ts))

-- A permission expression is accepted only as the grammar reads the whole input before the end
-- token, and the fuel that the entry point hands out is enough for every input.
pub parse_permission_expression_sound :
    (ts : Tokens)
    → Yields
        (λ e.
          (us : Tokens) × (rest : Tokens) × Reads exclusions e us
          × (ts ≡ us ++ rest)
          × (at_eof rest ≡ true))
        (parse_permission_expression ts)
unfolding parse_permission_expression
parse_permission_expression_sound ts =
    Yields-bind (parse_exclusion-Front (enough ts) ts (omega arith)) λ (e, rest) (us, d, p, n).
      Yields-if (at_eof rest) (λ x. returns (us, rest, d, p, x)) (λ x. fails)
