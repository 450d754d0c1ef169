-- ===== src/Rendering/Lexing.antt =====
-- The tokens of a rendered expression: src/rebac/schema/rendering.py read by the tokenizer of
-- src/rebac/schema/parser.py.
use django_zed_rebac.Prelude.{
  ℕ, suc, ◌+◌, Text, true, false, [], ◌∷◌, ◌++◌, ◌≡◌, ◌≢◌, refl, arith, length, length-append,
  append_assoc, ap, codes, contains, nat_eq, list_eq, list_beq, ◌==◌, ◌||◌, ◌∙◌,
}
use django_zed_rebac.Schema.{PermExpr, ref, arrow, bin_op, nil, Op, union, intersection, exclusion}
use django_zed_rebac.Parser.{
  Result, ok, bind, Token, Tokens, keyword, punct, op_sign, nil_word, Unicode, name_start,
  name_char, starts_segment, span_name, word_kind, token, prepend, lex, lex_round, lex_word, slash,
  newline, is_alpha, is_space,
}
use django_zed_rebac.Rendering.Defs.{render_expr}

-- Text that the tokenizer reads as one word, and text that ends a word before it.
abbrev pub IsWord : Text → Type 0
IsWord n = (starts_segment n ≡ true) × (span_name n ≡ (n, []))

abbrev pub Ends : Text → Type 0
Ends [] = Unit
Ends (c ∷ s) = (name_char c ≡ false) × (c ≢ slash)

span_name-Ends : (s : Text) → Ends s → span_name s ≡ ([], s)
unfolding span_name
span_name-Ends [] e = refl
span_name-Ends (c ∷ s) e = ground arith

span_name-append : (n s : Text) → span_name n ≡ (n, []) → Ends s → span_name (n ++ s) ≡ (n, s)
unfolding span_name
span_name-append [] s h e = span_name-Ends s e
span_name-append (c ∷ []) s h e = ground (arith, span_name-Ends s e)
span_name-append (c ∷ d ∷ n) s h e = ground (arith, span_name-append (d ∷ n) s)

start_not_newline : (c : ℕ) → name_start c ≡ true → (c == newline) ≡ false
unfolding name_start
start_not_newline c h = ground arith

start_not_slash : (c : ℕ) → name_start c ≡ true → (c == slash) ≡ false
unfolding name_start
start_not_slash c h = ground arith

start_not_space : (u : Unicode) (c : ℕ) → name_start c ≡ true → is_space u c ≡ false
unfolding name_start
start_not_space u c h = ground arith

start_alpha : (u : Unicode) (c : ℕ) → name_start c ≡ true → (is_alpha u c || c == b'_') ≡ true
unfolding name_start
start_alpha u c h = ground arith

-- A character that starts a name starts a word of the tokenizer.
lex_round-name_start :
    (u : Unicode) (go : ℕ → ℕ → Text → Result Tokens) (line col c : ℕ) (s : Text)
    → name_start c ≡ true
    → lex_round u go line col c s ≡ lex_word go line col c s
unfolding lex_round
lex_round-name_start u go line col c s h =
    rw (start_not_newline c h, start_not_space u c h, start_not_slash c h, start_alpha u c h)

lex_word_lem :
    (go : ℕ → ℕ → Text → Result Tokens) (line col c : ℕ) (t v s : Text)
    → name_start c ≡ true
    → span_name (c ∷ t) ≡ (v, s)
    → lex_word go line col c t
      ≡ prepend (token (word_kind v) v line col) (go line (col + length v) s)
unfolding lex_word
lex_word_lem go line col c t v s h p = rw (h, p)

pub lex-word :
    (u : Unicode) (f line col : ℕ) (n s : Text)
    → IsWord n
    → Ends s
    → lex u (suc f) line col (n ++ s)
      ≡ prepend (token (word_kind n) n line col) (lex u f line (col + length n) s)
unfolding lex
lex-word u f line col [] s (b, h) e = cc
lex-word u f line col (c ∷ n) s (b, h) e =
    rw (lex_round-name_start u (lex u f) line col c (n ++ s) b)
      (lex_word_lem (lex u f) line col c (n ++ s) (c ∷ n) s b (span_name-append (c ∷ n) s h e))

-- One character of punctuation, a space and the arrow.
pub lex-space :
    (u : Unicode) (f line col : ℕ) (s : Text)
    → lex u (suc f) line col (codes " " ++ s) ≡ lex u f line (col + 1) s
unfolding lex
lex-space u f line col s = refl

lex-lparen :
    (u : Unicode) (f line col : ℕ) (s : Text)
    → lex u (suc f) line col (codes "(" ++ s)
      ≡ prepend (token punct (codes "(") line col) (lex u f line (col + 1) s)
unfolding lex contains
lex-lparen u f line col s = refl

lex-rparen :
    (u : Unicode) (f line col : ℕ) (s : Text)
    → lex u (suc f) line col (codes ")" ++ s)
      ≡ prepend (token punct (codes ")") line col) (lex u f line (col + 1) s)
unfolding lex contains
lex-rparen u f line col s = refl

lex-arrow :
    (u : Unicode) (f line col : ℕ) (s : Text)
    → lex u (suc f) line col (codes "->" ++ s)
      ≡ prepend (token punct (codes "->") line col) (lex u f line (col + 2) s)
unfolding lex
lex-arrow u f line col s = refl

-- An operator sign that is followed by a space.
lex-op :
    (u : Unicode) (f line col : ℕ) (op : Op) (s : Text)
    → lex u (suc f) line col (op_sign op ++ (codes " " ++ s))
      ≡ prepend (token punct (op_sign op) line col) (lex u f line (col + 1) (codes " " ++ s))
unfolding lex contains
lex-op u f line col union s = refl
lex-op u f line col intersection s = refl
lex-op u f line col exclusion s = refl

-- The names of an expression are words; the first word of an atom is not `nil`, and the target of
-- an arrow has no namespace.
abbrev pub WellNamed : PermExpr → Type 0
WellNamed nil = Unit
WellNamed (ref n) = IsWord n × (n ≢ nil_word)
WellNamed (arrow via target) =
    IsWord via × (via ≢ nil_word) × IsWord target × (contains target slash ≡ false)
WellNamed (bin_op op l r) = WellNamed l × WellNamed r

abbrev pub width : PermExpr → ℕ
width e = length (render_expr e)

-- The tokens of a rendered expression that begins at this position.
unfoldable pub spell : PermExpr → ℕ → ℕ → Tokens
unfolding render_expr
spell nil line col = token keyword nil_word line col ∷ []
spell (ref n) line col = token (word_kind n) n line col ∷ []
spell (arrow via target) line col =
    token (word_kind via) via line col
    ∷ token punct (codes "->") line (col + length via)
    ∷ token (word_kind target) target line (col + length via + 2)
    ∷ []
spell (bin_op op l r) line col =
    token punct (codes "(") line col
    ∷ (spell l line (col + 1)
        ++ (token punct (op_sign op) line (col + 1 + width l + 1)
            ∷ (spell r line (col + 1 + width l + 1 + 1 + 1)
                ++ (token punct (codes ")") line (col + 1 + width l + 1 + 1 + 1 + width r) ∷ []))))

-- The rounds of the tokenizer on it, and then `f` more.
abbrev pub rounds : PermExpr → ℕ → ℕ
rounds nil f = suc f
rounds (ref n) f = suc f
rounds (arrow via target) f = suc (suc (suc f))
rounds (bin_op op l r) f = suc (rounds l (suc (suc (suc (rounds r (suc f))))))

abbrev pub prepend_all : Tokens → Result Tokens → Result Tokens
prepend_all ts r = bind r λ us. ok (ts ++ us)

prepend_nested :
    (a o b : Token) (ts us : Tokens) (r : Result Tokens)
    → prepend a (prepend_all ts (prepend o (prepend_all us (prepend b r))))
      ≡ prepend_all (a ∷ (ts ++ (o ∷ (us ++ (b ∷ []))))) r
prepend_nested a o b ts us (ok vs) = simp append_assoc
prepend_nested a o b ts us _ = refl

space-Ends : (s : Text) → Ends (codes " " ++ s)
unfolding name_char
space-Ends s = (refl, omega arith)

rparen-Ends : (s : Text) → Ends (codes ")" ++ s)
unfolding name_char
rparen-Ends s = (refl, omega arith)

arrow-Ends : (s : Text) → Ends (codes "->" ++ s)
unfolding name_char
arrow-Ends s = (refl, omega arith)

nil-IsWord : IsWord nil_word
unfolding name_char span_name
nil-IsWord = (refl, refl)

nil-keyword : word_kind nil_word ≡ keyword
unfolding word_kind contains list_beq
nil-keyword = refl

prepend_three :
    (a b c : Token) (r : Result Tokens)
    → prepend a (prepend b (prepend c r)) ≡ prepend_all (a ∷ b ∷ c ∷ []) r
prepend_three a b c (ok ts) = refl
prepend_three a b c _ = refl

length-op_sign : (op : Op) → length (op_sign op) ≡ 1
length-op_sign union = refl
length-op_sign intersection = refl
length-op_sign exclusion = refl

pub width-bin_op :
    (op : Op) (l r : PermExpr) (col : ℕ)
    → col + 1 + width l + 1 + 1 + 1 + width r + 1 ≡ col + width (bin_op op l r)
unfolding render_expr
width-bin_op op l r col = omega (
  arith,
  length-op_sign op,
  length-append (render_expr l)
      (codes " " ++ (op_sign op ++ (codes " " ++ (render_expr r ++ codes ")")))),
  length-append (op_sign op) (codes " " ++ (render_expr r ++ codes ")")),
  length-append (render_expr r) (codes ")"),
)

pub lex-render_expr :
    (u : Unicode) (e : PermExpr) (f line col : ℕ) (s : Text)
    → WellNamed e
    → Ends s
    → lex u (rounds e f) line col (render_expr e ++ s)
      ≡ prepend_all (spell e line col) (lex u f line (col + width e) s)
unfolding render_expr spell
lex-render_expr u nil f line col s w e =
    lex-word u f line col nil_word s nil-IsWord e
    ∙ ap (λ k. prepend (token k nil_word line col) (lex u f line (col + 3) s)) nil-keyword
lex-render_expr u (ref n) f line col s w e = lex-word u f line col n s w.0 e
lex-render_expr u (arrow via target) f line col s (a, n, b, c) e =
    let flat : (via ++ (codes "->" ++ target)) ++ s ≡ via ++ (codes "->" ++ (target ++ s)) =
      append_assoc via _ s in
    let len = length-append via (codes "->" ++ target) in
    let end : col + length via + 2 + length target ≡ col + length (via ++ (codes "->" ++ target)) =
      omega (arith, len) in
    rw
      (
        flat,
        lex-word u (suc (suc f)) line col via (codes "->" ++ (target ++ s)) a
            (arrow-Ends (target ++ s)),
        lex-arrow u (suc f) line (col + length via) (target ++ s),
        lex-word u f line (col + length via + 2) target s b e,
        end,
      )
      (prepend_three _ _ _ (lex u f line (col + length (via ++ (codes "->" ++ target))) s))
lex-render_expr u (bin_op op l r) f line col s (wl, wr) e =
    let after_r = codes ")" ++ s in
    let after_op = codes " " ++ (render_expr r ++ after_r) in
    let after_l = codes " " ++ (op_sign op ++ after_op) in
    let ih_l =
      lex-render_expr u l (suc (suc (suc (rounds r (suc f))))) line (col + 1) after_l wl
        (space-Ends (op_sign op ++ after_op)) in
    let ih_r =
      lex-render_expr u r (suc f) line (col + 1 + width l + 1 + 1 + 1) after_r wr (rparen-Ends s) in
    let flat : render_expr (bin_op op l r) ++ s ≡ codes "(" ++ (render_expr l ++ after_l) =
      simp append_assoc in
    rw
      (
        flat,
        lex-lparen u (rounds l (suc (suc (suc (rounds r (suc f)))))) line col
            (render_expr l ++ after_l),
        ih_l,
        lex-space u (suc (suc (rounds r (suc f)))) line (col + 1 + width l)
            (op_sign op ++ after_op),
        lex-op u (suc (rounds r (suc f))) line (col + 1 + width l + 1) op
            (render_expr r ++ after_r),
        lex-space u (rounds r (suc f)) line (col + 1 + width l + 1 + 1) (render_expr r ++ after_r),
        ih_r,
        lex-rparen u f line (col + 1 + width l + 1 + 1 + 1 + width r) s,
        width-bin_op op l r col,
      )
      (prepend_nested _ _ _ (spell l line (col + 1)) (spell r line (col + 1 + width l + 1 + 1 + 1))
        _)
