-- ===== src/Parser/Lexer.antt =====
-- The tokenizer: src/rebac/schema/parser.py, `_tokenize`. The text is what is left behind the
-- cursor. Each round takes at least one character, so the length of the text is fuel enough. What
-- Python's str methods say of code points above 127 is a parameter.
use django_zed_rebac.Prelude.{
  ℕ, zero, suc, ◌+◌, Text, Bool, false, List, [], ◌∷◌, codes, if◌then◌else◌, ◌==◌, ltb, leb, nat_eq,
  list_eq, ◌&&◌, ◌||◌, contains, length, Option, none, some,
}
use django_zed_rebac.Parser.Outcome
use django_zed_rebac.Parser.Outcome.{Result, ok, parse_error, assertion_error, out_of_fuel}
use django_zed_rebac.Parser.Stream.{
  Kind, ident, type, punct, keyword, number, string, eof, Token, Tokens,
}

pub record Unicode : Type 0 where
  pub alpha : ℕ → Bool
  pub space : ℕ → Bool
  pub digit : ℕ → Bool

abbrev between : ℕ → ℕ → ℕ → Bool
between lo hi c = leb lo c && leb c hi

abbrev pub ascii_letter : ℕ → Bool
ascii_letter c = between b'a' b'z' c || between b'A' b'Z' c

abbrev pub ascii_digit : ℕ → Bool
ascii_digit c = between b'0' b'9' c

abbrev pub newline : ℕ
newline = 10

abbrev pub slash : ℕ
slash = b'/'

abbrev pub is_alpha : Unicode → ℕ → Bool
is_alpha u c = ascii_letter c || (ltb 127 c && u.alpha c)

abbrev pub is_space : Unicode → ℕ → Bool
is_space u c = between 9 13 c || (between 28 32 c || (ltb 127 c && u.space c))

abbrev pub is_digit : Unicode → ℕ → Bool
is_digit u c = ascii_digit c || (ltb 127 c && u.digit c)

-- `[A-Za-z_]` and `[A-Za-z0-9_]`.
unfoldable pub name_start : ℕ → Bool
name_start c = ascii_letter c || c == b'_'

unfoldable pub name_char : ℕ → Bool
unfolding name_start
name_char c = name_start c || ascii_digit c

abbrev pub starts_segment : Text → Bool
starts_segment [] = false
starts_segment (c ∷ s) = name_start c

-- The match of _TYPE_NAME_RE from a first name character on, and the rest.
unfoldable pub span_name : Text → Text × Text
span_name [] = ([], [])
span_name (c ∷ s) =
    let rest = span_name s in
    if name_char c || (c == slash && starts_segment s) then (c ∷ rest.0, rest.1) else ([], c ∷ s)

unfoldable pub span_digits : Unicode → Text → Text × Text
span_digits u [] = ([], [])
span_digits u (c ∷ s) =
    let rest = span_digits u s in if is_digit u c then (c ∷ rest.0, rest.1) else ([], c ∷ s)

-- The rest from the end of the line on.
unfoldable pub skip_line : Text → Text
skip_line [] = []
skip_line (c ∷ s) = let rest = skip_line s in if c == newline then c ∷ s else rest

-- Behind a block comment, with the position; `none` if it is not closed.
unfoldable pub skip_block : ℕ → ℕ → Text → Option (ℕ × ℕ × Text)
skip_block line col [] = none
skip_block line col (c ∷ []) = none
skip_block line col (c ∷ d ∷ s) =
    let at_newline = skip_block (line + 1) 1 (d ∷ s) in
    let at_other = skip_block line (col + 1) (d ∷ s) in
    if c == b'*' && d == slash
    then some (line, col + 2, s)
    else if c == newline
    then at_newline
    else at_other

-- The value of a string literal up to its closing quote; a backslash takes the next character
-- along. `none` if it is not closed.
unfoldable pub span_string : ℕ → Text → Option (Text × Text)
span_string quote [] = none
span_string quote (c ∷ []) = if c == quote then some ([], []) else none
span_string quote (c ∷ d ∷ s) =
    let skipped = span_string quote s in
    let next = span_string quote (d ∷ s) in
    if c == quote
    then some ([], d ∷ s)
    else if c == 92
    then elim skipped [ none ↦ none | some (v, r) ↦ some (c ∷ d ∷ v, r) ]
    else elim next [ none ↦ none | some (v, r) ↦ some (c ∷ v, r) ]

abbrev keywords : List Text
keywords =
    codes "definition"
    ∷ codes "relation"
    ∷ codes "permission"
    ∷ codes "caveat"
    ∷ codes "use"
    ∷ codes "with"
    ∷ codes "nil"
    ∷ []

abbrev punctuation : Text
punctuation = codes "{}|+&-=:>,()*#.<[];!?/%"

unfoldable pub word_kind : Text → Kind
word_kind v = if contains keywords v then keyword else if contains v slash then type else ident

abbrev pub token : Kind → Text → ℕ → ℕ → Token
token k v line col = record { kind = k; value = v; line = line; col = col }

abbrev pub prepend : Token → Result Tokens → Result Tokens
prepend t r = Outcome.bind r λ ts. ok (t ∷ ts)

abbrev pub starts : ℕ → Text → Bool
starts d [] = false
starts d (c ∷ s) = c == d

abbrev tail_of : Text → Text
tail_of [] = []
tail_of (c ∷ s) = s

-- The tokens of the rest, handed over as a function of position and text.
abbrev Next : Type 0
Next = ℕ → ℕ → Text → Result Tokens

unfoldable pub lex_block : Next → ℕ → ℕ → Text → Result Tokens
lex_block go line col s = elim (skip_block line (col + 2) s) [
  | none ↦ parse_error
  | some (l, c, r) ↦ go l c r
]

unfoldable pub lex_word : Next → ℕ → ℕ → ℕ → Text → Result Tokens
lex_word go line col c s =
    if name_start c
    then (let (v, r) = span_name (c ∷ s) in
        prepend (token (word_kind v) v line col) (go line (col + length v) r))
    else assertion_error

unfoldable pub lex_number : Unicode → Next → ℕ → ℕ → ℕ → Text → Result Tokens
lex_number u go line col c s =
    let (v, r) = span_digits u s in
    prepend (token number (c ∷ v) line col) (go line (col + suc (length v)) r)

unfoldable pub lex_string : Next → ℕ → ℕ → ℕ → Text → Result Tokens
lex_string go line col quote s = elim (span_string quote s) [
  | none ↦ parse_error
  | some (v, r) ↦ prepend (token string v line col) (go line (col + length v + 2) r)
]

-- One round, by the first character `c`.
unfoldable pub lex_round : Unicode → Next → ℕ → ℕ → ℕ → Text → Result Tokens
unfolding lex_word name_start lex_block lex_number lex_string
lex_round u go line col c s =
    if c == newline
    then go (line + 1) 1 s
    else if is_space u c
    then go line (col + 1) s
    else if c == slash && starts slash s
    then go line col (skip_line s)
    else if c == slash && starts b'*' s
    then lex_block go line col (tail_of s)
    else if is_alpha u c || c == b'_'
    then lex_word go line col c s
    else if is_digit u c
    then lex_number u go line col c s
    else if c == b'-' && starts b'>' s
    then prepend (token punct (b'-' ∷ b'>' ∷ []) line col) (go line (col + 2) (tail_of s))
    else if contains punctuation c
    then prepend (token punct (c ∷ []) line col) (go line (col + 1) s)
    else if c == 34 || c == 39
    then lex_string go line col c s
    else parse_error

unfoldable pub lex : Unicode → ℕ → ℕ → ℕ → Text → Result Tokens
unfolding lex_round
lex u zero line col s = out_of_fuel
lex u (suc f) line col [] = ok (token eof [] line col ∷ [])
lex u (suc f) line col (c ∷ s) = lex_round u (lex u f) line col c s

unfoldable pub tokenize : Unicode → Text → Result Tokens
unfolding lex
tokenize u s = lex u (suc (length s)) 1 1 s
