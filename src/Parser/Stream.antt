-- ===== src/Parser/Stream.antt =====
-- Tokens and the reads of the token stream: src/rebac/schema/parser.py. The stream is what is
-- left of the token list behind the cursor; a peek behind its end gives the last token, `eof`.
use django_zed_rebac.Prelude.{
  ℕ, Text, Bool, true, false, List, [], ◌∷◌, codes, ◌==◌, nat_eq, list_eq, ◌&&◌, ◌||◌,
  if◌then◌else◌,
}
use django_zed_rebac.Parser.Outcome.{Result, ok, parse_error, index_error}

pub data Kind : Type 0 where
  ident type punct keyword number string eof : Kind

abbrev pub same_kind : Kind → Kind → Bool
same_kind ident ident = true
same_kind type type = true
same_kind punct punct = true
same_kind keyword keyword = true
same_kind number number = true
same_kind string string = true
same_kind eof eof = true
same_kind _ _ = false

pub record Token : Type 0 where
  pub kind : Kind
  pub value : Text
  pub line : ℕ
  pub col : ℕ

abbrev pub Tokens : Type 0
Tokens = List Token

abbrev pub Parser {ℓ} : Type ℓ → Type ℓ
Parser A = Tokens → Result (A × Tokens)

-- A token of this kind and text.
abbrev pub is_token : Kind → Text → Token → Bool
is_token k v t = same_kind t.kind k && t.value == v

-- `at(kind, value)` and `at("eof")`.
unfoldable pub at : Kind → Text → Tokens → Bool
at k v [] = false
at k v (t ∷ ts) = is_token k v t

unfoldable pub at_eof : Tokens → Bool
at_eof [] = true
at_eof (t ∷ ts) = same_kind t.kind eof

unfoldable pub consume : Parser Token
consume [] = index_error
consume (t ∷ ts) = ok (t, ts)

-- `expect(kind, value)`, `expect(kind)` and `expect_name()`.
unfoldable pub expect : Kind → Text → Parser Token
expect k v [] = index_error
expect k v (t ∷ ts) = if is_token k v t then ok (t, ts) else parse_error

unfoldable pub expect_kind : Kind → Parser Token
expect_kind k [] = index_error
expect_kind k (t ∷ ts) = if same_kind t.kind k then ok (t, ts) else parse_error

abbrev pub is_name : Token → Bool
is_name t = same_kind t.kind ident || same_kind t.kind keyword

unfoldable pub expect_name : Parser Token
expect_name [] = index_error
expect_name (t ∷ ts) = if is_name t then ok (t, ts) else parse_error

-- Names of the punctuation that the expression parser tests for.
abbrev pub lparen : Text
lparen = codes "("

abbrev pub rparen : Text
rparen = codes ")"

abbrev pub arrow_sign : Text
arrow_sign = codes "->"

abbrev pub nil_word : Text
nil_word = codes "nil"
