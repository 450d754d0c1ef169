-- ===== src/Rendering/Pieces.antt =====
-- The tokens of a text that is made of words, spaces and signs: `_tokenize` of
-- src/rebac/schema/parser.py.
use django_zed_rebac.Prelude.{
  ℕ, suc, ◌+◌, ◌-◌, ◌≤◌, Text, List, [], ◌∷◌, ◌++◌, ◌≡◌, refl, arith, length, length-append, codes,
  contains, nat_eq, list_eq, ◌∙◌,
}
use django_zed_rebac.Parser.{ok, Tokens, punct, eof, token, Unicode, word_kind, lex, tokenize}
use django_zed_rebac.Rendering.Lexing.{IsWord, Ends, lex-word, lex-space}

-- A text in pieces that the tokenizer takes in one round each.
pub data Piece : Type 0 where
  word : Text → Piece
  blank colon hash star : Piece

abbrev pub piece_text : Piece → Text
piece_text (word n) = n
piece_text blank = codes " "
piece_text colon = codes ":"
piece_text hash = codes "#"
piece_text star = codes "*"

abbrev pub text_of : List Piece → Text
text_of [] = []
text_of (p ∷ ps) = piece_text p ++ text_of ps

-- Their tokens, from a column, with the end of the input.
abbrev pub spelled : ℕ → List Piece → Tokens
spelled col [] = token eof [] 1 col ∷ []
spelled col (word n ∷ ps) = token (word_kind n) n 1 col ∷ spelled (col + length n) ps
spelled col (blank ∷ ps) = spelled (col + 1) ps
spelled col (colon ∷ ps) = token punct (codes ":") 1 col ∷ spelled (col + 1) ps
spelled col (hash ∷ ps) = token punct (codes "#") 1 col ∷ spelled (col + 1) ps
spelled col (star ∷ ps) = token punct (codes "*") 1 col ∷ spelled (col + 1) ps

-- Each word is one, and ends where it should.
abbrev pub AreWords : List Piece → Type 0
AreWords [] = Unit
AreWords (word n ∷ ps) = IsWord n × Ends (text_of ps) × AreWords ps
AreWords (p ∷ ps) = AreWords ps

abbrev rounds : List Piece → ℕ → ℕ
rounds [] f = suc f
rounds (p ∷ ps) f = suc (rounds ps f)

rounds-add : (ps : List Piece) (f : ℕ) → rounds ps f ≡ length ps + suc f
rounds-add [] f = omega arith
rounds-add (p ∷ ps) f = omega (arith, rounds-add ps f)

lex-colon :
    (u : Unicode) (f col : ℕ) (s : Text) (ts : Tokens)
    → lex u f 1 (col + 1) s ≡ ok ts
    → lex u (suc f) 1 col (codes ":" ++ s) ≡ ok (token punct (codes ":") 1 col ∷ ts)
unfolding lex contains
lex-colon u f col s ts h = rw h refl

lex-hash :
    (u : Unicode) (f col : ℕ) (s : Text) (ts : Tokens)
    → lex u f 1 (col + 1) s ≡ ok ts
    → lex u (suc f) 1 col (codes "#" ++ s) ≡ ok (token punct (codes "#") 1 col ∷ ts)
unfolding lex contains
lex-hash u f col s ts h = rw h refl

lex-star :
    (u : Unicode) (f col : ℕ) (s : Text) (ts : Tokens)
    → lex u f 1 (col + 1) s ≡ ok ts
    → lex u (suc f) 1 col (codes "*" ++ s) ≡ ok (token punct (codes "*") 1 col ∷ ts)
unfolding lex contains
lex-star u f col s ts h = rw h refl

lex-text_of :
    (u : Unicode) (ps : List Piece) (f col : ℕ)
    → AreWords ps
    → lex u (rounds ps f) 1 col (text_of ps) ≡ ok (spelled col ps)
unfolding lex
lex-text_of u [] f col w = refl
lex-text_of u (word n ∷ ps) f col (w, e, ws) =
    lex-word u (rounds ps f) 1 col n (text_of ps) w e
    ∙ rw (lex-text_of u ps f (col + length n) ws) refl
lex-text_of u (blank ∷ ps) f col w =
    lex-space u (rounds ps f) 1 col (text_of ps) ∙ lex-text_of u ps f (col + 1) w
lex-text_of u (colon ∷ ps) f col w =
    lex-colon u (rounds ps f) col (text_of ps) _ (lex-text_of u ps f (col + 1) w)
lex-text_of u (hash ∷ ps) f col w =
    lex-hash u (rounds ps f) col (text_of ps) _ (lex-text_of u ps f (col + 1) w)
lex-text_of u (star ∷ ps) f col w =
    lex-star u (rounds ps f) col (text_of ps) _ (lex-text_of u ps f (col + 1) w)

word_pos : (n : Text) → IsWord n → 1 ≤ length n
word_pos [] w = cc
word_pos (c ∷ n) w = omega arith

length-text_of : (ps : List Piece) → AreWords ps → length ps ≤ length (text_of ps)
length-text_of [] w = omega arith
length-text_of (word n ∷ ps) (w, e, ws) =
    omega (arith, word_pos n w, length-append n (text_of ps), length-text_of ps ws)
length-text_of (blank ∷ ps) w = omega (arith, length-text_of ps w)
length-text_of (colon ∷ ps) w = omega (arith, length-text_of ps w)
length-text_of (hash ∷ ps) w = omega (arith, length-text_of ps w)
length-text_of (star ∷ ps) w = omega (arith, length-text_of ps w)

pub tokenize-text_of :
    (u : Unicode) (ps : List Piece) → AreWords ps → tokenize u (text_of ps) ≡ ok (spelled 1 ps)
unfolding tokenize
tokenize-text_of u ps w =
    let g = length (text_of ps) - length ps in
    let fuel : suc (length (text_of ps)) ≡ rounds ps g =
      omega (arith, length-text_of ps w, rounds-add ps g) in
    rw fuel (lex-text_of u ps g 1 w)
