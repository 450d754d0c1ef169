-- ===== src/Rendering/Subjects.antt =====
-- An allowed subject is read back from its canonical text: src/rebac/schema/rendering.py read by
-- the tokenizer and the parser of type unions of src/rebac/schema/parser.py.
use django_zed_rebac.Prelude.{
  ℕ, suc, ◌+◌, Text, Bool, true, false, List, [], ◌∷◌, ◌≡◌, ◌⊎◌, inl, inr, refl, arith,
  append_assoc, append-nil, contains, nat_eq, list_eq, list_beq, ◌==◌, ◌∙◌, ◌||◌, ap,
}
use django_zed_rebac.Schema.{AllowedSubject}
use django_zed_rebac.Parser.{
  ok, bind, Tokens, keyword, ident, type, eof, token, Unicode, word_kind, same_kind, is_token,
  name_char, span_name, tokenize, with_word, expiration_word, parse_subject_union, at,
}
use django_zed_rebac.Parser.Unions.{
  Bare, any, set, wildcard, one, set_of_one, Term, bare, bound, last, parse_subject_union-Union,
}
use django_zed_rebac.Rendering.Defs.{render_allowed_subject}
use django_zed_rebac.Rendering.Lexing.{IsWord, Ends}
use django_zed_rebac.Rendering.Pieces.{
  Piece, word, blank, colon, hash, star, text_of, spelled, AreWords, tokenize-text_of,
}

-- A name of the language that may stand for a type: no keyword.
abbrev pub IsType : Text → Type 0
IsType n = IsWord n × ((same_kind (word_kind n) type || same_kind (word_kind n) ident) ≡ true)

-- A name without a namespace, which may be a keyword.
abbrev pub IsName : Text → Type 0
IsName n = IsWord n × ((same_kind (word_kind n) ident || same_kind (word_kind n) keyword) ≡ true)

-- Absent, or such a name.
abbrev pub IsPart : Text → Type 0
IsPart [] = Unit
IsPart (c ∷ n) = IsName (c ∷ n)

-- Absent, or a name without a namespace that is neither a keyword nor `expiration`.
abbrev pub IsCaveat : Text → Type 0
IsCaveat [] = Unit
IsCaveat (c ∷ n) =
    IsWord (c ∷ n)
    × (same_kind (word_kind (c ∷ n)) ident ≡ true)
    × (((c ∷ n) == expiration_word) ≡ false)

-- The parts of a subject are names of the language, and a wildcard has neither id nor relation.
pub record IsSpellable (s : AllowedSubject) : Type 0 where
  pub named : IsType s.type
  pub with_relation : IsPart s.relation
  pub with_id : IsPart s.id
  pub with_caveat : IsCaveat s.with_caveat
  pub alone : (s.wildcard ≡ false) ⊎ ((s.id ≡ []) × (s.relation ≡ []))

abbrev base_pieces : Text → Bool → Text → Text → List Piece → List Piece
base_pieces t true i r ps = word t ∷ colon ∷ star ∷ ps
base_pieces t false [] [] ps = word t ∷ ps
base_pieces t false [] (x ∷ r) ps = word t ∷ hash ∷ word (x ∷ r) ∷ ps
base_pieces t false (y ∷ i) [] ps = word t ∷ colon ∷ word (y ∷ i) ∷ ps
base_pieces t false (y ∷ i) (x ∷ r) ps = word t ∷ colon ∷ word (y ∷ i) ∷ hash ∷ word (x ∷ r) ∷ ps

abbrev caveat_pieces : Text → List Piece
caveat_pieces [] = []
caveat_pieces (c ∷ n) = blank ∷ word with_word ∷ blank ∷ word (c ∷ n) ∷ []

abbrev pieces : AllowedSubject → List Piece
pieces s = base_pieces s.type s.wildcard s.id s.relation (caveat_pieces s.with_caveat)

abbrev subject : Text → Bool → Text → Text → Text → AllowedSubject
subject t w i r c = record { type = t; relation = r; wildcard = w; with_caveat = c; id = i }

render-base :
    (t : Text) (w : Bool) (i r c : Text)
    → render_allowed_subject (subject t w i r c) ≡ text_of (base_pieces t w i r (caveat_pieces c))
unfolding render_allowed_subject
render-base t true i r [] = refl
render-base t true i r (c ∷ n) = simp (append_assoc, append-nil)
render-base t false [] [] [] = simp append-nil
render-base t false [] [] (c ∷ n) = simp append-nil
render-base t false [] (x ∷ r) [] = simp append-nil
render-base t false [] (x ∷ r) (c ∷ n) = simp (append_assoc, append-nil)
render-base t false (y ∷ i) [] [] = simp append-nil
render-base t false (y ∷ i) [] (c ∷ n) = simp (append_assoc, append-nil)
render-base t false (y ∷ i) (x ∷ r) [] = simp append-nil
render-base t false (y ∷ i) (x ∷ r) (c ∷ n) = simp (append_assoc, append-nil)

caveat-Ends : (c : Text) → Ends (text_of (caveat_pieces c))
unfolding name_char
caveat-Ends [] = tt
caveat-Ends (x ∷ c) = (refl, omega arith)

with-IsWord : IsWord with_word
unfolding name_char span_name
with-IsWord = (refl, refl)

caveat-AreWords : (c : Text) → IsCaveat c → AreWords (caveat_pieces c)
unfolding name_char
caveat-AreWords [] w = tt
caveat-AreWords (x ∷ c) (w, k, n) = (with-IsWord, (refl, omega arith), (w, tt, tt))

base-AreWords :
    (t : Text) (w : Bool) (i r : Text) (ps : List Piece)
    → IsType t
    → IsPart i
    → IsPart r
    → Ends (text_of ps)
    → AreWords ps
    → AreWords (base_pieces t w i r ps)
unfolding name_char
base-AreWords t true i r ps h k m e a = (h.0, (refl, omega arith), a)
base-AreWords t false [] [] ps h k m e a = (h.0, e, a)
base-AreWords t false [] (x ∷ r) ps h k m e a = (h.0, (refl, omega arith), (m.0, e, a))
base-AreWords t false (y ∷ i) [] ps h k m e a = (h.0, (refl, omega arith), (k.0, e, a))
base-AreWords t false (y ∷ i) (x ∷ r) ps h k m e a =
    (h.0, (refl, omega arith), (k.0, (refl, omega arith), (m.0, e, a)))

-- The tokens of the base of a subject are one of its shapes.
base-Bare :
    (t : Text) (w : Bool) (i r : Text) (ps : List Piece) (col : ℕ)
    → IsType t
    → IsPart i
    → IsPart r
    → (w ≡ false) ⊎ ((i ≡ []) × (r ≡ []))
    → (end : ℕ) × Bare (subject t w i r []) (spelled col (base_pieces t w i r ps)) (spelled end ps)
unfolding list_beq
base-Bare t true [] [] ps col h k m o = (_, wildcard h.1 refl refl)
base-Bare t true (y ∷ i) r ps col h k m (inl e) = absurd cc
base-Bare t true (y ∷ i) r ps col h k m (inr e) = absurd cc
base-Bare t true [] (x ∷ r) ps col h k m (inl e) = absurd cc
base-Bare t true [] (x ∷ r) ps col h k m (inr e) = absurd cc
base-Bare t false [] [] ps col h k m o = (_, any h.1)
base-Bare t false [] (x ∷ r) ps col h k m o = (_, set h.1 refl m.1)
base-Bare t false (y ∷ i) [] ps col h k m o = (_, one h.1 refl k.1)
base-Bare t false (y ∷ i) (x ∷ r) ps col h k m o = (_, set_of_one h.1 refl k.1 refl m.1)

with_keyword :
    (col : ℕ) → is_token keyword with_word (token (word_kind with_word) with_word 1 col) ≡ true
unfolding word_kind contains list_beq
with_keyword col = refl

subject-Term :
    (t : Text) (w : Bool) (i r c : Text) (ts : Tokens) (col : ℕ)
    → IsCaveat c
    → Bare (subject t w i r []) ts (spelled col (caveat_pieces c))
    → (end : ℕ) × Term (subject t w i r c) ts (token eof [] 1 end ∷ [])
subject-Term t w i r [] ts col k b = (col, bare b (refl, refl, inl refl))
subject-Term t w i r (x ∷ c) ts col k b = (_, bound b (with_keyword (col + 1)) k.1 k.2)

-- An allowed subject whose parts are names of the language, without id and relation where it is a
-- wildcard, is read back from its canonical text: the text is a type union of that one subject,
-- and nothing but the end of the input is left. Its caveat is neither a keyword nor `expiration`.
pub parse_subject_union-render_allowed_subject :
    (u : Unicode) (f : ℕ) (s : AllowedSubject)
    → IsSpellable s
    → (end : ℕ) × (bind (tokenize u (render_allowed_subject s)) (parse_subject_union (suc f))
        ≡ ok (s ∷ [], token eof [] 1 end ∷ []))
unfolding at
parse_subject_union-render_allowed_subject u f s h =
    let (col, b) =
      base-Bare s.type s.wildcard s.id s.relation (caveat_pieces s.with_caveat) 1 h.named h.with_id
        h.with_relation h.alone in
    let (end, t) =
      subject-Term s.type s.wildcard s.id s.relation s.with_caveat (spelled 1 (pieces s)) col
        h.with_caveat b in
    let words =
      base-AreWords s.type s.wildcard s.id s.relation (caveat_pieces s.with_caveat) h.named
        h.with_id h.with_relation (caveat-Ends s.with_caveat)
        (caveat-AreWords s.with_caveat h.with_caveat) in
    let run : tokenize u (render_allowed_subject s) ≡ ok (spelled 1 (pieces s)) =
      ap (tokenize u) (render-base s.type s.wildcard s.id s.relation s.with_caveat)
      ∙ tokenize-text_of u (pieces s) words in
    (
      end,
      rw run (
          parse_subject_union-Union (suc f) (s ∷ []) (spelled 1 (pieces s))
            (token eof [] 1 end ∷ []) (last t (refl, refl, inl refl) refl) (omega arith)),
    )
