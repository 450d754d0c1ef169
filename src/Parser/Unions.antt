-- ===== src/Parser/Unions.antt =====
-- Each spelling of a type union is read as its subjects: src/rebac/schema/parser.py.
use django_zed_rebac.Prelude.{
  ℕ, zero, suc, ◌<◌, Text, true, false, List, [], ◌∷◌, ◌==◌, nat_eq, list_eq, list_beq, ◌||◌,
  length, ◌≡◌, refl, ◌∙◌, arith, ==_iff, ◌⊎◌, inl, inr,
}
use django_zed_rebac.Schema.{AllowedSubject}
use django_zed_rebac.Parser.Outcome.{ok}
use django_zed_rebac.Parser.Stream.{
  ident, type, punct, keyword, Token, Tokens, is_token, same_kind, is_name, at, consume,
  expect_kind, expect_name,
}
use django_zed_rebac.Parser.Subjects.{
  colon_sign, hash_sign, star_sign, bar_sign, with_word, expiration_word, plain_subject,
  relation_part, id_part, with_part, parse_subject_term, parse_subject_union,
}

abbrev IsSign : Text → Token → Type 0
IsSign v t = is_token punct v t ≡ true

abbrev IsType : Token → Type 0
IsType t = (same_kind t.kind type || same_kind t.kind ident) ≡ true

abbrev IsName : Token → Type 0
IsName t = is_name t ≡ true

-- The five shapes of a subject without a caveat: any of a type, a subject set, the wildcard, one
-- object, and a subject set of one object.
pub data Bare : AllowedSubject → Tokens → Tokens → Type 0 where
  any : {t : Token} {us : Tokens} → IsType t → Bare (plain_subject t.value) (t ∷ us) us
  set :
      {t h r : Token} {us : Tokens}
      → IsType t
      → IsSign hash_sign h
      → IsName r
      → Bare (record (plain_subject t.value) { relation = r.value }) (t ∷ h ∷ r ∷ us) us
  wildcard :
      {t c s : Token} {us : Tokens}
      → IsType t
      → IsSign colon_sign c
      → IsSign star_sign s
      → Bare (record (plain_subject t.value) { wildcard = true }) (t ∷ c ∷ s ∷ us) us
  one :
      {t c i : Token} {us : Tokens}
      → IsType t
      → IsSign colon_sign c
      → IsName i
      → Bare (record (plain_subject t.value) { id = i.value }) (t ∷ c ∷ i ∷ us) us
  set_of_one :
      {t c i h r : Token} {us : Tokens}
      → IsType t
      → IsSign colon_sign c
      → IsName i
      → IsSign hash_sign h
      → IsName r
      → Bare
          (record (plain_subject t.value) { id = i.value; relation = r.value })
          (t ∷ c ∷ i ∷ h ∷ r ∷ us)
          us

-- The word `expiration` comes next: after a `with` it is not the name of a caveat.
abbrev pub Expires : Tokens → Type 0
Expires [] = ⊥
Expires (n ∷ ns) = n.value == expiration_word ≡ true

-- What follows a subject does not continue it: neither sign, and no `with` of a caveat. Some token
-- is left, as the last one is the end of the input.
abbrev pub Follows : Tokens → Type 0
Follows [] = ⊥
Follows (t ∷ ts) =
    (is_token punct colon_sign t ≡ false)
    × (is_token punct hash_sign t ≡ false)
    × ((is_token keyword with_word t ≡ false) ⊎ Expires ts)

-- A subject with its caveat.
pub data Term : AllowedSubject → Tokens → Tokens → Type 0 where
  bare : {a : AllowedSubject} {ts us : Tokens} → Bare a ts us → Follows us → Term a ts us
  bound :
      {a : AllowedSubject} {ts us : Tokens} {w n : Token}
      → Bare a ts (w ∷ n ∷ us)
      → is_token keyword with_word w ≡ true
      → same_kind n.kind ident ≡ true
      → n.value == expiration_word ≡ false
      → Term (record a { with_caveat = n.value }) ts us

with_part-Follows : (a : AllowedSubject) (us : Tokens) → Follows us → with_part a us ≡ ok (a, us)
unfolding with_part
with_part-Follows a [] h = absurd h
with_part-Follows a (t ∷ []) (c, d, inl k) = rw (with_part, k) refl
with_part-Follows a (t ∷ []) (c, d, inr k) = absurd k
with_part-Follows a (t ∷ n ∷ us) (c, d, inl k) = rw (with_part, k) refl
with_part-Follows a (t ∷ n ∷ us) (c, d, inr k) = rw (with_part, k) (ground arith)

name_not_star : (t : Token) → IsName t → is_token punct star_sign t ≡ false
name_not_star t h = ground arith

sign_differs : (v w : Text) (t : Token) → (v == w) ≡ false → IsSign v t → is_token punct w t ≡ false
sign_differs v w t d h = ground (arith, ==_iff t.value v, ==_iff t.value w, ==_iff v w)

hash_not_colon : (t : Token) → IsSign hash_sign t → is_token punct colon_sign t ≡ false
unfolding list_beq
hash_not_colon t h = sign_differs hash_sign colon_sign t refl h

with_not_sign :
    (t : Token) (v : Text) → is_token keyword with_word t ≡ true → is_token punct v t ≡ false
with_not_sign t v h = ground arith

parse_subject_term-Bare :
    (a : AllowedSubject) (ts : Tokens) (u : Token) (us : Tokens)
    → Bare a ts (u ∷ us)
    → is_token punct colon_sign u ≡ false
    → is_token punct hash_sign u ≡ false
    → parse_subject_term ts ≡ with_part a (u ∷ us)
unfolding parse_subject_term relation_part id_part at consume expect_name
parse_subject_term-Bare a ts u us (any {t = t} h) c k = rw (parse_subject_term, h, c, k) refl
parse_subject_term-Bare a ts u us (set {t = t} {h = n} {r = r} h k x) c d =
    rw (parse_subject_term, h, hash_not_colon n k, k, x) refl
parse_subject_term-Bare a ts u us (wildcard {t = t} {c = n} {s = r} h k x) c d =
    rw (parse_subject_term, h, k, x) refl
parse_subject_term-Bare a ts u us (one {t = t} {c = n} {i = i} h k x) c d =
    rw (parse_subject_term, h, k, name_not_star i x, x, d) refl
parse_subject_term-Bare a ts u us (set_of_one {t = t} {c = n} {i = i} {h = m} {r = r} h k x y z) c
      d =
    rw (parse_subject_term, h, k, name_not_star i x, x, y, z) refl

parse_subject_term-Term :
    (a : AllowedSubject) (ts us : Tokens)
    → Term a ts us
    → Follows us
    → parse_subject_term ts ≡ ok (a, us)
unfolding with_part expect_kind
parse_subject_term-Term a ts [] (bare b f) g = absurd g
parse_subject_term-Term a ts (u ∷ us) (bare b f) g =
    parse_subject_term-Bare a ts u us b f.0 f.1 ∙ with_part-Follows a (u ∷ us) g
parse_subject_term-Term a ts us (bound {a = b} {w = w} {n = n} h x y z) g =
    parse_subject_term-Bare b ts w (n ∷ us) h (with_not_sign w colon_sign x)
      (with_not_sign w hash_sign x)
    ∙ rw (with_part, x, z, y) refl

-- Subjects with a bar between them.
pub data Union : List AllowedSubject → Tokens → Tokens → Type 0 where
  last :
      {a : AllowedSubject} {ts us : Tokens}
      → Term a ts us
      → Follows us
      → at punct bar_sign us ≡ false
      → Union (a ∷ []) ts us
  next :
      {a : AllowedSubject} {rest : List AllowedSubject} {ts us vs : Tokens} {b : Token}
      → Term a ts (b ∷ us)
      → IsSign bar_sign b
      → Union rest us vs
      → Union (a ∷ rest) ts vs

bar_Follows : (b : Token) (us : Tokens) → IsSign bar_sign b → Follows (b ∷ us)
unfolding list_beq
bar_Follows b us h = (
  sign_differs bar_sign colon_sign b refl h,
  sign_differs bar_sign hash_sign b refl h,
  inl (ground arith),
)

-- The tokens of a type union, its subjects written in any of their shapes with a bar between two
-- of them, are read as exactly these subjects, up to the token that follows the union, a
-- `with expiration` among them; one unit of fuel for each subject is enough. Tokens may stand at
-- any position.
pub parse_subject_union-Union :
    (f : ℕ) (subjects : List AllowedSubject) (ts us : Tokens)
    → Union subjects ts us
    → length subjects < suc f
    → parse_subject_union f ts ≡ ok (subjects, us)
unfolding parse_subject_union at consume
parse_subject_union-Union zero subjects ts us (last {a = a} t g n) h = absurd (omega arith)
parse_subject_union-Union zero subjects ts us (next t g n) h = absurd (omega arith)
parse_subject_union-Union (suc f) subjects ts us (last {a = a} t g n) h =
    rw (parse_subject_union, parse_subject_term-Term a ts us t g, n) refl
parse_subject_union-Union (suc f) subjects ts us
      (next {a = a} {rest = rest} {us = vs} {b = b} t g n) h =
    rw
      (
        parse_subject_union,
        parse_subject_term-Term a ts (b ∷ vs) t (bar_Follows b vs g),
        g,
        parse_subject_union-Union f rest vs us n (omega arith),
      )
      refl
