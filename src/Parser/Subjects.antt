-- ===== src/Parser/Subjects.antt =====
-- The subjects of a relation's type union: `_parse_subject_union` and `_parse_subject_term` of
-- src/rebac/schema/parser.py.
use django_zed_rebac.Prelude.{
  ℕ, zero, suc, Text, true, false, List, [], ◌∷◌, codes, ◌==◌, nat_eq, list_eq, ◌&&◌, ◌||◌, not,
  if◌then◌else◌,
}
use django_zed_rebac.Schema.{AllowedSubject}
use django_zed_rebac.Parser.Outcome.{ok, parse_error, index_error, out_of_fuel, bind}
use django_zed_rebac.Parser.Stream.{
  ident, type, punct, keyword, Parser, is_token, same_kind, is_name, at, consume, expect_kind,
  expect_name,
}

abbrev pub colon_sign : Text
colon_sign = codes ":"

abbrev pub hash_sign : Text
hash_sign = codes "#"

abbrev pub star_sign : Text
star_sign = codes "*"

abbrev pub bar_sign : Text
bar_sign = codes "|"

abbrev pub with_word : Text
with_word = codes "with"

abbrev pub expiration_word : Text
expiration_word = codes "expiration"

-- `#relation`, if it is there.
unfoldable pub relation_part : AllowedSubject → Parser AllowedSubject
unfolding at consume expect_name
relation_part a ts =
    let set =
      bind (consume ts)
        λ (_, us). bind (expect_name us) λ (r, vs). ok (record a { relation = r.value }, vs) in
    if at punct hash_sign ts then set else ok (a, ts)

-- What follows `:`, the wildcard or an id.
unfoldable pub id_part : AllowedSubject → Parser AllowedSubject
unfolding relation_part consume
id_part a ts = bind (consume ts) λ (t, us).
    if is_token punct star_sign t
    then ok (record a { wildcard = true }, us)
    else if is_name t
    then relation_part (record a { id = t.value }) us
    else parse_error

-- `with caveat`, which is not `with expiration`.
unfoldable pub with_part : AllowedSubject → Parser AllowedSubject
unfolding expect_kind
with_part a [] = ok (a, [])
with_part a (t ∷ []) = if is_token keyword with_word t then index_error else ok (a, t ∷ [])
with_part a (t ∷ n ∷ ts) =
    let caveat =
      bind (expect_kind ident (n ∷ ts)) λ (c, us). ok (record a { with_caveat = c.value }, us) in
    if is_token keyword with_word t && not (n.value == expiration_word)
    then caveat
    else ok (a, t ∷ n ∷ ts)

abbrev pub plain_subject : Text → AllowedSubject
plain_subject t = record { type = t; relation = []; wildcard = false; with_caveat = []; id = [] }

unfoldable pub parse_subject_term : Parser AllowedSubject
unfolding id_part relation_part with_part consume at
parse_subject_term ts = bind (consume ts) λ (t, us).
    if same_kind t.kind type || same_kind t.kind ident
    then bind
        (if at punct colon_sign us
          then bind (consume us) (λ (_, vs). id_part (plain_subject t.value) vs)
          else relation_part (plain_subject t.value) us)
        (λ (a, ws). with_part a ws)
    else parse_error

unfoldable pub parse_subject_union : ℕ → Parser (List AllowedSubject)
unfolding parse_subject_term at consume
parse_subject_union zero ts = out_of_fuel
parse_subject_union (suc f) ts = bind (parse_subject_term ts) λ (a, us).
    let more =
      bind (consume us)
        λ (_, vs). bind (parse_subject_union f vs) λ (rest, ws). ok (a ∷ rest, ws) in
    if at punct bar_sign us then more else ok (a ∷ [], us)
