-- ===== src/Caveats/Inputs.antt =====
-- Which inputs the verdict of a caveat rests on: `evaluate` of src/rebac/caveats.py.
use django_zed_rebac.Prelude.{
  Text, true, false, Option, none, some, List, [], ◌∷◌, ◌≡◌, ◌≢◌, ◌↔◌, ◌⊎◌, inl, inr, nat_eq,
  list_eq, refl, sym, ap, subst, ◌∙◌, is_empty, sort_texts, Mem, here, there, Mem-sort_texts,
  Option-cases, Bool-cases, arith,
}
use django_zed_rebac.Schema.{Caveat}
use django_zed_rebac.Parser.{Unicode}
use django_zed_rebac.Caveats.Defs.{
  Cel, Failure, Run, not_compiled, eval_error, raises, other, boolean, missing, outcome, entry,
  supplied, declared, absent_names, activation, settle, evaluate,
}
use django_zed_rebac.Caveats.Declared.{names, keys, Mem-declared}

outcome-ne-missing : (r : Run) (ns : List Text) → outcome r ≢ missing ns
unfolding outcome
outcome-ne-missing not_compiled ns = λ h. cc
outcome-ne-missing eval_error ns = λ h. cc
outcome-ne-missing raises ns = λ h. cc
outcome-ne-missing other ns = λ h. cc
outcome-ne-missing (boolean b) ns = λ h. cc

missing-injective : (a b : List Text) → missing a ≡ missing b → a ≡ b
missing-injective a b h = cc

sort_texts-ne-nil : (xs : List Text) → is_empty xs ≡ false → sort_texts xs ≢ []
sort_texts-ne-nil [] e h = absurd cc
sort_texts-ne-nil (x ∷ xs) e h =
    elim (subst (Mem x) h ((Mem-sort_texts x (x ∷ xs)).1 (here refl))) [ ]

nil-absent : (xs : List Text) → is_empty xs ≡ true → xs ≡ []
nil-absent [] e = refl
nil-absent (x ∷ xs) e = absurd cc

module _ {V : Type 0} where
  Mem-absent_names :
      (static dynamic : List (Text × Option V)) (n : Text) (ds : List (Text × Text))
      → Mem n (absent_names static dynamic ds)
        ↔ (Mem n (keys ds) × (supplied static dynamic n ≡ none))
  unfolding absent_names keys
  Mem-absent_names static dynamic n [] = (λ m. elim m [ ], λ (m, _). elim m [ ])
  Mem-absent_names static dynamic n ((x, t) ∷ ds) =
      let ih = Mem-absent_names static dynamic n ds in
      elim (Option-cases (supplied static dynamic x)) [
        | inl e ↦
            rw (absent_names, e)
              (
                λ m. elim m [
                  | here q ↦ (here q, ap (supplied static dynamic) q ∙ e)
                  | there q ↦ (there (ih.0 q).0, (ih.0 q).1)
                ],
                λ (m, a). elim m [ here q ↦ here q | there q ↦ there (ih.1 (q, a)) ],
              )
        | inr (v, e) ↦
            rw (absent_names, e)
              (
                λ m. (there (ih.0 m).0, (ih.0 m).1),
                λ (m, a). elim m [ here q ↦ absurd cc | there q ↦ ih.1 (q, a) ],
              )
      ]

  supplied-congr :
      (static d d' : List (Text × Option V)) (n : Text)
      → (entry n static ≡ none → entry n d ≡ entry n d')
      → supplied static d n ≡ supplied static d' n
  unfolding supplied
  supplied-congr static d d' n h = elim (Option-cases (entry n static)) [
    | inl e ↦ rw (supplied, e, h e) refl
    | inr (v, e) ↦ rw (supplied, e) refl
  ]

  -- A value that is supplied stays when a dynamic context keeps its values.
  supplied-extended :
      (static d d' : List (Text × Option V)) (n : Text)
      → supplied static d n ≢ none
      → ((v : V) → entry n d ≡ some (some v) → entry n d' ≡ some (some v))
      → supplied static d n ≡ supplied static d' n
  unfolding supplied
  supplied-extended static d d' n h k = elim (Option-cases (entry n static)) [
    | inr (v, e) ↦ rw (supplied, e) refl
    | inl e ↦ elim (Option-cases (entry n d)) [
      | inl x ↦ absurd (h (rw (supplied, e, x) refl))
      | inr (w, x) ↦ elim (Option-cases w) [
        | inl y ↦ absurd (h (rw (supplied, e, x, y) refl))
        | inr (v, y) ↦ rw (supplied, e, k v (x ∙ ap some y), x, y) refl
      ]
    ]
  ]

  -- A name that has no value: stored as None, or not stored at all and absent or None in the
  -- request.
  abbrev pub IsAbsent : List (Text × Option V) → List (Text × Option V) → Text → Type 0
  IsAbsent static dynamic n =
      (entry n static ≡ some none)
      ⊎ ((entry n static ≡ none) × ((entry n dynamic ≡ none) ⊎ (entry n dynamic ≡ some none)))

  supplied_iff :
      (static dynamic : List (Text × Option V)) (n : Text)
      → (supplied static dynamic n ≡ none) ↔ IsAbsent static dynamic n
  unfolding supplied
  supplied_iff static dynamic n = (λ h. ground arith, λ h. ground arith)

  module _ (u : Unicode) (cel : Cel V) where
    settle-ne-missing :
        (e : Text) (a : List (Text × cel.Value) ⊎ Failure) (ns : List Text)
        → settle u cel e a ≢ missing ns
    unfolding settle
    settle-ne-missing e (inl a) ns = elim (Bool-cases cel.installed) [
      | inl b ↦ rw (settle, b) (outcome-ne-missing (cel.run e a) ns)
      | inr b ↦ rw (settle, b) (λ h. cc)
    ]
    settle-ne-missing e (inr f) ns = elim (Bool-cases cel.installed) [
      | inl b ↦ rw (settle, b) (λ h. cc)
      | inr b ↦ rw (settle, b) (λ h. cc)
    ]

    -- When the verdict is that inputs are missing, then at least one is, and the names given are
    -- those of the declared parameters that are stored as None, or that are not stored and that
    -- the request leaves out or gives as None. A stored None counts as missing although the
    -- request has a value.
    pub evaluate-missing :
        (c : Caveat) (static dynamic : List (Text × Option V)) (ns : List Text)
        → evaluate u cel c static dynamic ≡ missing ns
        → (ns ≢ [])
          × ((n : Text)
              → Mem n ns ↔ (
                  Mem n (names c.params)
                  × ((entry n static ≡ some none)
                      ⊎ ((entry n static ≡ none)
                          × ((entry n dynamic ≡ none) ⊎ (entry n dynamic ≡ some none))))))
    unfolding evaluate
    evaluate-missing c static dynamic ns h =
        let absent = absent_names static dynamic (declared c) in
        elim (Bool-cases (is_empty (absent_names static dynamic (declared c)))) [
          | inl b ↦ absurd (
              settle-ne-missing c.expression (activation u cel static dynamic (declared c)) ns
                (sym (rw (evaluate, b) refl) ∙ h))
          | inr b ↦
              let same : sort_texts absent ≡ ns =
                missing-injective (sort_texts absent) ns (sym (rw (evaluate, b) refl) ∙ h) in
              (
                λ e. sort_texts-ne-nil absent b (same ∙ e),
                λ n. (
                  λ m.
                      let p =
                        (Mem-absent_names static dynamic n (declared c)).0
                          ((Mem-sort_texts n absent).0 (subst (Mem n) (sym same) m)) in
                      ((Mem-declared n c).0 p.0, (supplied_iff static dynamic n).0 p.1),
                  λ (m, a). subst (Mem n) same (
                      (Mem-sort_texts n absent).1 (
                        (Mem-absent_names static dynamic n (declared c)).1
                          ((Mem-declared n c).1 m, (supplied_iff static dynamic n).1 a))),
                ),
              )
        ]

    absent_names-congr :
        (static d d' : List (Text × Option V)) (ds : List (Text × Text))
        → ((n : Text) → Mem n (keys ds) → supplied static d n ≡ supplied static d' n)
        → absent_names static d ds ≡ absent_names static d' ds
    unfolding absent_names keys
    absent_names-congr static d d' [] h = refl
    absent_names-congr static d d' ((n, t) ∷ ds) h =
        let same = h n (here refl) in
        let ih = absent_names-congr static d d' ds (λ k m. h k (there m)) in
        elim (Option-cases (supplied static d n)) [
          | inl e ↦ rw (absent_names, e, sym same ∙ e, ih) refl
          | inr (v, e) ↦ rw (absent_names, e, sym same ∙ e, ih) refl
        ]

    activation-congr :
        (static d d' : List (Text × Option V)) (ds : List (Text × Text))
        → ((n : Text) → Mem n (keys ds) → supplied static d n ≡ supplied static d' n)
        → activation u cel static d ds ≡ activation u cel static d' ds
    unfolding activation keys
    activation-congr static d d' [] h = refl
    activation-congr static d d' ((n, t) ∷ ds) h =
        let same = h n (here refl) in
        let ih = activation-congr static d d' ds (λ k m. h k (there m)) in
        elim (Option-cases (supplied static d n)) [
          | inl e ↦ rw (activation, e, sym same ∙ e, ih) refl
          | inr (v, e) ↦ rw (activation, e, sym same ∙ e, ih) refl
        ]

    evaluate-congr :
        (c : Caveat) (static d d' : List (Text × Option V))
        → ((n : Text) → Mem n (names c.params) → supplied static d n ≡ supplied static d' n)
        → evaluate u cel c static d ≡ evaluate u cel c static d'
    unfolding evaluate
    evaluate-congr c static d d' h =
        let on_keys = λ (n : Text) (m : Mem n (keys (declared c))). h n ((Mem-declared n c).0 m) in
        rw
          (
            evaluate,
            absent_names-congr static d d' (declared c) on_keys,
            activation-congr static d d' (declared c) on_keys,
          )
          refl

    -- A request cannot override what is stored: two dynamic contexts with the same entries for the
    -- declared parameters that are not in the static context give the same verdict.
    pub evaluate-pinned :
        (c : Caveat) (static d d' : List (Text × Option V))
        → ((n : Text) → Mem n (names c.params) → entry n static ≡ none → entry n d ≡ entry n d')
        → evaluate u cel c static d ≡ evaluate u cel c static d'
    evaluate-pinned c static d d' h =
        evaluate-congr c static d d' (λ n m. supplied-congr static d d' n (h n m))

    -- A verdict that needs no further input stays: when it is not that inputs are missing, then it
    -- is the same for each dynamic context that keeps the values that the first has for declared
    -- parameters.
    pub evaluate-extended :
        (c : Caveat) (static d d' : List (Text × Option V))
        → ((ns : List Text) → evaluate u cel c static d ≢ missing ns)
        → ((n : Text) (v : V)
            → Mem n (names c.params)
            → entry n d ≡ some (some v)
            → entry n d' ≡ some (some v))
        → evaluate u cel c static d ≡ evaluate u cel c static d'
    unfolding evaluate
    evaluate-extended c static d d' h k =
        elim (Bool-cases (is_empty (absent_names static d (declared c)))) [
          | inr b ↦
              absurd (h (sort_texts (absent_names static d (declared c))) (rw (evaluate, b) refl))
          | inl b ↦ evaluate-congr c static d d' (λ n m.
              supplied-extended static d d' n
                (λ a.
                  elim (subst (Mem n) (nil-absent (absent_names static d (declared c)) b)
                    ((Mem-absent_names static d n (declared c)).1 ((Mem-declared n c).1 m, a))) [ ])
                (λ v. k n v m))
        ]
