-- ===== src/Evaluator/Cache.antt =====
-- The check cache answers as the backend does and stays within its bound: src/rebac/evaluator.py.
use django_zed_rebac.Prelude.{
  ℕ, Text, Option, none, contains, ap, ◌∙◌, ◌≤◌, false, some, List, [], ◌∷◌, ◌++◌, ◌==◌, nat_eq,
  list_eq, pair_eq, ltb, length, map, ◌≡◌, ◌≢◌, refl, arith, All, Bool-cases, Option-cases, inl,
  inr, ==_cases, sym, length-append,
}
use django_zed_rebac.Types.{
  CheckResult, SubjectRef, ObjectRef, print_subject, print_object, parse_subject, parse_object,
  colon,
}
use django_zed_rebac.Types.RoundTrip.{
  IsPrintable, parse_subject-print_subject, parse_object-print_object,
}
use django_zed_rebac.Evaluator.Defs.{
  Request, Key, Entries, key_of, is_conditional, cached, without, evict_if_full, store_check,
  check_key, check, checks,
}

some-injective : {A : Type 0} {a b : A} → some a ≡ some b → a ≡ b
some-injective h = cc

some-ne-none : {A : Type 0} {a : A} → some a ≢ none
some-ne-none h = cc

All-append :
    (P : Key × CheckResult → Type 0) (xs ys : Entries) → All P xs → All P ys → All P (xs ++ ys)
All-append P [] ys h k = k
All-append P (x ∷ xs) ys h k = (h.0, All-append P xs ys h.1 k)

All-without :
    (P : Key × CheckResult → Type 0) (k : Key) (es : Entries) → All P es → All P (without k es)
unfolding without
All-without P k [] h = h
All-without P k ((x, r) ∷ es) h = elim (Bool-cases (k == x)) [
  | inl e ↦ rw (without, e) h.1
  | inr e ↦ rw (without, e) (h.0, All-without P k es h.1)
]

All-evict :
    (P : Key × CheckResult → Type 0) (max : ℕ) (es : Entries)
    → All P es
    → All P (evict_if_full max es)
unfolding evict_if_full
All-evict P max [] h = h
All-evict P max (x ∷ es) h = elim (Bool-cases (ltb max (length (x ∷ es)))) [
  | inl e ↦ rw (evict_if_full, e) (All-evict P max es h.1)
  | inr e ↦ rw (evict_if_full, e) h
]

evict_if_full-bound : (max : ℕ) (es : Entries) → length (evict_if_full max es) ≤ max
unfolding evict_if_full
evict_if_full-bound max [] = omega arith
evict_if_full-bound max (x ∷ es) = ground (arith, evict_if_full-bound max es)

cached-All :
    (P : Key × CheckResult → Type 0) (k : Key) (r : CheckResult) (es : Entries)
    → All P es
    → cached k es ≡ some r
    → P (k, r) × (length (without k es ++ ((k, r) ∷ [])) ≡ length es)
unfolding cached without
cached-All P k r [] h c = cc
cached-All P k r ((x, v) ∷ es) h c = elim (==_cases k x) [
  | inl (e, p) ↦
      let whole : some v ≡ some r = rw (cached, e) at c in
      let same : v ≡ r = cc in
      (rw (p, ← same) h.0, rw (without, e) (omega (arith, length-append es ((k, r) ∷ []))))
  | inr e ↦
      let ih = cached-All P k r es h.1 (rw (cached, e) at c) in
      (ih.0, rw (without, e) (omega (arith, ih.1)))
]

-- The wire forms of the references of a call are read back: no type holds a ':', and neither the
-- subject's type nor its id holds a '#'.
abbrev pub IsWellFormed : Request → Type 0
IsWellFormed q = IsPrintable q.subject × (contains q.resource.resource_type colon ≡ false)

make_request : ℕ → Option ℕ → SubjectRef → Text → ObjectRef → Option Text → Request
make_request b g s a o c = record {
  backend = b;
  generation = g;
  subject = s;
  action = a;
  resource = o;
  context_key = c;
  pinned = false;
}

-- What a key says of its call.
record KeyOf (q : Request) (k : Key) : Type 0 where
  pinned : q.pinned ≡ false
  context : q.context_key ≡ some k.1.1.1.1
  generation : q.generation ≡ some k.0.1
  backend : q.backend ≡ k.0.0
  subject : print_subject q.subject ≡ k.1.0
  action : q.action ≡ k.1.1.0
  resource : print_object q.resource ≡ k.1.1.1.0

key_of-KeyOf : (q : Request) (k : Key) → key_of q ≡ some k → KeyOf q k
unfolding key_of
key_of-KeyOf q k h = elim (Bool-cases q.pinned) [
  | inl e ↦ absurd (some-ne-none (sym h ∙ rw (key_of, e) refl))
  | inr e ↦ elim (Option-cases q.context_key) [
    | inl f ↦ absurd (some-ne-none (sym h ∙ rw (key_of, e, f) refl))
    | inr (c, f) ↦ elim (Option-cases q.generation) [
      | inl g ↦ absurd (some-ne-none (sym h ∙ rw (key_of, e, f, g) refl))
      | inr (n, g) ↦
          let made : Key =
            ((q.backend, n), (print_subject q.subject, (q.action, (print_object q.resource, c)))) in
          let same : made ≡ k = some-injective (sym (rw (key_of, e, f, g) refl) ∙ h) in
          record {
            pinned = e;
            context = f ∙ ap (λ (x : Key). some x.1.1.1.1) same;
            generation = g ∙ ap (λ (x : Key). some x.0.1) same;
            backend = ap (λ (x : Key). x.0.0) same;
            subject = ap (λ (x : Key). x.1.0) same;
            action = ap (λ (x : Key). x.1.1.0) same;
            resource = ap (λ (x : Key). x.1.1.1.0) same;
          }
    ]
  ]
]

print_subject-injective :
    (a b : SubjectRef) → IsPrintable a → IsPrintable b → print_subject a ≡ print_subject b → a ≡ b
print_subject-injective a b h k e =
    some-injective (
      sym (parse_subject-print_subject a h)
      ∙ (ap parse_subject e ∙ parse_subject-print_subject b k))

print_object-injective :
    (a b : ObjectRef)
    → contains a.resource_type colon ≡ false
    → contains b.resource_type colon ≡ false
    → print_object a ≡ print_object b
    → a ≡ b
print_object-injective a b h k e =
    some-injective
      (sym (parse_object-print_object a h) ∙ (ap parse_object e ∙ parse_object-print_object b k))

make_request-fields :
    (q : Request)
    → q.pinned ≡ false
    → q ≡ make_request q.backend q.generation q.subject q.action q.resource q.context_key
unfolding make_request
make_request-fields q h = λ i. record q { pinned = h i }

-- Two well-formed calls with one key are the same call.
key_of-injective :
    (p q : Request) (k : Key)
    → IsWellFormed p
    → IsWellFormed q
    → key_of p ≡ some k
    → key_of q ≡ some k
    → p ≡ q
key_of-injective p q k wp wq hp hq =
    let a = key_of-KeyOf p k hp in
    let b = key_of-KeyOf q k hq in
    make_request-fields p a.pinned
    ∙ (rw
          (
            a.backend ∙ sym b.backend,
            a.generation ∙ sym b.generation,
            print_subject-injective p.subject q.subject wp.0 wq.0 (a.subject ∙ sym b.subject),
            a.action ∙ sym b.action,
            print_object-injective p.resource q.resource wp.1 wq.1 (a.resource ∙ sym b.resource),
            a.context ∙ sym b.context,
          )
          refl
        ∙ sym (make_request-fields q b.pinned))

module _ (check_access : Request → CheckResult) where
  -- A remembered answer is definite, and is the backend's for every well-formed call with its key.
  abbrev pub IsAnswer : Key × CheckResult → Type 0
  IsAnswer (k, r) =
      (is_conditional r ≡ false)
      × ((q : Request) → IsWellFormed q → key_of q ≡ some k → check_access q ≡ r)

  -- The cache is within its bound and each entry is such an answer.
  abbrev pub IsSound : ℕ → Entries → Type 0
  IsSound max es = (length es ≤ max) × All IsAnswer es

  check-IsSound :
      (max : ℕ) (q : Request) (es : Entries)
      → IsWellFormed q
      → IsSound max es
      → ((check check_access max q es).0 ≡ check_access q)
        × IsSound max (check check_access max q es).1
  unfolding check check_key store_check
  check-IsSound max q es wf ok = elim (Option-cases (key_of q)) [
    | inl n ↦ rw (check, n) (refl, ok)
    | inr (k, n) ↦ elim (Option-cases (cached k es)) [
      | inr (r, c) ↦
          let hit = cached-All IsAnswer k r es ok.1 c in
          rw (check, check_key, n, c)
            (
              sym (hit.0.1 q wf n),
              (
                omega (arith, hit.1, ok.0),
                All-append IsAnswer (without k es) ((k, r) ∷ []) (All-without IsAnswer k es ok.1)
                    (hit.0, tt),
              ),
            )
      | inl c ↦ elim (Bool-cases (is_conditional (check_access q))) [
        | inl b ↦ rw (check, check_key, n, c, b) (refl, ok)
        | inr b ↦
            rw (check, check_key, n, c, b)
              (
                refl,
                (
                  evict_if_full-bound max (es ++ ((k, check_access q) ∷ [])),
                  All-evict IsAnswer max (es ++ ((k, check_access q) ∷ [])) (
                      All-append IsAnswer es ((k, check_access q) ∷ []) ok.1
                        ((b, λ p w h. ap check_access (key_of-injective p q k w wf h n)), tt)),
                ),
              )
      ]
    ]
  ]

  -- Every call of a run in one scope is answered as the backend answers it, from any sound cache,
  -- when the references of the calls are well formed. The backend is any function of the call: its
  -- answers may differ by the backend, its generation, the subject, the action, the resource and
  -- the context's summary, and between a pinned call and one that is not. The cache stays sound: it
  -- is within its bound, and it remembers definite answers of the backend only.
  pub checks_exact :
      (max : ℕ) (qs : List Request) (es : Entries)
      → All IsWellFormed qs
      → IsSound max es
      → ((checks check_access max qs es).0 ≡ map check_access qs)
        × IsSound max (checks check_access max qs es).1
  unfolding checks
  checks_exact max [] es wf ok = (refl, ok)
  checks_exact max (q ∷ qs) es wf ok =
      let now = check-IsSound max q es wf.0 ok in
      let later = checks_exact max qs (check check_access max q es).1 wf.1 now.1 in
      (rw (now.0, later.0) refl, later.1)
