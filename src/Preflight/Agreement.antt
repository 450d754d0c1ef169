-- ===== src/Preflight/Agreement.antt =====
-- The callbacks over proposed relations answer in keeping with what these mean:
-- src/rebac/preflight.py.
use django_zed_rebac.Prelude.{
  ℕ, ◌+◌, Text, Bool, true, false, none, some, List, [], ◌∷◌, ◌++◌, is_empty, nat_eq, list_eq,
  any_of, not, ltb, ◌&&◌, ◌||◌, if◌then◌else◌, ◌⊎◌, inl, inr, ◌≡◌, refl, sym, subst, Bool-cases,
  Option-cases, arith,
}
use django_zed_rebac.Types.{
  ObjectRef, SubjectRef, same_subject, PermissionResult, has_permission, no_permission,
  conditional_permission, CheckResult,
}
use django_zed_rebac.Schema.{Definition, Schema, find_relation}
use django_zed_rebac.Actors.{Settings}
use django_zed_rebac.Walker.{Missing, Answer, value, unknown_relation, depth_exceeded}
use django_zed_rebac.Walker.Meaning.{World, Agrees}
use django_zed_rebac.Preflight.Defs.{
  Proposed, proposed_for, backend_answer, is_wildcard_for, declares, candidate_matches, go_on,
  ended, membership, hops, resolve_relation, resolve_arrow,
}

open-value : (x y g : Bool) → (x || not y) ≡ false → g ≡ (false || ((not x && y) && g))
open-value x y g h = ground arith

-- The result leaves the truth value open or has it.
unfoldable pub AllowsResult : PermissionResult → Bool → Type 0
AllowsResult has_permission b = b ≡ true
AllowsResult no_permission b = b ≡ false
AllowsResult conditional_permission b = Unit

ended-Agrees :
    (saw : Bool) (m : Missing) (b : Bool) → (saw ≡ false → b ≡ false) → Agrees (ended saw m) b
unfolding ended
ended-Agrees true m b h = tt
ended-Agrees false m b h = sym (h refl)

or-first : (x r b : Bool) → x ≡ false → (r || b) ≡ ((x || r) || b)
or-first x r b h = ground arith

or-moved : (x r b : Bool) → (r || (x || b)) ≡ ((x || r) || b)
or-moved x r b = ground arith

or-held : (x r b : Bool) → x ≡ true → true ≡ ((x || r) || b)
or-held x r b h = ground arith

-- A step of a loop whose rest is in keeping with `r`, or with what was seen before.
go_on-Agrees :
    (saw : Bool) (a : Answer) (rest : Bool → Missing → Answer) (x r b : Bool)
    → (saw ≡ false → b ≡ false)
    → Agrees a x
    → ((s : Bool) (k : Missing) (c : Bool) → (s ≡ false → c ≡ false) → Agrees (rest s k) (r || c))
    → Agrees (go_on saw a rest) ((x || r) || b)
unfolding go_on
go_on-Agrees saw (value (some true) k) rest x r b h g f = or-held x r b (sym g)
go_on-Agrees saw (value (some false) k) rest x r b h g f =
    subst (Agrees (rest saw k)) (or-first x r b (sym g)) (f saw k b h)
go_on-Agrees saw (value none k) rest x r b h g f =
    subst (Agrees (rest true k)) (or-moved x r b) (f true k (x || b) (λ e. absurd cc))
go_on-Agrees saw (unknown_relation k) rest x r b h g f = tt
go_on-Agrees saw (depth_exceeded k) rest x r b h g f = tt

List-cases :
    (xs : List SubjectRef) → (xs ≡ []) ⊎ ((y : SubjectRef) × (ys : List SubjectRef) × (xs ≡ y ∷ ys))
List-cases [] = inl refl
List-cases (y ∷ ys) = inr (y, ys, refl)

or-false : (b : Bool) → (b || false) ≡ b
or-false b = ground arith

module _ (settings : Settings) (is_canonical : SubjectRef → Bool)
    (check : Text → ObjectRef → CheckResult) (schema : Schema) (subject : SubjectRef)
    (depth_limit : ℕ) (granted : Text → ObjectRef → Bool) where
  -- The truth about stored resources is one that the backend's results allow.
  abbrev pub IsTrue : Type 0
  IsTrue = (action : Text) (o : ObjectRef) → AllowsResult (check action o).result (granted action o)

  -- Who a proposed subject stands for: itself, everyone of its type, or a subject set.
  abbrev pub stands_for : SubjectRef → Bool
  stands_for c =
      (same_subject c subject || is_wildcard_for check schema subject depth_limit c)
      || ((not (is_empty c.optional_relation) && declares check schema subject depth_limit c)
          && granted c.optional_relation c.object)

  backend_answer-Agrees :
      (r : CheckResult) (m : Missing) (b : Bool)
      → AllowsResult r.result b
      → Agrees (backend_answer check schema subject depth_limit r m) b
  unfolding backend_answer AllowsResult
  backend_answer-Agrees r m b h = go r.result h
    where
      go :
          (x : PermissionResult)
          → AllowsResult x b
          → Agrees
              (elim x [
                | has_permission ↦ value (some true) m
                | conditional_permission ↦ value none (r.conditional_on ++ m)
                | no_permission ↦ value (some false) m
              ])
              b
      go has_permission h = sym h
      go no_permission h = sym h
      go conditional_permission h = tt

  candidate_matches-Agrees :
      (depth : ℕ) (c : SubjectRef) (m : Missing)
      → IsTrue
      → Agrees (candidate_matches check schema subject depth_limit depth c m) (stands_for c)
  unfolding candidate_matches
  candidate_matches-Agrees depth c m t =
      elim (Bool-cases
        (same_subject c subject || is_wildcard_for check schema subject depth_limit c)) [
          | inl e ↦ rw (candidate_matches, e) refl
          | inr e ↦
              elim (Bool-cases (
                is_empty c.optional_relation
                || not (declares check schema subject depth_limit c))) [
                  | inl f ↦ rw (candidate_matches, e, f) (ground arith)
                  | inr f ↦ elim (Bool-cases (ltb depth_limit (depth + 1))) [
                    | inl g ↦ rw (candidate_matches, e, f, g) tt
                    | inr g ↦
                        rw (candidate_matches, e, f, g)
                          (subst
                            (λ b.
                              Agrees
                                (backend_answer check schema subject depth_limit
                                  (check c.optional_relation c.object) m)
                                b)
                            (open-value (is_empty c.optional_relation)
                              (declares check schema subject depth_limit c)
                              (granted c.optional_relation c.object) f)
                            (backend_answer-Agrees (check c.optional_relation c.object) m
                              (granted c.optional_relation c.object)
                              (t c.optional_relation c.object)))
                  ]
                ]
        ]

  membership-Agrees :
      (depth : ℕ) (saw : Bool) (cs : List SubjectRef) (m : Missing) (b : Bool)
      → IsTrue
      → (saw ≡ false → b ≡ false)
      → Agrees
          (membership check schema subject depth_limit depth saw cs m)
          (any_of stands_for cs || b)
  unfolding membership any_of
  membership-Agrees depth saw [] m b t h = ended-Agrees saw m b h
  membership-Agrees depth saw (c ∷ cs) m b t h =
      go_on-Agrees saw (candidate_matches check schema subject depth_limit depth c m)
        (λ s k. membership check schema subject depth_limit depth s cs k) (stands_for c)
        (any_of stands_for cs) b h (candidate_matches-Agrees depth c m t)
        (λ s k d. membership-Agrees depth s cs k d t)

  hops-Agrees :
      (target : Text) (saw : Bool) (cs : List SubjectRef) (m : Missing) (b : Bool)
      → IsTrue
      → (saw ≡ false → b ≡ false)
      → Agrees
          (hops check schema subject depth_limit target saw cs m)
          (any_of (λ c. granted target c.object) cs || b)
  unfolding hops any_of
  hops-Agrees target saw [] m b t h = ended-Agrees saw m b h
  hops-Agrees target saw (c ∷ cs) m b t h =
      go_on-Agrees saw (backend_answer check schema subject depth_limit (check target c.object) m)
        (λ s k. hops check schema subject depth_limit target s cs k) (granted target c.object)
        (any_of (λ (d : SubjectRef). granted target d.object) cs) b h
        (backend_answer-Agrees (check target c.object) m (granted target c.object)
          (t target c.object))
        (λ s k d. hops-Agrees target s cs k d t)

  hops_from-Agrees :
      (target : Text) (c : SubjectRef) (cs : List SubjectRef) (depth : ℕ) (m : Missing)
      → IsTrue
      → Agrees
          (if ltb depth_limit (depth + 1)
            then depth_exceeded m
            else hops check schema subject depth_limit target false (c ∷ cs) m)
          (any_of (λ (x : SubjectRef). granted target x.object) (c ∷ cs))
  hops_from-Agrees target c cs depth m t = elim (Bool-cases (ltb depth_limit (depth + 1))) [
    | inl g ↦ rw g tt
    | inr g ↦ rw g (
        subst (Agrees (hops check schema subject depth_limit target false (c ∷ cs) m))
          (or-false (any_of (λ (x : SubjectRef). granted target x.object) (c ∷ cs)))
          (hops-Agrees target false (c ∷ cs) m false t (λ _. refl)))
  ]

  -- What is true of the relations whose proposal is not known.
  module _ (unknown : World) where
    unfoldable pub related_in : Definition → Proposed → Text → Bool
    unfolding find_relation
    related_in d rels n = elim (find_relation d n) [
      | none ↦ false
      | some r ↦ elim (proposed_for rels n) [
        | none ↦ unknown.related n
        | some cs ↦ any_of stands_for cs
      ]
    ]

    unfoldable pub reaches_in : Definition → Proposed → Text → Text → Bool
    unfolding find_relation
    reaches_in d rels via target = elim (find_relation d via) [
      | none ↦ false
      | some r ↦ elim (proposed_for rels via) [
        | none ↦ unknown.reaches via target
        | some cs ↦ any_of (λ (c : SubjectRef). granted target c.object) cs
      ]
    ]

    -- The world of the proposed relations of a definition.
    unfoldable pub world_of : Definition → Proposed → World
    unfolding related_in reaches_in
    world_of d rels = record { related = related_in d rels; reaches = reaches_in d rels }

    pub relation-Agrees :
        (d : Definition) (rels : Proposed) (rid n : Text) (depth : ℕ) (m : Missing)
        → IsTrue
        → Agrees
            (resolve_relation check schema subject depth_limit rels d rid n depth m)
            (related_in d rels n)
    unfolding resolve_relation related_in
    relation-Agrees d rels rid n depth m t = elim (Option-cases (find_relation d n)) [
      | inl e ↦ rw (resolve_relation, related_in, e) refl
      | inr (r, e) ↦ elim (Option-cases (proposed_for rels n)) [
        | inl f ↦ rw (resolve_relation, related_in, e, f) tt
        | inr (cs, f) ↦
            rw (resolve_relation, related_in, e, f)
              (subst (Agrees (membership check schema subject depth_limit depth false cs m))
                (or-false (any_of stands_for cs))
                (membership-Agrees depth false cs m false t (λ _. refl)))
      ]
    ]

    pub arrow-Agrees :
        (d : Definition) (rels : Proposed) (rid via target : Text) (depth : ℕ) (m : Missing)
        → IsTrue
        → Agrees
            (resolve_arrow check schema subject depth_limit rels d rid via target depth m)
            (reaches_in d rels via target)
    unfolding resolve_arrow reaches_in any_of
    arrow-Agrees d rels rid via target depth m t = elim (Option-cases (find_relation d via)) [
      | inl e ↦ rw (resolve_arrow, reaches_in, e) refl
      | inr (r, e) ↦ elim (Option-cases (proposed_for rels via)) [
        | inl f ↦ rw (resolve_arrow, reaches_in, e, f) tt
        | inr (cs, f) ↦ elim (List-cases cs) [
          | inl g ↦ rw (resolve_arrow, reaches_in, e, f, g) refl
          | inr (x, xs, g) ↦
              rw (resolve_arrow, reaches_in, e, f, g) (hops_from-Agrees target x xs depth m t)
        ]
      ]
    ]
