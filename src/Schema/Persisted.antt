-- ===== src/Schema/Persisted.antt =====
-- A backing comes back from its persisted form: src/rebac/schema/ast.py.
use django_zed_rebac.Prelude.{
  Text, Bool, true, false, Option, none, some, List, [], ◌∷◌, ◌++◌, ◌≡◌, ◌≢◌, inl, inr, codes,
  list_beq, nat_eq, list_eq, contains, text_leb, All, refl, sym, ap, ◌∙◌, append_assoc, append-nil,
  ==_cases, ==_refl, ◌==◌,
}
use django_zed_rebac.Schema.Ast.{
  Scalar, null, bool, int, float, text, Filters, Backing, field_binding, const_binding,
  attribute_binding,
}
use django_zed_rebac.Schema.Documents.{
  scalar, object, Fields, get_field, is_concrete_id, sort_items, insert_item, put_item, dict_of,
  kind_field, only_keys, filters_field, anchor_fields, backing_to_dict, text_of, is_lookup_path,
  check_item, check_items, binding_filters, with_filters, const_from_dict, field_from_dict,
  anchor_from, attribute_from_dict, kind_of, backing_from_dict,
}

-- The items are in the order of their keys, which differ.
unfoldable pub IsOrdered : Filters → Type 0
IsOrdered [] = Unit
IsOrdered ((k, v) ∷ fs) =
    All (λ (e : Text × Scalar). (e.0 ≢ k) × (text_leb k e.0 ≡ true)) fs × IsOrdered fs

unfoldable pub IsFinite : (Text → Bool) → Scalar → Type 0
IsFinite is_finite (float t) = is_finite t ≡ true
IsFinite is_finite _ = Unit

items : Filters → List (Text × Option Scalar)
items [] = []
items ((k, v) ∷ fs) = (k, some v) ∷ items fs

AbsentIn : Text → List (Text × Option Scalar) → Type 0
AbsentIn k [] = Unit
AbsentIn k ((x, v) ∷ d) = ((k == x) ≡ false) × AbsentIn k d

ne-test : (a b : Text) → a ≢ b → (a == b) ≡ false
ne-test a b h = elim (==_cases a b) [ inl e ↦ absurd (h e.1) | inr e ↦ e ]

put_item-absent :
    (k : Text) (v : Scalar) (d : List (Text × Option Scalar))
    → AbsentIn k d
    → put_item k v d ≡ d ++ ((k, some v) ∷ [])
unfolding put_item AbsentIn
put_item-absent k v [] h = refl
put_item-absent k v ((x, w) ∷ d) (e, h) = rw (put_item, e, put_item-absent k v d h) refl

AbsentIn-append :
    (j k : Text) (v : Scalar) (d : List (Text × Option Scalar))
    → AbsentIn j d
    → j ≢ k
    → AbsentIn j (d ++ ((k, some v) ∷ []))
unfolding AbsentIn
AbsentIn-append j k v [] h n = (ne-test j k n, tt)
AbsentIn-append j k v ((x, w) ∷ d) (e, h) n = (e, AbsentIn-append j k v d h n)

AllAbsent-append :
    (k : Text) (v : Scalar) (d : List (Text × Option Scalar)) (fs : Filters)
    → All (λ (e : Text × Scalar). AbsentIn e.0 d) fs
    → All (λ (e : Text × Scalar). (e.0 ≢ k) × (text_leb k e.0 ≡ true)) fs
    → All (λ (e : Text × Scalar). AbsentIn e.0 (d ++ ((k, some v) ∷ []))) fs
AllAbsent-append k v d [] a o = tt
AllAbsent-append k v d ((j, w) ∷ fs) (h, a) ((n, l), o) =
    (AbsentIn-append j k v d h n, AllAbsent-append k v d fs a o)

dict_of-ordered :
    (fs : Filters) (d : List (Text × Option Scalar))
    → IsOrdered fs
    → All (λ (e : Text × Scalar). AbsentIn e.0 d) fs
    → dict_of fs d ≡ d ++ items fs
unfolding dict_of items IsOrdered
dict_of-ordered [] d o a = sym (append-nil d)
dict_of-ordered ((k, v) ∷ fs) d (l, o) (h, a) =
    ap (λ x. dict_of fs x) (put_item-absent k v d h)
    ∙ (dict_of-ordered fs (d ++ ((k, some v) ∷ [])) o (AllAbsent-append k v d fs a l)
        ∙ append_assoc d ((k, some v) ∷ []) (items fs))

AllAbsent-nil : (fs : Filters) → All (λ (e : Text × Scalar). AbsentIn e.0 []) fs
unfolding AbsentIn
AllAbsent-nil [] = tt
AllAbsent-nil (e ∷ fs) = (tt, AllAbsent-nil fs)

sort_items-ordered : (fs : Filters) → IsOrdered fs → sort_items fs ≡ fs
unfolding sort_items insert_item IsOrdered
sort_items-ordered [] o = refl
sort_items-ordered ((k, v) ∷ []) o = refl
sort_items-ordered ((k, v) ∷ ((j, w) ∷ fs)) (((n, l), r), o) =
    ap (λ x. insert_item (k, v) x) (sort_items-ordered ((j, w) ∷ fs) o) ∙ rw l refl

module _ (is_identifier is_finite : Text → Bool) where
  -- The filters that the decoder lets through.
  unfoldable pub AllItems : Filters → Type 0
  unfolding is_lookup_path IsFinite
  AllItems [] = Unit
  AllItems ((k, v) ∷ fs) =
      ((is_lookup_path is_identifier is_finite k ≡ true) × IsFinite is_finite v) × AllItems fs

  check_item-good :
      (k : Text) (v : Scalar)
      → is_lookup_path is_identifier is_finite k ≡ true
      → IsFinite is_finite v
      → check_item is_identifier is_finite k (some v) ≡ inl v
  unfolding check_item IsFinite
  check_item-good k null h f = rw h refl
  check_item-good k (bool b) h f = rw h refl
  check_item-good k (int n m) h f = rw h refl
  check_item-good k (float t) h f = rw (h, f) refl
  check_item-good k (text t) h f = rw h refl

  check_items-good :
      (fs : Filters) → AllItems fs → check_items is_identifier is_finite (items fs) ≡ inl fs
  unfolding check_items items AllItems
  check_items-good [] a = refl
  check_items-good ((k, v) ∷ fs) ((h, f), a) =
      rw (check_items, check_item-good k v h f, check_items-good fs a) refl

  binding_filters-stored :
      (fs : Filters)
      → IsOrdered fs
      → AllItems fs
      → binding_filters is_identifier is_finite (some (object (dict_of fs []))) ≡ inl fs
  unfolding binding_filters
  binding_filters-stored fs o a =
      rw
        (
          dict_of-ordered fs [] o (AllAbsent-nil fs),
          binding_filters,
          check_items-good fs a,
          sort_items-ordered fs o,
        )
        refl

  filters_field-get_field :
      (f : Text × Scalar) (fs : Filters)
      → get_field (codes "filters") (filters_field (f ∷ fs)) ≡ some (object (dict_of (f ∷ fs) []))
  unfolding filters_field get_field
  filters_field-get_field f fs = rw (==_refl (codes "filters")) refl

  no_other :
      (k : Text) (fs : Filters)
      → (k == codes "filters") ≡ false
      → get_field k (filters_field fs) ≡ none
  unfolding filters_field get_field
  no_other k [] h = refl
  no_other k (f ∷ fs) h = rw h refl

  with_filters-stored :
      (make : Filters → Backing) (d : Fields) (fs : Filters)
      → IsOrdered fs
      → AllItems fs
      → get_field (codes "filters") d ≡ get_field (codes "filters") (filters_field fs)
      → with_filters is_identifier is_finite make d ≡ inl (some (make fs))
  unfolding with_filters filters_field get_field AllItems IsOrdered binding_filters
  with_filters-stored make d [] o a e = rw (with_filters, e) refl
  with_filters-stored make d ((k, v) ∷ fs) o a e =
      rw
        (
          with_filters,
          e ∙ filters_field-get_field (k, v) fs,
          binding_filters-stored ((k, v) ∷ fs) o a,
        )
        refl

  unfoldable pub IsAnchor : Option Text → Scalar → Type 0
  unfolding IsFinite
  IsAnchor none v = v ≡ null
  IsAnchor (some r) v = (is_concrete_id r ≡ true) × IsFinite is_finite v

  -- What the decoder can give: filters in order, and names and identifiers of the right form.
  unfoldable pub IsStored : Backing → Type 0
  unfolding IsOrdered AllItems IsAnchor is_lookup_path
  IsStored (const_binding t fs) = (is_concrete_id t ≡ true) × IsOrdered fs × AllItems fs
  IsStored (field_binding p fs) =
      (is_lookup_path is_identifier is_finite p ≡ true) × IsOrdered fs × AllItems fs
  IsStored (attribute_binding b) =
      (is_identifier b.field ≡ true)
      × IsAnchor b.resource b.value
      × IsOrdered b.filters
      × AllItems b.filters

  filters-only :
      (ks : List Text) (fs : Filters)
      → contains ks (codes "filters") ≡ true
      → only_keys ks (filters_field fs) ≡ true
  unfolding only_keys filters_field
  filters-only ks [] h = refl
  filters-only ks (f ∷ fs) h = rw h refl

  abbrev Returns : Backing → Type 0
  Returns b = backing_from_dict is_identifier is_finite (backing_to_dict (some b)) ≡ inl (some b)

  const-stored :
      (t : Text) (fs : Filters) → IsStored (const_binding t fs) → Returns (const_binding t fs)
  unfolding IsStored backing_from_dict backing_to_dict kind_of get_field text_of const_from_dict
      only_keys contains list_beq
  const-stored t fs (h, o, a) =
      rw (filters-only (codes "kind" ∷ (codes "target_id" ∷ (codes "filters" ∷ []))) fs refl, h)
        (with_filters-stored (const_binding t)
          (kind_field (codes "const") ∷ ((codes "target_id", scalar (text t)) ∷ filters_field fs))
          fs o a refl)

  field-stored :
      (p : Text) (fs : Filters) → IsStored (field_binding p fs) → Returns (field_binding p fs)
  unfolding IsStored backing_from_dict backing_to_dict kind_of get_field text_of field_from_dict
      only_keys contains list_beq
  field-stored p fs (h, o, a) =
      rw (filters-only (codes "kind" ∷ (codes "path" ∷ (codes "filters" ∷ []))) fs refl, h)
        (with_filters-stored (field_binding p)
          (kind_field (codes "fk") ∷ ((codes "path", scalar (text p)) ∷ filters_field fs)) fs o a
          refl)

  abbrev attribute_keys : List Text
  attribute_keys =
      codes "kind" ∷ (codes "field" ∷ (codes "resource" ∷ (codes "value" ∷ (codes "filters" ∷ []))))

  abbrev anchored : Text → Option Text → Scalar → Filters → Backing
  anchored n r v fs =
      attribute_binding (record { field = n; resource = r; value = v; filters = fs })

  -- Without filters or with them, the other keys are looked up alike.
  attribute-stored :
      (n : Text) (r : Option Text) (v : Scalar) (fs : Filters)
      → is_lookup_path is_identifier is_finite (codes "value") ≡ true
      → IsStored (anchored n r v fs)
      → Returns (anchored n r v fs)
  unfolding IsStored IsAnchor backing_from_dict backing_to_dict kind_of get_field text_of
      attribute_from_dict anchor_from anchor_fields only_keys contains list_beq
  attribute-stored n none v fs g (h, e, o, a) =
      rw
        (
          filters-only attribute_keys fs refl,
          h,
          no_other (codes "resource") fs refl,
          no_other (codes "value") fs refl,
        )
        (with_filters-stored (anchored n none null)
            (kind_field (codes "attribute") ∷ ((codes "field", scalar (text n)) ∷ filters_field fs))
            fs o a refl
          ∙ ap (λ w. inl (some (anchored n none w fs))) (sym e))
  attribute-stored n (some r) v fs g (h, (i, f), o, a) =
      rw (filters-only attribute_keys fs refl, h, i, check_item-good (codes "value") v g f)
        (with_filters-stored (anchored n (some r) v)
          (kind_field (codes "attribute")
            ∷ ((codes "field", scalar (text n)) ∷ (anchor_fields (some r) v ++ filters_field fs)))
          fs o a refl)

  -- A backing of the stored form comes back from the dictionary that it is written as; the name
  -- `value` is taken to be an identifier.
  pub backing_from_dict-backing_to_dict :
      (b : Backing)
      → is_lookup_path is_identifier is_finite (codes "value") ≡ true
      → IsStored b
      → backing_from_dict is_identifier is_finite (backing_to_dict (some b)) ≡ inl (some b)
  backing_from_dict-backing_to_dict (const_binding t fs) g s = const-stored t fs s
  backing_from_dict-backing_to_dict (field_binding p fs) g s = field-stored p fs s
  backing_from_dict-backing_to_dict (attribute_binding b) g s =
      attribute-stored b.field b.resource b.value b.filters g s
