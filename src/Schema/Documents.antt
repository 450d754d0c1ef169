-- ===== src/Schema/Documents.antt =====
-- The persisted form of a relation's backing: `backing_from_dict` and `backing_to_dict` of
-- src/rebac/schema/ast.py. A list or object where a scalar is wanted is `none`: nothing reads
-- what it holds. Python's `str.isidentifier` and `math.isfinite` are parameters.
use django_zed_rebac.Prelude.{
  ℕ, Text, Bool, true, false, Option, none, some, List, [], ◌∷◌, ◌++◌, codes, is_empty, nat_eq,
  list_eq, bool_eq, contains, length, leb, ◌&&◌, ◌||◌, ◌==◌, if◌then◌else◌, ◌⊎◌, inl, inr, text_leb,
}
use django_zed_rebac.Schema.Ast.{
  Scalar, null, float, text, Filters, Backing, field_binding, const_binding, attribute_binding,
}

pub data Value : Type 0 where
  scalar : Scalar → Value
  object : List (Text × Option Scalar) → Value
  array : Value

abbrev pub Fields : Type 0
Fields = List (Text × Value)

pub data Document : Type 0 where
  nothing not_object : Document
  document : Fields → Document

-- The ValueErrors.
pub data BackingError : Type 0 where
  not_json_object filters_not_object lookup_names not_scalar not_finite : BackingError
  unknown_constant_fields concrete_object unknown_field_fields relation_path : BackingError
  unknown_attribute_fields scalar_field both_or_neither concrete_resource : BackingError
  unsupported_kind : BackingError

unfoldable pub get_field : Text → Fields → Option Value
get_field k [] = none
get_field k ((x, v) ∷ d) = if k == x then some v else get_field k d

-- A part is added to while the flag says whether an underscore before it is not used up.
unfoldable pub push : ℕ → List Text → List Text
push c [] = (c ∷ []) ∷ []
push c (p ∷ ps) = (c ∷ p) ∷ ps

unfoldable pub split_lookup : Bool → Text → List Text
unfolding push
split_lookup false [] = [] ∷ []
split_lookup true [] = (b'_' ∷ []) ∷ []
split_lookup false (c ∷ s) = elim (c == b'_') [
  | true ↦ split_lookup true s
  | false ↦ push c (split_lookup false s)
]
split_lookup true (c ∷ s) = elim (c == b'_') [
  | true ↦ [] ∷ split_lookup false s
  | false ↦ push b'_' (push c (split_lookup false s))
]

unfoldable pub all_of : {A : Type 0} → (A → Bool) → List A → Bool
all_of p [] = true
all_of p (x ∷ xs) = p x && all_of p xs

-- `[A-Za-z0-9/_|=+-]`
unfoldable pub is_id_char : ℕ → Bool
is_id_char c =
    (leb b'A' c && leb c b'Z')
    || ((leb b'a' c && leb c b'z') || ((leb b'0' c && leb c b'9') || contains (codes "/_|=+-") c))

unfoldable pub is_concrete_id : Text → Bool
unfolding all_of is_id_char
is_concrete_id t = leb 1 (length t) && (leb (length t) 1024 && all_of is_id_char t)

-- `sorted(value.items())`: the keys of a dictionary differ.
unfoldable pub insert_item : Text × Scalar → Filters → Filters
insert_item e [] = e ∷ []
insert_item e (x ∷ xs) = if text_leb e.0 x.0 then e ∷ (x ∷ xs) else x ∷ insert_item e xs

unfoldable pub sort_items : Filters → Filters
unfolding insert_item
sort_items [] = []
sort_items (x ∷ xs) = insert_item x (sort_items xs)

-- `dict(pairs)`
unfoldable pub put_item : Text → Scalar → List (Text × Option Scalar) → List (Text × Option Scalar)
put_item k v [] = (k, some v) ∷ []
put_item k v ((x, w) ∷ d) = if k == x then (x, some v) ∷ d else (x, w) ∷ put_item k v d

unfoldable pub dict_of : Filters → List (Text × Option Scalar) → List (Text × Option Scalar)
unfolding put_item
dict_of [] d = d
dict_of ((k, v) ∷ fs) d = dict_of fs (put_item k v d)

unfoldable pub only_keys : List Text → Fields → Bool
only_keys ks [] = true
only_keys ks ((k, v) ∷ d) = contains ks k && only_keys ks d

unfoldable pub filters_field : Filters → Fields
unfolding dict_of
filters_field fs = if is_empty fs then [] else (codes "filters", object (dict_of fs [])) ∷ []

unfoldable pub anchor_fields : Option Text → Scalar → Fields
anchor_fields none v = []
anchor_fields (some r) v = (codes "resource", scalar (text r)) ∷ ((codes "value", scalar v) ∷ [])

abbrev pub kind_field : Text → Text × Value
kind_field k = (codes "kind", scalar (text k))

unfoldable pub backing_to_dict : Option Backing → Document
unfolding filters_field anchor_fields
backing_to_dict none = nothing
backing_to_dict (some (const_binding t fs)) =
    document
      (kind_field (codes "const") ∷ ((codes "target_id", scalar (text t)) ∷ filters_field fs))
backing_to_dict (some (field_binding p fs)) =
    document (kind_field (codes "fk") ∷ ((codes "path", scalar (text p)) ∷ filters_field fs))
backing_to_dict (some (attribute_binding b)) = document (
    kind_field (codes "attribute")
    ∷ ((codes "field", scalar (text b.field))
        ∷ (anchor_fields b.resource b.value ++ filters_field b.filters)))

-- A JSON string, as `isinstance(x, str)` finds it.
unfoldable pub text_of : Option Value → Option Text
text_of (some (scalar (text t))) = some t
text_of _ = none

module _ (is_identifier is_finite : Text → Bool) where
  unfoldable pub is_lookup_path : Text → Bool
  unfolding split_lookup all_of
  is_lookup_path t = all_of is_identifier (split_lookup false t)

  unfoldable pub check_item : Text → Option Scalar → Scalar ⊎ BackingError
  unfolding is_lookup_path
  check_item k v =
      if is_lookup_path k
      then elim v [
        | none ↦ inr not_scalar
        | some (float t) ↦ if is_finite t then inl (float t) else inr not_finite
        | some w ↦ inl w
      ]
      else inr lookup_names

  unfoldable pub check_items : List (Text × Option Scalar) → Filters ⊎ BackingError
  unfolding check_item
  check_items [] = inl []
  check_items ((k, v) ∷ d) =
      let rest = check_items d in
      elim (check_item k v) [
        | inr e ↦ inr e
        | inl w ↦ elim rest [ inr e ↦ inr e | inl fs ↦ inl ((k, w) ∷ fs) ]
      ]

  unfoldable pub binding_filters : Option Value → Filters ⊎ BackingError
  unfolding check_items sort_items
  binding_filters none = inl []
  binding_filters (some (object d)) = elim (check_items d) [
    | inr e ↦ inr e
    | inl fs ↦ inl (sort_items fs)
  ]
  binding_filters (some _) = inr filters_not_object

  unfoldable pub with_filters : (Filters → Backing) → Fields → Option Backing ⊎ BackingError
  unfolding get_field binding_filters
  with_filters make d = elim (binding_filters (get_field (codes "filters") d)) [
    | inr e ↦ inr e
    | inl fs ↦ inl (some (make fs))
  ]

  unfoldable pub const_from_dict : Fields → Option Backing ⊎ BackingError
  unfolding only_keys get_field text_of is_concrete_id with_filters
  const_from_dict d =
      if only_keys (codes "kind" ∷ (codes "target_id" ∷ (codes "filters" ∷ []))) d
      then elim (text_of (get_field (codes "target_id") d)) [
        | none ↦ inr concrete_object
        | some t ↦
            if is_concrete_id t then with_filters (const_binding t) d else inr concrete_object
      ]
      else inr unknown_constant_fields

  unfoldable pub field_from_dict : Fields → Option Backing ⊎ BackingError
  unfolding only_keys get_field text_of is_lookup_path with_filters
  field_from_dict d =
      if only_keys (codes "kind" ∷ (codes "path" ∷ (codes "filters" ∷ []))) d
      then elim (text_of (get_field (codes "path") d)) [
        | none ↦ inr relation_path
        | some p ↦ if is_lookup_path p then with_filters (field_binding p) d else inr relation_path
      ]
      else inr unknown_field_fields

  -- The checks of a fixed container and its value, when either is given.
  unfoldable pub anchor_from : Option Value → Option Value → (Option Text × Scalar) ⊎ BackingError
  unfolding text_of is_concrete_id check_item
  anchor_from none none = inl (none, null)
  anchor_from none (some v) = inr both_or_neither
  anchor_from (some r) none = inr both_or_neither
  anchor_from (some r) (some v) = elim (text_of (some r)) [
    | none ↦ inr concrete_resource
    | some t ↦
        if is_concrete_id t
        then elim (check_item (codes "value") (scalar_of v)) [
          | inr e ↦ inr e
          | inl w ↦ inl (some t, w)
        ]
        else inr concrete_resource
  ]
    where
      scalar_of : Value → Option Scalar
      scalar_of (scalar w) = some w
      scalar_of (object d) = none
      scalar_of array = none

  unfoldable pub attribute_from_dict : Fields → Option Backing ⊎ BackingError
  unfolding only_keys get_field text_of anchor_from with_filters
  attribute_from_dict d =
      if only_keys
        (codes "kind"
          ∷ (codes "field" ∷ (codes "resource" ∷ (codes "value" ∷ (codes "filters" ∷ [])))))
        d
      then elim (text_of (get_field (codes "field") d)) [
        | none ↦ inr scalar_field
        | some n ↦
            if is_identifier n
            then elim (anchor_from (get_field (codes "resource") d) (get_field (codes "value") d)) [
              | inr e ↦ inr e
              | inl a ↦
                  with_filters
                    (λ fs.
                      attribute_binding
                        (record { field = n; resource = a.0; value = a.1; filters = fs }))
                    d
            ]
            else inr scalar_field
      ]
      else inr unknown_attribute_fields

  -- `value.get("kind", "fk")`; what is not a string equals none of the names.
  unfoldable pub kind_of : Option Value → Option Text
  unfolding text_of
  kind_of none = some (codes "fk")
  kind_of (some v) = text_of (some v)

  unfoldable pub backing_from_dict : Document → Option Backing ⊎ BackingError
  unfolding get_field kind_of const_from_dict field_from_dict attribute_from_dict
  backing_from_dict nothing = inl none
  backing_from_dict not_object = inr not_json_object
  backing_from_dict (document d) = elim (kind_of (get_field (codes "kind") d)) [
    | none ↦ inr unsupported_kind
    | some k ↦
        if k == codes "const"
        then const_from_dict d
        else if k == codes "fk"
        then field_from_dict d
        else if k == codes "attribute"
        then attribute_from_dict d
        else inr unsupported_kind
  ]
