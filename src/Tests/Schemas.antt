-- ===== src/Tests/Schemas.antt =====
-- Runs and instances for the persisted backings and the validation of schemas.
use django_zed_rebac.Prelude.{
  ◌≡◌, ◌↔◌, refl, Text, Bool, true, false, none, some, [], ◌∷◌, codes, list_beq, contains, text_leb,
  All, inl,
}
use django_zed_rebac.Schema.{
  Backing, bool, attribute_binding, Relation, ref, arrow, bin_op, union, Definition,
}
use django_zed_rebac.Schema.Documents.{
  backing_from_dict, backing_to_dict, is_concrete_id, is_lookup_path,
}
use django_zed_rebac.Schema.Persisted.{IsStored, backing_from_dict-backing_to_dict}
use django_zed_rebac.Schema.Validation.{reference_issues, definition_issues, permission_issues}
use django_zed_rebac.Schema.Resolving.{ResolvesAll, reference_issues-ResolvesAll}
use django_zed_rebac.Schema.Naming.{IsUnambiguous, definition_issues-IsUnambiguous}

abbrev any_text : Text → Bool
any_text t = true

abbrev backing : Backing
backing = attribute_binding (record {
  field = codes "team";
  resource = some (codes "staff");
  value = bool true;
  filters = (codes "active", bool true) ∷ ((codes "kind", bool false) ∷ []);
})

backing-IsStored : IsStored any_text any_text backing
unfolding IsStored list_beq contains is_concrete_id text_leb
backing-IsStored =
    (refl, (refl, tt), ((((λ h. cc), refl), tt), (tt, tt)), ((refl, tt), ((refl, tt), tt)))

value_is_name : is_lookup_path any_text any_text (codes "value") ≡ true
unfolding is_lookup_path
value_is_name = refl

backing_from_dict-backing_to_dict_example :
    backing_from_dict any_text any_text (backing_to_dict (some backing)) ≡ inl (some backing)
backing_from_dict-backing_to_dict_example =
    backing_from_dict-backing_to_dict any_text any_text backing value_is_name backing-IsStored

abbrev owner : Relation
owner = record {
  name = codes "owner";
  allowed_subjects =
      (record {
        type = codes "auth/user";
        relation = [];
        wildcard = false;
        with_caveat = [];
        id = [];
      })
      ∷ [];
  with_expiration = false;
  backing = none;
}

abbrev post : Definition
post = record {
  resource_type = codes "blog/post";
  relations = owner ∷ [];
  permissions =
      (record {
        name = codes "read";
        expression = bin_op union (ref (codes "owner")) (arrow (codes "owner") (codes "self"));
        raw_text = [];
      })
      ∷ [];
}

post_is_valid : definition_issues any_text any_text [] post ≡ []
unfolding definition_issues list_beq
post_is_valid = refl

-- A reference to nothing is found.
stray :
    permission_issues post
        ((record { name = codes "x"; expression = ref (codes "y"); raw_text = [] }) ∷ [])
      ≡ []
    → ⊥
unfolding permission_issues list_beq
stray h = cc

definition_issues-IsUnambiguous_example : IsUnambiguous post
definition_issues-IsUnambiguous_example =
    definition_issues-IsUnambiguous any_text any_text [] post post_is_valid

reference_issues-ResolvesAll_example :
    (reference_issues (post ∷ []) ≡ [])
    ↔ All (λ (d : Definition). ResolvesAll d d.permissions) (post ∷ [])
reference_issues-ResolvesAll_example = reference_issues-ResolvesAll (post ∷ [])
