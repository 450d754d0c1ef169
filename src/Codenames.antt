-- ===== src/Codenames.antt =====
-- The translation of a Django permission codename to an action: src/rebac/codenames.py.
use django_zed_rebac.Prelude.{
  Text, false, Option, none, some, List, [], ◌∷◌, ◌++◌, codes, ◌==◌, nat_eq, list_eq, contains,
  if◌then◌else◌, ◌≡◌, refl, Option-cases, inl, inr,
}
use django_zed_rebac.Types.Split.{split_once, split_once-joined, contains-joined}

abbrev pub Dictionary : Type 0
Dictionary = List (Text × Text)

unfoldable pub get : Dictionary → Text → Option Text
get [] k = none
get ((x, v) ∷ d) k = if k == x then some v else get d k

abbrev pub default_codename_map : Dictionary
default_codename_map =
    (codes "view", codes "read")
    ∷ ((codes "change", codes "write")
        ∷ ((codes "delete", codes "delete") ∷ ((codes "add", codes "create") ∷ [])))

-- The part behind the first dot, or all of it.
unfoldable pub codename_part : Text → Text
unfolding contains split_once
codename_part perm = if contains perm b'.' then (split_once b'.' perm).1 else perm

unfoldable pub prefix_action : Text → Option Text
unfolding contains split_once get
prefix_action codename =
    if contains codename b'_' then get default_codename_map (split_once b'_' codename).0 else none

unfoldable pub codename_to_action : Text → Dictionary → Option Text
unfolding get codename_part prefix_action
codename_to_action perm overrides = elim (get overrides perm) [
  | some action ↦ some action
  | none ↦ prefix_action (codename_part perm)
]

codename_part-label :
    (app rest : Text) → contains app b'.' ≡ false → codename_part (app ++ (b'.' ∷ rest)) ≡ rest
unfolding codename_part
codename_part-label app rest h =
    rw (codename_part, contains-joined b'.' app rest, split_once-joined b'.' app rest h) refl

prefix_action-prefix :
    (prefix model : Text)
    → contains prefix b'_' ≡ false
    → prefix_action (prefix ++ (b'_' ∷ model)) ≡ get default_codename_map prefix
unfolding prefix_action
prefix_action-prefix prefix model h =
    rw (prefix_action, contains-joined b'_' prefix model, split_once-joined b'_' prefix model h)
      refl

-- A permission of an app label without a dot and a codename of a prefix without an underscore is
-- translated by its prefix, unless the overrides name it: then they decide.
pub codename_to_action-label :
    (app prefix model : Text) (overrides : Dictionary)
    → contains app b'.' ≡ false
    → contains prefix b'_' ≡ false
    → codename_to_action (app ++ (b'.' ∷ (prefix ++ (b'_' ∷ model)))) overrides
      ≡ (elim (get overrides (app ++ (b'.' ∷ (prefix ++ (b'_' ∷ model))))) [
        | some action ↦ some action
        | none ↦ get default_codename_map prefix
      ])
unfolding codename_to_action codename_part prefix_action
codename_to_action-label app prefix model overrides h k =
    elim (Option-cases (get overrides (app ++ (b'.' ∷ (prefix ++ (b'_' ∷ model)))))) [
      | inr (action, e) ↦ rw (codename_to_action, e) refl
      | inl e ↦
          rw
            (
              codename_to_action,
              e,
              codename_part-label app (prefix ++ (b'_' ∷ model)) h,
              prefix_action-prefix prefix model k,
            )
            refl
    ]
