-- ===== src/Tests/Actors.antt =====
-- Runs and instances for src/rebac/actors.py.
use django_zed_rebac.Prelude.{
  Bool, ◌≡◌, refl, some, none, codes, ◌⊎◌, ◌↔◌, [], false, true, ◌&&◌, list_beq, Option, is_empty,
  if◌then◌else◌,
}
use django_zed_rebac.Types.{SubjectRef, subject_ref}
use django_zed_rebac.Actors.{
  Settings, Ambient, row, relation, ambient, authority, missing_actor, resolve, is_sudo, is_row,
  is_ambient, sudo_scope, refused, ran, not_allowed, reason_required, reason_text, Audit,
  is_anonymous_actor, anonymous_actor, type_with_prefix, builtin_actor_matches,
}
use django_zed_rebac.Actors.Authority.{
  resolve_bypass, resolve-pin, resolve_raises, sudo_scope_restores,
}
use django_zed_rebac.Schema.{authenticated_name}

abbrev pub strict : Settings
strict = record {
  anonymous_type = codes "auth/anonymous";
  type_prefix = [];
  strict_mode = true;
  allow_sudo = true;
  require_sudo_reason = true;
}

abbrev pub alice : SubjectRef
alice = subject_ref (codes "auth/user") (codes "1") []

abbrev no_actor : Option SubjectRef
no_actor = none

abbrev elevated : Ambient
elevated = record { actor = some alice; sudo = some (codes "migration") }

abbrev off : Bool
off = false

abbrev on : Bool
on = true

abbrev nobody : Ambient
nobody = record { actor = none; sudo = none }

anonymous_is_anonymous : is_anonymous_actor strict (some (anonymous_actor strict)) ≡ true
unfolding is_anonymous_actor anonymous_actor list_beq type_with_prefix
anonymous_is_anonymous = refl

alice_authenticated : builtin_actor_matches strict authenticated_name alice ≡ true
unfolding is_anonymous_actor builtin_actor_matches list_beq type_with_prefix
alice_authenticated = refl

elevated_read : resolve strict elevated no_actor false relation true false ≡ authority none true
unfolding resolve
elevated_read = refl

resolve_bypass_example :
    (no_actor ≡ none)
    × (((relation ≡ row) × (off ≡ true))
        ⊎ ((is_sudo elevated ≡ true) × ((relation ≡ ambient) ⊎ (no_actor ≡ none))))
resolve_bypass_example =
    resolve_bypass strict elevated no_actor false relation true false refl elevated_read

resolve-pin_example : resolve strict elevated (some alice) true row true false ≡ (
    if is_row row
    then authority none true
    else resolve strict elevated (some alice) false row true false)
resolve-pin_example = resolve-pin strict elevated (some alice) row true false

resolve_raises_example :
    (resolve strict nobody no_actor true ambient true false ≡ missing_actor) ↔ (
      (is_row ambient && true ≡ false)
      × ((is_ambient ambient ≡ true) ⊎ (no_actor ≡ none))
      × (is_sudo nobody ≡ false)
      × (nobody.actor ≡ none)
      × (off ≡ false)
      × (on ≡ true)
      × (strict.strict_mode ≡ true))
resolve_raises_example = resolve_raises strict nobody no_actor true ambient true false

-- A block that opens a bypass of its own and reports whether it saw one.
abbrev block : Ambient → Bool × Ambient
block c = (true, record c { sudo = none })

abbrev audited : Audit
audited = record { reason = codes "import"; actor = some alice }

block_ran :
    sudo_scope strict (some (codes "import")) false elevated block ≡ ran true audited elevated
unfolding sudo_scope
block_ran = refl

-- A bypass of the system in settings that forbid any other.
abbrev locked : Settings
locked = record strict { allow_sudo = false }

system_ran :
    sudo_scope locked (some (codes "import")) true elevated block ≡ ran true audited elevated
unfolding sudo_scope
system_ran = refl

sudo_scope_restores_example :
    ((sudo_scope locked (some (codes "import")) true elevated block ≡ refused not_allowed)
      ↔ ((locked.allow_sudo ≡ false) × (on ≡ false)))
    × ((sudo_scope locked (some (codes "import")) true elevated block ≡ refused reason_required) ↔ (
        ((locked.allow_sudo ≡ true) ⊎ (on ≡ true))
        × (locked.require_sudo_reason ≡ true)
        × (is_empty (reason_text (some (codes "import"))) ≡ true)))
    × ((sudo_scope locked (some (codes "import")) true elevated block ≡ ran true audited elevated)
        ↔ (((locked.allow_sudo ≡ true) ⊎ (on ≡ true))
            × ((locked.require_sudo_reason ≡ false)
                ⊎ (is_empty (reason_text (some (codes "import"))) ≡ false))
            × (true
                ≡ (block (record elevated { sudo = some (reason_text (some (codes "import"))) })).0)
            × (audited.reason ≡ reason_text (some (codes "import")))
            × (audited.actor ≡ elevated.actor)
            × (elevated.actor
                ≡ (block (record elevated {
                  sudo = some (reason_text (some (codes "import")));
                })).1.actor)
            × (elevated.sudo ≡ elevated.sudo)))
sudo_scope_restores_example =
    sudo_scope_restores locked (some (codes "import")) true elevated block true audited elevated
