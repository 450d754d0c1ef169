-- ===== src/Actors/Authority.antt =====
-- Who may bypass the checks: src/rebac/actors.py, `resolve` and `sudo`.
use django_zed_rebac.Prelude.{
  Text, Bool, true, false, Option, none, some, ◌≡◌, refl, ◌⊎◌, ◌↔◌, arith, is_empty, ◌&&◌,
  if◌then◌else◌,
}
use django_zed_rebac.Types.{SubjectRef}
use django_zed_rebac.Actors.Defs.{
  Settings, Ambient, Mode, row, relation, ambient, authority, missing_actor, resolve, is_sudo,
  is_row, is_ambient, sudo_scope, refused, ran, not_allowed, reason_required, reason_text, Audit,
}

-- In strict mode a bypass comes from a sudo: from the pin in row mode, or from the ambient
-- block where no carried actor stands before it. A bypass carries no actor.
pub resolve_bypass :
    (s : Settings) (c : Ambient) (pinned : Option SubjectRef) (pin : Bool) (mode : Mode)
    (strict fail_closed : Bool) {a : Option SubjectRef}
    → s.strict_mode ≡ true
    → resolve s c pinned pin mode strict fail_closed ≡ authority a true
    → (a ≡ none)
      × (((mode ≡ row) × (pin ≡ true))
          ⊎ ((is_sudo c ≡ true) × ((mode ≡ ambient) ⊎ (pinned ≡ none))))
unfolding resolve is_sudo
resolve_bypass s c pinned pin row strict fail_closed t h = ground arith
resolve_bypass s c pinned pin relation strict fail_closed t h = ground arith
resolve_bypass s c pinned pin ambient strict fail_closed t h = ground arith

-- A pinned sudo bypasses every row check, whatever else is pinned or ambient, and no other read:
-- relation and ambient reads answer as they do without the pin.
pub resolve-pin :
    (s : Settings) (c : Ambient) (pinned : Option SubjectRef) (mode : Mode)
    (strict fail_closed : Bool)
    → resolve s c pinned true mode strict fail_closed ≡ (
        if is_row mode
        then authority none true
        else resolve s c pinned false mode strict fail_closed)
unfolding resolve
resolve-pin s c pinned row strict fail_closed = refl
resolve-pin s c pinned relation strict fail_closed = refl
resolve-pin s c pinned ambient strict fail_closed = refl

-- `resolve` raises exactly when a strict call in strict mode finds no authority and is not asked
-- to fail closed.
pub resolve_raises :
    (s : Settings) (c : Ambient) (pinned : Option SubjectRef) (pin : Bool) (mode : Mode)
    (strict fail_closed : Bool)
    → (resolve s c pinned pin mode strict fail_closed ≡ missing_actor) ↔ (
        (is_row mode && pin ≡ false)
        × ((is_ambient mode ≡ true) ⊎ (pinned ≡ none))
        × (is_sudo c ≡ false)
        × (c.actor ≡ none)
        × (fail_closed ≡ false)
        × (strict ≡ true)
        × (s.strict_mode ≡ true))
unfolding resolve is_sudo
resolve_raises s c pinned pin row strict fail_closed = (λ h. ground arith, λ h. ground arith)
resolve_raises s c pinned pin relation strict fail_closed = (λ h. ground arith, λ h. ground arith)
resolve_raises s c pinned pin ambient strict fail_closed = (λ h. ground arith, λ h. ground arith)

-- Entering a bypass is refused exactly by the settings: as not allowed when they forbid a bypass
-- and it is not one of the system, and otherwise for want of a reason when they ask for one and it
-- is absent or empty. Exactly in the other cases the block runs: it sees the bypass with the given
-- reason, that reason is audited with the actor at the entry, and at the end the earlier bypass
-- state is put back, also of a nested bypass.
pub sudo_scope_restores {ℓ} :
    {A : Type ℓ} (s : Settings) (reason : Option Text) (system : Bool) (c : Ambient)
    (body : Ambient → A × Ambient) (a : A) (audit : Audit) (c' : Ambient)
    → ((sudo_scope s reason system c body ≡ refused not_allowed)
        ↔ ((s.allow_sudo ≡ false) × (system ≡ false)))
      × ((sudo_scope s reason system c body ≡ refused reason_required) ↔ (
          ((s.allow_sudo ≡ true) ⊎ (system ≡ true))
          × (s.require_sudo_reason ≡ true)
          × (is_empty (reason_text reason) ≡ true)))
      × ((sudo_scope s reason system c body ≡ ran a audit c') ↔ (
          ((s.allow_sudo ≡ true) ⊎ (system ≡ true))
          × ((s.require_sudo_reason ≡ false) ⊎ (is_empty (reason_text reason) ≡ false))
          × (a ≡ (body (record c { sudo = some (reason_text reason) })).0)
          × (audit.reason ≡ reason_text reason)
          × (audit.actor ≡ c.actor)
          × (c'.actor ≡ (body (record c { sudo = some (reason_text reason) })).1.actor)
          × (c'.sudo ≡ c.sudo)))
unfolding sudo_scope
sudo_scope_restores s reason system c body a audit c' = (
  (λ h. ground arith, λ h. ground arith),
  (λ h. ground arith, λ h. ground arith),
  (λ h. ground arith, λ h. ground arith),
)
