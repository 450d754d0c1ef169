-- ===== src/Actors/Defs.antt =====
-- src/rebac/actors.py. The context variables are the fields of a record that is passed along;
-- the settings that are read are the fields of another.
use django_zed_rebac.Prelude.{
  Text, Bool, true, false, Option, none, some, ◌++◌, [], ◌∷◌, is_empty, if◌then◌else◌, ◌==◌, nat_eq,
  list_eq, ◌&&◌, not,
}
use django_zed_rebac.Types.{SubjectRef, subject_type, subject_id, subject_ref}
use django_zed_rebac.Schema.{anonymous_name, authenticated_name}

pub record Settings : Type 0 where
  pub anonymous_type : Text
  pub type_prefix : Text
  pub strict_mode : Bool
  pub allow_sudo : Bool
  pub require_sudo_reason : Bool

unfoldable pub type_with_prefix : Settings → Text → Text
type_with_prefix s t = if is_empty s.type_prefix then t else s.type_prefix ++ t

abbrev pub star : Text
star = b'*' ∷ []

unfoldable pub anonymous_actor : Settings → SubjectRef
anonymous_actor s = subject_ref (type_with_prefix s s.anonymous_type) star []

unfoldable pub is_anonymous_actor : Settings → Option SubjectRef → Bool
is_anonymous_actor s none = false
is_anonymous_actor s (some a) =
    subject_type a == type_with_prefix s s.anonymous_type
    && (subject_id a == star && is_empty a.optional_relation)

-- `builtin_actor_matches` of src/rebac/schema/walker.py.
unfoldable pub builtin_actor_matches : Settings → Text → SubjectRef → Bool
builtin_actor_matches s name subject =
    let anonymous = is_anonymous_actor s (some subject) in
    if name == anonymous_name
    then anonymous
    else if name == authenticated_name
    then not anonymous && not (is_empty (subject_id subject))
    else false

-- The ambient actor and the ambient sudo state (its reason).
pub record Ambient : Type 0 where
  pub actor : Option SubjectRef
  pub sudo : Option Text

unfoldable pub is_sudo : Ambient → Bool
is_sudo c = elim (c.sudo) [ none ↦ false | some _ ↦ true ]

pub data Mode : Type 0 where
  row relation ambient : Mode

abbrev pub is_row : Mode → Bool
is_row row = true
is_row _ = false

abbrev pub is_ambient : Mode → Bool
is_ambient ambient = true
is_ambient _ = false

-- `(actor, bypass)`, or a raised MissingActorError.
pub data Authority : Type 0 where
  authority : Option SubjectRef → Bool → Authority
  missing_actor : Authority

unfoldable pub ambient_authority : Settings → Ambient → Bool → Bool → Authority
unfolding is_sudo
ambient_authority s c strict fail_closed =
    if is_sudo c then authority none true else elim (c.actor) [
      | some a ↦ authority (some a) false
      | none ↦
          if fail_closed
          then authority none false
          else if strict && s.strict_mode
          then missing_actor
          else if s.strict_mode
          then authority none false
          else authority none true
    ]

-- A pinned sudo of `None` is falsy, as `False` is.
unfoldable pub resolve :
    Settings → Ambient → Option SubjectRef → Bool → Mode → Bool → Bool → Authority
unfolding ambient_authority
resolve s c pinned_actor pinned_sudo mode strict fail_closed =
    if is_row mode && pinned_sudo
    then authority none true
    else if is_ambient mode
    then ambient_authority s c strict fail_closed
    else elim pinned_actor [
      | some a ↦ authority (some a) false
      | none ↦ ambient_authority s c strict fail_closed
    ]

-- The errors of a refused bypass.
pub data SudoCheck : Type 0 where
  permitted not_allowed reason_required : SudoCheck

unfoldable pub require_sudo_allowed : Settings → Option Text → Bool → SudoCheck
require_sudo_allowed s reason allow_when_disabled =
    if not allow_when_disabled && not s.allow_sudo
    then not_allowed
    else if s.require_sudo_reason && elim reason [ none ↦ true | some r ↦ is_empty r ]
    then reason_required
    else permitted

-- `_sudo_state_context` around a block: the state is installed, the reason of the bypass is
-- audited with the ambient actor, the block runs, and the old state is put back however the
-- block ended. The block gets the ambient state and returns its own result. An exception of
-- `emit_bypass`, before which the block does not run, is left out.
pub record Audit : Type 0 where
  pub reason : Text
  pub actor : Option SubjectRef

pub data Scoped {ℓ} (A : Type ℓ) : Type ℓ where
  refused : SudoCheck → Scoped A
  ran : A → Audit → Ambient → Scoped A

abbrev pub reason_text : Option Text → Text
reason_text none = []
reason_text (some r) = r

unfoldable pub sudo_scope {ℓ} :
    {A : Type ℓ} → Settings → Option Text → Bool → Ambient → (Ambient → A × Ambient) → Scoped A
unfolding require_sudo_allowed
sudo_scope s reason allow_when_disabled c body =
    elim (require_sudo_allowed s reason allow_when_disabled) [
      | permitted ↦
          let inside : Ambient = record c { sudo = some (reason_text reason) } in
          let (a, c') = body inside in
          ran a (record { reason = reason_text reason; actor = c.actor })
            (record c' { sudo = c.sudo })
      | other ↦ refused other
    ]
