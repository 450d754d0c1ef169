-- ===== src/Actors/Scopes.antt =====
-- The context managers of src/rebac/actors.py that set the ambient actor or the bypass for a block,
-- and the chain of actor resolvers. A block gets the ambient state and returns its own result.
use django_zed_rebac.Prelude.{Text, Bool, true, false, Option, none, some, List, [], ◌∷◌}
use django_zed_rebac.Types.{SubjectRef}
use django_zed_rebac.Actors.Defs.{Settings, Ambient, Scoped, refused, ran, sudo_scope}

abbrev pub current_actor : Ambient → Option SubjectRef
current_actor c = c.actor

unfoldable pub set_current_actor : Option SubjectRef → Ambient → Ambient
set_current_actor a c = record c { actor = a }

unfoldable pub actor_context {ℓ} :
    {A : Type ℓ} → SubjectRef → (Ambient → A × Ambient) → Ambient → A × Ambient
actor_context ref body c =
    let (a, inner) = body (record c { actor = some ref }) in (a, record inner { actor = c.actor })

-- `_as_actor_only`.
unfoldable pub as_actor_only {ℓ} :
    {A : Type ℓ} → SubjectRef → (Ambient → A × Ambient) → Ambient → A × Ambient
as_actor_only actor body c =
    let (a, inner) = body (record { actor = some actor; sudo = none }) in
    (a, record inner { sudo = c.sudo; actor = c.actor })

-- `_bypass_unaudited`.
unfoldable pub bypass_unaudited {ℓ} :
    {A : Type ℓ} → Text → (Ambient → A × Ambient) → Ambient → A × Ambient
bypass_unaudited reason body c =
    let (a, inner) = body (record c { sudo = some reason }) in (a, record inner { sudo = c.sudo })

unfoldable pub sudo {ℓ} :
    {A : Type ℓ} → Settings → Option Text → (Ambient → A × Ambient) → Ambient → Scoped A
unfolding sudo_scope
sudo s reason body c = sudo_scope s reason false c body

unfoldable pub system_context {ℓ} :
    {A : Type ℓ} → Settings → Option Text → (Ambient → A × Ambient) → Ambient → Scoped A
unfolding sudo_scope
system_context s reason body c = sudo_scope s reason true c body

-- Code that opens and closes these scopes in any nesting, and sets the actor in between. A refused
-- bypass raises, which ends every block around it.
pub data Block : Type 0 where
  finish : Block
  raise : Block
  assign : Option SubjectRef → Block → Block
  as_actor : SubjectRef → Block → Block → Block
  only_actor : SubjectRef → Block → Block → Block
  unaudited : Text → Block → Block → Block
  elevated : Option Text → Block → Block → Block
  system : Option Text → Block → Block → Block

-- The rest of a block runs when the scope before it did not raise.
abbrev pub go_on : Bool × Ambient → (Ambient → Bool × Ambient) → Bool × Ambient
go_on (true, c) rest = (true, c)
go_on (false, c) rest = rest c

abbrev pub left_scope : Ambient → Scoped Bool → Bool × Ambient
left_scope c (refused e) = (true, c)
left_scope c (ran raised audit c') = (raised, c')

-- Whether it raised, and the ambient state after it.
unfoldable pub run : Settings → Block → Ambient → Bool × Ambient
unfolding set_current_actor actor_context as_actor_only bypass_unaudited sudo system_context
run s finish c = (false, c)
run s raise c = (true, c)
run s (assign a rest) c = run s rest (set_current_actor a c)
run s (as_actor a inner rest) c = go_on (actor_context a (run s inner) c) (run s rest)
run s (only_actor a inner rest) c = go_on (as_actor_only a (run s inner) c) (run s rest)
run s (unaudited r inner rest) c = go_on (bypass_unaudited r (run s inner) c) (run s rest)
run s (elevated r inner rest) c = go_on (left_scope c (sudo s r (run s inner) c)) (run s rest)
run s (system r inner rest) c =
    go_on (left_scope c (system_context s r (run s inner) c)) (run s rest)

-- `chain_resolvers`: the first answer wins, then the terminal resolver's.
unfoldable pub chain_resolvers {ℓ} :
    {R : Type ℓ}
    → List (R → Option SubjectRef)
    → Option (R → Option SubjectRef)
    → R
    → Option SubjectRef
chain_resolvers [] none request = none
chain_resolvers [] (some terminal) request = terminal request
chain_resolvers (f ∷ fs) terminal request = elim (f request) [
  | some ref ↦ some ref
  | none ↦ chain_resolvers fs terminal request
]
