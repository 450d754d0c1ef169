-- ===== src/Actors/Nesting.antt =====
-- No scope of src/rebac/actors.py leaks.
use django_zed_rebac.Prelude.{Text, Bool, true, false, Option, some, ◌≡◌, refl, ◌∙◌, arith}
use django_zed_rebac.Actors.Defs.{Settings, Ambient, sudo_scope}
use django_zed_rebac.Actors.Scopes.{
  Block, finish, raise, assign, as_actor, only_actor, unaudited, elevated, system, go_on,
  left_scope, run, actor_context, as_actor_only, bypass_unaudited, sudo, system_context,
  set_current_actor,
}

go_on-sudo :
    (p : Bool × Ambient) (rest : Ambient → Bool × Ambient) (v : Option Text)
    → p.1.sudo ≡ v
    → ((c : Ambient) → (rest c).1.sudo ≡ c.sudo)
    → (go_on p rest).1.sudo ≡ v
go_on-sudo (true, c) rest v h k = h
go_on-sudo (false, c) rest v h k = k c ∙ h

left_scope-sudo :
    (s : Settings) (r : Option Text) (b : Bool) (c : Ambient) (body : Ambient → Bool × Ambient)
    → (left_scope c (sudo_scope s r b c body)).1.sudo ≡ c.sudo
unfolding sudo_scope
left_scope-sudo s r b c body = ground arith

-- Whatever scopes a piece of code opens, in any nesting, whatever actor it sets in them, and
-- wherever it raises or a bypass is refused, the bypass state after it is the one before it.
pub run-sudo : (s : Settings) (b : Block) (c : Ambient) → (run s b c).1.sudo ≡ c.sudo
unfolding run actor_context as_actor_only bypass_unaudited sudo system_context set_current_actor
run-sudo s finish c = refl
run-sudo s raise c = refl
run-sudo s (assign a rest) c = run-sudo s rest (record c { actor = a })
run-sudo s (as_actor a inner rest) c =
    go_on-sudo (actor_context a (run s inner) c) (run s rest) c.sudo
      (run-sudo s inner (record c { actor = some a })) (run-sudo s rest)
run-sudo s (only_actor a inner rest) c =
    go_on-sudo (as_actor_only a (run s inner) c) (run s rest) c.sudo refl (run-sudo s rest)
run-sudo s (unaudited r inner rest) c =
    go_on-sudo (bypass_unaudited r (run s inner) c) (run s rest) c.sudo refl (run-sudo s rest)
run-sudo s (elevated r inner rest) c =
    go_on-sudo (left_scope c (sudo s r (run s inner) c)) (run s rest) c.sudo
      (left_scope-sudo s r false c (run s inner)) (run-sudo s rest)
run-sudo s (system r inner rest) c =
    go_on-sudo (left_scope c (system_context s r (run s inner) c)) (run s rest) c.sudo
      (left_scope-sudo s r true c (run s inner)) (run-sudo s rest)
