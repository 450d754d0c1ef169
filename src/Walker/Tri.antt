-- ===== src/Walker/Tri.antt =====
-- The three-valued operators of src/rebac/schema/walker.py. `none` is "conditional".
use django_zed_rebac.Prelude.{
  Bool, true, false, Option, none, some, ◌&&◌, ◌||◌, not, ◌≡◌, refl, arith,
}
use django_zed_rebac.Schema.{Op, union, intersection, exclusion}

abbrev pub Tri : Type 0
Tri = Option Bool

unfoldable pub tri_or : Tri → Tri → Tri
tri_or (some true) r = some true
tri_or l (some true) = some true
tri_or none r = none
tri_or l none = none
tri_or (some false) (some false) = some false

unfoldable pub tri_and : Tri → Tri → Tri
tri_and (some false) r = some false
tri_and l (some false) = some false
tri_and none r = none
tri_and l none = none
tri_and (some true) (some true) = some true

unfoldable pub tri_minus : Tri → Tri → Tri
tri_minus (some false) r = some false
tri_minus none (some true) = some false
tri_minus none r = none
tri_minus (some true) (some true) = some false
tri_minus (some true) (some false) = some true
tri_minus (some true) none = none

unfoldable pub tri_op : Op → Tri → Tri → Tri
unfolding tri_or tri_and tri_minus
tri_op union l r = tri_or l r
tri_op intersection l r = tri_and l r
tri_op exclusion l r = tri_minus l r

-- The operator on decided values.
abbrev pub bool_op : Op → Bool → Bool → Bool
bool_op union a b = a || b
bool_op intersection a b = a && b
bool_op exclusion a b = a && not b

-- `b` is a value that `v` may still take once the missing parameters are supplied.
abbrev pub Completes : Tri → Bool → Type 0
Completes none b = Unit
Completes (some v) b = v ≡ b

pub tri_op-Completes :
    (op : Op) (l r : Tri) (a b : Bool)
    → Completes l a
    → Completes r b
    → Completes (tri_op op l r) (bool_op op a b)
unfolding tri_op
tri_op-Completes union l r a b h k = ground arith
tri_op-Completes intersection l r a b h k = ground arith
tri_op-Completes exclusion l r a b h k = ground arith

-- The operand completed by `b` where it is open.
abbrev completed : Tri → Bool → Bool
completed none b = b
completed (some v) b = v

abbrev pub right_for : Op → Bool → Bool
right_for exclusion v = not v
right_for _ v = v

completed-Completes : (t : Tri) (b : Bool) → Completes t (completed t b)
completed-Completes none b = tt
completed-Completes (some v) b = refl

-- An operator answers "conditional" only where the operands leave both answers open.
pub tri_op_open :
    (op : Op) (l r : Tri)
    → tri_op op l r ≡ none
    → (v : Bool) → (a : Bool) × (b : Bool) × Completes l a × Completes r b × (bool_op op a b ≡ v)
unfolding tri_op
tri_op_open op l r h v = (
  completed l v,
  completed r (right_for op v),
  completed-Completes l v,
  completed-Completes r (right_for op v),
  law op l r h,
)
  where
    law :
        (op : Op) (l r : Tri)
        → tri_op op l r ≡ none
        → bool_op op (completed l v) (completed r (right_for op v)) ≡ v
    law union l r h = ground arith
    law intersection l r h = ground arith
    law exclusion l r h = ground arith
