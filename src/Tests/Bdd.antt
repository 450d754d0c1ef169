-- ===== src/Tests/Bdd.antt =====
-- Runs and instances for `_BDD` of src/rebac/compile/evaluate.py.
use django_zed_rebac.Prelude.{
  ℕ, ◌≡◌, ◌↔◌, refl, arith, [], ◌∷◌, nat_eq, List, some, false, contains,
}
use django_zed_rebac.Bdd.{
  Bdd, and_op, empty, make_node, apply, negate, same_node, find_unique, relevant,
}
use django_zed_rebac.Bdd.Order.{Assignment}
use django_zed_rebac.Bdd.Unique.{IsValid, empty-IsValid, make_node-Built}
use django_zed_rebac.Bdd.Merge.{Applied}
use django_zed_rebac.Bdd.Apply.{apply-Applied}
use django_zed_rebac.Bdd.Negate.{Negated, negate-Negated}
use django_zed_rebac.Bdd.Support.{Ignores, relevant-Ignores}
use django_zed_rebac.Bdd.Cofactor.{operated}
use django_zed_rebac.Bdd.Comparing.{apply-same_index_iff}

-- The atoms of the variables 1 and 2, at the indices 2 and 3.
abbrev first : Bdd
first = record {
  nodes = (record { variable = 1; low = 0; high = 1 }) ∷ [];
  unique = (record { variable = 1; low = 0; high = 1 }, 2) ∷ [];
  apply_cache = [];
}

abbrev both : Bdd
both = record {
  nodes =
      (record { variable = 2; low = 0; high = 1 })
      ∷ ((record { variable = 1; low = 0; high = 1 }) ∷ []);
  unique =
      (record { variable = 2; low = 0; high = 1 }, 3)
      ∷ ((record { variable = 1; low = 0; high = 1 }, 2) ∷ []);
  apply_cache = [];
}

first_made : make_node 1 0 1 empty ≡ (2, first)
unfolding make_node find_unique
first_made = refl

both_made : make_node 2 0 1 first ≡ (3, both)
unfolding make_node find_unique same_node
both_made = refl

first-IsValid : IsValid first
unfolding make_node find_unique
first-IsValid = (make_node-Built 1 0 1 empty empty-IsValid (omega arith) (omega arith) tt tt).valid

both-IsValid : IsValid both
unfolding make_node find_unique same_node
both-IsValid =
    (make_node-Built 2 0 1 first first-IsValid (omega arith) (omega arith)
      ((λ e. absurd (omega arith)), tt) ((λ e. absurd (omega arith)), tt)).valid

apply-Applied_example : Applied both and_op 2 3 (apply 6 and_op 2 3 both)
apply-Applied_example =
    apply-Applied 6 and_op 2 3 both both-IsValid (omega arith) (omega arith) (omega arith)

negate-Negated_example : Negated both 3 (negate 4 3 both)
negate-Negated_example = negate-Negated 4 3 both both-IsValid (omega arith) (omega arith)

abbrev one_index : ℕ
one_index = 2

-- The conjunction of the two atoms, in both orders.
apply-same_index_iff_example :
    (i j : ℕ) × (t u : Bdd) × (apply 6 and_op 2 3 both ≡ some (i, t))
    × (apply 6 and_op 3 2 t ≡ some (j, u))
    × ((i ≡ j)
        ↔ ((a : Assignment) → operated both.nodes and_op 2 3 a ≡ operated both.nodes and_op 3 2 a))
apply-same_index_iff_example =
    apply-same_index_iff 6 6 and_op and_op 2 3 3 2 both both-IsValid (omega arith) (omega arith)
      (omega arith) (omega arith) (omega arith) (omega arith)

relevant-Ignores_example :
    (found : List ℕ) × (relevant both one_index ≡ some found)
    × ((v : ℕ) → (contains found v ≡ false) ↔ Ignores both.nodes v one_index)
relevant-Ignores_example = relevant-Ignores both one_index both-IsValid (omega arith)
