-- ===== src/Bdd/Search.antt =====
-- `_BDD.relevant` of src/rebac/compile/evaluate.py: the variables below a node. The stack `pending`
-- has its top first; a set is a list. `none` is the end of the fuel or a read behind the nodes.
use django_zed_rebac.Prelude.{
  ℕ, zero, suc, ◌+◌, ◌*◌, Option, none, some, List, [], ◌∷◌, if◌then◌else◌, nat_eq, leb, ◌||◌,
  contains, length,
}
use django_zed_rebac.Bdd.Defs.{Node, Bdd, node_at}

unfoldable pub collect : ℕ → List Node → List ℕ → List ℕ → List ℕ → Option (List ℕ)
unfolding node_at contains
collect zero ns found visited pending = none
collect (suc f) ns found visited [] = some found
collect (suc f) ns found visited (i ∷ pending) =
    if leb i 1 || contains visited i
    then collect f ns found visited pending
    else elim (node_at ns i) [
      | none ↦ none
      | some n ↦ collect f ns (n.variable ∷ found) (i ∷ visited) (n.high ∷ n.low ∷ pending)
    ]

-- A node is visited once and puts two on the stack.
unfoldable pub relevant : Bdd → ℕ → Option (List ℕ)
unfolding collect
relevant s root = collect (2 * length s.nodes + 2) s.nodes [] [] (root ∷ [])
