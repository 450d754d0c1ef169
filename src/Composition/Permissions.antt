-- ===== src/Composition/Permissions.antt =====
-- What a composed permission means: src/rebac/composition.py, `_compose_permission`.
use django_zed_rebac.Prelude.{
  Text, Bool, false, none, some, List, [], ◌∷◌, ◌++◌, nat_eq, ◌&&◌, ◌||◌, not, ◌≡◌, refl, arith,
  any_of, inl, inr, Option-cases, ◌∙◌, ap,
}
use django_zed_rebac.Schema.{
  PermExpr, ref, arrow, bin_op, nil, Op, union, intersection, exclusion, Permission,
}
use django_zed_rebac.Parser.{Unicode}
use django_zed_rebac.Composition.Defs.{
  Override, Change, Composed, Tags, tag, is_extend, is_disable, is_tighten, sorted, rows_of,
  parse_expr, add_extends, add_sites, compose_permission,
}
use django_zed_rebac.Composition.Order.{any_of-sorted, any_of-rows_of}

-- A truth value for each reference and each arrow.
pub record Facts : Type 0 where
  pub holds : Text → Bool
  pub reaches : Text → Text → Bool

abbrev pub truth : Op → Bool → Bool → Bool
truth union a b = a || b
truth intersection a b = a && b
truth exclusion a b = a && not b

unfoldable pub granted : Facts → PermExpr → Bool
granted w nil = false
granted w (ref n) = w.holds n
granted w (arrow via target) = w.reaches via target
granted w (bin_op op l r) = truth op (granted w l) (granted w r)

-- The truth of the arm that a row's text spells.
unfoldable pub row_granted : Unicode → Facts → Override → Bool
unfolding granted
row_granted u w r = elim (parse_expr u r.expression) [ none ↦ false | some e ↦ granted w e ]

add_extends-granted :
    (u : Unicode) (w : Facts) (rs : List Override) (e : PermExpr) (arms : Tags)
    (q : PermExpr × Tags)
    → add_extends u rs e arms ≡ some q
    → granted w q.0 ≡ (granted w e || any_of (row_granted u w) rs)
unfolding add_extends any_of row_granted granted
add_extends-granted u w [] e arms q h = ground arith
add_extends-granted u w (r ∷ rs) e arms q h = elim (Option-cases (parse_expr u r.expression)) [
  | inl p ↦ cc (rw (add_extends, p) at h)
  | inr (arm, p) ↦
      let ih =
        add_extends-granted u w rs (bin_op union e arm) (arms ++ ((arm, tag r) ∷ [])) q
          (rw (add_extends, p) at h) in
      let row : row_granted u w r ≡ granted w arm = rw (row_granted, p) refl in
      ground (arith, ih, row)
]

-- A row whose arm excludes.
abbrev blocked : Unicode → Facts → Override → Bool
blocked u w r = not (row_granted u w r)

-- The value after each row has been combined.
abbrev folded : Op → Bool → List Bool → Bool
folded op b [] = b
folded op b (x ∷ xs) = folded op (truth op b x) xs

abbrev row_values : Unicode → Facts → List Override → List Bool
row_values u w [] = []
row_values u w (r ∷ rs) = row_granted u w r ∷ row_values u w rs

add_sites-granted :
    (u : Unicode) (w : Facts) (op : Op) (rs : List Override) (e : PermExpr) (sites : Tags)
    (q : PermExpr × Tags)
    → add_sites u op rs e sites ≡ some q
    → granted w q.0 ≡ folded op (granted w e) (row_values u w rs)
unfolding add_sites row_granted granted
add_sites-granted u w op [] e sites q h = ground arith
add_sites-granted u w op (r ∷ rs) e sites q h = elim (Option-cases (parse_expr u r.expression)) [
  | inl p ↦ cc (rw (add_sites, p) at h)
  | inr (arm, p) ↦
      let ih =
        add_sites-granted u w op rs (bin_op op e arm) (sites ++ ((bin_op op e arm, tag r) ∷ [])) q
          (rw (add_sites, p) at h) in
      let row : row_granted u w r ≡ granted w arm = rw (row_granted, p) refl in rw row ih
]

folded-exclusion :
    (u : Unicode) (w : Facts) (rs : List Override) (b : Bool)
    → folded exclusion b (row_values u w rs) ≡ (b && not (any_of (row_granted u w) rs))
unfolding any_of
folded-exclusion u w [] b = ground arith
folded-exclusion u w (r ∷ rs) b =
    ground (arith, folded-exclusion u w rs (b && not (row_granted u w r)))

folded-intersection :
    (u : Unicode) (w : Facts) (rs : List Override) (b : Bool)
    → folded intersection b (row_values u w rs) ≡ (b && not (any_of (blocked u w) rs))
unfolding any_of
folded-intersection u w [] b = ground arith
folded-intersection u w (r ∷ rs) b =
    ground (arith, folded-intersection u w rs (b && row_granted u w r))

-- Some row of a kind passes a test, whatever the order of the rows.
abbrev pub some_row : (Change → Bool) → (Override → Bool) → List Override → Bool
some_row k p rs = any_of (λ r. k r.kind && p r) rs

kind-granted :
    (k : Change → Bool) (p : Override → Bool) (rs : List Override)
    → any_of p (sorted (rows_of k rs)) ≡ some_row k p rs
kind-granted k p rs = any_of-sorted p (rows_of k rs) ∙ any_of-rows_of p k rs

-- When every text parses, a composed permission grants exactly what the baseline or an extending
-- or loosening row grants, except what a disabling row grants, and only where no tightening row
-- denies; the order of the rows does not matter.
pub compose_permission-granted :
    (u : Unicode) (w : Facts) (p : Permission) (rows : List Override) (arms sites : Tags)
    (c : Composed)
    → compose_permission u p rows arms sites ≡ some c
    → granted w c.permission.expression ≡ (
        ((granted w p.expression || some_row is_extend (row_granted u w) rows)
          && not (some_row is_disable (row_granted u w) rows))
        && not (some_row is_tighten (λ r. not (row_granted u w r)) rows))
unfolding compose_permission
compose_permission-granted u w p rows arms sites c h =
    elim (Option-cases (add_extends u (sorted (rows_of is_extend rows)) p.expression arms)) [
      | inl a ↦ cc (rw (compose_permission, a) at h)
      | inr ((e, arms'), a) ↦
          elim (Option-cases (add_sites u exclusion (sorted (rows_of is_disable rows)) e sites)) [
            | inl b ↦ cc (rw (compose_permission, a, b) at h)
            | inr ((d, mid), b) ↦
                elim (Option-cases
                  (add_sites u intersection (sorted (rows_of is_tighten rows)) d mid)) [
                    | inl x ↦ cc (rw (compose_permission, a, b, x) at h)
                    | inr ((t, sites'), x) ↦
                        let built : some (record {
                          permission = record {
                            name = p.name;
                            expression = t;
                            raw_text = p.raw_text;
                          };
                          arms = arms';
                          sites = sites';
                        })
                            ≡ some c =
                          rw (compose_permission, a, b, x) at h in
                        let same : t ≡ c.permission.expression = cc in
                        let extended =
                          add_extends-granted u w (sorted (rows_of is_extend rows)) p.expression
                            arms (e, arms') a
                          ∙ ap (λ x. granted w p.expression || x)
                              (kind-granted is_extend (row_granted u w) rows) in
                        let disabled =
                          add_sites-granted u w exclusion (sorted (rows_of is_disable rows)) e sites
                            (d, mid) b
                          ∙ folded-exclusion u w (sorted (rows_of is_disable rows)) (granted w e)
                          ∙ ap (λ x. granted w e && not x)
                              (kind-granted is_disable (row_granted u w) rows) in
                        let tightened =
                          add_sites-granted u w intersection (sorted (rows_of is_tighten rows)) d
                            mid (t, sites') x
                          ∙ folded-intersection u w (sorted (rows_of is_tighten rows)) (granted w d)
                          ∙ ap (λ x. granted w d && not x)
                              (kind-granted is_tighten (blocked u w) rows) in
                        rw (← same, tightened, disabled, extended) refl
                  ]
          ]
    ]
