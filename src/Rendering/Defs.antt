-- ===== src/Rendering/Defs.antt =====
-- src/rebac/schema/rendering.py: permission expressions and the terms of a type union.
use django_zed_rebac.Prelude.{Text, ◌++◌, codes, is_empty, if◌then◌else◌, not, ◌&&◌}
use django_zed_rebac.Schema.{PermExpr, ref, arrow, bin_op, nil, AllowedSubject}
use django_zed_rebac.Parser.{op_sign}

unfoldable pub render_expr : PermExpr → Text
render_expr nil = codes "nil"
render_expr (ref n) = n
render_expr (arrow via target) = via ++ (codes "->" ++ target)
render_expr (bin_op op l r) =
    codes "("
    ++ (render_expr l ++ (codes " " ++ (op_sign op ++ (codes " " ++ (render_expr r ++ codes ")")))))

unfoldable pub render_allowed_subject : AllowedSubject → Text
render_allowed_subject s =
    let base =
      if s.wildcard
      then s.type ++ codes ":*"
      else if not (is_empty s.id) && not (is_empty s.relation)
      then s.type ++ (codes ":" ++ (s.id ++ (codes "#" ++ s.relation)))
      else if not (is_empty s.id)
      then s.type ++ (codes ":" ++ s.id)
      else if not (is_empty s.relation)
      then s.type ++ (codes "#" ++ s.relation)
      else s.type in
    if is_empty s.with_caveat then base else base ++ (codes " with " ++ s.with_caveat)
