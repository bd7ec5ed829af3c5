-- ===== src/Ops/Ast.antt =====
-- `ast_of` and `with_ast` of backend/libserialize/op.ml.
use dark.Common.{◌≡◌, refl, ◌⊎◌, inl, inr, Option, none, some}
use dark.Ops.Op.{Payloads, Op, set_handler, set_function, set_expr, tlid_of}

module _ {T : Payloads} where
  unfoldable pub ast_of : Op T → Option T.expr
  ast_of (set_function f) = some f.ast
  ast_of (set_expr _ _ ast) = some ast
  ast_of (set_handler _ _ h) = some h.ast
  ast_of _ = none

  unfoldable pub with_ast : T.expr → Op T → Op T
  with_ast new_ast (set_function userfn) = set_function (record userfn { ast = new_ast })
  with_ast new_ast (set_expr tlid id _) = set_expr tlid id new_ast
  with_ast new_ast (set_handler tlid id handler) =
      set_handler tlid id (record handler { ast = new_ast })
  with_ast new_ast op = op

  -- The code of an operation that has none is left alone, and another's is replaced and nothing else:
  -- it is the new code, putting the old code back gives the operation back, the last code given counts,
  -- and the toplevel is the same.
  pub with_ast_lem :
      (new later : T.expr) (op : Op T)
      → (((ast_of op ≡ none) × (with_ast new op ≡ op))
          ⊎ ((old : T.expr) × (ast_of op ≡ some old)
              × (ast_of (with_ast new op) ≡ some new)
              × (with_ast old (with_ast new op) ≡ op)))
        × (with_ast later (with_ast new op) ≡ with_ast later op)
        × (tlid_of (with_ast new op) ≡ tlid_of op)
  unfolding ast_of with_ast tlid_of
  with_ast_lem new later (set_function f) = (inr (f.ast, refl, refl, refl), refl, refl)
  with_ast_lem new later (set_expr tlid id ast) = (inr (ast, refl, refl, refl), refl, refl)
  with_ast_lem new later (set_handler tlid id h) = (inr (h.ast, refl, refl, refl), refl, refl)
  with_ast_lem new later _ = (inl (refl, refl), refl, refl)
