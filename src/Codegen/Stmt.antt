-- ===== src/Codegen/Stmt.antt =====
-- src/codegen/codegen.c: `emit_block_body` and `emit_stmt`.
use kratos_lang.Prelude.{Bool, true, false, codes, ◌++◌, if◌then◌else◌}
use kratos_lang.Ast.{
  AstNode, AstNodeList, assign, block, cond_branch, cons, drive_stmt, expr_stmt, hold_stmt, if_stmt,
  nil, null, press_stmt, push_stmt, record_decl, shout_stmt, snap_stmt, sweep_stmt, var_decl,
  yield_stmt,
}
use kratos_lang.Semantic.Returns.{is_null}
use kratos_lang.Runtime.Value.{Numerics}
use kratos_lang.Codegen.Emitter.{
  ◌>>◌, Context, Emit, emit_c_type, emit_indent, fail, indented, put, skip, undefined,
}
use kratos_lang.Codegen.Expr.{emit_expr}

-- An indented line that closes a block.
abbrev pub closing : Emit
closing = do emit_indent; put (codes "}\n")

-- The step of a `drive`, behind its body: a statement or an expression.
abbrev pub emit_step : AstNode → Emit → Emit → Emit
emit_step null statement expression = undefined
emit_step (assign line target value) statement expression = statement
emit_step step statement expression = do emit_indent; expression; put (codes ";\n")

module _ (numerics : Numerics) (context : Context) where
  abbrev pub expr : AstNode → Emit
  expr = emit_expr numerics context

  unfoldable mutual
    unfolding is_null emit_c_type

    pub emit_stmt : AstNode → Emit
    emit_stmt null = skip
    emit_stmt (record_decl line name fields) = skip
    emit_stmt (var_decl line is_const depth type record_name name initializer) = do
      emit_indent
      emit_c_type type depth record_name
      put (codes " " ++ name ++ codes " = ")
      expr initializer
      put (codes ";\n")
    emit_stmt (block line statements) = do
      emit_indent
      put (codes "{\n")
      indented (emit_statements statements)
      closing
    emit_stmt (if_stmt line branches else_block) = do
      emit_branches true branches
      if is_null else_block
          then skip
          else (do emit_indent; put (codes "} else {\n"); indented (emit_block_body else_block))
      closing
    emit_stmt (hold_stmt line condition body) = do
      emit_indent
      put (codes "while (")
      expr condition
      put (codes ") {\n")
      indented (emit_block_body body)
      closing
    emit_stmt (press_stmt line body condition) = do
      emit_indent
      put (codes "do {\n")
      indented (emit_block_body body)
      emit_indent
      put (codes "} while (")
      expr condition
      put (codes ");\n")
    emit_stmt (drive_stmt line init condition step body) = do
      emit_indent
      put (codes "{\n")
      indented (do
        emit_stmt init
        emit_indent
        put (codes "for (; ")
        expr condition
        put (codes "; ) {\n")
        indented (do emit_block_body body; emit_step step (emit_stmt step) (expr step))
        closing)
      closing
    emit_stmt (sweep_stmt line type record_name element collection body) = do
      emit_indent
      put (codes "for (size_t _i = 0; _i < " ++ collection ++ codes ".count; _i++) {\n")
      indented (do
        emit_indent
        emit_c_type type 0 record_name
        put (
            codes " " ++ element ++ codes " = ((int64_t *)" ++ collection ++ codes ".items)[_i];\n")
        emit_block_body body)
      closing
    emit_stmt (snap_stmt line) = do emit_indent; put (codes "break;\n")
    emit_stmt (push_stmt line) = do emit_indent; put (codes "continue;\n")
    emit_stmt (yield_stmt line value) = do
      emit_indent
      if is_null value
          then put (codes "return;\n")
          else (do put (codes "return "); expr value; put (codes ";\n"))
    emit_stmt (shout_stmt line value) = do
      emit_indent
      put (codes "k_shout(")
      expr value
      put (codes ");\n")
    emit_stmt (assign line target value) = do
      emit_indent
      expr target
      put (codes " = ")
      expr value
      put (codes ";\n")
    emit_stmt (expr_stmt line expression) = do emit_indent; expr expression; put (codes ";\n")
    emit_stmt _ = do emit_indent; put (codes "/* istruzione non emessa */;\n"); fail

    pub emit_statements : AstNodeList → Emit
    emit_statements nil = skip
    emit_statements (cons node nodes) = do emit_stmt node; emit_statements nodes

    pub emit_block_body : AstNode → Emit
    emit_block_body (block line statements) = emit_statements statements
    emit_block_body _ = undefined

    pub emit_branches : Bool → AstNodeList → Emit
    emit_branches first nil = skip
    emit_branches first (cons (cond_branch line condition body) branches) = do
      emit_indent
      put (if first then codes "if (" else codes "} else if (")
      expr condition
      put (codes ") {\n")
      indented (emit_block_body body)
      emit_branches false branches
    emit_branches first (cons _ branches) = undefined
