-- ===== src/Codegen/Printable.antt =====
-- The shape of the nodes that src/codegen/codegen.c prints: expressions and statements where it looks
-- for them, blocks as bodies, and no pointer that is null.
use kratos_lang.Prelude.{Bool, true, false, not, ◌&&◌, ◌||◌}
use kratos_lang.Ast.{
  AstNode, AstNodeList, array_literal, assign, binary_expr, block, call_expr, cond_branch, cons,
  drive_stmt, expr_stmt, field_init, func_decl, hold_stmt, identifier_expr, if_stmt, index_expr,
  literal_bool, literal_char, literal_float, literal_int, literal_string, member_expr, nil, param,
  press_stmt, push_stmt, record_decl, record_field, record_literal, shout_stmt, snap_stmt,
  sweep_stmt, unary_expr, var_decl, yield_stmt,
}
use kratos_lang.Semantic.Returns.{is_null}

unfoldable mutual
  pub printable_expr : AstNode → Bool
  printable_expr (literal_int line n) = true
  printable_expr (literal_float line text) = true
  printable_expr (literal_bool line b) = true
  printable_expr (literal_char line c) = true
  printable_expr (literal_string line text) = true
  printable_expr (identifier_expr line name) = true
  printable_expr (unary_expr line op operand) = printable_expr operand
  printable_expr (binary_expr line op left right) = printable_expr left && printable_expr right
  printable_expr (call_expr line callee arguments) = printable_exprs arguments
  printable_expr (index_expr line array index) = printable_expr array && printable_expr index
  printable_expr (array_literal line elements) = printable_exprs elements
  printable_expr (record_literal line name fields) = printable_fields fields
  printable_expr (member_expr line target member) = printable_expr target
  printable_expr _ = false

  pub printable_exprs : AstNodeList → Bool
  printable_exprs nil = true
  printable_exprs (cons node nodes) = printable_expr node && printable_exprs nodes

  pub printable_fields : AstNodeList → Bool
  printable_fields nil = true
  printable_fields (cons (field_init line name value) fields) =
      printable_expr value && printable_fields fields
  printable_fields (cons _ fields) = false

unfoldable mutual
  unfolding printable_expr is_null

  pub printable_stmt : AstNode → Bool
  printable_stmt (record_decl line name fields) = true
  printable_stmt (var_decl line is_const depth type record_name name initializer) =
      printable_expr initializer
  printable_stmt (block line statements) = printable_stmts statements
  printable_stmt (if_stmt line branches else_block) =
      printable_branches branches && (is_null else_block || printable_body else_block)
  printable_stmt (hold_stmt line condition body) = printable_expr condition && printable_body body
  printable_stmt (press_stmt line body condition) = printable_body body && printable_expr condition
  printable_stmt (drive_stmt line init condition step body) =
      printable_stmt init && printable_expr condition && printable_step step && printable_body body
  printable_stmt (sweep_stmt line type record_name element collection body) = printable_body body
  printable_stmt (snap_stmt line) = true
  printable_stmt (push_stmt line) = true
  printable_stmt (yield_stmt line value) = is_null value || printable_expr value
  printable_stmt (shout_stmt line value) = printable_expr value
  printable_stmt (assign line target value) = printable_expr target && printable_expr value
  printable_stmt (expr_stmt line expression) = printable_expr expression
  printable_stmt _ = false

  pub printable_stmts : AstNodeList → Bool
  printable_stmts nil = true
  printable_stmts (cons node nodes) = printable_stmt node && printable_stmts nodes

  pub printable_body : AstNode → Bool
  printable_body (block line statements) = printable_stmts statements
  printable_body _ = false

  pub printable_branches : AstNodeList → Bool
  printable_branches nil = true
  printable_branches (cons (cond_branch line condition body) branches) =
      printable_expr condition && printable_body body && printable_branches branches
  printable_branches (cons _ branches) = false

  -- The step of a `drive`.
  pub printable_step : AstNode → Bool
  printable_step (assign line target value) = printable_expr target && printable_expr value
  printable_step node = printable_expr node

unfoldable pub printable_params : AstNodeList → Bool
printable_params nil = true
printable_params (cons (param line type depth record_name name) params) = printable_params params
printable_params (cons _ params) = false

unfoldable pub printable_record_fields : AstNodeList → Bool
printable_record_fields nil = true
printable_record_fields (cons (record_field line type depth record_name name) fields) =
    printable_record_fields fields
printable_record_fields (cons _ fields) = false

-- A declaration; what the back end passes over is no null pointer.
unfoldable pub printable_declaration : AstNode → Bool
unfolding printable_expr printable_body printable_params printable_record_fields is_null
printable_declaration (var_decl line is_const depth type record_name name initializer) =
    printable_expr initializer
printable_declaration (func_decl line type record_name name params body) =
    printable_params params && printable_body body
printable_declaration (record_decl line name fields) = printable_record_fields fields
printable_declaration node = not (is_null node)

unfoldable pub printable : AstNodeList → Bool
unfolding printable_declaration
printable nil = true
printable (cons node nodes) = printable_declaration node && printable nodes
