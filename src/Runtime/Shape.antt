-- ===== src/Runtime/Shape.antt =====
-- The shape of the statements that src/parser/parser.c builds: none is missing, a `drive` starts with a
-- variable, and the branches of an `if` are conditions with a body.
use kratos_lang.Prelude.{Bool, true, false, ◌&&◌, ◌||◌}
use kratos_lang.Ast.{
  AstNode, AstNodeList, nil, cons, null, is_var_decl, func_decl, block, if_stmt, cond_branch,
  hold_stmt, press_stmt, drive_stmt, sweep_stmt,
}
use kratos_lang.Semantic.Returns.{is_null}

unfoldable mutual
  unfolding is_var_decl is_null

  pub well_built : AstNode → Bool
  well_built null = false
  well_built (block line statements) = all_built statements
  well_built (if_stmt line branches else_block) =
      branches_built branches && (is_null else_block || well_built else_block)
  well_built (hold_stmt line condition body) = well_built body
  well_built (press_stmt line body condition) = well_built body
  well_built (drive_stmt line init condition step body) = is_var_decl init && well_built body
  well_built (sweep_stmt line type record_name element collection body) = well_built body
  well_built _ = true

  pub all_built : AstNodeList → Bool
  all_built nil = true
  all_built (cons node nodes) = well_built node && all_built nodes

  pub branches_built : AstNodeList → Bool
  branches_built nil = true
  branches_built (cons (cond_branch line condition body) branches) =
      well_built body && branches_built branches
  branches_built (cons other branches) = false

-- The bodies of the crafts of a program.
unfoldable pub crafts_built : AstNodeList → Bool
crafts_built nil = true
crafts_built (cons (func_decl line type record_name name params body) nodes) =
    well_built body && crafts_built nodes
crafts_built (cons _ nodes) = crafts_built nodes
