-- ===== src/Semantic/Returns.antt =====
-- src/semantic/semantic.c: `always_returns`.
use kratos_lang.Prelude.{Bool, true, false, ◌&&◌, ◌||◌, if◌then◌else◌}
use kratos_lang.Ast.{AstNode, AstNodeList, nil, cons, null, yield_stmt, block, if_stmt, cond_branch}

unfoldable pub is_null : AstNode → Bool
is_null null = true
is_null _ = false

unfoldable mutual
  pub always_returns : AstNode → Bool
  always_returns (yield_stmt line value) = true
  always_returns (block line statements) = any_returns statements
  always_returns (if_stmt line branches else_block) =
      if is_null else_block then false else all_return branches && always_returns else_block
  always_returns _ = false

  -- The loop over the statements of a block.
  pub any_returns : AstNodeList → Bool
  any_returns nil = false
  any_returns (cons statement statements) = always_returns statement || any_returns statements

  -- The loop over the branches; the parser puts no other nodes into this list.
  pub all_return : AstNodeList → Bool
  all_return nil = true
  all_return (cons (cond_branch line condition body) branches) =
      always_returns body && all_return branches
  all_return (cons other branches) = false
