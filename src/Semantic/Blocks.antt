-- ===== src/Semantic/Blocks.antt =====
-- The statements of src/semantic/semantic.c that open a scope close it again.
use kratos_lang.Prelude.{ℕ, Bool, true, false, ◌≡◌, ◌∙◌, arith, Bytes, Option}
use kratos_lang.Ast.{AstNode, block, drive_stmt, sweep_stmt, KratosType, is_assign}
use kratos_lang.Semantic.State.{Analyzer, scope_find}
use kratos_lang.Semantic.Stmt.{check_collection, check_stmt}
use kratos_lang.Semantic.Keeps.{run}
use kratos_lang.Semantic.Declares.{
  OnlyDeclares-reports, OnlyDeclares-if, OnlyDeclares-then, OnlyDeclares-scope_add,
  OnlyDeclares-loop, scope-restored,
}
use kratos_lang.Semantic.StmtDeclares.{
  check_var_decl-OnlyDeclares, check_condition-OnlyReports, check_collection-OnlyReports,
  check_only-OnlyReports, check_stmt-OnlyDeclares, check_stmts-OnlyDeclares,
}

-- The statements that open a scope of their own.
abbrev pub opens_scope : AstNode → Bool
opens_scope (block line statements) = true
opens_scope (drive_stmt line init condition step body) = true
opens_scope (sweep_stmt line type record_name element collection body) = true
opens_scope _ = false

drive-scope :
    (line : ℕ) (init condition step body : AstNode) (s : Analyzer)
    → (check_stmt (drive_stmt line init condition step body) s).1.scope ≡ s.scope
unfolding check_stmt
drive-scope line init condition step body s = scope-restored s (
    OnlyDeclares-then (check_var_decl-OnlyDeclares init) (
      OnlyDeclares-then (OnlyDeclares-reports (check_condition-OnlyReports line _ condition)) (
        OnlyDeclares-loop (
          OnlyDeclares-then (check_stmt-OnlyDeclares body) (
            OnlyDeclares-if (is_assign step) (check_stmt-OnlyDeclares step)
              (OnlyDeclares-reports (check_only-OnlyReports step)))))))

sweep-scope :
    (line : ℕ) (type : KratosType) (record_name : Option Bytes) (element collection : Bytes)
    (body : AstNode) (s : Analyzer)
    → (check_stmt (sweep_stmt line type record_name element collection body) s).1.scope ≡ s.scope
unfolding check_stmt
sweep-scope line type record_name element collection body s =
    let checked = check_collection-OnlyReports line type (scope_find s.scope collection) in
    scope-restored (check_collection line type (scope_find s.scope collection) s).1 (
      OnlyDeclares-then (OnlyDeclares-scope_add line _)
        (OnlyDeclares-loop (check_stmt-OnlyDeclares body)))
    ∙ (run s checked).scope

-- A block, a `drive` and a `sweep` leave the scopes as they found them, errors or not.
pub check_stmt-scope :
    (node : AstNode) (s : Analyzer)
    → opens_scope node ≡ true
    → (check_stmt node s).1.scope ≡ s.scope
unfolding check_stmt
check_stmt-scope (block line statements) s h =
    scope-restored s (check_stmts-OnlyDeclares statements)
check_stmt-scope (drive_stmt line init condition step body) s h =
    drive-scope line init condition step body s
check_stmt-scope (sweep_stmt line type record_name element collection body) s h =
    sweep-scope line type record_name element collection body s
check_stmt-scope _ s h = ground (arith, h)
