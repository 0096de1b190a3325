-- ===== src/Semantic/StmtDeclares.antt =====
-- `check_stmt` of src/semantic/semantic.c only declares and reports: behind a statement the enclosing
-- scopes and the depth of loops are as they were.
use kratos_lang.Prelude.{ℕ, Option, none, some, arith, Bytes, List, []}
use kratos_lang.Ast.{
  AstNode, AstNodeList, nil, cons, null, var_decl, block, if_stmt, cond_branch, hold_stmt,
  press_stmt, drive_stmt, sweep_stmt, snap_stmt, push_stmt, yield_stmt, shout_stmt, wield_stmt,
  record_decl, record_field, assign, expr_stmt, identifier_expr, index_expr, member_expr,
  KratosType, is_assign,
}
use kratos_lang.Semantic.Types.{TypeInfo}
use kratos_lang.Semantic.State.{
  Symbol, RecordFieldInfo, RecordTypeInfo, is_some, find_record, scope_find,
}
use kratos_lang.Semantic.Records.{
  check_field_type, check_fields, add_record, put_fields, record_type_add,
}
use kratos_lang.Semantic.Stmt.{
  check_var_decl, check_condition, check_collection, check_yield, check_yield_stmt,
  check_name_target, field_target, record_target, check_target, check_value, check_assign,
  check_only, check_jump, check_stmt, check_stmts, check_branches,
}
use kratos_lang.Semantic.Keeps.{
  OnlyReports, reporting, OnlyReports-pure, OnlyReports-if, OnlyReports-bind, OnlyReports-then,
  OnlyReports-get, OnlyReports-error_if, OnlyReports-semantic_error,
}
use kratos_lang.Semantic.ExprKeeps.{check_expr-OnlyReports}
use kratos_lang.Semantic.Declares.{
  OnlyDeclares, declares, OnlyDeclares-reports, OnlyDeclares-if, OnlyDeclares-bind,
  OnlyDeclares-then, OnlyDeclares-scope_add, OnlyDeclares-scope, OnlyDeclares-loop,
}

pub ruleset checking = (reporting, check_expr-OnlyReports)

check_field_type-OnlyReports :
    (line : ℕ) (name : Bytes) (type : KratosType) (is_array : ℕ) (record_name : Option Bytes)
    → OnlyReports (check_field_type line name type is_array record_name)
unfolding check_field_type
check_field_type-OnlyReports line name type is_array record_name = search checking depth 7

check_fields-OnlyReports :
    (name : Bytes) (seen : List RecordFieldInfo) (fields : AstNodeList)
    → OnlyReports (check_fields name seen fields)
unfolding check_fields
check_fields-OnlyReports name seen nil = OnlyReports-pure _
check_fields-OnlyReports name seen (cons (record_field line type is_array record_name f) fields) =
    OnlyReports-then (OnlyReports-error_if _ _ _) (
      OnlyReports-then (check_field_type-OnlyReports line name type is_array record_name)
        (check_fields-OnlyReports name _ fields))
check_fields-OnlyReports name seen (cons other fields) = check_fields-OnlyReports name seen fields

add_record-OnlyDeclares : (info : RecordTypeInfo) → OnlyDeclares (add_record info)
unfolding add_record
add_record-OnlyDeclares info = declares λ s. ground arith

put_fields-OnlyDeclares :
    (name : Bytes) (fields : List RecordFieldInfo) → OnlyDeclares (put_fields name fields)
unfolding put_fields
put_fields-OnlyDeclares name fields = declares λ s. ground arith

pub record_type_add-OnlyDeclares :
    (line : ℕ) (name : Bytes) (fields : AstNodeList)
    → OnlyDeclares (record_type_add line name fields)
unfolding record_type_add
record_type_add-OnlyDeclares line name fields =
    OnlyDeclares-bind (OnlyDeclares-reports OnlyReports-get) λ s.
      OnlyDeclares-if (is_some (find_record s.records name))
        (OnlyDeclares-reports (OnlyReports-semantic_error _ _))
        (OnlyDeclares-then (add_record-OnlyDeclares _) (
          OnlyDeclares-bind (OnlyDeclares-reports (check_fields-OnlyReports name [] fields))
            λ infos. put_fields-OnlyDeclares name infos))

ruleset declaring =
    (checking, OnlyDeclares-reports, OnlyDeclares-bind, OnlyDeclares-then, OnlyDeclares-scope_add)

pub check_var_decl-OnlyDeclares : (node : AstNode) → OnlyDeclares (check_var_decl node)
unfolding check_var_decl
check_var_decl-OnlyDeclares (var_decl line is_const is_array type record_name name initializer) =
    search declaring depth 9
check_var_decl-OnlyDeclares _ = OnlyDeclares-reports (OnlyReports-pure tt)

pub check_condition-OnlyReports :
    (line : ℕ) (m : Bytes) (condition : AstNode) → OnlyReports (check_condition line m condition)
unfolding check_condition
check_condition-OnlyReports line m condition = search checking

pub check_collection-OnlyReports :
    (line : ℕ) (type : KratosType) (collection : Option Symbol)
    → OnlyReports (check_collection line type collection)
unfolding check_collection
check_collection-OnlyReports line type none = search checking
check_collection-OnlyReports line type (some collection) = search checking

check_yield-OnlyReports :
    (line : ℕ) (current_return value : TypeInfo)
    → OnlyReports (check_yield line current_return value)
unfolding check_yield
check_yield-OnlyReports line current_return value = search checking

pub check_yield_stmt-OnlyReports :
    (line : ℕ) (value : AstNode) → OnlyReports (check_yield_stmt line value)
unfolding check_yield_stmt
check_yield_stmt-OnlyReports line value = search (checking, check_yield-OnlyReports) depth 8

check_name_target-OnlyReports :
    (line : ℕ) (symbol : Option Symbol) → OnlyReports (check_name_target line symbol)
unfolding check_name_target
check_name_target-OnlyReports line none = search checking
check_name_target-OnlyReports line (some symbol) = search checking

field_target-OnlyReports :
    (line : ℕ) (found : Option RecordFieldInfo) → OnlyReports (field_target line found)
unfolding field_target
field_target-OnlyReports line none = search checking
field_target-OnlyReports line (some field) = search checking

record_target-OnlyReports :
    (line : ℕ) (member : Bytes) (found : Option RecordTypeInfo)
    → OnlyReports (record_target line member found)
unfolding record_target
record_target-OnlyReports line member none = search checking
record_target-OnlyReports line member (some rec) = field_target-OnlyReports line _

ruleset targets = (checking, check_name_target-OnlyReports, record_target-OnlyReports)

check_target-OnlyReports : (line : ℕ) (target : AstNode) → OnlyReports (check_target line target)
unfolding check_target
check_target-OnlyReports line (identifier_expr _ name) = search targets
check_target-OnlyReports line (index_expr _ array index) = search targets depth 9
check_target-OnlyReports line (member_expr _ target member) = search targets depth 9
check_target-OnlyReports line _ = search targets

check_value-OnlyReports :
    (line : ℕ) (value : AstNode) (target : Option TypeInfo)
    → OnlyReports (check_value line value target)
unfolding check_value
check_value-OnlyReports line value none = search checking
check_value-OnlyReports line value (some target) = search checking

pub check_assign-OnlyReports :
    (line : ℕ) (target value : AstNode) → OnlyReports (check_assign line target value)
unfolding check_assign
check_assign-OnlyReports line target value =
    OnlyReports-bind (check_target-OnlyReports line target)
      λ type. check_value-OnlyReports line value type

pub check_only-OnlyReports : (node : AstNode) → OnlyReports (check_only node)
unfolding check_only
check_only-OnlyReports node = search checking

pub check_jump-OnlyReports : (line : ℕ) → OnlyReports (check_jump line)
unfolding check_jump
check_jump-OnlyReports line = search checking

mutual
  unfolding check_stmt

  stmt-OnlyDeclares : (node : AstNode) → OnlyDeclares (check_stmt node)
  stmt-OnlyDeclares null = OnlyDeclares-reports (OnlyReports-pure tt)
  stmt-OnlyDeclares (record_decl line name fields) = record_type_add-OnlyDeclares line name fields
  stmt-OnlyDeclares (var_decl line is_const is_array type record_name name initializer) =
      check_var_decl-OnlyDeclares
        (var_decl line is_const is_array type record_name name initializer)
  stmt-OnlyDeclares (block line statements) = OnlyDeclares-scope (stmts-OnlyDeclares statements)
  stmt-OnlyDeclares (if_stmt line branches else_block) =
      OnlyDeclares-then (branches-OnlyDeclares branches) (
        OnlyDeclares-if _ (stmt-OnlyDeclares else_block)
          (OnlyDeclares-reports (OnlyReports-pure tt)))
  stmt-OnlyDeclares (hold_stmt line condition body) =
      OnlyDeclares-then (OnlyDeclares-reports (check_condition-OnlyReports line _ condition))
        (OnlyDeclares-loop (stmt-OnlyDeclares body))
  stmt-OnlyDeclares (press_stmt line body condition) =
      OnlyDeclares-then (OnlyDeclares-reports (check_condition-OnlyReports line _ condition))
        (OnlyDeclares-loop (stmt-OnlyDeclares body))
  stmt-OnlyDeclares (drive_stmt line init condition step body) = OnlyDeclares-scope (
      OnlyDeclares-then (check_var_decl-OnlyDeclares init) (
        OnlyDeclares-then (OnlyDeclares-reports (check_condition-OnlyReports line _ condition)) (
          OnlyDeclares-loop (
            OnlyDeclares-then (stmt-OnlyDeclares body) (
              OnlyDeclares-if (is_assign step) (stmt-OnlyDeclares step)
                (OnlyDeclares-reports (check_only-OnlyReports step)))))))
  stmt-OnlyDeclares (sweep_stmt line type record_name element_name collection_name body) =
      OnlyDeclares-bind (OnlyDeclares-reports OnlyReports-get) λ s.
        OnlyDeclares-then
          (OnlyDeclares-reports
            (check_collection-OnlyReports line type (scope_find s.scope collection_name)))
          (OnlyDeclares-scope (
            OnlyDeclares-then (OnlyDeclares-scope_add line _)
              (OnlyDeclares-loop (stmt-OnlyDeclares body))))
  stmt-OnlyDeclares (snap_stmt line) = OnlyDeclares-reports (check_jump-OnlyReports line)
  stmt-OnlyDeclares (push_stmt line) = OnlyDeclares-reports (check_jump-OnlyReports line)
  stmt-OnlyDeclares (yield_stmt line value) =
      OnlyDeclares-reports (check_yield_stmt-OnlyReports line value)
  stmt-OnlyDeclares (shout_stmt line value) = OnlyDeclares-reports (check_only-OnlyReports value)
  stmt-OnlyDeclares (wield_stmt line path) = OnlyDeclares-reports (OnlyReports-semantic_error _ _)
  stmt-OnlyDeclares (assign line target value) =
      OnlyDeclares-reports (check_assign-OnlyReports line target value)
  stmt-OnlyDeclares (expr_stmt line expression) =
      OnlyDeclares-reports (check_only-OnlyReports expression)
  stmt-OnlyDeclares other = OnlyDeclares-reports (OnlyReports-semantic_error _ _)

  stmts-OnlyDeclares : (nodes : AstNodeList) → OnlyDeclares (check_stmts nodes)
  stmts-OnlyDeclares nil = OnlyDeclares-reports (OnlyReports-pure tt)
  stmts-OnlyDeclares (cons statement statements) =
      OnlyDeclares-then (stmt-OnlyDeclares statement) (stmts-OnlyDeclares statements)

  branches-OnlyDeclares : (nodes : AstNodeList) → OnlyDeclares (check_branches nodes)
  branches-OnlyDeclares nil = OnlyDeclares-reports (OnlyReports-pure tt)
  branches-OnlyDeclares (cons (cond_branch line condition body) branches) =
      OnlyDeclares-then (OnlyDeclares-reports (check_condition-OnlyReports line _ condition))
        (OnlyDeclares-then (stmt-OnlyDeclares body) (branches-OnlyDeclares branches))
  branches-OnlyDeclares (cons other branches) = branches-OnlyDeclares branches

-- Checking a statement leaves the scopes around the innermost one, the depth of loops and the
-- context of the craft as they were, and takes no error back.
pub check_stmt-OnlyDeclares : (node : AstNode) → OnlyDeclares (check_stmt node)
check_stmt-OnlyDeclares node = stmt-OnlyDeclares node

pub check_stmts-OnlyDeclares : (nodes : AstNodeList) → OnlyDeclares (check_stmts nodes)
check_stmts-OnlyDeclares nodes = stmts-OnlyDeclares nodes

pub check_branches-OnlyDeclares : (nodes : AstNodeList) → OnlyDeclares (check_branches nodes)
check_branches-OnlyDeclares nodes = branches-OnlyDeclares nodes
