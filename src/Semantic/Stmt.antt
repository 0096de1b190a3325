-- ===== src/Semantic/Stmt.antt =====
-- src/semantic/semantic.c: `is_node_const`, `check_var_decl` and `check_stmt`.
use kratos_lang.Prelude.{
  ℕ, ◌+◌, ◌-◌, ltb, Bool, false, not, ◌&&◌, ◌||◌, Bytes, Option, none, some, List, if◌then◌else◌,
  ◌==◌,
}
use kratos_lang.Ast.{
  AstNode, AstNodeList, nil, cons, null, var_decl, block, if_stmt, cond_branch, hold_stmt,
  press_stmt, drive_stmt, sweep_stmt, snap_stmt, push_stmt, yield_stmt, shout_stmt, wield_stmt,
  record_decl, assign, expr_stmt, identifier_expr, index_expr, member_expr, KratosType, type_bool,
  type_int, type_void, type_record, line_of, is_assign,
}
use kratos_lang.Semantic.Types.{TypeInfo, type_info, type_eq, assignable}
use kratos_lang.Semantic.State.{
  Symbol, Scope, RecordFieldInfo, RecordTypeInfo, M, ◌>>=◌, ◌>>◌, pure, message, semantic_error,
  error_if, is_some, scope_find, scope_add, enter_scope, leave_scope, record_type_find, find_field,
}
use kratos_lang.Semantic.Operators.{get, is_array?, has_type, no_name}
use kratos_lang.Semantic.Expr.{check_expr}
use kratos_lang.Semantic.Records.{record_type_add}
use kratos_lang.Semantic.Returns.{is_null}

abbrev pub is_const_symbol : Option Symbol → Bool
is_const_symbol none = false
is_const_symbol (some symbol) = symbol.is_const

unfoldable pub is_node_const : List Scope → AstNode → Bool
is_node_const scope (identifier_expr line name) = is_const_symbol (scope_find scope name)
is_node_const scope (index_expr line array index) = is_node_const scope array
is_node_const scope (member_expr line target member) = is_node_const scope target
is_node_const scope _ = false

unfoldable pub variable : Bytes → TypeInfo → Bool → Symbol
variable name type is_const = record {
  name = name;
  type = type;
  is_const = is_const;
  is_function = false;
  func = null;
}

-- The empty array literal takes the declared type.
unfoldable pub initial_type : TypeInfo → TypeInfo → TypeInfo
initial_type init declared =
    if is_array? init && has_type type_void init && is_array? declared then declared else init

-- `drive` and the declarations of a program hand over a declaration of a variable only.
unfoldable pub check_var_decl : AstNode → M (Unit {0})
check_var_decl (var_decl line is_const is_array type record_name name initializer) = do
  analyzer ← get
  if type_eq type type_void && (is_array == 0)
      then semantic_error line (message "k_void non puo' dichiarare una variabile")
      else error_if
          (type_eq type type_record
            && not (is_some (record_type_find analyzer.records record_name)))
          line (message "tipo record non dichiarato")
  init ← check_expr initializer
  error_if
      (not (
        assignable (initial_type init (type_info type is_array record_name))
          (type_info type is_array record_name)))
      line (message "inizializzatore incompatibile con il tipo dichiarato")
  scope_add line (variable name (type_info type is_array record_name) is_const)
check_var_decl _ = pure tt

-- A condition that is no `k_bool`.
unfoldable pub check_condition : ℕ → Bytes → AstNode → M (Unit {0})
check_condition line m condition = do
  cond ← check_expr condition
  error_if (not (has_type type_bool cond) || is_array? cond) line m

unfoldable pub enter_loop : M (Unit {0})
enter_loop s = (tt, record s { loop_depth = s.loop_depth + 1 })

unfoldable pub leave_loop : M (Unit {0})
leave_loop s = (tt, record s { loop_depth = s.loop_depth - 1 })

unfoldable pub check_collection : ℕ → KratosType → Option Symbol → M (Unit {0})
check_collection line element_type none = semantic_error line (message "sweep richiede un array")
check_collection line element_type (some collection) =
    if collection.is_function || not (collection.type.is_array == 1)
    then semantic_error line (message "sweep richiede un array")
    else error_if (not (type_eq collection.type.type element_type)) line
        (message "il tipo dell'elemento non coincide con l'array")

-- A `yield` in a function, given the type of its value.
unfoldable pub check_yield : ℕ → TypeInfo → TypeInfo → M (Unit {0})
check_yield line current_return value =
    if has_type type_void current_return && (current_return.is_array == 0)
    then semantic_error line (message "una craft k_void non puo' fare yield di un valore")
    else error_if (not (assignable value current_return)) line
        (message "tipo di yield incompatibile")

unfoldable pub check_yield_stmt : ℕ → AstNode → M (Unit {0})
check_yield_stmt line value = do
  analyzer ← get
  if not analyzer.in_function
      then semantic_error line (message "yield fuori da una craft")
      else if is_null value
      then error_if
          (not (has_type type_void analyzer.current_return) || is_array? analyzer.current_return)
          line (message "yield senza valore in una craft che restituisce un tipo")
      else (do type ← check_expr value; check_yield line analyzer.current_return type)

-- The target of an assignment: its type, or `none` where `check_stmt` leaves the `switch`.
unfoldable pub check_name_target : ℕ → Option Symbol → M (Option TypeInfo)
check_name_target line none = do
  semantic_error line (message "assegnamento a un nome non dichiarato")
  pure none
check_name_target line (some symbol) =
    if symbol.is_function
    then (do semantic_error line (message "assegnamento a un nome non dichiarato"); pure none)
    else (do
      error_if symbol.is_const line (message "cannot assign to k_const")
      pure (some symbol.type))

unfoldable pub field_target : ℕ → Option RecordFieldInfo → M (Option TypeInfo)
field_target line none = do semantic_error line (message "campo inesistente nel record"); pure none
field_target line (some field) = pure (some field.type)

unfoldable pub record_target : ℕ → Bytes → Option RecordTypeInfo → M (Option TypeInfo)
record_target line member none = do
  semantic_error line (message "tipo record inesistente")
  pure none
record_target line member (some rec) = field_target line (find_field rec.fields member)

unfoldable pub check_target : ℕ → AstNode → M (Option TypeInfo)
check_target line (identifier_expr _ name) = do
  analyzer ← get
  check_name_target line (scope_find analyzer.scope name)
check_target line (index_expr _ array index) = do
  array_info ← check_expr array
  index_info ← check_expr index
  error_if (not (is_array? array_info)) line (message "assegnamento indicizzato richiede un array")
  error_if (is_array? index_info || not (has_type type_int index_info)) line
      (message "l'indice deve essere k_int")
  analyzer ← get
  error_if (is_node_const analyzer.scope array) line (message "cannot assign to k_const")
  pure (some (type_info array_info.type (array_info.is_array - 1) array_info.record_name))
check_target line (member_expr _ target member) = do
  rec_target ← check_expr target
  if ltb 0 rec_target.is_array
        || not (has_type type_record rec_target)
        || no_name rec_target.record_name
      then (do semantic_error line (message "field access on a non-record type"); pure none)
      else (do
        analyzer ← get
        error_if (is_node_const analyzer.scope target) line (message "cannot assign to k_const")
        record_target line member (record_type_find analyzer.records rec_target.record_name))
check_target line _ = do
  semantic_error line (message "destinazione di assegnamento non valida")
  pure none

unfoldable pub check_value : ℕ → AstNode → Option TypeInfo → M (Unit {0})
check_value line value none = pure tt
check_value line value (some target) = do
  type ← check_expr value
  error_if (not (assignable type target)) line (message "tipo di assegnamento incompatibile")

unfoldable pub check_assign : ℕ → AstNode → AstNode → M (Unit {0})
check_assign line target value = do type ← check_target line target; check_value line value type

-- The expression, its type forgotten.
unfoldable pub check_only : AstNode → M (Unit {0})
check_only expression = do check_expr expression; pure tt

unfoldable pub check_jump : ℕ → M (Unit {0})
check_jump line = do
  analyzer ← get
  error_if (analyzer.loop_depth == 0) line (message "snap/push ammessi solo dentro un ciclo")

unfoldable mutual
  pub check_stmt : AstNode → M (Unit {0})
  check_stmt null = pure tt
  check_stmt (record_decl line name fields) = record_type_add line name fields
  check_stmt (var_decl line is_const is_array type record_name name initializer) =
      check_var_decl (var_decl line is_const is_array type record_name name initializer)
  check_stmt (block line statements) = do enter_scope; check_stmts statements; leave_scope
  check_stmt (if_stmt line branches else_block) = do
    check_branches branches
    if not (is_null else_block) then check_stmt else_block else pure tt
  check_stmt (hold_stmt line condition body) = do
    check_condition line (message "la condizione di hold deve essere k_bool") condition
    enter_loop
    check_stmt body
    leave_loop
  check_stmt (press_stmt line body condition) = do
    check_condition line (message "la condizione di press deve essere k_bool") condition
    enter_loop
    check_stmt body
    leave_loop
  check_stmt (drive_stmt line init condition step body) = do
    enter_scope
    check_var_decl init
    check_condition line (message "la condizione di drive deve essere k_bool") condition
    enter_loop
    check_stmt body
    if is_assign step then check_stmt step else check_only step
    leave_loop
    leave_scope
  check_stmt (sweep_stmt line element_type record_name element_name collection_name body) = do
    analyzer ← get
    check_collection line element_type (scope_find analyzer.scope collection_name)
    enter_scope
    scope_add line (variable element_name (type_info element_type 0 record_name) false)
    enter_loop
    check_stmt body
    leave_loop
    leave_scope
  check_stmt (snap_stmt line) = check_jump line
  check_stmt (push_stmt line) = check_jump line
  check_stmt (yield_stmt line value) = check_yield_stmt line value
  check_stmt (shout_stmt line value) = check_only value
  check_stmt (wield_stmt line path) =
      semantic_error line (message "wield residuo dopo l'espansione degli import")
  check_stmt (assign line target value) = check_assign line target value
  check_stmt (expr_stmt line expression) = check_only expression
  check_stmt other =
      semantic_error (line_of other) (message "istruzione non valida a questo livello")

  pub check_stmts : AstNodeList → M (Unit {0})
  check_stmts nil = pure tt
  check_stmts (cons statement statements) = do check_stmt statement; check_stmts statements

  -- The parser puts no other nodes into this list than branches.
  pub check_branches : AstNodeList → M (Unit {0})
  check_branches nil = pure tt
  check_branches (cons (cond_branch line condition body) branches) = do
    check_condition line (message "la condizione deve essere k_bool") condition
    check_stmt body
    check_branches branches
  check_branches (cons other branches) = check_branches branches
