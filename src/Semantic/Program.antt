-- ===== src/Semantic/Program.antt =====
-- src/semantic/semantic.c: `check_function`, and the three passes of `semantic_analyze_with_context` over
-- the declarations of a program whose `wield`s are expanded. The global scope is left in the state
-- that the passes return; the program frees it.
use kratos_lang.Prelude.{
  ℕ, Bool, true, false, not, ◌&&◌, Bytes, Option, [], ◌∷◌, if◌then◌else◌, ◌==◌,
}
use kratos_lang.Ast.{
  AstNode, AstNodeList, nil, cons, var_decl, func_decl, param, record_decl, KratosType, type_int,
  type_void, type_record, line_of,
}
use kratos_lang.Semantic.Types.{TypeInfo, type_info, type_info_simple, type_eq}
use kratos_lang.Semantic.State.{
  Analyzer, M, ◌>>=◌, ◌>>◌, pure, message, semantic_error, error_if, is_some, scope_add,
  enter_scope, leave_scope, record_type_find,
}
use kratos_lang.Semantic.Operators.{get}
use kratos_lang.Semantic.Records.{record_type_add}
use kratos_lang.Semantic.Returns.{always_returns}
use kratos_lang.Semantic.Stmt.{variable, check_var_decl, check_stmt}

unfoldable pub set_function : Bool → TypeInfo → M (Unit {0})
set_function in_function current_return s =
    (tt, record s { in_function = in_function; current_return = current_return })

unfoldable pub check_param : AstNode → M (Unit {0})
check_param (param line type is_array record_name name) = do
  analyzer ← get
  if type_eq type type_void && (is_array == 0)
      then semantic_error line (message "un parametro non puo' essere k_void")
      else error_if
          (type_eq type type_record
            && not (is_some (record_type_find analyzer.records record_name)))
          line (message "tipo record del parametro non dichiarato")
  scope_add line (variable name (type_info type is_array record_name) false)
check_param _ = pure tt

unfoldable pub check_params : AstNodeList → M (Unit {0})
check_params nil = pure tt
check_params (cons p params) = do check_param p; check_params params

unfoldable pub check_function : ℕ → KratosType → Option Bytes → AstNodeList → AstNode → M (Unit {0})
check_function line return_type return_record_name params body = do
  enter_scope
  set_function true (type_info return_type 0 return_record_name)
  check_params params
  check_stmt body
  error_if (not (type_eq return_type type_void) && not (always_returns body)) line
      (message "la craft deve fare yield su ogni cammino")
  set_function false (type_info_simple type_void 0)
  leave_scope

-- Pass 1: the records.
unfoldable pub register_records : AstNodeList → M (Unit {0})
register_records nil = pure tt
register_records (cons (record_decl line name fields) nodes) = do
  record_type_add line name fields
  register_records nodes
register_records (cons other nodes) = register_records nodes

-- Pass 2: the functions.
unfoldable pub register_functions : AstNodeList → M (Unit {0})
register_functions nil = pure tt
register_functions (cons (func_decl line return_type return_record_name name params body) nodes) =
    do
      scope_add line (record {
        name = name;
        type = type_info return_type 0 return_record_name;
        is_const = false;
        is_function = true;
        func = func_decl line return_type return_record_name name params body;
      })
      register_functions nodes
register_functions (cons other nodes) = register_functions nodes

unfoldable pub check_declaration : AstNode → M (Unit {0})
check_declaration (record_decl line name fields) = pure tt
check_declaration (var_decl line is_const is_array type record_name name initializer) =
    check_var_decl (var_decl line is_const is_array type record_name name initializer)
check_declaration (func_decl line return_type return_record_name name params body) =
    check_function line return_type return_record_name params body
check_declaration other =
    semantic_error (line_of other) (message "dichiarazione di primo livello non valida")

-- Pass 3: the declarations in order.
unfoldable pub check_declarations : AstNodeList → M (Unit {0})
check_declarations nil = pure tt
check_declarations (cons node nodes) = do check_declaration node; check_declarations nodes

unfoldable pub run_passes : AstNodeList → M (Unit {0})
run_passes declarations = do
  register_records declarations
  register_functions declarations
  check_declarations declarations

-- The state after `memset`, with an empty global scope.
abbrev pub initial : Analyzer
initial = record {
  had_error = false;
  diagnostics = [];
  scope = [] ∷ [];
  loop_depth = 0;
  in_function = false;
  current_return = type_info_simple type_int 0;
  records = [];
  wield_stack = [];
}

-- `semantic_analyze` returns 0, where the expansion of `wield` reported no error either.
unfoldable pub accepts : AstNodeList → Bool
accepts declarations = not (run_passes declarations initial).1.had_error
