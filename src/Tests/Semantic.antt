-- ===== src/Tests/Semantic.antt =====
-- Runs of the model of src/semantic on small inputs.
use kratos_lang.Prelude.{
  ◌↔◌, ◌≡◌, refl, true, false, codes, some, none, [], if◌then◌else◌, bytes_eq,
}
use kratos_lang.Ast.{
  AstNode, AstNodeList, nil, cons, null, block, hold_stmt, snap_stmt, yield_stmt, func_decl,
  var_decl, shout_stmt, identifier_expr, literal_int, literal_bool, type_int, type_float,
}
use kratos_lang.Prelude.Int.{pos}
use kratos_lang.Semantic.Types.{type_info_simple, TypeInfo, assignable, types_equal, type_eq}
use kratos_lang.Semantic.State.{
  Symbol, scope_find, scope_find_local, scope_add, enter_scope, leave_scope,
}
use kratos_lang.Semantic.Returns.{always_returns, is_null}
use kratos_lang.Semantic.Stmt.{
  check_value, check_stmt, check_var_decl, check_yield_stmt, check_yield, check_condition,
  check_jump, enter_loop, leave_loop, initial_type,
}
use kratos_lang.Semantic.Expr.{check_expr}
use kratos_lang.Semantic.Program.{
  initial, accepts, run_passes, register_records, register_functions, check_declarations,
  check_declaration, check_function, check_params, set_function,
}
use kratos_lang.Semantic.Keeps.{OnlyReports}
use kratos_lang.Semantic.ExprKeeps.{check_expr-OnlyReports}
use kratos_lang.Semantic.Declares.{OnlyDeclares}
use kratos_lang.Semantic.StmtDeclares.{check_stmt-OnlyDeclares}
use kratos_lang.Semantic.Blocks.{check_stmt-scope}
use kratos_lang.Semantic.Jumps.{jumps_in_loops, check_stmt-jumps}
use kratos_lang.Semantic.Accepted.{crafts_are_sound, accepts-crafts}
use kratos_lang.Semantic.Scopes.{scope_add-scope_find}
use kratos_lang.Semantic.Compatibility.{Assignable, check_value-Assignable}

abbrev x : AstNode
x = identifier_expr 1 (codes "x")

check_expr-OnlyReports_example : OnlyReports (check_expr x)
check_expr-OnlyReports_example = check_expr-OnlyReports x

-- hold (true) { k_int x = 1; snap; }
abbrev pub looping : AstNode
looping = hold_stmt 1 (literal_bool 1 true) (
    block 1 (
      cons (var_decl 2 false 0 type_int none (codes "x") (literal_int 2 (pos 1)))
        (cons (snap_stmt 3) nil)))

check_stmt-OnlyDeclares_example : OnlyDeclares (check_stmt looping)
check_stmt-OnlyDeclares_example = check_stmt-OnlyDeclares looping

-- { x; } in a program without an `x`
abbrev undeclared : AstNode
undeclared = block 1 (cons (shout_stmt 1 x) nil)

check_stmt-scope_example : (check_stmt undeclared initial).1.scope ≡ initial.scope
check_stmt-scope_example = check_stmt-scope undeclared initial refl

looping_accepted : (check_stmt looping initial).1.had_error ≡ false
unfolding check_stmt leave_loop leave_scope check_jump check_var_decl scope_add scope_find_local
    assignable types_equal type_eq initial_type check_expr enter_scope enter_loop check_condition
looping_accepted = refl

check_stmt-jumps_example : jumps_in_loops false looping ≡ true
check_stmt-jumps_example = check_stmt-jumps looping initial looping_accepted

-- craft k_int main() { hold (true) { ... } yield 1; }
abbrev pub main_program : AstNodeList
main_program =
    cons
      (func_decl 1 type_int none (codes "main") nil
        (block 1 (cons looping (cons (yield_stmt 4 (literal_int 4 (pos 1))) nil))))
      nil

pub main_accepted : accepts main_program ≡ true
unfolding accepts run_passes register_records register_functions check_declarations
    check_declaration check_function check_params set_function always_returns is_null
    check_yield_stmt check_yield check_stmt leave_loop leave_scope check_jump check_var_decl
    scope_add scope_find_local assignable types_equal type_eq initial_type check_expr enter_scope
    enter_loop check_condition
main_accepted = refl

accepts-crafts_example : crafts_are_sound main_program ≡ true
accepts-crafts_example = accepts-crafts main_program main_accepted

abbrev x_symbol : Symbol
x_symbol = record {
  name = codes "x";
  type = type_info_simple type_int 0;
  is_const = false;
  is_function = false;
  func = null;
}

x_added : (scope_add 1 x_symbol initial).1.had_error ≡ false
unfolding scope_add scope_find_local
x_added = refl

scope_add-scope_find_example : scope_find (scope_add 1 x_symbol initial).1.scope (codes "x") ≡ (
    if bytes_eq (codes "x") (codes "x")
    then some x_symbol
    else scope_find initial.scope (codes "x"))
scope_add-scope_find_example =
    scope_add-scope_find 1 x_symbol (codes "x") initial [] [] refl x_added

abbrev float_type : TypeInfo
float_type = type_info_simple type_float 0

check_value-Assignable_example :
    ((check_value 1 (literal_int 1 (pos 1)) (some float_type) initial).1.had_error ≡ false) ↔ (
      ((check_expr (literal_int 1 (pos 1)) initial).1.had_error ≡ false)
      × Assignable (check_expr (literal_int 1 (pos 1)) initial).0 float_type)
check_value-Assignable_example = check_value-Assignable 1 (literal_int 1 (pos 1)) float_type initial
