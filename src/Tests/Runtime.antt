-- ===== src/Tests/Runtime.antt =====
-- Runs of the model of src/runtime on small programs.
use kratos_lang.Runtime.Target.{store}
use kratos_lang.Runtime.Operators.{binary_operation}
use kratos_lang.Runtime.Expr.{call_function, eval_of}
use kratos_lang.Runtime.Stmt.{eval_statements, exec_of, print_line, set_yield}
use kratos_lang.Prelude.{
  ℕ, ◌≡◌, refl, true, false, ◌⊎◌, Bytes, codes, List, [], ◌∷◌, Option, none, some,
}
use kratos_lang.Prelude.Int.{ℤ, pos}
use kratos_lang.Lexer.Token.{token_less, token_plus}
use kratos_lang.Ast.{
  AstNode, AstNodeList, assign, binary_expr, block, call_expr, cons, drive_stmt, expr_stmt,
  func_decl, identifier_expr, is_assign, is_var_decl, literal_int, nil, shout_stmt, type_int,
  type_void, var_decl, yield_stmt,
}
use kratos_lang.Runtime.Numbers.{◌+ℤ◌, ◌-ℤ◌, ◌*ℤ◌, int_equal, int_less, magnitude, neg, quotient}
use kratos_lang.Runtime.Value.{Numerics}
use kratos_lang.Runtime.State.{Interp, Result, done, find_function, flow_ok, flow_yield}
use kratos_lang.Runtime.Behind.{Behind, names}
use kratos_lang.Runtime.RunLeaves.{eval_stmt-Behind}
use kratos_lang.Runtime.Scopes.{eval_stmt-names}
use kratos_lang.Runtime.Good.{allowed}
use kratos_lang.Runtime.Shape.{well_built, crafts_built}
use kratos_lang.Runtime.ParsedCrafts.{parse_source-crafts_built}
use kratos_lang.Parser.Total.{Parsed, parse_source-Parsed}
use kratos_lang.Runtime.Shape.{well_built, crafts_built}
use kratos_lang.Semantic.Jumps.{jumps_in_loops}
use kratos_lang.Semantic.Returns.{always_returns}
use kratos_lang.Runtime.Flows.{eval_stmt-allowed}
use kratos_lang.Runtime.Accepted.{accepts-yield}
use kratos_lang.Semantic.Types.{type_eq}
use kratos_lang.Tests.Semantic.{looping, main_program, main_accepted}
use kratos_lang.Runtime.Run.{eval_expr, eval_stmt, function_table, initial, interp_run, run_globals}

-- Integers in the place of the floats.
abbrev pub whole_numerics : Numerics
whole_numerics = record {
  Double = ℤ;
  of_int = λ n. n;
  float_zero = pos 0;
  float_neg = neg;
  float_add = λ x y. x +ℤ y;
  float_sub = λ x y. x -ℤ y;
  float_mul = λ x y. x *ℤ y;
  float_div = quotient;
  float_less = int_less;
  float_equal = int_equal;
  int_of = λ x. some x;
  strtod = λ text. none;
  strtod_prefix = λ text. pos 0;
  strtoll_whole = λ text. none;
  print_int = λ n. magnitude n ∷ [];
  print_float = λ x. magnitude x ∷ [];
}

abbrev pub x_name : Bytes
x_name = codes "x"

abbrev x_variable : AstNode
x_variable = identifier_expr 1 x_name

abbrev number : ℕ → AstNode
number n = literal_int 1 (pos n)

-- drive (k_int x = 0; x < 3; x = x + 1) { shout(x); }
abbrev counting : AstNode
counting =
    drive_stmt 1 (var_decl 1 false 0 type_int none x_name (number 0))
      (binary_expr 1 token_less x_variable (number 3))
      (assign 1 x_variable (binary_expr 1 token_plus x_variable (number 1)))
      (block 1 (cons (shout_stmt 1 x_variable) nil))

-- Each craft sees the variables of its caller: `show` prints the `x` of `main`, not the global one.
abbrev shadowing : AstNodeList
shadowing = cons (var_decl 1 false 0 type_int none x_name (number 1)) (
    cons
      (func_decl 2 type_void none (codes "show") nil (block 2 (cons (shout_stmt 2 x_variable) nil)))
      (cons
        (func_decl 3 type_void none (codes "main") nil (
          block 3 (
            cons (var_decl 3 false 0 type_int none x_name (number 2))
              (cons (expr_stmt 3 (call_expr 3 (codes "show") nil)) nil))))
        nil))

abbrev output_of : {A : Type 0} → Result ℤ A → Option (List Bytes)
output_of (done a s) = some s.output
output_of _ = none

counting_run :
    output_of (eval_stmt whole_numerics 20 counting (initial whole_numerics nil))
    ≡ some ((2 ∷ []) ∷ (1 ∷ []) ∷ (0 ∷ []) ∷ [])
unfolding eval_expr exec_of eval_of binary_operation eval_statements print_line is_assign store
counting_run = refl

shadowing_run : output_of (interp_run whole_numerics 20 shadowing) ≡ some ((2 ∷ []) ∷ [])
unfolding interp_run run_globals is_var_decl eval_stmt exec_of eval_of find_function function_table
    call_function eval_statements print_line
shadowing_run = refl

abbrev started : Interp ℤ
started = initial whole_numerics nil

abbrev counted : Interp ℤ
counted = elim (eval_stmt whole_numerics 20 counting started) [ done flow s ↦ s | _ ↦ started ]

counting_ends : eval_stmt whole_numerics 20 counting started ≡ done flow_ok counted
unfolding eval_expr exec_of eval_of binary_operation eval_statements print_line is_assign store
counting_ends = refl

eval_stmt-Behind_example : Behind started counted
eval_stmt-Behind_example =
    eval_stmt-Behind whole_numerics 20 counting started counted flow_ok counting_ends

eval_stmt-names_example : names counted.env ≡ names started.env
eval_stmt-names_example =
    eval_stmt-names whole_numerics 20 counting started counted flow_ok refl counting_ends

counting_built : well_built counting ≡ true
unfolding well_built
counting_built = refl

counting_jumps : jumps_in_loops false counting ≡ true
unfolding jumps_in_loops
counting_jumps = refl

eval_stmt-allowed_example : allowed false (always_returns counting) flow_ok counted.had_error ≡ true
eval_stmt-allowed_example =
    eval_stmt-allowed whole_numerics 20 false counting started counted flow_ok counting_built
      counting_jumps counting_ends

-- The body of `main` in an accepted program: a loop that ends with `snap`, and `yield 1;`.
abbrev main_body : AstNode
main_body = block 1 (cons looping (cons (yield_stmt 4 (literal_int 4 (pos 1))) nil))

abbrev yielded_state : Interp ℤ
yielded_state = elim (eval_stmt whole_numerics 20 main_body started) [
  | done flow s ↦ s
  | _ ↦ started
]

main_yields : eval_stmt whole_numerics 20 main_body started ≡ done flow_yield yielded_state
unfolding eval_expr exec_of eval_of eval_statements set_yield
main_yields = refl

main_built : crafts_built main_program ≡ true
unfolding crafts_built well_built
main_built = refl

main_found :
    find_function (function_table main_program) (codes "main")
    ≡ some (func_decl 1 type_int none (codes "main") nil main_body)
unfolding find_function function_table
main_found = refl

main_clean : yielded_state.had_error ≡ false
unfolding eval_expr exec_of eval_of eval_statements set_yield
main_clean = refl

accepts-yield_example :
    (flow_yield ≡ flow_yield) ⊎ ((flow_yield ≡ flow_ok) × (type_eq type_int type_void ≡ true))
accepts-yield_example =
    accepts-yield main_program main_accepted main_built (codes "main") 1 type_int none
      (codes "main") nil main_body main_found whole_numerics 20 started yielded_state flow_yield
      main_yields main_clean

-- k_void craft f() { hold (x) { snap; } }
abbrev looping_craft : Bytes
looping_craft = codes "k_void craft f(){hold(x){snap;}}"

abbrev looping_parsed : Parsed looping_craft
looping_parsed = parse_source-Parsed looping_craft

parse_source-crafts_built_example : crafts_built looping_parsed.declarations ≡ true
parse_source-crafts_built_example =
    parse_source-crafts_built looping_craft looping_parsed.line looping_parsed.declarations
      looping_parsed.parser looping_parsed.done
