-- ===== src/Runtime/Run.antt =====
-- src/runtime/interp.c: the recursion of `eval_expr` and `eval_stmt` on fuel, and `interp_run`.
use kratos_lang.Prelude.{
  ℕ, zero, suc, false, codes, List, [], ◌∷◌, Option, none, some, if◌then◌else◌,
}
use kratos_lang.Ast.{AstNode, AstNodeList, nil, cons, func_decl, is_var_decl, line_of}
use kratos_lang.Runtime.Value.{Numerics, Value, val_void}
use kratos_lang.Runtime.State.{
  Flow, FuncEntry, Interp, I, Result, ◌>>=◌, ◌>>◌, pure, get, no_fuel, find_function,
}
use kratos_lang.Runtime.Expr.{eval_of, call_function}
use kratos_lang.Runtime.Stmt.{exec_of}

-- `register_function` for each craft, in their order.
unfoldable pub function_table : AstNodeList → List FuncEntry
function_table nil = []
function_table (cons (func_decl line type record_name name params body) nodes) =
    (record { name = name; func = func_decl line type record_name name params body })
    ∷ function_table nodes
function_table (cons _ nodes) = function_table nodes

module _ (numerics : Numerics) where
  abbrev F : Type 0
  F = numerics.Double

  unfoldable mutual
    pub eval_expr : ℕ → AstNode → I F (Value F)
    eval_expr zero node = no_fuel
    eval_expr (suc fuel) node = eval_of numerics (eval_expr fuel) (eval_stmt fuel) node

    pub eval_stmt : ℕ → AstNode → I F Flow
    eval_stmt zero node = no_fuel
    eval_stmt (suc fuel) node = exec_of numerics (eval_expr fuel) (eval_stmt fuel) fuel node

  -- The global variables, up to the first error.
  unfoldable pub run_globals : ℕ → AstNodeList → I F (Unit {0})
  run_globals fuel nil = pure tt
  run_globals fuel (cons node nodes) =
      if is_var_decl node
      then (do
        eval_stmt fuel node
        interp ← get
        if interp.had_error then pure tt else run_globals fuel nodes)
      else run_globals fuel nodes

  abbrev pub run_main : ℕ → Option AstNode → I F (Unit {0})
  run_main fuel none = pure tt
  run_main fuel (some main) = do
    call_function numerics (eval_expr fuel) (eval_stmt fuel) main nil (line_of main)
    pure tt

  abbrev pub program_run : ℕ → AstNodeList → I F (Unit {0})
  program_run fuel declarations = do
    run_globals fuel declarations
    interp ← get
    if interp.had_error
        then pure tt
        else run_main fuel (find_function interp.functions (codes "main"))

  abbrev pub initial : AstNodeList → Interp F
  initial declarations = record {
    had_error = false;
    env = [] ∷ [];
    functions = function_table declarations;
    yield_value = val_void;
    output = [];
    error_lines = [];
  }

  -- The state behind the run, of which the exit code is `had_error`.
  unfoldable pub interp_run : ℕ → AstNodeList → Result F (Unit {0})
  interp_run fuel declarations = program_run fuel declarations (initial declarations)
