-- ===== src/Tests/Driver.antt =====
-- Runs of the model of src/main.c on small inputs.
use kratos_lang.Prelude.{
  ◌≡◌, refl, true, false, none, ◌⊎◌, Bytes, codes, some, List, [], ◌∷◌, arith,
}
use kratos_lang.Prelude.Int.{ℤ}
use kratos_lang.Driver.Main.{main, exits}
use kratos_lang.Driver.Ready.{Acts, main-Acts}
use kratos_lang.Driver.Runs.{main-yields}
use kratos_lang.Semantic.Types.{type_eq}
use kratos_lang.Ast.{nil, func_decl, type_int, type_void}
use kratos_lang.Runtime.State.{flow_ok, flow_yield, Interp, done, find_function}
use kratos_lang.Runtime.Run.{eval_expr, eval_stmt, function_table, initial}
use kratos_lang.Runtime.Expr.{eval_of}
use kratos_lang.Runtime.Stmt.{exec_of, eval_statements, set_yield}
use kratos_lang.Tests.Runtime.{whole_numerics}
use kratos_lang.Tests.SourceRun.{
  no_files, yielding_source, yielding_body, yielding_program, yielding_run,
}
use kratos_lang.Tests.Wield.{two_files, two_paths, two_files-listed}

abbrev check_a : List Bytes
check_a = codes "--check" ∷ codes "a" ∷ []

-- `-o` wants no mode but `--emit-c`.
output_run :
    main two_files 2 [] (codes "--check" ∷ codes "-o" ∷ codes "x" ∷ codes "a" ∷ []) ≡ some (exits 2)
unfolding main
output_run = refl

main-Acts_example : Acts (main two_files 2 [] check_a)
main-Acts_example = main-Acts two_files two_paths two_files-listed 2 [] check_a (omega arith)

abbrev started : Interp ℤ
started = initial whole_numerics nil

abbrev yielded_state : Interp ℤ
yielded_state = elim (eval_stmt whole_numerics 9 yielding_body started) [
  | done flow s ↦ s
  | _ ↦ started
]

yielding_found :
    find_function (function_table yielding_program) (codes "main")
    ≡ some (func_decl 1 type_int none (codes "main") nil yielding_body)
unfolding find_function function_table
yielding_found = refl

yielding_ends : eval_stmt whole_numerics 9 yielding_body started ≡ done flow_yield yielded_state
unfolding eval_stmt eval_expr exec_of eval_of eval_statements set_yield
yielding_ends = refl

yielding_clean : yielded_state.had_error ≡ false
unfolding eval_stmt eval_expr exec_of eval_of eval_statements set_yield
yielding_clean = refl

main-yields_example :
    (flow_yield ≡ flow_yield) ⊎ ((flow_yield ≡ flow_ok) × (type_eq type_int type_void ≡ true))
main-yields_example =
    main-yields no_files [] (λ path opens. absurd (ground (arith, opens))) 0 yielding_source []
      yielding_program (omega arith) yielding_run (codes "main") 1 type_int none (codes "main") nil
      yielding_body yielding_found whole_numerics 9 started yielded_state flow_yield yielding_ends
      yielding_clean
