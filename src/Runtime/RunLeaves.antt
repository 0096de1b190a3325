-- ===== src/Runtime/RunLeaves.antt =====
-- What running a statement or a program of src/runtime/interp.c leaves of the state.
use mathlib.Core.Path.{subst}
use kratos_lang.Prelude.{ℕ, zero, suc, ◌≡◌}
use kratos_lang.Ast.{AstNode}
use kratos_lang.Runtime.Value.{Numerics}
use kratos_lang.Runtime.State.{Flow, Interp, Result, done}
use kratos_lang.Runtime.Run.{eval_expr, eval_stmt}
use kratos_lang.Runtime.Behind.{Behind, Ends, Leaves, Leaves-no_fuel, Leaves-Ends}
use kratos_lang.Runtime.ExprLeaves.{Leaves-eval_of}
use kratos_lang.Runtime.StmtLeaves.{Leaves-exec_of}

module _ {F : Type 0} where
  Ends-done :
      {A : Type 0} {s t : Interp F} {r : Result F A} {a : A} → Ends s r → r ≡ done a t → Behind s t
  Ends-done {s = s} h e = subst (Ends s) e h

module _ (numerics : Numerics) where
  mutual
    unfolding eval_expr

    pub Leaves-eval_expr : (fuel : ℕ) (node : AstNode) → Leaves (eval_expr numerics fuel node)
    Leaves-eval_expr zero node = Leaves-no_fuel
    Leaves-eval_expr (suc fuel) node =
        Leaves-eval_of numerics (eval_expr numerics fuel) (eval_stmt numerics fuel)
          (Leaves-eval_expr fuel) (Leaves-eval_stmt fuel) node

    pub Leaves-eval_stmt : (fuel : ℕ) (node : AstNode) → Leaves (eval_stmt numerics fuel node)
    Leaves-eval_stmt zero node = Leaves-no_fuel
    Leaves-eval_stmt (suc fuel) node =
        Leaves-exec_of numerics (eval_expr numerics fuel) (eval_stmt numerics fuel)
          (Leaves-eval_expr fuel) (Leaves-eval_stmt fuel) fuel node

  -- A statement that ends leaves the names that the environments around the innermost one bind, and those
  -- of the innermost one with new ones in front of them. The table of crafts is the same, no error is taken
  -- back, and what was printed before it stays in front of what it prints.
  pub eval_stmt-Behind :
      (fuel : ℕ) (node : AstNode) (s t : Interp numerics.Double) (flow : Flow)
      → eval_stmt numerics fuel node s ≡ done flow t
      → Behind s t
  eval_stmt-Behind fuel node s t flow e = Ends-done (Leaves-Ends (Leaves-eval_stmt fuel node) s) e
