-- ===== src/Runtime/Scopes.antt =====
-- The statements of src/runtime/interp.c with an environment of their own.
use mathlib.Core.Path.{subst}
use kratos_lang.Prelude.{
  ℕ, zero, suc, ◌≡◌, refl, Bool, true, false, Bytes, [], ◌∷◌, Option, none, some, ◌||◌, Bool-cases,
  inl, inr, arith,
}
use kratos_lang.Ast.{AstNode, block, drive_stmt, sweep_stmt}
use kratos_lang.Runtime.Value.{Numerics, Value, Values, val_void}
use kratos_lang.Runtime.State.{
  Flow, Interp, I, Result, done, out_of_fuel, undefined, continue_with, ◌>>◌, pure, failing,
  runtime_error, enter_env, leave_env,
}
use kratos_lang.Runtime.Expr.{is_null_node}
use kratos_lang.Runtime.Stmt.{eval_block, exec_of, scoped, stmt_of, sweep_over}
use kratos_lang.Runtime.Run.{eval_expr, eval_stmt}
use kratos_lang.Runtime.Behind.{
  Ends, Leaves, Leaves-env_define, Leaves-then, Leaves-Ends, names, names-parent_of,
}
use kratos_lang.Runtime.StmtLeaves.{Leaves-drive_rounds, Leaves-eval_statements, Leaves-sweep_loop}
use kratos_lang.Runtime.RunLeaves.{Leaves-eval_expr, Leaves-eval_stmt}

-- A block, a `drive` and a `sweep`.
abbrev pub is_scoped : AstNode → Bool
is_scoped (block line statements) = true
is_scoped (drive_stmt line init condition step body) = true
is_scoped (sweep_stmt line type record_name element collection body) = true
is_scoped _ = false

module _ {F : Type 0} where
  -- A result that ends with the names that were bound at the start.
  abbrev SameNames : {A : Type 0} → Interp F → Result F A → Type 0
  SameNames s (done a t) = names t.env ≡ names s.env
  SameNames s _ = Unit {0}

  left-SameNames :
      {A : Type 0} (s : Interp F) (r : Result F A)
      → Ends (record s { env = [] ∷ s.env }) r
      → SameNames s (continue_with r (λ a. leave_env >> pure a))
  unfolding leave_env names
  left-SameNames s (done a t) h = names-parent_of [] (names s.env) t.env h.scopes
  left-SameNames s out_of_fuel h = tt
  left-SameNames s undefined h = tt

  scoped-SameNames : {A : Type 0} {m : I F A} → Leaves m → (s : Interp F) → SameNames s (scoped m s)
  unfolding scoped enter_env
  scoped-SameNames {m = m} l s =
      left-SameNames s (m (record s { env = [] ∷ s.env })) (Leaves-Ends l _)

  failing-SameNames :
      {A : Type 0} (line : ℕ) (a : A) (s : Interp F) → SameNames s (failing line a s)
  unfolding runtime_error
  failing-SameNames line a s = refl

module _ (numerics : Numerics) (fuel : ℕ) where
  abbrev eval : AstNode → I numerics.Double (Value numerics.Double)
  eval = eval_expr numerics fuel

  abbrev exec : AstNode → I numerics.Double Flow
  exec = eval_stmt numerics fuel

  sweep-SameNames :
      (line : ℕ) (element collection : Bytes) (body : AstNode)
      (items : Option (Values numerics.Double)) (s : Interp numerics.Double)
      → SameNames s (sweep_over numerics eval exec fuel line element collection body items s)
  sweep-SameNames line element collection body none s = failing-SameNames line _ s
  sweep-SameNames line element collection body (some items) s =
      scoped-SameNames
        (Leaves-then (Leaves-env_define element false val_void) (
          Leaves-sweep_loop numerics eval exec (Leaves-eval_expr numerics fuel)
            (Leaves-eval_stmt numerics fuel) fuel 0 collection body))
        s

  stmt_of-SameNames :
      (node : AstNode) (s : Interp numerics.Double)
      → is_scoped node ≡ true
      → SameNames s (stmt_of numerics eval exec fuel node s)
  unfolding stmt_of eval_block
  stmt_of-SameNames (block line statements) s h =
      scoped-SameNames
        (Leaves-eval_statements numerics eval exec (Leaves-eval_expr numerics fuel)
          (Leaves-eval_stmt numerics fuel) statements)
        s
  stmt_of-SameNames (drive_stmt line init condition step body) s h =
      scoped-SameNames
        (Leaves-drive_rounds numerics eval exec (Leaves-eval_expr numerics fuel)
          (Leaves-eval_stmt numerics fuel) fuel init condition step body)
        s
  stmt_of-SameNames (sweep_stmt line type record_name element collection body) s h =
      sweep-SameNames line element collection body _ s
  stmt_of-SameNames _ s h = absurd (ground (arith, h))

  exec_of-SameNames :
      (node : AstNode) (s : Interp numerics.Double)
      → is_scoped node ≡ true
      → SameNames s (exec_of numerics eval exec fuel node s)
  unfolding exec_of
  exec_of-SameNames node s h = elim (Bool-cases (s.had_error || is_null_node node)) [
    | inl e ↦ rw e refl
    | inr e ↦ rw e (stmt_of-SameNames node s h)
  ]

-- Where a block, a `drive` or a `sweep` ends, by a jump, a `yield` or an error too, each environment
-- binds the names that it bound before.
pub eval_stmt-names :
    (numerics : Numerics) (fuel : ℕ) (node : AstNode) (s t : Interp numerics.Double) (flow : Flow)
    → is_scoped node ≡ true
    → eval_stmt numerics fuel node s ≡ done flow t
    → names t.env ≡ names s.env
unfolding eval_expr
eval_stmt-names numerics zero node s t flow h e = absurd (ground (arith, e))
eval_stmt-names numerics (suc fuel) node s t flow h e =
    subst (SameNames s) e (exec_of-SameNames numerics fuel node s h)
