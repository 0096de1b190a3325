-- ===== src/Runtime/StmtLeaves.antt =====
-- What the statements of src/runtime/interp.c keep of the state.
use mathlib.Core.List.{map}
use kratos_lang.Prelude.{
  ℕ, zero, suc, ◌≡◌, refl, false, not, Bytes, List, [], ◌∷◌, Option, none, some, ◌||◌, ◌&&◌,
}
use kratos_lang.Ast.{
  AstNode, AstNodeList, nil, cons, is_assign, var_decl, block, if_stmt, cond_branch, hold_stmt,
  press_stmt, drive_stmt, sweep_stmt, snap_stmt, push_stmt, yield_stmt, shout_stmt, assign,
  expr_stmt,
}
use kratos_lang.Runtime.Value.{Numerics, Value, Values, is_truthy, val_void}
use kratos_lang.Runtime.State.{Binding, Flow, flow_ok, flow_snap, flow_push, I, pure, enter_env}
use kratos_lang.Runtime.Target.{Slot}
use kratos_lang.Runtime.Expr.{is_null_node}
use kratos_lang.Runtime.Stmt.{
  set_first, after_round, assigned, drive_loop, drive_rounds, drive_step, eval_block, eval_branches,
  eval_else, eval_statements, exec_of, goes_on, hold_loop, in_innermost, is_ok, press_loop,
  print_line, scoped, set_element, set_yield, stmt_of, sweep_item, sweep_loop, sweep_over,
  sweep_round, yielded,
}
use kratos_lang.Runtime.Behind.{
  Behind-report, names, Behind-env, Ends-inside, Leaves, Leaves-bind, Leaves-env_define,
  Leaves-failing, Leaves-get, Leaves-if, Leaves-no_fuel, Leaves-pure, Leaves-then, Leaves-undefined,
  Leaves-Ends, leaves,
}
use kratos_lang.Runtime.TargetLeaves.{Leaves-resolve_assignment_target, Leaves-store}

module _ {F : Type 0} where
  Leaves-set_yield : (value : Value F) → Leaves (set_yield value)
  unfolding set_yield
  Leaves-set_yield value = leaves λ s. Behind-report s _ ([]) refl refl (λ e. e) refl

  Leaves-print_line : (text : Bytes) → Leaves {F = F} (print_line text)
  unfolding print_line
  Leaves-print_line text = leaves λ s. Behind-report s _ (text ∷ []) refl refl (λ e. e) refl

  names-set_first :
      (bindings : List (Binding F)) (value : Value F)
      → map (λ b. b.name) (set_first bindings value) ≡ map (λ b. b.name) bindings
  names-set_first [] value = refl
  names-set_first (binding ∷ []) value = refl
  names-set_first (binding ∷ other ∷ rest) value = rw (names-set_first (other ∷ rest) value)

  names-in_innermost :
      (env : List (List (Binding F))) (value : Value F) → names (in_innermost env value) ≡ names env
  unfolding names
  names-in_innermost [] value = refl
  names-in_innermost (bindings ∷ env) value = rw (names-set_first bindings value)

  Leaves-set_element : (value : Value F) → Leaves (set_element value)
  unfolding set_element
  Leaves-set_element value = leaves λ s. Behind-env s _ (names-in_innermost s.env value)

  pub Leaves-scoped : {A : Type 0} {m : I F A} → Leaves m → Leaves (scoped m)
  unfolding scoped enter_env
  Leaves-scoped {m = m} l =
      leaves
        λ s. Ends-inside s [] (m (record s { env = [] ∷ s.env })) pure (Leaves-Ends l _) Leaves-pure

module _ (numerics : Numerics) (eval : AstNode → I numerics.Double (Value numerics.Double))
    (exec : AstNode → I numerics.Double Flow) (Leaves-eval : (node : AstNode) → Leaves (eval node))
    (Leaves-exec : (node : AstNode) → Leaves (exec node)) where
  pub Leaves-eval_statements :
      (nodes : AstNodeList) → Leaves (eval_statements numerics eval exec nodes)
  unfolding eval_statements
  Leaves-eval_statements nil = Leaves-pure _
  Leaves-eval_statements (cons node nodes) = Leaves-bind (Leaves-exec node) λ flow. Leaves-get λ s.
      Leaves-if (not (is_ok flow) || s.had_error) (Leaves-pure _) (Leaves-eval_statements nodes)

  Leaves-eval_else : (node : AstNode) → Leaves (eval_else numerics eval exec node)
  Leaves-eval_else node = Leaves-if (is_null_node node) (Leaves-pure _) (Leaves-exec node)

  Leaves-eval_branches :
      (branches : AstNodeList) (else_block : AstNode)
      → Leaves (eval_branches numerics eval exec branches else_block)
  unfolding eval_branches
  Leaves-eval_branches nil else_block = Leaves-eval_else else_block
  Leaves-eval_branches (cons (cond_branch line condition body) branches) else_block =
      Leaves-bind (Leaves-eval condition)
        λ v. Leaves-if (is_truthy v) (Leaves-exec body) (Leaves-eval_branches branches else_block)
  Leaves-eval_branches (cons _ branches) else_block = Leaves-undefined

  Leaves-goes_on : (condition : AstNode) → Leaves (goes_on numerics eval exec condition)
  Leaves-goes_on condition = Leaves-bind (Leaves-eval condition) λ v. Leaves-get λ s. Leaves-pure _

  Leaves-after_round :
      {again : I numerics.Double Flow} (flow : Flow)
      → Leaves again
      → Leaves (after_round numerics eval exec again flow)
  Leaves-after_round flow_ok l = l
  Leaves-after_round flow_push l = l
  Leaves-after_round flow_snap l = Leaves-pure _
  Leaves-after_round _ l = Leaves-pure _

  Leaves-hold_loop :
      (fuel : ℕ) (condition body : AstNode)
      → Leaves (hold_loop numerics eval exec fuel condition body)
  unfolding hold_loop
  Leaves-hold_loop zero condition body = Leaves-no_fuel
  Leaves-hold_loop (suc fuel) condition body = Leaves-bind (Leaves-goes_on condition) λ holds.
      Leaves-if holds
        (Leaves-bind (Leaves-exec body)
          λ flow. Leaves-after_round flow (Leaves-hold_loop fuel condition body))
        (Leaves-pure _)

  Leaves-press_loop :
      (fuel : ℕ) (body condition : AstNode)
      → Leaves (press_loop numerics eval exec fuel body condition)
  unfolding press_loop
  Leaves-press_loop zero body condition = Leaves-no_fuel
  Leaves-press_loop (suc fuel) body condition = Leaves-bind (Leaves-exec body) λ flow.
      Leaves-after_round flow (
        Leaves-bind (Leaves-goes_on condition)
          λ holds. Leaves-if holds (Leaves-press_loop fuel body condition) (Leaves-pure _))

  Leaves-drive_step :
      {again : I numerics.Double Flow} (step : AstNode)
      → Leaves again
      → Leaves (drive_step numerics eval exec again step)
  Leaves-drive_step step l =
      Leaves-if (is_assign step)
        (Leaves-bind (Leaves-exec step) λ flow. Leaves-if (is_ok flow) l (Leaves-pure _))
        (Leaves-then (Leaves-eval step) l)

  Leaves-drive_loop :
      (fuel : ℕ) (condition step body : AstNode)
      → Leaves (drive_loop numerics eval exec fuel condition step body)
  unfolding drive_loop
  Leaves-drive_loop zero condition step body = Leaves-no_fuel
  Leaves-drive_loop (suc fuel) condition step body = Leaves-bind (Leaves-goes_on condition) λ holds.
      Leaves-if holds
        (Leaves-bind (Leaves-exec body) λ flow.
          Leaves-after_round flow
            (Leaves-drive_step step (Leaves-drive_loop fuel condition step body)))
        (Leaves-pure _)

  pub Leaves-drive_rounds :
      (fuel : ℕ) (init condition step body : AstNode)
      → Leaves (drive_rounds numerics eval exec fuel init condition step body)
  Leaves-drive_rounds fuel init condition step body = Leaves-bind (Leaves-exec init) λ flow.
      Leaves-get λ s.
        Leaves-if (is_ok flow && not s.had_error) (Leaves-drive_loop fuel condition step body)
          (Leaves-pure _)

  Leaves-sweep_item :
      {again : I numerics.Double Flow} (body : AstNode) (item : Option (Value numerics.Double))
      → Leaves again
      → Leaves (sweep_item numerics eval exec again body item)
  Leaves-sweep_item body none l = Leaves-pure _
  Leaves-sweep_item body (some item) l =
      Leaves-then (Leaves-set_element item)
        (Leaves-bind (Leaves-exec body) λ flow. Leaves-after_round flow l)

  Leaves-sweep_round :
      {again : I numerics.Double Flow} (body : AstNode) (i : ℕ)
      (items : Option (Values numerics.Double))
      → Leaves again
      → Leaves (sweep_round numerics eval exec again body i items)
  Leaves-sweep_round body i none l = Leaves-undefined
  Leaves-sweep_round body i (some items) l = Leaves-sweep_item body _ l

  pub Leaves-sweep_loop :
      (fuel i : ℕ) (collection : Bytes) (body : AstNode)
      → Leaves (sweep_loop numerics eval exec fuel i collection body)
  unfolding sweep_loop
  Leaves-sweep_loop zero i collection body = Leaves-no_fuel
  Leaves-sweep_loop (suc fuel) i collection body =
      Leaves-get λ s. Leaves-sweep_round body i _ (Leaves-sweep_loop fuel (suc i) collection body)

  Leaves-sweep_over :
      (fuel line : ℕ) (element collection : Bytes) (body : AstNode)
      (items : Option (Values numerics.Double))
      → Leaves (sweep_over numerics eval exec fuel line element collection body items)
  Leaves-sweep_over fuel line element collection body none = Leaves-failing line _
  Leaves-sweep_over fuel line element collection body (some items) = Leaves-scoped (
      Leaves-then (Leaves-env_define element false val_void)
        (Leaves-sweep_loop fuel 0 collection body))

  Leaves-assigned :
      (value : Value numerics.Double) (slot : Option Slot)
      → Leaves (assigned numerics eval exec value slot)
  Leaves-assigned value none = Leaves-pure _
  Leaves-assigned value (some slot) = Leaves-then (Leaves-store slot value) (Leaves-pure _)

  Leaves-yielded : (node : AstNode) → Leaves (yielded numerics eval exec node)
  Leaves-yielded node = Leaves-if (is_null_node node) (Leaves-pure _) (Leaves-eval node)

  Leaves-stmt_of : (fuel : ℕ) (node : AstNode) → Leaves (stmt_of numerics eval exec fuel node)
  unfolding stmt_of eval_block
  Leaves-stmt_of fuel (var_decl line is_const depth type record_name name initializer) =
      Leaves-bind (Leaves-eval initializer)
        λ v. Leaves-then (Leaves-env_define name is_const v) (Leaves-pure _)
  Leaves-stmt_of fuel (block line statements) = Leaves-scoped (Leaves-eval_statements statements)
  Leaves-stmt_of fuel (if_stmt line branches else_block) = Leaves-eval_branches branches else_block
  Leaves-stmt_of fuel (hold_stmt line condition body) = Leaves-hold_loop fuel condition body
  Leaves-stmt_of fuel (press_stmt line body condition) = Leaves-press_loop fuel body condition
  Leaves-stmt_of fuel (drive_stmt line init condition step body) =
      Leaves-scoped (Leaves-drive_rounds fuel init condition step body)
  Leaves-stmt_of fuel (sweep_stmt line type record_name element collection body) =
      Leaves-get λ s. Leaves-sweep_over fuel line element collection body _
  Leaves-stmt_of fuel (snap_stmt line) = Leaves-pure _
  Leaves-stmt_of fuel (push_stmt line) = Leaves-pure _
  Leaves-stmt_of fuel (yield_stmt line node) =
      Leaves-bind (Leaves-yielded node) λ v. Leaves-then (Leaves-set_yield v) (Leaves-pure _)
  Leaves-stmt_of fuel (shout_stmt line node) = Leaves-bind (Leaves-eval node) λ v.
      Leaves-get λ s.
        Leaves-if s.had_error (Leaves-pure _) (Leaves-then (Leaves-print_line _) (Leaves-pure _))
  Leaves-stmt_of fuel (assign line target node) = Leaves-bind (Leaves-eval node) λ v.
      Leaves-bind (Leaves-resolve_assignment_target eval Leaves-eval target)
        λ slot. Leaves-assigned v slot
  Leaves-stmt_of fuel (expr_stmt line node) = Leaves-then (Leaves-eval node) (Leaves-pure _)
  Leaves-stmt_of fuel node = Leaves-failing _ _

  pub Leaves-exec_of : (fuel : ℕ) (node : AstNode) → Leaves (exec_of numerics eval exec fuel node)
  unfolding exec_of
  Leaves-exec_of fuel node =
      Leaves-get
        λ s. Leaves-if (s.had_error || is_null_node node) (Leaves-pure _) (Leaves-stmt_of fuel node)
