-- ===== src/Runtime/Stmt.antt =====
-- src/runtime/interp.c: `eval_block` and `eval_stmt`, over the evaluation of expressions and the
-- execution of the statements inside, which have less fuel; each loop has fuel for its rounds.
use kratos_lang.Prelude.{
  ℕ, zero, suc, Bool, true, false, not, Bytes, List, [], ◌∷◌, Option, none, some, ◌||◌, ◌&&◌,
  if◌then◌else◌,
}
use kratos_lang.Ast.{
  AstNode, AstNodeList, nil, cons, line_of, is_assign, var_decl, block, if_stmt, cond_branch,
  hold_stmt, press_stmt, drive_stmt, sweep_stmt, snap_stmt, push_stmt, yield_stmt, shout_stmt,
  assign, expr_stmt,
}
use kratos_lang.Runtime.Value.{Numerics, Value, Values, val_void, val_array, is_truthy, value_at}
use kratos_lang.Runtime.State.{
  Binding, Flow, flow_ok, flow_snap, flow_push, flow_yield, flow_error, I, done, ◌>>=◌, ◌>>◌, pure,
  get, no_fuel, undefined_behaviour, failing, env_find, env_define, enter_env, leave_env, parent_of,
}
use kratos_lang.Runtime.Print.{shout_value}
use kratos_lang.Runtime.Target.{Slot, store, resolve_assignment_target, binding_value}
use kratos_lang.Runtime.Expr.{is_null_node}

abbrev pub is_ok : Flow → Bool
is_ok flow_ok = true
is_ok _ = false

module _ {F : Type 0} where
  unfoldable pub set_yield : Value F → I F (Unit {0})
  set_yield value interp = done tt (record interp { yield_value = value })

  unfoldable pub print_line : Bytes → I F (Unit {0})
  print_line text interp = done tt (record interp { output = text ∷ interp.output })

  -- The first binding of an environment, which stands last.
  abbrev pub set_first : List (Binding F) → Value F → List (Binding F)
  set_first [] value = []
  set_first (binding ∷ []) value = (record binding { value = value }) ∷ []
  set_first (binding ∷ other ∷ rest) value = binding ∷ set_first (other ∷ rest) value

  abbrev pub in_innermost : List (List (Binding F)) → Value F → List (List (Binding F))
  in_innermost [] value = []
  in_innermost (bindings ∷ env) value = set_first bindings value ∷ env

  -- `element->value = …`
  unfoldable pub set_element : Value F → I F (Unit {0})
  set_element value interp = done tt (record interp { env = in_innermost interp.env value })

  -- The items of the collection of a `sweep`, where it is an array.
  abbrev pub items_of : Option (Value F) → Option (Values F)
  items_of (some (val_array type items)) = some items
  items_of _ = none

  abbrev pub collection_of : List (List (Binding F)) → Bytes → Option (Values F)
  collection_of env name = items_of (binding_value (env_find env name))

-- Run in an environment of its own.
unfoldable pub scoped : {F A : Type 0} → I F A → I F A
unfolding enter_env leave_env
scoped m = do enter_env; result ← m; leave_env; pure result

module _ (numerics : Numerics) (eval : AstNode → I numerics.Double (Value numerics.Double))
    (exec : AstNode → I numerics.Double Flow) where
  abbrev F : Type 0
  F = numerics.Double

  unfoldable pub eval_statements : AstNodeList → I F Flow
  eval_statements nil = pure flow_ok
  eval_statements (cons node nodes) = do
    flow ← exec node
    interp ← get
    if not (is_ok flow) || interp.had_error then pure flow else eval_statements nodes

  unfoldable pub eval_block : AstNodeList → I F Flow
  eval_block statements = scoped (eval_statements statements)

  abbrev pub eval_else : AstNode → I F Flow
  eval_else node = if is_null_node node then pure flow_ok else exec node

  unfoldable pub eval_branches : AstNodeList → AstNode → I F Flow
  eval_branches nil else_block = eval_else else_block
  eval_branches (cons (cond_branch line condition body) branches) else_block = do
    value ← eval condition
    if is_truthy value then exec body else eval_branches branches else_block
  eval_branches (cons _ branches) else_block = undefined_behaviour

  -- A condition holds, without an error.
  abbrev pub goes_on : AstNode → I F Bool
  goes_on condition = do
    value ← eval condition
    interp ← get
    pure (is_truthy value && not interp.had_error)

  -- Behind a round of `hold`: the loop goes on, is left, or is left with the flow.
  abbrev pub after_round : I F Flow → Flow → I F Flow
  after_round again flow_ok = again
  after_round again flow_push = again
  after_round again flow_snap = pure flow_ok
  after_round again flow = pure flow

  unfoldable pub hold_loop : ℕ → AstNode → AstNode → I F Flow
  hold_loop zero condition body = no_fuel
  hold_loop (suc fuel) condition body = do
    holds ← goes_on condition
    if holds
        then (do flow ← exec body; after_round (hold_loop fuel condition body) flow)
        else pure flow_ok

  abbrev pub press_again : I F Flow → AstNode → I F Flow
  press_again again condition = do holds ← goes_on condition; if holds then again else pure flow_ok

  unfoldable pub press_loop : ℕ → AstNode → AstNode → I F Flow
  press_loop zero body condition = no_fuel
  press_loop (suc fuel) body condition = do
    flow ← exec body
    after_round (press_again (press_loop fuel body condition) condition) flow

  -- The step of a `drive` and the rounds behind it.
  abbrev pub drive_step : I F Flow → AstNode → I F Flow
  drive_step again step =
      if is_assign step
      then (do flow ← exec step; if is_ok flow then again else pure flow)
      else (do eval step; again)

  unfoldable pub drive_loop : ℕ → AstNode → AstNode → AstNode → I F Flow
  drive_loop zero condition step body = no_fuel
  drive_loop (suc fuel) condition step body = do
    holds ← goes_on condition
    if holds
        then (do
          flow ← exec body
          after_round (drive_step (drive_loop fuel condition step body) step) flow)
        else pure flow_ok

  abbrev pub drive_rounds : ℕ → AstNode → AstNode → AstNode → AstNode → I F Flow
  drive_rounds fuel init condition step body = do
    flow ← exec init
    interp ← get
    if is_ok flow && not interp.had_error then drive_loop fuel condition step body else pure flow

  abbrev pub sweep_item : I F Flow → AstNode → Option (Value F) → I F Flow
  sweep_item again body none = pure flow_ok
  sweep_item again body (some item) = do set_element item; flow ← exec body; after_round again flow

  abbrev pub sweep_round : I F Flow → AstNode → ℕ → Option (Values F) → I F Flow
  sweep_round again body i none = undefined_behaviour
  sweep_round again body i (some items) = sweep_item again body (value_at items i)

  unfoldable pub sweep_loop : ℕ → ℕ → Bytes → AstNode → I F Flow
  sweep_loop zero i collection body = no_fuel
  sweep_loop (suc fuel) i collection body = do
    interp ← get
    sweep_round (sweep_loop fuel (suc i) collection body) body i
        (collection_of (parent_of interp.env) collection)

  abbrev pub sweep_over : ℕ → ℕ → Bytes → Bytes → AstNode → Option (Values F) → I F Flow
  sweep_over fuel line element collection body none = failing line flow_error
  sweep_over fuel line element collection body (some items) =
      scoped (do env_define element false val_void; sweep_loop fuel 0 collection body)

  abbrev pub assigned : Value F → Option Slot → I F Flow
  assigned value none = pure flow_error
  assigned value (some slot) = do store slot value; pure flow_ok

  abbrev pub yielded : AstNode → I F (Value F)
  yielded node = if is_null_node node then pure val_void else eval node

  -- The `switch` of `eval_stmt`.
  unfoldable pub stmt_of : ℕ → AstNode → I F Flow
  unfolding eval_block eval_branches hold_loop press_loop drive_loop sweep_loop scoped
      resolve_assignment_target shout_value env_define env_find
  stmt_of fuel (var_decl line is_const depth type record_name name initializer) = do
    value ← eval initializer
    env_define name is_const value
    pure flow_ok
  stmt_of fuel (block line statements) = eval_block statements
  stmt_of fuel (if_stmt line branches else_block) = eval_branches branches else_block
  stmt_of fuel (hold_stmt line condition body) = hold_loop fuel condition body
  stmt_of fuel (press_stmt line body condition) = press_loop fuel body condition
  stmt_of fuel (drive_stmt line init condition step body) =
      scoped (drive_rounds fuel init condition step body)
  stmt_of fuel (sweep_stmt line type record_name element collection body) = do
    interp ← get
    sweep_over fuel line element collection body (collection_of interp.env collection)
  stmt_of fuel (snap_stmt line) = pure flow_snap
  stmt_of fuel (push_stmt line) = pure flow_push
  stmt_of fuel (yield_stmt line node) = do value ← yielded node; set_yield value; pure flow_yield
  stmt_of fuel (shout_stmt line node) = do
    value ← eval node
    interp ← get
    if interp.had_error
        then pure flow_ok
        else (do print_line (shout_value numerics value); pure flow_ok)
  stmt_of fuel (assign line target node) = do
    value ← eval node
    slot ← resolve_assignment_target eval target
    assigned value slot
  stmt_of fuel (expr_stmt line node) = do eval node; pure flow_ok
  stmt_of fuel node = failing (line_of node) flow_error

  -- The body of `eval_stmt`.
  unfoldable pub exec_of : ℕ → AstNode → I F Flow
  unfolding stmt_of
  exec_of fuel node = do
    interp ← get
    if interp.had_error || is_null_node node then pure flow_error else stmt_of fuel node
