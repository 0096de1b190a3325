-- ===== src/Runtime/Flows.antt =====
-- How the statements of src/runtime/interp.c end, against the checks of src/semantic/semantic.c on jumps
-- and on the paths of a craft.
use mathlib.Core.Path.{subst}
use kratos_lang.Prelude.{
  ℕ, zero, suc, ◌≡◌, refl, Bool, true, false, not, Bytes, Option, none, some, ◌&&◌, ◌||◌, arith,
  and_left, and_right,
}
use kratos_lang.Ast.{
  AstNode, AstNodeList, assign, block, cond_branch, cons, drive_stmt, expr_stmt, hold_stmt, if_stmt,
  is_assign, is_var_decl, nil, null, press_stmt, push_stmt, shout_stmt, snap_stmt, sweep_stmt,
  var_decl, yield_stmt,
}
use kratos_lang.Semantic.Returns.{all_return, always_returns, any_returns, is_null}
use kratos_lang.Semantic.Jumps.{all_in_loops, branches_in_loops, jumps_in_loops}
use kratos_lang.Runtime.TargetFlows.{got, resolve_assignment_target-Good}
use kratos_lang.Runtime.Target.{Slot, resolve_assignment_target, store}
use kratos_lang.Runtime.Expr.{is_null_node}
use kratos_lang.Runtime.Run.{eval_expr, eval_stmt}
use kratos_lang.Runtime.Value.{Numerics, Value, Values, is_truthy, val_void, value_at}
use kratos_lang.Runtime.State.{
  Flow, I, Interp, continue_with, done, env_define, flow_error, flow_ok, flow_push, flow_snap,
  flow_yield,
}
use kratos_lang.Runtime.Stmt.{
  after_round, assigned, drive_loop, drive_rounds, drive_step, eval_block, eval_branches, eval_else,
  eval_statements, exec_of, goes_on, hold_loop, is_ok, press_loop, print_line, set_element,
  set_yield, stmt_of, sweep_item, sweep_loop, sweep_over, sweep_round, yielded,
}
use kratos_lang.Runtime.Shape.{all_built, branches_built, well_built}
use kratos_lang.Runtime.Good.{
  Good, Good-bind, Good-failing, Good-holds, Good-if, Good-map, Good-out_of_fuel, Good-pure,
  Good-scoped, Good-then, Good-undefined, allowed, allowed-goes_on, allowed-outside, allowed-stops,
  allowed-weaken, and_drop, if_returns,
}

built-is_null_node : (node : AstNode) → well_built node ≡ true → is_null_node node ≡ false
unfolding well_built
built-is_null_node null w = absurd (ground (arith, w))
built-is_null_node _ w = refl

present : (a b : Bool) → b ≡ false → (a || b) ≡ true → a ≡ true
present a b h e = ground (arith, h, e)

module _ (numerics : Numerics) (eval : AstNode → I numerics.Double (Value numerics.Double))
    (exec : AstNode → I numerics.Double Flow)
    (exec-Good : (inside : Bool) (node : AstNode) (s : Interp numerics.Double)
      → well_built node ≡ true
      → jumps_in_loops inside node ≡ true
      → Good (allowed inside (always_returns node)) (exec node s)) where
  eval_statements-Good :
      (inside : Bool) (nodes : AstNodeList) (s : Interp numerics.Double)
      → all_built nodes ≡ true
      → all_in_loops inside nodes ≡ true
      → Good (allowed inside (any_returns nodes)) (eval_statements numerics eval exec nodes s)
  unfolding eval_statements well_built jumps_in_loops always_returns
  eval_statements-Good inside nil s w j = Good-pure _ s refl
  eval_statements-Good inside (cons node nodes) s w j =
      let a = always_returns node in
      let b = any_returns nodes in
      Good-bind (exec node s) _ (exec-Good inside node s (and_left _ _ w) (and_left _ _ j))
        λ flow t h.
          Good-if (not (is_ok flow) || t.had_error) _ _ t
            (λ e. Good-pure flow t (allowed-stops inside a b flow t.had_error h e))
            (λ e.
              let rest = eval_statements-Good inside nodes t (and_right _ _ w) (and_right _ _ j) in
              let same = allowed-goes_on inside a b flow t.had_error h e in
              subst (λ r. Good (allowed inside r) (eval_statements numerics eval exec nodes t)) same
                rest)

  -- The `else` of an `if`, where there is one.
  abbrev else_returns : AstNode → Bool
  else_returns node = not (is_null node) && always_returns node

  eval_else-Good :
      (inside : Bool) (node : AstNode) (s : Interp numerics.Double)
      → (is_null node || well_built node) ≡ true
      → jumps_in_loops inside node ≡ true
      → Good (allowed inside (else_returns node)) (eval_else numerics eval exec node s)
  unfolding is_null
  eval_else-Good inside null s w j = Good-pure _ s refl
  eval_else-Good inside node s w j = exec-Good inside node s w j

  eval_branches-Good :
      (inside : Bool) (nodes : AstNodeList) (else_block : AstNode) (s : Interp numerics.Double)
      → branches_built nodes ≡ true
      → (is_null else_block || well_built else_block) ≡ true
      → branches_in_loops inside nodes ≡ true
      → jumps_in_loops inside else_block ≡ true
      → Good
          (allowed inside (all_return nodes && else_returns else_block))
          (eval_branches numerics eval exec nodes else_block s)
  unfolding eval_branches well_built jumps_in_loops always_returns
  eval_branches-Good inside nil else_block s w v j k = eval_else-Good inside else_block s v k
  eval_branches-Good inside (cons (cond_branch line condition body) branches) else_block s w v j k =
      let rest = all_return branches in
      let last = else_returns else_block in
      Good-then (eval condition s) _ λ value t.
        Good-if (is_truthy value) _ _ t
          (λ e.
            Good-map (exec body t) (exec-Good inside body t (and_left _ _ w) (and_left _ _ j))
              λ flow err h.
                allowed-weaken inside (always_returns body) _ flow err h
                  (λ r. and_left _ rest (and_left _ last r)))
          (λ e.
            Good-map (eval_branches numerics eval exec branches else_block t)
              (eval_branches-Good inside branches else_block t (and_right _ _ w) v (and_right _ _ j)
                k)
              λ flow err h.
                allowed-weaken inside (rest && last) _ flow err h
                  (and_drop (always_returns body) rest last))
  eval_branches-Good inside (cons _ branches) else_block s w v j k = absurd (ground (arith, w))

  -- Behind a round of a loop.
  after_round-Good :
      (inside returns : Bool) (again : I numerics.Double Flow) (flow : Flow)
      (s : Interp numerics.Double)
      → allowed true returns flow s.had_error ≡ true
      → Good (allowed inside false) (again s)
      → Good (allowed inside false) (after_round numerics eval exec again flow s)
  after_round-Good inside returns again flow_ok s h g = g
  after_round-Good inside returns again flow_push s h g = g
  after_round-Good inside returns again flow_snap s h g = Good-pure _ s refl
  after_round-Good inside returns again flow_yield s h g = Good-pure _ s refl
  after_round-Good inside returns again flow_error s h g = Good-pure _ s h

  module _ (inside : Bool) (body : AstNode) (w : well_built body ≡ true)
      (j : jumps_in_loops true body ≡ true) where
    -- The body of a loop, and what follows it.
    round-Good :
        (again : I numerics.Double Flow) (s : Interp numerics.Double)
        → ((t : Interp numerics.Double) → Good (allowed inside false) (again t))
        → Good
            (allowed inside false)
            (continue_with (exec body s) (λ flow. after_round numerics eval exec again flow))
    round-Good again s g =
        Good-bind (exec body s) _ (exec-Good true body s w j)
          λ flow t h. after_round-Good inside (always_returns body) again flow t h (g t)

    hold_loop-Good :
        (fuel : ℕ) (condition : AstNode) (s : Interp numerics.Double)
        → Good (allowed inside false) (hold_loop numerics eval exec fuel condition body s)
    unfolding hold_loop
    hold_loop-Good zero condition s = Good-out_of_fuel
    hold_loop-Good (suc fuel) condition s =
        Good-then (goes_on numerics eval exec condition s) _ λ holds t.
          Good-if holds _ _ t (λ e. round-Good _ t (hold_loop-Good fuel condition))
            (λ e. Good-pure _ t refl)

    press_loop-Good :
        (fuel : ℕ) (condition : AstNode) (s : Interp numerics.Double)
        → Good (allowed inside false) (press_loop numerics eval exec fuel body condition s)
    unfolding press_loop
    press_loop-Good zero condition s = Good-out_of_fuel
    press_loop-Good (suc fuel) condition s = round-Good _ s λ t.
        Good-then (goes_on numerics eval exec condition t) _ λ holds u.
          Good-if holds _ _ u (λ e. press_loop-Good fuel condition u) (λ e. Good-pure _ u refl)

    step_assign-Good :
        (step : AstNode) (s : Interp numerics.Double)
        → is_assign step ≡ true
        → Good (allowed inside false) (exec step s)
    unfolding is_assign well_built jumps_in_loops always_returns
    step_assign-Good (assign line target value) s e =
        exec-Good inside (assign line target value) s refl refl
    step_assign-Good _ s e = absurd (ground (arith, e))

    drive_step-Good :
        (again : I numerics.Double Flow) (step : AstNode) (s : Interp numerics.Double)
        → ((t : Interp numerics.Double) → Good (allowed inside false) (again t))
        → Good (allowed inside false) (drive_step numerics eval exec again step s)
    drive_step-Good again step s g =
        Good-if (is_assign step) _ _ s
          (λ e.
            Good-bind (exec step s) _ (step_assign-Good step s e)
              λ flow t h. Good-if (is_ok flow) _ _ t (λ o. g t) (λ o. Good-pure flow t h))
          (λ e. Good-then (eval step s) _ λ value t. g t)

    drive_loop-Good :
        (fuel : ℕ) (condition step : AstNode) (s : Interp numerics.Double)
        → Good (allowed inside false) (drive_loop numerics eval exec fuel condition step body s)
    unfolding drive_loop
    drive_loop-Good zero condition step s = Good-out_of_fuel
    drive_loop-Good (suc fuel) condition step s =
        Good-then (goes_on numerics eval exec condition s) _ λ holds t.
          Good-if holds _ _ t
            (λ e.
              round-Good _ t λ u. drive_step-Good _ step u (drive_loop-Good fuel condition step))
            (λ e. Good-pure _ t refl)

    init-Good :
        (init : AstNode) (s : Interp numerics.Double)
        → is_var_decl init ≡ true
        → Good (allowed inside false) (exec init s)
    unfolding is_var_decl well_built jumps_in_loops always_returns
    init-Good (var_decl line is_const depth type record_name name initializer) s e =
        exec-Good inside (var_decl line is_const depth type record_name name initializer) s refl
          refl
    init-Good _ s e = absurd (ground (arith, e))

    drive_rounds-Good :
        (fuel : ℕ) (init condition step : AstNode) (s : Interp numerics.Double)
        → is_var_decl init ≡ true
        → Good
            (allowed inside false)
            (drive_rounds numerics eval exec fuel init condition step body s)
    drive_rounds-Good fuel init condition step s e =
        Good-bind (exec init s) _ (init-Good init s e) λ flow t h.
          Good-if (is_ok flow && not t.had_error) _ _ t (λ o. drive_loop-Good fuel condition step t)
            (λ o. Good-pure flow t h)

    sweep_round-Good :
        (again : I numerics.Double Flow) (i : ℕ) (items : Option (Values numerics.Double))
        (s : Interp numerics.Double)
        → ((t : Interp numerics.Double) → Good (allowed inside false) (again t))
        → Good (allowed inside false) (sweep_round numerics eval exec again body i items s)
    sweep_round-Good again i none s g = Good-undefined
    sweep_round-Good again i (some items) s g = item (value_at items i)
      where
        item :
            (v : Option (Value numerics.Double))
            → Good (allowed inside false) (sweep_item numerics eval exec again body v s)
        item none = Good-pure _ s refl
        item (some v) = Good-then (set_element v s) _ λ u t. round-Good again t g

    sweep_loop-Good :
        (fuel i : ℕ) (collection : Bytes) (s : Interp numerics.Double)
        → Good (allowed inside false) (sweep_loop numerics eval exec fuel i collection body s)
    unfolding sweep_loop
    sweep_loop-Good zero i collection s = Good-out_of_fuel
    sweep_loop-Good (suc fuel) i collection s =
        sweep_round-Good _ i _ s (sweep_loop-Good fuel (suc i) collection)

    sweep_over-Good :
        (fuel line : ℕ) (element collection : Bytes) (items : Option (Values numerics.Double))
        (s : Interp numerics.Double)
        → Good
            (allowed inside false)
            (sweep_over numerics eval exec fuel line element collection body items s)
    sweep_over-Good fuel line element collection none s = Good-failing _ line s refl
    sweep_over-Good fuel line element collection (some items) s = Good-scoped _ s λ t.
        Good-then (env_define element false val_void t) _ λ u v. sweep_loop-Good fuel 0 collection v

  assigned-Good :
      (value : Value numerics.Double) (slot : Option Slot) (s : Interp numerics.Double)
      → got slot s.had_error ≡ true
      → Good (allowed false false) (assigned numerics eval exec value slot s)
  assigned-Good value none s h = Good-pure _ s h
  assigned-Good value (some slot) s h = Good-then (store slot value s) _ λ u t. Good-pure _ t refl

  stmt_of-Good :
      (inside : Bool) (fuel : ℕ) (node : AstNode) (s : Interp numerics.Double)
      → well_built node ≡ true
      → jumps_in_loops inside node ≡ true
      → Good (allowed inside (always_returns node)) (stmt_of numerics eval exec fuel node s)
  unfolding stmt_of eval_block well_built jumps_in_loops always_returns
  stmt_of-Good inside fuel (var_decl line is_const depth type record_name name initializer) s w j =
      Good-then (eval initializer s) _
        λ value t. Good-then (env_define name is_const value t) _ λ u v. Good-pure flow_ok v refl
  stmt_of-Good inside fuel (block line statements) s w j =
      Good-scoped _ s λ t. eval_statements-Good inside statements t w j
  stmt_of-Good inside fuel (if_stmt line branches else_block) s w j =
      let r =
        eval_branches-Good inside branches else_block s (and_left _ _ w) (and_right _ _ w)
          (and_left _ _ j) (and_right _ _ j) in
      let same =
        if_returns (is_null else_block) (all_return branches) (always_returns else_block) in
      subst (λ b. Good (allowed inside b) (eval_branches numerics eval exec branches else_block s))
        same r
  stmt_of-Good inside fuel (hold_stmt line condition body) s w j =
      hold_loop-Good inside body w j fuel condition s
  stmt_of-Good inside fuel (press_stmt line body condition) s w j =
      press_loop-Good inside body w j fuel condition s
  stmt_of-Good inside fuel (drive_stmt line init condition step body) s w j = Good-scoped _ s λ t.
      drive_rounds-Good inside body (and_right _ _ w) j fuel init condition step t (and_left _ _ w)
  stmt_of-Good inside fuel (sweep_stmt line type record_name element collection body) s w j =
      sweep_over-Good inside body w j fuel line element collection _ s
  stmt_of-Good inside fuel (snap_stmt line) s w j = Good-pure flow_snap s j
  stmt_of-Good inside fuel (push_stmt line) s w j = Good-pure flow_push s j
  stmt_of-Good inside fuel (yield_stmt line node) s w j =
      Good-then (yielded numerics eval exec node s) _
        λ value t. Good-then (set_yield value t) _ λ u v. Good-pure flow_yield v refl
  stmt_of-Good inside fuel (shout_stmt line node) s w j = Good-then (eval node s) _ λ value t.
      Good-if t.had_error _ _ t (λ e. Good-pure flow_ok t refl)
        (λ e. Good-then (print_line _ t) _ λ u v. Good-pure flow_ok v refl)
  stmt_of-Good inside fuel (assign line target node) s w j = Good-then (eval node s) _ λ value t.
      Good-bind (resolve_assignment_target eval target t) _
        (resolve_assignment_target-Good eval target t)
        λ slot u h.
          Good-map (assigned numerics eval exec value slot u) (assigned-Good value slot u h)
            λ flow err g. allowed-outside inside false flow err g
  stmt_of-Good inside fuel (expr_stmt line node) s w j =
      Good-then (eval node s) _ λ value t. Good-pure flow_ok t refl
  stmt_of-Good inside fuel null s w j = absurd (ground (arith, w))
  stmt_of-Good inside fuel node s w j = Good-failing flow_error _ s refl

  exec_of-Good :
      (inside : Bool) (fuel : ℕ) (node : AstNode) (s : Interp numerics.Double)
      → well_built node ≡ true
      → jumps_in_loops inside node ≡ true
      → Good (allowed inside (always_returns node)) (exec_of numerics eval exec fuel node s)
  unfolding exec_of
  exec_of-Good inside fuel node s w j =
      Good-if (s.had_error || is_null_node node) _ _ s
        (λ e.
          Good-pure flow_error s
            (present s.had_error (is_null_node node) (built-is_null_node node w) e))
        (λ e. stmt_of-Good inside fuel node s w j)

eval_stmt-Good :
    (numerics : Numerics) (fuel : ℕ) (inside : Bool) (node : AstNode) (s : Interp numerics.Double)
    → well_built node ≡ true
    → jumps_in_loops inside node ≡ true
    → Good (allowed inside (always_returns node)) (eval_stmt numerics fuel node s)
unfolding eval_expr
eval_stmt-Good numerics zero inside node s w j = Good-out_of_fuel
eval_stmt-Good numerics (suc fuel) inside node s w j =
    exec_of-Good numerics (eval_expr numerics fuel) (eval_stmt numerics fuel)
      (eval_stmt-Good numerics fuel) inside fuel node s w j

-- Where a statement as the parser builds it, with its jumps in loops, ends: by `snap` or `push` only
-- inside a loop, by falling through only with an error or where it does not yield on every path, and by
-- an error only with the flag of errors set.
pub eval_stmt-allowed :
    (numerics : Numerics) (fuel : ℕ) (inside : Bool) (node : AstNode) (s t : Interp numerics.Double)
    (flow : Flow)
    → well_built node ≡ true
    → jumps_in_loops inside node ≡ true
    → eval_stmt numerics fuel node s ≡ done flow t
    → allowed inside (always_returns node) flow t.had_error ≡ true
eval_stmt-allowed numerics fuel inside node s t flow w j e = Good-holds (
    subst (Good (allowed inside (always_returns node))) e
      (eval_stmt-Good numerics fuel inside node s w j))
