-- ===== src/Runtime/Expr.antt =====
-- src/runtime/interp.c: `call_function`, `eval_expr` and `resolve_assignment_target`, over the
-- evaluation of the parts and the execution of a body, which have less fuel.
use kratos_lang.Prelude.{
  ℕ, Bool, true, false, not, Bytes, codes, bytes_eq, List, [], ◌∷◌, Option, none, some, ◌==◌, ◌||◌,
  if◌then◌else◌,
}
use kratos_lang.Lexer.Token.{TokenType, token_and, token_or}
use kratos_lang.Ast.{
  AstNode, AstNodeList, nil, cons, null, count, line_of, param, func_decl, literal_int,
  literal_float, literal_bool, literal_char, literal_string, identifier_expr, unary_expr,
  binary_expr, call_expr, array_literal, index_expr, record_literal, field_init, member_expr,
}
use kratos_lang.Runtime.Value.{
  Numerics, Value, Values, Fields, no_values, more_values, no_fields, more_fields, val_int,
  val_float, val_bool, val_char, val_string, val_void, val_array, val_record, is_truthy,
}
use kratos_lang.Runtime.State.{
  Binding, Flow, flow_yield, I, done, ◌>>=◌, ◌>>◌, pure, get, undefined_behaviour, failing,
  env_find, find_function, leave_env,
}
use kratos_lang.Runtime.Operators.{binary_operation, unary_operation}
use kratos_lang.Runtime.Builtins.{
  element_type_of, len, slice_value, index_value, member_value, convert,
}

abbrev pub is_null_node : AstNode → Bool
is_null_node null = true
is_null_node _ = false

module _ {F : Type 0} where
  unfoldable pub enter_frame : List (Binding F) → I F (Unit {0})
  enter_frame frame interp = done tt (record interp { env = frame ∷ interp.env })

  -- The value of a `yield`, taken out of the state.
  unfoldable pub take_yield : Flow → I F (Value F)
  take_yield flow_yield interp = done interp.yield_value (record interp { yield_value = val_void })
  take_yield _ interp = done val_void interp

  abbrev pub variable : ℕ → Option (Binding F) → I F (Value F)
  variable line (some binding) = pure binding.value
  variable line none = failing line val_void

module _ (numerics : Numerics) (eval : AstNode → I numerics.Double (Value numerics.Double))
    (exec : AstNode → I numerics.Double Flow) where
  abbrev F : Type 0
  F = numerics.Double

  -- The frame of a call, or nothing where an argument is in error. Each argument is evaluated in the
  -- environment of the caller.
  unfoldable pub bind_arguments :
      AstNodeList → AstNodeList → List (Binding F) → I F (Option (List (Binding F)))
  bind_arguments (cons (param line type depth record_name name) params) (cons arg args) frame = do
    value ← eval arg
    interp ← get
    if interp.had_error
        then pure none
        else bind_arguments params args
            (record { name = name; is_const = false; value = value } ∷ frame)
  bind_arguments nil nil frame = pure (some frame)
  bind_arguments _ _ frame = undefined_behaviour

  abbrev pub run_body : AstNode → Option (List (Binding F)) → I F (Value F)
  run_body body none = pure val_void
  run_body body (some frame) = do enter_frame frame; flow ← exec body; leave_env; take_yield flow

  unfoldable pub call_function : AstNode → AstNodeList → ℕ → I F (Value F)
  unfolding bind_arguments take_yield enter_frame leave_env count
  call_function (func_decl _ _ _ _ params body) args line =
      if not (count args == count params)
      then failing line val_void
      else (do frame ← bind_arguments params args []; run_body body frame)
  call_function _ args line = undefined_behaviour

  abbrev pub call_found : Option AstNode → AstNodeList → ℕ → I F (Value F)
  call_found none args line = failing line val_void
  call_found (some func) args line = call_function func args line

  abbrev pub len_call : ℕ → AstNodeList → I F (Value F)
  len_call line (cons a nil) = do argument ← eval a; len line argument
  len_call line _ = failing line val_void

  abbrev pub slice_call : ℕ → AstNodeList → I F (Value F)
  slice_call line (cons a (cons b (cons c nil))) = do
    source ← eval a
    start ← eval b
    end ← eval c
    slice_value line source start end
  slice_call line _ = failing line val_void

  abbrev pub conversion_call : Bytes → ℕ → AstNodeList → I F (Value F)
  conversion_call callee line (cons a nil) = do
    argument ← eval a
    convert numerics callee line argument
  conversion_call callee line _ = failing line val_void

  unfoldable pub call_named : ℕ → Bytes → AstNodeList → I F (Value F)
  unfolding bytes_eq
  call_named line callee args =
      if bytes_eq callee (codes "len")
      then len_call line args
      else if bytes_eq callee (codes "slice")
      then slice_call line args
      else if bytes_eq callee (codes "to_string")
          || bytes_eq callee (codes "to_int")
          || bytes_eq callee (codes "to_float")
      then conversion_call callee line args
      else (do interp ← get; call_found (find_function interp.functions callee) args line)

  unfoldable pub eval_items : AstNodeList → I F (Values F)
  eval_items nil = pure no_values
  eval_items (cons node nodes) = do
    value ← eval node
    values ← eval_items nodes
    pure (more_values value values)

  unfoldable pub eval_fields : AstNodeList → I F (Fields F)
  eval_fields nil = pure no_fields
  eval_fields (cons (field_init line name node) nodes) = do
    value ← eval node
    rest ← eval_fields nodes
    pure (more_fields name value rest)
  eval_fields (cons _ nodes) = undefined_behaviour

  -- The right operand of `&&` and `||`, where it is needed.
  abbrev pub truth_of : AstNode → I F (Value F)
  truth_of node = do value ← eval node; pure (val_bool (is_truthy value))

  abbrev pub eager_binary : ℕ → TokenType → Value F → AstNode → I F (Value F)
  eager_binary line op left right_node = do
    right ← eval right_node
    interp ← get
    if interp.had_error then pure val_void else binary_operation numerics line op left right

  unfoldable pub after_left : ℕ → TokenType → Value F → AstNode → I F (Value F)
  after_left line token_and left right =
      if is_truthy left then truth_of right else pure (val_bool false)
  after_left line token_or left right =
      if is_truthy left then pure (val_bool true) else truth_of right
  after_left line op left right = eager_binary line op left right

  -- The `switch` of `eval_expr`.
  unfoldable pub expr_of : AstNode → I F (Value F)
  unfolding call_named eval_items eval_fields after_left env_find
  expr_of (literal_int line n) = pure (val_int n)
  expr_of (literal_float line text) = pure (val_float (numerics.strtod_prefix text))
  expr_of (literal_bool line b) = pure (val_bool b)
  expr_of (literal_char line c) = pure (val_char c)
  expr_of (literal_string line text) = pure (val_string text)
  expr_of (identifier_expr line name) = do interp ← get; variable line (env_find interp.env name)
  expr_of (unary_expr line op node) = do
    operand ← eval node
    unary_operation numerics line op operand
  expr_of (binary_expr line op l r) = do
    left ← eval l
    interp ← get
    if interp.had_error then pure val_void else after_left line op left r
  expr_of (call_expr line callee args) = call_named line callee args
  expr_of (array_literal line nodes) = do
    items ← eval_items nodes
    pure (val_array (element_type_of items) items)
  expr_of (index_expr line a i) = do array ← eval a; index ← eval i; index_value line array index
  expr_of (record_literal line name nodes) = do
    values ← eval_fields nodes
    pure (val_record name values)
  expr_of (member_expr line target member) = do value ← eval target; member_value line member value
  expr_of node = failing (line_of node) val_void

  -- The body of `eval_expr`.
  unfoldable pub eval_of : AstNode → I F (Value F)
  unfolding expr_of
  eval_of node = do
    interp ← get
    if interp.had_error || is_null_node node then pure val_void else expr_of node
