-- ===== src/Runtime/ExprLeaves.antt =====
-- What the expressions of src/runtime/interp.c keep of the state.
use kratos_lang.Prelude.{
  ℕ, not, Bytes, codes, bytes_eq, List, [], ◌∷◌, Option, none, some, ◌==◌, ◌||◌,
}
use kratos_lang.Lexer.Token.{TokenType, token_and, token_or}
use kratos_lang.Ast.{
  AstNode, AstNodeList, nil, cons, count, param, func_decl, literal_int, literal_float,
  literal_bool, literal_char, literal_string, identifier_expr, unary_expr, binary_expr, call_expr,
  array_literal, index_expr, record_literal, field_init, member_expr,
}
use kratos_lang.Runtime.Value.{Numerics, Value, is_truthy}
use kratos_lang.Runtime.State.{Binding, Flow, I, env_find, find_function}
use kratos_lang.Runtime.Expr.{
  after_left, bind_arguments, call_found, call_function, call_named, conversion_call, eager_binary,
  enter_frame, eval_fields, eval_items, eval_of, expr_of, is_null_node, len_call, run_body,
  slice_call, take_yield, truth_of,
}
use kratos_lang.Runtime.Behind.{
  Ends-inside, Leaves, Leaves-bind, Leaves-failing, Leaves-get, Leaves-if, Leaves-pure,
  Leaves-undefined, Leaves-Ends, leaves,
}
use kratos_lang.Runtime.OperationLeaves.{
  Leaves-binary_operation, Leaves-convert, Leaves-index_value, Leaves-len, Leaves-member_value,
  Leaves-slice_value, Leaves-take_yield, Leaves-unary_operation, Leaves-variable,
}

module _ (numerics : Numerics) (eval : AstNode → I numerics.Double (Value numerics.Double))
    (exec : AstNode → I numerics.Double Flow) (Leaves-eval : (node : AstNode) → Leaves (eval node))
    (Leaves-exec : (node : AstNode) → Leaves (exec node)) where
  Leaves-bind_arguments :
      (params args : AstNodeList) (frame : List (Binding numerics.Double))
      → Leaves (bind_arguments numerics eval exec params args frame)
  unfolding bind_arguments
  Leaves-bind_arguments (cons (param line type depth record_name name) params) (cons arg args)
        frame =
      Leaves-bind (Leaves-eval arg) λ value.
        Leaves-get λ s. Leaves-if s.had_error (Leaves-pure _) (Leaves-bind_arguments params args _)
  Leaves-bind_arguments nil nil frame = Leaves-pure _
  Leaves-bind_arguments _ _ frame = Leaves-undefined

  Leaves-run_body :
      (body : AstNode) (frame : Option (List (Binding numerics.Double)))
      → Leaves (run_body numerics eval exec body frame)
  unfolding enter_frame
  Leaves-run_body body none = Leaves-pure _
  Leaves-run_body body (some frame) = leaves λ s.
      Ends-inside s frame (exec body (record s { env = frame ∷ s.env })) take_yield
        (Leaves-Ends (Leaves-exec body) _) Leaves-take_yield

  pub Leaves-call_function :
      (func : AstNode) (args : AstNodeList) (line : ℕ)
      → Leaves (call_function numerics eval exec func args line)
  unfolding call_function
  Leaves-call_function (func_decl _ _ _ _ params body) args line =
      Leaves-if (not (count args == count params)) (Leaves-failing line _)
        (Leaves-bind (Leaves-bind_arguments params args []) λ frame. Leaves-run_body body frame)
  Leaves-call_function _ args line = Leaves-undefined

  Leaves-call_found :
      (func : Option AstNode) (args : AstNodeList) (line : ℕ)
      → Leaves (call_found numerics eval exec func args line)
  Leaves-call_found none args line = Leaves-failing line _
  Leaves-call_found (some func) args line = Leaves-call_function func args line

  Leaves-len_call : (line : ℕ) (args : AstNodeList) → Leaves (len_call numerics eval exec line args)
  Leaves-len_call line (cons a nil) = Leaves-bind (Leaves-eval a) λ v. Leaves-len line v
  Leaves-len_call line _ = Leaves-failing line _

  Leaves-slice_call :
      (line : ℕ) (args : AstNodeList) → Leaves (slice_call numerics eval exec line args)
  Leaves-slice_call line (cons a (cons b (cons c nil))) = Leaves-bind (Leaves-eval a) λ source.
      Leaves-bind (Leaves-eval b)
        λ start. Leaves-bind (Leaves-eval c) λ end. Leaves-slice_value line source start end
  Leaves-slice_call line _ = Leaves-failing line _

  Leaves-conversion_call :
      (callee : Bytes) (line : ℕ) (args : AstNodeList)
      → Leaves (conversion_call numerics eval exec callee line args)
  Leaves-conversion_call callee line (cons a nil) =
      Leaves-bind (Leaves-eval a) λ v. Leaves-convert numerics callee line v
  Leaves-conversion_call callee line _ = Leaves-failing line _

  Leaves-call_named :
      (line : ℕ) (callee : Bytes) (args : AstNodeList)
      → Leaves (call_named numerics eval exec line callee args)
  unfolding call_named
  Leaves-call_named line callee args =
      Leaves-if (bytes_eq callee (codes "len")) (Leaves-len_call line args) (
        Leaves-if (bytes_eq callee (codes "slice")) (Leaves-slice_call line args) (
          Leaves-if _ (Leaves-conversion_call callee line args)
            (Leaves-get λ s. Leaves-call_found (find_function s.functions callee) args line)))

  Leaves-eval_items : (nodes : AstNodeList) → Leaves (eval_items numerics eval exec nodes)
  unfolding eval_items
  Leaves-eval_items nil = Leaves-pure _
  Leaves-eval_items (cons node nodes) =
      Leaves-bind (Leaves-eval node) λ v. Leaves-bind (Leaves-eval_items nodes) λ vs. Leaves-pure _

  Leaves-eval_fields : (nodes : AstNodeList) → Leaves (eval_fields numerics eval exec nodes)
  unfolding eval_fields
  Leaves-eval_fields nil = Leaves-pure _
  Leaves-eval_fields (cons (field_init line name node) nodes) =
      Leaves-bind (Leaves-eval node) λ v. Leaves-bind (Leaves-eval_fields nodes) λ vs. Leaves-pure _
  Leaves-eval_fields (cons _ nodes) = Leaves-undefined

  Leaves-truth_of : (node : AstNode) → Leaves (truth_of numerics eval exec node)
  Leaves-truth_of node = Leaves-bind (Leaves-eval node) λ v. Leaves-pure _

  Leaves-eager_binary :
      (line : ℕ) (op : TokenType) (left : Value numerics.Double) (right : AstNode)
      → Leaves (eager_binary numerics eval exec line op left right)
  Leaves-eager_binary line op left right = Leaves-bind (Leaves-eval right) λ v.
      Leaves-get
        λ s. Leaves-if s.had_error (Leaves-pure _) (Leaves-binary_operation numerics line op left v)

  Leaves-after_left :
      (line : ℕ) (op : TokenType) (left : Value numerics.Double) (right : AstNode)
      → Leaves (after_left numerics eval exec line op left right)
  unfolding after_left
  Leaves-after_left line token_and left right =
      Leaves-if (is_truthy left) (Leaves-truth_of right) (Leaves-pure _)
  Leaves-after_left line token_or left right =
      Leaves-if (is_truthy left) (Leaves-pure _) (Leaves-truth_of right)
  Leaves-after_left line op left right = Leaves-eager_binary line op left right

  Leaves-expr_of : (node : AstNode) → Leaves (expr_of numerics eval exec node)
  unfolding expr_of
  Leaves-expr_of (literal_int line n) = Leaves-pure _
  Leaves-expr_of (literal_float line text) = Leaves-pure _
  Leaves-expr_of (literal_bool line b) = Leaves-pure _
  Leaves-expr_of (literal_char line c) = Leaves-pure _
  Leaves-expr_of (literal_string line text) = Leaves-pure _
  Leaves-expr_of (identifier_expr line name) =
      Leaves-get λ s. Leaves-variable line (env_find s.env name)
  Leaves-expr_of (unary_expr line op node) =
      Leaves-bind (Leaves-eval node) λ v. Leaves-unary_operation numerics line op v
  Leaves-expr_of (binary_expr line op l r) =
      Leaves-bind (Leaves-eval l)
        λ v. Leaves-get λ s. Leaves-if s.had_error (Leaves-pure _) (Leaves-after_left line op v r)
  Leaves-expr_of (call_expr line callee args) = Leaves-call_named line callee args
  Leaves-expr_of (array_literal line nodes) =
      Leaves-bind (Leaves-eval_items nodes) λ vs. Leaves-pure _
  Leaves-expr_of (index_expr line a i) =
      Leaves-bind (Leaves-eval a) λ v. Leaves-bind (Leaves-eval i) λ w. Leaves-index_value line v w
  Leaves-expr_of (record_literal line name nodes) =
      Leaves-bind (Leaves-eval_fields nodes) λ vs. Leaves-pure _
  Leaves-expr_of (member_expr line target member) =
      Leaves-bind (Leaves-eval target) λ v. Leaves-member_value line member v
  Leaves-expr_of node = Leaves-failing _ _

  pub Leaves-eval_of : (node : AstNode) → Leaves (eval_of numerics eval exec node)
  unfolding eval_of
  Leaves-eval_of node =
      Leaves-get
        λ s. Leaves-if (s.had_error || is_null_node node) (Leaves-pure _) (Leaves-expr_of node)
