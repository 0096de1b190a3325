-- ===== src/Runtime/OperationLeaves.antt =====
-- What the operations of src/runtime/interp.c on values keep of the state.
use kratos_lang.Prelude.{ℕ, refl, Bytes, codes, bytes_eq, [], Option, none, some, ◌||◌, ltb, length}
use kratos_lang.Prelude.Int.{ℤ, pos}
use kratos_lang.Lexer.Token.{
  TokenType, token_equal, token_minus, token_not, token_not_equal, token_percent, token_plus,
  token_slash, token_star,
}
use kratos_lang.Runtime.Numbers.{neg, ◌+ℤ◌, ◌-ℤ◌, ◌*ℤ◌, fits, quotient, int_equal}
use kratos_lang.Runtime.Value.{
  val_bool, val_char, Numerics, Value, val_array, val_float, val_int, val_record, val_string,
  values_count,
}
use kratos_lang.Runtime.State.{Binding, Flow, flow_yield}
use kratos_lang.Runtime.Operators.{
  Operands, addresses, arithmetic, binary_operation, checked, compare_operands, float_operation,
  floats, int_operation, ints, is_relational, negated, numeric_binary, unary_operation,
}
use kratos_lang.Runtime.Builtins.{
  buffered, to_string, int_or_error, truncated, to_int, float_or_error, to_float, convert,
  index_value, is_void, item_or_error, len, member_value, slice_value, sliced,
}
use kratos_lang.Runtime.Expr.{take_yield, variable}
use kratos_lang.Runtime.Behind.{
  Behind-report, Behind-refl, Leaves, Leaves-bind, Leaves-failing, Leaves-get, Leaves-if,
  Leaves-no_fuel, Leaves-pure, Leaves-then, Leaves-undefined, leaves,
}

pub ruleset leaving = (
  Leaves-bind, Leaves-then, Leaves-pure, Leaves-get, Leaves-if, Leaves-failing, Leaves-undefined,
  Leaves-no_fuel,
)

module _ {F : Type 0} where
  Leaves-checked : (n : ℤ) → Leaves {F = F} (checked n)
  unfolding checked
  Leaves-checked n = Leaves-if (fits n) (Leaves-pure _) Leaves-undefined

  Leaves-item_or_error : (line : ℕ) (v : Option (Value F)) → Leaves (item_or_error line v)
  Leaves-item_or_error line none = Leaves-failing line _
  Leaves-item_or_error line (some v) = Leaves-pure v

  pub Leaves-len : (line : ℕ) (v : Value F) → Leaves (len line v)
  unfolding len
  Leaves-len line (val_string text) = Leaves-pure _
  Leaves-len line (val_array type items) = Leaves-pure _
  Leaves-len line _ = Leaves-failing line _

  Leaves-sliced : (line : ℕ) (v : Value F) (start end : ℕ) → Leaves (sliced line v start end)
  Leaves-sliced line (val_string text) start end =
      Leaves-if (ltb (length text) end) (Leaves-failing line _) (Leaves-pure _)
  Leaves-sliced line (val_array type items) start end =
      Leaves-if (is_void type || ltb (values_count items) end) (Leaves-failing line _)
        (Leaves-pure _)
  Leaves-sliced line _ start end = Leaves-failing line _

  pub Leaves-slice_value : (line : ℕ) (v a b : Value F) → Leaves (slice_value line v a b)
  unfolding slice_value
  Leaves-slice_value line v (val_int (pos a)) (val_int (pos b)) =
      Leaves-if (ltb b a) (Leaves-failing line _) (Leaves-sliced line v a b)
  Leaves-slice_value line v _ _ = Leaves-failing line _

  pub Leaves-index_value : (line : ℕ) (v i : Value F) → Leaves (index_value line v i)
  unfolding index_value
  Leaves-index_value line (val_array type items) (val_int (pos i)) = Leaves-item_or_error line _
  Leaves-index_value line _ _ = Leaves-failing line _

  pub Leaves-member_value :
      (line : ℕ) (member : Bytes) (v : Value F) → Leaves (member_value line member v)
  unfolding member_value
  Leaves-member_value line member (val_record name members) = Leaves-item_or_error line _
  Leaves-member_value line member _ = Leaves-failing line _

  pub Leaves-take_yield : (flow : Flow) → Leaves {F = F} (take_yield flow)
  unfolding take_yield
  Leaves-take_yield flow_yield = leaves λ s. Behind-report s _ [] refl refl (λ e. e) refl
  Leaves-take_yield _ = leaves λ s. Behind-refl s

  pub Leaves-variable : (line : ℕ) (b : Option (Binding F)) → Leaves (variable line b)
  Leaves-variable line none = Leaves-failing line _
  Leaves-variable line (some b) = Leaves-pure _

module _ (numerics : Numerics) where
  Leaves-compare_operands :
      (op : TokenType) (o : Operands numerics) → Leaves (compare_operands numerics op o)
  Leaves-compare_operands op (floats x y) = Leaves-pure _
  Leaves-compare_operands op (ints a b) = Leaves-pure _
  Leaves-compare_operands op addresses = Leaves-undefined

  Leaves-float_operation :
      (line : ℕ) (op : TokenType) (x y : numerics.Double)
      → Leaves (float_operation numerics line op x y)
  unfolding float_operation
  Leaves-float_operation line token_plus x y = Leaves-pure _
  Leaves-float_operation line token_minus x y = Leaves-pure _
  Leaves-float_operation line token_star x y = Leaves-pure _
  Leaves-float_operation line token_slash x y =
      Leaves-if (numerics.float_equal y numerics.float_zero) (Leaves-failing line _) (Leaves-pure _)
  Leaves-float_operation line _ x y = Leaves-pure _

  Leaves-int_operation :
      (line : ℕ) (op : TokenType) (a b : ℤ) → Leaves (int_operation numerics line op a b)
  unfolding int_operation
  Leaves-int_operation line token_plus a b = Leaves-checked (a +ℤ b)
  Leaves-int_operation line token_minus a b = Leaves-checked (a -ℤ b)
  Leaves-int_operation line token_star a b = Leaves-checked (a *ℤ b)
  Leaves-int_operation line token_slash a b =
      Leaves-if (int_equal b (pos 0)) (Leaves-failing line _) (Leaves-checked (quotient a b))
  Leaves-int_operation line token_percent a b =
      Leaves-if (int_equal b (pos 0)) (Leaves-failing line _)
        (Leaves-if (fits (quotient a b)) (Leaves-pure _) Leaves-undefined)
  Leaves-int_operation line _ a b = Leaves-pure _

  Leaves-arithmetic :
      (line : ℕ) (op : TokenType) (o : Operands numerics) → Leaves (arithmetic numerics line op o)
  Leaves-arithmetic line op (floats x y) = Leaves-float_operation line op x y
  Leaves-arithmetic line op (ints a b) = Leaves-int_operation line op a b
  Leaves-arithmetic line op addresses = Leaves-undefined

  Leaves-numeric_binary :
      (line : ℕ) (op : TokenType) (l r : Value numerics.Double)
      → Leaves (numeric_binary numerics line op l r)
  Leaves-numeric_binary line op l r =
      Leaves-if (is_relational op) (Leaves-compare_operands op _) (Leaves-arithmetic line op _)

  pub Leaves-binary_operation :
      (line : ℕ) (op : TokenType) (l r : Value numerics.Double)
      → Leaves (binary_operation numerics line op l r)
  unfolding binary_operation
  Leaves-binary_operation line token_plus (val_string a) (val_string b) = Leaves-pure _
  Leaves-binary_operation line token_equal l r = Leaves-pure _
  Leaves-binary_operation line token_not_equal l r = Leaves-pure _
  Leaves-binary_operation line op l r = Leaves-numeric_binary line op l r

  Leaves-negated : (line : ℕ) (v : Value numerics.Double) → Leaves (negated numerics line v)
  Leaves-negated line (val_int n) = Leaves-checked (neg n)
  Leaves-negated line (val_float x) = Leaves-pure _
  Leaves-negated line _ = Leaves-failing line _

  pub Leaves-unary_operation :
      (line : ℕ) (op : TokenType) (v : Value numerics.Double)
      → Leaves (unary_operation numerics line op v)
  unfolding unary_operation
  Leaves-unary_operation line token_not v = Leaves-pure _
  Leaves-unary_operation line _ v = Leaves-negated line v

  Leaves-buffered : (text : Bytes) → Leaves (buffered numerics text)
  Leaves-buffered text = Leaves-get λ s. Leaves-pure _

  Leaves-to_string : (line : ℕ) (v : Value numerics.Double) → Leaves (to_string numerics line v)
  unfolding to_string
  Leaves-to_string line (val_string text) = Leaves-pure _
  Leaves-to_string line (val_int n) = Leaves-buffered _
  Leaves-to_string line (val_float x) = Leaves-buffered _
  Leaves-to_string line (val_bool b) = Leaves-buffered _
  Leaves-to_string line (val_char c) = Leaves-buffered _
  Leaves-to_string line _ = Leaves-failing line _

  Leaves-int_or_error : (line : ℕ) (n : Option ℤ) → Leaves (int_or_error numerics line n)
  Leaves-int_or_error line none = Leaves-failing line _
  Leaves-int_or_error line (some n) = Leaves-pure _

  Leaves-truncated : (n : Option ℤ) → Leaves (truncated numerics n)
  Leaves-truncated none = Leaves-undefined
  Leaves-truncated (some n) = Leaves-pure _

  Leaves-to_int : (line : ℕ) (v : Value numerics.Double) → Leaves (to_int numerics line v)
  unfolding to_int
  Leaves-to_int line (val_int n) = Leaves-pure _
  Leaves-to_int line (val_bool b) = Leaves-pure _
  Leaves-to_int line (val_char c) = Leaves-pure _
  Leaves-to_int line (val_float x) = Leaves-truncated _
  Leaves-to_int line (val_string text) = Leaves-int_or_error line _
  Leaves-to_int line _ = Leaves-failing line _

  Leaves-float_or_error :
      (line : ℕ) (x : Option numerics.Double) → Leaves (float_or_error numerics line x)
  Leaves-float_or_error line none = Leaves-failing line _
  Leaves-float_or_error line (some x) = Leaves-pure _

  Leaves-to_float : (line : ℕ) (v : Value numerics.Double) → Leaves (to_float numerics line v)
  unfolding to_float
  Leaves-to_float line (val_int n) = Leaves-pure _
  Leaves-to_float line (val_bool b) = Leaves-pure _
  Leaves-to_float line (val_char c) = Leaves-pure _
  Leaves-to_float line (val_float x) = Leaves-pure _
  Leaves-to_float line (val_string text) = Leaves-float_or_error line _
  Leaves-to_float line _ = Leaves-failing line _

  pub Leaves-convert :
      (callee : Bytes) (line : ℕ) (v : Value numerics.Double)
      → Leaves (convert numerics callee line v)
  unfolding convert
  Leaves-convert callee line v =
      Leaves-if (bytes_eq callee (codes "to_string")) (Leaves-to_string line v) (
        Leaves-if (bytes_eq callee (codes "to_int")) (Leaves-to_int line v)
          (Leaves-to_float line v))
