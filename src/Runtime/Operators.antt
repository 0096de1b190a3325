-- ===== src/Runtime/Operators.antt =====
-- src/runtime/interp.c: the operators of `eval_expr` on values. Signed overflow is undefined in C. What
-- is neither `k_int` nor `k_float` is read as the integer member of the union, on a little-endian
-- machine; that of a string, an array or a record is an address.
use kratos_lang.Prelude.{
  ℕ, Bool, true, false, not, bytes_eq, ◌++◌, Option, none, some, ◌==◌, ◌||◌, ◌&&◌, if◌then◌else◌,
}
use kratos_lang.Prelude.Int.{ℤ, pos}
use kratos_lang.Lexer.Token.{
  TokenType, token_plus, token_minus, token_star, token_slash, token_percent, token_equal,
  token_not_equal, token_less, token_greater, token_less_equal, token_greater_equal, token_not,
}
use kratos_lang.Runtime.Numbers.{
  fits, neg, ◌+ℤ◌, ◌-ℤ◌, ◌*ℤ◌, quotient, remainder, int_less, int_equal,
}
use kratos_lang.Runtime.Value.{
  Numerics, Value, val_int, val_float, val_bool, val_char, val_string, val_void, val_array,
  val_record, is_truthy,
}
use kratos_lang.Runtime.State.{I, pure, undefined_behaviour, failing}

abbrev pub bit : Bool → ℤ
bit true = pos 1
bit false = pos 0

-- The result of an operation on `int64_t`.
unfoldable pub checked : {F : Type 0} → ℤ → I F (Value F)
checked n = if fits n then pure (val_int n) else undefined_behaviour

-- `value.as.i`
abbrev pub as_int : {F : Type 0} → Value F → Option ℤ
as_int (val_int n) = some n
as_int (val_float x) = none
as_int (val_bool b) = some (bit b)
as_int (val_char c) = some (pos c)
as_int (val_string text) = none
as_int val_void = some (pos 0)
as_int (val_array type items) = none
as_int (val_record name members) = none

unfoldable pub values_equal :
    (numerics : Numerics) → Value numerics.Double → Value numerics.Double → Bool
unfolding bytes_eq
values_equal numerics (val_int a) (val_int b) = int_equal a b
values_equal numerics (val_float x) (val_float y) = numerics.float_equal x y
values_equal numerics (val_bool true) (val_bool b) = b
values_equal numerics (val_bool false) (val_bool b) = not b
values_equal numerics (val_char a) (val_char b) = a == b
values_equal numerics (val_string a) (val_string b) = bytes_eq a b
values_equal numerics _ _ = false

-- `cmp < 0` and the like, where `less` is `x < y` and `greater` is `x > y`.
abbrev pub comparison : TokenType → Bool → Bool → Bool
comparison token_less less greater = less && not greater
comparison token_greater less greater = greater && not less
comparison token_less_equal less greater = less || not greater
comparison _ less greater = greater || not less

abbrev pub is_relational : TokenType → Bool
is_relational token_less = true
is_relational token_greater = true
is_relational token_less_equal = true
is_relational token_greater_equal = true
is_relational _ = false

module _ (numerics : Numerics) where
  abbrev pub F : Type 0
  F = numerics.Double

  -- A pair of numbers, as floats where one of them is, else as integers.
  pub data Operands : Type 0 where
    floats : F → F → Operands
    ints : ℤ → ℤ → Operands
    addresses : Operands

  abbrev pub float_with : F → Option ℤ → Operands
  float_with x (some n) = floats x (numerics.of_int n)
  float_with x none = addresses

  abbrev pub with_float : Option ℤ → F → Operands
  with_float (some n) y = floats (numerics.of_int n) y
  with_float none y = addresses

  abbrev pub both_ints : Option ℤ → Option ℤ → Operands
  both_ints (some a) (some b) = ints a b
  both_ints _ _ = addresses

  -- `numeric_promote_left` on both sides, and the choice between float and integer.
  abbrev pub promote : Value F → Value F → Operands
  promote (val_float x) (val_float y) = floats x y
  promote (val_float x) right = float_with x (as_int right)
  promote left (val_float y) = with_float (as_int left) y
  promote left right = both_ints (as_int left) (as_int right)

  abbrev pub compare_operands : TokenType → Operands → I F (Value F)
  compare_operands op (floats x y) =
      pure (val_bool (comparison op (numerics.float_less x y) (numerics.float_less y x)))
  compare_operands op (ints a b) = pure (val_bool (comparison op (int_less a b) (int_less b a)))
  compare_operands op addresses = undefined_behaviour

  unfoldable pub float_operation : ℕ → TokenType → F → F → I F (Value F)
  float_operation line token_plus x y = pure (val_float (numerics.float_add x y))
  float_operation line token_minus x y = pure (val_float (numerics.float_sub x y))
  float_operation line token_star x y = pure (val_float (numerics.float_mul x y))
  float_operation line token_slash x y =
      if numerics.float_equal y numerics.float_zero
      then failing line (val_float numerics.float_zero)
      else pure (val_float (numerics.float_div x y))
  float_operation line _ x y = pure (val_float numerics.float_zero)

  unfoldable pub int_operation : ℕ → TokenType → ℤ → ℤ → I F (Value F)
  unfolding checked
  int_operation line token_plus a b = checked (a +ℤ b)
  int_operation line token_minus a b = checked (a -ℤ b)
  int_operation line token_star a b = checked (a *ℤ b)
  int_operation line token_slash a b =
      if int_equal b (pos 0) then failing line (val_int (pos 0)) else checked (quotient a b)
  int_operation line token_percent a b =
      if int_equal b (pos 0)
      then failing line (val_int (pos 0))
      else if fits (quotient a b)
      then pure (val_int (remainder a b))
      else undefined_behaviour
  int_operation line _ a b = pure (val_int (pos 0))

  abbrev pub arithmetic : ℕ → TokenType → Operands → I F (Value F)
  arithmetic line op (floats x y) = float_operation line op x y
  arithmetic line op (ints a b) = int_operation line op a b
  arithmetic line op addresses = undefined_behaviour

  abbrev pub numeric_binary : ℕ → TokenType → Value F → Value F → I F (Value F)
  numeric_binary line op left right =
      if is_relational op
      then compare_operands op (promote left right)
      else arithmetic line op (promote left right)

  -- `eval_expr` of a binary expression, behind both operands.
  unfoldable pub binary_operation : ℕ → TokenType → Value F → Value F → I F (Value F)
  unfolding values_equal float_operation int_operation
  binary_operation line token_plus (val_string a) (val_string b) = pure (val_string (a ++ b))
  binary_operation line token_equal left right = pure (val_bool (values_equal numerics left right))
  binary_operation line token_not_equal left right =
      pure (val_bool (not (values_equal numerics left right)))
  binary_operation line op left right = numeric_binary line op left right

  abbrev pub negated : ℕ → Value F → I F (Value F)
  negated line (val_int n) = checked (neg n)
  negated line (val_float x) = pure (val_float (numerics.float_neg x))
  negated line _ = failing line val_void

  unfoldable pub unary_operation : ℕ → TokenType → Value F → I F (Value F)
  unfolding checked
  unary_operation line token_not operand = pure (val_bool (not (is_truthy operand)))
  unary_operation line _ operand = negated line operand
