-- ===== src/Runtime/Builtins.antt =====
-- src/runtime/interp.c: the crafts `len`, `slice`, `to_string`, `to_int` and `to_float` on values, and
-- what an index and a member select. A `char` is signed, as on the machines with gcc and clang on x86.
use kratos_lang.Prelude.{
  ℕ, ◌-◌, Bool, true, false, Bytes, codes, bytes_eq, [], ◌∷◌, length, slice, Option, none, some,
  ltb, ◌||◌, ◌==◌, if◌then◌else◌,
}
use kratos_lang.Prelude.Int.{ℤ, pos, negsuc}
use kratos_lang.Ast.{KratosType, type_int, type_float, type_bool, type_char, type_string, type_void}
use kratos_lang.Runtime.Value.{
  Numerics, Value, Values, val_int, val_float, val_bool, val_char, val_string, val_void, val_array,
  val_record, values_count, value_at, values_slice, field_value, more_values, no_values,
}
use kratos_lang.Runtime.State.{I, ◌>>=◌, pure, get, undefined_behaviour, failing}
use kratos_lang.Runtime.Operators.{bit}

abbrev pub is_void : KratosType → Bool
is_void type_void = true
is_void _ = false

-- `(int)c`
abbrev pub char_value : ℕ → ℤ
char_value c = if ltb c 128 then pos c else negsuc (255 - c)

module _ {F : Type 0} where
  -- The type of the elements, by the first; zero, which is `KRATOS_TYPE_INT`, where there is none.
  abbrev pub element_type_of : Values F → KratosType
  element_type_of no_values = type_int
  element_type_of (more_values (val_int n) _) = type_int
  element_type_of (more_values (val_float x) _) = type_float
  element_type_of (more_values (val_bool b) _) = type_bool
  element_type_of (more_values (val_char c) _) = type_char
  element_type_of (more_values (val_string text) _) = type_string
  element_type_of _ = type_void

  unfoldable pub len : ℕ → Value F → I F (Value F)
  len line (val_string text) = pure (val_int (pos (length text)))
  len line (val_array type items) = pure (val_int (pos (values_count items)))
  len line _ = failing line val_void

  -- `slice` where the bounds are integers with 0 <= start <= end.
  abbrev pub sliced : ℕ → Value F → ℕ → ℕ → I F (Value F)
  sliced line (val_string text) start end =
      if ltb (length text) end
      then failing line val_void
      else pure (val_string (slice start (end - start) text))
  sliced line (val_array type items) start end =
      if is_void type || ltb (values_count items) end
      then failing line val_void
      else pure (val_array type (values_slice start (end - start) items))
  sliced line _ start end = failing line val_void

  unfoldable pub slice_value : ℕ → Value F → Value F → Value F → I F (Value F)
  slice_value line source (val_int (pos start)) (val_int (pos end)) =
      if ltb end start then failing line val_void else sliced line source start end
  slice_value line source _ _ = failing line val_void

  abbrev pub item_or_error : ℕ → Option (Value F) → I F (Value F)
  item_or_error line (some value) = pure value
  item_or_error line none = failing line val_void

  -- `array[index]`
  unfoldable pub index_value : ℕ → Value F → Value F → I F (Value F)
  index_value line (val_array type items) (val_int (pos i)) = item_or_error line (value_at items i)
  index_value line _ _ = failing line val_void

  -- `target.member`
  unfoldable pub member_value : ℕ → Bytes → Value F → I F (Value F)
  unfolding field_value
  member_value line member (val_record name members) =
      item_or_error line (field_value members member)
  member_value line member _ = failing line val_void

module _ (numerics : Numerics) where
  abbrev F : Type 0
  F = numerics.Double

  -- The text in the buffer, unless there is an error already.
  abbrev pub buffered : Bytes → I F (Value F)
  buffered text = do interp ← get; pure (if interp.had_error then val_void else val_string text)

  unfoldable pub to_string : ℕ → Value F → I F (Value F)
  to_string line (val_string text) = pure (val_string text)
  to_string line (val_int n) = buffered (numerics.print_int n)
  to_string line (val_float x) = buffered (numerics.print_float x)
  to_string line (val_bool b) = buffered (if b then codes "true" else codes "false")
  to_string line (val_char c) = buffered (if c == 0 then [] else c ∷ [])
  to_string line _ = failing line val_void

  abbrev pub int_or_error : ℕ → Option ℤ → I F (Value F)
  int_or_error line (some n) = pure (val_int n)
  int_or_error line none = failing line val_void

  -- A float that no `int64_t` can hold has no defined conversion.
  abbrev pub truncated : Option ℤ → I F (Value F)
  truncated (some n) = pure (val_int n)
  truncated none = undefined_behaviour

  unfoldable pub to_int : ℕ → Value F → I F (Value F)
  to_int line (val_int n) = pure (val_int n)
  to_int line (val_bool b) = pure (val_int (bit b))
  to_int line (val_char c) = pure (val_int (char_value c))
  to_int line (val_float x) = truncated (numerics.int_of x)
  to_int line (val_string text) = int_or_error line (numerics.strtoll_whole text)
  to_int line _ = failing line val_void

  abbrev pub float_or_error : ℕ → Option F → I F (Value F)
  float_or_error line (some x) = pure (val_float x)
  float_or_error line none = failing line val_void

  unfoldable pub to_float : ℕ → Value F → I F (Value F)
  to_float line (val_int n) = pure (val_float (numerics.of_int n))
  to_float line (val_bool b) = pure (val_float (numerics.of_int (bit b)))
  to_float line (val_char c) = pure (val_float (numerics.of_int (char_value c)))
  to_float line (val_float x) = pure (val_float x)
  to_float line (val_string text) = float_or_error line (numerics.strtod text)
  to_float line _ = failing line val_void

  -- The conversion of the name.
  unfoldable pub convert : Bytes → ℕ → Value F → I F (Value F)
  unfolding to_string to_int to_float
  convert callee line argument =
      if bytes_eq callee (codes "to_string")
      then to_string line argument
      else if bytes_eq callee (codes "to_int")
      then to_int line argument
      else to_float line argument
