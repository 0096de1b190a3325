-- ===== src/Runtime/Value.antt =====
-- src/runtime/interp.c: the values, with the type `double` and the functions of the C library on
-- numbers as a parameter. Copying and freeing a value leave nothing to model.
use kratos_lang.Prelude.{
  ℕ, zero, suc, Bool, false, Bytes, bytes_eq, Option, none, some, if◌then◌else◌,
}
use kratos_lang.Prelude.Int.{ℤ}
use kratos_lang.Ast.{KratosType}

-- `double` with its operators; `strtod` and `strtoll` of a whole text, and `printf` of a number; the
-- conversion to `int64_t`, where it is defined.
pub record Numerics : Type 1 where
  pub Double : Type 0
  pub of_int : ℤ → Double
  pub float_zero : Double
  pub float_neg : Double → Double
  pub float_add : Double → Double → Double
  pub float_sub : Double → Double → Double
  pub float_mul : Double → Double → Double
  pub float_div : Double → Double → Double
  pub float_less : Double → Double → Bool
  pub float_equal : Double → Double → Bool
  pub int_of : Double → Option ℤ
  pub strtod : Bytes → Option Double
  pub strtod_prefix : Bytes → Double
  pub strtoll_whole : Bytes → Option ℤ
  pub print_int : ℤ → Bytes
  pub print_float : Double → Bytes

mutual
  pub data Value (F : Type 0) : Type 0 where
    val_int : ℤ → Value F
    val_float : F → Value F
    val_bool : Bool → Value F
    val_char : ℕ → Value F
    val_string : Bytes → Value F
    val_void : Value F
    val_array : KratosType → Values F → Value F
    val_record : Bytes → Fields F → Value F

  pub data Values (F : Type 0) : Type 0 where
    no_values : Values F
    more_values : Value F → Values F → Values F

  pub data Fields (F : Type 0) : Type 0 where
    no_fields : Fields F
    more_fields : Bytes → Value F → Fields F → Fields F

module _ {F : Type 0} where
  abbrev pub is_truthy : Value F → Bool
  is_truthy (val_bool b) = b
  is_truthy _ = false

  abbrev pub values_count : Values F → ℕ
  values_count no_values = 0
  values_count (more_values v vs) = suc (values_count vs)

  abbrev pub value_at : Values F → ℕ → Option (Value F)
  value_at no_values i = none
  value_at (more_values v vs) zero = some v
  value_at (more_values v vs) (suc i) = value_at vs i

  abbrev pub with_value_at : Values F → ℕ → Value F → Values F
  with_value_at no_values i w = no_values
  with_value_at (more_values v vs) zero w = more_values w vs
  with_value_at (more_values v vs) (suc i) w = more_values v (with_value_at vs i w)

  -- `count` items from `start` on.
  abbrev pub values_slice : ℕ → ℕ → Values F → Values F
  values_slice start count no_values = no_values
  values_slice (suc start) count (more_values v vs) = values_slice start count vs
  values_slice zero zero (more_values v vs) = no_values
  values_slice zero (suc count) (more_values v vs) = more_values v (values_slice zero count vs)

  -- The first field of the name.
  unfoldable pub field_value : Fields F → Bytes → Option (Value F)
  unfolding bytes_eq
  field_value no_fields name = none
  field_value (more_fields n v fs) name =
      let rest = field_value fs name in if bytes_eq n name then some v else rest

  unfoldable pub with_field : Fields F → Bytes → Value F → Fields F
  unfolding bytes_eq
  with_field no_fields name w = no_fields
  with_field (more_fields n v fs) name w =
      let rest = with_field fs name w in
      if bytes_eq n name then more_fields n w fs else more_fields n v rest
