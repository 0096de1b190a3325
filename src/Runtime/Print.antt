-- ===== src/Runtime/Print.antt =====
-- src/runtime/interp.c: what `shout` prints, without the newline.
use kratos_lang.Prelude.{Bool, true, false, Bytes, codes, [], ◌∷◌, ◌++◌, if◌then◌else◌}
use kratos_lang.Runtime.Value.{
  Numerics, Value, Values, Fields, no_values, more_values, no_fields, more_fields, val_int,
  val_float, val_bool, val_char, val_string, val_void, val_array, val_record,
}

module _ (numerics : Numerics) where
  abbrev F : Type 0
  F = numerics.Double

  -- `print_val_inline`; `first` is `i == 0`.
  unfoldable mutual
    pub print_val_inline : Value F → Bytes
    print_val_inline (val_int n) = numerics.print_int n
    print_val_inline (val_float x) = numerics.print_float x
    print_val_inline (val_bool b) = if b then codes "true" else codes "false"
    print_val_inline (val_char c) = codes "'" ++ (c ∷ codes "'")
    print_val_inline (val_string text) = codes "\"" ++ (text ++ codes "\"")
    print_val_inline val_void = []
    print_val_inline (val_array type items) = codes "[" ++ (print_items true items ++ codes "]")
    print_val_inline (val_record name members) =
        name ++ (codes " { " ++ (print_fields true members ++ codes " }"))

    pub print_items : Bool → Values F → Bytes
    print_items first no_values = []
    print_items first (more_values value values) =
        (if first then [] else codes ", ") ++ (print_val_inline value ++ print_items false values)

    pub print_fields : Bool → Fields F → Bytes
    print_fields first no_fields = []
    print_fields first (more_fields name value rest) =
        (if first then [] else codes ", ")
        ++ (name ++ (codes ": " ++ (print_val_inline value ++ print_fields false rest)))

  unfoldable pub shout_value : Value F → Bytes
  unfolding print_val_inline
  shout_value (val_string text) = text
  shout_value (val_char c) = c ∷ []
  shout_value value = print_val_inline value
