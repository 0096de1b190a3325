-- ===== src/Semantic/Types.antt =====
-- src/semantic/semantic.c: the types of expressions, `types_equal` and `assignable`.
use kratos_lang.Prelude.{
  ℕ, Bool, true, false, not, ◌&&◌, ◌||◌, Bytes, Option, none, some, bytes_eq, ◌==◌, if◌then◌else◌,
}
use kratos_lang.Ast.{
  KratosType, type_int, type_float, type_bool, type_char, type_string, type_void, type_record,
}

pub record TypeInfo : Type 0 where
  pub type : KratosType
  pub is_array : ℕ
  pub record_name : Option Bytes

abbrev pub type_info : KratosType → ℕ → Option Bytes → TypeInfo
type_info type is_array record_name = record {
  type = type;
  is_array = is_array;
  record_name = record_name;
}

abbrev pub type_info_simple : KratosType → ℕ → TypeInfo
type_info_simple type is_array = type_info type is_array none

-- `a.type == b.type`
unfoldable pub type_eq : KratosType → KratosType → Bool
type_eq type_int type_int = true
type_eq type_float type_float = true
type_eq type_bool type_bool = true
type_eq type_char type_char = true
type_eq type_string type_string = true
type_eq type_void type_void = true
type_eq type_record type_record = true
type_eq _ _ = false

-- Null names are not equal to anything.
unfoldable pub names_equal : Option Bytes → Option Bytes → Bool
names_equal (some a) (some b) = bytes_eq a b
names_equal _ _ = false

unfoldable pub types_equal : TypeInfo → TypeInfo → Bool
types_equal a b =
    if not (type_eq a.type b.type) || not (a.is_array == b.is_array)
    then false
    else if type_eq a.type type_record
    then names_equal a.record_name b.record_name
    else true

unfoldable pub assignable : TypeInfo → TypeInfo → Bool
assignable from to =
    if types_equal from to
    then true
    else if (from.is_array == 0)
        && (to.is_array == 0)
        && type_eq from.type type_int
        && type_eq to.type type_float
    then true
    else false
