-- ===== src/Semantic/Operators.antt =====
-- src/semantic/semantic.c, `check_expr`: the rules for one node, given the types of its operands.
use kratos_lang.Prelude.{
  ℕ, zero, suc, ◌+◌, ◌-◌, ltb, Bool, true, false, not, ◌&&◌, ◌||◌, Bytes, Option, none, some, List,
  [], ◌∷◌, bytes_eq, if◌then◌else◌, ◌==◌,
}
use kratos_lang.Lexer.Token.{
  TokenType, token_and, token_or, token_plus, token_equal, token_not_equal, token_less,
  token_greater, token_less_equal, token_greater_equal, token_percent, token_not,
}
use kratos_lang.Ast.{
  AstNode, AstNodeList, nil, null, func_decl, param, KratosType, type_int, type_float, type_bool,
  type_char, type_string, type_void, type_record,
}
use kratos_lang.Semantic.Types.{
  TypeInfo, type_info, type_info_simple, type_eq, types_equal, assignable,
}
use kratos_lang.Semantic.State.{
  Symbol, RecordFieldInfo, RecordTypeInfo, Analyzer, M, ◌>>=◌, ◌>>◌, pure, message, semantic_error,
  error_if, find_field,
}

abbrev pub invalid : TypeInfo
invalid = type_info_simple type_void 0

abbrev pub get : M Analyzer
get s = (s, s)

-- Reports an error and gives the type of nothing.
abbrev pub failing : ℕ → Bytes → M TypeInfo
failing line m = do semantic_error line m; pure invalid

abbrev pub is_array? : TypeInfo → Bool
is_array? t = not (t.is_array == 0)

abbrev pub has_type : KratosType → TypeInfo → Bool
has_type type t = type_eq t.type type

-- `!t.is_array && (t.type == k_int || t.type == k_float)`, negated.
abbrev pub not_number : TypeInfo → Bool
not_number t = not (has_type type_int t) && not (has_type type_float t)

unfoldable pub is_not : TokenType → Bool
is_not token_not = true
is_not _ = false

unfoldable pub is_plus : TokenType → Bool
is_plus token_plus = true
is_plus _ = false

unfoldable pub is_percent : TokenType → Bool
is_percent token_percent = true
is_percent _ = false

unfoldable pub is_logical : TokenType → Bool
is_logical token_and = true
is_logical token_or = true
is_logical _ = false

unfoldable pub is_equality : TokenType → Bool
is_equality token_equal = true
is_equality token_not_equal = true
is_equality _ = false

unfoldable pub is_relational : TokenType → Bool
is_relational token_less = true
is_relational token_greater = true
is_relational token_less_equal = true
is_relational token_greater_equal = true
is_relational _ = false

-- `case AST_IDENTIFIER_EXPR`
unfoldable pub check_identifier : ℕ → Option Symbol → M TypeInfo
check_identifier line none = failing line (message "identificatore non dichiarato")
check_identifier line (some symbol) =
    if symbol.is_function
    then failing line (message "una craft non e' un valore")
    else pure symbol.type

-- `case AST_UNARY_EXPR`
unfoldable pub check_unary : ℕ → TokenType → TypeInfo → M TypeInfo
check_unary line op operand =
    if is_not op
    then (do
      error_if (is_array? operand || not (has_type type_bool operand)) line
          (message "'not' richiede un k_bool")
      pure (type_info_simple type_bool 0))
    else (do
      error_if (is_array? operand || not_number operand) line
          (message "negazione aritmetica richiede k_int o k_float")
      pure operand)

-- One operand of `&&` or `||`.
unfoldable pub check_logical : ℕ → TypeInfo → M (Unit {0})
check_logical line t =
    error_if (not (has_type type_bool t) || is_array? t) line (message "&& e || richiedono k_bool")

-- `case AST_BINARY_EXPR` behind the operators that short-circuit.
unfoldable pub check_binary : ℕ → TokenType → TypeInfo → TypeInfo → M TypeInfo
check_binary line op left right =
    if is_plus op
      && not (is_array? left)
      && not (is_array? right)
      && has_type type_string left
      && has_type type_string right
    then pure (type_info_simple type_string 0)
    else if is_equality op
    then (do
      error_if (is_array? left || is_array? right || not (types_equal left right)) line
          (message "confronto tra tipi incompatibili")
      pure (type_info_simple type_bool 0))
    else if is_relational op
    then (do
      error_if (is_array? left || is_array? right || not_number left || not_number right) line
          (message "confronto relazionale richiede k_int o k_float")
      pure (type_info_simple type_bool 0))
    else if is_percent op
    then (do
      error_if
          (is_array? left
            || is_array? right
            || not (has_type type_int left)
            || not (has_type type_int right))
          line (message "% richiede due k_int")
      pure (type_info_simple type_int 0))
    else if is_array? left || is_array? right || not_number left || not_number right
    then (do
      semantic_error line (message "operatore aritmetico richiede k_int o k_float")
      pure (type_info_simple type_int 0))
    else if has_type type_float left || has_type type_float right
    then pure (type_info_simple type_float 0)
    else pure (type_info_simple type_int 0)

-- The built-in functions, given the types of their arguments.
unfoldable pub check_len : ℕ → TypeInfo → M TypeInfo
check_len line argument = do
  error_if (not (is_array? argument) && not (has_type type_string argument)) line
      (message "len richiede una stringa o un array")
  pure (type_info_simple type_int 0)

unfoldable pub check_slice : ℕ → TypeInfo → TypeInfo → TypeInfo → M TypeInfo
check_slice line source start end = do
  error_if ((source.is_array == 0 && not (has_type type_string source)) || ltb 1 source.is_array)
      line (message "slice richiede una stringa o un array semplice")
  error_if
      (is_array? start
        || not (has_type type_int start)
        || is_array? end
        || not (has_type type_int end))
      line (message "gli indici di slice devono essere k_int")
  pure (
      if source.is_array == 1
      then type_info source.type 1 source.record_name
      else type_info_simple type_string 0)

unfoldable pub check_conversion : ℕ → Bytes → TypeInfo → M TypeInfo
check_conversion line callee argument = do
  error_if (is_array? argument || has_type type_void argument) line
      (message "la conversione richiede un valore scalare")
  if bytes_eq callee (message "to_string") then pure (type_info_simple type_string 0) else (do
    error_if
        (not_number argument
          && not (has_type type_bool argument)
          && not (has_type type_char argument)
          && not (has_type type_string argument))
        line (message "value cannot be converted")
    pure (
        if bytes_eq callee (message "to_int")
        then type_info_simple type_int 0
        else type_info_simple type_float 0))

-- The declaration that a call names: `symbol->func`, if the name is that of a function.
unfoldable pub callee_of : Option Symbol → Option AstNode
callee_of none = none
callee_of (some symbol) =
    if not symbol.is_function then none else elim symbol.func [ null ↦ none | func ↦ some func ]

unfoldable pub params_of : AstNode → AstNodeList
params_of (func_decl _ _ _ _ params _) = params
params_of _ = nil

unfoldable pub return_type_of : AstNode → TypeInfo
return_type_of (func_decl _ type record_name _ _ _) = type_info type 0 record_name
return_type_of _ = invalid

unfoldable pub param_type : AstNode → TypeInfo
param_type (param _ type is_array record_name _) = type_info type is_array record_name
param_type _ = invalid

-- One argument against its parameter.
unfoldable pub check_argument : ℕ → TypeInfo → AstNode → M (Unit {0})
check_argument line arg p =
    error_if (not (assignable arg (param_type p))) line (message "tipo di argomento incompatibile")

-- One element of an array literal; the state is `have_element` and `element`.
unfoldable pub check_element : ℕ → Bool × TypeInfo → TypeInfo → M (Bool × TypeInfo)
check_element line (have_element, element) item =
    if not have_element then pure (true, item) else (do
      error_if (not (types_equal item element)) line (message "elementi dell'array di tipi diversi")
      pure (have_element, element))

abbrev pub array_type : Bool × TypeInfo → TypeInfo
array_type (have_element, element) =
    if not have_element
    then type_info_simple type_void 1
    else type_info element.type (element.is_array + 1) element.record_name

-- `case AST_INDEX_EXPR`
unfoldable pub check_index : ℕ → TypeInfo → TypeInfo → M TypeInfo
check_index line array index = do
  error_if (array.is_array == 0) line (message "indicizzazione di un valore che non e' un array")
  error_if (is_array? index || not (has_type type_int index)) line
      (message "l'indice deve essere k_int")
  pure (type_info array.type (array.is_array - 1) array.record_name)

-- The field of a record type that a record literal or a member names.
unfoldable pub field_index : List RecordFieldInfo → Bytes → Option ℕ
field_index [] name = none
field_index (field ∷ fields) name =
    if bytes_eq field.name name
    then some 0
    else elim (field_index fields name) [ none ↦ none | some i ↦ some (suc i) ]

unfoldable pub contains : List ℕ → ℕ → Bool
contains [] i = false
contains (j ∷ js) i = j == i || contains js i

abbrev pub unknown_type : TypeInfo
unknown_type = invalid

-- `rec->fields[i].type`
abbrev pub field_type : List RecordFieldInfo → ℕ → TypeInfo
field_type [] i = unknown_type
field_type (field ∷ fields) zero = field.type
field_type (field ∷ fields) (suc i) = field_type fields i

-- One initializer of a record literal, given the check of its value, which runs only for a field
-- that is there and not yet initialized. The fields that are initialized are a list of indices.
unfoldable pub check_init : ℕ → List RecordFieldInfo → List ℕ → Option ℕ → M TypeInfo → M (List ℕ)
check_init line fields initialized none value = do
  semantic_error line (message "campo sconosciuto nel record")
  pure initialized
check_init line fields initialized (some found) value =
    if contains initialized found
    then (do semantic_error line (message "campo duplicato nel record"); pure initialized)
    else (do
      val_type ← value
      error_if (not (assignable val_type (field_type fields found))) line
          (message "tipo di campo incompatibile nel record")
      pure (found ∷ initialized))

-- The fields `f`, `f + 1`, ... that are not initialized.
unfoldable pub check_missing : ℕ → List ℕ → ℕ → List RecordFieldInfo → M (Unit {0})
check_missing line initialized f [] = pure tt
check_missing line initialized f (field ∷ fields) = do
  error_if (not (contains initialized f)) line (message "campo mancante nel record")
  check_missing line initialized (suc f) fields

unfoldable pub member_type : ℕ → Bytes → Option RecordFieldInfo → M TypeInfo
member_type line m none = failing line m
member_type line m (some field) = pure field.type

abbrev pub no_name : Option Bytes → Bool
no_name none = true
no_name (some name) = false

unfoldable pub member_in : ℕ → Bytes → Option RecordTypeInfo → M TypeInfo
member_in line member none = failing line (message "tipo record inesistente")
member_in line member (some rec) =
    member_type line (message "campo non trovato nel record") (find_field rec.fields member)

-- `case AST_MEMBER_EXPR`, with the record type that the target's type names.
unfoldable pub check_member : ℕ → Bytes → TypeInfo → Option RecordTypeInfo → M TypeInfo
check_member line member target found =
    if ltb 0 target.is_array || not (has_type type_record target) || no_name target.record_name
    then failing line (message "member access on a non-record type")
    else member_in line member found
