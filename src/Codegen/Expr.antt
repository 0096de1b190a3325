-- ===== src/Codegen/Expr.antt =====
-- src/codegen/codegen.c: `array_depth` and `emit_expr`. The formats of `printf` for numbers are those
-- of `Numerics`.
use kratos_lang.Prelude.{
  ℕ, ◌-◌, Bool, true, false, Bytes, codes, ◌++◌, Option, none, some, bytes_eq, if◌then◌else◌, ltb,
}
use kratos_lang.Prelude.Int.{pos}
use kratos_lang.Ast.{
  AstNode, AstNodeList, array_literal, binary_expr, block, call_expr, cons, count, field_init,
  func_decl, identifier_expr, index_expr, literal_bool, literal_char, literal_float, literal_int,
  literal_string, member_expr, nil, null, record_literal, unary_expr, var_decl,
}
use kratos_lang.Lexer.Token.{
  TokenType, token_and, token_equal, token_greater, token_greater_equal, token_less,
  token_less_equal, token_minus, token_not, token_not_equal, token_or, token_percent, token_plus,
  token_slash, token_star,
}
use kratos_lang.Runtime.Value.{Numerics}
use kratos_lang.Codegen.Emitter.{◌>>◌, Context, Emit, between, fail, put, skip, undefined}
use kratos_lang.Codegen.Literals.{emit_char_literal, emit_string_literal}

-- A variable of a list of declarations or statements.
pub data Declared : Type 0 where
  found : ℕ → Declared
  missing : Declared
  no_node : Declared

unfoldable pub declared_depth : AstNodeList → Bytes → Declared
declared_depth nil name = missing
declared_depth (cons null nodes) name = no_node
declared_depth (cons (var_decl line is_const depth type record_name n initializer) nodes) name =
    let rest = declared_depth nodes name in if bytes_eq n name then found depth else rest
declared_depth (cons _ nodes) name = declared_depth nodes name

-- `function->as.func_decl.body->as.block.statements`
abbrev pub body_statements : AstNode → Option AstNodeList
body_statements (func_decl line type record_name name params (block l statements)) = some statements
body_statements _ = none

abbrev pub depth_found : Declared → Option ℕ
depth_found (found depth) = some depth
depth_found missing = some 0
depth_found no_node = none

abbrev pub depth_in_body : Option AstNodeList → Bytes → Option ℕ
depth_in_body none name = none
depth_in_body (some statements) name = depth_found (declared_depth statements name)

abbrev pub depth_in_function : Option AstNode → Bytes → Option ℕ
depth_in_function none name = some 0
depth_in_function (some func) name = depth_in_body (body_statements func) name

-- Behind the search among the declarations of the program.
abbrev pub depth_behind : Declared → Option AstNode → Bytes → Option ℕ
depth_behind (found depth) function name = some depth
depth_behind missing function name = depth_in_function function name
depth_behind no_node function name = none

-- `items[0]->kind == AST_ARRAY_LITERAL`, where there are items.
abbrev pub first_is_array : AstNodeList → Option Bool
first_is_array nil = some false
first_is_array (cons null nodes) = none
first_is_array (cons (array_literal line elements) nodes) = some true
first_is_array (cons _ nodes) = some false

abbrev pub literal_depth : Option Bool → Option ℕ
literal_depth none = none
literal_depth (some nested) = some (if nested then 2 else 1)

abbrev pub element_depth : Option ℕ → Option ℕ
element_depth none = none
element_depth (some depth) = some (depth - 1)

unfoldable pub array_depth : Context → AstNode → Option ℕ
unfolding declared_depth
array_depth context null = none
array_depth context (identifier_expr line name) =
    depth_behind (declared_depth context.declarations name) context.function name
array_depth context (index_expr line array index) = element_depth (array_depth context array)
array_depth context (array_literal line elements) = literal_depth (first_is_array elements)
array_depth context _ = some 1

abbrev pub binary_op : TokenType → Bytes
binary_op token_plus = codes " + "
binary_op token_minus = codes " - "
binary_op token_star = codes " * "
binary_op token_slash = codes " / "
binary_op token_percent = codes " % "
binary_op token_equal = codes " == "
binary_op token_not_equal = codes " != "
binary_op token_less = codes " < "
binary_op token_greater = codes " > "
binary_op token_less_equal = codes " <= "
binary_op token_greater_equal = codes " >= "
binary_op token_and = codes " && "
binary_op token_or = codes " || "
binary_op _ = codes " /*op*/ "

unfoldable pub emit_binary_op : TokenType → Emit
emit_binary_op op = put (binary_op op)

abbrev pub unary_op : TokenType → Bytes
unary_op token_not = codes "!"
unary_op _ = codes "-"

abbrev pub is_plus : TokenType → Bool
is_plus token_plus = true
is_plus _ = false

abbrev pub callee_text : Bytes → Bytes
callee_text callee =
    if bytes_eq callee (codes "len")
    then codes "k_len("
    else if bytes_eq callee (codes "slice")
    then codes "k_slice("
    else if bytes_eq callee (codes "to_string")
    then codes "k_to_string("
    else if bytes_eq callee (codes "to_int")
    then codes "k_to_int("
    else if bytes_eq callee (codes "to_float")
    then codes "k_to_float("
    else codes "kfn_" ++ callee ++ codes "("

-- What depends on the depth of an array.
abbrev pub with_depth : Option ℕ → (Bool → Emit) → Emit
with_depth none f = undefined
with_depth (some depth) f = f (ltb 1 depth)

abbrev pub with_nested : Option Bool → (Bool → Emit) → Emit
with_nested none f = undefined
with_nested (some nested) f = f nested

-- An element, converted where it is no array.
abbrev pub emit_cast : Bool → Emit → Emit
emit_cast nested m = if nested then m else (do put (codes "(int64_t)("); m; put (codes ")"))

module _ (numerics : Numerics) (context : Context) where
  unfoldable mutual
    unfolding array_depth emit_string_literal emit_char_literal emit_binary_op count

    pub emit_expr : AstNode → Emit
    emit_expr null = put (codes "0")
    emit_expr (literal_int line n) = put (numerics.print_int n ++ codes "LL")
    emit_expr (literal_float line text) = put (numerics.print_float (numerics.strtod_prefix text))
    emit_expr (literal_bool line b) = put (if b then codes "1" else codes "0")
    emit_expr (literal_char line c) = emit_char_literal c
    emit_expr (literal_string line text) = emit_string_literal text
    emit_expr (identifier_expr line name) = put name
    emit_expr (unary_expr line op operand) = do
      put (codes "(")
      put (unary_op op)
      emit_expr operand
      put (codes ")")
    emit_expr (binary_expr line op left right) =
        if is_plus op
        then (do
          put (codes "k_plus(")
          emit_expr left
          put (codes ", ")
          emit_expr right
          put (codes ")"))
        else (do
          put (codes "(")
          emit_expr left
          emit_binary_op op
          emit_expr right
          put (codes ")"))
    emit_expr (call_expr line callee arguments) = do
      put (callee_text callee)
      emit_arguments true arguments
      put (codes ")")
    emit_expr (index_expr line array index) = with_depth (array_depth context array) λ nested. (do
      put (codes "(*(")
      put (if nested then codes "KArr *)k_arr_index(" else codes "int64_t *)k_arr_index(")
      emit_expr array
      put (codes ", ")
      emit_expr index
      put (if nested then codes ", sizeof(KArr))" else codes ", sizeof(int64_t))")
      put (codes ")"))
    emit_expr (array_literal line nil) = put (codes "k_arr_from_values(NULL, 0)")
    emit_expr (array_literal line (cons node nodes)) =
        with_nested (first_is_array (cons node nodes)) λ nested. (do
          put (
              if nested
              then codes "k_arr_from_arrays((KArr[]){"
              else codes "k_arr_from_values((int64_t[]){")
          emit_cast nested (emit_expr node)
          emit_elements nested nodes
          put (codes "}, " ++ numerics.print_int (pos (count (cons node nodes))) ++ codes ")"))
    emit_expr (record_literal line name fields) = do
      put (codes "(krec_" ++ name ++ codes "){")
      emit_fields true fields
      put (codes "}")
    emit_expr (member_expr line target member) = do
      put (codes "(")
      emit_expr target
      put (codes ")." ++ member)
    emit_expr _ = do put (codes "0"); fail

    pub emit_arguments : Bool → AstNodeList → Emit
    emit_arguments first nil = skip
    emit_arguments first (cons argument arguments) = do
      between first
      emit_expr argument
      emit_arguments false arguments

    -- The elements behind the first one.
    pub emit_elements : Bool → AstNodeList → Emit
    emit_elements nested nil = skip
    emit_elements nested (cons node nodes) = do
      put (codes ", ")
      emit_cast nested (emit_expr node)
      emit_elements nested nodes

    pub emit_fields : Bool → AstNodeList → Emit
    emit_fields first nil = skip
    emit_fields first (cons (field_init line name value) fields) = do
      between first
      put (codes "." ++ name ++ codes " = ")
      emit_expr value
      emit_fields false fields
    emit_fields first (cons _ fields) = undefined
