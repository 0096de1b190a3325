-- ===== src/Semantic/Expr.antt =====
-- src/semantic/semantic.c: `check_expr`.
use kratos_lang.Prelude.{
  ℕ, Bool, false, not, ◌||◌, Bytes, Option, none, some, List, [], bytes_eq, if◌then◌else◌, ◌==◌,
}
use kratos_lang.Ast.{
  AstNode, AstNodeList, nil, cons, literal_int, literal_float, literal_bool, literal_char,
  literal_string, identifier_expr, unary_expr, binary_expr, call_expr, array_literal, index_expr,
  record_literal, field_init, member_expr, null, count, line_of, type_int, type_float, type_bool,
  type_char, type_string, type_void, type_record,
}
use kratos_lang.Semantic.Types.{TypeInfo, type_info, type_info_simple}
use kratos_lang.Semantic.State.{
  RecordFieldInfo, RecordTypeInfo, M, ◌>>=◌, ◌>>◌, pure, message, error_if, scope_find,
  record_type_find,
}
use kratos_lang.Semantic.Operators.{
  invalid, get, failing, is_logical, check_identifier, check_unary, check_logical, check_binary,
  check_len, check_slice, check_conversion, callee_of, params_of, return_type_of, check_argument,
  check_element, array_type, check_index, field_index, check_init, check_missing, check_member,
}

abbrev pub is_conversion : Bytes → Bool
is_conversion callee =
    bytes_eq callee (message "to_string")
    || bytes_eq callee (message "to_int")
    || bytes_eq callee (message "to_float")

-- A call of the declaration that was found, with the check of its arguments.
unfoldable pub check_call : ℕ → ℕ → Option AstNode → (AstNodeList → M (Unit {0})) → M TypeInfo
check_call line given none arguments = failing line (message "chiamata a una craft inesistente")
check_call line given (some func) arguments = do
  error_if (not (count (params_of func) == given)) line (message "numero di argomenti errato")
  arguments (params_of func)
  pure (return_type_of func)

-- A record literal of the record type that was found, with the check of its initializers.
unfoldable pub check_record :
    ℕ → Option RecordTypeInfo → (List RecordFieldInfo → M (List ℕ)) → M TypeInfo
check_record line none inits = failing line (message "tipo record inesistente")
check_record line (some rec) inits = do
  initialized ← inits rec.fields
  check_missing line initialized 0 rec.fields
  pure (type_info type_record 0 (some rec.name))

unfoldable mutual
  pub check_expr : AstNode → M TypeInfo
  check_expr null = pure invalid
  check_expr (literal_int _ _) = pure (type_info_simple type_int 0)
  check_expr (literal_float _ _) = pure (type_info_simple type_float 0)
  check_expr (literal_bool _ _) = pure (type_info_simple type_bool 0)
  check_expr (literal_char _ _) = pure (type_info_simple type_char 0)
  check_expr (literal_string _ _) = pure (type_info_simple type_string 0)
  check_expr (identifier_expr line name) = do
    analyzer ← get
    check_identifier line (scope_find analyzer.scope name)
  check_expr (unary_expr line op operand) = do type ← check_expr operand; check_unary line op type
  check_expr (binary_expr line op left right) = do
    left_type ← check_expr left
    if is_logical op
        then (do
          check_logical line left_type
          right_type ← check_expr right
          check_logical line right_type
          pure (type_info_simple type_bool 0))
        else (do right_type ← check_expr right; check_binary line op left_type right_type)
  check_expr (call_expr line callee arguments) =
      if bytes_eq callee (message "len")
      then check_len_call line arguments
      else if bytes_eq callee (message "slice")
      then check_slice_call line arguments
      else if is_conversion callee
      then check_conversion_call line callee arguments
      else (do
        analyzer ← get
        check_call line (count arguments) (callee_of (scope_find analyzer.scope callee))
            (λ params. check_arguments line params arguments))
  check_expr (array_literal line elements) = do
    element ← check_elements line (false, type_info_simple type_void 0) elements
    pure (array_type element)
  check_expr (index_expr line array index) = do
    array_info ← check_expr array
    index_info ← check_expr index
    check_index line array_info index_info
  check_expr (record_literal line name inits) = do
    analyzer ← get
    check_record line (record_type_find analyzer.records (some name))
        (λ fields. check_inits fields [] inits)
  check_expr (member_expr line target member) = do
    target_type ← check_expr target
    analyzer ← get
    check_member line member target_type (record_type_find analyzer.records target_type.record_name)
  check_expr other = failing (line_of other) (message "espressione non valida")

  pub check_len_call : ℕ → AstNodeList → M TypeInfo
  check_len_call line (cons argument nil) = do type ← check_expr argument; check_len line type
  check_len_call line _ = failing line (message "len richiede un argomento")

  pub check_slice_call : ℕ → AstNodeList → M TypeInfo
  check_slice_call line (cons source (cons start (cons end nil))) = do
    source_type ← check_expr source
    start_type ← check_expr start
    end_type ← check_expr end
    check_slice line source_type start_type end_type
  check_slice_call line _ = failing line (message "slice richiede tre argomenti")

  pub check_conversion_call : ℕ → Bytes → AstNodeList → M TypeInfo
  check_conversion_call line callee (cons argument nil) = do
    type ← check_expr argument
    check_conversion line callee type
  check_conversion_call line callee _ =
      failing line (message "la conversione richiede un argomento")

  -- The arguments that have a parameter.
  pub check_arguments : ℕ → AstNodeList → AstNodeList → M (Unit {0})
  check_arguments line (cons p params) (cons argument arguments) = do
    arg ← check_expr argument
    check_argument line arg p
    check_arguments line params arguments
  check_arguments line _ _ = pure tt

  pub check_elements : ℕ → Bool × TypeInfo → AstNodeList → M (Bool × TypeInfo)
  check_elements line element nil = pure element
  check_elements line element (cons node nodes) = do
    item ← check_expr node
    next ← check_element line element item
    check_elements line next nodes

  -- The parser puts no other nodes into this list than initializers.
  pub check_inits : List RecordFieldInfo → List ℕ → AstNodeList → M (List ℕ)
  check_inits fields initialized (cons (field_init line name value) inits) = do
    next ← check_init line fields initialized (field_index fields name) (check_expr value)
    check_inits fields next inits
  check_inits fields initialized (cons other inits) = check_inits fields initialized inits
  check_inits fields initialized nil = pure initialized
