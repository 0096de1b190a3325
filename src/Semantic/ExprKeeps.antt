-- ===== src/Semantic/ExprKeeps.antt =====
-- `check_expr` of src/semantic/semantic.c only reports errors.
use kratos_lang.Prelude.{ℕ, suc, Bool, Option, none, some, Bytes, List, [], ◌∷◌}
use kratos_lang.Lexer.Token.{TokenType}
use kratos_lang.Ast.{
  AstNode, AstNodeList, nil, cons, literal_int, literal_float, literal_bool, literal_char,
  literal_string, identifier_expr, unary_expr, binary_expr, call_expr, array_literal, index_expr,
  record_literal, field_init, member_expr, null, count, type_record, type_bool,
}
use kratos_lang.Semantic.Expr.{
  check_expr, check_len_call, check_slice_call, check_conversion_call, check_arguments,
  check_elements, check_inits, check_call, check_record,
}
use kratos_lang.Semantic.Types.{TypeInfo, type_info, type_info_simple}
use kratos_lang.Semantic.State.{
  Symbol, M, RecordFieldInfo, RecordTypeInfo, scope_find, record_type_find,
}
use kratos_lang.Semantic.Operators.{
  failing, is_logical, check_identifier, check_unary, check_logical, check_binary, check_len,
  check_slice, check_conversion, callee_of, params_of, return_type_of, check_argument,
  check_element, array_type, check_index, field_index, check_init, check_missing, check_member,
  member_type, member_in,
}
use kratos_lang.Semantic.Keeps.{
  OnlyReports, reporting, OnlyReports-pure, OnlyReports-if, OnlyReports-then, OnlyReports-error_if,
  OnlyReports-bind, OnlyReports-get,
}

pub failing-OnlyReports : (line : ℕ) (m : Bytes) → OnlyReports (failing line m)
failing-OnlyReports line m = search reporting

check_identifier-OnlyReports :
    (line : ℕ) (symbol : Option Symbol) → OnlyReports (check_identifier line symbol)
unfolding check_identifier
check_identifier-OnlyReports line none = search reporting
check_identifier-OnlyReports line (some symbol) = search reporting

check_unary-OnlyReports :
    (line : ℕ) (op : TokenType) (t : TypeInfo) → OnlyReports (check_unary line op t)
unfolding check_unary
check_unary-OnlyReports line op t = search reporting

check_logical-OnlyReports : (line : ℕ) (t : TypeInfo) → OnlyReports (check_logical line t)
unfolding check_logical
check_logical-OnlyReports line t = search reporting

check_binary-OnlyReports :
    (line : ℕ) (op : TokenType) (left right : TypeInfo)
    → OnlyReports (check_binary line op left right)
unfolding check_binary
check_binary-OnlyReports line op left right = search reporting depth 9

check_len-OnlyReports : (line : ℕ) (t : TypeInfo) → OnlyReports (check_len line t)
unfolding check_len
check_len-OnlyReports line t = search reporting

check_slice-OnlyReports :
    (line : ℕ) (source start end : TypeInfo) → OnlyReports (check_slice line source start end)
unfolding check_slice
check_slice-OnlyReports line source start end = search reporting

check_conversion-OnlyReports :
    (line : ℕ) (callee : Bytes) (t : TypeInfo) → OnlyReports (check_conversion line callee t)
unfolding check_conversion
check_conversion-OnlyReports line callee t = search reporting depth 7

check_argument-OnlyReports :
    (line : ℕ) (arg : TypeInfo) (p : AstNode) → OnlyReports (check_argument line arg p)
unfolding check_argument
check_argument-OnlyReports line arg p = search reporting

check_element-OnlyReports :
    (line : ℕ) (element : Bool × TypeInfo) (item : TypeInfo)
    → OnlyReports (check_element line element item)
unfolding check_element
check_element-OnlyReports line (have_element, element) item = search reporting

check_index-OnlyReports :
    (line : ℕ) (array index : TypeInfo) → OnlyReports (check_index line array index)
unfolding check_index
check_index-OnlyReports line array index = search reporting

check_init-OnlyReports :
    (line : ℕ) (fields : List RecordFieldInfo) (initialized : List ℕ) (found : Option ℕ)
    {value : M TypeInfo}
    → OnlyReports value
    → OnlyReports (check_init line fields initialized found value)
unfolding check_init
check_init-OnlyReports line fields initialized none h = search reporting
check_init-OnlyReports line fields initialized (some found) h = search reporting

check_missing-OnlyReports :
    (line : ℕ) (initialized : List ℕ) (f : ℕ) (fields : List RecordFieldInfo)
    → OnlyReports (check_missing line initialized f fields)
unfolding check_missing
check_missing-OnlyReports line initialized f [] = search reporting
check_missing-OnlyReports line initialized f (field ∷ fields) =
    OnlyReports-then (OnlyReports-error_if _ _ _)
      (check_missing-OnlyReports line initialized (suc f) fields)

member_type-OnlyReports :
    (line : ℕ) (m : Bytes) (found : Option RecordFieldInfo) → OnlyReports (member_type line m found)
unfolding member_type
member_type-OnlyReports line m none = search reporting
member_type-OnlyReports line m (some field) = search reporting

member_in-OnlyReports :
    (line : ℕ) (member : Bytes) (found : Option RecordTypeInfo)
    → OnlyReports (member_in line member found)
unfolding member_in
member_in-OnlyReports line member none = search reporting
member_in-OnlyReports line member (some rec) = member_type-OnlyReports line _ _

check_member-OnlyReports :
    (line : ℕ) (member : Bytes) (target : TypeInfo) (found : Option RecordTypeInfo)
    → OnlyReports (check_member line member target found)
unfolding check_member
check_member-OnlyReports line member target found = search (reporting, member_in-OnlyReports)

check_call-OnlyReports :
    (line given : ℕ) (func : Option AstNode) {arguments : AstNodeList → M (Unit {0})}
    → ((params : AstNodeList) → OnlyReports (arguments params))
    → OnlyReports (check_call line given func arguments)
unfolding check_call
check_call-OnlyReports line given none h = search reporting
check_call-OnlyReports line given (some func) h =
    OnlyReports-then (OnlyReports-error_if _ _ _)
      (OnlyReports-then (h (params_of func)) (OnlyReports-pure (return_type_of func)))

check_record-OnlyReports :
    (line : ℕ) (rec : Option RecordTypeInfo) {inits : List RecordFieldInfo → M (List ℕ)}
    → ((fields : List RecordFieldInfo) → OnlyReports (inits fields))
    → OnlyReports (check_record line rec inits)
unfolding check_record
check_record-OnlyReports line none h = search reporting
check_record-OnlyReports line (some rec) h = OnlyReports-bind (h rec.fields) λ initialized.
    OnlyReports-then (check_missing-OnlyReports line initialized 0 rec.fields)
      (OnlyReports-pure (type_info type_record 0 (some rec.name)))

ruleset operators = (
  reporting, failing-OnlyReports, check_identifier-OnlyReports, check_unary-OnlyReports,
  check_logical-OnlyReports, check_binary-OnlyReports, check_len-OnlyReports,
  check_slice-OnlyReports, check_conversion-OnlyReports, check_index-OnlyReports,
  check_member-OnlyReports,
)

mutual
  unfolding check_expr

  expr-OnlyReports : (node : AstNode) → OnlyReports (check_expr node)
  expr-OnlyReports null = search reporting
  expr-OnlyReports (literal_int _ _) = search reporting
  expr-OnlyReports (literal_float _ _) = search reporting
  expr-OnlyReports (literal_bool _ _) = search reporting
  expr-OnlyReports (literal_char _ _) = search reporting
  expr-OnlyReports (literal_string _ _) = search reporting
  expr-OnlyReports (identifier_expr line name) = search operators
  expr-OnlyReports (unary_expr line op operand) =
      OnlyReports-bind (expr-OnlyReports operand) λ t. check_unary-OnlyReports line op t
  expr-OnlyReports (binary_expr line op left right) =
      let second = expr-OnlyReports right in
      OnlyReports-bind (expr-OnlyReports left) λ t.
        OnlyReports-if (is_logical op)
          (OnlyReports-then (check_logical-OnlyReports line t) (
            OnlyReports-bind second λ u.
              OnlyReports-then (check_logical-OnlyReports line u)
                (OnlyReports-pure (type_info_simple type_bool 0))))
          (OnlyReports-bind second λ u. check_binary-OnlyReports line op t u)
  expr-OnlyReports (call_expr line callee arguments) =
      OnlyReports-if _ (len-OnlyReports line arguments) (
        OnlyReports-if _ (slice-OnlyReports line arguments) (
          OnlyReports-if _ (conversion-OnlyReports line callee arguments) (
            OnlyReports-bind OnlyReports-get λ s.
              check_call-OnlyReports line (count arguments) (callee_of (scope_find s.scope callee))
                λ params. arguments-OnlyReports line params arguments)))
  expr-OnlyReports (array_literal line elements) =
      OnlyReports-bind (elements-OnlyReports line _ elements)
        λ element. OnlyReports-pure (array_type element)
  expr-OnlyReports (index_expr line array index) =
      OnlyReports-bind (expr-OnlyReports array)
        λ t. OnlyReports-bind (expr-OnlyReports index) λ u. check_index-OnlyReports line t u
  expr-OnlyReports (record_literal line name inits) = OnlyReports-bind OnlyReports-get λ s.
      check_record-OnlyReports line (record_type_find s.records (some name))
        λ fields. inits-OnlyReports fields [] inits
  expr-OnlyReports (member_expr line target member) =
      OnlyReports-bind (expr-OnlyReports target) λ t.
        OnlyReports-bind OnlyReports-get
          λ s. check_member-OnlyReports line member t (record_type_find s.records t.record_name)
  expr-OnlyReports other = failing-OnlyReports _ _

  len-OnlyReports : (line : ℕ) (nodes : AstNodeList) → OnlyReports (check_len_call line nodes)
  len-OnlyReports line (cons argument nil) =
      OnlyReports-bind (expr-OnlyReports argument) λ t. check_len-OnlyReports line t
  len-OnlyReports line _ = failing-OnlyReports _ _

  slice-OnlyReports : (line : ℕ) (nodes : AstNodeList) → OnlyReports (check_slice_call line nodes)
  slice-OnlyReports line (cons source (cons start (cons end nil))) =
      OnlyReports-bind (expr-OnlyReports source) λ t.
        OnlyReports-bind (expr-OnlyReports start)
          λ u. OnlyReports-bind (expr-OnlyReports end) λ v. check_slice-OnlyReports line t u v
  slice-OnlyReports line _ = failing-OnlyReports _ _

  conversion-OnlyReports :
      (line : ℕ) (callee : Bytes) (nodes : AstNodeList)
      → OnlyReports (check_conversion_call line callee nodes)
  conversion-OnlyReports line callee (cons argument nil) =
      OnlyReports-bind (expr-OnlyReports argument) λ t. check_conversion-OnlyReports line callee t
  conversion-OnlyReports line callee _ = failing-OnlyReports _ _

  arguments-OnlyReports :
      (line : ℕ) (params nodes : AstNodeList) → OnlyReports (check_arguments line params nodes)
  arguments-OnlyReports line (cons p params) (cons argument arguments) =
      OnlyReports-bind (expr-OnlyReports argument) λ t.
        OnlyReports-then (check_argument-OnlyReports line t p)
          (arguments-OnlyReports line params arguments)
  arguments-OnlyReports line _ _ = OnlyReports-pure _

  elements-OnlyReports :
      (line : ℕ) (element : Bool × TypeInfo) (nodes : AstNodeList)
      → OnlyReports (check_elements line element nodes)
  elements-OnlyReports line element nil = OnlyReports-pure _
  elements-OnlyReports line element (cons node nodes) =
      OnlyReports-bind (expr-OnlyReports node) λ t.
        OnlyReports-bind (check_element-OnlyReports line element t)
          λ next. elements-OnlyReports line next nodes

  inits-OnlyReports :
      (fields : List RecordFieldInfo) (initialized : List ℕ) (nodes : AstNodeList)
      → OnlyReports (check_inits fields initialized nodes)
  inits-OnlyReports fields initialized (cons (field_init line name value) inits) =
      OnlyReports-bind
        (check_init-OnlyReports line fields initialized (field_index fields name)
          (expr-OnlyReports value))
        λ next. inits-OnlyReports fields next inits
  inits-OnlyReports fields initialized (cons other inits) =
      inits-OnlyReports fields initialized inits
  inits-OnlyReports fields initialized nil = OnlyReports-pure _

-- Checking an expression leaves scopes, records and context alone, and takes no error back.
pub check_expr-OnlyReports : (node : AstNode) → OnlyReports (check_expr node)
check_expr-OnlyReports node = expr-OnlyReports node
