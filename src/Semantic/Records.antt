-- ===== src/Semantic/Records.antt =====
-- src/semantic/semantic.c: `record_type_add`. The new record type is found by its name while its fields
-- are read; its fields are put in place behind the loop, as nothing reads them before.
use kratos_lang.Prelude.{
  ℕ, not, ◌&&◌, Bytes, Option, some, List, [], ◌∷◌, ◌++◌, bytes_eq, if◌then◌else◌, ◌==◌,
}
use kratos_lang.Ast.{AstNodeList, nil, cons, record_field, KratosType, type_void, type_record}
use kratos_lang.Semantic.Types.{type_info, type_eq, names_equal}
use kratos_lang.Semantic.State.{
  RecordFieldInfo, RecordTypeInfo, M, ◌>>=◌, ◌>>◌, pure, message, semantic_error, error_if, is_some,
  find_record, record_type_find, find_field,
}
use kratos_lang.Semantic.Operators.{get}

-- The type of a field named `record_name` in the record `name`.
unfoldable pub check_field_type : ℕ → Bytes → KratosType → ℕ → Option Bytes → M (Unit {0})
check_field_type line name type is_array record_name =
    if type_eq type type_void && (is_array == 0)
    then semantic_error line (message "k_void non puo' essere un tipo di campo")
    else if type_eq type type_record
    then (if names_equal record_name (some name) && (is_array == 0)
        then semantic_error line (message "un record non puo' contenere se stesso direttamente")
        else (do
          analyzer ← get
          error_if (not (is_some (record_type_find analyzer.records record_name))) line
              (message "tipo record del campo non dichiarato")))
    else pure tt

-- The loop over the fields; `seen` holds those that were read. The parser puts only fields here.
unfoldable pub check_fields : Bytes → List RecordFieldInfo → AstNodeList → M (List RecordFieldInfo)
check_fields name seen nil = pure seen
check_fields name seen (cons (record_field line type is_array record_name f_name) fields) = do
  error_if (is_some (find_field seen f_name)) line (message "campo duplicato nel record")
  check_field_type line name type is_array record_name
  check_fields name
      (seen ++ (record { name = f_name; type = type_info type is_array record_name } ∷ [])) fields
check_fields name seen (cons other fields) = check_fields name seen fields

unfoldable pub set_fields : Bytes → List RecordFieldInfo → List RecordTypeInfo → List RecordTypeInfo
set_fields name fields [] = []
set_fields name fields (info ∷ infos) =
    if bytes_eq info.name name
    then record info { fields = fields } ∷ infos
    else info ∷ set_fields name fields infos

unfoldable pub add_record : RecordTypeInfo → M (Unit {0})
add_record info s = (tt, record s { records = s.records ++ (info ∷ []) })

unfoldable pub put_fields : Bytes → List RecordFieldInfo → M (Unit {0})
put_fields name fields s = (tt, record s { records = set_fields name fields s.records })

unfoldable pub record_type_add : ℕ → Bytes → AstNodeList → M (Unit {0})
record_type_add line name fields = do
  analyzer ← get
  if is_some (find_record analyzer.records name)
      then semantic_error line (message "record gia' dichiarato")
      else (do
        add_record (record { name = name; fields = [] })
        infos ← check_fields name [] fields
        put_fields name infos)
