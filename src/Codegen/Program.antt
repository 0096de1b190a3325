-- ===== src/Codegen/Program.antt =====
-- src/codegen/codegen.c: `emit_function` and `codegen_emit_c`.
use kratos_lang.Prelude.{
  ℕ, Bool, true, false, Bytes, codes, List, [], ◌++◌, ◌||◌, Option, none, some, bytes_eq,
  if◌then◌else◌,
}
use kratos_lang.Ast.{
  AstNode, AstNodeList, cons, func_decl, nil, null, param, record_decl, record_field, var_decl,
}
use kratos_lang.Runtime.Value.{Numerics}
use kratos_lang.Codegen.Emitter.{
  ◌>>◌, Context, Emit, Emitter, between, emit_c_type, emit_indent, put, set_indent, skip, undefined,
}
use kratos_lang.Codegen.Expr.{emit_expr}
use kratos_lang.Codegen.Stmt.{emit_block_body}
use kratos_lang.Codegen.Preamble.{emit_runtime}

-- The loop over the declarations of the program.
abbrev pub each : (AstNode → Emit) → AstNodeList → Emit
each f nil = skip
each f (cons null nodes) = undefined
each f (cons node nodes) = do f node; each f nodes

unfoldable pub emit_typedef : AstNode → Emit
emit_typedef (record_decl line name fields) =
    put (codes "typedef struct krec_" ++ name ++ codes " krec_" ++ name ++ codes ";\n")
emit_typedef _ = skip

unfoldable pub emit_struct_fields : AstNodeList → Emit
unfolding emit_c_type
emit_struct_fields nil = skip
emit_struct_fields (cons (record_field line type depth record_name name) fields) = do
  put (codes "    ")
  emit_c_type type depth record_name
  put (codes " " ++ name ++ codes ";\n")
  emit_struct_fields fields
emit_struct_fields (cons _ fields) = undefined

unfoldable pub emit_struct : AstNode → Emit
unfolding emit_struct_fields
emit_struct (record_decl line name fields) = do
  put (codes "struct krec_" ++ name ++ codes " {\n")
  emit_struct_fields fields
  put (codes "};\n\n")
emit_struct _ = skip

-- The parameters in parentheses, with their names in front of a body and without in a prototype.
unfoldable pub emit_params : Bool → Bool → AstNodeList → Emit
unfolding emit_c_type
emit_params named first nil = skip
emit_params named first (cons (param line type depth record_name name) params) = do
  between first
  emit_c_type type depth record_name
  if named then put (codes " " ++ name) else skip
  emit_params named false params
emit_params named first (cons _ params) = undefined

abbrev pub emit_signature_params : Bool → AstNodeList → Emit
emit_signature_params named nil = put (codes "void")
emit_signature_params named params = emit_params named true params

unfoldable pub emit_prototype : AstNode → Emit
unfolding emit_c_type emit_params
emit_prototype (func_decl line type record_name name params body) = do
  emit_c_type type 0 record_name
  put (codes " kfn_" ++ name ++ codes "(")
  emit_signature_params false params
  put (codes ");\n")
emit_prototype _ = skip

-- A craft named `main`
unfoldable pub has_main : AstNodeList → Bool
has_main nil = false
has_main (cons (func_decl line type record_name name params body) nodes) =
    bytes_eq name (codes "main") || has_main nodes
has_main (cons _ nodes) = has_main nodes

unfoldable pub emit_global : AstNode → Emit
unfolding emit_c_type
emit_global (var_decl line is_const depth type record_name name initializer) = do
  emit_c_type type depth record_name
  put (codes " " ++ name ++ codes ";\n")
emit_global _ = skip

-- `e->indent = 1` in front of the body of a function, and `e->indent = 0` behind it.
abbrev pub body_indented : Emit → Emit
body_indented m = do set_indent (λ n. 1); m; set_indent (λ n. 0)

module _ (numerics : Numerics) (declarations : AstNodeList) where
  abbrev pub context : Option AstNode → Context
  context function = record { declarations = declarations; function = function }

  unfoldable pub emit_init : AstNode → Emit
  unfolding emit_expr
  emit_init (var_decl line is_const depth type record_name name initializer) = do
    emit_indent
    put (name ++ codes " = ")
    emit_expr numerics (context none) initializer
    put (codes ";\n")
  emit_init _ = skip

  unfoldable pub emit_function : AstNode → Emit
  unfolding emit_c_type emit_params emit_block_body
  emit_function (func_decl line type record_name name params body) = do
    emit_c_type type 0 record_name
    put (codes " kfn_" ++ name ++ codes "(")
    emit_signature_params true params
    put (codes ")\n{\n")
    body_indented (
        emit_block_body numerics (context (some (func_decl line type record_name name params body)))
          body)
    put (codes "}\n\n")
  emit_function _ = skip

  unfoldable pub emit_program : Emit
  unfolding emit_runtime emit_typedef emit_struct emit_prototype emit_global emit_init emit_function
      has_main
  emit_program = do
    emit_runtime
    each emit_typedef declarations
    put (codes "\n")
    each emit_struct declarations
    each emit_prototype declarations
    put (codes "\n")
    each emit_global declarations
    put (codes "\n")
    put (codes "static void kratos_init(void)\n{\n")
    body_indented (each emit_init declarations)
    put (codes "}\n\n")
    each emit_function declarations
    put (codes "int main(void)\n{\n    kratos_init();\n")
    if has_main declarations then put (codes "    kfn_main();\n") else skip
    put (codes "    return 0;\n}\n")

abbrev pub fresh : Emitter
fresh = record { output = []; indent = 0; had_error = false }

abbrev pub status_of : Option Emitter → Option (ℕ × List Bytes)
status_of none = none
status_of (some e) = some (if e.had_error then 1 else 0, e.output)

-- The status, and what was written, the last first.
unfoldable pub codegen_emit_c : Numerics → AstNodeList → Option (ℕ × List Bytes)
unfolding emit_program
codegen_emit_c numerics declarations = status_of (emit_program numerics declarations fresh)
