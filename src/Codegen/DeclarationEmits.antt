-- ===== src/Codegen/DeclarationEmits.antt =====
-- What src/codegen/codegen.c writes in front of the crafts: the runtime, the records, the prototypes and the globals.
use kratos_lang.Prelude.{ℕ, ◌≡◌, Bool, true, false, Bytes, List, [], ◌∷◌, Option, arith, and_left}
use kratos_lang.Ast.{
  AstNode, AstNodeList, KratosType, cons, func_decl, nil, param, record_decl, record_field,
  var_decl,
}
use kratos_lang.Codegen.Emitter.{◌>>◌, Emit, put, between, emit_c_type}
use kratos_lang.Codegen.Preamble.{
  array_text, conversion_text, emit_runtime, operator_text, put_lines, shout_text, string_text,
}
use kratos_lang.Codegen.Program.{
  emit_global, emit_params, emit_prototype, emit_signature_params, emit_struct, emit_struct_fields,
  emit_typedef,
}
use kratos_lang.Codegen.Printable.{
  printable_body, printable_declaration, printable_params, printable_record_fields,
}
use kratos_lang.Codegen.Emits.{
  Emits, Emits-if, Emits-put, Emits-skip, Emits-text, Emits-then, emit_c_type-Emits,
}
use kratos_lang.Codegen.ExprEmits.{between-Emits}

pub put_lines-Emits : (lines : List Bytes) → Emits (put_lines lines)
put_lines-Emits [] = Emits-skip
put_lines-Emits (line ∷ lines) = Emits-text line _ (put_lines-Emits lines)

pub emit_runtime-Emits : Emits emit_runtime
unfolding emit_runtime
emit_runtime-Emits = Emits-then _ _ (put_lines-Emits array_text) (
    Emits-then _ _ (put_lines-Emits shout_text) (
      Emits-then _ _ (put_lines-Emits string_text)
        (Emits-then _ _ (put_lines-Emits conversion_text) (put_lines-Emits operator_text))))

-- A type, a name, and the rest.
typed :
    (type : KratosType) (depth : ℕ) (record_name : Option Bytes) (text : Bytes) (g : Emit)
    → Emits g
    → Emits (emit_c_type type depth record_name >> (put text >> g))
typed type depth record_name text g h =
    Emits-then _ _ (emit_c_type-Emits type depth record_name) (Emits-text text g h)

-- A type and a name.
named :
    (type : KratosType) (depth : ℕ) (record_name : Option Bytes) (text : Bytes)
    → Emits (emit_c_type type depth record_name >> put text)
named type depth record_name text =
    Emits-then _ _ (emit_c_type-Emits type depth record_name) (Emits-put text)

pub emit_typedef-Emits :
    (node : AstNode) → printable_declaration node ≡ true → Emits (emit_typedef node)
unfolding emit_typedef
emit_typedef-Emits (record_decl line name fields) h = Emits-put _
emit_typedef-Emits _ h = Emits-skip

emit_struct_fields-Emits :
    (fields : AstNodeList)
    → printable_record_fields fields ≡ true
    → Emits (emit_struct_fields fields)
unfolding emit_struct_fields printable_record_fields
emit_struct_fields-Emits nil h = Emits-skip
emit_struct_fields-Emits (cons (record_field line type depth record_name name) fields) h =
    Emits-text _ _ (typed type depth record_name _ _ (emit_struct_fields-Emits fields h))
emit_struct_fields-Emits (cons _ fields) h = absurd (ground (arith, h))

pub emit_struct-Emits :
    (node : AstNode) → printable_declaration node ≡ true → Emits (emit_struct node)
unfolding emit_struct printable_declaration
emit_struct-Emits (record_decl line name fields) h =
    Emits-text _ _
      (Emits-then (emit_struct_fields fields) _ (emit_struct_fields-Emits fields h) (Emits-put _))
emit_struct-Emits _ h = Emits-skip

emit_params-Emits :
    (named first : Bool) (params : AstNodeList)
    → printable_params params ≡ true
    → Emits (emit_params named first params)
unfolding emit_params printable_params
emit_params-Emits named first nil h = Emits-skip
emit_params-Emits named first (cons (param line type depth record_name name) params) h =
    Emits-then (between first) _ (between-Emits first) (
      Emits-then (emit_c_type type depth record_name) _ (emit_c_type-Emits type depth record_name) (
        Emits-then _ _ (Emits-if named _ _ (Emits-put _) Emits-skip)
          (emit_params-Emits named false params h)))
emit_params-Emits named first (cons _ params) h = absurd (ground (arith, h))

pub signature-Emits :
    (named : Bool) (params : AstNodeList)
    → printable_params params ≡ true
    → Emits (emit_signature_params named params)
signature-Emits named nil h = Emits-put _
signature-Emits named (cons node nodes) h = emit_params-Emits named true (cons node nodes) h

pub emit_prototype-Emits :
    (node : AstNode) → printable_declaration node ≡ true → Emits (emit_prototype node)
unfolding emit_prototype printable_declaration
emit_prototype-Emits (func_decl line type record_name name params body) h =
    typed type 0 record_name _ _ (
      Emits-then (emit_signature_params false params) _
        (signature-Emits false params (and_left _ (printable_body body) h)) (Emits-put _))
emit_prototype-Emits _ h = Emits-skip

pub emit_global-Emits :
    (node : AstNode) → printable_declaration node ≡ true → Emits (emit_global node)
unfolding emit_global
emit_global-Emits (var_decl line is_const depth type record_name name initializer) h =
    named type depth record_name _
emit_global-Emits _ h = Emits-skip
