-- ===== src/Tests/Codegen.antt =====
-- Small programs printed by the model of src/codegen.
use kratos_lang.Prelude.{
  ◌≡◌, refl, true, false, Bytes, codes, List, [], ◌∷◌, ◌++◌, Option, none, some,
}
use kratos_lang.Ast.{
  AstNode, assign, block, cons, drive_stmt, identifier_expr, literal_bool, nil, push_stmt,
  type_bool, var_decl,
}
use kratos_lang.Codegen.Emitter.{put, set_indent, emit_indent, Context, Emitter}
use kratos_lang.Codegen.Literals.{string_literal, escapes, escaped}
use kratos_lang.Codegen.CSource.{
  c_literal, c_source, c_reads, replaced, spliced, trigraph, trigraph_behind, has_trigraph,
}
use kratos_lang.Codegen.StringLiterals.{until_zero, string_literal-c_literal}
use kratos_lang.Codegen.Expr.{emit_expr}
use kratos_lang.Codegen.Stmt.{emit_stmt}
use kratos_lang.Codegen.Program.{codegen_emit_c, fresh}
use kratos_lang.Codegen.Printable.{printable}
use kratos_lang.Codegen.Status.{codegen_emit_c-prints}
use kratos_lang.Tests.Runtime.{whole_numerics, x_name}
use kratos_lang.Tests.Semantic.{main_program}

abbrev nowhere : Context
nowhere = record { declarations = nil; function = none }

-- What was written, in its order.
abbrev joined : List Bytes → Bytes
joined [] = []
joined (text ∷ texts) = joined texts ++ text

abbrev written : Option Emitter → Option Bytes
written none = none
written (some e) = some (joined e.output)

-- drive (k_bool x = true; x; x = false) { push; }
abbrev pushing : AstNode
pushing =
    drive_stmt 1 (var_decl 1 false 0 type_bool none x_name (literal_bool 1 true))
      (identifier_expr 1 x_name) (assign 1 (identifier_expr 1 x_name) (literal_bool 1 false))
      (block 1 (cons (push_stmt 1) nil))

-- The step stands behind the `continue`, which C therefore passes over.
pushing_text :
    written (emit_stmt whole_numerics nowhere pushing fresh)
    ≡ some (
        codes "{\n"
        ++ codes "    int x = 1;\n"
        ++ codes "    for (; x; ) {\n"
        ++ codes "        continue;\n"
        ++ codes "        x = 0;\n"
        ++ codes "    }\n"
        ++ codes "}\n")
unfolding emit_stmt emit_expr emit_indent put set_indent
pushing_text = refl

-- A text whose trigraph the C of 2011 replaces: another text is read.
trigraph_text : c_literal (c_source (string_literal (codes "what??!"))) ≡ some (codes "what|", [])
unfolding c_literal c_source string_literal escapes escaped replaced spliced trigraph c_reads
trigraph_text = refl

quoted_clean : has_trigraph (until_zero (codes "a?\"\\\n7")) ≡ false
unfolding trigraph_behind
quoted_clean = refl

string_literal-c_literal_example :
    c_literal (c_source (string_literal (codes "a?\"\\\n7") ++ codes ");"))
    ≡ some (codes "a?\"\\\n7", c_source (codes ");"))
string_literal-c_literal_example =
    string_literal-c_literal (codes "a?\"\\\n7") (codes ");") quoted_clean

main_printable : printable main_program ≡ true
unfolding printable
main_printable = refl

codegen_emit_c-prints_example :
    (output : List Bytes) × (codegen_emit_c whole_numerics main_program ≡ some (0, output))
codegen_emit_c-prints_example = codegen_emit_c-prints whole_numerics main_program main_printable
