-- ===== src/Codegen/Emitter.antt =====
-- src/codegen/codegen.c: the emitter, the types and the literals that it writes.
use kratos_lang.Prelude.{
  ℕ, zero, suc, ◌+◌, ◌-◌, Bool, true, Bytes, codes, List, ◌∷◌, ◌++◌, Option, none, some,
  if◌then◌else◌,
}
use kratos_lang.Ast.{
  AstNode, AstNodeList, KratosType, type_int, type_float, type_bool, type_char, type_string,
  type_void, type_record,
}

-- `output` is what was written, the last first. The program and the craft in hand, which the emitter
-- only reads, are a context.
pub record Emitter : Type 0 where
  pub output : List Bytes
  pub indent : ℕ
  pub had_error : Bool

pub record Context : Type 0 where
  pub declarations : AstNodeList
  pub function : Option AstNode

-- Writing; `none` is what C leaves undefined, a null pointer or a wrong member of the union.
abbrev pub Emit : Type 0
Emit = Emitter → Option Emitter

abbrev pub then_emit : Option Emitter → Emit → Option Emitter
then_emit none g = none
then_emit (some e) g = g e

infixl 5 ◌>>◌
abbrev pub ◌>>◌ : Emit → Emit → Emit
◌>>◌ f g e = then_emit (f e) g

abbrev pub skip : Emit
skip e = some e

abbrev pub undefined : Emit
undefined e = none

-- `fputs` and `fprintf`
unfoldable pub put : Bytes → Emit
put text e = some (record e { output = text ∷ e.output })

-- `e->had_error = 1`
unfoldable pub fail : Emit
fail e = some (record e { had_error = true })

unfoldable pub set_indent : (ℕ → ℕ) → Emit
set_indent f e = some (record e { indent = f e.indent })

-- `e->indent++`, and `e->indent--` behind it.
abbrev pub indented : Emit → Emit
indented m = do set_indent (λ n. n + 1); m; set_indent (λ n. n - 1)

abbrev pub spaces : ℕ → Emit
spaces zero = skip
spaces (suc n) = do put (codes "    "); spaces n

unfoldable pub emit_indent : Emit
emit_indent e = spaces e.indent e

abbrev pub c_base : KratosType → Bytes
c_base type_int = codes "int64_t"
c_base type_float = codes "double"
c_base type_bool = codes "int"
c_base type_char = codes "char"
c_base type_string = codes "const char *"
c_base type_void = codes "void"
c_base type_record = codes "void *"

abbrev pub c_type : KratosType → Option Bytes → Bytes
c_type type_record (some name) = codes "krec_" ++ name
c_type type _ = c_base type

unfoldable pub emit_c_type : KratosType → ℕ → Option Bytes → Emit
emit_c_type type zero record_name = put (c_type type record_name)
emit_c_type type (suc depth) record_name = put (codes "KArr")

abbrev pub between : Bool → Emit
between first = if first then skip else put (codes ", ")
