-- ===== src/Parser/Program.antt =====
-- src/parser/parser.c: the declarations of a program, and `parser_parse_program`; and the parsing of a
-- source as `parse_source_file` of src/semantic/semantic.c does it.
use kratos_lang.Prelude.{
  ℕ, ◌+◌, ◌*◌, Bool, not, Bytes, Option, none, some, length, ◌&&◌, if◌then◌else◌,
}
use kratos_lang.Lexer.Token.{
  TokenType, token_eof, token_identifier, token_k_const, token_craft, token_wield, token_record,
  token_lparen, token_rparen,
}
use kratos_lang.Lexer.Next.{lexer_init}
use kratos_lang.Ast.{AstNode, AstNodeList, program, func_decl, param, KratosType}
use kratos_lang.Parser.Kinds.{token_eq}
use kratos_lang.Parser.State.{
  Parser, P, ◌>>=◌, ◌>>◌, pure, get, check, match, advance_token, expect, expect_name, parser_init,
}
use kratos_lang.Parser.Expr.{list_until}
use kratos_lang.Parser.Stmt.{
  parse_type_extended, array_suffix, parse_block, parse_statement, parse_record_decl,
  parse_wield_stmt, finish_var_decl, while_parse,
}

unfoldable pub parse_param : ℕ → P AstNode
parse_param fuel = do
  parser ← get
  type ← parse_type_extended
  is_array ← array_suffix fuel
  name ← expect_name token_identifier
  pure (param parser.current.line type.0 is_array type.1 name)

unfoldable pub parse_function_decl : ℕ → ℕ → KratosType × Option Bytes → P AstNode
parse_function_decl fuel line return_type = do
  advance_token
  name ← expect_name token_identifier
  expect token_lparen
  params ← list_until token_rparen (parse_param fuel) fuel
  body ← parse_block (parse_statement fuel) fuel
  pure (func_decl line return_type.0 return_type.1 name params body)

-- A variable or a craft.
unfoldable pub parse_declaration : ℕ → P AstNode
parse_declaration fuel = do
  start ← get
  is_const ← match token_k_const
  type ← parse_type_extended
  parser ← get
  if not is_const && check parser token_craft
      then parse_function_decl fuel start.current.line type
      else finish_var_decl fuel start.current.line is_const type

unfoldable pub parse_top_level : ℕ → P AstNode
parse_top_level fuel = do
  parser ← get
  if check parser token_record
      then parse_record_decl fuel
      else if check parser token_wield
      then parse_wield_stmt
      else parse_declaration fuel

abbrev pub before_end : TokenType → Bool
before_end type = not (token_eq type token_eof)

unfoldable pub parser_parse_program : ℕ → P AstNode
parser_parse_program fuel = do
  parser ← get
  declarations ← while_parse before_end (parse_top_level fuel) fuel
  pure (program parser.current.line declarations)

-- The program of a source, and the state behind it.
unfoldable pub parse_source : Bytes → Option (AstNode × Parser)
parse_source source = parser_parse_program (8 * length source + 8) (parser_init (lexer_init source))

-- The declarations of a program without a syntax error.
abbrev pub declarations_of : Option (AstNode × Parser) → Option AstNodeList
declarations_of (some (program line declarations, parser)) =
    if parser.had_error then none else some declarations
declarations_of _ = none

-- `parse_source_file` behind the reading of the file: `none` where the parser reports an error.
unfoldable pub parse_declarations : Bytes → Option AstNodeList
unfolding parse_source
parse_declarations source = declarations_of (parse_source source)
