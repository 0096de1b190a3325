-- ===== src/Runtime/ParsedCrafts.antt =====
-- The shape of the crafts in the programs that src/parser/parser.c builds.
use kratos_lang.Prelude.{
  ℕ, zero, suc, ◌*◌, ◌+◌, ◌≡◌, refl, Bool, true, not, ◌&&◌, Bytes, length, Option, some,
  if◌then◌else◌, arith, and_intro,
}
use kratos_lang.Lexer.Token.{
  TokenType, token_craft, token_drive, token_hold, token_identifier, token_if, token_k_const,
  token_lbrace, token_lparen, token_press, token_push, token_rbrace, token_record, token_rparen,
  token_semicolon, token_shout, token_snap, token_string_literal, token_sweep, token_wield,
  token_yield,
}
use kratos_lang.Ast.{
  AstNode, AstNodeList, KratosType, assign, cons, expr_stmt, func_decl, is_assign, is_var_decl,
  null, program, push_stmt, snap_stmt, var_decl,
}
use kratos_lang.Parser.State.{
  P, Parser, advance_token, check, expect, expect_name, get, match, parser_init, pure,
}
use kratos_lang.Parser.Expr.{list_until, parse_assignment_or_expression, parse_expression}
use kratos_lang.Parser.Stmt.{
  in_braces, is_var_decl_starting, parse_block, parse_expression_statement, parse_jump,
  parse_parenthesised, parse_record_decl, parse_record_field, parse_shout_stmt, parse_statement,
  parse_type_extended, parse_wield_stmt, parse_yield_stmt, statement_of, while_parse,
}
use kratos_lang.Parser.Program.{
  before_end, parse_declaration, parse_function_decl, parse_param, parse_source, parse_top_level,
  parser_parse_program,
}
use kratos_lang.Lexer.Next.{lexer_init}
use kratos_lang.Parser.Gives.{
  Given, Given-holds, Gives, Gives-after, Gives-bind, Gives-if, Gives-map, Gives-pure, nothing,
  while_parse-Gives,
}
use kratos_lang.Runtime.Shape.{crafts_built, well_built}
use kratos_lang.Runtime.ParsedShapes.{
  finish_var_decl-Gives, parse_block-Gives, parse_drive_stmt-Gives, parse_hold_stmt-Gives,
  parse_if_stmt-Gives, parse_press_stmt-Gives, parse_sweep_stmt-Gives, parse_var_decl-Gives,
  var_decl_built,
}
use mathlib.Core.Path.{subst}

parse_jump-Gives :
    (node : ℕ → AstNode)
    → ((line : ℕ) → well_built (node line) ≡ true)
    → Gives well_built (parse_jump node)
unfolding parse_jump
parse_jump-Gives node h = Gives-after get _ λ parser.
    Gives-after advance_token _
      λ keyword. Gives-after (expect token_semicolon) _ λ end. Gives-pure _ (h parser.current.line)

parse_yield_stmt-Gives : (fuel : ℕ) → Gives well_built (parse_yield_stmt fuel)
unfolding parse_yield_stmt well_built
parse_yield_stmt-Gives fuel = Gives-after get _ λ parser. Gives-after advance_token _ λ keyword.
    Gives-after get _ λ next.
      Gives-after (if check next token_semicolon then pure null else parse_expression fuel) _
        λ value. Gives-after (expect token_semicolon) _ λ end. Gives-pure _ refl

parse_shout_stmt-Gives : (fuel : ℕ) → Gives well_built (parse_shout_stmt fuel)
unfolding parse_shout_stmt well_built
parse_shout_stmt-Gives fuel = Gives-after get _ λ parser. Gives-after advance_token _ λ keyword.
    Gives-after (parse_parenthesised fuel) _
      λ value. Gives-after (expect token_semicolon) _ λ end. Gives-pure _ refl

-- A declaration: the body of a craft.
abbrev declaration_built : AstNode → Bool
declaration_built (func_decl line type record_name name params body) = well_built body
declaration_built _ = true

-- Neither a craft nor a statement with others inside.
abbrev plain : AstNode → Bool
plain node = well_built node && declaration_built node

parse_wield_stmt-Gives : Gives plain parse_wield_stmt
unfolding parse_wield_stmt well_built
parse_wield_stmt-Gives = Gives-after get _ λ parser. Gives-after advance_token _ λ keyword.
    Gives-after (expect_name token_string_literal) _
      λ path. Gives-after (expect token_semicolon) _ λ end. Gives-pure _ refl

parse_record_decl-Gives : (fuel : ℕ) → Gives plain (parse_record_decl fuel)
unfolding parse_record_decl well_built
parse_record_decl-Gives fuel = Gives-after get _ λ parser. Gives-after advance_token _ λ keyword.
    Gives-after (expect_name token_identifier) _ λ name.
      Gives-after (expect token_lbrace) _ λ opening.
        Gives-after (while_parse in_braces (parse_record_field fuel) fuel) _
          λ fields. Gives-after (expect token_rbrace) _ λ closing. Gives-pure _ refl

plain_built : (node : AstNode) → plain node ≡ true → well_built node ≡ true
plain_built node h = ground (arith, h)

plain_declaration : (node : AstNode) → plain node ≡ true → declaration_built node ≡ true
plain_declaration node h = ground (arith, h)

-- An assignment is a statement already.
expression_built :
    (line : ℕ) (node : AstNode)
    → well_built (if is_assign node then node else expr_stmt line node) ≡ true
unfolding is_assign well_built
expression_built line (assign l target value) = refl
expression_built line _ = refl

parse_expression_statement-Gives : (fuel : ℕ) → Gives well_built (parse_expression_statement fuel)
unfolding parse_expression_statement
parse_expression_statement-Gives fuel = Gives-after get _ λ parser.
    Gives-after (parse_assignment_or_expression fuel) _ λ result.
      Gives-after (expect token_semicolon) _
        λ end. Gives-pure _ (expression_built parser.current.line result)

module _ (statement : P AstNode) (fuel : ℕ) (h : Gives well_built statement) where
  statement_of-Gives : (type : TokenType) → Gives well_built (statement_of statement fuel type)
  unfolding statement_of well_built
  statement_of-Gives token_if = parse_if_stmt-Gives statement fuel h
  statement_of-Gives token_hold = parse_hold_stmt-Gives statement fuel h
  statement_of-Gives token_press = parse_press_stmt-Gives statement fuel h
  statement_of-Gives token_drive = parse_drive_stmt-Gives statement fuel h
  statement_of-Gives token_sweep = parse_sweep_stmt-Gives statement fuel h
  statement_of-Gives token_snap = parse_jump-Gives snap_stmt (λ line. refl)
  statement_of-Gives token_push = parse_jump-Gives push_stmt (λ line. refl)
  statement_of-Gives token_yield = parse_yield_stmt-Gives fuel
  statement_of-Gives token_shout = parse_shout_stmt-Gives fuel
  statement_of-Gives token_wield = Gives-map _ parse_wield_stmt-Gives plain_built
  statement_of-Gives token_lbrace = parse_block-Gives statement fuel h
  statement_of-Gives _ = parse_expression_statement-Gives (suc fuel)

parse_statement-Gives : (fuel : ℕ) → Gives well_built (parse_statement fuel)
unfolding parse_statement
parse_statement-Gives zero = λ parser. nothing
parse_statement-Gives (suc fuel) = Gives-after get _ λ parser.
    Gives-if (check parser token_record) _ _
      (Gives-map _ (parse_record_decl-Gives fuel) plain_built)
      (Gives-after (is_var_decl_starting (suc fuel)) _ λ declares.
        Gives-if declares _ _ (Gives-map _ (parse_var_decl-Gives (suc fuel)) var_decl_built) (
          statement_of-Gives (parse_statement fuel) fuel (parse_statement-Gives fuel)
            parser.current.type))

parse_function_decl-Gives :
    (fuel line : ℕ) (type : KratosType × Option Bytes)
    → Gives declaration_built (parse_function_decl fuel line type)
unfolding parse_function_decl
parse_function_decl-Gives fuel line type = Gives-after advance_token _ λ keyword.
    Gives-after (expect_name token_identifier) _ λ name.
      Gives-after (expect token_lparen) _ λ opening.
        Gives-after (list_until token_rparen (parse_param fuel) fuel) _ λ params.
          Gives-bind (parse_block (parse_statement fuel) fuel) _
            (parse_block-Gives (parse_statement fuel) fuel (parse_statement-Gives fuel))
            λ body h. Gives-pure _ h

var_declaration : (node : AstNode) → is_var_decl node ≡ true → declaration_built node ≡ true
unfolding is_var_decl
var_declaration (var_decl line is_const depth type record_name name initializer) h = refl
var_declaration _ h = absurd (ground (arith, h))

parse_declaration-Gives : (fuel : ℕ) → Gives declaration_built (parse_declaration fuel)
unfolding parse_declaration
parse_declaration-Gives fuel = Gives-after get _ λ start.
    Gives-after (match token_k_const) _ λ is_const. Gives-after parse_type_extended _ λ type.
      Gives-after get _ λ parser.
        Gives-if (not is_const && check parser token_craft) _ _
          (parse_function_decl-Gives fuel start.current.line type)
          (Gives-map _ (finish_var_decl-Gives fuel start.current.line is_const type)
            var_declaration)

parse_top_level-Gives : (fuel : ℕ) → Gives declaration_built (parse_top_level fuel)
unfolding parse_top_level
parse_top_level-Gives fuel = Gives-after get _ λ parser.
    Gives-if (check parser token_record) _ _
      (Gives-map _ (parse_record_decl-Gives fuel) plain_declaration)
      (Gives-if (check parser token_wield) _ _
        (Gives-map _ parse_wield_stmt-Gives plain_declaration) (parse_declaration-Gives fuel))

crafts_cons :
    (node : AstNode) (nodes : AstNodeList)
    → declaration_built node ≡ true
    → crafts_built nodes ≡ true
    → crafts_built (cons node nodes) ≡ true
unfolding crafts_built
crafts_cons (func_decl line type record_name name params body) nodes h k =
    and_intro (well_built body) (crafts_built nodes) h k
crafts_cons _ nodes h k = k

abbrev pub program_built : AstNode → Bool
program_built (program line declarations) = crafts_built declarations
program_built _ = true

parser_parse_program-Gives : (fuel : ℕ) → Gives program_built (parser_parse_program fuel)
unfolding parser_parse_program crafts_built
parser_parse_program-Gives fuel = Gives-after get _ λ parser.
    Gives-bind (while_parse before_end (parse_top_level fuel) fuel) _
      (while_parse-Gives declaration_built crafts_built refl crafts_cons before_end
        (parse_top_level fuel) fuel (parse_top_level-Gives fuel))
      λ declarations h. Gives-pure _ h

pub parse_source-Given : (source : Bytes) → Given program_built (parse_source source)
unfolding parse_source
parse_source-Given source =
    parser_parse_program-Gives (8 * length source + 8) (parser_init (lexer_init source))

-- The program that is parsed from a source, with syntax errors or without: in the body of each craft no
-- statement is missing, each `drive` starts with a variable, and each `if` has conditions with bodies.
pub parse_source-crafts_built :
    (source : Bytes) (line : ℕ) (declarations : AstNodeList) (parser : Parser)
    → parse_source source ≡ some (program line declarations, parser)
    → crafts_built declarations ≡ true
parse_source-crafts_built source line declarations parser e =
    Given-holds (subst (Given program_built) e (parse_source-Given source))
