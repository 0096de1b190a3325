-- ===== src/Parser/Stmt.antt =====
-- src/parser/parser.c: the statements. The functions below `parse_statement` take it.
use kratos_lang.Prelude.{
  ℕ, zero, suc, Bool, true, false, not, Bytes, Option, none, some, ◌||◌, ◌&&◌, if◌then◌else◌,
}
use kratos_lang.Lexer.Token.{
  TokenType, token_eof, token_identifier, token_k_int, token_k_float, token_k_bool, token_k_char,
  token_k_string, token_k_const, token_k_void, token_if, token_elif, token_else, token_hold,
  token_press, token_drive, token_sweep, token_snap, token_push, token_in, token_craft, token_yield,
  token_shout, token_wield, token_record, token_string_literal, token_assign, token_lparen,
  token_rparen, token_lbrace, token_rbrace, token_lbracket, token_rbracket, token_semicolon,
}
use kratos_lang.Ast.{
  AstNode, AstNodeList, nil, cons, null, block, var_decl, record_decl, record_field, if_stmt,
  cond_branch, hold_stmt, press_stmt, drive_stmt, sweep_stmt, snap_stmt, push_stmt, yield_stmt,
  shout_stmt, wield_stmt, expr_stmt, is_assign, KratosType, type_int, type_float, type_bool,
  type_char, type_string, type_void, type_record,
}
use kratos_lang.Parser.Kinds.{token_eq}
use kratos_lang.Parser.State.{
  Parser, P, ◌>>=◌, ◌>>◌, pure, out_of_fuel, get, check, match, advance_token, expect, expect_name,
  refuse, diag_k203,
}
use kratos_lang.Parser.Literals.{token_to_string_value}
use kratos_lang.Parser.Expr.{taken_text, parse_expression, parse_assignment_or_expression}

-- `check_type_token` and `token_to_kratos_type`: the type that a keyword names.
unfoldable pub token_to_kratos_type : TokenType → Option KratosType
token_to_kratos_type token_k_int = some type_int
token_to_kratos_type token_k_float = some type_float
token_to_kratos_type token_k_bool = some type_bool
token_to_kratos_type token_k_char = some type_char
token_to_kratos_type token_k_string = some type_string
token_to_kratos_type token_k_void = some type_void
token_to_kratos_type _ = none

abbrev pub check_type_token : TokenType → Bool
check_type_token type = elim (token_to_kratos_type type) [ some t ↦ true | none ↦ false ]

-- A type that is no keyword: a record's name, or an error.
unfoldable pub parse_named_type : Bool → P (KratosType × Option Bytes)
parse_named_type true = do name ← taken_text; pure (type_record, some name)
parse_named_type false = do refuse diag_k203; pure (type_void, none)

abbrev pub parse_type_of : Bool → Option KratosType → P (KratosType × Option Bytes)
parse_type_of named (some type) = do advance_token; pure (type, none)
parse_type_of named none = parse_named_type named

unfoldable pub parse_type_extended : P (KratosType × Option Bytes)
parse_type_extended = do
  parser ← get
  parse_type_of (check parser token_identifier) (token_to_kratos_type parser.current.type)

-- `while (match(TOKEN_LBRACKET)) { expect(TOKEN_RBRACKET); is_array++; }`
unfoldable pub array_suffix : ℕ → P ℕ
array_suffix zero = out_of_fuel
array_suffix (suc fuel) = do
  more ← match token_lbracket
  if more then (do expect token_rbracket; depth ← array_suffix fuel; pure (suc depth)) else pure 0

-- The brackets that `is_var_decl_starting` skips.
unfoldable pub skip_brackets : ℕ → P (Unit {0})
skip_brackets zero = out_of_fuel
skip_brackets (suc fuel) = do
  more ← match token_lbracket
  if more
      then (do closed ← match token_rbracket; if closed then skip_brackets fuel else pure tt)
      else pure tt

-- What `is_var_decl_starting` reads ahead, from an identifier on.
unfoldable pub looks_like_decl : ℕ → P Bool
looks_like_decl fuel = do
  advance_token
  skip_brackets fuel
  named ← match token_identifier
  parser ← get
  pure (named && (check parser token_assign || check parser token_craft))

-- The value of a reading, and the state before it; what was printed stays.
abbrev pub restored {ℓ} : {A : Type ℓ} → Parser → Option (A × Parser) → Option (A × Parser)
restored saved none = none
restored saved (some (a, parser)) = some (a, record saved { diagnostics = parser.diagnostics })

abbrev pub look_ahead {ℓ} : {A : Type ℓ} → P A → P A
look_ahead m parser = restored parser (m parser)

unfoldable pub is_var_decl_starting : ℕ → P Bool
is_var_decl_starting fuel = do
  parser ← get
  if check parser token_k_const || check_type_token parser.current.type
      then pure true
      else if check parser token_identifier
      then look_ahead (looks_like_decl fuel)
      else pure false

-- `while (test(parser)) push(item(parser));`
unfoldable pub while_parse : (TokenType → Bool) → P AstNode → ℕ → P AstNodeList
while_parse test item zero = out_of_fuel
while_parse test item (suc fuel) = do
  parser ← get
  if test parser.current.type
      then (do node ← item; nodes ← while_parse test item fuel; pure (cons node nodes))
      else pure nil

-- `!check(TOKEN_RBRACE) && !check(TOKEN_EOF)`
abbrev pub in_braces : TokenType → Bool
in_braces type = not (token_eq type token_rbrace) && not (token_eq type token_eof)

abbrev pub is_elif : TokenType → Bool
is_elif type = token_eq type token_elif

unfoldable pub parse_block : P AstNode → ℕ → P AstNode
parse_block statement fuel = do
  parser ← get
  expect token_lbrace
  statements ← while_parse in_braces statement fuel
  expect token_rbrace
  pure (block parser.current.line statements)

-- From the name of a variable to the semicolon.
unfoldable pub finish_var_decl : ℕ → ℕ → Bool → KratosType × Option Bytes → P AstNode
finish_var_decl fuel line is_const type = do
  is_array ← array_suffix fuel
  name ← expect_name token_identifier
  expect token_assign
  initializer ← parse_expression fuel
  expect token_semicolon
  pure (var_decl line is_const is_array type.0 type.1 name initializer)

unfoldable pub parse_var_decl : ℕ → P AstNode
parse_var_decl fuel = do
  parser ← get
  is_const ← match token_k_const
  type ← parse_type_extended
  finish_var_decl fuel parser.current.line is_const type

unfoldable pub parse_record_field : ℕ → P AstNode
parse_record_field fuel = do
  parser ← get
  type ← parse_type_extended
  is_array ← array_suffix fuel
  name ← expect_name token_identifier
  expect token_semicolon
  pure (record_field parser.current.line type.0 is_array type.1 name)

unfoldable pub parse_record_decl : ℕ → P AstNode
parse_record_decl fuel = do
  parser ← get
  advance_token
  name ← expect_name token_identifier
  expect token_lbrace
  fields ← while_parse in_braces (parse_record_field fuel) fuel
  expect token_rbrace
  pure (record_decl parser.current.line name fields)

-- `"(" expression ")"`
unfoldable pub parse_parenthesised : ℕ → P AstNode
parse_parenthesised fuel = do
  expect token_lparen
  expression ← parse_expression fuel
  expect token_rparen
  pure expression

-- The statements, over a statement inside braces, with the same fuel.
module _ (statement : P AstNode) (fuel : ℕ) where
  -- A keyword, a condition and a block: the branches of `parse_if_stmt`.
  unfoldable pub parse_branch : P AstNode
  parse_branch = do
    parser ← get
    advance_token
    condition ← parse_parenthesised fuel
    body ← parse_block statement fuel
    pure (cond_branch parser.current.line condition body)

  unfoldable pub parse_else : P AstNode
  parse_else = do found ← match token_else; if found then parse_block statement fuel else pure null

  unfoldable pub parse_if_stmt : P AstNode
  parse_if_stmt = do
    parser ← get
    first ← parse_branch
    rest ← while_parse is_elif parse_branch fuel
    else_block ← parse_else
    pure (if_stmt parser.current.line (cons first rest) else_block)

  unfoldable pub parse_hold_stmt : P AstNode
  parse_hold_stmt = do
    parser ← get
    advance_token
    condition ← parse_parenthesised fuel
    body ← parse_block statement fuel
    pure (hold_stmt parser.current.line condition body)

  unfoldable pub parse_press_stmt : P AstNode
  parse_press_stmt = do
    parser ← get
    advance_token
    body ← parse_block statement fuel
    expect token_hold
    condition ← parse_parenthesised fuel
    expect token_semicolon
    pure (press_stmt parser.current.line body condition)

  unfoldable pub parse_drive_stmt : P AstNode
  parse_drive_stmt = do
    parser ← get
    advance_token
    expect token_lparen
    init ← parse_var_decl fuel
    condition ← parse_expression fuel
    expect token_semicolon
    step ← parse_assignment_or_expression fuel
    expect token_rparen
    body ← parse_block statement fuel
    pure (drive_stmt parser.current.line init condition step body)

  unfoldable pub parse_sweep_stmt : P AstNode
  parse_sweep_stmt = do
    parser ← get
    advance_token
    expect token_lparen
    type ← parse_type_extended
    element_name ← expect_name token_identifier
    expect token_in
    collection_name ← expect_name token_identifier
    expect token_rparen
    body ← parse_block statement fuel
    pure (sweep_stmt parser.current.line type.0 type.1 element_name collection_name body)

-- `snap;` and `push;`
unfoldable pub parse_jump : (ℕ → AstNode) → P AstNode
parse_jump node = do
  parser ← get
  advance_token
  expect token_semicolon
  pure (node parser.current.line)

unfoldable pub parse_yield_stmt : ℕ → P AstNode
parse_yield_stmt fuel = do
  parser ← get
  advance_token
  next ← get
  value ← (if check next token_semicolon then pure null else parse_expression fuel)
  expect token_semicolon
  pure (yield_stmt parser.current.line value)

unfoldable pub parse_shout_stmt : ℕ → P AstNode
parse_shout_stmt fuel = do
  parser ← get
  advance_token
  value ← parse_parenthesised fuel
  expect token_semicolon
  pure (shout_stmt parser.current.line value)

unfoldable pub parse_wield_stmt : P AstNode
parse_wield_stmt = do
  parser ← get
  advance_token
  path ← expect_name token_string_literal
  expect token_semicolon
  pure (wield_stmt parser.current.line (token_to_string_value path))

unfoldable pub parse_expression_statement : ℕ → P AstNode
parse_expression_statement fuel = do
  parser ← get
  result ← parse_assignment_or_expression fuel
  expect token_semicolon
  pure (if is_assign result then result else expr_stmt parser.current.line result)

-- The `switch` of `parse_statement`, by the kind of the current token; the expressions have one more
-- unit of fuel than what stands inside the statement.
unfoldable pub statement_of : P AstNode → ℕ → TokenType → P AstNode
statement_of statement fuel token_if = parse_if_stmt statement fuel
statement_of statement fuel token_hold = parse_hold_stmt statement fuel
statement_of statement fuel token_press = parse_press_stmt statement fuel
statement_of statement fuel token_drive = parse_drive_stmt statement fuel
statement_of statement fuel token_sweep = parse_sweep_stmt statement fuel
statement_of statement fuel token_snap = parse_jump snap_stmt
statement_of statement fuel token_push = parse_jump push_stmt
statement_of statement fuel token_yield = parse_yield_stmt fuel
statement_of statement fuel token_shout = parse_shout_stmt fuel
statement_of statement fuel token_wield = parse_wield_stmt
statement_of statement fuel token_lbrace = parse_block statement fuel
statement_of statement fuel _ = parse_expression_statement (suc fuel)

unfoldable pub parse_statement : ℕ → P AstNode
parse_statement zero = out_of_fuel
parse_statement (suc fuel) = do
  parser ← get
  if check parser token_record then parse_record_decl fuel else (do
    declares ← is_var_decl_starting (suc fuel)
    if declares
        then parse_var_decl (suc fuel)
        else statement_of (parse_statement fuel) fuel parser.current.type)
