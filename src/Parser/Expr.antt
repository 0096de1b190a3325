-- ===== src/Parser/Expr.antt =====
-- src/parser/parser.c: the expressions. The functions below `parse_expression` take it, and each loop
-- has fuel for its rounds.
use kratos_lang.Prelude.{ℕ, zero, suc, Bool, true, false, Bytes, ◌||◌, ◌&&◌, if◌then◌else◌}
use kratos_lang.Prelude.Int.{pos}
use kratos_lang.Lexer.Token.{
  TokenType, token_identifier, token_integer, token_float, token_string_literal, token_char_literal,
  token_true, token_false, token_assign, token_plus, token_minus, token_star, token_slash,
  token_percent, token_equal, token_not_equal, token_less, token_greater, token_less_equal,
  token_greater_equal, token_and, token_or, token_not, token_lparen, token_rparen, token_lbrace,
  token_rbrace, token_lbracket, token_rbracket, token_comma, token_dot, token_colon,
}
use kratos_lang.Ast.{
  AstNode, AstNodeList, nil, cons, literal_int, literal_float, literal_bool, literal_char,
  literal_string, array_literal, call_expr, record_literal, field_init, identifier_expr, index_expr,
  member_expr, unary_expr, binary_expr, assign,
}
use kratos_lang.Parser.Kinds.{token_eq}
use kratos_lang.Parser.State.{
  P, ◌>>=◌, ◌>>◌, pure, out_of_fuel, get, check, match, advance_token, expect, expect_name, refuse,
  diag_k204, token_to_cstring,
}
use kratos_lang.Parser.Literals.{
  token_to_number_string, strtoll, token_to_string_value, token_to_char_value,
}

-- Reads the current token and gives the text of it: `match`, then `parser->previous`.
unfoldable pub taken_text : P Bytes
taken_text = do advance_token; parser ← get; token_to_cstring parser.previous

-- `do … while (match(TOKEN_COMMA))`
unfoldable pub comma_list : P AstNode → ℕ → P AstNodeList
comma_list item zero = out_of_fuel
comma_list item (suc fuel) = do
  first ← item
  more ← match token_comma
  rest ← (if more then comma_list item fuel else pure nil)
  pure (cons first rest)

-- A list between brackets, of which the first is consumed.
unfoldable pub list_until : TokenType → P AstNode → ℕ → P AstNodeList
list_until closing item fuel = do
  parser ← get
  items ← (if check parser closing then pure nil else comma_list item fuel)
  expect closing
  pure items

-- The index of a field in a record literal.
unfoldable pub parse_field_init : P AstNode → P AstNode
parse_field_init expression = do
  parser ← get
  name ← expect_name token_identifier
  expect token_colon
  value ← expression
  pure (field_init parser.current.line name value)

-- Behind an identifier, by the kind of the next token.
unfoldable pub after_name : P AstNode → ℕ → ℕ → Bytes → TokenType → P AstNode
after_name expression fuel line name token_lparen = do
  advance_token
  arguments ← list_until token_rparen expression fuel
  pure (call_expr line name arguments)
after_name expression fuel line name token_lbrace = do
  advance_token
  fields ← list_until token_rbrace (parse_field_init expression) fuel
  pure (record_literal line name fields)
after_name expression fuel line name _ = pure (identifier_expr line name)

-- The body of `parse_primary`, by the kind of the current token.
unfoldable pub primary_of : P AstNode → ℕ → ℕ → TokenType → P AstNode
primary_of expression fuel line token_integer = do
  text ← taken_text
  pure (literal_int line (strtoll (token_to_number_string text)))
primary_of expression fuel line token_float = do
  text ← taken_text
  pure (literal_float line (token_to_number_string text))
primary_of expression fuel line token_true = do advance_token; pure (literal_bool line true)
primary_of expression fuel line token_false = do advance_token; pure (literal_bool line false)
primary_of expression fuel line token_char_literal = do
  text ← taken_text
  pure (literal_char line (token_to_char_value text))
primary_of expression fuel line token_string_literal = do
  text ← taken_text
  pure (literal_string line (token_to_string_value text))
primary_of expression fuel line token_lbracket = do
  advance_token
  elements ← list_until token_rbracket expression fuel
  pure (array_literal line elements)
primary_of expression fuel line token_lparen = do
  advance_token
  inner ← expression
  expect token_rparen
  pure inner
primary_of expression fuel line token_identifier = do
  name ← taken_text
  next ← get
  after_name expression fuel line name next.current.type
primary_of expression fuel line _ = do refuse diag_k204; pure (literal_int line (pos 0))

unfoldable pub parse_primary : P AstNode → ℕ → P AstNode
parse_primary expression fuel = do
  parser ← get
  primary_of expression fuel parser.current.line parser.current.type

-- One round of the loop of `parse_postfix`, by the kind of the current token, given the next rounds.
unfoldable pub postfix_of : P AstNode → (AstNode → P AstNode) → ℕ → AstNode → TokenType → P AstNode
postfix_of expression again line node token_lbracket = do
  advance_token
  index ← expression
  expect token_rbracket
  again (index_expr line node index)
postfix_of expression again line node token_dot = do
  advance_token
  member ← expect_name token_identifier
  again (member_expr line node member)
postfix_of expression again line node _ = pure node

unfoldable pub postfix_loop : P AstNode → ℕ → AstNode → P AstNode
postfix_loop expression zero node = out_of_fuel
postfix_loop expression (suc fuel) node = do
  parser ← get
  postfix_of expression (postfix_loop expression fuel) parser.current.line node parser.current.type

unfoldable pub parse_postfix : P AstNode → ℕ → P AstNode
parse_postfix expression fuel = do
  node ← parse_primary expression fuel
  postfix_loop expression (suc fuel) node

abbrev pub is_unary : TokenType → Bool
is_unary type = token_eq type token_not || token_eq type token_minus

unfoldable pub parse_unary : P AstNode → ℕ → P AstNode
parse_unary postfix zero = out_of_fuel
parse_unary postfix (suc fuel) = do
  parser ← get
  if is_unary parser.current.type
      then (do
        advance_token
        operand ← parse_unary postfix fuel
        pure (unary_expr parser.current.line parser.current.type operand))
      else postfix

-- `while (check(operator)) left = …`, the loop of each level of binary operators.
unfoldable pub binary_loop : (TokenType → Bool) → P AstNode → ℕ → AstNode → P AstNode
binary_loop is_operator operand zero left = out_of_fuel
binary_loop is_operator operand (suc fuel) left = do
  parser ← get
  if is_operator parser.current.type
      then (do
        advance_token
        right ← operand
        binary_loop is_operator operand fuel
            (binary_expr parser.current.line parser.current.type left right))
      else pure left

unfoldable pub binary_level : (TokenType → Bool) → P AstNode → ℕ → P AstNode
binary_level is_operator operand fuel = do left ← operand; binary_loop is_operator operand fuel left

abbrev pub is_multiplicative : TokenType → Bool
is_multiplicative type =
    token_eq type token_star || token_eq type token_slash || token_eq type token_percent

abbrev pub is_additive : TokenType → Bool
is_additive type = token_eq type token_plus || token_eq type token_minus

abbrev pub is_comparison : TokenType → Bool
is_comparison type =
    token_eq type token_less
    || token_eq type token_greater
    || token_eq type token_less_equal
    || token_eq type token_greater_equal

abbrev pub is_equality : TokenType → Bool
is_equality type = token_eq type token_equal || token_eq type token_not_equal

abbrev pub is_and : TokenType → Bool
is_and type = token_eq type token_and

abbrev pub is_or : TokenType → Bool
is_or type = token_eq type token_or

-- The levels over an expression inside brackets, the fuel one more than that of the brackets.
module _ (expression : P AstNode) (fuel : ℕ) where
  unfoldable pub parse_multiplicative : P AstNode
  parse_multiplicative =
      binary_level is_multiplicative (parse_unary (parse_postfix expression fuel) (suc fuel))
        (suc fuel)

  unfoldable pub parse_additive : P AstNode
  parse_additive = binary_level is_additive parse_multiplicative (suc fuel)

  unfoldable pub parse_comparison : P AstNode
  parse_comparison = binary_level is_comparison parse_additive (suc fuel)

  unfoldable pub parse_equality : P AstNode
  parse_equality = binary_level is_equality parse_comparison (suc fuel)

  unfoldable pub parse_and : P AstNode
  parse_and = binary_level is_and parse_equality (suc fuel)

  unfoldable pub parse_or : P AstNode
  parse_or = binary_level is_or parse_and (suc fuel)

unfoldable pub parse_expression : ℕ → P AstNode
parse_expression zero = out_of_fuel
parse_expression (suc fuel) = parse_or (parse_expression fuel) fuel

-- `expr->kind` is one that can be assigned to.
abbrev pub is_target : AstNode → Bool
is_target (identifier_expr line name) = true
is_target (index_expr line array index) = true
is_target (member_expr line target member) = true
is_target _ = false

unfoldable pub parse_assignment_or_expression : ℕ → P AstNode
parse_assignment_or_expression fuel = do
  start ← get
  expression ← parse_expression fuel
  parser ← get
  if is_target expression && check parser token_assign
      then (do
        advance_token
        value ← parse_expression fuel
        pure (assign start.current.line expression value))
      else pure expression
