-- ===== src/Tests/Parser.antt =====
-- Runs of the model of src/parser on small inputs.
use Prim.Native.String.{String}
use mathlib.Core.Option
use kratos_lang.Prelude.{◌<◌, ◌≡◌, refl, while, false, Bytes, codes, some, arith}
use kratos_lang.Prelude.Int.{pos}
use kratos_lang.Lexer.Next.{
  lexer_init, lexer_next_token, lexer_token, lexer_operator, operator_type,
}
use kratos_lang.Lexer.Cursor.{skip_whitespace, at_space, make_token, remaining, advance}
use kratos_lang.Lexer.Scan.{
  is_alpha, is_digit, lexer_number, exponent, fraction, skip_digits, at_digit,
}
use kratos_lang.Lexer.Progress.{work}
use kratos_lang.Ast.{literal_int, binary_expr, unary_expr}
use kratos_lang.Lexer.Token.{token_plus, token_star, token_minus}
use kratos_lang.Parser.State.{Parser, advance_token, parser_init, match, expect}
use kratos_lang.Parser.Literals.{strtoll, token_to_number_string}
use kratos_lang.Parser.Expr.{
  taken_text, comma_list, list_until, after_name, primary_of, parse_primary, postfix_of,
  postfix_loop, parse_postfix, parse_unary, binary_loop, binary_level, parse_multiplicative,
  parse_additive, parse_comparison, parse_equality, parse_and, parse_or, parse_expression,
  parse_assignment_or_expression,
}
use kratos_lang.Parser.Stmt.{parse_statement}
use kratos_lang.Parser.Weight.{at_end, weight}
use kratos_lang.Parser.Total.{Parsed, parse_source-Parsed}
use kratos_lang.Parser.Consumes.{Consumes, parse_statement-Consumes, parse_expression-Consumes}

-- The state at the start of `source`.
abbrev at_start : String → Parser
at_start source = parser_init (lexer_init (codes source))

precedence_run :
    Option.map (λ r. r.0) (parse_expression 4 (at_start "1_0+2*-3"))
    ≡ some (
        binary_expr 1 token_plus (literal_int 1 (pos 10)) (
          binary_expr 1 token_star
            (literal_int 1 (pos 2))
            (unary_expr 1 token_minus (literal_int 1 (pos 3)))))
unfolding advance_token parser_init match expect taken_text comma_list list_until after_name
    primary_of parse_primary postfix_of postfix_loop parse_postfix parse_unary binary_loop
    binary_level parse_multiplicative parse_additive parse_comparison parse_equality parse_and
    parse_or parse_expression parse_assignment_or_expression lexer_init lexer_next_token strtoll
    token_to_number_string skip_whitespace while at_space lexer_token is_alpha lexer_number
    make_token exponent fraction skip_digits at_digit remaining advance lexer_operator operator_type
precedence_run = refl

-- Neither declaration nor block is closed.
abbrev broken : Bytes
broken = codes "k_int craft main( { if (x"

parse_source-Parsed_example : Parsed broken
parse_source-Parsed_example = parse_source-Parsed broken

abbrev start : Parser
start = at_start "*(-"

inside : at_end start ≡ false
unfolding parser_init lexer_init lexer_next_token skip_whitespace while at_space lexer_token
    is_alpha is_digit lexer_operator operator_type make_token
inside = refl

enough : weight start < 99
unfolding weight work parser_init lexer_init lexer_next_token skip_whitespace while at_space
    lexer_token is_alpha is_digit lexer_operator operator_type make_token remaining advance
enough = omega arith

parse_expression-Consumes_example : Consumes start (parse_expression 99 start)
parse_expression-Consumes_example = parse_expression-Consumes 99 start inside enough

parse_statement-Consumes_example : Consumes start (parse_statement 99 start)
parse_statement-Consumes_example = parse_statement-Consumes 99 start inside enough
