-- ===== src/Tests/Grammar.antt =====
-- An expression of the grammar in front of the parser of src/parser/parser.c.
use kratos_lang.Prelude.{ℕ, zero, suc, ◌≡◌, refl, ◌∙◌, ap, Bytes, codes, some, List, [], ◌∷◌, arith}
use kratos_lang.Lexer.Token.{Token, token_integer, token_plus, token_star, token_semicolon}
use kratos_lang.Lexer.Cursor.{skip_whitespace, at_space, make_token, remaining, advance}
use kratos_lang.Lexer.Scan.{
  is_alpha, is_digit, lexer_number, exponent, fraction, skip_digits, at_digit,
}
use kratos_lang.Lexer.Next.{
  lexer_init, lexer_next_token, lexer_token, lexer_operator, operator_type,
}
use kratos_lang.Lexer.Decode.{token_text}
use kratos_lang.Ast.{AstNode, literal_int, binary_expr}
use kratos_lang.Prelude.{while}
use kratos_lang.Parser.State.{Parser, parser_init, advanced, error_if_invalid}
use kratos_lang.Parser.Literals.{strtoll, token_to_number_string}
use kratos_lang.Parser.Expr.{parse_expression}
use kratos_lang.Parser.Weight.{advanced-Forward, parser_init-source}
use kratos_lang.Parser.Grammar.{operator_at, Level, integer, primary, postfix, tighter, binary}
use kratos_lang.Parser.Feeds.{Feeds, fed, feed}
use kratos_lang.Parser.Follow.{stops}
use kratos_lang.Parser.Complete.{parse_expression-Level}

abbrev source : Bytes
source = codes "1+2*3;"

-- The states at its tokens.
abbrev at_token : ℕ → Parser
at_token zero = parser_init (lexer_init source)
at_token (suc n) = advanced (at_token n)

abbrev token : ℕ → Token
token n = (at_token n).current

kinds :
    ((token 0).type ≡ token_integer)
    × ((token 1).type ≡ token_plus)
    × ((token 2).type ≡ token_integer)
    × ((token 3).type ≡ token_star)
    × ((token 4).type ≡ token_integer)
    × ((token 5).type ≡ token_semicolon)
unfolding parser_init lexer_init lexer_next_token skip_whitespace while at_space lexer_token
    is_alpha is_digit lexer_operator operator_type make_token advanced error_if_invalid lexer_number
    exponent fraction skip_digits at_digit remaining advance
kinds = (refl, refl, refl, refl, refl, refl)

abbrev tokens : List Token
tokens = token 0 ∷ token 1 ∷ token 2 ∷ token 3 ∷ token 4 ∷ []

same_source : (n : ℕ) → (at_token n).lexer.source ≡ source
unfolding lexer_init
same_source zero = parser_init-source (lexer_init source)
same_source (suc n) = (advanced-Forward (at_token n)).source ∙ same_source n

fed_tokens : Feeds source (at_token 0) tokens (at_token 5)
fed_tokens = feed _ _ _ _ (same_source 0) refl (
    feed _ _ _ _ (same_source 1) refl (
      feed _ _ _ _ (same_source 2) refl (
        feed _ _ _ _ (same_source 3) refl
          (feed _ _ _ _ (same_source 4) refl (fed _ (same_source 5))))))

abbrev number : ℕ → AstNode
number n =
    literal_int (token n).line (strtoll (token_to_number_string (token_text source (token n))))

number-Level : (n : ℕ) → (token n).type ≡ token_integer → Level source 0 (token n ∷ []) (number n)
number-Level n k = postfix _ _ (primary _ _ (integer (token n) k))

-- The product stands below the sum.
abbrev tree : AstNode
tree =
    binary_expr (token 1).line (token 1).type (number 0)
      (binary_expr (token 3).line (token 3).type (number 2) (number 4))

tree-Level : Level source 6 tokens tree
tree-Level =
    let (one, plus, two, star, three, semicolon) = kinds in
    let product : Level source 1 (token 2 ∷ token 3 ∷ token 4 ∷ [])
        (binary_expr (token 3).line (token 3).type (number 2) (number 4)) =
      binary 0 (token 3) (token 2 ∷ []) (token 4 ∷ []) (number 2) (number 4)
        (tighter _ _ _ (number-Level 2 two)) (ap (operator_at zero) star) (number-Level 4 three) in
    let sum : Level source 2 tokens tree =
      binary 1 (token 1) (token 0 ∷ []) _ (number 0) _
        (tighter _ _ _ (tighter _ _ _ (number-Level 0 one))) (ap (operator_at (suc zero)) plus)
        product in
    tighter _ _ _ (tighter _ _ _ (tighter _ _ _ (tighter _ _ _ sum)))

parse_expression-Level_example : parse_expression 5 (at_token 0) ≡ some (tree, at_token 5)
parse_expression-Level_example =
    parse_expression-Level source 5 tokens tree (at_token 0) (at_token 5) tree-Level fed_tokens
      (ap (stops 6) kinds.5) (omega arith)
