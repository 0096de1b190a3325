-- ===== src/Parser/Complete.antt =====
-- The expressions of src/parser/parser.c against the grammar of docs/specification.md.
use kratos_lang.Prelude.{ℕ, zero, suc, ◌≤◌, ◌≡◌, ◌∙◌, ap, true, Bytes, List, length, some, arith}
use kratos_lang.Lexer.Token.{Token}
use kratos_lang.Ast.{AstNode}
use kratos_lang.Parser.State.{Parser}
use kratos_lang.Parser.Expr.{parse_expression}
use kratos_lang.Parser.Grammar.{Level}
use kratos_lang.Parser.Feeds.{Feeds}
use kratos_lang.Parser.Follow.{stops, Level-length}
use kratos_lang.Parser.LevelReads.{parse_expression-parser_at, parser_at-read}

-- Where the tokens in front of the parser derive an expression in the grammar, and the token behind them
-- is no operator, no opening bracket or brace, and no dot, `parse_expression` reads just those tokens and
-- gives the tree of the derivation: calls, indices and members first, then signs, then the operators by
-- their precedence, each level to the left. Fuel for the number of tokens is enough.
pub parse_expression-Level :
    (source : Bytes) (fuel : ℕ) (ts : List Token) (e : AstNode) (p q : Parser)
    → Level source 6 ts e
    → Feeds source p ts q
    → stops 6 q.current.type ≡ true
    → length ts ≤ fuel
    → parse_expression fuel p ≡ some (e, q)
parse_expression-Level source zero ts e p q d f k le = absurd (omega (arith, Level-length d, le))
parse_expression-Level source (suc fuel) ts e p q d f k le =
    ap (λ m. m p) (parse_expression-parser_at fuel)
    ∙ parser_at-read fuel (parse_expression-Level source fuel) 6 ts e p q d f k le
