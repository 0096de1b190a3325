-- ===== src/Parser/Reads.antt =====
-- Single steps of the functions of src/parser/parser.c, at tokens that are as expected.
use kratos_lang.Prelude.{
  ℕ, ◌≡◌, refl, ◌∙◌, ap, Bool, true, false, Bytes, Option, some, arith, if◌then◌else◌,
}
use kratos_lang.Lexer.Token.{
  TokenType, Token, token_minus, token_not, token_lparen, token_rparen, token_lbrace,
  token_lbracket, token_rbracket, token_comma, token_dot,
}
use kratos_lang.Ast.{AstNode, identifier_expr}
use kratos_lang.Parser.Kinds.{token_eq}
use kratos_lang.Parser.State.{Parser, P, continue_with, advanced, advance_token}
use kratos_lang.Parser.Expr.{after_name, postfix_of, is_unary}
use kratos_lang.Parser.Follow.{name_ends, postfix_ends, stops, begins_primary, begins}

module _ {ℓ κ} {A : Type ℓ} {B : Type κ} where
  -- A computation in two parts, by the results of the parts.
  pub step :
      {r : Option (A × Parser)} {a : A} {p : Parser} {s : Option (B × Parser)} (f : A → P B)
      → r ≡ some (a, p)
      → f a p ≡ s
      → continue_with r f ≡ s
  step f e h = ap (λ r. continue_with r f) e ∙ h

module _ {ℓ} {A : Type ℓ} where
  pub branch_true :
      {b : Bool} {s : Option (A × Parser)} (m k : P A) (p : Parser)
      → b ≡ true
      → m p ≡ s
      → (if b then m else k) p ≡ s
  branch_true m k p e h = ap (λ b. (if b then m else k) p) e ∙ h

  pub branch_false :
      {b : Bool} {s : Option (A × Parser)} (m k : P A) (p : Parser)
      → b ≡ false
      → k p ≡ s
      → (if b then m else k) p ≡ s
  branch_false m k p e h = ap (λ b. (if b then m else k) p) e ∙ h

  -- A branch on the kind of a token that is known.
  pub at_kind :
      {type known : TokenType} {s : Option (A × Parser)} (f : TokenType → P A) (p : Parser)
      → type ≡ known
      → f known p ≡ s
      → f type p ≡ s
  at_kind f p e h = ap (λ k. f k p) e ∙ h

pub advance_token-advanced : (p : Parser) → advance_token p ≡ some (tt, advanced p)
unfolding advance_token
advance_token-advanced p = refl

pub kind_of :
    (p : Parser) {t : Token} {type : TokenType}
    → p.current ≡ t
    → t.type ≡ type
    → p.current.type ≡ type
kind_of p c e = ap (λ (x : Token). x.type) c ∙ e

pub after_name-alone :
    (expression : P AstNode) (fuel line : ℕ) (name : Bytes) (type : TokenType) (p : Parser)
    → name_ends type ≡ true
    → after_name expression fuel line name type p ≡ some (identifier_expr line name, p)
unfolding after_name
after_name-alone expression fuel line name token_lparen p h = absurd (ground (arith, h))
after_name-alone expression fuel line name token_lbrace p h = absurd (ground (arith, h))
after_name-alone expression fuel line name _ p h = refl

pub postfix_of-done :
    (expression : P AstNode) (again : AstNode → P AstNode) (line : ℕ) (node : AstNode)
    (type : TokenType) (p : Parser)
    → postfix_ends type ≡ true
    → postfix_of expression again line node type p ≡ some (node, p)
unfolding postfix_of
postfix_of-done expression again line node token_lbracket p h = absurd (ground (arith, h))
postfix_of-done expression again line node token_dot p h = absurd (ground (arith, h))
postfix_of-done expression again line node _ p h = refl

begins_no_rparen : (type : TokenType) → begins type ≡ true → token_eq type token_rparen ≡ false
begins_no_rparen token_rparen h = absurd (ground (arith, h))
begins_no_rparen _ h = refl

begins_no_rbracket : (type : TokenType) → begins type ≡ true → token_eq type token_rbracket ≡ false
begins_no_rbracket token_rbracket h = absurd (ground (arith, h))
begins_no_rbracket _ h = refl

pub begins_primary-is_unary :
    (type : TokenType) → begins_primary type ≡ true → is_unary type ≡ false
begins_primary-is_unary token_not h = absurd (ground (arith, h))
begins_primary-is_unary token_minus h = absurd (ground (arith, h))
begins_primary-is_unary _ h = refl

-- A bracket that closes a list of expressions.
pub record Closes (closing : TokenType) : Type 0 where
  pub ends : stops 6 closing ≡ true
  pub no_comma : token_eq closing token_comma ≡ false
  pub no_begin : (type : TokenType) → begins type ≡ true → token_eq type closing ≡ false

pub rparen-Closes : Closes token_rparen
rparen-Closes = record { ends = refl; no_comma = refl; no_begin = begins_no_rparen }

pub rbracket-Closes : Closes token_rbracket
rbracket-Closes = record { ends = refl; no_comma = refl; no_begin = begins_no_rbracket }
