-- ===== src/Parser/ExprRuns.antt =====
-- The expressions of src/parser/parser.c: fuel above the weight of the state is enough, and an expression
-- consumes a token where one is left.
use kratos_lang.Prelude.{ℕ, zero, suc, ◌<◌, ◌≤◌, ◌≡◌, refl, Bool, true, false, Bytes, arith, ◌&&◌}
use kratos_lang.Lexer.Token.{
  TokenType, token_identifier, token_integer, token_float, token_string_literal, token_char_literal,
  token_true, token_false, token_lparen, token_dot, token_assign, token_rparen, token_lbrace,
  token_rbrace, token_lbracket, token_rbracket, token_comma, token_colon,
}
use kratos_lang.Ast.{AstNode, nil}
use kratos_lang.Parser.State.{Parser, P, check, diag_k204}
use kratos_lang.Parser.Weight.{at_end, weight}
use kratos_lang.Parser.Expr.{
  taken_text, comma_list, list_until, parse_field_init, after_name, primary_of, parse_primary,
  postfix_of, postfix_loop, parse_postfix, is_unary, parse_unary, binary_loop, binary_level,
  is_multiplicative, is_additive, is_comparison, is_equality, is_and, is_or, parse_multiplicative,
  parse_additive, parse_comparison, parse_equality, parse_and, parse_or, parse_expression,
  is_target, parse_assignment_or_expression,
}
use kratos_lang.Parser.Forward.{
  Step, Runs, runs, step_of, Takes, Starts, Runs-Takes, Takes-weaken, Runs-zero, Takes-zero,
  Runs-pure, Runs-if, Runs-bind, Takes-bind, Starts-bind,
}
use kratos_lang.Parser.TokenRuns.{
  Takes-advance_token, Takes-refuse, Runs-get, Takes-get, Runs-get_if, Takes-get_if, Takes-expect,
  Takes-expect_name, Runs-token_to_cstring, Runs-match_bind, Takes-dispatch, step_at,
}

pub Takes-taken_text : {n : ℕ} → Takes n taken_text
unfolding taken_text
Takes-taken_text =
    Takes-bind Takes-advance_token λ a. Runs-get λ p. Runs-token_to_cstring p.previous

pub Runs-comma_list :
    (fuel : ℕ) (item : P AstNode) → Takes fuel item → Runs fuel (comma_list item fuel)
unfolding comma_list
Runs-comma_list zero item t = Runs-zero
Runs-comma_list (suc fuel) item t = Runs-bind (Runs-Takes t) λ first.
    Runs-match_bind token_comma _ refl
      (Runs-bind (Runs-comma_list fuel item (Takes-weaken (omega arith) t)) λ rest. Runs-pure _)
      (Runs-pure _)

pub Runs-list_until :
    (closing : TokenType) (fuel : ℕ) (item : P AstNode)
    → Takes fuel item
    → Runs fuel (list_until closing item fuel)
unfolding list_until
Runs-list_until closing fuel item t = Runs-get λ p.
    Runs-bind (Runs-if (check p closing) (Runs-pure nil) (Runs-comma_list fuel item t))
      λ items. Runs-bind (Runs-Takes (Takes-expect closing)) λ a. Runs-pure items

Takes-parse_field_init : {n : ℕ} (item : P AstNode) → Takes n item → Takes n (parse_field_init item)
unfolding parse_field_init
Takes-parse_field_init item t = Takes-get λ p.
    Takes-bind (Takes-expect_name token_identifier) λ name.
      Runs-bind (Runs-Takes (Takes-expect token_colon))
        λ a. Runs-bind (Runs-Takes t) λ value. Runs-pure _

module _ (fuel : ℕ) (expression : P AstNode) (t : Takes fuel expression) where
  Runs-after_name :
      (line : ℕ) (name : Bytes) (type : TokenType)
      → Runs fuel (after_name expression fuel line name type)
  unfolding after_name
  Runs-after_name line name token_lparen =
      Runs-bind (Runs-Takes Takes-advance_token)
        λ a. Runs-bind (Runs-list_until token_rparen fuel expression t) λ arguments. Runs-pure _
  Runs-after_name line name token_lbrace = Runs-bind (Runs-Takes Takes-advance_token) λ a.
      Runs-bind
        (Runs-list_until token_rbrace fuel (parse_field_init expression)
          (Takes-parse_field_init expression t))
        λ fields. Runs-pure _
  Runs-after_name line name _ = Runs-pure _

  -- A primary expression at a token.
  Starts-primary_of :
      (line : ℕ) (type : TokenType) → Starts (suc fuel) (primary_of expression fuel line type)
  unfolding primary_of
  Starts-primary_of line token_integer = Starts-bind Takes-taken_text λ text. Runs-pure _
  Starts-primary_of line token_float = Starts-bind Takes-taken_text λ text. Runs-pure _
  Starts-primary_of line token_true = Starts-bind Takes-advance_token λ a. Runs-pure _
  Starts-primary_of line token_false = Starts-bind Takes-advance_token λ a. Runs-pure _
  Starts-primary_of line token_char_literal = Starts-bind Takes-taken_text λ text. Runs-pure _
  Starts-primary_of line token_string_literal = Starts-bind Takes-taken_text λ text. Runs-pure _
  Starts-primary_of line token_lbracket =
      Starts-bind Takes-advance_token
        λ a. Runs-bind (Runs-list_until token_rbracket fuel expression t) λ elements. Runs-pure _
  Starts-primary_of line token_lparen = Starts-bind Takes-advance_token λ a.
      Runs-bind (Runs-Takes t)
        λ inner. Runs-bind (Runs-Takes (Takes-expect token_rparen)) λ b. Runs-pure _
  Starts-primary_of line token_identifier =
      Starts-bind Takes-taken_text
        λ name. Runs-get λ next. Runs-after_name line name next.current.type
  Starts-primary_of line _ = Starts-bind (Takes-refuse diag_k204) λ a. Runs-pure _

  pub Takes-parse_primary : Takes (suc fuel) (parse_primary expression fuel)
  unfolding parse_primary
  Takes-parse_primary =
      Takes-dispatch (λ p type. primary_of expression fuel p.current.line type)
        (λ p. unfold primary_of in Takes-bind (Takes-refuse diag_k204) λ a. Runs-pure _)
        (λ p type. Starts-primary_of p.current.line type)

module _ (expression : P AstNode) where
  -- One round of the loop over indices and members.
  step-postfix_of :
      (fuel : ℕ) (again : AstNode → P AstNode) (node : AstNode) (type : TokenType) (p : Parser)
      → Takes fuel expression
      → ((node : AstNode) → Runs fuel (again node))
      → p.current.type ≡ type
      → weight p < suc fuel
      → Step p (postfix_of expression again p.current.line node type p)
  unfolding postfix_of
  step-postfix_of fuel again node token_lbracket p t r e h =
      step_at p token_lbracket
        (Starts-bind Takes-advance_token λ a.
          Runs-bind (Runs-Takes t)
            λ index. Runs-bind (Runs-Takes (Takes-expect token_rbracket)) λ b. r _)
        e refl h
  step-postfix_of fuel again node token_dot p t r e h =
      step_at p token_dot
        (Starts-bind Takes-advance_token
          λ a. Runs-bind (Runs-Takes (Takes-expect_name token_identifier)) λ member. r _)
        e refl h
  step-postfix_of fuel again node _ p t r e h = step_of (Runs-pure node) p h

  Runs-postfix_loop :
      (n fuel : ℕ)
      → Takes fuel expression
      → n ≤ suc fuel
      → (node : AstNode) → Runs n (postfix_loop expression n node)
  unfolding postfix_loop
  Runs-postfix_loop zero fuel t le node = Runs-zero
  Runs-postfix_loop (suc n) fuel t le node = runs λ p h.
      step-postfix_of n (postfix_loop expression n) node p.current.type p
        (Takes-weaken (omega (arith, le)) t) (Runs-postfix_loop n fuel t (omega (arith, le))) refl h

  Takes-parse_postfix :
      (fuel : ℕ) → Takes fuel expression → Takes (suc fuel) (parse_postfix expression fuel)
  unfolding parse_postfix
  Takes-parse_postfix fuel t =
      Takes-bind (Takes-parse_primary fuel expression t)
        (Runs-postfix_loop (suc fuel) fuel t (omega arith))

is_unary-inside : (p : Parser) → is_unary p.current.type ≡ true → at_end p ≡ false
is_unary-inside p h = ground (arith, h)

Takes-parse_unary :
    (fuel : ℕ) (postfix : P AstNode) → Takes fuel postfix → Takes fuel (parse_unary postfix fuel)
unfolding parse_unary
Takes-parse_unary zero postfix t = Takes-zero
Takes-parse_unary (suc fuel) postfix t =
    Takes-get_if (λ p. is_unary p.current.type) is_unary-inside
      (λ p. Starts-bind Takes-advance_token λ a.
        Runs-bind (Runs-Takes (Takes-parse_unary fuel postfix (Takes-weaken (omega arith) t)))
          λ operand. Runs-pure _)
      (λ p. t)

module _ (is_operator : TokenType → Bool)
    (inside : (p : Parser) → is_operator p.current.type ≡ true → at_end p ≡ false) where
  Runs-binary_loop :
      (fuel : ℕ) (operand : P AstNode) (left : AstNode)
      → Takes fuel operand
      → Runs fuel (binary_loop is_operator operand fuel left)
  unfolding binary_loop
  Runs-binary_loop zero operand left t = Runs-zero
  Runs-binary_loop (suc fuel) operand left t =
      let below = Takes-weaken (omega arith) t in
      Runs-get_if (λ p. is_operator p.current.type) inside
        (λ p.
          Starts-bind Takes-advance_token
            λ a. Runs-bind (Runs-Takes below) λ right. Runs-binary_loop fuel operand _ below)
        (λ p. Runs-pure left)

  Takes-binary_level :
      (fuel : ℕ) (operand : P AstNode)
      → Takes fuel operand
      → Takes fuel (binary_level is_operator operand fuel)
  unfolding binary_level
  Takes-binary_level fuel operand t = Takes-bind t λ left. Runs-binary_loop fuel operand left t

module _ (fuel : ℕ) (expression : P AstNode) (t : Takes fuel expression) where
  Takes-parse_multiplicative : Takes (suc fuel) (parse_multiplicative expression fuel)
  unfolding parse_multiplicative
  Takes-parse_multiplicative =
      Takes-binary_level is_multiplicative (λ p h. ground (arith, h)) (suc fuel) _
        (Takes-parse_unary (suc fuel) _ (Takes-parse_postfix expression fuel t))

  Takes-parse_comparison : Takes (suc fuel) (parse_comparison expression fuel)
  unfolding parse_comparison parse_additive
  Takes-parse_comparison =
      Takes-binary_level is_comparison (λ p h. ground (arith, h)) (suc fuel) _
        (Takes-binary_level is_additive (λ p h. ground (arith, h)) (suc fuel) _
          Takes-parse_multiplicative)

  Takes-parse_or : Takes (suc fuel) (parse_or expression fuel)
  unfolding parse_or parse_and parse_equality
  Takes-parse_or =
      Takes-binary_level is_or (λ p h. ground (arith, h)) (suc fuel) _
        (Takes-binary_level is_and (λ p h. ground (arith, h)) (suc fuel) _
          (Takes-binary_level is_equality (λ p h. ground (arith, h)) (suc fuel) _
            Takes-parse_comparison))

-- From every state whose weight is below the fuel, `parse_expression` gives an expression, and consumes a
-- token where one is left.
pub Takes-parse_expression : (fuel : ℕ) → Takes fuel (parse_expression fuel)
unfolding parse_expression
Takes-parse_expression zero = Takes-zero
Takes-parse_expression (suc fuel) =
    Takes-parse_or fuel (parse_expression fuel) (Takes-parse_expression fuel)

pub Takes-parse_assignment_or_expression :
    (fuel : ℕ) → Takes fuel (parse_assignment_or_expression fuel)
unfolding parse_assignment_or_expression
Takes-parse_assignment_or_expression fuel = Takes-get λ start.
    Takes-bind (Takes-parse_expression fuel) λ expression. Runs-get λ p.
      Runs-if (is_target expression && check p token_assign)
        (Runs-bind (Runs-Takes Takes-advance_token)
          λ a. Runs-bind (Runs-Takes (Takes-parse_expression fuel)) λ value. Runs-pure _)
        (Runs-pure expression)
