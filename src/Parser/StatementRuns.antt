-- ===== src/Parser/StatementRuns.antt =====
-- `parse_statement` of src/parser/parser.c: with fuel above the weight of the state it ends and consumes a
-- token.
use kratos_lang.Prelude.{ℕ, zero, suc, arith}
use kratos_lang.Lexer.Token.{
  TokenType, token_if, token_else, token_hold, token_press, token_drive, token_sweep, token_snap,
  token_push, token_yield, token_shout, token_wield, token_record, token_lbrace, token_semicolon,
}
use kratos_lang.Ast.{AstNode, null, snap_stmt, push_stmt}
use kratos_lang.Parser.State.{P, check}
use kratos_lang.Parser.Stmt.{
  is_elif, parse_branch, parse_else, parse_if_stmt, parse_hold_stmt, parse_press_stmt,
  parse_drive_stmt, parse_sweep_stmt, parse_jump, parse_yield_stmt, parse_shout_stmt,
  parse_wield_stmt, parse_expression_statement, statement_of, parse_statement,
}
use kratos_lang.Parser.Forward.{
  Runs, Takes, Starts, Runs-Takes, Starts-Takes, Starts-weaken, Starts-zero, Runs-pure, Runs-if,
  Starts-if, Runs-bind, Takes-bind, Starts-bind, Starts-then, Starts-peek,
}
use kratos_lang.Parser.TokenRuns.{Takes-advance_token, Runs-get, Takes-get, Starts-get, Runs-match}
use kratos_lang.Parser.ExprRuns.{Takes-parse_expression, Takes-parse_assignment_or_expression}
use kratos_lang.Parser.StmtRuns.{
  running, Peeks-is_var_decl_starting, Runs-while_parse, is_elif-inside, Runs-parse_block,
  Starts-parse_block, Takes-parse_var_decl, Starts-parse_record_decl, Runs-parse_parenthesised,
}

ruleset bodies = (running, Runs-parse_parenthesised, Runs-parse_block, Takes-parse_var_decl)

module _ (fuel : ℕ) (statement : P AstNode) (s : Starts fuel statement) where
  Starts-parse_branch : Starts (suc fuel) (parse_branch statement fuel)
  unfolding parse_branch
  Starts-parse_branch = Starts-get λ p. Starts-bind Takes-advance_token λ a. search (bodies, s)

  Runs-parse_else : Runs fuel (parse_else statement fuel)
  unfolding parse_else
  Runs-parse_else =
      Runs-bind (Runs-match token_else)
        λ found. Runs-if found (Runs-parse_block fuel statement s) (Runs-pure null)

  Starts-parse_if_stmt : Starts (suc fuel) (parse_if_stmt statement fuel)
  unfolding parse_if_stmt
  Starts-parse_if_stmt = Starts-get λ p. Starts-then Starts-parse_branch λ first.
      let branches = Starts-weaken (omega arith) Starts-parse_branch in
      Runs-bind
        (Runs-while_parse is_elif is_elif-inside fuel (parse_branch statement fuel) branches)
        λ rest. Runs-bind Runs-parse_else λ else_block. Runs-pure _

  Starts-parse_hold_stmt : Starts (suc fuel) (parse_hold_stmt statement fuel)
  unfolding parse_hold_stmt
  Starts-parse_hold_stmt = Starts-get λ p. Starts-bind Takes-advance_token λ a. search (bodies, s)

  Starts-parse_press_stmt : Starts (suc fuel) (parse_press_stmt statement fuel)
  unfolding parse_press_stmt
  Starts-parse_press_stmt =
      Starts-get λ p. Starts-bind Takes-advance_token λ a. search (bodies, s) depth 8

  Starts-parse_drive_stmt : Starts (suc fuel) (parse_drive_stmt statement fuel)
  unfolding parse_drive_stmt
  Starts-parse_drive_stmt =
      Starts-get λ p. Starts-bind Takes-advance_token λ a. search (bodies, s) depth 12

  Starts-parse_sweep_stmt : Starts (suc fuel) (parse_sweep_stmt statement fuel)
  unfolding parse_sweep_stmt
  Starts-parse_sweep_stmt =
      Starts-get λ p. Starts-bind Takes-advance_token λ a. search (bodies, s) depth 12

Starts-parse_jump : (fuel : ℕ) (node : ℕ → AstNode) → Starts (suc fuel) (parse_jump node)
unfolding parse_jump
Starts-parse_jump fuel node = Starts-get λ p. Starts-bind Takes-advance_token λ a. search running

Starts-parse_yield_stmt : (fuel : ℕ) → Starts (suc fuel) (parse_yield_stmt fuel)
unfolding parse_yield_stmt
Starts-parse_yield_stmt fuel = Starts-get λ p. Starts-bind Takes-advance_token λ a. Runs-get λ next.
    Runs-bind
      (Runs-if (check next token_semicolon) (Runs-pure null)
        (Runs-Takes (Takes-parse_expression fuel)))
      λ value. search running

Starts-parse_shout_stmt : (fuel : ℕ) → Starts (suc fuel) (parse_shout_stmt fuel)
unfolding parse_shout_stmt
Starts-parse_shout_stmt fuel = Starts-get λ p. Starts-bind Takes-advance_token λ a. search bodies

pub Starts-parse_wield_stmt : (fuel : ℕ) → Starts (suc fuel) parse_wield_stmt
unfolding parse_wield_stmt
Starts-parse_wield_stmt fuel = Starts-get λ p. Starts-bind Takes-advance_token λ a. search running

Takes-parse_expression_statement : (fuel : ℕ) → Takes fuel (parse_expression_statement fuel)
unfolding parse_expression_statement
Takes-parse_expression_statement fuel =
    Takes-get λ p. Takes-bind (Takes-parse_assignment_or_expression fuel) λ result. search running

Starts-statement_of :
    (fuel : ℕ) (statement : P AstNode) (type : TokenType)
    → Starts fuel statement
    → Starts (suc fuel) (statement_of statement fuel type)
unfolding statement_of
Starts-statement_of fuel statement token_if s = Starts-parse_if_stmt fuel statement s
Starts-statement_of fuel statement token_hold s = Starts-parse_hold_stmt fuel statement s
Starts-statement_of fuel statement token_press s = Starts-parse_press_stmt fuel statement s
Starts-statement_of fuel statement token_drive s = Starts-parse_drive_stmt fuel statement s
Starts-statement_of fuel statement token_sweep s = Starts-parse_sweep_stmt fuel statement s
Starts-statement_of fuel statement token_snap s = Starts-parse_jump fuel snap_stmt
Starts-statement_of fuel statement token_push s = Starts-parse_jump fuel push_stmt
Starts-statement_of fuel statement token_yield s = Starts-parse_yield_stmt fuel
Starts-statement_of fuel statement token_shout s = Starts-parse_shout_stmt fuel
Starts-statement_of fuel statement token_wield s = Starts-parse_wield_stmt fuel
Starts-statement_of fuel statement token_lbrace s = Starts-parse_block fuel statement s
Starts-statement_of fuel statement _ s = Starts-Takes (Takes-parse_expression_statement (suc fuel))

-- From every state that is not at the end, and whose weight is below the fuel, `parse_statement` gives a
-- statement and consumes a token.
pub Starts-parse_statement : (fuel : ℕ) → Starts fuel (parse_statement fuel)
unfolding parse_statement
Starts-parse_statement zero = Starts-zero
Starts-parse_statement (suc fuel) = Starts-get λ p.
    Starts-if (check p token_record) (Starts-parse_record_decl fuel) (
      Starts-peek (Peeks-is_var_decl_starting (suc fuel)) λ declares.
        Starts-if declares (Starts-Takes (Takes-parse_var_decl (suc fuel))) (
          Starts-statement_of fuel (parse_statement fuel) p.current.type
            (Starts-parse_statement fuel)))
