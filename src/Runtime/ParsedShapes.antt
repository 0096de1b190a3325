-- ===== src/Runtime/ParsedShapes.antt =====
-- The shape of the statements that src/parser/parser.c builds, which src/runtime/interp.c relies on.
use kratos_lang.Prelude.{ℕ, ◌≡◌, refl, Bool, true, false, ◌||◌, Bytes, Option, arith, and_intro}
use kratos_lang.Lexer.Token.{
  token_assign, token_else, token_hold, token_identifier, token_in, token_k_const, token_lbrace,
  token_lparen, token_rbrace, token_rparen, token_semicolon,
}
use kratos_lang.Ast.{
  AstNode, AstNodeList, KratosType, block, cond_branch, cons, is_var_decl, null, var_decl,
}
use kratos_lang.Semantic.Returns.{is_null}
use kratos_lang.Parser.State.{P, advance_token, expect, expect_name, get, match}
use kratos_lang.Parser.Expr.{parse_assignment_or_expression, parse_expression}
use kratos_lang.Parser.Stmt.{
  array_suffix, finish_var_decl, in_braces, is_elif, parse_block, parse_branch, parse_drive_stmt,
  parse_else, parse_hold_stmt, parse_if_stmt, parse_parenthesised, parse_press_stmt,
  parse_sweep_stmt, parse_type_extended, parse_var_decl, while_parse,
}
use kratos_lang.Parser.Gives.{
  Gives, Gives-after, Gives-bind, Gives-if, Gives-map, Gives-pure, while_parse-Gives,
}
use kratos_lang.Runtime.Shape.{all_built, branches_built, well_built}

pub parse_block-Gives :
    (statement : P AstNode) (fuel : ℕ)
    → Gives well_built statement
    → Gives well_built (parse_block statement fuel)
unfolding parse_block well_built
parse_block-Gives statement fuel h = Gives-after get _ λ parser.
    Gives-after (expect token_lbrace) _ λ opening.
      Gives-bind (while_parse in_braces statement fuel) _
        (while_parse-Gives well_built all_built refl
          (λ node nodes. and_intro (well_built node) (all_built nodes)) in_braces statement fuel h)
        λ nodes ps.
          Gives-after (expect token_rbrace) _
            λ closing. Gives-pure (block parser.current.line nodes) ps

pub finish_var_decl-Gives :
    (fuel line : ℕ) (is_const : Bool) (type : KratosType × Option Bytes)
    → Gives is_var_decl (finish_var_decl fuel line is_const type)
unfolding finish_var_decl is_var_decl
finish_var_decl-Gives fuel line is_const type = Gives-after (array_suffix fuel) _ λ depth.
    Gives-after (expect_name token_identifier) _ λ name. Gives-after (expect token_assign) _ λ sign.
      Gives-after (parse_expression fuel) _
        λ initializer. Gives-after (expect token_semicolon) _ λ end. Gives-pure _ refl

pub parse_var_decl-Gives : (fuel : ℕ) → Gives is_var_decl (parse_var_decl fuel)
unfolding parse_var_decl
parse_var_decl-Gives fuel = Gives-after get _ λ parser.
    Gives-after (match token_k_const) _ λ is_const.
      Gives-after parse_type_extended _
        λ type. finish_var_decl-Gives fuel parser.current.line is_const type

-- An initializer has no shape to keep.
pub var_decl_built : (node : AstNode) → is_var_decl node ≡ true → well_built node ≡ true
unfolding is_var_decl well_built
var_decl_built (var_decl line is_const depth type record_name name initializer) h = refl
var_decl_built _ h = absurd (ground (arith, h))

-- The branches of an `if`.
abbrev branch_built : AstNode → Bool
branch_built (cond_branch line condition body) = well_built body
branch_built _ = false

branches_cons :
    (node : AstNode) (nodes : AstNodeList)
    → branch_built node ≡ true
    → branches_built nodes ≡ true
    → branches_built (cons node nodes) ≡ true
unfolding well_built
branches_cons (cond_branch line condition body) nodes h k =
    and_intro (well_built body) (branches_built nodes) h k
branches_cons _ nodes h k = absurd (ground (arith, h))

abbrev else_built : AstNode → Bool
else_built node = is_null node || well_built node

built_else : (node : AstNode) → well_built node ≡ true → else_built node ≡ true
built_else node h = ground (arith, h)

module _ (statement : P AstNode) (fuel : ℕ) (statement-Gives : Gives well_built statement) where
  parse_branch-Gives : Gives branch_built (parse_branch statement fuel)
  unfolding parse_branch
  parse_branch-Gives = Gives-after get _ λ parser. Gives-after advance_token _ λ keyword.
      Gives-after (parse_parenthesised fuel) _ λ condition.
        Gives-bind (parse_block statement fuel) _ (parse_block-Gives statement fuel statement-Gives)
          λ body h. Gives-pure _ h

  parse_else-Gives : Gives else_built (parse_else statement fuel)
  unfolding parse_else is_null
  parse_else-Gives = Gives-after (match token_else) _ λ found.
      Gives-if found _ _ (Gives-map _ (parse_block-Gives statement fuel statement-Gives) built_else)
        (Gives-pure null refl)

  pub parse_if_stmt-Gives : Gives well_built (parse_if_stmt statement fuel)
  unfolding parse_if_stmt well_built
  parse_if_stmt-Gives = Gives-after get _ λ parser.
      Gives-bind (parse_branch statement fuel) _ parse_branch-Gives λ first a.
        Gives-bind (while_parse is_elif (parse_branch statement fuel) fuel) _
          (while_parse-Gives branch_built branches_built refl branches_cons is_elif
            (parse_branch statement fuel) fuel parse_branch-Gives)
          λ rest b. Gives-bind (parse_else statement fuel) _ parse_else-Gives λ else_block c.
            Gives-pure _ (
              and_intro (branches_built (cons first rest)) (else_built else_block)
                (branches_cons first rest a b) c)

  pub parse_hold_stmt-Gives : Gives well_built (parse_hold_stmt statement fuel)
  unfolding parse_hold_stmt well_built
  parse_hold_stmt-Gives = Gives-after get _ λ parser. Gives-after advance_token _ λ keyword.
      Gives-after (parse_parenthesised fuel) _ λ condition.
        Gives-bind (parse_block statement fuel) _ (parse_block-Gives statement fuel statement-Gives)
          λ body h. Gives-pure _ h

  pub parse_press_stmt-Gives : Gives well_built (parse_press_stmt statement fuel)
  unfolding parse_press_stmt well_built
  parse_press_stmt-Gives = Gives-after get _ λ parser. Gives-after advance_token _ λ keyword.
      Gives-bind (parse_block statement fuel) _ (parse_block-Gives statement fuel statement-Gives)
        λ body h. Gives-after (expect token_hold) _ λ hold.
          Gives-after (parse_parenthesised fuel) _
            λ condition. Gives-after (expect token_semicolon) _ λ end. Gives-pure _ h

  pub parse_drive_stmt-Gives : Gives well_built (parse_drive_stmt statement fuel)
  unfolding parse_drive_stmt well_built
  parse_drive_stmt-Gives = Gives-after get _ λ parser. Gives-after advance_token _ λ keyword.
      Gives-after (expect token_lparen) _ λ opening.
        Gives-bind (parse_var_decl fuel) _ (parse_var_decl-Gives fuel) λ init d.
          Gives-after (parse_expression fuel) _ λ condition.
            Gives-after (expect token_semicolon) _ λ end.
              Gives-after (parse_assignment_or_expression fuel) _ λ step.
                Gives-after (expect token_rparen) _ λ closing.
                  Gives-bind (parse_block statement fuel) _
                    (parse_block-Gives statement fuel statement-Gives)
                    λ body h. Gives-pure _ (and_intro (is_var_decl init) (well_built body) d h)

  pub parse_sweep_stmt-Gives : Gives well_built (parse_sweep_stmt statement fuel)
  unfolding parse_sweep_stmt well_built
  parse_sweep_stmt-Gives = Gives-after get _ λ parser. Gives-after advance_token _ λ keyword.
      Gives-after (expect token_lparen) _ λ opening. Gives-after parse_type_extended _ λ type.
        Gives-after (expect_name token_identifier) _ λ element.
          Gives-after (expect token_in) _ λ sign.
            Gives-after (expect_name token_identifier) _ λ collection.
              Gives-after (expect token_rparen) _ λ closing.
                Gives-bind (parse_block statement fuel) _
                  (parse_block-Gives statement fuel statement-Gives) λ body h. Gives-pure _ h
