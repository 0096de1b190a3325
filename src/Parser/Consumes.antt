-- ===== src/Parser/Consumes.antt =====
-- What a statement and an expression of src/parser/parser.c consume of the source.
use kratos_lang.Prelude.{ℕ, ◌<◌, ◌≡◌, false, Option, some}
use kratos_lang.Ast.{AstNode}
use kratos_lang.Parser.State.{Parser}
use kratos_lang.Parser.Weight.{at_end, weight, Forward}
use kratos_lang.Parser.Forward.{Taken, Takes-Taken, started}
use kratos_lang.Parser.Expr.{parse_expression}
use kratos_lang.Parser.Stmt.{parse_statement}
use kratos_lang.Parser.ExprRuns.{Takes-parse_expression}
use kratos_lang.Parser.StatementRuns.{Starts-parse_statement}

-- There is a node, and the state behind it is nearer to the end of the same source.
pub record Consumes (p : Parser) (r : Option (AstNode × Parser)) : Type 0 where
  pub node : AstNode
  pub next : Parser
  pub done : r ≡ some (node, next)
  pub nearer : weight next < weight p
  pub forward : Forward p next

Taken-Consumes :
    {p : Parser} {r : Option (AstNode × Parser)} → at_end p ≡ false → Taken p r → Consumes p r
Taken-Consumes inside t = record {
  node = t.step.value;
  next = t.step.next;
  done = t.step.done;
  nearer = t.strict inside;
  forward = t.step.forward;
}

-- From a state that is not at the end, with fuel above its weight, `parse_statement` gives a statement,
-- whether the source has one there or not. The state behind it is in the same source, nearer to its end,
-- and still has the errors reported before.
pub parse_statement-Consumes :
    (fuel : ℕ) (p : Parser)
    → at_end p ≡ false
    → weight p < fuel
    → Consumes p (parse_statement fuel p)
parse_statement-Consumes fuel p inside enough =
    Taken-Consumes inside (started (Starts-parse_statement fuel) p inside enough)

-- From a state that is not at the end, with fuel above its weight, `parse_expression` gives an
-- expression, whether the source has one there or not. The state behind it is in the same source, nearer
-- to its end, and still has the errors reported before.
pub parse_expression-Consumes :
    (fuel : ℕ) (p : Parser)
    → at_end p ≡ false
    → weight p < fuel
    → Consumes p (parse_expression fuel p)
parse_expression-Consumes fuel p inside enough =
    Taken-Consumes inside (Takes-Taken (Takes-parse_expression fuel) p enough)
