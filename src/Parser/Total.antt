-- ===== src/Parser/Total.antt =====
-- `parser_parse_program` of src/parser/parser.c reads every source to its end.
use kratos_lang.Prelude.{
  ℕ, zero, suc, ◌+◌, ◌*◌, ◌<◌, ◌≡◌, refl, ◌∙◌, Bool, true, false, not, Bytes, Bool-cases, inl, inr,
  Option, none, some, length, arith, ◌&&◌,
}
use kratos_lang.Lexer.Token.{
  TokenType, token_record, token_wield, token_k_const, token_craft, token_rparen,
}
use kratos_lang.Lexer.Next.{lexer_init}
use kratos_lang.Ast.{AstNode, AstNodeList, program, KratosType}
use kratos_lang.Parser.State.{Parser, P, continue_with, check, parser_init}
use kratos_lang.Parser.Weight.{at_end, weight, Forward, parser_init-weight, parser_init-source}
use kratos_lang.Parser.Stmt.{parse_statement, while_parse}
use kratos_lang.Parser.Program.{
  parse_param, parse_function_decl, parse_declaration, parse_top_level, before_end,
  parser_parse_program, parse_source,
}
use kratos_lang.Parser.Forward.{
  Runs, step_of, Takes, Starts, Starts-Takes, Starts-if, Starts-weaken, Runs-if, Takes-bind,
  Takes-bind_right,
}
use kratos_lang.Parser.TokenRuns.{Runs-get, Takes-get, Starts-get, Runs-match, IsInside}
use kratos_lang.Parser.ExprRuns.{Runs-list_until}
use kratos_lang.Parser.StmtRuns.{
  running, Takes-parse_type_extended, Runs-array_suffix, Runs-while_parse, Runs-parse_block,
  Runs-finish_var_decl, Starts-parse_record_decl,
}
use kratos_lang.Parser.StatementRuns.{Starts-parse_statement, Starts-parse_wield_stmt}

Takes-parse_param : (fuel : ℕ) → Takes fuel (parse_param fuel)
unfolding parse_param
Takes-parse_param fuel =
    Takes-get λ p. Takes-bind Takes-parse_type_extended λ type. search (running, Runs-array_suffix)

Runs-parse_function_decl :
    (fuel line : ℕ) (type : KratosType × Option Bytes)
    → Runs fuel (parse_function_decl fuel line type)
unfolding parse_function_decl
Runs-parse_function_decl fuel line type =
    let params = Runs-list_until token_rparen fuel (parse_param fuel) (Takes-parse_param fuel) in
    let body = Runs-parse_block fuel (parse_statement fuel) (Starts-parse_statement fuel) in
    search (running, params, body) depth 9

Takes-parse_declaration : (fuel : ℕ) → Takes fuel (parse_declaration fuel)
unfolding parse_declaration
Takes-parse_declaration fuel = Takes-get λ start.
    Takes-bind_right (Runs-match token_k_const) λ is_const.
      Takes-bind Takes-parse_type_extended λ type. Runs-get λ p.
        Runs-if (not is_const && check p token_craft)
          (Runs-parse_function_decl fuel start.current.line type)
          (Runs-finish_var_decl fuel start.current.line is_const type)

Starts-parse_top_level : (fuel : ℕ) → Starts fuel (parse_top_level fuel)
unfolding parse_top_level
Starts-parse_top_level fuel = Starts-get λ p.
    Starts-if (check p token_record) (Starts-weaken (omega arith) (Starts-parse_record_decl fuel)) (
      Starts-if (check p token_wield) (Starts-weaken (omega arith) (Starts-parse_wield_stmt fuel))
        (Starts-Takes (Takes-parse_declaration fuel)))

before_end-inside : (type : TokenType) → before_end type ≡ true → IsInside type
before_end-inside type h = ground (arith, h)

-- A computation in two parts that gives a value does so in both.
bind-cases {ℓ κ} :
    {A : Type ℓ} {B : Type κ} (r : Option (A × Parser)) (f : A → P B) (b : B) (q : Parser)
    → continue_with r f ≡ some (b, q)
    → (a : A) × (t : Parser) × (r ≡ some (a, t)) × (f a t ≡ some (b, q))
bind-cases none f b q h = absurd (ground (arith, h))
bind-cases (some (a, t)) f b q h = (a, t, refl, h)

-- The loop ends where its test fails.
while_parse-exit :
    (test : TokenType → Bool) (item : P AstNode) (fuel : ℕ) (p : Parser) (nodes : AstNodeList)
    (q : Parser)
    → while_parse test item fuel p ≡ some (nodes, q)
    → test q.current.type ≡ false
unfolding while_parse
while_parse-exit test item zero p nodes q h = absurd (ground (arith, h))
while_parse-exit test item (suc fuel) p nodes q h = elim (Bool-cases (test p.current.type)) [
  | inl e ↦
      let (node, t, read, rest) = bind-cases (item p) _ nodes q (rw e at h) in
      let (more, u, loop, last) = bind-cases (while_parse test item fuel t) _ nodes q rest in
      let ended = while_parse-exit test item fuel t more u loop in
      let same : u ≡ q = cc last in rw same at ended
  | inr e ↦ let same : p ≡ q = cc (rw e at h) in rw same at e
]

-- From any state of a weight below the fuel the declarations are read, up to the end.
record Finished (start : Parser) (r : Option (AstNode × Parser)) : Type 0 where
  pub declarations : AstNodeList
  pub parser : Parser
  pub done : r ≡ some (program start.current.line declarations, parser)
  pub finished : at_end parser ≡ true
  pub forward : Forward start parser

parser_parse_program-Finished :
    (fuel : ℕ) (start : Parser)
    → weight start < fuel
    → Finished start (parser_parse_program fuel start)
unfolding parser_parse_program
parser_parse_program-Finished fuel start enough =
    let item = parse_top_level fuel in
    let loop =
      step_of
        (Runs-while_parse before_end before_end-inside fuel item (Starts-parse_top_level fuel))
        start enough in
    let ended = while_parse-exit before_end item fuel start loop.value loop.next loop.done in
    record {
      declarations = loop.value;
      parser = loop.next;
      done = rw loop.done;
      finished = ground (arith, ended);
      forward = loop.forward;
    }

-- A source that is parsed to its end, into a program.
pub record Parsed (source : Bytes) : Type 0 where
  pub line : ℕ
  pub declarations : AstNodeList
  pub parser : Parser
  pub done : parse_source source ≡ some (program line declarations, parser)
  pub finished : at_end parser ≡ true
  pub same_source : parser.lexer.source ≡ source

-- Every source, whatever it holds, is parsed to its end: the fuel is enough, and the result is a program.
pub parse_source-Parsed : (source : Bytes) → Parsed source
unfolding parse_source lexer_init
parse_source-Parsed source =
    let l = lexer_init source in
    let start = parser_init l in
    let bound = parser_init-weight l refl in
    let r = parser_parse_program-Finished (8 * length source + 8) start (omega (arith, bound)) in
    record {
      line = start.current.line;
      declarations = r.declarations;
      parser = r.parser;
      done = r.done;
      finished = r.finished;
      same_source = r.forward.source ∙ parser_init-source l;
    }
