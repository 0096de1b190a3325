-- ===== src/Parser/StmtRuns.antt =====
-- The parts of statements of src/parser/parser.c: fuel above the weight of the state is enough.
use kratos_lang.Prelude.{
  ℕ, zero, suc, ◌≡◌, refl, inr, Bool, true, false, Bytes, Option, none, some, arith, if◌then◌else◌,
  ◌||◌,
}
use kratos_lang.Lexer.Token.{
  TokenType, token_identifier, token_k_const, token_lbrace, token_rbrace, token_lbracket,
  token_rbracket,
}
use kratos_lang.Ast.{AstNode, nil, block, KratosType}
use kratos_lang.Parser.State.{P, ◌>>=◌, ◌>>◌, pure, check, expect, diag_k203}
use kratos_lang.Parser.Weight.{weight, Forward-refl}
use kratos_lang.Parser.Stmt.{
  token_to_kratos_type, check_type_token, parse_named_type, parse_type_of, parse_type_extended,
  array_suffix, skip_brackets, looks_like_decl, look_ahead, is_var_decl_starting, while_parse,
  in_braces, is_elif, parse_block, finish_var_decl, parse_var_decl, parse_record_field,
  parse_record_decl, parse_parenthesised,
}
use kratos_lang.Parser.Forward.{
  Step, Runs, runs, step_of, Takes, takes, Takes-Taken, Starts, Runs-Takes, Starts-Takes,
  Runs-weaken, Takes-weaken, Starts-weaken, Runs-zero, Takes-zero, Runs-pure, Runs-if, Runs-bind,
  Takes-bind, Starts-bind, Starts-then, Takes-bind_right, Peeked, Peeks, peeks, peeked,
}
use kratos_lang.Parser.TokenRuns.{
  Takes-advance_token, Takes-refuse, Runs-get, Takes-get, Starts-get, Runs-get_if, Takes-get_if,
  Takes-expect, Takes-expect_name, Runs-token_to_cstring, Runs-match, Runs-match_bind, IsInside,
  check-inside, Takes-dispatch, step_at,
}
use kratos_lang.Parser.ExprRuns.{
  Takes-taken_text, Takes-parse_expression, Takes-parse_assignment_or_expression,
}

Takes-parse_named_type : {n : ℕ} (named : Bool) → Takes n (parse_named_type named)
unfolding parse_named_type
Takes-parse_named_type true = Takes-bind Takes-taken_text λ name. Runs-pure _
Takes-parse_named_type false = Takes-bind (Takes-refuse diag_k203) λ a. Runs-pure _

Takes-parse_type_of :
    {n : ℕ} (named : Bool) (type : Option KratosType) → Takes n (parse_type_of named type)
Takes-parse_type_of named (some type) = Takes-bind Takes-advance_token λ a. Runs-pure _
Takes-parse_type_of named none = Takes-parse_named_type named

pub Takes-parse_type_extended : {n : ℕ} → Takes n parse_type_extended
unfolding parse_type_extended
Takes-parse_type_extended =
    Takes-get
      λ p. Takes-parse_type_of (check p token_identifier) (token_to_kratos_type p.current.type)

pub ruleset running = (
  Runs-get, Runs-bind, Runs-pure, Runs-match, Runs-Takes, Takes-expect, Takes-expect_name,
  Takes-advance_token, Takes-parse_type_extended, Takes-parse_expression,
  Takes-parse_assignment_or_expression,
)

pub Runs-array_suffix : (fuel : ℕ) → Runs fuel (array_suffix fuel)
unfolding array_suffix
Runs-array_suffix zero = Runs-zero
Runs-array_suffix (suc fuel) =
    Runs-match_bind token_lbracket _ refl
      (let rest = Runs-array_suffix fuel in search (running, rest)) (Runs-pure 0)

Runs-skip_brackets : (fuel : ℕ) → Runs fuel (skip_brackets fuel)
unfolding skip_brackets
Runs-skip_brackets zero = Runs-zero
Runs-skip_brackets (suc fuel) =
    Runs-match_bind token_lbracket _ refl
      (Runs-bind (Runs-match token_rbracket)
        λ closed. Runs-if closed (Runs-skip_brackets fuel) (Runs-pure tt))
      (Runs-pure tt)

Peeks-look_ahead {ℓ} : {A : Type ℓ} {n : ℕ} {m : P A} → Runs n m → Peeks n (look_ahead m)
unfolding weight
Peeks-look_ahead r = peeks λ p h.
    let a = step_of r p h in
    record {
      step = record {
        value = a.value;
        next = record p { diagnostics = a.next.diagnostics };
        done = rw a.done;
        forward = record { less = omega arith; same = inr refl; source = refl; errors = λ e. e };
      };
      stays = refl;
    }

Peeks-pure {ℓ} : {A : Type ℓ} {n : ℕ} (a : A) → Peeks n (pure a)
Peeks-pure a = peeks λ p h. record {
  step = record { value = a; next = p; done = refl; forward = Forward-refl p };
  stays = refl;
}

Peeks-if {ℓ} :
    {A : Type ℓ} {n : ℕ} (b : Bool) {m k : P A}
    → Peeks n m
    → Peeks n k
    → Peeks n (if b then m else k)
Peeks-if true r s = r
Peeks-if false r s = s

Runs-looks_like_decl : (fuel : ℕ) → Runs fuel (looks_like_decl fuel)
unfolding looks_like_decl
Runs-looks_like_decl fuel =
    Runs-bind (Runs-Takes Takes-advance_token)
      λ a. Runs-bind (Runs-skip_brackets fuel) λ b. search running

pub Peeks-is_var_decl_starting : (fuel : ℕ) → Peeks fuel (is_var_decl_starting fuel)
unfolding is_var_decl_starting
Peeks-is_var_decl_starting fuel = peeks λ p h.
    peeked
      (Peeks-if (check p token_k_const || check_type_token p.current.type) (Peeks-pure true) (
        Peeks-if (check p token_identifier) (Peeks-look_ahead (Runs-looks_like_decl fuel))
          (Peeks-pure false)))
      p h

module _ (test : TokenType → Bool)
    (inside : (type : TokenType) → test type ≡ true → IsInside type) where
  pub Runs-while_parse :
      (fuel : ℕ) (item : P AstNode) → Starts fuel item → Runs fuel (while_parse test item fuel)
  unfolding while_parse
  Runs-while_parse zero item s = Runs-zero
  Runs-while_parse (suc fuel) item s =
      Runs-get_if (λ p. test p.current.type) (λ p. inside p.current.type)
        (λ p. Starts-then s λ node.
          Runs-bind (Runs-while_parse fuel item (Starts-weaken (omega arith) s))
            λ nodes. Runs-pure _)
        (λ p. Runs-pure nil)

pub in_braces-inside : (type : TokenType) → in_braces type ≡ true → IsInside type
in_braces-inside type h = ground (arith, h)

pub is_elif-inside : (type : TokenType) → is_elif type ≡ true → IsInside type
is_elif-inside type h = ground (arith, h)

block_rest :
    {fuel : ℕ} (statement : P AstNode)
    → Starts fuel statement
    → (line : ℕ)
    → Runs fuel (do
      statements ← while_parse in_braces statement fuel
      expect token_rbrace
      pure (block line statements))
block_rest {fuel} statement s line =
    Runs-bind (Runs-while_parse in_braces in_braces-inside fuel statement s)
      λ statements. search running

pub Runs-parse_block :
    (fuel : ℕ) (statement : P AstNode)
    → Starts fuel statement
    → Runs fuel (parse_block statement fuel)
unfolding parse_block
Runs-parse_block fuel statement s = Runs-get λ p.
    Runs-bind (Runs-Takes (Takes-expect token_lbrace)) λ a. block_rest statement s p.current.line

-- A block at a token may hold statements that need the fuel of what follows the token.
pub Starts-parse_block :
    (fuel : ℕ) (statement : P AstNode)
    → Starts fuel statement
    → Starts (suc fuel) (parse_block statement fuel)
unfolding parse_block
Starts-parse_block fuel statement s =
    Starts-get
      λ p. Starts-bind (Takes-expect token_lbrace) λ a. block_rest statement s p.current.line

pub Runs-finish_var_decl :
    (fuel line : ℕ) (is_const : Bool) (type : KratosType × Option Bytes)
    → Runs fuel (finish_var_decl fuel line is_const type)
unfolding finish_var_decl
Runs-finish_var_decl fuel line is_const type = search (running, Runs-array_suffix) depth 9

pub Takes-parse_var_decl : (fuel : ℕ) → Takes fuel (parse_var_decl fuel)
unfolding parse_var_decl
Takes-parse_var_decl fuel = Takes-get λ p. Takes-bind_right (Runs-match token_k_const) λ is_const.
    Takes-bind Takes-parse_type_extended
      λ type. Runs-finish_var_decl fuel p.current.line is_const type

Takes-parse_record_field : (fuel : ℕ) → Takes fuel (parse_record_field fuel)
unfolding parse_record_field
Takes-parse_record_field fuel =
    Takes-get λ p. Takes-bind Takes-parse_type_extended λ type. search (running, Runs-array_suffix)

pub Starts-parse_record_decl : (fuel : ℕ) → Starts (suc fuel) (parse_record_decl fuel)
unfolding parse_record_decl
Starts-parse_record_decl fuel =
    let fields =
      Runs-while_parse in_braces in_braces-inside fuel (parse_record_field fuel)
        (Starts-Takes (Takes-parse_record_field fuel)) in
    Starts-get λ p. Starts-bind Takes-advance_token λ a. search (running, fields) depth 8

pub Runs-parse_parenthesised : (fuel : ℕ) → Runs fuel (parse_parenthesised fuel)
unfolding parse_parenthesised
Runs-parse_parenthesised fuel = search running
