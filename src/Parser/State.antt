-- ===== src/Parser/State.antt =====
-- src/parser/parser.h and src/parser/parser.c: the state of the parser and the helpers on tokens. The
-- scanner that the state points to is a part of it. What `error_at` prints is kept as a list of codes
-- with line and column, the last one first. A loop or recursion that runs out of fuel gives `none`.
use kratos_lang.Prelude.{
  ℕ, Bool, true, false, Bytes, List, [], ◌∷◌, Option, none, some, if◌then◌else◌,
}
use kratos_lang.Lexer.Token.{TokenType, token_error, token_eof, Token, Lexer}
use kratos_lang.Lexer.Next.{lexer_next_token}
use kratos_lang.Lexer.Decode.{token_text}
use kratos_lang.Parser.Kinds.{token_eq}

pub record Parser : Type 0 where
  pub lexer : Lexer
  pub current : Token
  pub previous : Token
  pub had_error : Bool
  pub diagnostics : List (ℕ × ℕ × ℕ)

-- A function of the parser: it changes the state and returns a value.
abbrev pub P {ℓ} : Type ℓ → Type ℓ
P A = Parser → Option (A × Parser)

abbrev pub continue_with {ℓ κ} :
    {A : Type ℓ} {B : Type κ} → Option (A × Parser) → (A → P B) → Option (B × Parser)
continue_with none f = none
continue_with (some (a, parser)) f = f a parser

infixl 5 ◌>>=◌ ◌>>◌
abbrev pub ◌>>=◌ {ℓ κ} : {A : Type ℓ} {B : Type κ} → P A → (A → P B) → P B
◌>>=◌ m f parser = continue_with (m parser) f

abbrev pub ◌>>◌ {ℓ κ} : {A : Type ℓ} {B : Type κ} → P A → P B → P B
◌>>◌ m k parser = continue_with (m parser) (λ a. k)

abbrev pub pure {ℓ} : {A : Type ℓ} → A → P A
pure a parser = some (a, parser)

abbrev pub out_of_fuel {ℓ} : {A : Type ℓ} → P A
out_of_fuel parser = none

abbrev pub get : P Parser
get parser = some (parser, parser)

-- unexpected token, another token expected, a type expected, an expression expected
abbrev pub diag_k201 : ℕ
diag_k201 = 201

abbrev pub diag_k202 : ℕ
diag_k202 = 202

abbrev pub diag_k203 : ℕ
diag_k203 = 203

abbrev pub diag_k204 : ℕ
diag_k204 = 204

unfoldable pub error_at : Token → ℕ → Parser → Parser
error_at token code parser = record parser {
  had_error = true;
  diagnostics = (code, token.line, token.column) ∷ parser.diagnostics;
}

-- The report of a token that the scanner refused.
unfoldable pub error_if_invalid : Parser → Parser
unfolding error_at
error_if_invalid parser =
    if token_eq parser.current.type token_error
    then error_at parser.current diag_k201 parser
    else parser

unfoldable pub advanced : Parser → Parser
unfolding error_if_invalid
advanced parser =
    let next = lexer_next_token parser.lexer in
    error_if_invalid (record parser { previous = parser.current; current = next.0; lexer = next.1 })

unfoldable pub advance_token : P (Unit {0})
unfolding advanced
advance_token parser = some (tt, advanced parser)

unfoldable pub parser_init : Lexer → Parser
unfolding error_if_invalid
parser_init lexer =
    let first = lexer_next_token lexer in
    error_if_invalid (record {
      lexer = first.1;
      current = first.0;
      previous = first.0;
      had_error = false;
      diagnostics = [];
    })

abbrev pub check : Parser → TokenType → Bool
check parser type = token_eq parser.current.type type

unfoldable pub match : TokenType → P Bool
unfolding advanced
match type parser = if check parser type then some (true, advanced parser) else some (false, parser)

-- Reports an error at the current token, and skips it unless it is the end.
unfoldable pub refuse : ℕ → P (Unit {0})
unfolding advanced error_at
refuse code parser =
    let reported = error_at parser.current code parser in
    some (tt, if check parser token_eof then reported else advanced reported)

unfoldable pub expect : TokenType → P Token
unfolding advanced refuse
expect type = do
  parser ← get
  if check parser type then advance_token else refuse diag_k202
  pure parser.current

-- The bytes of a token: `token_to_cstring`.
abbrev pub token_to_cstring : Token → P Bytes
token_to_cstring token parser = some (token_text parser.lexer.source token, parser)

unfoldable pub expect_name : TokenType → P Bytes
unfolding expect
expect_name type = do token ← expect type; token_to_cstring token
