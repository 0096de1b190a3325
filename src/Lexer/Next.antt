-- ===== src/Lexer/Next.antt =====
-- `lexer_init` and `lexer_next_token` of src/lexer/lexer.c, and the loop of `dump_tokens` in
-- src/main.c, which reads a source up to its end.
use kratos_lang.Prelude.{
  ℕ, zero, suc, ◌+◌, ◌*◌, ◌-◌, Bool, true, false, ◌&&◌, ◌||◌, Option, none, some, Bytes, List, [],
  ◌∷◌, length, slice, ◌==◌, if◌then◌else◌, while,
}
use kratos_lang.Lexer.Token.{
  TokenType, token_eof, token_assign, token_plus, token_minus, token_star, token_slash,
  token_percent, token_equal, token_not_equal, token_less, token_greater, token_less_equal,
  token_greater_equal, token_and, token_or, token_lparen, token_rparen, token_lbrace, token_rbrace,
  token_lbracket, token_rbracket, token_semicolon, token_comma, token_dot, token_colon, Token,
  Lexer, diag_k101, diag_k105,
}
use kratos_lang.Lexer.Keywords.{identifier_type}
use kratos_lang.Lexer.Cursor.{
  count_line, column_at, make_token, make_error_token, char_ahead, current_char, advance,
  match_char, remaining, skip_whitespace, at_space, skip_one, skip_comment, comment_body,
  in_comment,
}
use kratos_lang.Lexer.Scan.{
  skip_digits, fraction, exponent, consume_escape, string_escape, string_round, string_body,
  string_end, char_end, at_digit, is_escape_char, skip_bad, is_digit, is_alpha, is_alnum,
  lexer_number, lexer_string, lexer_char,
}

unfoldable pub lexer_init : Bytes → Lexer
lexer_init source = record { source = source; position = 0; line = 1; unterminated_comment = false }

unfoldable pub at_name : Lexer → Bool
unfolding is_alnum current_char
at_name lexer = is_alnum (current_char lexer) || current_char lexer == b'_'

unfoldable pub lexer_identifier : Lexer → Token × Lexer
lexer_identifier lexer =
    let start = lexer.position in
    let end = while (suc (remaining lexer)) at_name advance lexer in
    let len = end.position - start in
    (make_token end (identifier_type (slice start len lexer.source)) start len end.line, end)

-- The kind of the token behind a first byte and, if it is there, a second one.
abbrev pub pair : TokenType → TokenType → Bool × Lexer → Option TokenType × Lexer
pair both single (true, lexer) = (some both, lexer)
pair both single (false, lexer) = (some single, lexer)

-- A first byte that is no token without the second.
abbrev pub pair_only : TokenType → Bool × Lexer → Option TokenType × Lexer
pair_only both (true, lexer) = (some both, lexer)
pair_only both (false, lexer) = (none, lexer)

-- The `switch`, the first byte `c` consumed; `none` is the token K105.
unfoldable pub operator_type : ℕ → Lexer → Option TokenType × Lexer
operator_type c lexer =
    if c == b'='
    then pair token_equal token_assign (match_char b'=' lexer)
    else if c == b'!'
    then pair_only token_not_equal (match_char b'=' lexer)
    else if c == b'<'
    then pair token_less_equal token_less (match_char b'=' lexer)
    else if c == b'>'
    then pair token_greater_equal token_greater (match_char b'=' lexer)
    else if c == b'&'
    then pair_only token_and (match_char b'&' lexer)
    else if c == b'|'
    then pair_only token_or (match_char b'|' lexer)
    else if c == b'+'
    then (some token_plus, lexer)
    else if c == b'-'
    then (some token_minus, lexer)
    else if c == b'*'
    then (some token_star, lexer)
    else if c == b'/'
    then (some token_slash, lexer)
    else if c == b'%'
    then (some token_percent, lexer)
    else if c == b'('
    then (some token_lparen, lexer)
    else if c == b')'
    then (some token_rparen, lexer)
    else if c == b'{'
    then (some token_lbrace, lexer)
    else if c == b'}'
    then (some token_rbrace, lexer)
    else if c == b'['
    then (some token_lbracket, lexer)
    else if c == b']'
    then (some token_rbracket, lexer)
    else if c == b';'
    then (some token_semicolon, lexer)
    else if c == b','
    then (some token_comma, lexer)
    else if c == b'.'
    then (some token_dot, lexer)
    else if c == b':'
    then (some token_colon, lexer)
    else (none, lexer)

abbrev pub operator_token : ℕ → Option TokenType × Lexer → Token × Lexer
operator_token start (some type, lexer) =
    (make_token lexer type start (lexer.position - start) lexer.line, lexer)
operator_token start (none, lexer) = (make_error_token lexer start 1 lexer.line diag_k105, lexer)

unfoldable pub lexer_operator : Lexer → Token × Lexer
lexer_operator lexer =
    operator_token lexer.position (operator_type (current_char lexer) (advance lexer))

-- The token at a byte that is neither blank nor the start of a comment.
unfoldable pub lexer_token : Lexer → Token × Lexer
lexer_token lexer =
    let c = current_char lexer in
    if c == 0
    then (make_token lexer token_eof lexer.position 0 lexer.line, lexer)
    else if is_alpha c || c == b'_'
    then lexer_identifier lexer
    else if is_digit c
    then lexer_number lexer
    else if c == b'.' && is_digit (char_ahead 1 lexer)
    then lexer_number lexer
    else if c == b'"'
    then lexer_string lexer
    else if c == b'\''
    then lexer_char lexer
    else lexer_operator lexer

unfoldable pub lexer_next_token : Lexer → Token × Lexer
lexer_next_token lexer =
    let next = skip_whitespace lexer in
    let report = record next { unterminated_comment = false } in
    if next.unterminated_comment
    then (make_error_token report report.position 1 report.line diag_k101, report)
    else lexer_token next

-- `token.type != TOKEN_EOF`
abbrev pub is_eof : TokenType → Bool
is_eof token_eof = true
is_eof _ = false

abbrev pub prepend : Token → Option (List Token) → Option (List Token)
prepend token none = none
prepend token (some tokens) = some (token ∷ tokens)

-- The loop of `dump_tokens`: the tokens up to and with the first `token_eof`. `none`: out of fuel.
unfoldable pub read_tokens : ℕ → Lexer → Option (List Token)
read_tokens zero lexer = none
read_tokens (suc fuel) lexer =
    let (token, next) = lexer_next_token lexer in
    let rest = prepend token (read_tokens fuel next) in
    if is_eof token.type then some (token ∷ []) else rest

unfoldable pub dump_tokens : Bytes → Option (List Token)
unfolding lexer_init read_tokens lexer_next_token lexer_token lexer_operator operator_type
    lexer_identifier identifier_type lexer_number skip_digits fraction exponent consume_escape
    string_escape string_round string_body string_end lexer_string char_end lexer_char make_token
    make_error_token char_ahead current_char advance match_char remaining skip_whitespace at_space
    skip_one skip_comment comment_body in_comment at_name is_digit is_alpha is_alnum at_digit
    is_escape_char skip_bad count_line while column_at
dump_tokens source = read_tokens (2 * length source + 2) (lexer_init source)
