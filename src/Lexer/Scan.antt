-- ===== src/Lexer/Scan.antt =====
-- The scanning functions of src/lexer/lexer.c: numbers, escapes, strings, characters. `isdigit`,
-- `isalpha` and `isalnum` are those of the C locale, which the program never changes.
use kratos_lang.Prelude.{
  ℕ, zero, suc, ◌-◌, Bool, true, false, not, ◌&&◌, ◌||◌, Option, none, some, ◌==◌, leb,
  if◌then◌else◌, while,
}
use kratos_lang.Lexer.Token.{
  TokenType, token_integer, token_float, token_string_literal, token_char_literal, Token, Lexer,
  diag_k102, diag_k103, diag_k104,
}
use kratos_lang.Lexer.Cursor.{
  make_token, make_error_token, char_ahead, current_char, advance, remaining, count_line,
}

unfoldable pub is_digit : ℕ → Bool
is_digit c = leb b'0' c && leb c b'9'

unfoldable pub is_alpha : ℕ → Bool
is_alpha c = (leb b'a' c && leb c b'z') || (leb b'A' c && leb c b'Z')

unfoldable pub is_alnum : ℕ → Bool
unfolding is_alpha is_digit
is_alnum c = is_alpha c || is_digit c

-- A digit, or a `_` in front of a digit.
unfoldable pub at_digit : Lexer → Bool
unfolding is_digit current_char char_ahead
at_digit lexer =
    is_digit (current_char lexer) || (current_char lexer == b'_' && is_digit (char_ahead 1 lexer))

unfoldable pub skip_digits : Lexer → Lexer
skip_digits lexer = while (suc (remaining lexer)) at_digit advance lexer

abbrev pub is_sign : ℕ → Bool
is_sign c = c == b'+' || c == b'-'

-- The point and the digits behind it.
unfoldable pub fraction : Lexer → TokenType × Lexer
fraction lexer =
    if current_char lexer == b'.'
    then (token_float, skip_digits (advance lexer))
    else (token_integer, lexer)

-- The exponent, if a digit stands behind the `e` and its sign.
unfoldable pub exponent : TokenType → Lexer → TokenType × Lexer
exponent type lexer =
    if current_char lexer == b'e' || current_char lexer == b'E'
    then (let first = if is_sign (char_ahead 1 lexer) then 2 else 1 in
        if is_digit (char_ahead first lexer)
        then (let marked = advance lexer in
            let signed = if is_sign (current_char marked) then advance marked else marked in
            (token_float, skip_digits signed))
        else (type, lexer))
    else (type, lexer)

unfoldable pub lexer_number : Lexer → Token × Lexer
lexer_number lexer =
    let start = lexer.position in
    let (kind, whole) = fraction (skip_digits lexer) in
    let (type, end) = exponent kind whole in
    (make_token end type start (end.position - start) end.line, end)

unfoldable pub is_escape_char : ℕ → Bool
is_escape_char c =
    c == b'n' || c == b't' || c == b'r' || c == b'0' || c == b'\\' || c == b'"' || c == b'\''

-- At the backslash. The newline test stands behind the test for an escape character.
unfoldable pub consume_escape : Lexer → Bool × Lexer
consume_escape lexer =
    let escaped = advance lexer in
    let e = current_char escaped in
    if e == 0 || not (is_escape_char e)
    then (false, escaped)
    else (true, advance (count_line escaped))

-- `if (current_char(lexer) != '\0') advance(lexer);`
unfoldable pub skip_bad : Lexer → Lexer
unfolding advance current_char
skip_bad lexer = if not (current_char lexer == 0) then advance lexer else lexer

-- What one round of the loop in `lexer_string` does: leave the loop, go on, or return an error.
pub data Round : Type 0 where
  leave : Round
  again : Lexer → Round
  refuse : Token → Lexer → Round

unfoldable pub string_escape : ℕ → Lexer → Round
string_escape start_line lexer =
    let (good, after) = consume_escape lexer in
    let bad = skip_bad after in
    let esc_start = lexer.position in
    if good
    then again after
    else refuse (make_error_token bad esc_start (bad.position - esc_start) start_line diag_k104) bad

unfoldable pub string_round : ℕ → Lexer → Round
string_round start_line lexer =
    if not (not (current_char lexer == b'"') && not (current_char lexer == 0))
    then leave
    else if current_char lexer == b'\\'
    then string_escape start_line (count_line lexer)
    else again (advance (count_line lexer))

-- The token is that of an early return.
unfoldable pub string_body : ℕ → ℕ → Lexer → Option Token × Lexer
string_body zero start_line lexer = (none, lexer)
string_body (suc fuel) start_line lexer = elim (string_round start_line lexer) [
  | leave ↦ (none, lexer)
  | again next ↦ string_body fuel start_line next
  | refuse token next ↦ (some token, next)
]

-- Behind the loop: the closing quote, or the end of the source.
unfoldable pub string_end : ℕ → ℕ → Lexer → Token × Lexer
string_end start start_line lexer =
    let end = advance lexer in
    if not (current_char lexer == b'"')
    then (make_error_token lexer start (lexer.position - start) start_line diag_k102, lexer)
    else (make_token end token_string_literal start (end.position - start) start_line, end)

abbrev pub string_result : ℕ → ℕ → Option Token × Lexer → Token × Lexer
string_result start start_line (some token, lexer) = (token, lexer)
string_result start start_line (none, lexer) = string_end start start_line lexer

unfoldable pub lexer_string : Lexer → Token × Lexer
lexer_string lexer =
    let opened = advance lexer in
    string_result lexer.position lexer.line (string_body (suc (remaining opened)) lexer.line opened)

-- The token K103 of the bytes from `start` to the cursor.
abbrev pub bad_char : ℕ → ℕ → Lexer → Token × Lexer
bad_char start start_line lexer =
    (make_error_token lexer start (lexer.position - start) start_line diag_k103, lexer)

unfoldable pub char_end : ℕ → ℕ → Lexer → Token × Lexer
char_end start start_line lexer =
    let end = advance lexer in
    if not (current_char lexer == b'\'')
    then bad_char start start_line lexer
    else (make_token end token_char_literal start (end.position - start) start_line, end)

unfoldable pub lexer_char : Lexer → Token × Lexer
lexer_char lexer =
    let start = lexer.position in
    let opened = advance lexer in
    let c = current_char opened in
    let (good, escaped) = consume_escape opened in
    if c == b'\\'
    then (if not good
        then bad_char start lexer.line (skip_bad escaped)
        else char_end start lexer.line escaped)
    else if not (c == 0) && not (c == b'\n')
    then char_end start lexer.line (advance opened)
    else char_end start lexer.line opened
