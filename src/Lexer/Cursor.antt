-- ===== src/Lexer/Cursor.antt =====
-- The scanner's cursor in src/lexer/lexer.c: reading and consuming a byte, columns, and the blanks
-- and comments between tokens. A loop runs on fuel, one unit more than the bytes that are left.
use kratos_lang.Prelude.{
  ℕ, zero, suc, ◌+◌, ◌-◌, Bool, true, false, not, ◌&&◌, ◌||◌, Bytes, [], ◌∷◌, length, get_or, ◌==◌,
  if◌then◌else◌, while,
}
use kratos_lang.Lexer.Token.{TokenType, token_error, Token, Lexer}

-- The loop of `column_at` over the first `index` bytes; a byte past the end reads as 0.
unfoldable pub column_from : ℕ → ℕ → Bytes → ℕ
column_from column zero s = column
column_from column (suc index) [] = column_from (column + 1) index []
column_from column (suc index) (c ∷ s) = column_from (if c == b'\n' then 1 else column + 1) index s

unfoldable pub column_at : Lexer → ℕ → ℕ
unfolding column_from
column_at lexer index = column_from 1 index lexer.source

unfoldable pub make_token : Lexer → TokenType → ℕ → ℕ → ℕ → Token
make_token lexer type start len line = record {
  type = type;
  start = start;
  length = len;
  line = line;
  column = column_at lexer start;
  error_code = 0;
}

unfoldable pub make_error_token : Lexer → ℕ → ℕ → ℕ → ℕ → Token
unfolding make_token
make_error_token lexer start len line error_code =
    record (make_token lexer token_error start len line) { error_code = error_code }

-- `source[position + ahead]`; the terminating zero stands at the end.
unfoldable pub char_ahead : ℕ → Lexer → ℕ
char_ahead ahead lexer = get_or lexer.source (lexer.position + ahead) 0

unfoldable pub current_char : Lexer → ℕ
current_char lexer = get_or lexer.source lexer.position 0

unfoldable pub advance : Lexer → Lexer
unfolding current_char
advance lexer =
    if not (current_char lexer == 0) then record lexer { position = lexer.position + 1 } else lexer

unfoldable pub match_char : ℕ → Lexer → Bool × Lexer
match_char expected lexer =
    if not (current_char lexer == expected) then (false, lexer) else (true, advance lexer)

-- The bytes that are not yet consumed.
unfoldable pub remaining : Lexer → ℕ
remaining lexer = length lexer.source - lexer.position

-- `if (current_char(lexer) == '\n') lexer->line++;`
unfoldable pub count_line : Lexer → Lexer
unfolding current_char
count_line lexer =
    if current_char lexer == b'\n' then record lexer { line = lexer.line + 1 } else lexer

unfoldable pub in_comment : Lexer → Bool
unfolding current_char
in_comment lexer = not (current_char lexer == b'$') && not (current_char lexer == 0)

unfoldable pub comment_body : Lexer → Lexer
comment_body lexer = while (suc (remaining lexer)) in_comment (λ l. advance (count_line l)) lexer

unfoldable pub skip_comment : Lexer → Lexer
skip_comment lexer =
    let closing = comment_body (advance lexer) in
    if current_char closing == b'$'
    then advance closing
    else record closing { unterminated_comment = true }

abbrev pub is_blank : ℕ → Bool
is_blank c = c == b' ' || c == b'\t' || c == b'\r'

unfoldable pub at_space : Lexer → Bool
unfolding current_char
at_space lexer = let c = current_char lexer in is_blank c || c == b'\n' || c == b'$'

-- One round of `skip_whitespace`, at a byte that `at_space` accepts.
unfoldable pub skip_one : Lexer → Lexer
skip_one lexer =
    let c = current_char lexer in
    if is_blank c
    then advance lexer
    else if c == b'\n'
    then advance (record lexer { line = lexer.line + 1 })
    else skip_comment lexer

unfoldable pub skip_whitespace : Lexer → Lexer
skip_whitespace lexer = while (suc (remaining lexer)) at_space skip_one lexer
