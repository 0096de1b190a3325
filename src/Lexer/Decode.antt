-- ===== src/Lexer/Decode.antt =====
-- `decode_escape_char`, `token_decode_string` and `token_decode_char` of src/lexer/lexer.c. They take
-- the text of the token. The buffer of `token_decode_string` is the list of its bytes up to `out`.
use kratos_lang.Prelude.{
  ℕ, not, Bytes, [], ◌∷◌, Option, none, some, length, get_or, slice, ◌-◌, ◌==◌, ltb, ◌||◌,
  if◌then◌else◌,
}
use kratos_lang.Lexer.Token.{Token}

-- The bytes that a token points at.
abbrev pub token_text : Bytes → Token → Bytes
token_text source token = slice token.start token.length source

unfoldable pub decode_escape_char : ℕ → ℕ
decode_escape_char c =
    if c == b'n'
    then b'\n'
    else if c == b't'
    then b'\t'
    else if c == b'r'
    then b'\r'
    else if c == b'0'
    then 0
    else if c == b'\\'
    then b'\\'
    else if c == b'"'
    then b'"'
    else if c == b'\''
    then b'\''
    else c

-- The loop over the bytes between the quotes.
unfoldable pub decode_inner : Bytes → Bytes
decode_inner [] = []
decode_inner (c ∷ []) = c ∷ []
decode_inner (c ∷ d ∷ rest) =
    let escaped = decode_escape_char d ∷ decode_inner rest in
    let plain = c ∷ decode_inner (d ∷ rest) in if c == b'\\' then escaped else plain

unfoldable pub token_decode_string : Bytes → Bytes
token_decode_string text =
    if ltb (length text) 2 then [] else decode_inner (slice 1 (length text - 2) text)

-- `none` where the function returns 0.
unfoldable pub token_decode_char : Bytes → Option ℕ
token_decode_char text =
    if ltb (length text) 3 || not (get_or text 0 0 == b'\'')
    then none
    else if get_or text 1 0 == b'\\'
    then (if ltb (length text) 4 then none else some (decode_escape_char (get_or text 2 0)))
    else some (get_or text 1 0)
