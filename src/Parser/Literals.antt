-- ===== src/Parser/Literals.antt =====
-- src/parser/parser.c: the values of literals. `strtoll` reads decimal digits and stops at the largest
-- `int64_t`; what `strtod` is given is kept as text.
use kratos_lang.Prelude.{
  ℕ, ◌+◌, ◌-◌, ◌*◌, Bytes, [], ◌∷◌, Option, none, some, ◌==◌, ltb, if◌then◌else◌,
}
use kratos_lang.Prelude.Int.{ℤ, pos}
use kratos_lang.Lexer.Decode.{token_decode_string, token_decode_char}
use kratos_lang.Lexer.Scan.{is_digit}

-- `token_to_number_string`, on the text of the token.
unfoldable pub token_to_number_string : Bytes → Bytes
token_to_number_string [] = []
token_to_number_string (c ∷ text) =
    let rest = token_to_number_string text in if c == b'_' then rest else c ∷ rest

abbrev pub int64_max : ℕ
int64_max = 9223372036854775807

-- The digits in front, behind those that make `value`.
unfoldable pub decimal : ℕ → Bytes → ℕ
unfolding is_digit
decimal value [] = value
decimal value (c ∷ text) =
    let more = decimal (value * 10 + (c - b'0')) text in if is_digit c then more else value

-- `strtoll(text, NULL, 10)` of a text without blanks and sign.
unfoldable pub strtoll : Bytes → ℤ
unfolding decimal
strtoll text = let value = decimal 0 text in pos (if ltb int64_max value then int64_max else value)

-- What a C string keeps: the bytes in front of the first zero.
unfoldable pub c_string : Bytes → Bytes
c_string [] = []
c_string (c ∷ text) = let rest = c_string text in if c == 0 then [] else c ∷ rest

-- `token_to_string_value`, as the constructors of the tree copy it.
unfoldable pub token_to_string_value : Bytes → Bytes
unfolding c_string token_decode_string
token_to_string_value text = c_string (token_decode_string text)

abbrev pub or_zero : Option ℕ → ℕ
or_zero none = 0
or_zero (some c) = c

unfoldable pub token_to_char_value : Bytes → ℕ
unfolding token_decode_char
token_to_char_value text = or_zero (token_decode_char text)
