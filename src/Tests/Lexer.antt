-- ===== src/Tests/Lexer.antt =====
-- Runs of the model of src/lexer on small inputs.
use Prim.Native.String.{String}
use mathlib.Core.Option
use mathlib.Core.List.{map}
use kratos_lang.Prelude.{
  zero, suc, ◌≡◌, refl, false, Bytes, codes, some, none, List, [], ◌∷◌, length, arith,
}
use kratos_lang.Lexer.Token.{
  Token, Lexer, token_k_int, token_identifier, token_integer, token_assign, token_semicolon,
  token_eof, token_float, token_string_literal, token_less_equal, token_error, token_hold,
}
use kratos_lang.Lexer.Next.{lexer_next_token, dump_tokens}
use kratos_lang.Lexer.Scan.{is_alpha, is_digit, is_alnum}
use kratos_lang.Lexer.Keywords.{identifier_type}
use kratos_lang.Lexer.Cursor.{column_at, skip_whitespace}
use kratos_lang.Lexer.Decode.{token_text, token_decode_string}
use kratos_lang.Lexer.Lines.{IsClean, Counted}
use kratos_lang.Lexer.LineNumbers.{Reported}
use kratos_lang.Lexer.Sees.{Sees}
use kratos_lang.Lexer.Columns.{column_at-line}
use kratos_lang.Lexer.KeywordSpelling.{spelling, spelling-identifier_type, identifier_type-spelling}
use kratos_lang.Lexer.Blanks.{Skips, skip_whitespace-Skips}
use kratos_lang.Lexer.NameRoundTrip.{name_round_trip}
use kratos_lang.Lexer.Progress.{NextToken, lexer_next_token-NextToken, dump_tokens_total}
use kratos_lang.Lexer.StringScan.{string_literal_round_trip}
use kratos_lang.Lexer.TokenLines.{OnLines, lexer_next_token-Reported, dump_tokens-OnLines}
use kratos_lang.Lexer.TokenOrder.{InOrder, dump_tokens-InOrder}

dump_tokens_run :
    Option.map
      (map (λ t. t.type))
      (dump_tokens (codes "k_int x_1 = 1_0; $ c $ \n .5e+3 \"a\\n\" <= !"))
    ≡ some (
        token_k_int ∷ token_identifier ∷ token_assign ∷ token_integer ∷ token_semicolon
        ∷ token_float ∷ token_string_literal ∷ token_less_equal ∷ token_error ∷ token_eof ∷ [])
unfolding dump_tokens
dump_tokens_run = refl

-- The scanner at the start of `source`.
abbrev at_start : String → Lexer
at_start source = record {
  source = codes source;
  position = 0;
  line = 1;
  unterminated_comment = false;
}

abbrev open_text : Lexer
open_text = at_start "  $ never closed"

lexer_next_token-NextToken_example : NextToken open_text (lexer_next_token open_text)
lexer_next_token-NextToken_example = lexer_next_token-NextToken open_text

dump_tokens_total_example : (ts : List Token) × (dump_tokens (codes "x = \"a $") ≡ some ts)
dump_tokens_total_example = dump_tokens_total (codes "x = \"a $")

abbrev two_lines : Bytes
two_lines = codes "a\n\"\\n\"?"

abbrev two_lines_tokens : List Token
two_lines_tokens = elim (dump_tokens two_lines) [ some ts ↦ ts | none ↦ [] ]

two_lines_read : dump_tokens two_lines ≡ some two_lines_tokens
unfolding dump_tokens
two_lines_read = refl

dump_tokens-InOrder_example : InOrder (length two_lines) 0 two_lines_tokens
dump_tokens-InOrder_example = dump_tokens-InOrder two_lines two_lines_tokens two_lines_read

two_lines-IsClean : IsClean two_lines
two_lines-IsClean zero h = ground (arith, h)
two_lines-IsClean (suc zero) h = ground (arith, h)
two_lines-IsClean (suc (suc zero)) h = ground (arith, h)
two_lines-IsClean (suc (suc (suc zero))) h = ground (arith, h)
two_lines-IsClean (suc (suc (suc (suc i)))) h = ground (arith, h)

dump_tokens-OnLines_example : OnLines two_lines two_lines_tokens
dump_tokens-OnLines_example =
    dump_tokens-OnLines two_lines two_lines_tokens two_lines-IsClean two_lines_read

abbrev on_second_line : Lexer
on_second_line = record { source = two_lines; position = 1; line = 1; unterminated_comment = false }

on_second_line-Counted : Counted two_lines on_second_line
on_second_line-Counted = record { source_is = refl; line_is = refl }

lexer_next_token-Reported_example : Reported two_lines (lexer_next_token on_second_line)
lexer_next_token-Reported_example =
    lexer_next_token-Reported two_lines on_second_line two_lines-IsClean on_second_line-Counted

column_at-line_example : column_at (at_start "a\nbc") 3 ≡ 2
column_at-line_example =
    column_at-line (at_start "a\nbc") (codes "a") (codes "b") (codes "c") refl refl

spelling-identifier_type_example : spelling (identifier_type (codes "hold")) ≡ codes "hold"
unfolding identifier_type
spelling-identifier_type_example = spelling-identifier_type (codes "hold") (ground arith)

identifier_type-spelling_example : identifier_type (spelling token_hold) ≡ token_hold
identifier_type-spelling_example = identifier_type-spelling token_hold refl

skip_whitespace-Skips_example : Skips open_text (skip_whitespace open_text)
skip_whitespace-Skips_example = skip_whitespace-Skips open_text

string_literal_round_trip_example :
    ((lexer_next_token (at_start "\"a\\n\\\\\";")).0.type ≡ token_string_literal)
    × (token_decode_string
          (token_text (codes "\"a\\n\\\\\";") (lexer_next_token (at_start "\"a\\n\\\\\";")).0)
        ≡ codes "a\n\\")
    × Sees (lexer_next_token (at_start "\"a\\n\\\\\";")).1 (codes ";")
string_literal_round_trip_example =
    string_literal_round_trip (codes "a\n\\") (codes ";") (at_start "\"a\\n\\\\\";") refl refl

name_round_trip_example :
    ((lexer_next_token (at_start "x_1=")).0.type ≡ identifier_type (codes "x_1"))
    × (token_text (codes "x_1=") (lexer_next_token (at_start "x_1=")).0 ≡ codes "x_1")
    × Sees (lexer_next_token (at_start "x_1=")).1 (codes "=")
unfolding is_alpha is_digit is_alnum
name_round_trip_example =
    name_round_trip b'x' (codes "_1") (codes "=") (at_start "x_1=") refl refl refl refl refl
