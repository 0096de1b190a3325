-- ===== src/Lexer/TokenLines.antt =====
-- Line numbers of what `lexer_next_token` of src/lexer/lexer.c returns, one call and a whole source.
use kratos_lang.Prelude.{ℕ, zero, suc, ◌≡◌, ◌≢◌, inl, inr, false, Bytes, [], ◌∷◌, arith, some, List}
use kratos_lang.Lexer.Token.{Lexer, Token, diag_k104}
use kratos_lang.Lexer.Cursor.{current_char, at_space, skip_whitespace, make_token, make_error_token}
use kratos_lang.Lexer.Next.{lexer_init, lexer_token, lexer_next_token, read_tokens, dump_tokens}
use kratos_lang.Lexer.Lines.{IsClean, Counted, OnLine, skip_whitespace-Counted}
use kratos_lang.Lexer.Reading.{read_tokens-cases}
use kratos_lang.Lexer.Moves.{skip_whitespace-exit}
use kratos_lang.Lexer.LineNumbers.{
  Reported, lexer_identifier-Reported, lexer_number-Reported, lexer_operator-Reported,
}
use kratos_lang.Lexer.StringLines.{lexer_string-Reported, lexer_char-Reported}

space_not_newline : (l : Lexer) → at_space l ≡ false → current_char l ≢ b'\n'
unfolding at_space
space_not_newline l e = ground arith

lexer_token-Reported :
    (s : Bytes) (l : Lexer)
    → IsClean s
    → current_char l ≢ b'\n'
    → Counted s l
    → Reported s (lexer_token l)
unfolding lexer_token make_token
lexer_token-Reported s l clean h c = ground (
  arith,
  lexer_identifier-Reported s l c,
  lexer_number-Reported s l c,
  lexer_string-Reported s clean l h c,
  lexer_char-Reported s clean l h c,
  lexer_operator-Reported s l h c,
)

-- One call: in a source with no newline behind a backslash, the line counter stays one more than the
-- newlines consumed, and the token bears the line of its first byte, unless it is K104.
pub lexer_next_token-Reported :
    (s : Bytes) (l : Lexer) → IsClean s → Counted s l → Reported s (lexer_next_token l)
unfolding lexer_next_token make_token make_error_token
lexer_next_token-Reported s l clean c =
    let next = skip_whitespace l in
    let blank = skip_whitespace-Counted s l c in
    let token =
      lexer_token-Reported s next clean (space_not_newline next (skip_whitespace-exit l)) blank in
    ground (arith, blank, token)

-- Each token of a list bears the line of its first byte, unless it is K104.
abbrev pub OnLines : Bytes → List Token → Type 0
OnLines s [] = Unit
OnLines s (token ∷ tokens) = (token.error_code ≢ diag_k104 → OnLine s token) × OnLines s tokens

read_tokens-OnLines :
    (s : Bytes) (fuel : ℕ) (l : Lexer) (ts : List Token)
    → IsClean s
    → Counted s l
    → read_tokens fuel l ≡ some ts
    → OnLines s ts
unfolding read_tokens
read_tokens-OnLines s zero l ts clean c e = cc
read_tokens-OnLines s (suc fuel) l ts clean c e =
    let r = lexer_next_token-Reported s l clean c in
    elim (read_tokens-cases fuel l ts e) [
      | inl (last, only) ↦ rw only (r.on_line, tt)
      | inr (rest, more, read, cons) ↦
          rw cons (r.on_line, read_tokens-OnLines s fuel _ rest clean r.counted read)
    ]

-- In a source with no newline directly behind a backslash, each token that `dump_tokens` reads bears
-- the line of its first byte, but for those that report K104.
pub dump_tokens-OnLines :
    (source : Bytes) (ts : List Token)
    → IsClean source
    → dump_tokens source ≡ some ts
    → OnLines source ts
unfolding dump_tokens lexer_init
dump_tokens-OnLines source ts clean e =
    read_tokens-OnLines source _ (lexer_init source) ts clean (ground arith) e
