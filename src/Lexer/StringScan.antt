-- ===== src/Lexer/StringScan.antt =====
-- The scanner reads a written string literal as one token that decodes to its bytes.
use kratos_lang.Prelude.{
  ℕ, zero, suc, ◌≤◌, ◌<◌, ◌≡◌, refl, ◌∙◌, ap, Bytes, [], ◌∷◌, ◌++◌, append_assoc, length,
  length-append, length-drop, arith, take-append, none, false,
}
use kratos_lang.Lexer.Token.{Lexer, token_string_literal}
use kratos_lang.Lexer.Cursor.{advance, make_token, remaining, at_space}
use kratos_lang.Lexer.Moves.{skip_whitespace_none}
use kratos_lang.Lexer.Scan.{
  leave, string_round, string_body, string_end, lexer_string, is_digit, is_alpha,
}
use kratos_lang.Lexer.Next.{lexer_token, lexer_next_token}
use kratos_lang.Lexer.Decode.{token_text, token_decode_string}
use kratos_lang.Lexer.Sees.{
  Sees, ahead, ahead-ahead, ahead_zero, Sees-eq, current_char-Sees, advance-Sees,
}
use kratos_lang.Lexer.StringRoundTrip.{
  escape_byte, escape, quote, string_round-escape_byte, token_decode_string-quote,
}

string_round_quote :
    (line : ℕ) (l : Lexer) (rest : Bytes) → Sees l (b'"' ∷ rest) → string_round line l ≡ leave
unfolding string_round
string_round_quote line l rest e = ground (arith, current_char-Sees l b'"' rest e)

string_body-escape :
    (v rest : Bytes) (fuel line : ℕ) (l : Lexer)
    → length v < fuel
    → Sees l (escape v ++ (b'"' ∷ rest))
    → (string_body fuel line l ≡ (none, ahead (length (escape v)) l))
      × Sees (ahead (length (escape v)) l) (b'"' ∷ rest)
unfolding string_body
string_body-escape v rest zero line l h e = absurd (omega arith)
string_body-escape [] rest (suc fuel) line l h e = (
  rw (string_round_quote line l rest e, string_body) (ap (λ a. (none, a)) (ahead_zero l)),
  Sees-eq (b'"' ∷ rest) (ahead_zero l) e,
)
string_body-escape (c ∷ v) rest (suc fuel) line l h e =
    let k = length (escape_byte c) in
    let round =
      string_round-escape_byte line c l (escape v ++ (b'"' ∷ rest)) (rw (← append_assoc) e) in
    let tail = string_body-escape v rest fuel line (ahead k l) (omega arith) round.1 in
    let sum =
      ahead-ahead k (length (escape v)) (length (escape_byte c ++ escape v)) l
        (length-append (escape_byte c) (escape v)) in
    (rw (round.0, string_body) (tail.0 ∙ ap (λ a. (none, a)) sum), Sees-eq (b'"' ∷ rest) sum tail.1)

length-le-escape : (v : Bytes) → length v ≤ length (escape v)
length-le-escape [] = omega arith
length-le-escape (c ∷ v) =
    ground (arith, length-le-escape v, length-append (escape_byte c) (escape v))

-- The literal of `v` is one token, and the cursor stands right behind it.
lexer_string-quote :
    (v rest : Bytes) (l : Lexer)
    → Sees l (b'"' ∷ (escape v ++ (b'"' ∷ rest)))
    → ((lexer_string l).0.type ≡ token_string_literal)
      × ((lexer_string l).0.start ≡ l.position)
      × ((lexer_string l).0.length ≡ length (quote v))
      × Sees (lexer_string l).1 rest
unfolding lexer_string string_end make_token
lexer_string-quote v rest l e =
    let opened = advance-Sees l b'"' (escape v ++ (b'"' ∷ rest)) (omega arith) e in
    let left = length-drop (advance l).position (advance l).source in
    let enough : length v < suc (remaining (advance l)) =
      unfold remaining in
      omega (
        arith,
        left,
        ap length opened.0,
        length-append (escape v) (b'"' ∷ rest),
        length-le-escape v,
      ) in
    let body =
      string_body-escape v rest (suc (remaining (advance l))) l.line (advance l) enough opened.0 in
    let end = ahead (length (escape v)) (advance l) in
    let closing = advance-Sees end b'"' rest (omega arith) body.1 in
    let cur = current_char-Sees end b'"' rest body.1 in
    let len = length-append (escape v) (b'"' ∷ []) in
    rw body.0 (ground (arith, opened.1, closing, cur, len))

lexer_next_token-quote :
    (c : ℕ) (r : Bytes) (l : Lexer)
    → c ≡ b'"'
    → l.unterminated_comment ≡ false
    → Sees l (c ∷ r)
    → lexer_next_token l ≡ lexer_string l
unfolding lexer_next_token lexer_token is_alpha is_digit
lexer_next_token-quote c r l q u e =
    let cur = current_char-Sees l c r e in
    let here = skip_whitespace_none l (unfold at_space in ground (arith, cur)) in
    rw here (ground (arith, cur))

-- A string literal written with escapes in front of a scanner with no open comment is scanned as one
-- token: its text decodes to the bytes that were written, and the cursor stands right behind it.
pub string_literal_round_trip :
    (v rest : Bytes) (l : Lexer)
    → l.unterminated_comment ≡ false
    → Sees l (quote v ++ rest)
    → ((lexer_next_token l).0.type ≡ token_string_literal)
      × (token_decode_string (token_text l.source (lexer_next_token l).0) ≡ v)
      × Sees (lexer_next_token l).1 rest
string_literal_round_trip v rest l u e =
    let sees : Sees l (b'"' ∷ (escape v ++ (b'"' ∷ rest))) =
      e ∙ ap (◌∷◌ b'"') (append_assoc (escape v) (b'"' ∷ []) rest) in
    let r = lexer_string-quote v rest l sees in
    let text : token_text l.source (lexer_string l).0 ≡ quote v =
      rw (r.1, r.2, e) (take-append (quote v) rest) in
    rw (lexer_next_token-quote b'"' _ l refl u sees)
      (r.0, ap token_decode_string text ∙ token_decode_string-quote v, r.3)
