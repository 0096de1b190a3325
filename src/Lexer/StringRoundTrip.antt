-- ===== src/Lexer/StringRoundTrip.antt =====
-- String literals of src/lexer/lexer.c: what is written with escapes is scanned as one token, and
-- `token_decode_string` gives back the bytes.
use kratos_lang.Prelude.{
  ℕ, suc, ◌-◌, ◌≡◌, refl, ◌∙◌, ap, ◌≢◌, Bytes, [], ◌∷◌, ◌++◌, length, length-append, take, arith,
  ◌==◌, ltb, if◌then◌else◌, take-append, false, true,
}
use kratos_lang.Lexer.Token.{Lexer}
use kratos_lang.Lexer.Cursor.{current_char, advance, count_line}
use kratos_lang.Lexer.Scan.{is_escape_char, consume_escape, again, string_escape, string_round}
use kratos_lang.Lexer.Decode.{decode_escape_char, decode_inner, token_decode_string}
use kratos_lang.Lexer.Sees.{Sees, ahead, current_char-Sees, advance-Sees}

-- How a byte is written in a string literal.
abbrev pub escape_byte : ℕ → Bytes
escape_byte c =
    if c == b'\n'
    then b'\\' ∷ b'n' ∷ []
    else if c == b'\t'
    then b'\\' ∷ b't' ∷ []
    else if c == b'\r'
    then b'\\' ∷ b'r' ∷ []
    else if c == 0
    then b'\\' ∷ b'0' ∷ []
    else if c == b'\\'
    then b'\\' ∷ b'\\' ∷ []
    else if c == b'"'
    then b'\\' ∷ b'"' ∷ []
    else c ∷ []

abbrev pub escape : Bytes → Bytes
escape [] = []
escape (c ∷ v) = escape_byte c ++ escape v

abbrev pub quote : Bytes → Bytes
quote v = b'"' ∷ (escape v ++ (b'"' ∷ []))

decode_inner-escape_byte :
    (c : ℕ) (rest : Bytes) → decode_inner (escape_byte c ++ rest) ≡ c ∷ decode_inner rest
unfolding decode_inner decode_escape_char
decode_inner-escape_byte c [] = ground arith
decode_inner-escape_byte c (d ∷ rest) = ground arith

decode_inner-escape : (v : Bytes) → decode_inner (escape v) ≡ v
decode_inner-escape [] = unfold decode_inner in refl
decode_inner-escape (c ∷ v) =
    decode_inner-escape_byte c (escape v) ∙ ap (◌∷◌ c) (decode_inner-escape v)

take-length : (s : Bytes) (c : ℕ) → take (length s) (s ++ (c ∷ [])) ≡ s
take-length s c = take-append s (c ∷ [])

-- Decoding a quoted string gives its bytes.
pub token_decode_string-quote : (v : Bytes) → token_decode_string (quote v) ≡ v
unfolding token_decode_string
token_decode_string-quote v =
    let n : suc (length (escape v ++ (b'"' ∷ []))) - 2 ≡ length (escape v) =
      omega (arith, length-append (escape v) (b'"' ∷ [])) in
    let t : ltb (suc (length (escape v ++ (b'"' ∷ [])))) 2 ≡ false =
      ground (arith, length-append (escape v) (b'"' ∷ [])) in
    rw (t, n, take-length (escape v) b'"') (decode_inner-escape v)

count_line_none : (l : Lexer) → current_char l ≢ b'\n' → count_line l ≡ l
unfolding count_line
count_line_none l h = ground arith

string_round_plain :
    (line c : ℕ) (l : Lexer) (rest : Bytes)
    → c ≢ 0
    → c ≢ b'\n'
    → c ≢ b'\\'
    → c ≢ b'"'
    → Sees l (c ∷ rest)
    → (string_round line l ≡ again (ahead 1 l)) × Sees (ahead 1 l) rest
unfolding string_round
string_round_plain line c l rest z n b q e =
    let cur = current_char-Sees l c rest e in
    let next = advance-Sees l c rest z e in ground (arith, cur, next.0, next.1, count_line_none l)

two_ahead :
    (l : Lexer)
    → advance l ≡ ahead 1 l
    → advance (advance l) ≡ ahead 1 (advance l)
    → advance (advance l) ≡ ahead 2 l
two_ahead l p q = ground arith

consume_escape_lem :
    (c : ℕ) (l : Lexer) (rest : Bytes)
    → is_escape_char c ≡ true
    → Sees l (b'\\' ∷ c ∷ rest)
    → (consume_escape l ≡ (true, ahead 2 l)) × Sees (ahead 2 l) rest
unfolding consume_escape is_escape_char
consume_escape_lem c l rest k e =
    let first = advance-Sees l b'\\' (c ∷ rest) (omega arith) e in
    let cur = current_char-Sees (advance l) c rest first.0 in
    let second = advance-Sees (advance l) c rest (ground arith) first.0 in
    let two = two_ahead l first.1 second.1 in
    let same = count_line_none (advance l) (ground arith) in
    (ground (arith, cur, same, two), rw two at second.0)

string_round_escape :
    (line c : ℕ) (l : Lexer) (rest : Bytes)
    → is_escape_char c ≡ true
    → Sees l (b'\\' ∷ c ∷ rest)
    → (string_round line l ≡ again (ahead 2 l)) × Sees (ahead 2 l) rest
unfolding string_round string_escape
string_round_escape line c l rest k e =
    let cur = current_char-Sees l b'\\' (c ∷ rest) e in
    let same = count_line_none l (rw cur (omega arith)) in
    let r = consume_escape_lem c l rest k e in (rw (cur, same, r.0) refl, r.1)

-- The loop reads one written byte in one round.
pub string_round-escape_byte :
    (line c : ℕ) (l : Lexer) (rest : Bytes)
    → Sees l (escape_byte c ++ rest)
    → (string_round line l ≡ again (ahead (length (escape_byte c)) l))
      × Sees (ahead (length (escape_byte c)) l) rest
unfolding is_escape_char
string_round-escape_byte line c l rest e = ground (
  arith,
  string_round_plain line c l rest,
  string_round_escape line b'n' l rest refl,
  string_round_escape line b't' l rest refl,
  string_round_escape line b'r' l rest refl,
  string_round_escape line b'0' l rest refl,
  string_round_escape line b'\\' l rest refl,
  string_round_escape line b'"' l rest refl,
)
