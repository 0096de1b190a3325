-- ===== src/Lexer/StringLines.antt =====
-- Line numbers of the string and character literals of src/lexer/lexer.c.
use kratos_lang.Prelude.{
  ℕ, zero, suc, ◌≡◌, ◌≢◌, inl, inr, true, false, Bytes, ◌==◌, arith, Bool-cases, ==_iff, Option,
  none, some,
}
use kratos_lang.Lexer.Token.{Lexer, Token}
use kratos_lang.Lexer.Cursor.{current_char, advance, count_line, make_token, make_error_token}
use kratos_lang.Lexer.Scan.{
  consume_escape, skip_bad, Round, leave, again, refuse, string_escape, string_round, string_body,
  string_end, string_result, lexer_string, char_end, lexer_char,
}
use kratos_lang.Lexer.Lines.{IsClean, Counted, advance-Counted, advance-count_line}
use kratos_lang.Lexer.LineNumbers.{Reported}

module _ (s : Bytes) (clean : IsClean s) where
  escaped-Counted :
      (l : Lexer)
      → current_char l ≡ b'\\'
      → Counted s l
      → Counted s (advance l) × (current_char (advance l) ≢ b'\n')
  unfolding advance current_char
  escaped-Counted l e c = ground (arith, clean l.position, c.source_is, advance-Counted s l)

  skip_bad-Counted : (l : Lexer) → current_char l ≢ b'\n' → Counted s l → Counted s (skip_bad l)
  unfolding skip_bad
  skip_bad-Counted l h c = ground (arith, advance-Counted s l h c)

  -- The scanner behind a whole escape, or behind the byte that makes it a bad one.
  consume_escape-Counted :
      (l : Lexer)
      → current_char l ≡ b'\\'
      → Counted s l
      → ((consume_escape l).0 ≡ true → Counted s (consume_escape l).1)
        × ((consume_escape l).0 ≡ false → Counted s (skip_bad (consume_escape l).1))
  unfolding consume_escape
  consume_escape-Counted l e c =
      let escaped = escaped-Counted l e c in
      let whole = advance-count_line s (advance l) escaped.0 in
      ground (arith, escaped, whole, skip_bad-Counted (advance l) escaped.1 escaped.0)

  -- A round of the string's loop.
  abbrev RoundCounts : Round → Type 0
  RoundCounts leave = Unit
  RoundCounts (again next) = Counted s next
  RoundCounts (refuse token next) = Reported s (token, next)

  count_line-current_char : (l : Lexer) → current_char (count_line l) ≡ current_char l
  unfolding count_line current_char
  count_line-current_char l = ground arith

  count_line-Counted : (l : Lexer) → current_char l ≢ b'\n' → Counted s l → Counted s (count_line l)
  unfolding count_line
  count_line-Counted l h c = ground arith

  string_escape-Counts :
      (start_line : ℕ) (l : Lexer)
      → current_char l ≡ b'\\'
      → Counted s l
      → RoundCounts (string_escape start_line l)
  unfolding string_escape make_error_token
  string_escape-Counts start_line l e c =
      let r = consume_escape-Counted l e c in ground (arith, r.0, r.1)

  string_round-Counts :
      (start_line : ℕ) (l : Lexer) → Counted s l → RoundCounts (string_round start_line l)
  unfolding string_round
  string_round-Counts start_line l c =
      let same = count_line-current_char l in
      elim (Bool-cases (current_char l == b'\\')) [
        | inl b ↦
            let counted = count_line-Counted l (ground arith) c in
            ground (arith, string_escape-Counts start_line (count_line l) (ground arith) counted)
        | inr b ↦ ground (arith, advance-count_line s l c)
      ]

  abbrev BodyCounts : Option Token × Lexer → Type 0
  BodyCounts (none, end) = Counted s end
  BodyCounts (some token, end) = Reported s (token, end)

  string_body-Counts :
      (fuel start_line : ℕ) (l : Lexer) → Counted s l → BodyCounts (string_body fuel start_line l)
  unfolding string_body
  string_body-Counts zero start_line l c = c
  string_body-Counts (suc fuel) start_line l c =
      go (string_round start_line l) (string_round-Counts start_line l c)
        (string_body-Counts fuel start_line)
    where
      go :
          (r : Round)
          → RoundCounts r
          → ((next : Lexer) → Counted s next → BodyCounts (string_body fuel start_line next))
          → BodyCounts (elim r [
            | leave ↦ (none, l)
            | again next ↦ string_body fuel start_line next
            | refuse token next ↦ (some token, next)
          ])
      go leave h ih = c
      go (again next) h ih = ih next h
      go (refuse token next) h ih = h

  string_result-Reported :
      (a : Lexer) (r : Option Token × Lexer)
      → Counted s a
      → BodyCounts r
      → Reported s (string_result a.position a.line r)
  unfolding string_end make_token make_error_token
  string_result-Reported a (none, end) c h = ground (arith, advance-Counted s end)
  string_result-Reported a (some token, end) c h = h

  pub lexer_string-Reported :
      (l : Lexer) → current_char l ≢ b'\n' → Counted s l → Reported s (lexer_string l)
  unfolding lexer_string
  lexer_string-Reported l h c =
      string_result-Reported l _ c
        (string_body-Counts _ l.line (advance l) (advance-Counted s l h c))

  char_end-Reported :
      (a l : Lexer) → Counted s a → Counted s l → Reported s (char_end a.position a.line l)
  unfolding char_end make_token make_error_token
  char_end-Reported a l k c = ground (arith, advance-Counted s l)

  pub lexer_char-Reported :
      (l : Lexer) → current_char l ≢ b'\n' → Counted s l → Reported s (lexer_char l)
  unfolding lexer_char make_error_token
  lexer_char-Reported l h c =
      let opened = advance l in
      let first = advance-Counted s l h c in
      elim (Bool-cases (current_char opened == b'\\')) [
        | inl e ↦
            let r = consume_escape-Counted opened ((==_iff _ _).0 e) first in
            ground (arith, r.0, r.1, char_end-Reported l (consume_escape opened).1 c)
        | inr e ↦ ground (
          arith,
          char_end-Reported l opened c first,
          advance-Counted s opened,
          char_end-Reported l (advance opened) c,
        )
      ]
