-- ===== src/Lexer/Lines.antt =====
-- The line counter of src/lexer/lexer.c counts the newlines consumed, provided that no newline stands
-- directly behind a backslash: `consume_escape` refuses that pair before it counts the line.
use kratos_lang.Prelude.{
  ℕ, zero, suc, ◌+◌, ◌≡◌, refl, ◌≢◌, true, Bytes, [], ◌∷◌, get_or, ◌==◌, if◌then◌else◌, while_inv,
  arith,
}
use native.Mathlib.Numerals.{add-one}
use kratos_lang.Lexer.Token.{Lexer, Token, TokenType}
use kratos_lang.Lexer.Cursor.{
  current_char, advance, match_char, count_line, in_comment, comment_body, skip_comment, at_space,
  skip_one, skip_whitespace,
}
use kratos_lang.Lexer.Scan.{at_digit, skip_digits, fraction, exponent}

-- The newlines among the first `n` bytes.
abbrev pub newlines : Bytes → ℕ → ℕ
newlines s zero = 0
newlines [] (suc n) = 0
newlines (c ∷ s) (suc n) = (if c == b'\n' then 1 else 0) + newlines s n

newlines-suc :
    (s : Bytes) (n : ℕ)
    → newlines s (suc n) ≡ newlines s n + (if get_or s n 0 == b'\n' then 1 else 0)
newlines-suc [] zero = refl
newlines-suc [] (suc n) = refl
newlines-suc (c ∷ s) zero = omega arith
newlines-suc (c ∷ s) (suc n) = omega (arith, newlines-suc s n)

pub newlines_next :
    (s : Bytes) (n : ℕ)
    → newlines s (n + 1) ≡ newlines s n + (if get_or s n 0 == b'\n' then 1 else 0)
newlines_next s n = rw add-one (newlines-suc s n)

-- No newline stands directly behind a backslash.
abbrev pub IsClean : Bytes → Type 0
IsClean s = (i : ℕ) → get_or s i 0 ≡ b'\\' → get_or s (i + 1) 0 ≢ b'\n'

-- The line counter of a scanner over `s` is one more than the newlines behind the cursor.
pub record Counted (s : Bytes) (l : Lexer) : Type 0 where
  pub source_is : l.source ≡ s
  pub line_is : l.line ≡ newlines s l.position + 1

pub current_char_is : (s : Bytes) (l : Lexer) → Counted s l → current_char l ≡ get_or s l.position 0
unfolding current_char
current_char_is s l c = rw c.source_is

-- Any byte but a newline is consumed without counting.
pub advance-Counted :
    (s : Bytes) (l : Lexer) → current_char l ≢ b'\n' → Counted s l → Counted s (advance l)
unfolding advance
advance-Counted s l h c = ground (arith, newlines_next s l.position, current_char_is s l c)

-- `if (c == '\n') line++; advance`.
pub advance-count_line : (s : Bytes) (l : Lexer) → Counted s l → Counted s (advance (count_line l))
unfolding count_line advance current_char
advance-count_line s l c = ground (arith, newlines_next s l.position, current_char_is s l c)

pub match_char-Counted :
    (s : Bytes) (c : ℕ) (l : Lexer) → c ≢ b'\n' → Counted s l → Counted s (match_char c l).1
unfolding match_char
match_char-Counted s c l h k = ground (arith, advance-Counted s l)

comment_body-Counted : (s : Bytes) (l : Lexer) → Counted s l → Counted s (comment_body l)
unfolding comment_body
comment_body-Counted s l c =
    while_inv (Counted s) in_comment _ (λ a e k. advance-count_line s a k) _ l c

skip_comment-Counted :
    (s : Bytes) (l : Lexer) → current_char l ≡ b'$' → Counted s l → Counted s (skip_comment l)
unfolding skip_comment
skip_comment-Counted s l e c =
    let opened = advance-Counted s l (rw e (omega arith)) c in
    let body = comment_body-Counted s (advance l) opened in
    ground (arith, body, advance-Counted s (comment_body (advance l)))

skip_one-Counted :
    (s : Bytes) (l : Lexer) → at_space l ≡ true → Counted s l → Counted s (skip_one l)
unfolding at_space skip_one count_line
skip_one-Counted s l e c =
    ground (arith, advance-Counted s l, advance-count_line s l c, skip_comment-Counted s l)

pub skip_whitespace-Counted : (s : Bytes) (l : Lexer) → Counted s l → Counted s (skip_whitespace l)
unfolding skip_whitespace
skip_whitespace-Counted s l c = while_inv (Counted s) at_space skip_one (skip_one-Counted s) _ l c

digit_not_newline : (a : Lexer) → at_digit a ≡ true → current_char a ≢ b'\n'
unfolding at_digit
digit_not_newline a e = ground arith

pub skip_digits-Counted : (s : Bytes) (l : Lexer) → Counted s l → Counted s (skip_digits l)
unfolding skip_digits
skip_digits-Counted s l c = while_inv (Counted s) at_digit advance step _ l c
  where
    step : (a : Lexer) → at_digit a ≡ true → Counted s a → Counted s (advance a)
    step a e k = advance-Counted s a (digit_not_newline a e) k

pub fraction-Counted : (s : Bytes) (l : Lexer) → Counted s l → Counted s (fraction l).1
unfolding fraction
fraction-Counted s l c = ground (arith, advance-Counted s l, skip_digits-Counted s (advance l))

pub exponent-Counted :
    (s : Bytes) (type : TokenType) (l : Lexer) → Counted s l → Counted s (exponent type l).1
unfolding exponent
exponent-Counted s type l c =
    let marked = advance l in
    ground (
      arith,
      advance-Counted s l,
      advance-Counted s marked,
      skip_digits-Counted s marked,
      skip_digits-Counted s (advance marked),
    )

-- A token that starts at `start` and is reported on that byte's line.
abbrev pub OnLine : Bytes → Token → Type 0
OnLine s token = token.line ≡ newlines s token.start + 1
