-- ===== src/Lexer/LineNumbers.antt =====
-- The line number of each token of src/lexer/lexer.c is that of its first byte.
use kratos_lang.Prelude.{
  ℕ, suc, ◌≡◌, refl, ◌∙◌, ◌≢◌, true, Bytes, while_inv, arith, Option, none, some,
}
use kratos_lang.Lexer.Token.{Lexer, Token, TokenType, diag_k104}
use kratos_lang.Lexer.Cursor.{
  current_char, advance, match_char, remaining, make_token, make_error_token,
}
use kratos_lang.Lexer.Scan.{
  is_digit, is_alpha, is_alnum, at_digit, skip_digits, fraction, exponent, lexer_number,
}
use kratos_lang.Lexer.Next.{
  at_name, lexer_identifier, operator_type, operator_token, lexer_operator,
}
use kratos_lang.Lexer.Lines.{
  Counted, OnLine, advance-Counted, skip_digits-Counted, fraction-Counted, exponent-Counted,
}

-- What a scanning function returns: the counter is right behind the token, and the token's line is
-- right, unless it is K104, which stands inside a string and bears the line of the opening quote.
pub record Reported (s : Bytes) (r : Token × Lexer) : Type 0 where
  pub counted : Counted s r.1
  pub on_line : r.0.error_code ≢ diag_k104 → OnLine s r.0

pub advance_line : (l : Lexer) → (advance l).line ≡ l.line
unfolding advance
advance_line l = ground arith

skip_digits_line : (l : Lexer) → (skip_digits l).line ≡ l.line
unfolding skip_digits
skip_digits_line l =
    while_inv (λ a. a.line ≡ l.line) at_digit advance (λ a e k. advance_line a ∙ k) _ l refl

fraction_line : (l : Lexer) → (fraction l).1.line ≡ l.line
unfolding fraction
fraction_line l = ground (arith, skip_digits_line (advance l), advance_line l)

exponent_line : (type : TokenType) (l : Lexer) → (exponent type l).1.line ≡ l.line
unfolding exponent
exponent_line type l =
    let marked = advance l in
    ground (
      arith,
      advance_line l,
      advance_line marked,
      skip_digits_line marked,
      skip_digits_line (advance marked),
    )

pub lexer_number-Reported : (s : Bytes) (l : Lexer) → Counted s l → Reported s (lexer_number l)
unfolding lexer_number make_token
lexer_number-Reported s l c =
    let whole = skip_digits l in
    let tail = fraction whole in
    let counted =
      exponent-Counted s tail.0 tail.1 (fraction-Counted s whole (skip_digits-Counted s l c)) in
    ground (arith, counted, exponent_line tail.0 tail.1, fraction_line whole, skip_digits_line l)

name_not_newline : (a : Lexer) → at_name a ≡ true → current_char a ≢ b'\n'
unfolding at_name is_alnum is_digit is_alpha
name_not_newline a e = ground arith

pub lexer_identifier-Reported :
    (s : Bytes) (l : Lexer) → Counted s l → Reported s (lexer_identifier l)
unfolding lexer_identifier make_token
lexer_identifier-Reported s l c =
    let line =
      while_inv (λ (a : Lexer). a.line ≡ l.line) at_name advance (λ a e k. advance_line a ∙ k)
        (suc (remaining l)) l refl in
    let counted =
      while_inv (Counted s) at_name advance (λ a e k. advance-Counted s a (name_not_newline a e) k)
        (suc (remaining l)) l c in
    ground (arith, counted, line)

operator_type-Counted :
    (s : Bytes) (c : ℕ) (l : Lexer)
    → Counted s l
    → Counted s (operator_type c l).1 × ((operator_type c l).1.line ≡ l.line)
unfolding operator_type match_char
operator_type-Counted s c l k = ground (arith, advance-Counted s l, advance_line l)

operator_token-Reported :
    (s : Bytes) (a : Lexer) (r : Option TokenType × Lexer)
    → Counted s a
    → Counted s r.1 × (r.1.line ≡ a.line)
    → Reported s (operator_token a.position r)
unfolding make_token make_error_token
operator_token-Reported s a (some type, l) c h = ground arith
operator_token-Reported s a (none, l) c h = ground arith

pub lexer_operator-Reported :
    (s : Bytes) (l : Lexer) → current_char l ≢ b'\n' → Counted s l → Reported s (lexer_operator l)
unfolding lexer_operator
lexer_operator-Reported s l h c =
    let first = advance-Counted s l h c in
    let typed = operator_type-Counted s (current_char l) (advance l) first in
    operator_token-Reported s l (operator_type (current_char l) (advance l)) c
      (typed.0, typed.1 ∙ advance_line l)
