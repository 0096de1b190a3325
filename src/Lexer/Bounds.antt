-- ===== src/Lexer/Bounds.antt =====
-- The scanning functions of src/lexer/lexer.c consume at least one byte, stay inside the source,
-- and return a token that lies in what they consumed.
use kratos_lang.Prelude.{
  ℕ, zero, suc, ◌+◌, ◌≤◌, ◌<◌, ◌≡◌, refl, ap, ◌⊎◌, inl, inr, true, false, length, ◌==◌, arith,
  Bool-cases, none, some, Option,
}
use kratos_lang.Lexer.Token.{Lexer, Token, TokenType}
use kratos_lang.Lexer.Cursor.{
  current_char, advance, remaining, count_line, make_token, make_error_token,
}
use kratos_lang.Lexer.Scan.{
  is_digit, at_digit, skip_digits, fraction, exponent, lexer_number, consume_escape, skip_bad,
  Round, leave, again, refuse, string_escape, string_round, string_body, string_end, string_result,
  lexer_string, char_end, lexer_char,
}
use kratos_lang.Lexer.Moves.{
  Moves, Moves-refl, Moves-trans, Consumes, current_char-inside, advance-Moves, advance-Consumes,
  count_line-Moves, loop-Moves, loop-Consumes, loop_skipped, Consumes-Moves, Moves-Consumes,
}

-- The token lies in what was consumed.
pub record Reads (a : Lexer) (r : Token × Lexer) : Type 0 where
  pub consumes : Consumes a r.1
  pub starts : a.position ≤ r.0.start
  pub ends : r.0.start + r.0.length ≤ r.1.position

pub at_digit-step :
    (l : Lexer) → at_digit l ≡ true → Consumes l (advance l) × (l.position < length l.source)
unfolding at_digit is_digit
at_digit-step l e = ground (arith, current_char-inside l, advance-Consumes l)

pub skip_digits-Moves : (l : Lexer) → Moves l (skip_digits l)
unfolding skip_digits
skip_digits-Moves l = loop-Moves at_digit advance at_digit-step l

pub skip_digits-Consumes : (l : Lexer) → at_digit l ≡ true → Consumes l (skip_digits l)
unfolding skip_digits
skip_digits-Consumes l e = loop-Consumes at_digit advance at_digit-step l e

pub skip_digits_none : (l : Lexer) → at_digit l ≡ false → skip_digits l ≡ l
unfolding skip_digits
skip_digits_none l e = loop_skipped at_digit advance at_digit-step l e

pub fraction-Moves : (l : Lexer) → Moves l (fraction l).1
unfolding fraction
fraction-Moves l = ground (
  arith,
  Moves-trans l (advance l) (skip_digits (advance l)) (advance-Moves l)
      (skip_digits-Moves (advance l)),
)

pub fraction-Consumes : (l : Lexer) → current_char l ≡ b'.' → Consumes l (fraction l).1
unfolding fraction
fraction-Consumes l e =
    let point = advance-Consumes l (rw e (omega arith)) in
    ground (arith, point, skip_digits-Moves (advance l), ap length point.moves.same_source)

pub exponent-Moves : (type : TokenType) (l : Lexer) → Moves l (exponent type l).1
unfolding exponent
exponent-Moves type l =
    let marked = advance l in
    let mark = advance-Moves l in
    let sign = Moves-trans l marked (advance marked) mark (advance-Moves marked) in
    ground (
      arith,
      Moves-trans l marked (skip_digits marked) mark (skip_digits-Moves marked),
      Moves-trans l (advance marked) (skip_digits (advance marked)) sign
          (skip_digits-Moves (advance marked)),
    )

-- A number starts with a digit, or with a point.
pub lexer_number-Consumes :
    (l : Lexer) → (at_digit l ≡ true) ⊎ (current_char l ≡ b'.') → Consumes l (lexer_number l).1
unfolding lexer_number
lexer_number-Consumes l h =
    let whole = skip_digits l in
    let tail = fraction whole in
    let last = exponent-Moves tail.0 tail.1 in
    elim (Bool-cases (at_digit l)) [
      | inl e ↦
          Consumes-Moves l tail.1 _
            (Consumes-Moves l whole tail.1 (skip_digits-Consumes l e) (fraction-Moves whole)) last
      | inr e ↦
          let point = fraction-Consumes whole (rw (skip_digits_none l e) (ground (arith, h))) in
          Consumes-Moves l tail.1 _ (Moves-Consumes l whole tail.1 (skip_digits-Moves l) point) last
    ]

pub lexer_number-Reads :
    (l : Lexer) → (at_digit l ≡ true) ⊎ (current_char l ≡ b'.') → Reads l (lexer_number l)
unfolding lexer_number make_token
lexer_number-Reads l h = ground (arith, lexer_number-Consumes l h)

pub consume_escape-Moves : (l : Lexer) → Moves l (consume_escape l).1
unfolding consume_escape
consume_escape-Moves l =
    let escaped = advance l in
    let counted = count_line escaped in
    let here = Moves-trans l escaped counted (advance-Moves l) (count_line-Moves escaped) in
    ground
      (arith, advance-Moves l, Moves-trans l counted (advance counted) here (advance-Moves counted))

pub consume_escape-Consumes : (l : Lexer) → current_char l ≡ b'\\' → Consumes l (consume_escape l).1
unfolding consume_escape
consume_escape-Consumes l e =
    let escaped = advance l in
    let first = advance-Consumes l (rw e (omega arith)) in
    let counted = count_line escaped in
    let here = Consumes-Moves l escaped counted first (count_line-Moves escaped) in
    ground (arith, first, Consumes-Moves l counted (advance counted) here (advance-Moves counted))

pub skip_bad-Moves : (l : Lexer) → Moves l (skip_bad l)
unfolding skip_bad
skip_bad-Moves l = ground (arith, advance-Moves l)

-- What a round of the string's loop may do, the string having begun at `start`.
abbrev RoundMoves : Lexer → Round → Type 0
RoundMoves l leave = Unit
RoundMoves l (again next) = Consumes l next × (l.position < length l.source)
RoundMoves l (refuse token next) = Reads l (token, next)

string_escape-Moves :
    (start_line : ℕ) (l : Lexer)
    → current_char l ≡ b'\\'
    → RoundMoves l (string_escape start_line l)
unfolding string_escape make_error_token
string_escape-Moves start_line l e =
    let after = (consume_escape l).1 in
    let first = consume_escape-Consumes l e in
    let bad = Consumes-Moves l after (skip_bad after) first (skip_bad-Moves after) in
    ground (arith, first, current_char-inside l, bad, bad.further, bad.moves)

count_line-current_char : (l : Lexer) → current_char (count_line l) ≡ current_char l
unfolding count_line current_char
count_line-current_char l = ground arith

RoundMoves-count_line : (l : Lexer) (r : Round) → RoundMoves (count_line l) r → RoundMoves l r
unfolding count_line
RoundMoves-count_line l leave h = tt
RoundMoves-count_line l (again next) h = ground arith
RoundMoves-count_line l (refuse token next) h = ground arith

string_round-Moves : (start_line : ℕ) (l : Lexer) → RoundMoves l (string_round start_line l)
unfolding string_round
string_round-Moves start_line l =
    let counted = count_line l in
    let same = count_line-current_char l in
    elim (Bool-cases (current_char l == 0)) [
      | inl e ↦ rw e (ground arith)
      | inr e ↦ elim (Bool-cases (current_char l == b'\\')) [
        | inl b ↦
            let escape = string_escape-Moves start_line counted (ground arith) in
            ground (arith, RoundMoves-count_line l (string_escape start_line counted) escape)
        | inr b ↦
            let next = advance-Consumes counted (ground arith) in
            let inside = current_char-inside counted (ground arith) in
            ground (arith, RoundMoves-count_line l (again (advance counted)) (next, inside))
      ]
    ]

-- What the loop of a string may return.
abbrev BodyMoves : Lexer → Option Token × Lexer → Type 0
BodyMoves l (none, end) = Moves l end
BodyMoves l (some token, end) = Reads l (token, end)

BodyMoves-Consumes :
    (l next : Lexer) (r : Option Token × Lexer) → Consumes l next → BodyMoves next r → BodyMoves l r
BodyMoves-Consumes l next (none, end) c h = Moves-trans l next end c.moves h
BodyMoves-Consumes l next (some token, end) c h = record {
  consumes = Consumes-Moves l next end c h.consumes.moves;
  starts = omega (arith, c.further, h.starts);
  ends = h.ends;
}

string_body-Moves : (fuel start_line : ℕ) (l : Lexer) → BodyMoves l (string_body fuel start_line l)
unfolding string_body
string_body-Moves zero start_line l = Moves-refl l
string_body-Moves (suc fuel) start_line l =
    go (string_round start_line l) (string_round-Moves start_line l)
      (string_body-Moves fuel start_line)
  where
    go :
        (r : Round)
        → RoundMoves l r
        → ((next : Lexer) → BodyMoves next (string_body fuel start_line next))
        → BodyMoves l (elim r [
          | leave ↦ (none, l)
          | again next ↦ string_body fuel start_line next
          | refuse token next ↦ (some token, next)
        ])
    go leave h ih = Moves-refl l
    go (again next) h ih = BodyMoves-Consumes l next _ h.0 (ih next)
    go (refuse token next) h ih = h

string_end-Reads :
    (start start_line : ℕ) (a l : Lexer)
    → Consumes a l
    → start ≡ a.position
    → Reads a (string_end start start_line l)
unfolding string_end make_token make_error_token
string_end-Reads start start_line a l c e =
    ground (arith, c, Consumes-Moves a l (advance l) c (advance-Moves l))

string_result-Reads :
    (start_line : ℕ) (a b : Lexer) (r : Option Token × Lexer)
    → Consumes a b
    → BodyMoves b r
    → Reads a (string_result a.position start_line r)
string_result-Reads start_line a b (none, end) c h =
    string_end-Reads a.position start_line a end (Consumes-Moves a b end c h) refl
string_result-Reads start_line a b (some token, end) c h = record {
  consumes = Consumes-Moves a b end c h.consumes.moves;
  starts = omega (arith, c.further, h.starts);
  ends = h.ends;
}

pub lexer_string-Reads : (l : Lexer) → current_char l ≡ b'"' → Reads l (lexer_string l)
unfolding lexer_string
lexer_string-Reads l e =
    string_result-Reads l.line l (advance l) _ (advance-Consumes l (rw e (omega arith)))
      (string_body-Moves (suc (remaining (advance l))) l.line (advance l))

char_end-Reads :
    (start start_line : ℕ) (a l : Lexer)
    → Consumes a l
    → start ≡ a.position
    → Reads a (char_end start start_line l)
unfolding char_end make_token make_error_token
char_end-Reads start start_line a l c e =
    ground (arith, c, Consumes-Moves a l (advance l) c (advance-Moves l))

pub lexer_char-Reads : (l : Lexer) → current_char l ≡ b'\'' → Reads l (lexer_char l)
unfolding lexer_char make_error_token
lexer_char-Reads l e =
    let opened = advance l in
    let first = advance-Consumes l (rw e (omega arith)) in
    let escaped = (consume_escape opened).1 in
    let past = Consumes-Moves l opened escaped first (consume_escape-Moves opened) in
    let one = Consumes-Moves l opened (advance opened) first (advance-Moves opened) in
    ground (
      arith,
      first,
      Consumes-Moves l escaped (skip_bad escaped) past (skip_bad-Moves escaped),
      char_end-Reads l.position l.line l escaped past refl,
      char_end-Reads l.position l.line l (advance opened) one refl,
      char_end-Reads l.position l.line l opened first refl,
    )
