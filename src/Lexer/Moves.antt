-- ===== src/Lexer/Moves.antt =====
-- Every scanning step keeps the source and moves the cursor forward, up to the end of the source.
use Prim.Native.Nat.{max}
use kratos_lang.Prelude.{
  ℕ, suc, ◌+◌, ◌≤◌, ◌<◌, ◌≡◌, ap, ◌≢◌, Bool, true, false, length, get_or-past, while, while-exit,
  while_rel, arith,
}
use kratos_lang.Lexer.Token.{Lexer}
use kratos_lang.Lexer.Cursor.{
  current_char, advance, match_char, remaining, count_line, in_comment, comment_body, skip_comment,
  at_space, skip_one, skip_whitespace,
}

pub record Moves (a b : Lexer) : Type 0 where
  pub same_source : b.source ≡ a.source
  pub forward : a.position ≤ b.position
  pub bounded : b.position ≤ max a.position (length a.source)

pub Moves-refl : (a : Lexer) → Moves a a
Moves-refl a = ground arith

pub Moves-trans : (a b c : Lexer) → Moves a b → Moves b c → Moves a c
Moves-trans a b c p q = ground (arith, ap length p.same_source)

-- A byte other than zero stands inside the source.
pub current_char-inside : (l : Lexer) → current_char l ≢ 0 → l.position < length l.source
unfolding current_char
current_char-inside l h = ground (arith, get_or-past l.source l.position 0)

pub advance-Moves : (l : Lexer) → Moves l (advance l)
unfolding advance
advance-Moves l = ground (arith, current_char-inside l)

-- At a byte other than zero the cursor moves by one.
pub advance_position : (l : Lexer) → current_char l ≢ 0 → (advance l).position ≡ l.position + 1
unfolding advance
advance_position l h = ground arith

pub count_line-Moves : (l : Lexer) → Moves l (count_line l)
unfolding count_line
count_line-Moves l = ground arith

pub match_char-Moves : (c : ℕ) (l : Lexer) → Moves l (match_char c l).1
unfolding match_char
match_char-Moves c l = ground (arith, advance-Moves l)

-- A step that consumes a byte.
pub record Consumes (a b : Lexer) : Type 0 where
  pub moves : Moves a b
  pub further : a.position < b.position

-- What is left falls at each step that consumes a byte inside the source.
pub Consumes-remaining :
    (a b : Lexer) → Consumes a b → a.position < length a.source → remaining b < remaining a
unfolding remaining
Consumes-remaining a b c h = ground (arith, ap length c.moves.same_source)

pub advance-Consumes : (l : Lexer) → current_char l ≢ 0 → Consumes l (advance l)
advance-Consumes l h = ground (arith, advance-Moves l, advance_position l)

pub Consumes-Moves : (a b c : Lexer) → Consumes a b → Moves b c → Consumes a c
Consumes-Moves a b c p q = ground (arith, ap length p.moves.same_source)

pub Moves-Consumes : (a b c : Lexer) → Moves a b → Consumes b c → Consumes a c
Moves-Consumes a b c p q = ground (arith, ap length p.same_source)

-- A loop whose rounds consume a byte ends by its test, and keeps the cursor's invariant.
module _ (test : Lexer → Bool) (body : Lexer → Lexer)
    (step : (l : Lexer)
      → test l ≡ true
      → Consumes l (body l) × (l.position < length l.source)) where
  pub loop-Moves : (l : Lexer) → Moves l (while (suc (remaining l)) test body l)
  loop-Moves l =
      while_rel Moves test body Moves-refl Moves-trans (λ a e. (step a e).0.moves)
        (suc (remaining l)) l

  -- A loop that is not entered changes nothing.
  pub loop_skipped : (l : Lexer) → test l ≡ false → while (suc (remaining l)) test body l ≡ l
  unfolding while
  loop_skipped l e = rw (e, while)

  -- A loop that is entered consumes a byte.
  pub loop-Consumes :
      (l : Lexer) → test l ≡ true → Consumes l (while (suc (remaining l)) test body l)
  unfolding while
  loop-Consumes l e =
      let first = step l e in
      let rest =
        while_rel Moves test body Moves-refl Moves-trans (λ a e. (step a e).0.moves) (remaining l)
          (body l) in
      rw (e, while) (ground (arith, first, rest, ap length first.0.moves.same_source))

  pub loop-exit : (l : Lexer) → test (while (suc (remaining l)) test body l) ≡ false
  loop-exit l =
      while-exit remaining test body
        (λ a e. Consumes-remaining a (body a) (step a e).0 (step a e).1) (suc (remaining l)) l
        (omega arith)

pub in_comment-step :
    (l : Lexer)
    → in_comment l ≡ true
    → Consumes l (advance (count_line l)) × (l.position < length l.source)
unfolding in_comment current_char count_line
in_comment-step l e =
    ground (arith, current_char-inside l, advance-Consumes (count_line l), advance-Consumes l)

pub comment_body-Moves : (l : Lexer) → Moves l (comment_body l)
unfolding comment_body
comment_body-Moves l = loop-Moves in_comment _ in_comment-step l

pub skip_comment-Consumes : (l : Lexer) → current_char l ≢ 0 → Consumes l (skip_comment l)
unfolding skip_comment
skip_comment-Consumes l h =
    let opened = advance-Consumes l h in
    let body = comment_body-Moves (advance l) in
    let closed = advance-Moves (comment_body (advance l)) in
    ground (arith, ap length opened.moves.same_source, ap length body.same_source)

pub skip_one-step :
    (l : Lexer) → at_space l ≡ true → Consumes l (skip_one l) × (l.position < length l.source)
unfolding at_space skip_one
skip_one-step l e = ground (
  arith,
  current_char-inside l,
  advance-Consumes l,
  advance-Consumes (record l { line = l.line + 1 }),
  skip_comment-Consumes l,
)

pub skip_whitespace-Moves : (l : Lexer) → Moves l (skip_whitespace l)
unfolding skip_whitespace
skip_whitespace-Moves l = loop-Moves at_space skip_one skip_one-step l

-- The fuel is enough: behind the blanks and comments stands no blank and no comment.
pub skip_whitespace-exit : (l : Lexer) → at_space (skip_whitespace l) ≡ false
unfolding skip_whitespace
skip_whitespace-exit l = loop-exit at_space skip_one skip_one-step l

pub skip_whitespace_none : (l : Lexer) → at_space l ≡ false → skip_whitespace l ≡ l
unfolding skip_whitespace
skip_whitespace_none l e = loop_skipped at_space skip_one skip_one-step l e
