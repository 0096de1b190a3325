-- ===== src/Lexer/Comments.antt =====
-- Comments of src/lexer/lexer.c, and the texts that `skip_whitespace` may skip.
use native.Mathlib.Numerals.{add-one}
use kratos_lang.Prelude.{
  ℕ, zero, suc, ◌+◌, ◌≡◌, ◌≢◌, refl, sym, ap, ◌∙◌, Bool, true, false, not, ◌&&◌, ◌==◌, Bytes, [],
  ◌∷◌, ◌++◌, append_assoc, get_or, drop, while_rel, arith, if◌then◌else◌,
}
use kratos_lang.Lexer.Token.{Lexer}
use kratos_lang.Lexer.Cursor.{
  current_char, advance, count_line, remaining, in_comment, comment_body,
}
use kratos_lang.Lexer.Moves.{loop-exit, in_comment-step}

-- The inside of a comment.
abbrev pub no_dollar : Bytes → Bool
no_dollar [] = true
no_dollar (c ∷ text) = not (c == b'$') && not (c == 0) && no_dollar text

-- Blanks, and comments from `$` to `$`; the last comment may be open, which the Boolean says.
pub data Skipped : Bool → Bytes → Type 0 where
  nothing : Skipped false []
  space :
      (left_open : Bool) (text : Bytes) → Skipped left_open text → Skipped left_open (b' ' ∷ text)
  tab :
      (left_open : Bool) (text : Bytes) → Skipped left_open text → Skipped left_open (b'\t' ∷ text)
  carriage_return :
      (left_open : Bool) (text : Bytes) → Skipped left_open text → Skipped left_open (b'\r' ∷ text)
  newline :
      (left_open : Bool) (text : Bytes) → Skipped left_open text → Skipped left_open (b'\n' ∷ text)
  comment :
      {left_open : Bool} (body text : Bytes)
      → no_dollar body ≡ true
      → Skipped left_open text
      → Skipped left_open (b'$' ∷ (body ++ (b'$' ∷ text)))
  open_comment : (body : Bytes) → no_dollar body ≡ true → Skipped true (b'$' ∷ body)

-- The bytes from the cursor on.
abbrev pub ahead_of : Lexer → Bytes
ahead_of l = drop l.position l.source

drop-get_or : (i : ℕ) (s : Bytes) → get_or s i 0 ≢ 0 → drop i s ≡ get_or s i 0 ∷ drop (suc i) s
drop-get_or zero [] h = absurd (h refl)
drop-get_or zero (c ∷ s) h = refl
drop-get_or (suc i) [] h = absurd (h refl)
drop-get_or (suc i) (c ∷ s) h = drop-get_or i s h

-- The byte in front of the cursor, and those behind it.
pub advance_ahead :
    (l : Lexer) → current_char l ≢ 0 → ahead_of l ≡ current_char l ∷ ahead_of (advance l)
unfolding current_char advance
advance_ahead l h =
    let nonzero : (get_or l.source l.position 0 == 0) ≡ false = ground (arith, h) in
    rw (nonzero, add-one) (drop-get_or l.position l.source h)

-- From one state to the other inside a comment.
pub record Body (a b : Lexer) : Type 0 where
  pub text : Bytes
  pub plain : no_dollar text ≡ true
  pub ahead : ahead_of a ≡ text ++ ahead_of b

no_dollar-append :
    (a b : Bytes) → no_dollar a ≡ true → no_dollar b ≡ true → no_dollar (a ++ b) ≡ true
no_dollar-append [] b h k = k
no_dollar-append (c ∷ a) b h k = ground (arith, h, no_dollar-append a b (ground (arith, h)) k)

Body-trans : (a b c : Lexer) → Body a b → Body b c → Body a c
Body-trans a b c p q = record {
  text = p.text ++ q.text;
  plain = no_dollar-append p.text q.text p.plain q.plain;
  ahead =
      p.ahead
      ∙ ap (λ bytes. p.text ++ bytes) q.ahead
      ∙ sym (append_assoc p.text q.text (ahead_of c));
}

pub newline_ahead :
    (l : Lexer)
    → current_char l ≢ 0
    → ahead_of l ≡ current_char l ∷ ahead_of (advance (record l { line = l.line + 1 }))
unfolding current_char
newline_ahead l h = advance_ahead (record l { line = l.line + 1 }) h

either : (P : Lexer → Type 0) (b : Bool) (x y : Lexer) → P x → P y → P (if b then x else y)
either P true x y h k = h
either P false x y h k = k

count_line_ahead :
    (l : Lexer)
    → current_char l ≢ 0
    → ahead_of l ≡ current_char l ∷ ahead_of (advance (count_line l))
unfolding count_line
count_line_ahead l h =
    either (λ m. ahead_of l ≡ current_char l ∷ ahead_of (advance m)) (current_char l == b'\n') _ l
      (newline_ahead l h) (advance_ahead l h)

round-Body : (l : Lexer) → in_comment l ≡ true → Body l (advance (count_line l))
unfolding in_comment
round-Body l e = record {
  text = current_char l ∷ [];
  plain = ground (arith, e);
  ahead = count_line_ahead l (ground (arith, e));
}

pub comment_body-Body : (l : Lexer) → Body l (comment_body l)
unfolding comment_body
comment_body-Body l =
    while_rel Body in_comment (λ a. advance (count_line a))
      (λ a. record { text = []; plain = refl; ahead = refl }) Body-trans round-Body
      (suc (remaining l)) l

pub comment_body_ends : (l : Lexer) → in_comment (comment_body l) ≡ false
unfolding comment_body
comment_body_ends l = loop-exit in_comment _ in_comment-step l
