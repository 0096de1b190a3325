-- ===== src/Lexer/Blanks.antt =====
-- What `skip_whitespace` of src/lexer/lexer.c skips: blanks, newlines and comments, and all of them.
use mathlib.Core.Path.{subst}
use kratos_lang.Prelude.{
  ℕ, zero, suc, ◌+◌, ◌≡◌, ◌≢◌, refl, sym, ap, ◌∙◌, Bool, true, false, ◌==◌, Bytes, [], ◌∷◌, ◌++◌,
  append_assoc, while, arith, Bool-cases, inl, inr, ◌⊎◌,
}
use kratos_lang.Lexer.Token.{Lexer}
use kratos_lang.Lexer.Cursor.{
  current_char, advance, remaining, in_comment, comment_body, skip_comment, at_space, skip_one,
  skip_whitespace, is_blank,
}
use kratos_lang.Lexer.Moves.{skip_whitespace-exit}
use kratos_lang.Lexer.Comments.{
  Skipped, nothing, space, tab, carriage_return, newline, comment, open_comment, ahead_of,
  advance_ahead, newline_ahead, Body, comment_body-Body, comment_body_ends,
}

-- From one state to another over what is skipped.
record Between (a b : Lexer) : Type 0 where
  pub left_open : Bool
  pub text : Bytes
  pub skipped : Skipped left_open text
  pub ahead : ahead_of a ≡ text ++ ahead_of b
  pub stop : (left_open ≡ false) ⊎ ((current_char b ≡ 0) × (b.unterminated_comment ≡ true))

stays : (l : Lexer) → Between l l
stays l = record { left_open = false; text = []; skipped = nothing; ahead = refl; stop = inl refl }

-- A byte in front that is skipped.
behind_byte :
    (c : ℕ) (l m z : Lexer)
    → ahead_of l ≡ c ∷ ahead_of m
    → ((left_open : Bool) (text : Bytes) → Skipped left_open text → Skipped left_open (c ∷ text))
    → Between m z
    → Between l z
behind_byte c l m z e k r = record {
  left_open = r.left_open;
  stop = r.stop;
  text = c ∷ r.text;
  skipped = k r.left_open r.text r.skipped;
  ahead = e ∙ ap (λ bytes. c ∷ bytes) r.ahead;
}

-- The byte in front of the cursor, where it is known.
known_ahead :
    (l : Lexer) (c : ℕ) → current_char l ≡ c → c ≢ 0 → ahead_of l ≡ c ∷ ahead_of (advance l)
known_ahead l c e h = advance_ahead l (λ z. h (sym e ∙ z)) ∙ ap (λ x. x ∷ ahead_of (advance l)) e

closed_comment :
    (l closing z : Lexer) (b : Body (advance l) closing)
    → current_char l ≡ b'$'
    → current_char closing ≡ b'$'
    → Between (advance closing) z
    → Between l z
closed_comment l closing z b e k r = record {
  left_open = r.left_open;
  stop = r.stop;
  text = b'$' ∷ (b.text ++ (b'$' ∷ r.text));
  skipped = comment b.text r.text b.plain r.skipped;
  ahead =
      known_ahead l b'$' e (λ z. absurd (omega (arith, z)))
      ∙ ap (λ bytes. b'$' ∷ bytes)
          (b.ahead
            ∙ ap (λ bytes. b.text ++ bytes)
                (known_ahead closing b'$' k (λ z. absurd (omega (arith, z)))
                  ∙ ap (λ bytes. b'$' ∷ bytes) r.ahead)
            ∙ sym (append_assoc b.text (b'$' ∷ r.text) (ahead_of z)));
}

open_end :
    (l closing z : Lexer) (b : Body (advance l) closing)
    → current_char l ≡ b'$'
    → ahead_of closing ≡ ahead_of z
    → current_char z ≡ 0
    → z.unterminated_comment ≡ true
    → Between l z
open_end l closing z b e k h flag = record {
  left_open = true;
  stop = inr (h, flag);
  text = b'$' ∷ b.text;
  skipped = open_comment b.text b.plain;
  ahead =
      known_ahead l b'$' e (λ z. absurd (omega (arith, z)))
      ∙ ap (λ bytes. b'$' ∷ bytes) (b.ahead ∙ ap (λ bytes. b.text ++ bytes) k);
}

while_stays : (rounds : ℕ) (l : Lexer) → at_space l ≡ false → while rounds at_space skip_one l ≡ l
unfolding while
while_stays zero l h = refl
while_stays (suc rounds) l h = rw (h, while)

ends_at_zero :
    (l : Lexer) → in_comment l ≡ false → (current_char l == b'$') ≡ false → current_char l ≡ 0
unfolding in_comment
ends_at_zero l h k = ground (arith, h, k)

no_space : (l : Lexer) → current_char l ≡ 0 → at_space l ≡ false
unfolding at_space
no_space l h = rw h

-- A comment that is not closed, behind which the loop ends.
open_rounds :
    (rounds : ℕ) (l closing : Lexer) (b : Body (advance l) closing)
    → current_char l ≡ b'$'
    → current_char closing ≡ 0
    → Between l (while rounds at_space skip_one (record closing { unterminated_comment = true }))
unfolding current_char
open_rounds rounds l closing b e h =
    let end : Lexer = record closing { unterminated_comment = true } in
    subst (Between l) (sym (while_stays rounds end (no_space end h)))
      (open_end l closing end b e refl h refl)

-- The rounds behind a comment.
comment_rounds :
    (rounds : ℕ) (l : Lexer)
    → current_char l ≡ b'$'
    → ((m : Lexer) → Between m (while rounds at_space skip_one m))
    → Between l (while rounds at_space skip_one (skip_comment l))
unfolding skip_comment
comment_rounds rounds l e rest =
    let closing = comment_body (advance l) in
    let body = comment_body-Body (advance l) in
    elim (Bool-cases (current_char closing == b'$')) [
      | inl k ↦
          rw k (closed_comment l closing _ body e (ground (arith, k)) (rest (advance closing)))
      | inr k ↦ rw k (
          open_rounds rounds l closing body e
            (ends_at_zero closing (comment_body_ends (advance l)) k))
    ]

blank_one : (l : Lexer) → is_blank (current_char l) ≡ true → skip_one l ≡ advance l
unfolding skip_one
blank_one l h = rw h

newline_one :
    (l : Lexer) → current_char l ≡ b'\n' → skip_one l ≡ advance (record l { line = l.line + 1 })
unfolding skip_one
newline_one l h = rw h

comment_one : (l : Lexer) → current_char l ≡ b'$' → skip_one l ≡ skip_comment l
unfolding skip_one
comment_one l h = rw h

-- The byte at which a round is entered.
data Start (c : ℕ) : Type 0 where
  at_blank : c ≡ b' ' → Start c
  at_tab : c ≡ b'\t' → Start c
  at_return : c ≡ b'\r' → Start c
  at_newline : c ≡ b'\n' → Start c
  at_dollar : c ≡ b'$' → Start c

at_space-Start : (l : Lexer) → at_space l ≡ true → Start (current_char l)
unfolding at_space
at_space-Start l h = elim (Bool-cases (current_char l == b' ')) [
  | inl e ↦ at_blank (ground (arith, e))
  | inr a ↦ elim (Bool-cases (current_char l == b'\t')) [
    | inl e ↦ at_tab (ground (arith, e))
    | inr b ↦ elim (Bool-cases (current_char l == b'\r')) [
      | inl e ↦ at_return (ground (arith, e))
      | inr c ↦ elim (Bool-cases (current_char l == b'\n')) [
        | inl e ↦ at_newline (ground (arith, e))
        | inr d ↦ at_dollar (ground (arith, h, a, b, c, d))
      ]
    ]
  ]
]

-- One round, and those behind it.
round_skips :
    (rounds : ℕ) (l : Lexer)
    → Start (current_char l)
    → ((m : Lexer) → Between m (while rounds at_space skip_one m))
    → Between l (while rounds at_space skip_one (skip_one l))
round_skips rounds l (at_blank e) rest =
    subst (λ m. Between l (while rounds at_space skip_one m)) (sym (blank_one l (rw e)))
      (behind_byte b' ' l (advance l) _ (known_ahead l b' ' e (λ z. absurd (omega (arith, z))))
        space (rest (advance l)))
round_skips rounds l (at_tab e) rest =
    subst (λ m. Between l (while rounds at_space skip_one m)) (sym (blank_one l (rw e)))
      (behind_byte b'\t' l (advance l) _ (known_ahead l b'\t' e (λ z. absurd (omega (arith, z))))
        tab (rest (advance l)))
round_skips rounds l (at_return e) rest =
    subst (λ m. Between l (while rounds at_space skip_one m)) (sym (blank_one l (rw e)))
      (behind_byte b'\r' l (advance l) _ (known_ahead l b'\r' e (λ z. absurd (omega (arith, z))))
        carriage_return (rest (advance l)))
round_skips rounds l (at_newline e) rest =
    let next : Lexer = record l { line = l.line + 1 } in
    subst (λ m. Between l (while rounds at_space skip_one m)) (sym (newline_one l e))
      (behind_byte b'\n' l (advance next) _
        (newline_ahead l (λ z. absurd (omega (arith, e, z)))
          ∙ ap (λ x. x ∷ ahead_of (advance next)) e)
        newline (rest (advance next)))
round_skips rounds l (at_dollar e) rest =
    subst (λ m. Between l (while rounds at_space skip_one m)) (sym (comment_one l e))
      (comment_rounds rounds l e rest)

skips : (rounds : ℕ) (l : Lexer) → Between l (while rounds at_space skip_one l)
unfolding while
skips zero l = stays l
skips (suc rounds) l = elim (Bool-cases (at_space l)) [
  | inr e ↦ rw (e, while) (stays l)
  | inl e ↦ rw (e, while) (round_skips rounds l (at_space-Start l e) (skips rounds))
]

-- What `skip_whitespace` skips, and the byte where it stops.
pub record Skips (a b : Lexer) : Type 0 where
  pub left_open : Bool
  pub text : Bytes
  pub skipped : Skipped left_open text
  pub ahead : ahead_of a ≡ text ++ ahead_of b
  pub stop : (left_open ≡ false) ⊎ ((current_char b ≡ 0) × (b.unterminated_comment ≡ true))
  pub no_blank : current_char b ≢ b' '
  pub no_tab : current_char b ≢ b'\t'
  pub no_return : current_char b ≢ b'\r'
  pub no_newline : current_char b ≢ b'\n'
  pub no_comment : current_char b ≢ b'$'

-- Between the cursor and the place where `skip_whitespace` stops stand blanks, tabs, carriage returns,
-- newlines and comments only; where the last comment is not closed, that place is the end of the text,
-- or a zero byte, and the comment is noted as unterminated; and none of these stands at that place.
pub skip_whitespace-Skips : (l : Lexer) → Skips l (skip_whitespace l)
unfolding skip_whitespace at_space
skip_whitespace-Skips l =
    let r = skips (suc (remaining l)) l in
    let exit = skip_whitespace-exit l in
    record {
      left_open = r.left_open;
      stop = r.stop;
      text = r.text;
      skipped = r.skipped;
      ahead = r.ahead;
      no_blank = ground (arith, exit);
      no_tab = ground (arith, exit);
      no_return = ground (arith, exit);
      no_newline = ground (arith, exit);
      no_comment = ground (arith, exit);
    }
