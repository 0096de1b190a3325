-- ===== src/Lexer/NameRoundTrip.antt =====
-- Words of src/lexer/lexer.c: a name is scanned up to the first byte that cannot belong to it.
use kratos_lang.Prelude.{
  ℕ, zero, suc, ◌+◌, ◌-◌, ◌<◌, ◌≡◌, ◌∙◌, ap, ◌≢◌, Bytes, [], ◌∷◌, ◌++◌, ◌&&◌, ◌||◌, length,
  length-append, length-drop, slice, arith, ◌==◌, take-append, Bool, true, false, not, while,
}
use kratos_lang.Lexer.Token.{Lexer}
use kratos_lang.Lexer.Keywords.{identifier_type}
use kratos_lang.Lexer.Cursor.{advance, make_token, remaining, at_space}
use kratos_lang.Lexer.Scan.{is_digit, is_alpha, is_alnum}
use kratos_lang.Lexer.Next.{at_name, lexer_identifier, lexer_token, lexer_next_token}
use kratos_lang.Lexer.Decode.{token_text}
use kratos_lang.Lexer.Moves.{skip_whitespace_none}
use kratos_lang.Lexer.Sees.{
  Sees, ahead, ahead_zero, Sees-eq, current_char-Sees, current_char-Sees_end, advance-Sees,
}

-- A byte of a name.
abbrev pub is_name : ℕ → Bool
is_name c = is_alnum c || c == b'_'

abbrev pub all_name : Bytes → Bool
all_name [] = true
all_name (c ∷ s) = is_name c && all_name s

-- What follows the name does not continue it.
abbrev pub ends_name : Bytes → Bool
ends_name [] = true
ends_name (c ∷ s) = not (is_name c)

name_byte : (c : ℕ) → is_name c ≡ true → c ≢ 0
unfolding is_alnum is_alpha is_digit
name_byte c h = ground arith

at_name_end : (rest : Bytes) (l : Lexer) → ends_name rest ≡ true → Sees l rest → at_name l ≡ false
unfolding at_name is_alnum is_alpha is_digit
at_name_end [] l h e = ground (arith, current_char-Sees_end l e)
at_name_end (c ∷ rest) l h e = ground (arith, current_char-Sees l c rest e)

at_name_start :
    (c : ℕ) (s : Bytes) (l : Lexer) → is_name c ≡ true → Sees l (c ∷ s) → at_name l ≡ true
unfolding at_name
at_name_start c s l h e = ground (arith, current_char-Sees l c s e)

all_name-cons :
    (c : ℕ) (s : Bytes) → all_name (c ∷ s) ≡ true → (is_name c ≡ true) × (all_name s ≡ true)
all_name-cons c s h = ground arith

name_loop :
    (name rest : Bytes) (fuel : ℕ) (l : Lexer)
    → length name < fuel
    → all_name name ≡ true
    → ends_name rest ≡ true
    → Sees l (name ++ rest)
    → (while fuel at_name advance l ≡ ahead (length name) l) × Sees (ahead (length name) l) rest
unfolding while
name_loop name rest zero l h a b e = absurd (omega arith)
name_loop [] rest (suc fuel) l h a b e =
    (rw (at_name_end rest l b e, while) (ahead_zero l), Sees-eq rest (ahead_zero l) e)
name_loop (c ∷ name) rest (suc fuel) l h a b e =
    let (first, others) = all_name-cons c name a in
    let step = advance-Sees l c (name ++ rest) (name_byte c first) e in
    let tail = name_loop name rest fuel (advance l) (omega arith) others b step.0 in
    let far : ahead (length name) (advance l) ≡ ahead (suc (length name)) l =
      ground (arith, step.1) in
    (rw (at_name_start c (name ++ rest) l first e, while) (tail.0 ∙ far), Sees-eq rest far tail.1)

lexer_identifier-name :
    (name rest : Bytes) (l : Lexer)
    → all_name name ≡ true
    → ends_name rest ≡ true
    → Sees l (name ++ rest)
    → ((lexer_identifier l).0.type ≡ identifier_type name)
      × (token_text l.source (lexer_identifier l).0 ≡ name)
      × Sees (lexer_identifier l).1 rest
unfolding lexer_identifier make_token
lexer_identifier-name name rest l a b e =
    let left = length-drop l.position l.source in
    let enough : length name < suc (remaining l) =
      unfold remaining in omega (arith, left, ap length e, length-append name rest) in
    let loop = name_loop name rest (suc (remaining l)) l enough a b e in
    let len : l.position + length name - l.position ≡ length name = omega arith in
    let text : slice l.position (length name) l.source ≡ name = rw e (take-append name rest) in
    rw (loop.0, len) (ap identifier_type text, text, loop.1)

lexer_next_token-name :
    (c : ℕ) (s : Bytes) (l : Lexer)
    → (is_alpha c || c == b'_') ≡ true
    → l.unterminated_comment ≡ false
    → Sees l (c ∷ s)
    → lexer_next_token l ≡ lexer_identifier l
unfolding lexer_next_token lexer_token is_alpha is_digit
lexer_next_token-name c s l n u e =
    let cur = current_char-Sees l c s e in
    let here = skip_whitespace_none l (unfold at_space in ground (arith, cur)) in
    rw here (ground (arith, cur))

-- A word in front of a scanner with no open comment: bytes of names, the first of them no digit, up
-- to a byte that is none. It is scanned as one token with that text, of the kind that
-- `identifier_type` gives it, and the cursor stands right behind it.
pub name_round_trip :
    (c : ℕ) (name rest : Bytes) (l : Lexer)
    → (is_alpha c || c == b'_') ≡ true
    → all_name (c ∷ name) ≡ true
    → ends_name rest ≡ true
    → l.unterminated_comment ≡ false
    → Sees l (c ∷ (name ++ rest))
    → ((lexer_next_token l).0.type ≡ identifier_type (c ∷ name))
      × (token_text l.source (lexer_next_token l).0 ≡ c ∷ name)
      × Sees (lexer_next_token l).1 rest
name_round_trip c name rest l n a b u e =
    rw (lexer_next_token-name c (name ++ rest) l n u e)
      (lexer_identifier-name (c ∷ name) rest l a b e)
