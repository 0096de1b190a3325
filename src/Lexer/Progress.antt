-- ===== src/Lexer/Progress.antt =====
-- `lexer_next_token` makes progress: each call but the one that returns `token_eof` consumes a byte
-- and returns a token that lies in what it consumed, so that the loop of `dump_tokens` ends.
use kratos_lang.Prelude.{
  ℕ, zero, suc, ◌+◌, ◌*◌, ◌≤◌, ◌<◌, ◌≡◌, refl, sym, ◌∙◌, ap, if◌then◌else◌, ◌≢◌, ◌⊎◌, inl, inr,
  Bool, true, false, Bytes, length, ◌==◌, arith, Bool-cases, ==_iff, none, some, Option, List, [],
  ◌∷◌,
}
use kratos_lang.Lexer.Token.{Lexer, Token, TokenType, token_eof, token_error, diag_k101}
use kratos_lang.Lexer.Cursor.{
  current_char, advance, remaining, make_token, make_error_token, skip_whitespace, at_space,
  skip_one,
}
use kratos_lang.Lexer.Scan.{is_digit, is_alpha, is_alnum, at_digit}
use kratos_lang.Lexer.Next.{
  lexer_init, at_name, lexer_identifier, pair, pair_only, operator_type, operator_token,
  lexer_operator, lexer_token, lexer_next_token, is_eof, read_tokens, dump_tokens,
}
use kratos_lang.Lexer.Moves.{
  Moves, Moves-trans, Consumes, current_char-inside, advance-Consumes, match_char-Moves,
  loop-Consumes, loop_skipped, skip_one-step, Consumes-remaining, Consumes-Moves,
  skip_whitespace-Moves,
}
use kratos_lang.Lexer.Bounds.{Reads, lexer_number-Reads, lexer_string-Reads, lexer_char-Reads}

at_name-step :
    (l : Lexer) → at_name l ≡ true → Consumes l (advance l) × (l.position < length l.source)
unfolding at_name is_alnum is_alpha is_digit
at_name-step l e = ground (arith, current_char-inside l, advance-Consumes l)

pub lexer_identifier-Reads : (l : Lexer) → at_name l ≡ true → Reads l (lexer_identifier l)
unfolding lexer_identifier make_token
lexer_identifier-Reads l e = ground (arith, loop-Consumes at_name advance at_name-step l e)

pair-Moves :
    (both single : TokenType) (l : Lexer) (r : Bool × Lexer)
    → Moves l r.1
    → Moves l (pair both single r).1
pair-Moves both single l (true, next) h = h
pair-Moves both single l (false, next) h = h

pair_only-Moves :
    (both : TokenType) (l : Lexer) (r : Bool × Lexer) → Moves l r.1 → Moves l (pair_only both r).1
pair_only-Moves both l (true, next) h = h
pair_only-Moves both l (false, next) h = h

operator_type-Moves : (c : ℕ) (l : Lexer) → Moves l (operator_type c l).1
unfolding operator_type
operator_type-Moves c l =
    ground (arith, match_char-Moves b'=' l, match_char-Moves b'&' l, match_char-Moves b'|' l)

operator_token-Reads :
    (a : Lexer) (r : Option TokenType × Lexer)
    → Consumes a r.1
    → Reads a (operator_token a.position r)
unfolding make_token make_error_token
operator_token-Reads a (some type, l) c = ground arith
operator_token-Reads a (none, l) c = ground arith

pub lexer_operator-Reads : (l : Lexer) → current_char l ≢ 0 → Reads l (lexer_operator l)
unfolding lexer_operator
lexer_operator-Reads l h =
    let typed = operator_type-Moves (current_char l) (advance l) in
    operator_token-Reads l _ (Consumes-Moves l (advance l) _ (advance-Consumes l h) typed)

-- At a byte other than zero `lexer_token` consumes, and its token lies in what it consumed.
pub lexer_token-Reads : (l : Lexer) → current_char l ≢ 0 → Reads l (lexer_token l)
unfolding lexer_token at_digit at_name is_alnum
lexer_token-Reads l h = ground (
  arith,
  lexer_identifier-Reads l,
  lexer_number-Reads l,
  lexer_string-Reads l,
  lexer_char-Reads l,
  lexer_operator-Reads l h,
)

-- K101, the report of a comment that is not closed, has length 1 at the end of what was consumed: its one
-- byte stands behind it, where the comment would have gone on.
pub record OpenComment (token : Token) (position : ℕ) : Type 0 where
  pub refused : token.type ≡ token_error
  pub code : token.error_code ≡ diag_k101
  pub length : token.length ≡ 1
  pub start : token.start ≡ position

-- What one call of `lexer_next_token` from `a` promises: the source stays, the cursor moves forward
-- inside it, the token lies in what was consumed or is K101 at the end of that, and each token but the
-- last consumes a byte or reports the comment that an earlier call left open.
pub record NextToken (a : Lexer) (r : Token × Lexer) : Type 0 where
  pub moves : Moves a r.1
  pub starts : a.position ≤ r.0.start
  pub ends : (r.0.start + r.0.length ≤ r.1.position) ⊎ OpenComment r.0 r.1.position
  pub progress :
      is_eof r.0.type ≡ false → (a.position < r.1.position) ⊎ (a.unterminated_comment ≡ true)

skip_whitespace-cases :
    (l : Lexer)
    → (skip_whitespace l ≡ l) ⊎ (Consumes l (skip_whitespace l) × (l.position < length l.source))
unfolding skip_whitespace
skip_whitespace-cases l = elim (Bool-cases (at_space l)) [
  | inl e ↦ inr (loop-Consumes at_space skip_one skip_one-step l e, (skip_one-step l e).1)
  | inr e ↦ inl (loop_skipped at_space skip_one skip_one-step l e)
]

lexer_token_eof :
    (l : Lexer)
    → current_char l ≡ 0
    → lexer_token l ≡ (make_token l token_eof l.position 0 l.line, l)
unfolding lexer_token
lexer_token_eof l e = rw e

lexer_token-NextToken : (l : Lexer) → NextToken l (lexer_token l)
unfolding make_token
lexer_token-NextToken l = elim (Bool-cases (current_char l == 0)) [
  | inl e ↦ rw (lexer_token_eof l ((==_iff _ _).0 e)) (ground arith)
  | inr e ↦ let r = lexer_token-Reads l (ground arith) in ground (arith, r, r.consumes)
]

-- The report of a comment that `skip_whitespace` leaves open.
report-NextToken :
    (l next : Lexer) (token : Token)
    → Moves l next
    → (next ≡ l) ⊎ (Consumes l next × (l.position < length l.source))
    → next.unterminated_comment ≡ true
    → OpenComment token next.position
    → NextToken l (token, record next { unterminated_comment = false })
report-NextToken l next token moves cases e k = record {
  moves = ground (arith, moves);
  starts = ground (arith, moves.forward, k.start);
  ends = inr record { refused = k.refused; code = k.code; length = k.length; start = k.start };
  progress = λ f. elim cases [
    | inl same ↦ inr (sym (ap (λ (x : Lexer). x.unterminated_comment) same) ∙ e)
    | inr (c, inside) ↦ inl c.further
  ];
}

-- A token behind blanks and comments.
behind-NextToken :
    (l next : Lexer) (r : Token × Lexer)
    → Moves l next
    → (next ≡ l) ⊎ (Consumes l next × (l.position < length l.source))
    → NextToken next r
    → next.unterminated_comment ≡ false
    → NextToken l r
behind-NextToken l next r moves cases token e = record {
  moves = Moves-trans l next r.1 moves token.moves;
  starts = ground (arith, moves.forward, token.starts);
  ends = token.ends;
  progress = λ f. inl (ground (arith, moves.forward, token.progress f, e));
}

NextToken-if :
    (l : Lexer) (b : Bool) (r s : Token × Lexer)
    → (b ≡ true → NextToken l r)
    → (b ≡ false → NextToken l s)
    → NextToken l (if b then r else s)
NextToken-if l true r s h k = h refl
NextToken-if l false r s h k = k refl

-- A call from any state keeps the source, moves the cursor forward up to its end, and returns a token
-- inside what was consumed, or K101 with length 1 and the end of what was consumed as its start. Unless
-- the token is `token_eof`, the call consumes a byte or the state had a comment left open.
pub lexer_next_token-NextToken : (l : Lexer) → NextToken l (lexer_next_token l)
unfolding lexer_next_token make_error_token make_token
lexer_next_token-NextToken l =
    let next = skip_whitespace l in
    let blank = skip_whitespace-Moves l in
    let cases = skip_whitespace-cases l in
    NextToken-if l next.unterminated_comment _ (lexer_token next)
      (λ e.
        report-NextToken l next _ blank cases e
          record { refused = refl; code = refl; length = refl; start = refl })
      (behind-NextToken l next (lexer_token next) blank cases (lexer_token-NextToken next))

-- The work that is left: it falls at each call that does not return the end of the source.
unfoldable pub work : Lexer → ℕ
work l = 2 * remaining l + (if l.unterminated_comment then 1 else 0)

lexer_token-work :
    (l : Lexer)
    → is_eof (lexer_token l).0.type ≡ false
    → suc (remaining (lexer_token l).1) ≤ remaining l
unfolding make_token
lexer_token-work l h = elim (Bool-cases (current_char l == 0)) [
  | inl e ↦ cc (lexer_token_eof l ((==_iff _ _).0 e))
  | inr e ↦
      let r = lexer_token-Reads l (ground arith) in
      let inside = current_char-inside l (ground arith) in
      Consumes-remaining l (lexer_token l).1 r.consumes inside
]

Moves-remaining : (a b : Lexer) → Moves a b → remaining b ≤ remaining a
unfolding remaining
Moves-remaining a b m = ground (arith, ap length m.same_source)

-- Clearing the flag leaves what remains.
remaining-next :
    (l : Lexer)
    → remaining (record (skip_whitespace l) { unterminated_comment = false })
      ≡ remaining (skip_whitespace l)
unfolding remaining
remaining-next l = refl

pub lexer_next_token-work :
    (l : Lexer) → is_eof (lexer_next_token l).0.type ≡ false → work (lexer_next_token l).1 < work l
unfolding lexer_next_token work
lexer_next_token-work l h =
    let next = skip_whitespace l in
    let blank = Moves-remaining l next (skip_whitespace-Moves l) in
    elim (Bool-cases next.unterminated_comment) [
      | inl e ↦ elim (skip_whitespace-cases l) [
        | inl same ↦
            rw e (ground (arith, ap (λ (x : Lexer). x.unterminated_comment) same, remaining-next l))
        | inr (c, inside) ↦
            rw e (ground (arith, Consumes-remaining l next c inside, remaining-next l))
      ]
      | inr e ↦ ground (arith, lexer_token-work next, blank)
    ]

lexer_token-work_le :
    (l : Lexer) → l.unterminated_comment ≡ false → work (lexer_token l).1 ≤ 2 * remaining l
unfolding work
lexer_token-work_le l clear = elim (Bool-cases (current_char l == 0)) [
  | inl e ↦ rw (lexer_token_eof l ((==_iff _ _).0 e), clear) (omega arith)
  | inr e ↦
      let r = lexer_token-Reads l (ground arith) in
      let inside = current_char-inside l (ground arith) in
      let less = Consumes-remaining l (lexer_token l).1 r.consumes inside in ground (arith, less)
]

-- No call adds to the work.
pub lexer_next_token-work_le : (l : Lexer) → work (lexer_next_token l).1 ≤ work l
unfolding lexer_next_token work
lexer_next_token-work_le l =
    let next = skip_whitespace l in
    let blank = Moves-remaining l next (skip_whitespace-Moves l) in
    elim (Bool-cases next.unterminated_comment) [
      | inl e ↦ rw e (ground (arith, blank, remaining-next l))
      | inr e ↦ ground (arith, lexer_token-work_le next e, blank)
    ]

-- The loop of `dump_tokens` ends: fuel above the work left gives a list of tokens.
read_tokens_total :
    (fuel : ℕ) (l : Lexer) → work l < fuel → (ts : List Token) × (read_tokens fuel l ≡ some ts)
unfolding read_tokens
read_tokens_total zero l h = absurd (omega arith)
read_tokens_total (suc fuel) l h = elim (Bool-cases (is_eof (lexer_next_token l).0.type)) [
  | inl e ↦ ((lexer_next_token l).0 ∷ [], rw e)
  | inr e ↦
      let less = lexer_next_token-work l e in
      let (ts, rest) = read_tokens_total fuel (lexer_next_token l).1 (omega arith) in
      ((lexer_next_token l).0 ∷ ts, rw (e, rest))
]

-- The loop over `lexer_next_token` stops on every source and gives a list of tokens.
pub dump_tokens_total : (source : Bytes) → (ts : List Token) × (dump_tokens source ≡ some ts)
unfolding dump_tokens lexer_init work remaining
dump_tokens_total source =
    read_tokens_total (2 * length source + 2) (lexer_init source) (omega arith)
