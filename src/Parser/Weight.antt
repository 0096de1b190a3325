-- ===== src/Parser/Weight.antt =====
-- How far the parser of src/parser is from the end of its source: what the scanner has left, and the
-- current token.
use kratos_lang.Prelude.{
  ℕ, ◌+◌, ◌*◌, ◌≤◌, ◌<◌, ◌≡◌, refl, ◌⊎◌, inl, inr, Bool, true, false, Bool-cases, arith,
  if◌then◌else◌, length,
}
use kratos_lang.Lexer.Token.{TokenType, token_eof, token_error, Lexer}
use kratos_lang.Lexer.Next.{lexer_next_token, is_eof}
use kratos_lang.Lexer.Cursor.{remaining}
use kratos_lang.Lexer.Progress.{
  work, lexer_next_token-work, lexer_next_token-work_le, lexer_next_token-NextToken,
}
use kratos_lang.Parser.Kinds.{token_eq}
use kratos_lang.Parser.State.{Parser, error_if_invalid, error_at, advanced, check, parser_init}

abbrev pub at_end : Parser → Bool
at_end parser = check parser token_eof

unfoldable pub weight : Parser → ℕ
weight parser = 2 * work parser.lexer + (if at_end parser then 0 else 1)

token_eq-is_eof : (type : TokenType) → token_eq type token_eof ≡ is_eof type
token_eq-is_eof token_eof = refl
token_eq-is_eof _ = refl

-- What every function of the parser keeps: it moves on or stays, in the same source, and takes no error
-- back.
pub record Forward (p q : Parser) : Type 0 where
  pub less : weight q ≤ weight p
  pub same : (weight q < weight p) ⊎ (at_end q ≡ at_end p)
  pub source : q.lexer.source ≡ p.lexer.source
  pub errors : p.had_error ≡ true → q.had_error ≡ true

pub Forward-refl : (p : Parser) → Forward p p
Forward-refl p = record { less = omega arith; same = inr refl; source = refl; errors = λ e. e }

pub Forward-trans : (p q r : Parser) → Forward p q → Forward q r → Forward p r
Forward-trans p q r a b =
    ground (arith, a.less, b.less, a.same, b.same, a.source, b.source, a.errors, b.errors)

pub error_at-Forward : (code : ℕ) (p : Parser) → Forward p (error_at p.current code p)
unfolding error_at weight
error_at-Forward code p = record {
  less = omega arith;
  same = inr refl;
  source = refl;
  errors = λ e. refl;
}

error_if_invalid-Forward : (p : Parser) → Forward p (error_if_invalid p)
unfolding error_if_invalid
error_if_invalid-Forward p = elim (Bool-cases (check p token_error)) [
  | inl e ↦ rw e (error_at-Forward _ p)
  | inr e ↦ rw e (Forward-refl p)
]

abbrev read_next : Parser → Parser
read_next p =
    let next = lexer_next_token p.lexer in
    record p { previous = p.current; current = next.0; lexer = next.1 }

read_next-weight :
    (p : Parser)
    → (weight (read_next p) < weight p)
      ⊎ ((weight (read_next p) ≡ weight p) × (at_end p ≡ true) × (at_end (read_next p) ≡ true))
unfolding weight
read_next-weight p =
    let none_more = lexer_next_token-work_le p.lexer in
    elim (Bool-cases (at_end (read_next p))) [
      | inl e ↦ ground (arith, e, none_more)
      | inr e ↦
          let kind = token_eq-is_eof (lexer_next_token p.lexer).0.type in
          let less = lexer_next_token-work p.lexer (rw kind at e) in ground (arith, e, less)
    ]

read_next-Forward : (p : Parser) → Forward p (read_next p)
read_next-Forward p =
    let w = read_next-weight p in
    record {
      less = ground (arith, w);
      same = ground (arith, w);
      source = (lexer_next_token-NextToken p.lexer).moves.same_source;
      errors = λ e. e;
    }

pub advanced-Forward : (p : Parser) → Forward p (advanced p)
unfolding advanced
advanced-Forward p =
    Forward-trans p (read_next p) _ (read_next-Forward p) (error_if_invalid-Forward (read_next p))

-- A token that is not the end is consumed.
pub advanced-less : (p : Parser) → at_end p ≡ false → weight (advanced p) < weight p
unfolding advanced
advanced-less p h =
    let w = read_next-weight p in
    let e = error_if_invalid-Forward (read_next p) in ground (arith, w, h, e.less)

work_bound : (l : Lexer) → l.unterminated_comment ≡ false → work l ≤ 2 * length l.source
unfolding work remaining
work_bound l h = rw h (omega arith)

-- The first token of a source leaves at most four times its length, and the token.
pub parser_init-weight :
    (l : Lexer) → l.unterminated_comment ≡ false → weight (parser_init l) ≤ 4 * length l.source + 1
unfolding parser_init error_if_invalid error_at weight
parser_init-weight l h = ground (arith, lexer_next_token-work_le l, work_bound l h)

pub parser_init-source : (l : Lexer) → (parser_init l).lexer.source ≡ l.source
unfolding parser_init error_if_invalid error_at
parser_init-source l = ground (arith, (lexer_next_token-NextToken l).moves.same_source)
