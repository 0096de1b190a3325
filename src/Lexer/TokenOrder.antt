-- ===== src/Lexer/TokenOrder.antt =====
-- The tokens of a source stand in it in order and do not overlap.
use kratos_lang.Prelude.{
  ℕ, zero, suc, ◌+◌, ◌≤◌, ◌≡◌, refl, ap, inl, inr, true, false, Bytes, [], ◌∷◌, length, arith, some,
  List, ◌⊎◌,
}
use kratos_lang.Lexer.Token.{Lexer, Token, token_error, diag_k101}
use kratos_lang.Lexer.Next.{lexer_init, lexer_next_token, is_eof, read_tokens, dump_tokens}
use kratos_lang.Lexer.Reading.{read_tokens-cases}
use kratos_lang.Lexer.Progress.{OpenComment, lexer_next_token-NextToken}

-- The tokens of a list end with the only `token_eof`, and each takes up bytes of a source of `size`
-- bytes behind those of the token in front of it, from byte `from` on. K101 stands for no byte: it
-- has length 1, at a place up to the end of the source, and the tokens behind it start there.
pub data InOrder (size : ℕ) : ℕ → List Token → Type 0 where
  last :
      {from : ℕ} {token : Token}
      → is_eof token.type ≡ true
      → from ≤ token.start
      → token.start + token.length ≤ size
      → InOrder size from (token ∷ [])
  before :
      {from : ℕ} {token : Token} {tokens : List Token}
      → is_eof token.type ≡ false
      → from ≤ token.start
      → token.start + token.length ≤ size
      → InOrder size (token.start + token.length) tokens
      → InOrder size from (token ∷ tokens)
  open_comment :
      {from : ℕ} {token : Token} {tokens : List Token}
      → token.type ≡ token_error
      → token.error_code ≡ diag_k101
      → token.length ≡ 1
      → from ≤ token.start
      → token.start ≤ size
      → InOrder size token.start tokens
      → InOrder size from (token ∷ tokens)

-- The last token is no report.
last_token :
    {size from position : ℕ} (token : Token)
    → is_eof token.type ≡ true
    → (token.start + token.length ≤ position) ⊎ OpenComment token position
    → from ≤ token.start
    → position ≤ size
    → InOrder size from (token ∷ [])
last_token token end (inl h) p q = last end p (omega (arith, h, q))
last_token token end (inr k) p q = absurd (ground (arith, ap is_eof k.refused, end))

-- A token in front of others, which start where it ends.
further :
    {size from position : ℕ} {tokens : List Token} (token : Token)
    → is_eof token.type ≡ false
    → (token.start + token.length ≤ position) ⊎ OpenComment token position
    → from ≤ token.start
    → position ≤ size
    → ((to : ℕ) → to ≤ position → InOrder size to tokens)
    → InOrder size from (token ∷ tokens)
further token more (inl h) p q tail = before more p (omega (arith, h, q)) (tail _ h)
further {position = position} token more (inr k) p q tail =
    let at_end : token.start ≤ position = omega (arith, k.start) in
    open_comment k.refused k.code k.length p (omega (arith, k.start, q)) (tail token.start at_end)

read_tokens-InOrder :
    (size fuel from : ℕ) (l : Lexer) (ts : List Token)
    → length l.source ≡ size
    → from ≤ l.position
    → l.position ≤ size
    → read_tokens fuel l ≡ some ts
    → InOrder size from ts
unfolding read_tokens
read_tokens-InOrder size zero from l ts z p q e = cc
read_tokens-InOrder size (suc fuel) from l ts z p q e =
    let r = lexer_next_token-NextToken l in
    let same = ap length r.moves.same_source in
    let next = (lexer_next_token l).1 in
    let inside : next.position ≤ size = omega (arith, r.moves.bounded) in
    elim (read_tokens-cases fuel l ts e) [
      | inl (end, only) ↦
          rw only (last_token (lexer_next_token l).0 end r.ends (omega (arith, r.starts)) inside)
      | inr (rest, more, read, cons) ↦ rw cons (
          further (lexer_next_token l).0 more r.ends (omega (arith, r.starts)) inside
            (λ to h. read_tokens-InOrder size fuel to next rest (omega arith) h inside read))
    ]

-- The tokens of a source are in order, do not overlap, and end with the only `token_eof`. Each lies in
-- the source, but for K101, the report of a comment that is not closed: it has length 1, at a place up to
-- the end of the source, and the tokens behind it start there or later.
pub dump_tokens-InOrder :
    (source : Bytes) (ts : List Token) → dump_tokens source ≡ some ts → InOrder (length source) 0 ts
unfolding dump_tokens lexer_init
dump_tokens-InOrder source ts e =
    read_tokens-InOrder (length source) _ 0 (lexer_init source) ts refl (omega arith) (omega arith)
      e
