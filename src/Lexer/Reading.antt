-- ===== src/Lexer/Reading.antt =====
-- One round of the loop of `dump_tokens` in src/main.c, taken apart.
use kratos_lang.Prelude.{
  ℕ, suc, ◌≡◌, ◌⊎◌, inl, inr, true, false, some, List, [], ◌∷◌, arith, Bool-cases, Option-cases,
}
use kratos_lang.Lexer.Token.{Lexer, Token}
use kratos_lang.Lexer.Next.{lexer_next_token, is_eof, read_tokens}

-- The round reads the last token, or a token and the rest of the list.
pub read_tokens-cases :
    (fuel : ℕ) (l : Lexer) (ts : List Token)
    → read_tokens (suc fuel) l ≡ some ts
    → ((is_eof (lexer_next_token l).0.type ≡ true) × (ts ≡ (lexer_next_token l).0 ∷ []))
      ⊎ ((rest : List Token) × (is_eof (lexer_next_token l).0.type ≡ false)
          × (read_tokens fuel (lexer_next_token l).1 ≡ some rest)
          × (ts ≡ (lexer_next_token l).0 ∷ rest))
unfolding read_tokens
read_tokens-cases fuel l ts h = elim (Bool-cases (is_eof (lexer_next_token l).0.type)) [
  | inl e ↦ inl (e, ground arith)
  | inr e ↦ elim (Option-cases (read_tokens fuel (lexer_next_token l).1)) [
    | inl out ↦ absurd (ground arith)
    | inr (rest, r) ↦ inr (rest, e, r, ground arith)
  ]
]
