-- ===== src/Parser/Feeds.antt =====
-- The tokens in front of the parser of src/parser, and the helpers on tokens where they are as expected.
use kratos_lang.Prelude.{◌≡◌, refl, ◌∙◌, ap, true, false, Bytes, List, [], ◌∷◌, ◌++◌, some, arith}
use kratos_lang.Lexer.Token.{TokenType, Token}
use kratos_lang.Lexer.Decode.{token_text}
use kratos_lang.Parser.Kinds.{token_eq}
use kratos_lang.Parser.State.{
  Parser, check, match, advanced, advance_token, expect, expect_name, error_if_invalid, error_at,
}
use kratos_lang.Parser.Weight.{advanced-Forward}
use kratos_lang.Parser.Expr.{taken_text}

-- Reading the tokens one after the other leads from the first state to the last.
pub data Feeds (source : Bytes) : Parser → List Token → Parser → Type 0 where
  fed : (p : Parser) → p.lexer.source ≡ source → Feeds source p [] p
  feed :
      (p : Parser) (t : Token) (ts : List Token) (q : Parser)
      → p.lexer.source ≡ source
      → p.current ≡ t
      → Feeds source (advanced p) ts q
      → Feeds source p (t ∷ ts) q

module _ {source : Bytes} where
  pub Feeds-source :
      {p q : Parser} {ts : List Token} → Feeds source p ts q → p.lexer.source ≡ source
  Feeds-source (fed p s) = s
  Feeds-source (feed p t ts q s c f) = s

  -- The state in between.
  pub Feeds-append :
      (ts us : List Token) (p q : Parser)
      → Feeds source p (ts ++ us) q
      → (m : Parser) × Feeds source p ts m × Feeds source m us q
  Feeds-append [] us p q f = (p, fed p (Feeds-source f), f)
  Feeds-append (t ∷ ts) us p q (feed _ _ _ _ s c f) =
      let (m, a, b) = Feeds-append ts us (advanced p) q f in (m, feed p t ts m s c a, b)

  pub fed-end : {p q : Parser} → Feeds source p [] q → q ≡ p
  fed-end (fed p s) = refl

  pub Feeds-cons :
      {p q : Parser} {t : Token} {ts : List Token}
      → Feeds source p (t ∷ ts) q
      → (p.lexer.source ≡ source) × (p.current ≡ t) × Feeds source (advanced p) ts q
  Feeds-cons (feed _ _ _ _ s c f) = (s, c, f)

  last_of :
      {p q : Parser} {u : Token} → Feeds source p (u ∷ []) q → (p.current ≡ u) × (q ≡ advanced p)
  last_of (feed _ _ _ _ s c f) = (c, fed-end f)

  -- The last token, and the state at it.
  pub Feeds-last :
      (ts : List Token) (u : Token) (p q : Parser)
      → Feeds source p (ts ++ (u ∷ [])) q
      → (m : Parser) × Feeds source p ts m × (m.current ≡ u) × (q ≡ advanced m)
  Feeds-last ts u p q f =
      let (m, a, b) = Feeds-append ts (u ∷ []) p q f in (m, a, (last_of b).0, (last_of b).1)

token_eq_refl : (type : TokenType) → token_eq type type ≡ true
token_eq_refl type = ground arith

pub check-kind : (p : Parser) (type : TokenType) → p.current.type ≡ type → check p type ≡ true
check-kind p type e = ap (λ t. token_eq t type) e ∙ token_eq_refl type

pub expect-kind :
    (p : Parser) (type : TokenType)
    → p.current.type ≡ type
    → expect type p ≡ some (p.current, advanced p)
unfolding expect advance_token
expect-kind p type e = rw (check-kind p type e)

pub match-kind :
    (p : Parser) (type : TokenType) → p.current.type ≡ type → match type p ≡ some (true, advanced p)
unfolding match
match-kind p type e = rw (check-kind p type e)

pub match-other :
    (p : Parser) (type : TokenType) → check p type ≡ false → match type p ≡ some (false, p)
unfolding match
match-other p type e = rw e

advanced_previous : (p : Parser) → (advanced p).previous ≡ p.current
unfolding advanced error_if_invalid error_at
advanced_previous p = ground arith

pub taken_text-current :
    (p : Parser) → taken_text p ≡ some (token_text p.lexer.source p.current, advanced p)
unfolding taken_text advance_token
taken_text-current p = rw (advanced_previous p, (advanced-Forward p).source)

pub expect_name-kind :
    (p : Parser) (type : TokenType)
    → p.current.type ≡ type
    → expect_name type p ≡ some (token_text p.lexer.source p.current, advanced p)
unfolding expect_name
expect_name-kind p type e = rw (expect-kind p type e, (advanced-Forward p).source)
