-- ===== src/Parser/Follow.antt =====
-- What may follow an expression of the grammar of docs/specification.md, and how it begins.
use kratos_lang.Prelude.{
  ℕ, zero, suc, ◌≤◌, ◌≡◌, refl, sym, ◌∙◌, ap, Bool, true, false, not, ◌&&◌, ◌||◌, Bytes, List, [],
  ◌∷◌, ◌++◌, length, length-append, arith,
}
use kratos_lang.Lexer.Token.{
  TokenType, Token, token_identifier, token_integer, token_float, token_string_literal,
  token_char_literal, token_true, token_false, token_lparen, token_lbrace, token_lbracket,
  token_dot, token_star, token_slash, token_percent, token_plus, token_minus, token_less,
  token_greater, token_less_equal, token_greater_equal, token_equal, token_not_equal, token_and,
  token_or, token_not,
}
use kratos_lang.Ast.{AstNode, AstNodeList}
use kratos_lang.Parser.Kinds.{token_eq}
use kratos_lang.Parser.State.{Parser}
use kratos_lang.Parser.Expr.{is_unary}
use kratos_lang.Parser.Grammar.{
  operator_at, prefix, Primary, Postfix, Level, Comma, integer, float, true_word, false_word,
  character, string, name, parentheses, array, call, primary, index, member, postfix, sign, tighter,
  binary, one, more,
}
use kratos_lang.Parser.Feeds.{Feeds, feed, Feeds-append}

-- A name is not followed by what makes it a call or a record.
abbrev pub name_ends : TokenType → Bool
name_ends type = not (token_eq type token_lparen) && not (token_eq type token_lbrace)

abbrev pub postfix_ends : TokenType → Bool
postfix_ends type =
    name_ends type && not (token_eq type token_lbracket) && not (token_eq type token_dot)

-- A token that ends an expression of the level: no operator of a tighter one, and no bracket or dot.
abbrev pub stops : ℕ → TokenType → Bool
stops zero type = postfix_ends type
stops (suc h) type = not (operator_at h type) && stops h type

-- An operator ends the tighter expression in front of it.
pub operator-stops : (h : ℕ) (type : TokenType) → operator_at h type ≡ true → stops h type ≡ true
operator-stops zero token_star e = refl
operator-stops zero token_slash e = refl
operator-stops zero token_percent e = refl
operator-stops (suc zero) token_plus e = refl
operator-stops (suc zero) token_minus e = refl
operator-stops (suc (suc zero)) token_less e = refl
operator-stops (suc (suc zero)) token_greater e = refl
operator-stops (suc (suc zero)) token_less_equal e = refl
operator-stops (suc (suc zero)) token_greater_equal e = refl
operator-stops (suc (suc (suc zero))) token_equal e = refl
operator-stops (suc (suc (suc zero))) token_not_equal e = refl
operator-stops (suc (suc (suc (suc zero)))) token_and e = refl
operator-stops (suc (suc (suc (suc (suc zero))))) token_or e = refl
operator-stops _ _ e = absurd (ground (arith, e))

-- The parser's tests for a prefix.
pub prefix-is_unary : (type : TokenType) → prefix type ≡ is_unary type
prefix-is_unary token_not = refl
prefix-is_unary token_minus = refl
prefix-is_unary _ = refl

-- The first token of a primary expression, of any expression.
abbrev pub begins_primary : TokenType → Bool
begins_primary token_integer = true
begins_primary token_float = true
begins_primary token_true = true
begins_primary token_false = true
begins_primary token_char_literal = true
begins_primary token_string_literal = true
begins_primary token_identifier = true
begins_primary token_lparen = true
begins_primary token_lbracket = true
begins_primary _ = false

abbrev pub begins : TokenType → Bool
begins type = begins_primary type || is_unary type

first_kind :
    (p : Parser) (t : Token) (type : TokenType)
    → p.current ≡ t
    → t.type ≡ type
    → p.current.type ≡ type
first_kind p t type c e = ap (λ (x : Token). x.type) c ∙ e

begun :
    (p : Parser) (t : Token) (type : TokenType)
    → p.current ≡ t
    → t.type ≡ type
    → begins_primary type ≡ true
    → begins_primary p.current.type ≡ true
begun p t type c e h = ap begins_primary (first_kind p t type c e) ∙ h

module _ {source : Bytes} where
  pub Primary-begins :
      {ts : List Token} {e : AstNode} {p q : Parser}
      → Primary source ts e
      → Feeds source p ts q
      → begins_primary p.current.type ≡ true
  Primary-begins (integer t k) (feed p _ _ _ _ c _) = begun p t _ c k refl
  Primary-begins (float t k) (feed p _ _ _ _ c _) = begun p t _ c k refl
  Primary-begins (true_word t k) (feed p _ _ _ _ c _) = begun p t _ c k refl
  Primary-begins (false_word t k) (feed p _ _ _ _ c _) = begun p t _ c k refl
  Primary-begins (character t k) (feed p _ _ _ _ c _) = begun p t _ c k refl
  Primary-begins (string t k) (feed p _ _ _ _ c _) = begun p t _ c k refl
  Primary-begins (name t k) (feed p _ _ _ _ c _) = begun p t _ c k refl
  Primary-begins (parentheses t u ts e k _ _) (feed p _ _ _ _ c _) = begun p t _ c k refl
  Primary-begins (array t u ts es k _ _) (feed p _ _ _ _ c _) = begun p t _ c k refl
  Primary-begins (call f t u ts es k _ _ _) (feed p _ _ _ _ c _) = begun p f _ c k refl

  pub Postfix-begins :
      {ts : List Token} {e : AstNode} {p q : Parser}
      → Postfix source ts e
      → Feeds source p ts q
      → begins_primary p.current.type ≡ true
  Postfix-begins (primary ts e d) f = Primary-begins d f
  Postfix-begins {p = p} {q = q} (index t u ts us e i d k l m) f =
      Postfix-begins d (Feeds-append ts _ p q f).1
  Postfix-begins {p = p} {q = q} (member t u ts e d k m) f =
      Postfix-begins d (Feeds-append ts _ p q f).1

  pub Level-begins :
      {h : ℕ} {ts : List Token} {e : AstNode} {p q : Parser}
      → Level source h ts e
      → Feeds source p ts q
      → begins p.current.type ≡ true
  Level-begins (postfix ts e d) f = ground (arith, Postfix-begins d f)
  Level-begins (sign t ts e k d) (feed p _ _ _ _ c _) =
      ground (arith, ap (λ (x : Token). is_unary x.type) c, sym (prefix-is_unary _), k)
  Level-begins (tighter h ts e d) f = Level-begins d f
  Level-begins {p = p} {q = q} (binary h t ts us l r d k dr) f =
      Level-begins d (Feeds-append ts _ p q f).1

  pub Comma-begins :
      {ts : List Token} {es : AstNodeList} {p q : Parser}
      → Comma source ts es
      → Feeds source p ts q
      → begins p.current.type ≡ true
  Comma-begins (one ts e d) f = Level-begins d f
  Comma-begins {p = p} {q = q} (more t ts us e es d k c) f =
      Level-begins d (Feeds-append ts _ p q f).1

  -- No expression is empty.
  pub Primary-length : {ts : List Token} {e : AstNode} → Primary source ts e → 1 ≤ length ts
  Primary-length (integer t k) = omega arith
  Primary-length (float t k) = omega arith
  Primary-length (true_word t k) = omega arith
  Primary-length (false_word t k) = omega arith
  Primary-length (character t k) = omega arith
  Primary-length (string t k) = omega arith
  Primary-length (name t k) = omega arith
  Primary-length (parentheses t u ts e k _ _) = omega arith
  Primary-length (array t u ts es k _ _) = omega arith
  Primary-length (call f t u ts es k _ _ _) = omega arith

  pub Postfix-length : {ts : List Token} {e : AstNode} → Postfix source ts e → 1 ≤ length ts
  Postfix-length (primary ts e d) = Primary-length d
  Postfix-length (index t u ts us e i d k l m) =
      omega (arith, Postfix-length d, length-append ts (t ∷ (us ++ (u ∷ []))))
  Postfix-length (member t u ts e d k m) =
      omega (arith, Postfix-length d, length-append ts (t ∷ u ∷ []))

  pub Level-length : {h : ℕ} {ts : List Token} {e : AstNode} → Level source h ts e → 1 ≤ length ts
  Level-length (postfix ts e d) = Postfix-length d
  Level-length (sign t ts e k d) = omega arith
  Level-length (tighter h ts e d) = Level-length d
  Level-length (binary h t ts us l r d k dr) =
      omega (arith, Level-length d, length-append ts (t ∷ us))

  pub Comma-length : {ts : List Token} {es : AstNodeList} → Comma source ts es → 1 ≤ length ts
  Comma-length (one ts e d) = Level-length d
  Comma-length (more t ts us e es d k c) = omega (arith, Level-length d, length-append ts (t ∷ us))
