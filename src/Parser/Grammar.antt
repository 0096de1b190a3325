-- ===== src/Parser/Grammar.antt =====
-- The grammar of expressions of docs/specification.md, with the precedence and association of the
-- operators, and the members of records, which it leaves out, as a relation between the tokens of a source and the tree of src/ast/ast.h.
use kratos_lang.Prelude.{ℕ, zero, suc, ◌≡◌, Bool, true, false, Bytes, List, [], ◌∷◌, ◌++◌}
use kratos_lang.Lexer.Token.{
  TokenType, Token, token_identifier, token_integer, token_float, token_string_literal,
  token_char_literal, token_true, token_false, token_lparen, token_rparen, token_lbracket,
  token_rbracket, token_comma, token_dot, token_star, token_slash, token_percent, token_plus,
  token_minus, token_less, token_greater, token_less_equal, token_greater_equal, token_equal,
  token_not_equal, token_and, token_or, token_not,
}
use kratos_lang.Lexer.Decode.{token_text}
use kratos_lang.Ast.{
  AstNode, AstNodeList, nil, cons, literal_int, literal_float, literal_bool, literal_char,
  literal_string, array_literal, call_expr, identifier_expr, index_expr, member_expr, unary_expr,
  binary_expr,
}
use kratos_lang.Parser.Literals.{
  token_to_number_string, strtoll, token_to_string_value, token_to_char_value,
}

-- The binary operators by their precedence, the tightest first: the tokens that the grammar lists at
-- `multiplicative`, `additive`, `comparison`, `equality`, `and_expr` and `or_expr`.
abbrev pub operator_at : ℕ → TokenType → Bool
operator_at zero token_star = true
operator_at zero token_slash = true
operator_at zero token_percent = true
operator_at (suc zero) token_plus = true
operator_at (suc zero) token_minus = true
operator_at (suc (suc zero)) token_less = true
operator_at (suc (suc zero)) token_greater = true
operator_at (suc (suc zero)) token_less_equal = true
operator_at (suc (suc zero)) token_greater_equal = true
operator_at (suc (suc (suc zero))) token_equal = true
operator_at (suc (suc (suc zero))) token_not_equal = true
operator_at (suc (suc (suc (suc zero)))) token_and = true
operator_at (suc (suc (suc (suc (suc zero))))) token_or = true
operator_at _ _ = false

-- The operators in front of an operand, which the grammar lists at `unary`.
abbrev pub prefix : TokenType → Bool
prefix token_not = true
prefix token_minus = true
prefix _ = false

module _ (source : Bytes) where
  -- The text of a token.
  abbrev text : Token → Bytes
  text = token_text source

  mutual
    -- Literals, names, calls, records, arrays and what stands in parentheses.
    pub data Primary : List Token → AstNode → Type 0 where
      integer :
          (t : Token)
          → t.type ≡ token_integer
          → Primary (t ∷ []) (literal_int t.line (strtoll (token_to_number_string (text t))))
      float :
          (t : Token)
          → t.type ≡ token_float
          → Primary (t ∷ []) (literal_float t.line (token_to_number_string (text t)))
      true_word : (t : Token) → t.type ≡ token_true → Primary (t ∷ []) (literal_bool t.line true)
      false_word : (t : Token) → t.type ≡ token_false → Primary (t ∷ []) (literal_bool t.line false)
      character :
          (t : Token)
          → t.type ≡ token_char_literal
          → Primary (t ∷ []) (literal_char t.line (token_to_char_value (text t)))
      string :
          (t : Token)
          → t.type ≡ token_string_literal
          → Primary (t ∷ []) (literal_string t.line (token_to_string_value (text t)))
      name :
          (t : Token)
          → t.type ≡ token_identifier
          → Primary (t ∷ []) (identifier_expr t.line (text t))
      parentheses :
          (t u : Token) (ts : List Token) (e : AstNode)
          → t.type ≡ token_lparen
          → Level 6 ts e
          → u.type ≡ token_rparen
          → Primary (t ∷ (ts ++ (u ∷ []))) e
      array :
          (t u : Token) (ts : List Token) (elements : AstNodeList)
          → t.type ≡ token_lbracket
          → Items ts elements
          → u.type ≡ token_rbracket
          → Primary (t ∷ (ts ++ (u ∷ []))) (array_literal t.line elements)
      call :
          (f t u : Token) (ts : List Token) (arguments : AstNodeList)
          → f.type ≡ token_identifier
          → t.type ≡ token_lparen
          → Items ts arguments
          → u.type ≡ token_rparen
          → Primary (f ∷ t ∷ (ts ++ (u ∷ []))) (call_expr f.line (text f) arguments)

    -- Indices and members behind a primary expression.
    pub data Postfix : List Token → AstNode → Type 0 where
      primary : (ts : List Token) (e : AstNode) → Primary ts e → Postfix ts e
      index :
          (t u : Token) (ts us : List Token) (e i : AstNode)
          → Postfix ts e
          → t.type ≡ token_lbracket
          → Level 6 us i
          → u.type ≡ token_rbracket
          → Postfix (ts ++ (t ∷ (us ++ (u ∷ [])))) (index_expr t.line e i)
      member :
          (t u : Token) (ts : List Token) (e : AstNode)
          → Postfix ts e
          → t.type ≡ token_dot
          → u.type ≡ token_identifier
          → Postfix (ts ++ (t ∷ u ∷ [])) (member_expr t.line e (text u))

    -- Level 0 has the signs in front; above it each level has the binary operators of its precedence, which
    -- associate to the left.
    pub data Level : ℕ → List Token → AstNode → Type 0 where
      postfix : (ts : List Token) (e : AstNode) → Postfix ts e → Level 0 ts e
      sign :
          (t : Token) (ts : List Token) (e : AstNode)
          → prefix t.type ≡ true
          → Level 0 ts e
          → Level 0 (t ∷ ts) (unary_expr t.line t.type e)
      tighter : (h : ℕ) (ts : List Token) (e : AstNode) → Level h ts e → Level (suc h) ts e
      binary :
          (h : ℕ) (t : Token) (ts us : List Token) (l r : AstNode)
          → Level (suc h) ts l
          → operator_at h t.type ≡ true
          → Level h us r
          → Level (suc h) (ts ++ (t ∷ us)) (binary_expr t.line t.type l r)

    -- Expressions with commas between them, up to a closing bracket.
    pub data Items : List Token → AstNodeList → Type 0 where
      no_items : Items [] nil
      some_items : (ts : List Token) (es : AstNodeList) → Comma ts es → Items ts es

    pub data Comma : List Token → AstNodeList → Type 0 where
      one : (ts : List Token) (e : AstNode) → Level 6 ts e → Comma ts (cons e nil)
      more :
          (t : Token) (ts us : List Token) (e : AstNode) (es : AstNodeList)
          → Level 6 ts e
          → t.type ≡ token_comma
          → Comma us es
          → Comma (ts ++ (t ∷ us)) (cons e es)
