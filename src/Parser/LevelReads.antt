-- ===== src/Parser/LevelReads.antt =====
-- Indices, members, signs and binary operators of src/parser/parser.c against the grammar, where the
-- expressions inside brackets are read as the grammar has them.
use kratos_lang.Prelude.{
  ℕ, zero, suc, ◌+◌, ◌≤◌, ◌≡◌, refl, ◌∙◌, sym, ap, Bool, true, false, Bytes, List, [], ◌∷◌, ◌++◌,
  length, length-append, some, arith,
}
use kratos_lang.Lexer.Token.{
  TokenType, Token, token_identifier, token_lbracket, token_rbracket, token_dot,
}
use kratos_lang.Lexer.Decode.{token_text}
use kratos_lang.Ast.{AstNode, index_expr, member_expr, unary_expr, binary_expr}
use kratos_lang.Parser.State.{Parser, P, advanced}
use kratos_lang.Parser.Expr.{
  postfix_of, postfix_loop, parse_postfix, is_unary, parse_unary, binary_loop, binary_level,
  parse_expression, parse_or, parse_and, parse_equality, parse_comparison, parse_additive,
  parse_multiplicative,
}
use kratos_lang.Parser.Grammar.{
  Postfix, Level, primary, index, member, postfix, sign, tighter, binary,
}
use kratos_lang.Parser.Feeds.{
  Feeds, Feeds-append, Feeds-cons, Feeds-last, fed-end, expect-kind, expect_name-kind,
}
use kratos_lang.Parser.Precedence.{test_at, operator_at-test_at}
use kratos_lang.Parser.Follow.{
  prefix-is_unary, name_ends, postfix_ends, stops, operator-stops, Primary-length, Postfix-begins,
  Level-length,
}
use kratos_lang.Parser.Reads.{
  step, branch_true, branch_false, at_kind, advance_token-advanced, kind_of, postfix_of-done,
  begins_primary-is_unary,
}
use kratos_lang.Parser.PrimaryReads.{ExpressionReads, Primary-read}

-- The parser of a level, the expressions inside brackets with the given fuel.
abbrev pub parser_at : ℕ → ℕ → P AstNode
parser_at zero fuel = parse_unary (parse_postfix (parse_expression fuel) fuel) (suc fuel)
parser_at (suc h) fuel = binary_level (test_at h) (parser_at h fuel) (suc fuel)

pub parse_expression-parser_at : (fuel : ℕ) → parse_expression (suc fuel) ≡ parser_at 6 fuel
unfolding parse_expression parse_or parse_and parse_equality parse_comparison parse_additive
    parse_multiplicative
parse_expression-parser_at fuel = refl

positive : (n : ℕ) → 1 ≤ n → (k : ℕ) × (n ≡ suc k)
positive zero h = absurd (omega (arith, h))
positive (suc k) h = (k, refl)

module _ {source : Bytes} (fuel : ℕ) (inner : ExpressionReads source fuel) where
  postfix_loop-done :
      (n : ℕ) (e : AstNode) (q : Parser)
      → 1 ≤ n
      → postfix_ends q.current.type ≡ true
      → postfix_loop (parse_expression fuel) n e q ≡ some (e, q)
  unfolding postfix_loop
  postfix_loop-done zero e q le h = absurd (omega (arith, le))
  postfix_loop-done (suc n) e q le h =
      postfix_of-done (parse_expression fuel) (postfix_loop (parse_expression fuel) n)
        q.current.line e q.current.type q h

  -- One round of the loop.
  index-round :
      (n : ℕ) (t u : Token) (us : List Token) (e i : AstNode) (p q : Parser)
      → p.current ≡ t
      → t.type ≡ token_lbracket
      → Level source 6 us i
      → Feeds source (advanced p) (us ++ (u ∷ [])) q
      → u.type ≡ token_rbracket
      → length us ≤ fuel
      → postfix_loop (parse_expression fuel) (suc n) e p
        ≡ postfix_loop (parse_expression fuel) n (index_expr t.line e i) q
  unfolding postfix_loop postfix_of
  index-round n t u us e i p q c k d f l le =
      let again = postfix_loop (parse_expression fuel) n in
      let (m, a, cu, last) = Feeds-last us u (advanced p) q f in
      let closing = kind_of m cu l in
      at_kind (postfix_of (parse_expression fuel) again p.current.line e) p (kind_of p c k) (
        step _ (advance_token-advanced p) (
          step _ (inner us i (advanced p) m d a (ap (stops 6) closing) le) (
            step _ (expect-kind m token_rbracket closing) (
              ap (λ (x : Token). again (index_expr x.line e i) (advanced m)) c
              ∙ ap (again (index_expr t.line e i)) (sym last)))))

  member-round :
      (n : ℕ) (t u : Token) (e : AstNode) (p q : Parser)
      → p.current ≡ t
      → t.type ≡ token_dot
      → Feeds source (advanced p) (u ∷ []) q
      → u.type ≡ token_identifier
      → postfix_loop (parse_expression fuel) (suc n) e p
        ≡ postfix_loop (parse_expression fuel) n (member_expr t.line e (token_text source u)) q
  unfolding postfix_loop postfix_of
  member-round n t u e p q c k f l =
      let again = postfix_loop (parse_expression fuel) n in
      let (s, cu, rest) = Feeds-cons f in
      let m = advanced p in
      at_kind (postfix_of (parse_expression fuel) again p.current.line e) p (kind_of p c k) (
        step _ (advance_token-advanced p) (
          step _ (expect_name-kind m token_identifier (kind_of m cu l)) (
            ap
              (λ source.
                again (member_expr p.current.line e (token_text source m.current)) (advanced m))
              s
            ∙ ap
                (λ (x : Token).
                  again (member_expr p.current.line e (token_text source x)) (advanced m))
                cu
            ∙ ap (λ (x : Token). again (member_expr x.line e (token_text source u)) (advanced m)) c
            ∙ ap (again (member_expr t.line e (token_text source u))) (sym (fed-end rest)))))

  -- Where the tokens of a postfix expression are read, its loop goes on.
  Postfix-read :
      (ts : List Token) (e : AstNode) (p q : Parser)
      → Postfix source ts e
      → Feeds source p ts q
      → name_ends q.current.type ≡ true
      → length ts ≤ suc fuel
      → (n : ℕ) × (suc (suc fuel) ≤ n + length ts)
        × (parse_postfix (parse_expression fuel) fuel p
            ≡ postfix_loop (parse_expression fuel) n e q)
  unfolding parse_postfix
  Postfix-read ts e p q (primary _ _ d) f h le = (
    suc fuel,
    omega (arith, Primary-length d),
    step _ (Primary-read fuel inner ts e p q d f h le) refl,
  )
  Postfix-read _ _ p q (index t u ts us e i d k l o) f h le =
      let size = length-append ts (t ∷ (us ++ (u ∷ []))) in
      let inside = length-append us (u ∷ []) in
      let (m, a, b) = Feeds-append ts (t ∷ (us ++ (u ∷ []))) p q f in
      let (s, c, rest) = Feeds-cons b in
      let before = ap name_ends (kind_of m c k) in
      let (n, enough, read) = Postfix-read ts e p m d a before (omega (arith, le, size)) in
      let (j, same) = positive n (omega (arith, le, size, enough)) in
      (
        j,
        omega (arith, enough, same, size),
        read
            ∙ ap (λ n. postfix_loop (parse_expression fuel) n e m) same
            ∙ index-round j t u us e i m q c k l rest o (omega (arith, le, size, inside)),
      )
  Postfix-read _ _ p q (member t u ts e d k o) f h le =
      let size = length-append ts (t ∷ u ∷ []) in
      let (m, a, b) = Feeds-append ts (t ∷ u ∷ []) p q f in
      let (s, c, rest) = Feeds-cons b in
      let before = ap name_ends (kind_of m c k) in
      let (n, enough, read) = Postfix-read ts e p m d a before (omega (arith, le, size)) in
      let (j, same) = positive n (omega (arith, le, size, enough)) in
      (
        j,
        omega (arith, enough, same, size),
        read
            ∙ ap (λ n. postfix_loop (parse_expression fuel) n e m) same
            ∙ member-round j t u e m q c k rest o,
      )

  -- The signs, with fuel for each.
  unary-read :
      (depth : ℕ) (ts : List Token) (e : AstNode) (p q : Parser)
      → Level source 0 ts e
      → Feeds source p ts q
      → postfix_ends q.current.type ≡ true
      → length ts ≤ suc fuel
      → length ts ≤ depth
      → parse_unary (parse_postfix (parse_expression fuel) fuel) depth p ≡ some (e, q)
  unfolding parse_unary
  unary-read zero ts e p q d f h le lt = absurd (omega (arith, Level-length d, lt))
  unary-read (suc depth) ts e p q (postfix _ _ d) f h le lt =
      let (n, enough, read) = Postfix-read ts e p q d f (ground (arith, h)) le in
      branch_false _ _ p (begins_primary-is_unary p.current.type (Postfix-begins d f))
        (read ∙ postfix_loop-done n e q (omega (arith, le, enough)) h)
  unary-read (suc depth) _ _ p q (sign t ts e k d) f h le lt =
      let (s, c, rest) = Feeds-cons f in
      let accepted = ap (λ (x : Token). is_unary x.type) c ∙ (sym (prefix-is_unary t.type) ∙ k) in
      branch_true _ _ p accepted (
        step _ (advance_token-advanced p) (
          step _
            (unary-read depth ts e (advanced p) q d rest h (omega (arith, le)) (omega (arith, lt)))
            (ap (λ (x : Token). some (unary_expr x.line x.type e, q)) c)))

  -- One round of the loop of a level.
  binary-round :
      (h n : ℕ) (t : Token) (l r : AstNode) (p q : Parser)
      → p.current ≡ t
      → test_at h t.type ≡ true
      → parser_at h fuel (advanced p) ≡ some (r, q)
      → binary_loop (test_at h) (parser_at h fuel) (suc n) l p
        ≡ binary_loop (test_at h) (parser_at h fuel) n (binary_expr t.line t.type l r) q
  unfolding binary_loop
  binary-round h n t l r p q c k read =
      branch_true _ _ p (ap (λ (x : Token). test_at h x.type) c ∙ k) (
        step _ (advance_token-advanced p) (
          step _ read (
            ap
              (λ (x : Token).
                binary_loop (test_at h) (parser_at h fuel) n (binary_expr x.line x.type l r) q)
              c)))

  binary_loop-done :
      (h n : ℕ) (e : AstNode) (q : Parser)
      → 1 ≤ n
      → test_at h q.current.type ≡ false
      → binary_loop (test_at h) (parser_at h fuel) n e q ≡ some (e, q)
  unfolding binary_loop
  binary_loop-done h zero e q le k = absurd (omega (arith, le))
  binary_loop-done h (suc n) e q le k = branch_false _ _ q k refl

  -- What reading an expression of a level comes to: level 0 gives it, and the loop of another level goes
  -- on. The token that may follow.
  abbrev Result : ℕ → ℕ → AstNode → Parser → Parser → Type 0
  Result zero size e p q = parser_at zero fuel p ≡ some (e, q)
  Result (suc h) size e p q =
      (n : ℕ) × (suc (suc fuel) ≤ n + size)
      × (parser_at (suc h) fuel p ≡ binary_loop (test_at h) (parser_at h fuel) n e q)

  abbrev goes_on : ℕ → TokenType → Bool
  goes_on zero = stops zero
  goes_on (suc h) = stops h

  stops-goes_on : (h : ℕ) (type : TokenType) → stops h type ≡ true → goes_on h type ≡ true
  stops-goes_on zero type k = k
  stops-goes_on (suc h) type k = ground (arith, k)

  level-done :
      (h size : ℕ) (e : AstNode) (p q : Parser)
      → Result h size e p q
      → stops h q.current.type ≡ true
      → size ≤ suc fuel
      → parser_at h fuel p ≡ some (e, q)
  level-done zero size e p q r k le = r
  level-done (suc h) size e p q (n, enough, read) k le =
      read
      ∙ binary_loop-done h n e q (omega (arith, le, enough))
          (sym (operator_at-test_at h q.current.type) ∙ ground (arith, k))

  Level-read :
      (h : ℕ) (ts : List Token) (e : AstNode) (p q : Parser)
      → Level source h ts e
      → Feeds source p ts q
      → goes_on h q.current.type ≡ true
      → length ts ≤ suc fuel
      → Result h (length ts) e p q
  unfolding binary_level
  Level-read _ ts e p q (postfix _ _ d) f k le =
      unary-read (suc fuel) ts e p q (postfix ts e d) f k le le
  Level-read _ _ _ p q (sign t ts e o d) f k le =
      unary-read (suc fuel) (t ∷ ts) _ p q (sign t ts e o d) f k le le
  Level-read _ ts e p q (tighter h _ _ d) f k le =
      let r = Level-read h ts e p q d f (stops-goes_on h q.current.type k) le in
      (suc fuel, omega (arith, Level-length d), step _ (level-done h (length ts) e p q r k le) refl)
  Level-read _ _ _ p q (binary h t ts us l r d o dr) f k le =
      let size = length-append ts (t ∷ us) in
      let (m, a, b) = Feeds-append ts (t ∷ us) p q f in
      let (s, c, rest) = Feeds-cons b in
      let before = ap (λ (x : Token). stops h x.type) c ∙ operator-stops h t.type o in
      let small : length us ≤ suc fuel = omega (arith, le, size) in
      let right =
        Level-read h us r (advanced m) q dr rest (stops-goes_on h q.current.type k) small in
      let (n, enough, read) = Level-read (suc h) ts l p m d a before (omega (arith, le, size)) in
      let (j, same) = positive n (omega (arith, le, size, enough)) in
      (
        j,
        omega (arith, enough, same, size),
        read
            ∙ ap (λ n. binary_loop (test_at h) (parser_at h fuel) n l m) same
            ∙ binary-round h j t l r m q c (sym (operator_at-test_at h t.type) ∙ o)
                (level-done h (length us) r (advanced m) q right k small),
      )

  -- An expression of a level, where a token follows that ends it.
  pub parser_at-read :
      (h : ℕ) (ts : List Token) (e : AstNode) (p q : Parser)
      → Level source h ts e
      → Feeds source p ts q
      → stops h q.current.type ≡ true
      → length ts ≤ suc fuel
      → parser_at h fuel p ≡ some (e, q)
  parser_at-read h ts e p q d f k le =
      level-done h (length ts) e p q
        (Level-read h ts e p q d f (stops-goes_on h q.current.type k) le) k le
