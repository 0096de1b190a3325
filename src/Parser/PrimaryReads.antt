-- ===== src/Parser/PrimaryReads.antt =====
-- The brackets and the primary expressions of src/parser/parser.c against the grammar, where the
-- expressions inside are read as the grammar has them.
use kratos_lang.Prelude.{
  ℕ, zero, suc, ◌≤◌, ◌≡◌, refl, ◌∙◌, sym, ap, true, false, Bytes, List, [], ◌∷◌, length,
  length-append, Option, some, arith,
}
use kratos_lang.Lexer.Token.{TokenType, Token, token_rparen, token_rbracket, token_comma}
use kratos_lang.Lexer.Decode.{token_text}
use kratos_lang.Ast.{
  AstNode, AstNodeList, nil, literal_int, literal_float, literal_bool, literal_char, literal_string,
  array_literal, call_expr, identifier_expr,
}
use kratos_lang.Parser.Kinds.{token_eq}
use kratos_lang.Parser.State.{Parser, P, ◌>>=◌, ◌>>◌, pure, get, advanced, advance_token}
use kratos_lang.Parser.Expr.{
  taken_text, comma_list, list_until, after_name, primary_of, parse_primary, parse_expression,
}
use kratos_lang.Parser.Literals.{
  token_to_number_string, strtoll, token_to_string_value, token_to_char_value,
}
use kratos_lang.Parser.Grammar.{
  Primary, Level, Items, Comma, integer, float, true_word, false_word, character, string, name,
  parentheses, array, call, no_items, some_items, one, more,
}
use kratos_lang.Parser.Feeds.{
  Feeds, Feeds-append, Feeds-cons, Feeds-last, fed-end, check-kind, expect-kind, match-kind,
  match-other, taken_text-current,
}
use kratos_lang.Parser.Follow.{name_ends, stops, Comma-begins, Comma-length, Level-length}
use kratos_lang.Parser.Reads.{
  step, branch_true, branch_false, at_kind, advance_token-advanced, kind_of, after_name-alone,
  Closes, rparen-Closes, rbracket-Closes,
}

-- Expressions of at most `fuel` tokens are read as the grammar has them.
abbrev pub ExpressionReads : Bytes → ℕ → Type 0
ExpressionReads source fuel =
    (ts : List Token) (e : AstNode) (p q : Parser)
    → Level source 6 ts e
    → Feeds source p ts q
    → stops 6 q.current.type ≡ true
    → length ts ≤ fuel
    → parse_expression fuel p ≡ some (e, q)

word-read :
    (p q : Parser) (t : Token) (make : Token → AstNode)
    → p.current ≡ t
    → q ≡ advanced p
    → (advance_token >> pure (make p.current)) p ≡ some (make t, q)
word-read p q t make c e =
    step _ (advance_token-advanced p) (ap (λ (x : Token). some (make x, advanced p)) c)
    ∙ ap (λ q. some (make t, q)) (sym e)

module _ (source : Bytes) where
  abbrev text : Token → Bytes
  text = token_text source

  literal-read :
      (p q : Parser) (t : Token) (make : Token → Bytes → AstNode)
      → p.lexer.source ≡ source
      → p.current ≡ t
      → q ≡ advanced p
      → (taken_text >>= λ text. pure (make p.current text)) p ≡ some (make t (text t), q)
  literal-read p q t make s c e =
      step _ (taken_text-current p) (
        ap (λ source. some (make p.current (token_text source p.current), advanced p)) s
        ∙ ap (λ (x : Token). some (make x (text x), advanced p)) c)
      ∙ ap (λ q. some (make t (text t), q)) (sym e)

  name-read :
      (expression : P AstNode) (fuel : ℕ) (p q : Parser) (t : Token)
      → p.lexer.source ≡ source
      → p.current ≡ t
      → q ≡ advanced p
      → name_ends q.current.type ≡ true
      → (taken_text >>= λ name.
            get >>= λ next. after_name expression fuel p.current.line name next.current.type)
          p
        ≡ some (identifier_expr t.line (text t), q)
  name-read expression fuel p q t s c e h =
      step _ (taken_text-current p) (
        after_name-alone expression fuel p.current.line _ (advanced p).current.type (advanced p)
          (ap (λ (x : Parser). name_ends x.current.type) (sym e) ∙ h)
        ∙ ap
            (λ source.
              some (identifier_expr p.current.line (token_text source p.current), advanced p))
            s
        ∙ ap (λ (x : Token). some (identifier_expr x.line (text x), advanced p)) c)
      ∙ ap (λ q. some (identifier_expr t.line (text t), q)) (sym e)

module _ {source : Bytes} (fuel : ℕ) (inner : ExpressionReads source fuel) where
  Comma-read :
      (n : ℕ) (ts : List Token) (es : AstNodeList) (p q : Parser) (closing : TokenType)
      → Closes closing
      → Comma source ts es
      → Feeds source p ts q
      → q.current.type ≡ closing
      → length ts ≤ fuel
      → length ts ≤ n
      → comma_list (parse_expression fuel) n p ≡ some (es, q)
  unfolding comma_list
  Comma-read zero ts es p q closing r d f h le lt = absurd (omega (arith, Comma-length d, lt))
  Comma-read (suc n) ts _ p q closing r (one _ e d) f h le lt =
      let ends = ap (stops 6) h ∙ r.ends in
      let other = ap (λ type. token_eq type token_comma) h ∙ r.no_comma in
      step _ (inner ts e p q d f ends le) (step _ (match-other q token_comma other) refl)
  Comma-read (suc n) _ _ p q closing r (more t ts us e es d k ds) f h le lt =
      let (m, a, b) = Feeds-append ts (t ∷ us) p q f in
      let (s, c, rest) = Feeds-cons b in
      let comma = kind_of m c k in
      step _
        (inner ts e p m d a (ap (stops 6) comma) (omega (arith, le, length-append ts (t ∷ us))))
        (step _ (match-kind m token_comma comma) (
          step _
            (Comma-read n us es (advanced m) q closing r ds rest h
              (omega (arith, le, length-append ts (t ∷ us)))
              (omega (arith, lt, length-append ts (t ∷ us), Level-length d)))
            refl))

  list_until-read :
      (ts : List Token) (es : AstNodeList) (p m : Parser) (closing : TokenType)
      → Closes closing
      → Items source ts es
      → Feeds source p ts m
      → m.current.type ≡ closing
      → length ts ≤ fuel
      → list_until closing (parse_expression fuel) fuel p ≡ some (es, advanced m)
  unfolding list_until
  list_until-read ts es p m closing r no_items f h le =
      let same = fed-end f in
      let ends = ap (λ (x : Parser). x.current.type) (sym same) ∙ h in
      step _ (branch_true _ _ p (check-kind p closing ends) refl)
        (step _ (expect-kind p closing ends) (ap (λ m. some (nil, advanced m)) (sym same)))
  list_until-read ts es p m closing r (some_items _ _ d) f h le =
      let begun = r.no_begin p.current.type (Comma-begins d f) in
      step _ (branch_false _ _ p begun (Comma-read fuel ts es p m closing r d f h le le))
        (step _ (expect-kind m closing h) refl)

  at_primary :
      (p : Parser) {known : TokenType} {r : Option (AstNode × Parser)}
      → p.current.type ≡ known
      → primary_of (parse_expression fuel) fuel p.current.line known p ≡ r
      → parse_primary (parse_expression fuel) fuel p ≡ r
  unfolding parse_primary
  at_primary p k h = at_kind (primary_of (parse_expression fuel) fuel p.current.line) p k h

  -- A primary expression is read as the grammar has it.
  pub Primary-read :
      (ts : List Token) (e : AstNode) (p q : Parser)
      → Primary source ts e
      → Feeds source p ts q
      → name_ends q.current.type ≡ true
      → length ts ≤ suc fuel
      → parse_primary (parse_expression fuel) fuel p ≡ some (e, q)
  unfolding parse_primary primary_of after_name
  Primary-read _ _ p q (integer t k) f h le =
      let (s, c, e) = Feeds-cons f in
      at_primary p (kind_of p c k) (
        literal-read source p q t
          (λ t text. literal_int t.line (strtoll (token_to_number_string text))) s c (fed-end e))
  Primary-read _ _ p q (float t k) f h le =
      let (s, c, e) = Feeds-cons f in
      at_primary p (kind_of p c k) (
        literal-read source p q t (λ t text. literal_float t.line (token_to_number_string text)) s c
          (fed-end e))
  Primary-read _ _ p q (true_word t k) f h le =
      let (s, c, e) = Feeds-cons f in
      at_primary p (kind_of p c k) (word-read p q t (λ t. literal_bool t.line true) c (fed-end e))
  Primary-read _ _ p q (false_word t k) f h le =
      let (s, c, e) = Feeds-cons f in
      at_primary p (kind_of p c k) (word-read p q t (λ t. literal_bool t.line false) c (fed-end e))
  Primary-read _ _ p q (character t k) f h le =
      let (s, c, e) = Feeds-cons f in
      at_primary p (kind_of p c k) (
        literal-read source p q t (λ t text. literal_char t.line (token_to_char_value text)) s c
          (fed-end e))
  Primary-read _ _ p q (string t k) f h le =
      let (s, c, e) = Feeds-cons f in
      at_primary p (kind_of p c k) (
        literal-read source p q t (λ t text. literal_string t.line (token_to_string_value text)) s c
          (fed-end e))
  Primary-read _ _ p q (name t k) f h le =
      let (s, c, e) = Feeds-cons f in
      at_primary p (kind_of p c k)
        (name-read source (parse_expression fuel) fuel p q t s c (fed-end e) h)
  Primary-read _ _ p q (parentheses t u ts e k d l) f h le =
      let (s, c, rest) = Feeds-cons f in
      let (m, a, cu, last) = Feeds-last ts u (advanced p) q rest in
      let closing = kind_of m cu l in
      let bound : length ts ≤ fuel = omega (arith, le, length-append ts (u ∷ [])) in
      at_primary p (kind_of p c k) (
        step _ (advance_token-advanced p) (
          step _ (inner ts e (advanced p) m d a (ap (stops 6) closing) bound)
            (step _ (expect-kind m token_rparen closing) (ap (λ q. some (e, q)) (sym last)))))
  Primary-read _ _ p q (array t u ts es k d l) f h le =
      let (s, c, rest) = Feeds-cons f in
      let (m, a, cu, last) = Feeds-last ts u (advanced p) q rest in
      let bound : length ts ≤ fuel = omega (arith, le, length-append ts (u ∷ [])) in
      at_primary p (kind_of p c k) (
        step _ (advance_token-advanced p) (
          step _
            (list_until-read ts es (advanced p) m token_rbracket rbracket-Closes d a
              (kind_of m cu l) bound)
            (ap (λ (t : Token). some (array_literal t.line es, advanced m)) c
              ∙ ap (λ q. some (array_literal t.line es, q)) (sym last))))
  Primary-read _ _ p q (call n t u ts es k l d o) f h le =
      let (s, c, behind) = Feeds-cons f in
      let (s2, c2, rest) = Feeds-cons behind in
      let (m, a, cu, last) = Feeds-last ts u (advanced (advanced p)) q rest in
      let bound : length ts ≤ fuel = omega (arith, le, length-append ts (u ∷ [])) in
      let line = p.current.line in
      at_primary p (kind_of p c k) (
        step _ (taken_text-current p) (
          at_kind
            (λ type.
              after_name (parse_expression fuel) fuel line (token_text p.lexer.source p.current)
                type)
            (advanced p) (kind_of (advanced p) c2 l)
            (step _ (advance_token-advanced (advanced p)) (
              step _
                (list_until-read ts es (advanced (advanced p)) m token_rparen rparen-Closes d a
                  (kind_of m cu o) bound)
                (ap (λ source. some (call_expr line (token_text source p.current) es, advanced m)) s
                  ∙ ap (λ (x : Token). some (call_expr x.line (token_text source x) es, advanced m))
                      c
                  ∙ ap (λ q. some (call_expr n.line (token_text source n) es, q)) (sym last))))))
