-- ===== src/Parser/Precedence.antt =====
-- The tests for operators of src/parser/parser.c against the operators that the grammar lists.
use kratos_lang.Prelude.{ℕ, zero, suc, ◌≡◌, refl, Bool, false}
use kratos_lang.Lexer.Token.{
  TokenType, token_star, token_slash, token_percent, token_plus, token_minus, token_less,
  token_greater, token_less_equal, token_greater_equal, token_equal, token_not_equal, token_and,
  token_or,
}
use kratos_lang.Parser.Expr.{
  is_multiplicative, is_additive, is_comparison, is_equality, is_and, is_or,
}
use kratos_lang.Parser.Grammar.{operator_at}

-- The tests of the parser's levels.
abbrev pub test_at : ℕ → TokenType → Bool
test_at zero = is_multiplicative
test_at (suc zero) = is_additive
test_at (suc (suc zero)) = is_comparison
test_at (suc (suc (suc zero))) = is_equality
test_at (suc (suc (suc (suc zero)))) = is_and
test_at (suc (suc (suc (suc (suc zero))))) = is_or
test_at _ = λ type. false

-- They accept the operators that the grammar lists.
pub operator_at-test_at : (h : ℕ) (type : TokenType) → operator_at h type ≡ test_at h type
operator_at-test_at zero token_star = refl
operator_at-test_at zero token_slash = refl
operator_at-test_at zero token_percent = refl
operator_at-test_at zero _ = refl
operator_at-test_at (suc zero) token_plus = refl
operator_at-test_at (suc zero) token_minus = refl
operator_at-test_at (suc zero) _ = refl
operator_at-test_at (suc (suc zero)) token_less = refl
operator_at-test_at (suc (suc zero)) token_greater = refl
operator_at-test_at (suc (suc zero)) token_less_equal = refl
operator_at-test_at (suc (suc zero)) token_greater_equal = refl
operator_at-test_at (suc (suc zero)) _ = refl
operator_at-test_at (suc (suc (suc zero))) token_equal = refl
operator_at-test_at (suc (suc (suc zero))) token_not_equal = refl
operator_at-test_at (suc (suc (suc zero))) _ = refl
operator_at-test_at (suc (suc (suc (suc zero)))) token_and = refl
operator_at-test_at (suc (suc (suc (suc zero)))) _ = refl
operator_at-test_at (suc (suc (suc (suc (suc zero))))) token_or = refl
operator_at-test_at (suc (suc (suc (suc (suc zero))))) _ = refl
operator_at-test_at (suc (suc (suc (suc (suc (suc h)))))) type = refl
