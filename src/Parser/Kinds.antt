-- ===== src/Parser/Kinds.antt =====
-- The values of the enumeration `TokenType` of src/lexer/lexer.h, by which tokens are compared.
use kratos_lang.Prelude.{ℕ, Bool, ◌==◌}
use kratos_lang.Lexer.Token.{
  TokenType, token_eof, token_error, token_identifier, token_k_int, token_k_float, token_k_bool,
  token_k_char, token_k_string, token_k_const, token_k_void, token_if, token_elif, token_else,
  token_hold, token_press, token_drive, token_sweep, token_snap, token_push, token_in, token_craft,
  token_yield, token_shout, token_wield, token_record, token_integer, token_float,
  token_string_literal, token_char_literal, token_true, token_false, token_assign, token_plus,
  token_minus, token_star, token_slash, token_percent, token_equal, token_not_equal, token_less,
  token_greater, token_less_equal, token_greater_equal, token_and, token_or, token_not,
  token_lparen, token_rparen, token_lbrace, token_rbrace, token_lbracket, token_rbracket,
  token_semicolon, token_comma, token_dot, token_colon,
}

abbrev pub enum_value : TokenType → ℕ
enum_value token_eof = 0
enum_value token_error = 1
enum_value token_identifier = 2
enum_value token_k_int = 3
enum_value token_k_float = 4
enum_value token_k_bool = 5
enum_value token_k_char = 6
enum_value token_k_string = 7
enum_value token_k_const = 8
enum_value token_k_void = 9
enum_value token_if = 10
enum_value token_elif = 11
enum_value token_else = 12
enum_value token_hold = 13
enum_value token_press = 14
enum_value token_drive = 15
enum_value token_sweep = 16
enum_value token_snap = 17
enum_value token_push = 18
enum_value token_in = 19
enum_value token_craft = 20
enum_value token_yield = 21
enum_value token_shout = 22
enum_value token_wield = 23
enum_value token_record = 24
enum_value token_integer = 25
enum_value token_float = 26
enum_value token_string_literal = 27
enum_value token_char_literal = 28
enum_value token_true = 29
enum_value token_false = 30
enum_value token_assign = 31
enum_value token_plus = 32
enum_value token_minus = 33
enum_value token_star = 34
enum_value token_slash = 35
enum_value token_percent = 36
enum_value token_equal = 37
enum_value token_not_equal = 38
enum_value token_less = 39
enum_value token_greater = 40
enum_value token_less_equal = 41
enum_value token_greater_equal = 42
enum_value token_and = 43
enum_value token_or = 44
enum_value token_not = 45
enum_value token_lparen = 46
enum_value token_rparen = 47
enum_value token_lbrace = 48
enum_value token_rbrace = 49
enum_value token_lbracket = 50
enum_value token_rbracket = 51
enum_value token_semicolon = 52
enum_value token_comma = 53
enum_value token_dot = 54
enum_value token_colon = 55

-- `a == b`
abbrev pub token_eq : TokenType → TokenType → Bool
token_eq a b = enum_value a == enum_value b
