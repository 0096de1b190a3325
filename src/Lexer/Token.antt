-- ===== src/Lexer/Token.antt =====
-- src/lexer/lexer.h: the token kinds, the tokens and the scanner's state. A pointer into the source
-- is an index. The diagnostic codes K1xx are those of src/diag/diag.h.
use kratos_lang.Prelude.{ℕ, Bool, Bytes, codes}

pub data TokenType : Type 0 where
  token_eof token_error token_identifier : TokenType
  token_k_int token_k_float token_k_bool token_k_char token_k_string : TokenType
  token_k_const token_k_void : TokenType
  token_if token_elif token_else : TokenType
  token_hold token_press token_drive token_sweep token_snap token_push token_in : TokenType
  token_craft token_yield token_shout token_wield token_record : TokenType
  token_integer token_float token_string_literal token_char_literal : TokenType
  token_true token_false : TokenType
  token_assign token_plus token_minus token_star token_slash token_percent : TokenType
  token_equal token_not_equal token_less token_greater : TokenType
  token_less_equal token_greater_equal : TokenType
  token_and token_or token_not : TokenType
  token_lparen token_rparen token_lbrace token_rbrace token_lbracket token_rbracket : TokenType
  token_semicolon token_comma token_dot token_colon : TokenType

pub record Token : Type 0 where
  pub type : TokenType
  pub start : ℕ
  pub length : ℕ
  pub line : ℕ
  pub column : ℕ
  pub error_code : ℕ

pub record Lexer : Type 0 where
  pub source : Bytes
  pub position : ℕ
  pub line : ℕ
  pub unterminated_comment : Bool

-- unterminated comment, unterminated string, bad character literal, bad escape, unexpected character
abbrev pub diag_k101 : ℕ
diag_k101 = 101

abbrev pub diag_k102 : ℕ
diag_k102 = 102

abbrev pub diag_k103 : ℕ
diag_k103 = 103

abbrev pub diag_k104 : ℕ
diag_k104 = 104

abbrev pub diag_k105 : ℕ
diag_k105 = 105

unfoldable pub token_type_name : TokenType → Bytes
token_type_name token_eof = codes "EOF"
token_type_name token_error = codes "ERROR"
token_type_name token_identifier = codes "IDENTIFIER"
token_type_name token_k_int = codes "K_INT"
token_type_name token_k_float = codes "K_FLOAT"
token_type_name token_k_bool = codes "K_BOOL"
token_type_name token_k_char = codes "K_CHAR"
token_type_name token_k_string = codes "K_STRING"
token_type_name token_k_const = codes "K_CONST"
token_type_name token_k_void = codes "K_VOID"
token_type_name token_if = codes "IF"
token_type_name token_elif = codes "ELIF"
token_type_name token_else = codes "ELSE"
token_type_name token_hold = codes "HOLD"
token_type_name token_press = codes "PRESS"
token_type_name token_drive = codes "DRIVE"
token_type_name token_sweep = codes "SWEEP"
token_type_name token_snap = codes "SNAP"
token_type_name token_push = codes "PUSH"
token_type_name token_in = codes "IN"
token_type_name token_craft = codes "CRAFT"
token_type_name token_yield = codes "YIELD"
token_type_name token_shout = codes "SHOUT"
token_type_name token_wield = codes "WIELD"
token_type_name token_record = codes "RECORD"
token_type_name token_integer = codes "INTEGER"
token_type_name token_float = codes "FLOAT"
token_type_name token_string_literal = codes "STRING"
token_type_name token_char_literal = codes "CHAR"
token_type_name token_true = codes "TRUE"
token_type_name token_false = codes "FALSE"
token_type_name token_assign = codes "ASSIGN"
token_type_name token_plus = codes "PLUS"
token_type_name token_minus = codes "MINUS"
token_type_name token_star = codes "STAR"
token_type_name token_slash = codes "SLASH"
token_type_name token_percent = codes "PERCENT"
token_type_name token_equal = codes "EQUAL"
token_type_name token_not_equal = codes "NOT_EQUAL"
token_type_name token_less = codes "LESS"
token_type_name token_greater = codes "GREATER"
token_type_name token_less_equal = codes "LESS_EQUAL"
token_type_name token_greater_equal = codes "GREATER_EQUAL"
token_type_name token_and = codes "AND"
token_type_name token_or = codes "OR"
token_type_name token_not = codes "NOT"
token_type_name token_lparen = codes "LPAREN"
token_type_name token_rparen = codes "RPAREN"
token_type_name token_lbrace = codes "LBRACE"
token_type_name token_rbrace = codes "RBRACE"
token_type_name token_lbracket = codes "LBRACKET"
token_type_name token_rbracket = codes "RBRACKET"
token_type_name token_semicolon = codes "SEMICOLON"
token_type_name token_comma = codes "COMMA"
token_type_name token_dot = codes "DOT"
token_type_name token_colon = codes "COLON"
