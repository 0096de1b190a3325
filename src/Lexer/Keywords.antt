-- ===== src/Lexer/Keywords.antt =====
-- `identifier_type` of src/lexer/lexer.c. Its argument is the text of the identifier, so that a
-- comparison of the length and a `strncmp` is one comparison of texts.
use kratos_lang.Prelude.{Bytes, codes, bytes_eq, if◌then◌else◌}
use kratos_lang.Lexer.Token.{
  TokenType, token_identifier, token_k_int, token_k_float, token_k_bool, token_k_char,
  token_k_string, token_k_const, token_k_void, token_if, token_elif, token_else, token_hold,
  token_press, token_drive, token_sweep, token_snap, token_push, token_in, token_craft, token_yield,
  token_shout, token_wield, token_record, token_true, token_false, token_not,
}

unfoldable pub identifier_type : Bytes → TokenType
unfolding bytes_eq
identifier_type s =
    if bytes_eq s (codes "k_int")
    then token_k_int
    else if bytes_eq s (codes "k_float")
    then token_k_float
    else if bytes_eq s (codes "k_bool")
    then token_k_bool
    else if bytes_eq s (codes "k_char")
    then token_k_char
    else if bytes_eq s (codes "k_string")
    then token_k_string
    else if bytes_eq s (codes "k_const")
    then token_k_const
    else if bytes_eq s (codes "k_void")
    then token_k_void
    else if bytes_eq s (codes "not")
    then token_not
    else if bytes_eq s (codes "if")
    then token_if
    else if bytes_eq s (codes "elif")
    then token_elif
    else if bytes_eq s (codes "else")
    then token_else
    else if bytes_eq s (codes "hold")
    then token_hold
    else if bytes_eq s (codes "press")
    then token_press
    else if bytes_eq s (codes "drive")
    then token_drive
    else if bytes_eq s (codes "sweep")
    then token_sweep
    else if bytes_eq s (codes "snap")
    then token_snap
    else if bytes_eq s (codes "push")
    then token_push
    else if bytes_eq s (codes "in")
    then token_in
    else if bytes_eq s (codes "craft")
    then token_craft
    else if bytes_eq s (codes "yield")
    then token_yield
    else if bytes_eq s (codes "shout")
    then token_shout
    else if bytes_eq s (codes "wield")
    then token_wield
    else if bytes_eq s (codes "record")
    then token_record
    else if bytes_eq s (codes "true")
    then token_true
    else if bytes_eq s (codes "false")
    then token_false
    else token_identifier
