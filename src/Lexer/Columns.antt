-- ===== src/Lexer/Columns.antt =====
-- `column_at` of src/lexer/lexer.c counts from the last newline.
use kratos_lang.Prelude.{
  ℕ, suc, ◌+◌, ◌≡◌, ◌∙◌, Bytes, [], ◌∷◌, ◌++◌, ◌&&◌, not, Bool, true, length, arith, ◌==◌,
  if◌then◌else◌,
}
use kratos_lang.Lexer.Token.{Lexer}
use kratos_lang.Lexer.Cursor.{column_from, column_at}

abbrev pub no_newline : Bytes → Bool
no_newline [] = true
no_newline (c ∷ s) = not (c == b'\n') && no_newline s

column_from-line :
    (column : ℕ) (line after : Bytes)
    → no_newline line ≡ true
    → column_from column (length line) (line ++ after) ≡ column + length line
unfolding column_from
column_from-line column [] after h = omega arith
column_from-line column (c ∷ line) after h =
    ground (arith, column_from-line (column + 1) line after)

column_from-newline :
    (column : ℕ) (before line after : Bytes)
    → no_newline line ≡ true
    → column_from column (suc (length before + length line)) (before ++ (b'\n' ∷ (line ++ after)))
      ≡ 1 + length line
unfolding column_from
column_from-newline column [] line after h =
    let n : 0 + length line ≡ length line = omega arith in rw n (column_from-line 1 line after h)
column_from-newline column (c ∷ before) line after h =
    let n : suc (length before) + length line ≡ suc (length before + length line) = omega arith in
    rw n (column_from-newline (if c == b'\n' then 1 else column + 1) before line after h)

-- On the first line of a source the column of a byte is one more than the bytes in front of it.
pub column_at-first_line :
    (l : Lexer) (line after : Bytes)
    → no_newline line ≡ true
    → l.source ≡ line ++ after
    → column_at l (length line) ≡ length line + 1
unfolding column_at
column_at-first_line l line after h e = rw e (column_from-line 1 line after h ∙ omega arith)

-- Behind a newline, and bytes of the same line that hold none, the column of a byte is one more than
-- the bytes between the newline and it.
pub column_at-line :
    (l : Lexer) (before line after : Bytes)
    → no_newline line ≡ true
    → l.source ≡ before ++ (b'\n' ∷ (line ++ after))
    → column_at l (length before + 1 + length line) ≡ length line + 1
unfolding column_at
column_at-line l before line after h e =
    let n : length before + 1 + length line ≡ suc (length before + length line) = omega arith in
    rw (e, n) (column_from-newline 1 before line after h ∙ omega arith)
