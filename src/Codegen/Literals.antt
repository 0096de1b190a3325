-- ===== src/Codegen/Literals.antt =====
-- src/codegen/codegen.c: the literals of C that the back end writes.
use Prim.Native.Nat.{◌/◌, ◌%◌}
use kratos_lang.Prelude.{ℕ, ◌+◌, Bytes, codes, [], ◌∷◌, ◌++◌, if◌then◌else◌, ltb, ◌==◌}
use kratos_lang.Codegen.Emitter.{◌>>◌, Emit, put}

-- `%03o` of a byte below 32
abbrev pub octal : ℕ → Bytes
octal p = codes "0" ++ ((48 + p / 8) ∷ (48 + p % 8) ∷ [])

-- What the `switch` of `emit_string_literal` writes for a byte.
unfoldable pub escaped : ℕ → Bytes
escaped p =
    if p == b'\\'
    then codes "\\\\"
    else if p == b'"'
    then codes "\\\""
    else if p == b'\n'
    then codes "\\n"
    else if p == b'\t'
    then codes "\\t"
    else if p == b'\r'
    then codes "\\r"
    else if ltb p 32
    then b'\\' ∷ octal p
    else p ∷ []

-- The loop up to the zero that ends the text, which is no null pointer in the tree.
unfoldable pub escapes : Bytes → Bytes
escapes [] = []
escapes (p ∷ text) = if p == 0 then [] else escaped p ++ escapes text

unfoldable pub string_literal : Bytes → Bytes
string_literal text = b'"' ∷ escapes text ++ b'"' ∷ []

unfoldable pub emit_string_literal : Bytes → Emit
emit_string_literal text = put (string_literal text)

-- The byte of a `k_char`.
unfoldable pub char_escape : ℕ → Bytes
char_escape c =
    if c == b'\n'
    then codes "\\n"
    else if c == b'\\'
    then codes "\\\\"
    else if c == b'\''
    then codes "\\'"
    else c ∷ []

unfoldable pub emit_char_literal : ℕ → Emit
emit_char_literal c = do put (codes "'"); put (char_escape c); put (codes "'")
