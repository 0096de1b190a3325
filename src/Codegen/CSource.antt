-- ===== src/Codegen/CSource.antt =====
-- How a C compiler of the standard of 2011, which src/main.c asks for, reads a string literal of a source:
-- the trigraphs are replaced, the lines that end in a backslash are spliced, and the escapes are read.
use kratos_lang.Prelude.{
  ℕ, suc, ◌+◌, ◌-◌, ◌*◌, Bool, true, false, ◌&&◌, ◌||◌, Bytes, [], ◌∷◌, Option, none, some,
  if◌then◌else◌, ltb, leb, ◌==◌,
}

-- The byte that stands for `??` and a byte.
unfoldable pub trigraph : ℕ → Option ℕ
trigraph c =
    if c == b'='
    then some b'#'
    else if c == b'/'
    then some b'\\'
    else if c == b'\''
    then some b'^'
    else if c == b'('
    then some b'['
    else if c == b')'
    then some b']'
    else if c == b'!'
    then some b'|'
    else if c == b'<'
    then some b'{'
    else if c == b'>'
    then some b'}'
    else if c == b'-'
    then some b'~'
    else none

-- The question marks in front, of which a trigraph needs two.
pub data Marks : Type 0 where
  no_mark one_mark two_marks : Marks

abbrev pub marks : Marks → Bytes
marks no_mark = []
marks one_mark = b'?' ∷ []
marks two_marks = b'?' ∷ b'?' ∷ []

abbrev pub instead : Option ℕ → ℕ → Bytes → Bytes
instead none c rest = b'?' ∷ b'?' ∷ c ∷ rest
instead (some byte) c rest = byte ∷ rest

-- A source behind question marks, with its trigraphs replaced.
unfoldable pub replaced : Marks → Bytes → Bytes
replaced seen [] = marks seen
replaced no_mark (c ∷ rest) =
    let more = replaced one_mark rest in
    let none_left = replaced no_mark rest in if c == b'?' then more else c ∷ none_left
replaced one_mark (c ∷ rest) =
    let more = replaced two_marks rest in
    let none_left = replaced no_mark rest in if c == b'?' then more else b'?' ∷ c ∷ none_left
replaced two_marks (c ∷ rest) =
    let more = replaced two_marks rest in
    let none_left = replaced no_mark rest in
    if c == b'?' then b'?' ∷ more else instead (trigraph c) c none_left

-- A source, behind a backslash or not, with its lines spliced.
unfoldable pub spliced : Bool → Bytes → Bytes
spliced false [] = []
spliced true [] = b'\\' ∷ []
spliced false (c ∷ rest) =
    let behind = spliced true rest in
    let none_left = spliced false rest in if c == b'\\' then behind else c ∷ none_left
spliced true (c ∷ rest) =
    let behind = spliced true rest in
    let none_left = spliced false rest in
    if c == b'\n' then none_left else if c == b'\\' then b'\\' ∷ behind else b'\\' ∷ c ∷ none_left

unfoldable pub c_source : Bytes → Bytes
c_source source = spliced false (replaced no_mark source)

-- Inside a literal: in the text, behind a backslash, or behind octal digits, with their number and value.
pub data Place : Type 0 where
  in_text : Place
  behind_backslash : Place
  behind_digits : ℕ → ℕ → Place

abbrev pub is_octal : ℕ → Bool
is_octal c = leb 48 c && leb c 55

abbrev pub with_byte : ℕ → Option (Bytes × Bytes) → Option (Bytes × Bytes)
with_byte c none = none
with_byte c (some (text, rest)) = some (c ∷ text, rest)

abbrev pub simple_escape : ℕ → Option ℕ
simple_escape c =
    if c == b'n'
    then some 10
    else if c == b't'
    then some 9
    else if c == b'r'
    then some 13
    else if c == b'\\'
    then some 92
    else if c == b'"'
    then some 34
    else if c == b'\''
    then some 39
    else if c == b'?'
    then some 63
    else if c == b'a'
    then some 7
    else if c == b'b'
    then some 8
    else if c == b'f'
    then some 12
    else if c == b'v'
    then some 11
    else none

abbrev pub with_octal : ℕ → Option (Bytes × Bytes) → Option (Bytes × Bytes)
with_octal value read = if leb value 255 then with_byte value read else none

abbrev pub with_escape : Option ℕ → Option (Bytes × Bytes) → Option (Bytes × Bytes)
with_escape none read = none
with_escape (some c) read = with_byte c read

-- A byte of the text, with what is read behind it as text and behind a backslash.
abbrev pub text_byte :
    ℕ → Bytes → Option (Bytes × Bytes) → Option (Bytes × Bytes) → Option (Bytes × Bytes)
text_byte c rest text escape =
    if c == b'"'
    then some ([], rest)
    else if c == b'\\'
    then escape
    else if c == b'\n'
    then none
    else with_byte c text

-- What C reads up to the closing quote, and what stands behind it. Octal escapes have up to three digits,
-- and a value that is a byte. Hexadecimal escapes and universal names, which are not written, are refused.
unfoldable pub c_reads : Place → Bytes → Option (Bytes × Bytes)
c_reads place [] = none
c_reads in_text (c ∷ rest) = text_byte c rest (c_reads in_text rest) (c_reads behind_backslash rest)
c_reads behind_backslash (c ∷ rest) =
    let digits = c_reads (behind_digits 1 (c - 48)) rest in
    let text = c_reads in_text rest in
    if is_octal c then digits else with_escape (simple_escape c) text
c_reads (behind_digits n value) (c ∷ rest) =
    let digits = c_reads (behind_digits (suc n) (value * 8 + (c - 48))) rest in
    let text = text_byte c rest (c_reads in_text rest) (c_reads behind_backslash rest) in
    if ltb n 3 && is_octal c then digits else with_octal value text

unfoldable pub c_literal : Bytes → Option (Bytes × Bytes)
c_literal [] = none
c_literal (c ∷ rest) = if c == b'"' then c_reads in_text rest else none

-- Whether a text, behind question marks, has a trigraph.
abbrev pub is_trigraph : Option ℕ → Bool
is_trigraph none = false
is_trigraph (some byte) = true

unfoldable pub trigraph_behind : Marks → Bytes → Bool
trigraph_behind seen [] = false
trigraph_behind no_mark (c ∷ text) =
    let more = trigraph_behind one_mark text in
    let rest = trigraph_behind no_mark text in if c == b'?' then more else rest
trigraph_behind one_mark (c ∷ text) =
    let more = trigraph_behind two_marks text in
    let rest = trigraph_behind no_mark text in if c == b'?' then more else rest
trigraph_behind two_marks (c ∷ text) =
    let more = trigraph_behind two_marks text in
    let rest = trigraph_behind no_mark text in
    if c == b'?' then more else is_trigraph (trigraph c) || rest

abbrev pub has_trigraph : Bytes → Bool
has_trigraph = trigraph_behind no_mark
