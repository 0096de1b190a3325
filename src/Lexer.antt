-- ===== src/Lexer.antt =====
-- The scanner of src/lexer: its state and tokens, the scanning functions, and what is proved of
-- them.
pub mod Token
pub mod Keywords
pub mod Cursor
pub mod Scan
pub mod Next
pub mod Moves
pub mod Comments
pub mod Blanks
pub mod Decode
pub mod Columns
pub mod Sees
pub mod StringRoundTrip
pub mod StringScan
pub mod NameRoundTrip
pub mod KeywordSpelling
pub mod Reading
pub mod Bounds
pub mod Progress
pub mod Lines
pub mod LineNumbers
pub mod StringLines
pub mod TokenLines
pub mod TokenOrder
