-- ===== src/Parser.antt =====
-- The parser of src/parser: its state, the functions of the grammar, and what is proved of them.
pub mod Kinds
pub mod State
pub mod Literals
pub mod Expr
pub mod Stmt
pub mod Program
pub mod Gives
pub mod Weight
pub mod Forward
pub mod TokenRuns
pub mod ExprRuns
pub mod StmtRuns
pub mod StatementRuns
pub mod Total
pub mod Consumes
pub mod Grammar
pub mod Feeds
pub mod Follow
pub mod Precedence
pub mod Reads
pub mod PrimaryReads
pub mod LevelReads
pub mod Complete
