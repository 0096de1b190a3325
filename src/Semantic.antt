-- ===== src/Semantic.antt =====
-- The analyzer of src/semantic: its state and messages, its checks, and what is proved of them.
pub mod State
pub mod Types
pub mod Operators
pub mod Expr
pub mod Records
pub mod Returns
pub mod Stmt
pub mod Program
pub mod Keeps
pub mod ExprKeeps
pub mod Declares
pub mod StmtDeclares
pub mod Jumps
pub mod Accepted
pub mod Scopes
pub mod Compatibility
pub mod Blocks
