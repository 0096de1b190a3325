-- ===== src/Codegen.antt =====
-- src/codegen/codegen.c: the back end that prints a program as C.
pub mod Emitter
pub mod Literals
pub mod Expr
pub mod Stmt
pub mod Preamble
pub mod Program
pub mod CSource
pub mod Phases
pub mod StringLiterals
pub mod Printable
pub mod Emits
pub mod Depths
pub mod ExprEmits
pub mod StmtEmits
pub mod Margin
pub mod DeclarationEmits
pub mod Status
