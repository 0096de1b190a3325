-- ===== src/Runtime.antt =====
-- The interpreter of src/runtime: values, environments, operators, expressions and statements.
pub mod Numbers
pub mod Value
pub mod State
pub mod Operators
pub mod Builtins
pub mod Expr
pub mod Print
pub mod Target
pub mod Stmt
pub mod Run
pub mod Behind
pub mod OperationLeaves
pub mod ExprLeaves
pub mod TargetLeaves
pub mod StmtLeaves
pub mod RunLeaves
pub mod Scopes
pub mod Shape
pub mod Good
pub mod TargetFlows
pub mod Flows
pub mod ParsedShapes
pub mod ParsedCrafts
pub mod Accepted
