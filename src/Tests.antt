-- ===== src/Tests.antt =====
-- Runs of the model on small inputs, by the part of the program.
mod Lexer
mod Semantic
mod Wield
mod Parser
mod Grammar
mod SourceRun
mod Driver
mod Runtime
mod Codegen
