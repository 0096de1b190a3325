-- ===== src/Driver.antt =====
-- `main` of src/main.c: the command line, and the way from a source to the back end.
pub mod Arguments
pub mod Main
pub mod Ready
pub mod ImportedCrafts
pub mod Runs
