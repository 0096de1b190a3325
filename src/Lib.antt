-- ===== src/Lib.antt =====
-- Kratos Lang: the scanner, the parser, the semantic analyzer, the
-- interpreter and the driver of the compiler kratosc.
--
-- The compiler reads a source (src/main.c), scans it (src/lexer/lexer.c), parses it
-- (src/parser/parser.c) into a tree (src/ast/ast.h), expands the imported files and checks the tree
-- (src/semantic/semantic.c), and interprets it (src/runtime/interp.c) or prints it as C
-- (src/codegen/codegen.c). The parts share the tokens, the tree and the diagnostics.
--
-- Lexer models src/lexer/lexer.c and src/lexer/lexer.h, and the loop of `dump_tokens` of src/main.c.
-- The state of the scanner is the record `Lexer`: the source as a list of bytes, the position, the
-- line and the flag of an open comment. Each C function is a function of the same name from that
-- state to a result and the next state. Lexer/Token has the data, Lexer/Cursor the cursor, blanks
-- and comments, Lexer/Keywords `identifier_type`, Lexer/Scan numbers, strings and characters,
-- Lexer/Next the other tokens and the loop over them, Lexer/Decode the decoding of literals. The
-- other files of Lexer are proofs, named for what they prove.
--
-- Ast models src/ast/ast.h: one data type of nodes, mutual with the list of nodes.
--
-- Parser models src/parser/parser.c and src/parser/parser.h. Its state is the record `Parser`, of which
-- the scanner is a part; each C function is a computation in the state monad `P` of Parser/State. A
-- function that comes later in the file is a parameter of those before it. Parser/State has the helpers
-- on tokens, Parser/Literals the values of literals, Parser/Expr the expressions, Parser/Stmt the
-- statements, Parser/Program the declarations and `parser_parse_program`. The look-ahead of
-- `is_var_decl_starting` keeps the state in front of it, as the C code does, but for what it prints.
-- Parser/Weight measures how far a state is from the end, Parser/Grammar has the grammar of expressions,
-- with the operators that docs/specification.md lists, without record literals, and Parser/Feeds the tokens that stand in front of a state; the other files
-- are proofs.
--
-- Semantic models src/semantic/semantic.c. Its state `Analyzer` holds the chain of scopes, the record
-- types, the depth of loops, the context of the craft and the errors; an operation is a function
-- in the state monad `M` of Semantic/State. Semantic/Types has the types, Semantic/State symbols,
-- scopes and diagnostics, Semantic/Operators the cases of `check_expr` for given types of the
-- parts, Semantic/Expr `check_expr`, Semantic/Records `record_type_add`, Semantic/Returns
-- `always_returns`, Semantic/Stmt `check_var_decl` and `check_stmt`, Semantic/Program
-- `check_function` and the passes of `semantic_analyze_with_context`. The other files of Semantic
-- are proofs.
--
-- Wield models the imports: Wield/Paths the functions on paths of src/utils/file.c, Wield/Expand
-- `expand_wields` and its helpers, Wield/Analyze the whole of `semantic_analyze_with_context`. Which
-- paths open and what the files hold is the record `Files`, a parameter. The other files of Wield are
-- proofs.
--
-- Runtime models src/runtime/interp.c. Its state `Interp` holds the chain of environments, the crafts, the
-- value of a `yield`, the errors and what was printed; a run ends with a value and a state, needs more
-- fuel, or comes to what C leaves undefined. Runtime/Numbers has `int64_t`, Runtime/Value the values and
-- the record `Numerics`, a parameter with `double` and what the C library does with numbers,
-- Runtime/State the environments, Runtime/Operators and Runtime/Builtins the operators and the built-in
-- crafts on values, Runtime/Expr, Runtime/Target and Runtime/Stmt the parts of `eval_expr`,
-- `resolve_assignment_target` and `eval_stmt`, each over the evaluation of what stands inside, and
-- Runtime/Run the recursion and `interp_run`. Runtime/Shape describes the statements that the parser
-- builds; the other files are proofs. An environment of the C
-- program lives on its stack, so the chain is a list; a pointer to a value is the name of a variable with
-- the indices and members behind it.
--
-- Codegen models src/codegen/codegen.c: Codegen/Emitter the emitter and the types, Codegen/Literals the
-- escapes, Codegen/Expr and Codegen/Stmt `emit_expr` and `emit_stmt`, Codegen/Preamble the C text in front
-- of each program, and Codegen/Program `codegen_emit_c`. What is written is a list of texts, the last
-- first; reading a null pointer or a wrong member of the union is a result of its own. Codegen/Printable
-- describes the programs that it can print, Codegen/CSource how standard C reads a literal (trigraphs, spliced
-- lines, escapes); the other files are proofs. `printf` of a number is taken
-- from the record `Numerics`.
--
-- Driver models `main` of src/main.c, from the arguments to the action that it takes: Driver/Arguments
-- reads the arguments, Driver/Main goes through scanner, parser, imports and analyzer to the back end,
-- of which `main` models only the choice; Driver/ImportedCrafts and Driver/Runs follow the crafts of a
-- source and its imports to the interpreter. Tests runs the parts on small inputs.
--
-- Bytes are natural numbers, and a C string is a list of them without its terminating zero; reading
-- past the end gives zero, as the terminator does. Loops of the scanner run on fuel: one more than the
-- bytes that remain, since each round consumes one. The loop of `dump_tokens` has 2 n + 2 for a source
-- of n bytes: each token but the last consumes a byte, or reports the comment that a call left open.
-- The parser has 8 n + 8, for its loops and its recursion together: the weight of a state, twice what the
-- scanner has left and one for a token that is not the end, is at most 4 n + 5, and each round of a
-- loop, each bracket and each statement inside another consumes a token. The analyzer recurs on the tree and needs no fuel. The interpreter has fuel for the depth of its recursion and for the rounds of each loop; programs need
-- not stop, and no amount is enough for all. The expansion of `wield` has fuel for the depth
-- of files in files: at most the number of paths that open, as no path is read inside itself.
--
-- Not modelled: the printing of diagnostics and of trees, and the reading of files. A literal of type `k_float` is kept as its text, as `strtod` is not modelled. Memory is not modelled: freeing, the capacity of arrays, and the exit where
-- memory runs out. Characters above 127 are no letters, as in the C locale. A source that holds a zero byte ends
-- there in C, and is no C string. The columns, the texts and the help of a diagnostic of the analyzer
-- are left out; its code and line are kept.
pub mod Prelude
pub mod Lexer
pub mod Ast
pub mod Parser
pub mod Semantic
pub mod Wield
pub mod Runtime
pub mod Codegen
pub mod Driver
mod Tests
