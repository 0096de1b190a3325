-- ===== src/Driver/Main.antt =====
-- src/main.c: `main` from the arguments to the action that it takes. The files, the standard input and the
-- arguments are its parameters; what it prints is left out, and the back ends are actions.
use kratos_lang.Prelude.{ℕ, Bool, true, false, Bytes, List, Option, none, some, if◌then◌else◌}
use kratos_lang.Ast.{AstNode, AstNodeList, program}
use kratos_lang.Parser.State.{Parser}
use kratos_lang.Parser.Program.{parse_source}
use kratos_lang.Semantic.Program.{run_passes}
use kratos_lang.Wield.Expand.{Files, Expanded, expand_wields}
use kratos_lang.Wield.Analyze.{source_pushed, from_path_of}
use kratos_lang.Driver.Arguments.{
  Mode, mode_tokens, mode_ast, mode_check, mode_emit_c, Options, Arguments, returns, goes_on, sets,
  read_arguments, no_options,
}

-- Returning a status; `dump_tokens`, `ast_print`, the message of `--check`, `codegen_emit_c`, compiling
-- what it emits, and `interp_run`.
pub data Action : Type 0 where
  exits : ℕ → Action
  dumps_tokens : Bytes → Action
  prints_tree : AstNode → Action
  reports_success : AstNodeList → Action
  emits_c : Option Bytes → AstNodeList → Action
  compiles : Bytes → AstNodeList → Action
  interprets : AstNodeList → Action

-- The back end for a program that the analyzer accepts, by the mode and the output path.
unfoldable pub back_end : Mode → Option Bytes → AstNodeList → Action
back_end mode_check output declarations = reports_success declarations
back_end mode_emit_c output declarations = emits_c output declarations
back_end _ (some path) declarations = compiles path declarations
back_end _ none declarations = interprets declarations

-- Behind the expansion of `wield`: the passes, and the back end where they report no error.
unfoldable pub analyzed : Options → Expanded → Option Action
unfolding back_end
analyzed options (none, s) = none
analyzed options (some declarations, s) = some (
    if (run_passes declarations s).1.had_error
    then exits 1
    else back_end options.mode options.output_path declarations)

abbrev pub is_ast : Mode → Bool
is_ast mode_ast = true
is_ast _ = false

-- Behind the parser.
unfoldable pub after_parser : Files → ℕ → Options → Option (AstNode × Parser) → Option Action
unfolding analyzed
after_parser files fuel options (some (program line declarations, parser)) =
    if parser.had_error
    then some (exits 1)
    else if is_ast options.mode
    then some (prints_tree (program line declarations))
    else analyzed options (
        expand_wields files fuel declarations (from_path_of options.path)
          (source_pushed files options.path))
after_parser files fuel options _ = none

abbrev pub is_tokens : Mode → Bool
is_tokens mode_tokens = true
is_tokens _ = false

unfoldable pub with_source : Files → ℕ → Options → Bytes → Option Action
unfolding after_parser
with_source files fuel options source =
    if is_tokens options.mode
    then some (dumps_tokens source)
    else after_parser files fuel options (parse_source source)

-- `kratos_read_file(path)`, or the standard input.
abbrev pub source_of : Files → Bytes → Option Bytes → Option Bytes
source_of files stdin none = some stdin
source_of files stdin (some path) = files.read_file path

abbrev pub with_options : Files → ℕ → Options → Option Bytes → Option Action
with_options files fuel options none = some (exits 1)
with_options files fuel options (some source) = with_source files fuel options source

abbrev pub with_arguments : Files → ℕ → Bytes → Arguments → Option Action
with_arguments files fuel stdin (returns status) = some (exits status)
with_arguments files fuel stdin (goes_on options) =
    with_options files fuel options (source_of files stdin options.path)

-- `none` where the fuel of the expansion runs out.
unfoldable pub main : Files → ℕ → Bytes → List Bytes → Option Action
unfolding with_source read_arguments
main files fuel stdin args = with_arguments files fuel stdin (read_arguments (sets no_options) args)
