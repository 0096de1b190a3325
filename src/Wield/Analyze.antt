-- ===== src/Wield/Analyze.antt =====
-- src/semantic/semantic.c: `semantic_analyze_with_context`, from the parsed program and its path to the
-- exit code, with the files as a parameter. What it frees at the end is left out.
use kratos_lang.Prelude.{ℕ, Bytes, codes, Option, none, some, if◌then◌else◌}
use kratos_lang.Ast.{AstNodeList}
use kratos_lang.Semantic.State.{Analyzer}
use kratos_lang.Semantic.Program.{run_passes, initial}
use kratos_lang.Wield.Expand.{Files, Expanded, stack_push, expand_wields}

-- The state in which the expansion starts: the program's own path is on the stack if it opens.
unfoldable pub source_pushed : Files → Option Bytes → Analyzer
source_pushed files none = initial
source_pushed files (some path) = if files.opens path then stack_push path initial else initial

abbrev pub from_path_of : Option Bytes → Bytes
from_path_of none = codes "."
from_path_of (some path) = path

abbrev pub exit_code : Analyzer → ℕ
exit_code s = if s.had_error then 1 else 0

-- The three passes over the expanded declarations.
abbrev pub analyze_expanded : Expanded → Option ℕ
analyze_expanded (none, s) = none
analyze_expanded (some nodes, s) = some (exit_code (run_passes nodes s).1)

unfoldable pub semantic_analyze_with_context : Files → ℕ → AstNodeList → Option Bytes → Option ℕ
semantic_analyze_with_context files fuel program source_path =
    analyze_expanded (
      expand_wields files fuel program (from_path_of source_path) (source_pushed files source_path))
