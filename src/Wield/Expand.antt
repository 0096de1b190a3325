-- ===== src/Wield/Expand.antt =====
-- src/semantic/semantic.c: `path_on_stack`, `stack_push`, `stack_pop`, `parse_source_file` and
-- `expand_wields`. The files are a parameter: which paths open, and what they hold. The stack lists the paths that are
-- being read, the last one first.
use kratos_lang.Prelude.{
  ℕ, zero, suc, Bool, true, false, Bytes, bytes_eq, List, [], ◌∷◌, Option, none, some, ◌||◌,
}
use kratos_lang.Ast.{AstNodeList, nil, cons, wield_stmt}
use kratos_lang.Semantic.State.{Analyzer, message, semantic_error}
use kratos_lang.Parser.Program.{parse_declarations}
use kratos_lang.Wield.Paths.{kratos_dirname_dup, kratos_join_path}

pub record Files : Type 0 where
  pub opens : Bytes → Bool
  pub read_file : Bytes → Option Bytes

unfoldable pub path_on_stack : List Bytes → Bytes → Bool
path_on_stack [] path = false
path_on_stack (top ∷ stack) path = bytes_eq top path || path_on_stack stack path

unfoldable pub stack_push : Bytes → Analyzer → Analyzer
stack_push path s = record s { wield_stack = path ∷ s.wield_stack }

abbrev pub popped : List Bytes → List Bytes
popped [] = []
popped (top ∷ stack) = stack

unfoldable pub stack_pop : Analyzer → Analyzer
stack_pop s = record s { wield_stack = popped s.wield_stack }

-- Pushing the nodes of a list onto the end of another.
unfoldable pub append_nodes : AstNodeList → AstNodeList → AstNodeList
append_nodes nil nodes = nodes
append_nodes (cons node first) nodes = cons node (append_nodes first nodes)

-- The result of the expansion, and the state; `none` where the fuel ran out.
abbrev pub Expanded : Type 0
Expanded = Option AstNodeList × Analyzer

abbrev pub joined : Option AstNodeList → Option AstNodeList → Option AstNodeList
joined (some first) (some rest) = some (append_nodes first rest)
joined _ _ = none

abbrev pub reported : ℕ → Bytes → Analyzer → Expanded
reported line m s = (some nil, (semantic_error line m s).1)

abbrev pub after_parse : Option AstNodeList → Analyzer → Option AstNodeList × Analyzer
after_parse none s = (none, record s { had_error = true })
after_parse (some nodes) s = (some nodes, s)

abbrev pub parsed : Option Bytes → Analyzer → Option AstNodeList × Analyzer
parsed none s = (none, s)
parsed (some source) s = after_parse (parse_declarations source) s

module _ (files : Files) where
  unfoldable pub parse_source_file : Bytes → Analyzer → Option AstNodeList × Analyzer
  parse_source_file path s = parsed (files.read_file path) s

  -- The body of the loop, given how a file that is not being read yet is imported.
  unfoldable pub expand_wield : (Bytes → Analyzer → Expanded) → ℕ → Bytes → Analyzer → Expanded
  unfolding path_on_stack
  expand_wield import line path s = elim (files.opens path) [
    | false ↦ reported line (message "file di wield non trovato") s
    | true ↦ elim (path_on_stack s.wield_stack path) [
      | true ↦ reported line (message "wield ciclico") s
      | false ↦ import path s
    ]
  ]

  -- The loop over the declarations of a file in the directory `dir`.
  unfoldable pub expand_nodes :
      (Bytes → Analyzer → Expanded) → Bytes → AstNodeList → Analyzer → Expanded
  expand_nodes import dir nil s = (some nil, s)
  expand_nodes import dir (cons (wield_stmt line path) nodes) s =
      let first = expand_wield import line (kratos_join_path dir path) s in
      let rest = expand_nodes import dir nodes first.1 in (joined first.0 rest.0, rest.1)
  expand_nodes import dir (cons node nodes) s =
      let rest = expand_nodes import dir nodes s in (joined (some (cons node nil)) rest.0, rest.1)

  abbrev pub expand_parsed :
      (Bytes → Analyzer → Expanded) → Bytes → Option AstNodeList × Analyzer → Expanded
  expand_parsed import dir (none, s) = (some nil, s)
  expand_parsed import dir (some nodes, s) = expand_nodes import dir nodes s

  -- From `stack_push` to `stack_pop`, with fuel for the files in files.
  unfoldable pub import_file : ℕ → Bytes → Analyzer → Expanded
  unfolding parse_source_file stack_push stack_pop
  import_file zero path s = (none, s)
  import_file (suc fuel) path s =
      let result =
        expand_parsed (import_file fuel) (kratos_dirname_dup path)
          (parse_source_file path (stack_push path s)) in
      (result.0, stack_pop result.1)

  unfoldable pub expand_wields : ℕ → AstNodeList → Bytes → Analyzer → Expanded
  expand_wields fuel nodes from_path s =
      expand_nodes (import_file fuel) (kratos_dirname_dup from_path) nodes s
