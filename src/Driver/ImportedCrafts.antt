-- ===== src/Driver/ImportedCrafts.antt =====
-- The shape of the crafts that src/main.c hands to a back end, those of imported files included.
use kratos_lang.Prelude.{
  ℕ, zero, suc, ◌≡◌, refl, Bool, true, false, Bytes, Option, none, some, if◌then◌else◌, and_left,
  and_right, and_intro,
}
use kratos_lang.Ast.{AstNode, AstNodeList, cons, func_decl, nil, program, wield_stmt}
use kratos_lang.Parser.State.{Parser}
use kratos_lang.Parser.Program.{declarations_of, parse_declarations, parse_source}
use kratos_lang.Parser.Gives.{Given, given, nothing}
use kratos_lang.Semantic.State.{message, Analyzer}
use kratos_lang.Wield.Paths.{kratos_dirname_dup, kratos_join_path}
use kratos_lang.Wield.Expand.{
  reported, Expanded, Files, after_parse, append_nodes, expand_nodes, expand_parsed, expand_wield,
  expand_wields, import_file, joined, parse_source_file, parsed, path_on_stack, stack_push,
}
use kratos_lang.Runtime.Shape.{crafts_built, well_built}
use kratos_lang.Runtime.ParsedCrafts.{parse_source-Given, program_built}

abbrev pub all_crafts_built : Option AstNodeList → Bool
all_crafts_built none = true
all_crafts_built (some nodes) = crafts_built nodes

errors_built :
    (b : Bool) (nodes : AstNodeList)
    → crafts_built nodes ≡ true
    → all_crafts_built (if b then none else some nodes) ≡ true
errors_built true nodes h = refl
errors_built false nodes h = h

declarations_built :
    (r : Option (AstNode × Parser))
    → Given program_built r
    → all_crafts_built (declarations_of r) ≡ true
declarations_built _ nothing = refl
declarations_built _ (given (program line declarations) parser h) =
    errors_built parser.had_error declarations h
declarations_built _ (given _ parser h) = refl

parse_declarations-built : (source : Bytes) → all_crafts_built (parse_declarations source) ≡ true
unfolding parse_declarations
parse_declarations-built source =
    declarations_built (parse_source source) (parse_source-Given source)

append_nodes-built :
    (a b : AstNodeList)
    → crafts_built a ≡ true
    → crafts_built b ≡ true
    → crafts_built (append_nodes a b) ≡ true
unfolding crafts_built append_nodes
append_nodes-built nil b h k = k
append_nodes-built (cons (func_decl line type record_name name params body) nodes) b h k =
    and_intro (well_built body) (crafts_built (append_nodes nodes b))
      (and_left (well_built body) (crafts_built nodes) h)
      (append_nodes-built nodes b (and_right (well_built body) (crafts_built nodes) h) k)
append_nodes-built (cons _ nodes) b h k = append_nodes-built nodes b h k

joined-built :
    (a b : Option AstNodeList)
    → all_crafts_built a ≡ true
    → all_crafts_built b ≡ true
    → all_crafts_built (joined a b) ≡ true
joined-built (some a) (some b) h k = append_nodes-built a b h k
joined-built (some a) none h k = refl
joined-built none b h k = refl

after_parse-built :
    (r : Option AstNodeList) (s : Analyzer)
    → all_crafts_built r ≡ true
    → all_crafts_built (after_parse r s).0 ≡ true
after_parse-built none s h = refl
after_parse-built (some nodes) s h = h

parsed-built : (source : Option Bytes) (s : Analyzer) → all_crafts_built (parsed source s).0 ≡ true
parsed-built none s = refl
parsed-built (some source) s =
    after_parse-built (parse_declarations source) s (parse_declarations-built source)

-- The two reports of a `wield`, and the import.
abbrev chosen : Bool → Bool → Expanded → Expanded → Expanded → Expanded
chosen opens cyclic missing repeated imported = elim opens [
  | false ↦ missing
  | true ↦ elim cyclic [ true ↦ repeated | false ↦ imported ]
]

chosen_built :
    (opens cyclic : Bool) (missing repeated imported : Expanded)
    → all_crafts_built missing.0 ≡ true
    → all_crafts_built repeated.0 ≡ true
    → all_crafts_built imported.0 ≡ true
    → all_crafts_built (chosen opens cyclic missing repeated imported).0 ≡ true
chosen_built false cyclic missing repeated imported m r i = m
chosen_built true true missing repeated imported m r i = r
chosen_built true false missing repeated imported m r i = i

module _ (files : Files) where
  -- An import that gives crafts that are built.
  abbrev Imports : (Bytes → Analyzer → Expanded) → Type 0
  Imports import = (path : Bytes) (s : Analyzer) → all_crafts_built (import path s).0 ≡ true

  expand_wield-built :
      (import : Bytes → Analyzer → Expanded)
      → Imports import
      → (line : ℕ) (path : Bytes) (s : Analyzer)
      → all_crafts_built (expand_wield files import line path s).0 ≡ true
  unfolding expand_wield crafts_built
  expand_wield-built import i line path s =
      chosen_built (files.opens path) (path_on_stack s.wield_stack path)
        (reported line (message "file di wield non trovato") s)
        (reported line (message "wield ciclico") s) (import path s) refl refl (i path s)

  expand_nodes-built :
      (import : Bytes → Analyzer → Expanded)
      → Imports import
      → (dir : Bytes) (nodes : AstNodeList) (s : Analyzer) → crafts_built nodes ≡ true
      → all_crafts_built (expand_nodes files import dir nodes s).0 ≡ true
  unfolding expand_nodes crafts_built
  expand_nodes-built import i dir nil s h = refl
  expand_nodes-built import i dir (cons (wield_stmt line path) nodes) s h =
      let first = expand_wield files import line (kratos_join_path dir path) s in
      joined-built first.0 (expand_nodes files import dir nodes first.1).0
        (expand_wield-built import i line (kratos_join_path dir path) s)
        (expand_nodes-built import i dir nodes first.1 h)
  expand_nodes-built import i dir (cons (func_decl line type record_name name params body) nodes) s
        h =
      let craft = cons (func_decl line type record_name name params body) nil in
      joined-built (some craft) (expand_nodes files import dir nodes s).0
        (and_intro (well_built body) true (and_left (well_built body) (crafts_built nodes) h) refl)
        (expand_nodes-built import i dir nodes s
          (and_right (well_built body) (crafts_built nodes) h))
  expand_nodes-built import i dir (cons node nodes) s h =
      joined-built (some (cons node nil)) (expand_nodes files import dir nodes s).0 refl
        (expand_nodes-built import i dir nodes s h)

  expand_parsed-built :
      (import : Bytes → Analyzer → Expanded)
      → Imports import
      → (dir : Bytes) (r : Option AstNodeList × Analyzer) → all_crafts_built r.0 ≡ true
      → all_crafts_built (expand_parsed files import dir r).0 ≡ true
  unfolding crafts_built
  expand_parsed-built import i dir (none, s) h = refl
  expand_parsed-built import i dir (some nodes, s) h = expand_nodes-built import i dir nodes s h

  import_file-built : (fuel : ℕ) → Imports (import_file files fuel)
  unfolding import_file parse_source_file
  import_file-built zero path s = refl
  import_file-built (suc fuel) path s =
      let t = stack_push path s in
      expand_parsed-built (import_file files fuel) (import_file-built fuel)
        (kratos_dirname_dup path) (parse_source_file files path t)
        (parsed-built (files.read_file path) t)

  -- The expansion of declarations whose crafts are built.
  pub expand_wields-built :
      (fuel : ℕ) (nodes : AstNodeList) (path : Bytes) (s : Analyzer)
      → crafts_built nodes ≡ true
      → all_crafts_built (expand_wields files fuel nodes path s).0 ≡ true
  unfolding expand_wields
  expand_wields-built fuel nodes path s h =
      expand_nodes-built (import_file files fuel) (import_file-built fuel) (kratos_dirname_dup path)
        nodes s h
