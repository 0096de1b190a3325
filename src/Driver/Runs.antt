-- ===== src/Driver/Runs.antt =====
-- What `main` of src/main.c runs: the way from a source and its imports to the crafts of the interpreter.
use mathlib.Core.Path.{subst}
use kratos_lang.Prelude.{
  ℕ, ◌≤◌, ◌≡◌, refl, sym, ◌⊎◌, Bool, true, false, Bytes, List, length, Option, none, some,
  if◌then◌else◌,
}
use kratos_lang.Ast.{AstNode, AstNodeList, program, KratosType, type_void, func_decl}
use kratos_lang.Semantic.Types.{type_eq}
use kratos_lang.Semantic.Program.{run_passes}
use kratos_lang.Parser.State.{Parser}
use kratos_lang.Parser.Program.{parse_source}
use kratos_lang.Parser.Gives.{Given, given, nothing}
use kratos_lang.Wield.Expand.{Files, Expanded, path_on_stack}
use kratos_lang.Wield.Analyze.{source_pushed, from_path_of}
use kratos_lang.Driver.Arguments.{
  Arguments, Mode, Options, goes_on, mode_check, mode_emit_c, no_options, read_arguments, returns,
  sets,
}
use kratos_lang.Driver.Main.{
  Action, after_parser, analyzed, back_end, exits, interprets, is_ast, is_tokens, main, source_of,
  with_arguments, with_options, with_source,
}
use kratos_lang.Driver.Ready.{Acts, hands_over_sound, main-Acts}
use kratos_lang.Driver.ImportedCrafts.{all_crafts_built, expand_wields-built}
use kratos_lang.Runtime.Shape.{crafts_built}
use kratos_lang.Runtime.ParsedCrafts.{program_built, parse_source-Given}
use kratos_lang.Runtime.Value.{Numerics}
use kratos_lang.Runtime.State.{Flow, flow_ok, flow_yield, Interp, done, find_function}
use kratos_lang.Runtime.Run.{eval_stmt, function_table}
use kratos_lang.Runtime.Accepted.{sound_yield}

-- The declarations that an action interprets have crafts that are built.
abbrev runs_built : Action → Bool
runs_built (interprets declarations) = crafts_built declarations
runs_built _ = true

abbrev acts_built : Option Action → Bool
acts_built none = true
acts_built (some action) = runs_built action

back_end-built :
    (mode : Mode) (output : Option Bytes) (declarations : AstNodeList)
    → crafts_built declarations ≡ true
    → runs_built (back_end mode output declarations) ≡ true
unfolding back_end
back_end-built mode_check output declarations h = refl
back_end-built mode_emit_c output declarations h = refl
back_end-built _ (some path) declarations h = refl
back_end-built _ none declarations h = h

if_built :
    (b : Bool) (x y : Option Action)
    → acts_built x ≡ true
    → acts_built y ≡ true
    → acts_built (if b then x else y) ≡ true
if_built true x y h k = h
if_built false x y h k = k

some_if_built :
    (b : Bool) (x y : Action)
    → runs_built x ≡ true
    → runs_built y ≡ true
    → acts_built (some (if b then x else y)) ≡ true
some_if_built true x y h k = h
some_if_built false x y h k = k

analyzed-built :
    (options : Options) (e : Expanded)
    → all_crafts_built e.0 ≡ true
    → acts_built (analyzed options e) ≡ true
unfolding analyzed
analyzed-built options (none, s) h = refl
analyzed-built options (some declarations, s) h =
    some_if_built (run_passes declarations s).1.had_error (exits 1) _ refl
      (back_end-built options.mode options.output_path declarations h)

module _ (files : Files) (fuel : ℕ) where
  after_parser-built :
      (options : Options) (r : Option (AstNode × Parser))
      → Given program_built r
      → acts_built (after_parser files fuel options r) ≡ true
  unfolding after_parser
  after_parser-built options _ nothing = refl
  after_parser-built options _ (given (program line declarations) parser h) =
      if_built parser.had_error _ _ refl (
        if_built (is_ast options.mode) _ _ refl (
          analyzed-built options _ (
            expand_wields-built files fuel declarations (from_path_of options.path)
              (source_pushed files options.path) h)))
  after_parser-built options _ (given _ parser h) = refl

  with_source-built :
      (options : Options) (source : Bytes)
      → acts_built (with_source files fuel options source) ≡ true
  unfolding with_source
  with_source-built options source =
      if_built (is_tokens options.mode) _ _ refl
        (after_parser-built options (parse_source source) (parse_source-Given source))

  with_options-built :
      (options : Options) (source : Option Bytes)
      → acts_built (with_options files fuel options source) ≡ true
  with_options-built options none = refl
  with_options-built options (some source) = with_source-built options source

  with_arguments-built :
      (stdin : Bytes) (arguments : Arguments)
      → acts_built (with_arguments files fuel stdin arguments) ≡ true
  with_arguments-built stdin (returns status) = refl
  with_arguments-built stdin (goes_on options) =
      with_options-built options (source_of files stdin options.path)

  main-built : (stdin : Bytes) (args : List Bytes) → acts_built (main files fuel stdin args) ≡ true
  unfolding main
  main-built stdin args = with_arguments-built stdin (read_arguments (sets no_options) args)

acts_sound : Option Action → Bool
acts_sound none = true
acts_sound (some action) = hands_over_sound action

Acts-sound : (r : Option Action) → Acts r → acts_sound r ≡ true
unfolding acts_sound
Acts-sound r a = subst (λ x. acts_sound x ≡ true) (sym a.done) a.sound

-- Where finitely many paths open, and the fuel is at least their number: in a program that `main`
-- interprets, through parser, imports and analyzer, the body of each craft that a call finds, run from
-- any state, ends without an error only with a `yield`, or by falling through in a craft of type `k_void`.
pub main-yields :
    (files : Files) (paths : List Bytes)
    → ((path : Bytes) → files.opens path ≡ true → path_on_stack paths path ≡ true)
    → (fuel : ℕ) (stdin : Bytes) (args : List Bytes) (declarations : AstNodeList)
    → length paths ≤ fuel
    → main files fuel stdin args ≡ some (interprets declarations)
    → (name : Bytes) (line : ℕ) (type : KratosType) (record_name : Option Bytes)
      (craft_name : Bytes) (params : AstNodeList) (body : AstNode)
    → find_function (function_table declarations) name
      ≡ some (func_decl line type record_name craft_name params body)
    → (numerics : Numerics) (depth : ℕ) (s t : Interp numerics.Double) (flow : Flow)
    → eval_stmt numerics depth body s ≡ done flow t
    → t.had_error ≡ false
    → (flow ≡ flow_yield) ⊎ ((flow ≡ flow_ok) × (type_eq type type_void ≡ true))
unfolding acts_sound
main-yields files paths listed fuel stdin args declarations enough e =
    let sound =
      subst (λ x. acts_sound x ≡ true) e
        (Acts-sound (main files fuel stdin args)
          (main-Acts files paths listed fuel stdin args enough)) in
    let built = subst (λ x. acts_built x ≡ true) e (main-built files fuel stdin args) in
    sound_yield declarations sound built
