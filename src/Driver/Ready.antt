-- ===== src/Driver/Ready.antt =====
-- `main` of src/main.c takes an action, and hands over to a back end only what the analyzer accepts.
use kratos_lang.Prelude.{
  ℕ, ◌≤◌, ◌≡◌, refl, ◌∙◌, Bool, true, Bytes, List, length, Option, none, some, Bool-cases, inl, inr,
  arith,
}
use kratos_lang.Ast.{AstNodeList, program}
use kratos_lang.Semantic.State.{Analyzer}
use kratos_lang.Semantic.Program.{run_passes}
use kratos_lang.Semantic.Accepted.{crafts_are_sound, run_passes-crafts}
use kratos_lang.Parser.State.{Parser}
use kratos_lang.Parser.Total.{parse_source-Parsed}
use kratos_lang.Wield.Expand.{Files, path_on_stack, expand_wields}
use kratos_lang.Wield.Enough.{unseen-bound, expand_wields-Completes}
use kratos_lang.Wield.Analyze.{source_pushed, from_path_of}
use kratos_lang.Wield.Outcome.{source_pushed_depth}
use kratos_lang.Driver.Arguments.{
  Mode, mode_check, mode_emit_c, Options, Arguments, returns, goes_on, sets, read_arguments,
  no_options,
}
use kratos_lang.Driver.Main.{
  Action, exits, dumps_tokens, prints_tree, reports_success, emits_c, compiles, interprets,
  back_end, analyzed, is_ast, is_tokens, after_parser, with_source, source_of, with_options,
  with_arguments, main,
}

-- The declarations that an action hands to a back end have sound crafts.
abbrev pub hands_over_sound : Action → Bool
hands_over_sound (exits status) = true
hands_over_sound (dumps_tokens source) = true
hands_over_sound (prints_tree tree) = true
hands_over_sound (reports_success declarations) = crafts_are_sound declarations
hands_over_sound (emits_c path declarations) = crafts_are_sound declarations
hands_over_sound (compiles path declarations) = crafts_are_sound declarations
hands_over_sound (interprets declarations) = crafts_are_sound declarations

-- There is an action, and what it hands over is sound.
pub record Acts (r : Option Action) : Type 0 where
  pub action : Action
  pub done : r ≡ some action
  pub sound : hands_over_sound action ≡ true

back_end_sound :
    (mode : Mode) (output : Option Bytes) (declarations : AstNodeList)
    → crafts_are_sound declarations ≡ true
    → hands_over_sound (back_end mode output declarations) ≡ true
unfolding back_end
back_end_sound mode_check output declarations h = h
back_end_sound mode_emit_c output declarations h = h
back_end_sound _ none declarations h = h
back_end_sound _ (some path) declarations h = h

passes_sound :
    (options : Options) (declarations : AstNodeList) (s : Analyzer)
    → s.loop_depth ≡ 0
    → Acts (analyzed options (some declarations, s))
unfolding analyzed
passes_sound options declarations s depth =
    elim (Bool-cases (run_passes declarations s).1.had_error) [
      | inl e ↦ record { action = exits 1; done = rw e; sound = refl }
      | inr e ↦ record {
        action = back_end options.mode options.output_path declarations;
        done = rw e;
        sound =
            back_end_sound options.mode options.output_path declarations
              (run_passes-crafts declarations s depth e);
      }
    ]

module _ (files : Files) (paths : List Bytes)
    (listed : (path : Bytes) → files.opens path ≡ true → path_on_stack paths path ≡ true) (fuel : ℕ)
    (enough : length paths ≤ fuel) where
  analyzed-Acts :
      (options : Options) (declarations : AstNodeList)
      → Acts (
          analyzed options (
            expand_wields files fuel declarations
              (from_path_of options.path)
              (source_pushed files options.path)))
  analyzed-Acts options declarations =
      let s = source_pushed files options.path in
      let few = unseen-bound s.wield_stack paths in
      let r =
        expand_wields-Completes files paths listed fuel declarations (from_path_of options.path) s
          (omega (arith, few, enough)) in
      let t = (expand_wields files fuel declarations (from_path_of options.path) s).1 in
      let depth = r.same_depth ∙ source_pushed_depth files options.path in
      let a = passes_sound options r.nodes t depth in
      record { action = a.action; done = rw r.done a.done; sound = a.sound }

  after_parser-Acts :
      (options : Options) (line : ℕ) (declarations : AstNodeList) (parser : Parser)
      → Acts (after_parser files fuel options (some (program line declarations, parser)))
  unfolding after_parser
  after_parser-Acts options line declarations parser = elim (Bool-cases parser.had_error) [
    | inl e ↦ record { action = exits 1; done = rw e; sound = refl }
    | inr e ↦ elim (Bool-cases (is_ast options.mode)) [
      | inl tree ↦ record {
        action = prints_tree (program line declarations);
        done = rw (e, tree);
        sound = refl;
      }
      | inr other ↦
          let a = analyzed-Acts options declarations in
          record { action = a.action; done = rw (e, other) a.done; sound = a.sound }
    ]
  ]

  with_source-Acts :
      (options : Options) (source : Bytes) → Acts (with_source files fuel options source)
  unfolding with_source
  with_source-Acts options source = elim (Bool-cases (is_tokens options.mode)) [
    | inl e ↦ record { action = dumps_tokens source; done = rw e; sound = refl }
    | inr e ↦
        let p = parse_source-Parsed source in
        let a = after_parser-Acts options p.line p.declarations p.parser in
        record { action = a.action; done = rw (e, p.done) a.done; sound = a.sound }
  ]

  with_options-Acts :
      (options : Options) (source : Option Bytes) → Acts (with_options files fuel options source)
  with_options-Acts options none = record { action = exits 1; done = refl; sound = refl }
  with_options-Acts options (some source) = with_source-Acts options source

  with_arguments-Acts :
      (stdin : Bytes) (arguments : Arguments) → Acts (with_arguments files fuel stdin arguments)
  with_arguments-Acts stdin (returns status) = record {
    action = exits status;
    done = refl;
    sound = refl;
  }
  with_arguments-Acts stdin (goes_on options) =
      with_options-Acts options (source_of files stdin options.path)

-- Where finitely many paths open, and the fuel is at least their number, `main` takes an action whatever
-- its arguments and its sources hold. What it hands to a back end are the declarations of the program
-- with all its imports, and in each craft of them every `snap` and `push` stands inside a loop, and each
-- craft whose result is no `k_void` yields on every path.
pub main-Acts :
    (files : Files) (paths : List Bytes)
    → ((path : Bytes) → files.opens path ≡ true → path_on_stack paths path ≡ true)
    → (fuel : ℕ) (stdin : Bytes) (args : List Bytes) → length paths ≤ fuel
    → Acts (main files fuel stdin args)
unfolding main
main-Acts files paths listed fuel stdin args enough =
    with_arguments-Acts files paths listed fuel enough stdin (read_arguments (sets no_options) args)
