-- ===== src/Wield/Outcome.antt =====
-- What `semantic_analyze_with_context` of src/semantic/semantic.c promises of a program with its imports.
use kratos_lang.Prelude.{
  ℕ, ◌≤◌, ◌≡◌, refl, ◌∙◌, ◌⊎◌, true, Bytes, List, length, Option, none, some, Bool-cases, inl, inr,
  arith,
}
use kratos_lang.Ast.{AstNodeList}
use kratos_lang.Semantic.State.{Analyzer}
use kratos_lang.Semantic.Program.{run_passes}
use kratos_lang.Semantic.Accepted.{crafts_are_sound, run_passes-crafts}
use kratos_lang.Wield.Expand.{Files, path_on_stack, stack_push, expand_wields}
use kratos_lang.Wield.Enough.{unseen-bound, expand_wields-Completes}
use kratos_lang.Wield.Analyze.{
  source_pushed, from_path_of, exit_code, semantic_analyze_with_context,
}

pub source_pushed_depth :
    (files : Files) (source_path : Option Bytes) → (source_pushed files source_path).loop_depth ≡ 0
unfolding source_pushed stack_push
source_pushed_depth files none = refl
source_pushed_depth files (some path) = ground arith

sound_or_refused :
    (nodes : AstNodeList) (t : Analyzer)
    → t.loop_depth ≡ 0
    → (exit_code (run_passes nodes t).1 ≡ 1) ⊎ (crafts_are_sound nodes ≡ true)
sound_or_refused nodes t depth = elim (Bool-cases (run_passes nodes t).1.had_error) [
  | inl e ↦ inl (rw e)
  | inr e ↦ inr (run_passes-crafts nodes t depth e)
]

-- The expanded declarations and the exit code: 1, or the crafts are sound.
pub record Outcome (files : Files) (fuel : ℕ) (program : AstNodeList) (source_path : Option Bytes)
    : Type 0 where
  pub declarations : AstNodeList
  pub code : ℕ
  pub expanded :
      (expand_wields files fuel program
        (from_path_of source_path)
        (source_pushed files source_path)).0
      ≡ some declarations
  pub returned : semantic_analyze_with_context files fuel program source_path ≡ some code
  pub sound : (code ≡ 1) ⊎ (crafts_are_sound declarations ≡ true)

-- Where finitely many paths open, and the fuel is at least their number, the analyzer returns an exit
-- code for the program with all its imports; that is 1, or in each craft of the expanded
-- declarations every `snap` and `push` stands inside a loop, and each craft whose result is no
-- `k_void` yields on every path.
pub semantic_analyze-Outcome :
    (files : Files) (paths : List Bytes)
    → ((path : Bytes) → files.opens path ≡ true → path_on_stack paths path ≡ true)
    → (fuel : ℕ) (program : AstNodeList) (source_path : Option Bytes) → length paths ≤ fuel
    → Outcome files fuel program source_path
unfolding semantic_analyze_with_context
semantic_analyze-Outcome files paths listed fuel program source_path enough =
    let s = source_pushed files source_path in
    let few = unseen-bound s.wield_stack paths in
    let r =
      expand_wields-Completes files paths listed fuel program (from_path_of source_path) s
        (omega (arith, few, enough)) in
    let t = (expand_wields files fuel program (from_path_of source_path) s).1 in
    record {
      declarations = r.nodes;
      code = exit_code (run_passes r.nodes t).1;
      expanded = r.done;
      returned = rw r.done refl;
      sound = sound_or_refused r.nodes t (r.same_depth ∙ source_pushed_depth files source_path);
    }
