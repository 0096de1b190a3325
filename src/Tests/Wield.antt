-- ===== src/Tests/Wield.antt =====
-- Runs of the imports of src/semantic and src/utils on small inputs.
use kratos_lang.Prelude.{
  ◌≡◌, refl, true, Bytes, codes, some, List, [], ◌∷◌, arith, bytes_eq, Bool-cases, inl, inr,
  bytes_eq_iff, ◌||◌,
}
use kratos_lang.Ast.{AstNodeList, nil, cons, wield_stmt}
use kratos_lang.Semantic.Program.{initial}
use kratos_lang.Wield.Paths.{kratos_dirname_dup, kratos_join_path, ends_in_slash}
use kratos_lang.Wield.PathsRoundTrip.{kratos_dirname_dup-kratos_join_path}
use kratos_lang.Wield.Expand.{Files, path_on_stack, expand_wields}
use kratos_lang.Wield.Outcome.{Outcome, semantic_analyze-Outcome}
use kratos_lang.Wield.Enough.{unseen, Completes, expand_wields-Completes}
use kratos_lang.Tests.Semantic.{main_program}

-- Two files that import each other, and themselves.
abbrev pub two_files : Files
two_files = record {
  opens = λ path. bytes_eq path (codes "a") || bytes_eq path (codes "b");
  read_file = λ path. some (codes "wield \"b\"; wield \"a\";");
}

abbrev pub two_paths : List Bytes
two_paths = codes "a" ∷ codes "b" ∷ []

pub two_files-listed :
    (path : Bytes) → two_files.opens path ≡ true → path_on_stack two_paths path ≡ true
unfolding path_on_stack
two_files-listed path h = elim (Bool-cases (bytes_eq path (codes "a"))) [
  | inl e ↦ rw ((bytes_eq_iff path (codes "a")).0 e) (unfold bytes_eq in refl)
  | inr e ↦ rw ((bytes_eq_iff path (codes "b")).0 (ground (arith, h, e))) (unfold bytes_eq in refl)
]

abbrev importing_program : AstNodeList
importing_program = cons (wield_stmt 1 (codes "a")) nil

expand_wields-Completes_example :
    Completes initial (expand_wields two_files 2 importing_program (codes "main") initial)
expand_wields-Completes_example =
    expand_wields-Completes two_files two_paths two_files-listed 2 importing_program (codes "main")
      initial (unfold unseen in unfold path_on_stack in omega arith)

kratos_dirname_dup-kratos_join_path_example :
    kratos_dirname_dup (kratos_join_path (codes "lib") (codes "a.kratos")) ≡ codes "lib"
kratos_dirname_dup-kratos_join_path_example =
    kratos_dirname_dup-kratos_join_path (codes "lib") (codes "a.kratos") (unfold bytes_eq in refl)
      (unfold bytes_eq in refl) (unfold ends_in_slash in refl) refl

semantic_analyze-Outcome_example : Outcome two_files 2 main_program (some (codes "main"))
semantic_analyze-Outcome_example =
    semantic_analyze-Outcome two_files two_paths two_files-listed 2 main_program
      (some (codes "main")) (omega arith)
