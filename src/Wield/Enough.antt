-- ===== src/Wield/Enough.antt =====
-- The expansion of `wield` in src/semantic/semantic.c ends: where finitely many paths open, files that
-- are being read are never read again inside themselves, so that the depth is at most their number.
use kratos_lang.Prelude.{
  ℕ, zero, suc, ◌+◌, ◌≤◌, ◌≡◌, refl, ◌∙◌, ap, true, false, Bytes, bytes_eq, bytes_eq_iff,
  bytes_eq_refl, List, [], ◌∷◌, Option, none, some, length, Bool-cases, inl, inr, arith,
  if◌then◌else◌,
}
use kratos_lang.Ast.{AstNodeList, nil, cons, wield_stmt}
use kratos_lang.Semantic.State.{Analyzer, semantic_error}
use kratos_lang.Parser.Program.{parse_declarations}
use kratos_lang.Wield.Paths.{kratos_dirname_dup, kratos_join_path}
use kratos_lang.Wield.Expand.{
  Files, path_on_stack, stack_push, popped, Expanded, reported, parsed, after_parse, append_nodes,
  parse_source_file, expand_wield, expand_nodes, expand_parsed, import_file, expand_wields,
}

-- The paths that are listed and not on the stack.
unfoldable pub unseen : List Bytes → List Bytes → ℕ
unseen stack [] = 0
unseen stack (path ∷ paths) = (if path_on_stack stack path then 0 else 1) + unseen stack paths

unseen-push :
    (top : Bytes) (stack paths : List Bytes) → unseen (top ∷ stack) paths ≤ unseen stack paths
unfolding unseen path_on_stack
unseen-push top stack [] = omega arith
unseen-push top stack (path ∷ paths) = ground (arith, unseen-push top stack paths)

pub unseen-bound : (stack paths : List Bytes) → unseen stack paths ≤ length paths
unfolding unseen
unseen-bound stack [] = omega arith
unseen-bound stack (path ∷ paths) = ground (arith, unseen-bound stack paths)

-- A listed path that is put on the stack is one less.
unseen-less :
    (top : Bytes) (stack paths : List Bytes)
    → path_on_stack paths top ≡ true
    → path_on_stack stack top ≡ false
    → suc (unseen (top ∷ stack) paths) ≤ unseen stack paths
unfolding unseen path_on_stack
unseen-less top stack [] h new = ground (arith, h)
unseen-less top stack (path ∷ paths) h new = elim (Bool-cases (bytes_eq path top)) [
  | inl e ↦
      let same = (bytes_eq_iff path top).0 e in
      let fresh : path_on_stack stack path ≡ false = rw same new in
      let seen : bytes_eq top path ≡ true = rw same (bytes_eq_refl top) in
      ground (arith, fresh, seen, unseen-push top stack paths)
  | inr e ↦ ground (arith, h, e, unseen-less top stack paths, new)
]

-- The expansion has a result, and the stack and the depth of loops are as they were.
pub record Completes (s : Analyzer) (r : Expanded) : Type 0 where
  pub nodes : AstNodeList
  pub done : r.0 ≡ some nodes
  pub same_stack : r.1.wield_stack ≡ s.wield_stack
  pub same_depth : r.1.loop_depth ≡ s.loop_depth

reported-Completes : (line : ℕ) (m : Bytes) (s : Analyzer) → Completes s (reported line m s)
unfolding semantic_error
reported-Completes line m s = record {
  nodes = nil;
  done = refl;
  same_stack = refl;
  same_depth = refl;
}

after_parse_stack :
    (nodes : Option AstNodeList) (s : Analyzer)
    → (after_parse nodes s).1.wield_stack ≡ s.wield_stack
after_parse_stack none s = refl
after_parse_stack (some nodes) s = refl

after_parse_depth :
    (nodes : Option AstNodeList) (s : Analyzer) → (after_parse nodes s).1.loop_depth ≡ s.loop_depth
after_parse_depth none s = refl
after_parse_depth (some nodes) s = refl

module _ (files : Files) (paths : List Bytes)
    (listed : (path : Bytes) → files.opens path ≡ true → path_on_stack paths path ≡ true) where
  -- Imports that complete, with fuel above the files that are left.
  abbrev Imports : ℕ → (Bytes → Analyzer → Expanded) → Type 0
  Imports fuel import =
      (path : Bytes) (s : Analyzer)
      → files.opens path ≡ true
      → path_on_stack s.wield_stack path ≡ false
      → unseen s.wield_stack paths ≤ fuel
      → Completes s (import path s)

  module _ (fuel : ℕ) (import : Bytes → Analyzer → Expanded) (imports : Imports fuel import) where
    expand_wield-Completes :
        (line : ℕ) (path : Bytes) (s : Analyzer)
        → unseen s.wield_stack paths ≤ fuel
        → Completes s (expand_wield files import line path s)
    unfolding expand_wield
    expand_wield-Completes line path s h = elim (Bool-cases (files.opens path)) [
      | inl e ↦ elim (Bool-cases (path_on_stack s.wield_stack path)) [
        | inl on ↦ rw (e, expand_wield, on) (reported-Completes line _ s)
        | inr new ↦ rw (e, expand_wield, new) (imports path s e new h)
      ]
      | inr e ↦ rw (e, expand_wield) (reported-Completes line _ s)
    ]

    expand_nodes-Completes :
        (dir : Bytes) (nodes : AstNodeList) (s : Analyzer)
        → unseen s.wield_stack paths ≤ fuel
        → Completes s (expand_nodes files import dir nodes s)
    unfolding expand_nodes
    expand_nodes-Completes dir nil s h = record {
      nodes = nil;
      done = refl;
      same_stack = refl;
      same_depth = refl;
    }
    expand_nodes-Completes dir (cons (wield_stmt line path) nodes) s h =
        let first = expand_wield-Completes line (kratos_join_path dir path) s h in
        let t = (expand_wield files import line (kratos_join_path dir path) s).1 in
        let rest = expand_nodes-Completes dir nodes t (rw first.same_stack h) in
        record {
          nodes = append_nodes first.nodes rest.nodes;
          done = rw (first.done, rest.done);
          same_stack = rest.same_stack ∙ first.same_stack;
          same_depth = rest.same_depth ∙ first.same_depth;
        }
    expand_nodes-Completes dir (cons node nodes) s h =
        let rest = expand_nodes-Completes dir nodes s h in
        record {
          nodes = append_nodes (cons node nil) rest.nodes;
          done = rw rest.done;
          same_stack = rest.same_stack;
          same_depth = rest.same_depth;
        }

  expand_parsed-Completes :
      (fuel : ℕ) (import : Bytes → Analyzer → Expanded)
      → Imports fuel import
      → (dir : Bytes) (source : Option AstNodeList × Analyzer)
      → unseen source.1.wield_stack paths ≤ fuel
      → Completes source.1 (expand_parsed files import dir source)
  expand_parsed-Completes fuel import imports dir (none, s) h = record {
    nodes = nil;
    done = refl;
    same_stack = refl;
    same_depth = refl;
  }
  expand_parsed-Completes fuel import imports dir (some nodes, s) h =
      expand_nodes-Completes fuel import imports dir nodes s h

  parsed_stack :
      (source : Option Bytes) (s : Analyzer) → (parsed source s).1.wield_stack ≡ s.wield_stack
  parsed_stack none s = refl
  parsed_stack (some source) s = after_parse_stack (parse_declarations source) s

  parsed_depth :
      (source : Option Bytes) (s : Analyzer) → (parsed source s).1.loop_depth ≡ s.loop_depth
  parsed_depth none s = refl
  parsed_depth (some source) s = after_parse_depth (parse_declarations source) s

  parse_source_file_stack :
      (path : Bytes) (s : Analyzer) → (parse_source_file files path s).1.wield_stack ≡ s.wield_stack
  unfolding parse_source_file
  parse_source_file_stack path s = parsed_stack (files.read_file path) s

  parse_source_file_depth :
      (path : Bytes) (s : Analyzer) → (parse_source_file files path s).1.loop_depth ≡ s.loop_depth
  unfolding parse_source_file
  parse_source_file_depth path s = parsed_depth (files.read_file path) s

  import_file-Completes : (fuel : ℕ) → Imports fuel (import_file files fuel)
  unfolding import_file
  import_file-Completes zero path s e new h =
      let less = unseen-less path s.wield_stack paths (listed path e) new in
      absurd (omega (arith, less, h))
  import_file-Completes (suc fuel) path s e new h =
      let less = unseen-less path s.wield_stack paths (listed path e) new in
      let pushed = stack_push path s in
      let source = parse_source_file files path pushed in
      let stack : source.1.wield_stack ≡ path ∷ s.wield_stack =
        parse_source_file_stack path pushed in
      let r =
        expand_parsed-Completes fuel (import_file files fuel) (import_file-Completes fuel)
          (kratos_dirname_dup path) source (rw stack (omega (arith, less, h))) in
      record {
        nodes = r.nodes;
        done = r.done;
        same_stack = ap popped (r.same_stack ∙ stack);
        same_depth = r.same_depth ∙ parse_source_file_depth path pushed;
      }

  -- With fuel for each path that opens and is not on the stack, the expansion of a file's declarations
  -- ends with a list of declarations, and with the stack of files and the depth of loops as they were.
  pub expand_wields-Completes :
      (fuel : ℕ) (nodes : AstNodeList) (from_path : Bytes) (s : Analyzer)
      → unseen s.wield_stack paths ≤ fuel
      → Completes s (expand_wields files fuel nodes from_path s)
  unfolding expand_wields
  expand_wields-Completes fuel nodes from_path s h =
      expand_nodes-Completes fuel (import_file files fuel) (import_file-Completes fuel)
        (kratos_dirname_dup from_path) nodes s h
