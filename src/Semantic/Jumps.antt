-- ===== src/Semantic/Jumps.antt =====
-- What `semantic_analyze` guarantees of `snap` and `push`, and of the paths through a craft.
use kratos_lang.Prelude.{
  ℕ, ◌+◌, Bool, true, false, not, ◌&&◌, ◌≡◌, refl, if◌then◌else◌, ◌==◌, arith, [], ◌∷◌, Bool-cases,
  inl, inr, and_intro,
}
use kratos_lang.Ast.{
  AstNode, AstNodeList, nil, cons, null, block, if_stmt, cond_branch, hold_stmt, press_stmt,
  drive_stmt, sweep_stmt, snap_stmt, push_stmt, is_assign,
}
use kratos_lang.Semantic.State.{
  Analyzer, M, pure, message, semantic_error, enter_scope, leave_scope,
}
use kratos_lang.Semantic.Returns.{is_null}
use kratos_lang.Semantic.Stmt.{
  check_condition, enter_loop, leave_loop, check_only, check_jump, check_stmt, check_stmts,
  check_branches,
}
use kratos_lang.Semantic.Keeps.{OnlyReports-pure}
use kratos_lang.Semantic.Declares.{
  Grows, OnlyDeclares, grown, OnlyDeclares-reports, OnlyDeclares-if,
}
use kratos_lang.Semantic.StmtDeclares.{
  check_condition-OnlyReports, check_only-OnlyReports, check_stmt-OnlyDeclares,
  check_stmts-OnlyDeclares, check_branches-OnlyDeclares,
}

-- Each `snap` and `push` of a statement stands inside a loop; the flag says that the statement itself does.
unfoldable mutual
  pub jumps_in_loops : Bool → AstNode → Bool
  jumps_in_loops inside (snap_stmt line) = inside
  jumps_in_loops inside (push_stmt line) = inside
  jumps_in_loops inside (block line statements) = all_in_loops inside statements
  jumps_in_loops inside (if_stmt line branches else_block) =
      branches_in_loops inside branches && jumps_in_loops inside else_block
  jumps_in_loops inside (hold_stmt line condition body) = jumps_in_loops true body
  jumps_in_loops inside (press_stmt line body condition) = jumps_in_loops true body
  jumps_in_loops inside (drive_stmt line init condition step body) = jumps_in_loops true body
  jumps_in_loops inside (sweep_stmt line type record_name element collection body) =
      jumps_in_loops true body
  jumps_in_loops inside _ = true

  pub all_in_loops : Bool → AstNodeList → Bool
  all_in_loops inside nil = true
  all_in_loops inside (cons node nodes) = jumps_in_loops inside node && all_in_loops inside nodes

  pub branches_in_loops : Bool → AstNodeList → Bool
  branches_in_loops inside nil = true
  branches_in_loops inside (cons (cond_branch line condition body) branches) =
      jumps_in_loops inside body && branches_in_loops inside branches
  branches_in_loops inside (cons other branches) = branches_in_loops inside branches

-- Where a computation ends with no error there was none before it.
pub no_error_before :
    {m : M (Unit {0})} (s : Analyzer)
    → OnlyDeclares m
    → (m s).1.had_error ≡ false
    → s.had_error ≡ false
no_error_before {m} s d h = ground (arith, (grown s d).errors)

abbrev in_loop : Analyzer → Bool
in_loop s = not (s.loop_depth == 0)

abbrev JumpsAt : Analyzer → AstNode → Type 0
JumpsAt s node = (check_stmt node s).1.had_error ≡ false → jumps_in_loops (in_loop s) node ≡ true

in_loop-Grows : {a b : Analyzer} → Grows a b → in_loop b ≡ in_loop a
in_loop-Grows g = rw g.loop_depth

check_jump-in_loop :
    (line : ℕ) (s : Analyzer) → (check_jump line s).1.had_error ≡ false → in_loop s ≡ true
unfolding check_jump semantic_error
check_jump-in_loop line s h = ground arith

-- A body that is checked inside a loop.
loop_body :
    (s : Analyzer) (body : AstNode)
    → ((t : Analyzer) → JumpsAt t body)
    → (check_stmt body (enter_loop s).1).1.had_error ≡ false
    → jumps_in_loops true body ≡ true
unfolding enter_loop
loop_body s body ih h =
    let inside : in_loop (record s { loop_depth = s.loop_depth + 1 }) ≡ true = ground arith in
    rw inside at (ih (record s { loop_depth = s.loop_depth + 1 }) h)

null-jumps :
    (inside : Bool) (node : AstNode) → is_null node ≡ true → jumps_in_loops inside node ≡ true
unfolding is_null jumps_in_loops
null-jumps inside null h = refl
null-jumps inside _ h = cc

abbrev check_else : AstNode → M (Unit {0})
check_else node = if not (is_null node) then check_stmt node else pure tt

else-checked :
    (node : AstNode) (s : Analyzer)
    → is_null node ≡ false
    → (check_else node s).1.had_error ≡ false
    → (check_stmt node s).1.had_error ≡ false
else-checked node s e h = ground arith

check_else-OnlyDeclares : (node : AstNode) → OnlyDeclares (check_else node)
check_else-OnlyDeclares node =
    OnlyDeclares-if (not (is_null node)) (check_stmt-OnlyDeclares node)
      (OnlyDeclares-reports (OnlyReports-pure tt))

else-jumps :
    (node : AstNode) (s : Analyzer)
    → JumpsAt s node
    → (check_else node s).1.had_error ≡ false
    → jumps_in_loops (in_loop s) node ≡ true
else-jumps node s ih h = elim (Bool-cases (is_null node)) [
  | inl e ↦ null-jumps (in_loop s) node e
  | inr e ↦ ih (else-checked node s e h)
]

abbrev check_step : AstNode → M (Unit {0})
check_step step = if is_assign step then check_stmt step else check_only step

check_step-OnlyDeclares : (step : AstNode) → OnlyDeclares (check_step step)
check_step-OnlyDeclares step =
    OnlyDeclares-if (is_assign step) (check_stmt-OnlyDeclares step)
      (OnlyDeclares-reports (check_only-OnlyReports step))

-- The sum of two parts of a statement, the second checked in a later state.
both-jumps :
    (s t : Analyzer) (f g : Bool → Bool)
    → Grows s t
    → f (in_loop s) ≡ true
    → g (in_loop t) ≡ true
    → (f (in_loop s) && g (in_loop s)) ≡ true
both-jumps s t f g grows p q =
    and_intro (f (in_loop s)) (g (in_loop s)) p (rw (in_loop-Grows grows) at q)

mutual
  unfolding check_stmt jumps_in_loops enter_scope leave_scope leave_loop

  stmt-jumps : (node : AstNode) (s : Analyzer) → JumpsAt s node
  stmt-jumps (snap_stmt line) s h = check_jump-in_loop line s h
  stmt-jumps (push_stmt line) s h = check_jump-in_loop line s h
  stmt-jumps (block line statements) s h =
      stmts-jumps statements (record s { scope = [] ∷ s.scope }) h
  stmt-jumps (if_stmt line branches else_block) s h =
      let grows = grown s (check_branches-OnlyDeclares branches) in
      let t = (check_branches branches s).1 in
      let clean = no_error_before t (check_else-OnlyDeclares else_block) h in
      both-jumps s t (λ b. branches_in_loops b branches) (λ b. jumps_in_loops b else_block) grows
        (branches-jumps branches s clean) (else-jumps else_block t (stmt-jumps else_block t) h)
  stmt-jumps (hold_stmt line condition body) s h = loop_body _ body (stmt-jumps body) h
  stmt-jumps (press_stmt line body condition) s h = loop_body _ body (stmt-jumps body) h
  stmt-jumps (drive_stmt line init condition step body) s h =
      loop_body _ body (stmt-jumps body) (no_error_before _ (check_step-OnlyDeclares step) h)
  stmt-jumps (sweep_stmt line type record_name element collection body) s h =
      loop_body _ body (stmt-jumps body) h
  stmt-jumps _ s h = refl

  stmts-jumps :
      (nodes : AstNodeList) (s : Analyzer)
      → (check_stmts nodes s).1.had_error ≡ false
      → all_in_loops (in_loop s) nodes ≡ true
  stmts-jumps nil s h = refl
  stmts-jumps (cons node nodes) s h =
      let t = (check_stmt node s).1 in
      let clean = no_error_before t (check_stmts-OnlyDeclares nodes) h in
      both-jumps s t (λ b. jumps_in_loops b node) (λ b. all_in_loops b nodes)
        (grown s (check_stmt-OnlyDeclares node)) (stmt-jumps node s clean) (stmts-jumps nodes t h)

  branches-jumps :
      (nodes : AstNodeList) (s : Analyzer)
      → (check_branches nodes s).1.had_error ≡ false
      → branches_in_loops (in_loop s) nodes ≡ true
  branches-jumps nil s h = refl
  branches-jumps (cons (cond_branch line condition body) branches) s h =
      let tested = check_condition line (message "la condizione deve essere k_bool") condition in
      let u = (tested s).1 in
      let t = (check_stmt body u).1 in
      let condition_text = message "la condizione deve essere k_bool" in
      let reported = check_condition-OnlyReports line condition_text condition in
      let first = grown s (OnlyDeclares-reports reported) in
      let clean = no_error_before t (check_branches-OnlyDeclares branches) h in
      let inner =
        both-jumps u t (λ b. jumps_in_loops b body) (λ b. branches_in_loops b branches)
          (grown u (check_stmt-OnlyDeclares body)) (stmt-jumps body u clean)
          (branches-jumps branches t h) in
      rw (in_loop-Grows first) at inner
  branches-jumps (cons other branches) s h = branches-jumps branches s h

-- A statement that is checked without an error has each of its `snap`s and `push`es inside a loop,
-- one around the statement counted.
pub check_stmt-jumps :
    (node : AstNode) (s : Analyzer)
    → (check_stmt node s).1.had_error ≡ false
    → jumps_in_loops (not (s.loop_depth == 0)) node ≡ true
check_stmt-jumps node s h = stmt-jumps node s h
