-- ===== src/Codegen/StmtEmits.antt =====
-- `emit_stmt` of src/codegen/codegen.c on printable statements.
use kratos_lang.Prelude.{
  ◌≡◌, Bool, true, false, ◌&&◌, ◌||◌, Bytes, if◌then◌else◌, arith, and_left, and_right,
}
use kratos_lang.Ast.{
  AstNode, AstNodeList, assign, block, cond_branch, cons, drive_stmt, expr_stmt, hold_stmt, if_stmt,
  nil, null, press_stmt, push_stmt, record_decl, shout_stmt, snap_stmt, sweep_stmt, var_decl,
  yield_stmt,
}
use kratos_lang.Semantic.Returns.{is_null}
use kratos_lang.Runtime.Value.{Numerics}
use kratos_lang.Codegen.Emitter.{◌>>◌, Context, Emit, emit_c_type, emit_indent, indented, put, skip}
use kratos_lang.Codegen.Stmt.{
  closing, emit_block_body, emit_branches, emit_statements, emit_step, emit_stmt, expr,
}
use kratos_lang.Codegen.Printable.{
  printable_body, printable_branches, printable_expr, printable_step, printable_stmt,
  printable_stmts,
}
use kratos_lang.Codegen.Emits.{
  Emits, Emits-indented, Emits-line, Emits-put, Emits-skip, Emits-text, Emits-then,
  emit_c_type-Emits,
}
use kratos_lang.Codegen.Depths.{sound_context}
use kratos_lang.Codegen.ExprEmits.{emit_expr-Emits}

closing-Emits : Emits closing
closing-Emits = Emits-line _ (Emits-put _)

-- A block of its own, behind its first line.
closed : (m : Emit) → Emits m → Emits (indented m >> closing)
closed m h = Emits-then (indented m) _ (Emits-indented m h) closing-Emits

-- A node with the end of its line.
ended : (m : Emit) (text : Bytes) → Emits m → Emits (m >> put text)
ended m text h = Emits-then m _ h (Emits-put text)

-- A pointer that may be null.
optional-Emits :
    (b ok : Bool) (f g : Emit)
    → (b || ok) ≡ true
    → Emits f
    → (ok ≡ true → Emits g)
    → Emits (if b then f else g)
optional-Emits true ok f g h a k = a
optional-Emits false ok f g h a k = k h

step-Emits :
    (step : AstNode) (statement expression : Emit)
    → printable_step step ≡ true
    → (printable_stmt step ≡ true → Emits statement)
    → (printable_expr step ≡ true → Emits expression)
    → Emits (emit_step step statement expression)
unfolding printable_stmt printable_expr
step-Emits null s x h a b = absurd (ground (arith, h))
step-Emits (assign line target value) s x h a b = a h
step-Emits _ s x h a b = Emits-line _ (ended x _ (b h))

module _ (numerics : Numerics) (context : Context) (sound : sound_context context ≡ true) where
  expr-Emits : (node : AstNode) → printable_expr node ≡ true → Emits (expr numerics context node)
  expr-Emits node h = emit_expr-Emits numerics context sound node h

  -- A line with one expression.
  line-Emits :
      (node : AstNode) (a b : Bytes)
      → printable_expr node ≡ true
      → Emits (emit_indent >> (put a >> (expr numerics context node >> put b)))
  line-Emits node a b h =
      Emits-line _ (Emits-text a _ (ended (expr numerics context node) b (expr-Emits node h)))

  mutual
    unfolding printable_stmt emit_stmt

    pub emit_stmt-Emits :
        (node : AstNode) → printable_stmt node ≡ true → Emits (emit_stmt numerics context node)
    emit_stmt-Emits (record_decl line name fields) h = Emits-skip
    emit_stmt-Emits (var_decl line is_const depth type record_name name initializer) h =
        Emits-line _ (
          Emits-then (emit_c_type type depth record_name) _
            (emit_c_type-Emits type depth record_name)
            (Emits-text _ _
              (ended (expr numerics context initializer) _ (expr-Emits initializer h))))
    emit_stmt-Emits (block line statements) h = Emits-line _ (
        Emits-text _ _ (
          closed (emit_statements numerics context statements)
            (emit_statements-Emits statements h)))
    emit_stmt-Emits (if_stmt line branches else_block) h =
        let b =
          emit_branches-Emits true branches
            (and_left _ (is_null else_block || printable_body else_block) h) in
        let e =
          optional-Emits (is_null else_block) (printable_body else_block) skip _
            (and_right (printable_branches branches) _ h) Emits-skip
            (λ ok. Emits-line _ (
              Emits-text _ _ (
                Emits-indented (emit_block_body numerics context else_block)
                  (emit_block_body-Emits else_block ok)))) in
        Emits-then (emit_branches numerics context true branches) _ b
          (Emits-then _ closing e closing-Emits)
    emit_stmt-Emits (hold_stmt line condition body) h =
        let c = expr-Emits condition (and_left _ (printable_body body) h) in
        let b = emit_block_body-Emits body (and_right (printable_expr condition) _ h) in
        Emits-line _ (
          Emits-text _ _ (
            Emits-then (expr numerics context condition) _ c
              (Emits-text _ _ (closed (emit_block_body numerics context body) b))))
    emit_stmt-Emits (press_stmt line body condition) h =
        let b = emit_block_body-Emits body (and_left _ (printable_expr condition) h) in
        let c = expr-Emits condition (and_right (printable_body body) _ h) in
        let m = emit_block_body numerics context body in
        Emits-line _ (
          Emits-text _ _ (
            Emits-then (indented m) _ (Emits-indented m b)
              (Emits-line _ (Emits-text _ _ (ended (expr numerics context condition) _ c)))))
    emit_stmt-Emits (drive_stmt line init condition step body) h =
        let h1 =
          and_left (printable_stmt init && printable_expr condition && printable_step step)
            (printable_body body) h in
        let h2 =
          and_left (printable_stmt init && printable_expr condition) (printable_step step) h1 in
        let i = emit_stmt-Emits init (and_left _ (printable_expr condition) h2) in
        let c = expr-Emits condition (and_right (printable_stmt init) _ h2) in
        let s =
          step-Emits step (emit_stmt numerics context step) (expr numerics context step)
            (and_right (printable_stmt init && printable_expr condition) _ h1)
            (emit_stmt-Emits step) (expr-Emits step) in
        let b = emit_block_body-Emits body (
          and_right (printable_stmt init && printable_expr condition && printable_step step) _ h) in
        Emits-line _ (
          Emits-text _ _ (
            closed _ (
              Emits-then (emit_stmt numerics context init) _ i (
                Emits-line _ (
                  Emits-text _ _ (
                    Emits-then (expr numerics context condition) _ c (
                      Emits-text _ _
                        (closed _ (Emits-then (emit_block_body numerics context body) _ b s)))))))))
    emit_stmt-Emits (sweep_stmt line type record_name element collection body) h = Emits-line _ (
        Emits-text _ _ (
          closed _ (
            Emits-line _ (
              Emits-then (emit_c_type type 0 record_name) _ (emit_c_type-Emits type 0 record_name)
                (Emits-text _ _ (emit_block_body-Emits body h))))))
    emit_stmt-Emits (snap_stmt line) h = Emits-line _ (Emits-put _)
    emit_stmt-Emits (push_stmt line) h = Emits-line _ (Emits-put _)
    emit_stmt-Emits (yield_stmt line value) h = Emits-line _ (
        optional-Emits (is_null value) (printable_expr value) _ _ h (Emits-put _)
          (λ ok. Emits-text _ _ (ended (expr numerics context value) _ (expr-Emits value ok))))
    emit_stmt-Emits (shout_stmt line value) h = line-Emits value _ _ h
    emit_stmt-Emits (assign line target value) h =
        let t = expr-Emits target (and_left _ (printable_expr value) h) in
        let v = expr-Emits value (and_right (printable_expr target) _ h) in
        Emits-line _ (
          Emits-then (expr numerics context target) _ t
            (Emits-text _ _ (ended (expr numerics context value) _ v)))
    emit_stmt-Emits (expr_stmt line expression) h =
        Emits-line _ (ended (expr numerics context expression) _ (expr-Emits expression h))
    emit_stmt-Emits _ h = absurd (ground (arith, h))

    emit_statements-Emits :
        (nodes : AstNodeList)
        → printable_stmts nodes ≡ true
        → Emits (emit_statements numerics context nodes)
    emit_statements-Emits nil h = Emits-skip
    emit_statements-Emits (cons node nodes) h =
        Emits-then (emit_stmt numerics context node) _
          (emit_stmt-Emits node (and_left _ (printable_stmts nodes) h))
          (emit_statements-Emits nodes (and_right (printable_stmt node) _ h))

    pub emit_block_body-Emits :
        (node : AstNode)
        → printable_body node ≡ true
        → Emits (emit_block_body numerics context node)
    emit_block_body-Emits (block line statements) h = emit_statements-Emits statements h
    emit_block_body-Emits _ h = absurd (ground (arith, h))

    emit_branches-Emits :
        (first : Bool) (branches : AstNodeList)
        → printable_branches branches ≡ true
        → Emits (emit_branches numerics context first branches)
    emit_branches-Emits first nil h = Emits-skip
    emit_branches-Emits first (cons (cond_branch line condition body) branches) h =
        let h1 =
          and_left (printable_expr condition && printable_body body) (printable_branches branches)
            h in
        let c = expr-Emits condition (and_left _ (printable_body body) h1) in
        let b = emit_block_body-Emits body (and_right (printable_expr condition) _ h1) in
        let bs =
          emit_branches-Emits false branches
            (and_right (printable_expr condition && printable_body body) _ h) in
        let m = emit_block_body numerics context body in
        Emits-line _ (
          Emits-text _ _ (
            Emits-then (expr numerics context condition) _ c
              (Emits-text _ _ (Emits-then (indented m) _ (Emits-indented m b) bs))))
    emit_branches-Emits first (cons _ branches) h = absurd (ground (arith, h))
