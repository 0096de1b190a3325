-- ===== src/Codegen/ExprEmits.antt =====
-- `emit_expr` of src/codegen/codegen.c on printable expressions.
use kratos_lang.Prelude.{ℕ, ◌≡◌, Bool, true, false, Bytes, Option, ltb, arith, and_left, and_right}
use kratos_lang.Ast.{
  AstNode, AstNodeList, array_literal, binary_expr, call_expr, cons, field_init, identifier_expr,
  index_expr, literal_bool, literal_char, literal_float, literal_int, literal_string, member_expr,
  nil, record_literal, unary_expr,
}
use kratos_lang.Runtime.Value.{Numerics}
use kratos_lang.Codegen.Emitter.{◌>>◌, Context, Emit, between, put}
use kratos_lang.Codegen.Literals.{emit_char_literal, emit_string_literal}
use kratos_lang.Codegen.Expr.{
  array_depth, emit_arguments, emit_binary_op, emit_cast, emit_elements, emit_expr, emit_fields,
  first_is_array, is_plus, with_depth, with_nested,
}
use kratos_lang.Codegen.Printable.{printable_expr, printable_exprs, printable_fields}
use kratos_lang.Codegen.Emits.{Emits, Emits-if, Emits-put, Emits-skip, Emits-text, Emits-then}
use kratos_lang.Codegen.Depths.{
  Known, Told, array_depth-Known, first-Told, known, sound_context, told,
}

with_depth-Emits :
    (d : Option ℕ) (f : Bool → Emit)
    → Known d
    → ((nested : Bool) → Emits (f nested))
    → Emits (with_depth d f)
with_depth-Emits _ f (known depth) h = h (ltb 1 depth)

with_nested-Emits :
    (d : Option Bool) (f : Bool → Emit)
    → Told d
    → ((nested : Bool) → Emits (f nested))
    → Emits (with_nested d f)
with_nested-Emits _ f (told nested) h = h nested

pub between-Emits : (first : Bool) → Emits (between first)
between-Emits true = Emits-skip
between-Emits false = Emits-put _

cast-Emits : (nested : Bool) (m : Emit) → Emits m → Emits (emit_cast nested m)
cast-Emits true m h = h
cast-Emits false m h = Emits-text _ _ (Emits-then m _ h (Emits-put _))

char-Emits : (c : ℕ) → Emits (emit_char_literal c)
unfolding emit_char_literal
char-Emits c = Emits-text _ _ (Emits-text _ _ (Emits-put _))

-- A node between two texts.
wrapped : (m : Emit) (a b : Bytes) → Emits m → Emits (put a >> (m >> put b))
wrapped m a b h = Emits-text a _ (Emits-then m _ h (Emits-put b))

module _ (numerics : Numerics) (context : Context) (sound : sound_context context ≡ true) where
  abbrev expr : AstNode → Emit
  expr = emit_expr numerics context

  mutual
    unfolding printable_expr emit_expr emit_string_literal emit_binary_op

    pub emit_expr-Emits :
        (node : AstNode) → printable_expr node ≡ true → Emits (emit_expr numerics context node)
    emit_expr-Emits (literal_int line n) h = Emits-put _
    emit_expr-Emits (literal_float line text) h = Emits-put _
    emit_expr-Emits (literal_bool line b) h = Emits-put _
    emit_expr-Emits (literal_char line c) h = char-Emits c
    emit_expr-Emits (literal_string line text) h = Emits-put _
    emit_expr-Emits (identifier_expr line name) h = Emits-put _
    emit_expr-Emits (unary_expr line op operand) h =
        Emits-text _ _ (wrapped (expr operand) _ _ (emit_expr-Emits operand h))
    emit_expr-Emits (binary_expr line op left right) h =
        let l = emit_expr-Emits left (and_left _ (printable_expr right) h) in
        let r = emit_expr-Emits right (and_right (printable_expr left) _ h) in
        Emits-if (is_plus op) _ _
          (Emits-text _ _ (Emits-then (expr left) _ l (wrapped (expr right) _ _ r)))
          (Emits-text _ _ (Emits-then (expr left) _ l (wrapped (expr right) _ _ r)))
    emit_expr-Emits (call_expr line callee arguments) h =
        wrapped (emit_arguments numerics context true arguments) _ _
          (emit_arguments-Emits true arguments h)
    emit_expr-Emits (index_expr line array index) h =
        let a = and_left _ (printable_expr index) h in
        let i = emit_expr-Emits index (and_right (printable_expr array) _ h) in
        with_depth-Emits (array_depth context array) _ (array_depth-Known context array sound a)
          λ nested. Emits-text _ _ (
            Emits-text _ _ (
              Emits-then (expr array) _ (emit_expr-Emits array a)
                (Emits-text _ _ (Emits-then (expr index) _ i (Emits-text _ _ (Emits-put _))))))
    emit_expr-Emits (array_literal line nil) h = Emits-put _
    emit_expr-Emits (array_literal line (cons node nodes)) h =
        let n = emit_expr-Emits node (and_left _ (printable_exprs nodes) h) in
        let ns = and_right (printable_expr node) _ h in
        with_nested-Emits (first_is_array (cons node nodes)) _ (first-Told (cons node nodes) h)
          λ nested. Emits-text _ _ (
            Emits-then (emit_cast nested (expr node)) _ (cast-Emits nested (expr node) n) (
              Emits-then (emit_elements numerics context nested nodes) _
                (emit_elements-Emits nested nodes ns) (Emits-put _)))
    emit_expr-Emits (record_literal line name fields) h =
        wrapped (emit_fields numerics context true fields) _ _ (emit_fields-Emits true fields h)
    emit_expr-Emits (member_expr line target member) h =
        wrapped (expr target) _ _ (emit_expr-Emits target h)
    emit_expr-Emits _ h = absurd (ground (arith, h))

    emit_arguments-Emits :
        (first : Bool) (nodes : AstNodeList)
        → printable_exprs nodes ≡ true
        → Emits (emit_arguments numerics context first nodes)
    emit_arguments-Emits first nil h = Emits-skip
    emit_arguments-Emits first (cons node nodes) h =
        let n = emit_expr-Emits node (and_left _ (printable_exprs nodes) h) in
        let ns = emit_arguments-Emits false nodes (and_right (printable_expr node) _ h) in
        Emits-then (between first) _ (between-Emits first) (Emits-then (expr node) _ n ns)

    emit_elements-Emits :
        (nested : Bool) (nodes : AstNodeList)
        → printable_exprs nodes ≡ true
        → Emits (emit_elements numerics context nested nodes)
    emit_elements-Emits nested nil h = Emits-skip
    emit_elements-Emits nested (cons node nodes) h =
        let n = emit_expr-Emits node (and_left _ (printable_exprs nodes) h) in
        let ns = emit_elements-Emits nested nodes (and_right (printable_expr node) _ h) in
        Emits-text _ _
          (Emits-then (emit_cast nested (expr node)) _ (cast-Emits nested (expr node) n) ns)

    emit_fields-Emits :
        (first : Bool) (fields : AstNodeList)
        → printable_fields fields ≡ true
        → Emits (emit_fields numerics context first fields)
    emit_fields-Emits first nil h = Emits-skip
    emit_fields-Emits first (cons (field_init line name value) fields) h =
        let v = emit_expr-Emits value (and_left _ (printable_fields fields) h) in
        let fs = emit_fields-Emits false fields (and_right (printable_expr value) _ h) in
        Emits-then (between first) _ (between-Emits first)
          (Emits-text _ _ (Emits-then (expr value) _ v fs))
    emit_fields-Emits first (cons _ fields) h = absurd (ground (arith, h))
