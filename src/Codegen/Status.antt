-- ===== src/Codegen/Status.antt =====
-- `codegen_emit_c` of src/codegen/codegen.c on a printable program.
use kratos_lang.Prelude.{
  ℕ, ◌≡◌, refl, Bool, true, false, not, ◌&&◌, Bytes, List, Option, none, some, arith, and_left,
  and_right, and_intro,
}
use kratos_lang.Ast.{AstNode, AstNodeList, KratosType, block, cons, func_decl, nil, null, var_decl}
use kratos_lang.Semantic.Returns.{is_null}
use kratos_lang.Runtime.Value.{Numerics}
use kratos_lang.Codegen.Emitter.{◌>>◌, Emit, Emitter}
use kratos_lang.Codegen.Program.{
  codegen_emit_c, context, each, emit_function, emit_global, emit_init, emit_program,
  emit_prototype, emit_struct, emit_typedef, fresh, has_main, status_of,
}
use kratos_lang.Codegen.Printable.{
  printable, printable_body, printable_declaration, printable_params, printable_stmt,
  printable_stmts,
}
use kratos_lang.Codegen.Emits.{
  Emits, Emits-if, Emits-line, Emits-put, Emits-skip, Emits-text, Emits-then, Emitted,
  emit_c_type-Emits, emitted,
}
use kratos_lang.Codegen.Depths.{no_null, sound_function}
use kratos_lang.Codegen.ExprEmits.{emit_expr-Emits}
use kratos_lang.Codegen.StmtEmits.{emit_block_body-Emits}
use kratos_lang.Codegen.Margin.{
  AtMargin, AtMargin-Emits, AtMargin-body, AtMargin-text, AtMargin-then, each-Emits, each-keeps,
}
use kratos_lang.Codegen.DeclarationEmits.{
  emit_global-Emits, emit_prototype-Emits, emit_runtime-Emits, emit_struct-Emits,
  emit_typedef-Emits, signature-Emits,
}

printable_stmt-node : (node : AstNode) → printable_stmt node ≡ true → is_null node ≡ false
unfolding printable_stmt is_null
printable_stmt-node null h = absurd (ground (arith, h))
printable_stmt-node _ h = refl

printable_declaration-node :
    (node : AstNode) → printable_declaration node ≡ true → is_null node ≡ false
unfolding printable_declaration is_null
printable_declaration-node null h = absurd (ground (arith, h))
printable_declaration-node _ h = refl

not_null : (b c : Bool) → b ≡ false → c ≡ true → (not b && c) ≡ true
not_null b c h k = ground (arith, h, k)

printable_stmts-no_null :
    (nodes : AstNodeList) → printable_stmts nodes ≡ true → no_null nodes ≡ true
unfolding printable_stmt no_null
printable_stmts-no_null nil h = refl
printable_stmts-no_null (cons node nodes) h =
    not_null (is_null node) (no_null nodes)
      (printable_stmt-node node (and_left _ (printable_stmts nodes) h))
      (printable_stmts-no_null nodes (and_right (printable_stmt node) _ h))

printable-no_null : (nodes : AstNodeList) → printable nodes ≡ true → no_null nodes ≡ true
unfolding printable no_null
printable-no_null nil h = refl
printable-no_null (cons node nodes) h =
    not_null (is_null node) (no_null nodes)
      (printable_declaration-node node (and_left _ (printable nodes) h))
      (printable-no_null nodes (and_right (printable_declaration node) _ h))

-- The body of a craft, whose statements `array_depth` looks through.
body_sound :
    (line : ℕ) (type : KratosType) (record_name : Option Bytes) (name : Bytes)
    (params : AstNodeList) (body : AstNode)
    → printable_body body ≡ true
    → sound_function (some (func_decl line type record_name name params body)) ≡ true
unfolding printable_stmt
body_sound line type record_name name params (block l statements) h =
    printable_stmts-no_null statements h
body_sound line type record_name name params _ h = absurd (ground (arith, h))

module _ (numerics : Numerics) (declarations : AstNodeList)
    (h : printable declarations ≡ true) where
  emit_init-Emits :
      (node : AstNode)
      → printable_declaration node ≡ true
      → Emits (emit_init numerics declarations node)
  unfolding emit_init printable_declaration
  emit_init-Emits (var_decl line is_const depth type record_name name initializer) k =
      let sound = and_intro (no_null declarations) true (printable-no_null declarations h) refl in
      Emits-line _ (
        Emits-text _ _ (
          Emits-then _ _
            (emit_expr-Emits numerics (context numerics declarations none) sound initializer k)
            (Emits-put _)))
  emit_init-Emits _ k = Emits-skip

  emit_function-AtMargin :
      (node : AstNode)
      → printable_declaration node ≡ true
      → AtMargin (emit_function numerics declarations node)
  unfolding emit_function printable_declaration
  emit_function-AtMargin (func_decl line type record_name name params body) k =
      let func = func_decl line type record_name name params body in
      let b = and_right (printable_params params) (printable_body body) k in
      let sound =
        and_intro (no_null declarations) (sound_function (some func))
          (printable-no_null declarations h)
          (body_sound line type record_name name params body b) in
      let inner =
        emit_block_body-Emits numerics (context numerics declarations (some func)) sound body b in
      AtMargin-then _ _ (AtMargin-Emits _ (emit_c_type-Emits type 0 record_name)) (
        AtMargin-text _ _ (
          AtMargin-then _ _
            (AtMargin-Emits _ (signature-Emits true params (and_left _ (printable_body body) k)))
            (AtMargin-text _ _
              (AtMargin-then _ _ (AtMargin-body _ inner) (AtMargin-Emits _ (Emits-put _))))))
  emit_function-AtMargin _ k = AtMargin-Emits _ Emits-skip

  -- The loops of `codegen_emit_c` that keep the indent, with the text behind each.
  loop :
      (f : AstNode → Emit) (g : Emit)
      → ((node : AstNode) → printable_declaration node ≡ true → Emits (f node))
      → AtMargin g
      → AtMargin (each f declarations >> g)
  loop f g k m = AtMargin-then _ g (AtMargin-Emits _ (each-Emits f declarations k h)) m

  emit_program-AtMargin : AtMargin (emit_program numerics declarations)
  unfolding emit_program
  emit_program-AtMargin =
      let ending = AtMargin-Emits _ (
        Emits-then _ _ (Emits-if (has_main declarations) _ _ (Emits-put _) Emits-skip)
          (Emits-put _)) in
      let functions =
        AtMargin-then _ _
          (each-keeps AtMargin (emit_function numerics declarations) declarations
            (AtMargin-Emits _ Emits-skip) AtMargin-then emit_function-AtMargin h)
          (AtMargin-text _ _ ending) in
      let inits =
        AtMargin-then _ _
          (AtMargin-body _
            (each-Emits (emit_init numerics declarations) declarations emit_init-Emits h))
          (AtMargin-text _ _ functions) in
      let globals =
        loop emit_global _ emit_global-Emits (AtMargin-text _ _ (AtMargin-text _ _ inits)) in
      let prototypes = loop emit_prototype _ emit_prototype-Emits (AtMargin-text _ _ globals) in
      let structs = loop emit_struct _ emit_struct-Emits prototypes in
      AtMargin-then _ _ (AtMargin-Emits _ emit_runtime-Emits)
        (loop emit_typedef _ emit_typedef-Emits (AtMargin-text _ _ structs))

status-printed :
    (r : Option Emitter)
    → Emitted fresh r
    → (output : List Bytes) × (status_of r ≡ some (0, output))
status-printed _ (emitted e i h) = (e.output, rw h)

-- A program in which each node that is printed is of a kind that has C text, each body is a block and no
-- pointer on the way is null: the back end prints it, without an error, and comes to the status 0.
pub codegen_emit_c-prints :
    (numerics : Numerics) (declarations : AstNodeList)
    → printable declarations ≡ true
    → (output : List Bytes) × (codegen_emit_c numerics declarations ≡ some (0, output))
unfolding codegen_emit_c
codegen_emit_c-prints numerics declarations h =
    status-printed (emit_program numerics declarations fresh)
      (emit_program-AtMargin numerics declarations h fresh refl)
