-- ===== src/Codegen/Depths.antt =====
-- `array_depth` of src/codegen/codegen.c finds a depth where no list that it searches holds a null pointer.
use kratos_lang.Prelude.{
  ℕ, ◌-◌, ◌≡◌, refl, Bool, true, false, not, ◌&&◌, Bytes, bytes_eq, Option, none, some,
  if◌then◌else◌, arith, and_left, and_right,
}
use kratos_lang.Ast.{
  AstNode, AstNodeList, array_literal, cons, identifier_expr, index_expr, nil, null, var_decl,
}
use kratos_lang.Semantic.Returns.{is_null}
use kratos_lang.Codegen.Emitter.{Context}
use kratos_lang.Codegen.Expr.{
  Declared, array_depth, body_statements, declared_depth, depth_behind, depth_found, depth_in_body,
  depth_in_function, element_depth, first_is_array, found, literal_depth, missing, no_node,
}
use kratos_lang.Codegen.Printable.{printable_expr, printable_exprs}

-- No null pointer among the nodes.
unfoldable pub no_null : AstNodeList → Bool
unfolding is_null
no_null nil = true
no_null (cons node nodes) = not (is_null node) && no_null nodes

abbrev pub sound_body : Option AstNodeList → Bool
sound_body none = false
sound_body (some statements) = no_null statements

abbrev pub sound_function : Option AstNode → Bool
sound_function none = true
sound_function (some func) = sound_body (body_statements func)

-- The lists that the depth of an array is looked up in.
abbrev pub sound_context : Context → Bool
sound_context context = no_null context.declarations && sound_function context.function

-- A depth that is known.
pub data Known : Option ℕ → Type 0 where
  known : (depth : ℕ) → Known (some depth)

abbrev is_no_node : Declared → Bool
is_no_node no_node = true
is_no_node _ = false

declared_if :
    (b : Bool) (depth : ℕ) (d : Declared)
    → is_no_node d ≡ false
    → is_no_node (if b then found depth else d) ≡ false
declared_if true depth d h = refl
declared_if false depth d h = h

declared_depth-node :
    (nodes : AstNodeList) (name : Bytes)
    → no_null nodes ≡ true
    → is_no_node (declared_depth nodes name) ≡ false
unfolding declared_depth no_null is_null
declared_depth-node nil name h = refl
declared_depth-node (cons null nodes) name h = absurd (ground (arith, h))
declared_depth-node (cons (var_decl line is_const depth type record_name n initializer) nodes) name
      h =
    declared_if (bytes_eq n name) depth (declared_depth nodes name)
      (declared_depth-node nodes name h)
declared_depth-node (cons _ nodes) name h = declared_depth-node nodes name h

depth_found-Known : (d : Declared) → is_no_node d ≡ false → Known (depth_found d)
depth_found-Known (found depth) h = known depth
depth_found-Known missing h = known 0
depth_found-Known no_node h = absurd (ground (arith, h))

body-Known :
    (statements : Option AstNodeList) (name : Bytes)
    → sound_body statements ≡ true
    → Known (depth_in_body statements name)
body-Known none name h = absurd (ground (arith, h))
body-Known (some statements) name h =
    depth_found-Known (declared_depth statements name) (declared_depth-node statements name h)

function-Known :
    (function : Option AstNode) (name : Bytes)
    → sound_function function ≡ true
    → Known (depth_in_function function name)
function-Known none name h = known 0
function-Known (some func) name h = body-Known (body_statements func) name h

behind-Known :
    (d : Declared) (function : Option AstNode) (name : Bytes)
    → is_no_node d ≡ false
    → sound_function function ≡ true
    → Known (depth_behind d function name)
behind-Known (found depth) function name h s = known depth
behind-Known missing function name h s = function-Known function name s
behind-Known no_node function name h s = absurd (ground (arith, h))

element-Known : (d : Option ℕ) → Known d → Known (element_depth d)
element-Known _ (known depth) = known (depth - 1)

-- Whether the first element is an array.
pub data Told : Option Bool → Type 0 where
  told : (b : Bool) → Told (some b)

pub first-Told :
    (elements : AstNodeList) → printable_exprs elements ≡ true → Told (first_is_array elements)
unfolding printable_expr
first-Told nil h = told false
first-Told (cons null nodes) h = absurd (ground (arith, h))
first-Told (cons (array_literal line elements) nodes) h = told true
first-Told (cons _ nodes) h = told false

literal-Known : (nested : Option Bool) → Told nested → Known (literal_depth nested)
literal-Known _ (told nested) = known (if nested then 2 else 1)

pub array_depth-Known :
    (context : Context) (node : AstNode)
    → sound_context context ≡ true
    → printable_expr node ≡ true
    → Known (array_depth context node)
unfolding array_depth printable_expr
array_depth-Known context null s h = absurd (ground (arith, h))
array_depth-Known context (identifier_expr line name) s h =
    behind-Known (declared_depth context.declarations name) context.function name
      (declared_depth-node context.declarations name (and_left _ _ s))
      (and_right (no_null context.declarations) _ s)
array_depth-Known context (index_expr line array index) s h =
    element-Known (array_depth context array)
      (array_depth-Known context array s (and_left _ (printable_expr index) h))
array_depth-Known context (array_literal line elements) s h =
    literal-Known (first_is_array elements) (first-Told elements h)
array_depth-Known context _ s h = known 1
