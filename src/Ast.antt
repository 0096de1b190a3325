-- ===== src/Ast.antt =====
-- src/ast/ast.h: the syntax tree. A node is one constructor with the fields of its member of the
-- union `as`, its line first; `null` is the null pointer. The other parts of a node's span are
-- constants that nothing reads. A `k_float` literal is kept as the text that `strtod` was given.
use kratos_lang.Prelude.{ℕ, suc, Bool, true, false, Bytes, Option}
use kratos_lang.Prelude.Int.{ℤ}
use kratos_lang.Lexer.Token.{TokenType}

pub data KratosType : Type 0 where
  type_int type_float type_bool type_char type_string type_void type_record : KratosType

mutual
  pub data AstNode : Type 0 where
    null : AstNode
    program : ℕ → AstNodeList → AstNode
    var_decl : ℕ → Bool → ℕ → KratosType → Option Bytes → Bytes → AstNode → AstNode
    func_decl : ℕ → KratosType → Option Bytes → Bytes → AstNodeList → AstNode → AstNode
    param : ℕ → KratosType → ℕ → Option Bytes → Bytes → AstNode
    block : ℕ → AstNodeList → AstNode
    if_stmt : ℕ → AstNodeList → AstNode → AstNode
    cond_branch : ℕ → AstNode → AstNode → AstNode
    hold_stmt : ℕ → AstNode → AstNode → AstNode
    press_stmt : ℕ → AstNode → AstNode → AstNode
    drive_stmt : ℕ → AstNode → AstNode → AstNode → AstNode → AstNode
    sweep_stmt : ℕ → KratosType → Option Bytes → Bytes → Bytes → AstNode → AstNode
    snap_stmt : ℕ → AstNode
    push_stmt : ℕ → AstNode
    yield_stmt : ℕ → AstNode → AstNode
    shout_stmt : ℕ → AstNode → AstNode
    wield_stmt : ℕ → Bytes → AstNode
    record_decl : ℕ → Bytes → AstNodeList → AstNode
    record_field : ℕ → KratosType → ℕ → Option Bytes → Bytes → AstNode
    record_literal : ℕ → Bytes → AstNodeList → AstNode
    field_init : ℕ → Bytes → AstNode → AstNode
    member_expr : ℕ → AstNode → Bytes → AstNode
    assign : ℕ → AstNode → AstNode → AstNode
    expr_stmt : ℕ → AstNode → AstNode
    binary_expr : ℕ → TokenType → AstNode → AstNode → AstNode
    identifier_expr : ℕ → Bytes → AstNode
    literal_int : ℕ → ℤ → AstNode
    literal_float : ℕ → Bytes → AstNode
    literal_bool : ℕ → Bool → AstNode
    literal_char : ℕ → ℕ → AstNode
    literal_string : ℕ → Bytes → AstNode
    call_expr : ℕ → Bytes → AstNodeList → AstNode
    array_literal : ℕ → AstNodeList → AstNode
    index_expr : ℕ → AstNode → AstNode → AstNode
    unary_expr : ℕ → TokenType → AstNode → AstNode

  pub data AstNodeList : Type 0 where
    nil : AstNodeList
    cons : AstNode → AstNodeList → AstNodeList

-- `list->count`
unfoldable pub count : AstNodeList → ℕ
count nil = 0
count (cons node nodes) = suc (count nodes)

-- `node->line`
unfoldable pub line_of : AstNode → ℕ
line_of null = 0
line_of (program line _) = line
line_of (var_decl line _ _ _ _ _ _) = line
line_of (func_decl line _ _ _ _ _) = line
line_of (param line _ _ _ _) = line
line_of (block line _) = line
line_of (if_stmt line _ _) = line
line_of (cond_branch line _ _) = line
line_of (hold_stmt line _ _) = line
line_of (press_stmt line _ _) = line
line_of (drive_stmt line _ _ _ _) = line
line_of (sweep_stmt line _ _ _ _ _) = line
line_of (snap_stmt line) = line
line_of (push_stmt line) = line
line_of (yield_stmt line _) = line
line_of (shout_stmt line _) = line
line_of (wield_stmt line _) = line
line_of (record_decl line _ _) = line
line_of (record_field line _ _ _ _) = line
line_of (record_literal line _ _) = line
line_of (field_init line _ _) = line
line_of (member_expr line _ _) = line
line_of (assign line _ _) = line
line_of (expr_stmt line _) = line
line_of (binary_expr line _ _ _) = line
line_of (identifier_expr line _) = line
line_of (literal_int line _) = line
line_of (literal_float line _) = line
line_of (literal_bool line _) = line
line_of (literal_char line _) = line
line_of (literal_string line _) = line
line_of (call_expr line _ _) = line
line_of (array_literal line _) = line
line_of (index_expr line _ _) = line
line_of (unary_expr line _ _) = line

-- `node->kind == AST_ASSIGN`
unfoldable pub is_assign : AstNode → Bool
is_assign (assign _ _ _) = true
is_assign _ = false

-- `node->kind == AST_VAR_DECL`
unfoldable pub is_var_decl : AstNode → Bool
is_var_decl (var_decl _ _ _ _ _ _ _) = true
is_var_decl _ = false
