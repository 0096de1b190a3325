-- ===== src/Semantic/Accepted.antt =====
-- What acceptance by `semantic_analyze` of src/semantic/semantic.c says of the crafts of a program: the
-- checks of `check_function`, carried through the three passes.
use kratos_lang.Prelude.{
  ℕ, Bool, true, false, not, ◌&&◌, ◌||◌, ◌≡◌, refl, ◌∙◌, Option, ◌==◌, arith, Bytes, [], ◌∷◌,
}
use kratos_lang.Ast.{
  AstNode, AstNodeList, nil, cons, func_decl, param, record_decl, var_decl, KratosType, type_void,
}
use kratos_lang.Semantic.State.{
  Analyzer, M, message, semantic_error, error_if, enter_scope, leave_scope,
}
use kratos_lang.Semantic.Types.{type_eq, type_info}
use kratos_lang.Semantic.Returns.{always_returns}
use kratos_lang.Semantic.Stmt.{check_stmt}
use kratos_lang.Semantic.Program.{
  set_function, check_param, check_params, check_function, register_records, register_functions,
  check_declaration, check_declarations, run_passes, initial, accepts,
}
use kratos_lang.Semantic.Keeps.{
  OnlyReports-pure, OnlyReports-if, OnlyReports-get, OnlyReports-error_if,
  OnlyReports-semantic_error,
}
use kratos_lang.Semantic.Declares.{
  Grows, OnlyDeclares, grown, OnlyDeclares-reports, OnlyDeclares-bind, OnlyDeclares-then,
  OnlyDeclares-scope_add,
}
use kratos_lang.Semantic.StmtDeclares.{
  check_stmt-OnlyDeclares, check_var_decl-OnlyDeclares, record_type_add-OnlyDeclares,
}
use kratos_lang.Semantic.Jumps.{jumps_in_loops, check_stmt-jumps, no_error_before}

check_param-OnlyDeclares : (p : AstNode) → OnlyDeclares (check_param p)
unfolding check_param
check_param-OnlyDeclares (param line type is_array record_name name) =
    OnlyDeclares-bind (OnlyDeclares-reports OnlyReports-get) λ s.
      OnlyDeclares-then
        (OnlyDeclares-reports (
          OnlyReports-if (type_eq type type_void && (is_array == 0))
            (OnlyReports-semantic_error _ _) (OnlyReports-error_if _ _ _)))
        (OnlyDeclares-scope_add _ _)
check_param-OnlyDeclares _ = OnlyDeclares-reports (OnlyReports-pure tt)

check_params-OnlyDeclares : (params : AstNodeList) → OnlyDeclares (check_params params)
unfolding check_params
check_params-OnlyDeclares nil = OnlyDeclares-reports (OnlyReports-pure tt)
check_params-OnlyDeclares (cons p params) =
    OnlyDeclares-then (check_param-OnlyDeclares p) (check_params-OnlyDeclares params)

-- What a pass over the declarations leaves: the depth of loops, and the errors so far.
record Passes (a b : Analyzer) : Type 0 where
  pub loop_depth : b.loop_depth ≡ a.loop_depth
  pub errors : a.had_error ≡ true → b.had_error ≡ true

Passes-trans : (a b c : Analyzer) → Passes a b → Passes b c → Passes a c
Passes-trans a b c p q = ground arith

Passes-Grows : {a b : Analyzer} → Grows a b → Passes a b
Passes-Grows g = record { loop_depth = g.loop_depth; errors = g.errors }

-- The jumps of the body stand in loops, and a craft with a result yields on every path.
unfoldable pub craft_is_sound : AstNode → Bool
craft_is_sound (func_decl line return_type return_record_name name params body) =
    jumps_in_loops false body && (type_eq return_type type_void || always_returns body)
craft_is_sound other = true

unfoldable pub crafts_are_sound : AstNodeList → Bool
crafts_are_sound nil = true
crafts_are_sound (cons node nodes) = craft_is_sound node && crafts_are_sound nodes

abbrev function_entered : KratosType → Option Bytes → Analyzer → Analyzer
function_entered return_type return_record_name s = record s {
  scope = [] ∷ s.scope;
  in_function = true;
  current_return = type_info return_type 0 return_record_name;
}

error_if-clean :
    (test : Bool) (line : ℕ) (m : Bytes) (s : Analyzer)
    → (error_if test line m s).1.had_error ≡ false
    → test ≡ false
unfolding semantic_error
error_if-clean true line m s h = h
error_if-clean false line m s h = refl

module _ (line : ℕ) (return_type : KratosType) (return_record_name : Option Bytes)
    (params : AstNodeList) (body : AstNode) (s : Analyzer) where
  abbrev checked : Analyzer
  checked = (check_function line return_type return_record_name params body s).1

  abbrev entered : Analyzer
  entered = function_entered return_type return_record_name s

  abbrev params_checked : Analyzer
  params_checked = (check_params params entered).1

  abbrev body_state : Analyzer
  body_state = (check_stmt body params_checked).1

  abbrev returns_everywhere : M (Unit {0})
  returns_everywhere =
      error_if (not (type_eq return_type type_void) && not (always_returns body)) line
        (message "la craft deve fare yield su ogni cammino")

  returns_grown : Grows body_state (returns_everywhere body_state).1
  returns_grown = grown body_state (OnlyDeclares-reports (OnlyReports-error_if _ _ _))

  check_function-Passes : Passes s checked
  unfolding check_function enter_scope leave_scope set_function
  check_function-Passes =
      let p = grown entered (check_params-OnlyDeclares params) in
      let b = grown params_checked (check_stmt-OnlyDeclares body) in
      let r = returns_grown in
      record {
        loop_depth = r.loop_depth ∙ b.loop_depth ∙ p.loop_depth;
        errors = λ e. r.errors (b.errors (p.errors e));
      }

  body_checked : checked.had_error ≡ false → body_state.had_error ≡ false
  unfolding check_function enter_scope leave_scope set_function
  body_checked h = no_error_before body_state (OnlyDeclares-reports (OnlyReports-error_if _ _ _)) h

  returns_checked :
      checked.had_error ≡ false → (type_eq return_type type_void || always_returns body) ≡ true
  unfolding check_function enter_scope leave_scope set_function
  returns_checked h = ground (arith, error_if-clean _ line _ body_state h)

  craft_checked :
      (name : Bytes)
      → s.loop_depth ≡ 0
      → checked.had_error ≡ false
      → craft_is_sound (func_decl line return_type return_record_name name params body) ≡ true
  unfolding craft_is_sound
  craft_checked name depth h =
      let p = grown entered (check_params-OnlyDeclares params) in
      let outside : params_checked.loop_depth ≡ 0 = p.loop_depth ∙ depth in
      let jumps : jumps_in_loops false body ≡ true =
        rw outside at (check_stmt-jumps body params_checked (body_checked h)) in
      ground (arith, jumps, returns_checked h)

check_declaration-Passes : (node : AstNode) (s : Analyzer) → Passes s (check_declaration node s).1
unfolding check_declaration
check_declaration-Passes (record_decl line name fields) s = ground arith
check_declaration-Passes (var_decl line is_const is_array type record_name name initializer) s =
    Passes-Grows (
      grown s (
        check_var_decl-OnlyDeclares
          (var_decl line is_const is_array type record_name name initializer)))
check_declaration-Passes (func_decl line return_type return_record_name name params body) s =
    check_function-Passes line return_type return_record_name params body s
check_declaration-Passes _ s =
    Passes-Grows (grown s (OnlyDeclares-reports (OnlyReports-semantic_error _ _)))

check_declarations-Passes :
    (nodes : AstNodeList) (s : Analyzer) → Passes s (check_declarations nodes s).1
unfolding check_declarations
check_declarations-Passes nil s = ground arith
check_declarations-Passes (cons node nodes) s =
    Passes-trans s (check_declaration node s).1 _ (check_declaration-Passes node s)
      (check_declarations-Passes nodes (check_declaration node s).1)

no_error_in_pass : {a b : Analyzer} → Passes a b → b.had_error ≡ false → a.had_error ≡ false
no_error_in_pass p h = ground (arith, p.errors)

declaration_sound :
    (node : AstNode) (s : Analyzer)
    → s.loop_depth ≡ 0
    → (check_declaration node s).1.had_error ≡ false
    → craft_is_sound node ≡ true
unfolding check_declaration craft_is_sound
declaration_sound (func_decl line return_type return_record_name name params body) s depth h =
    craft_checked line return_type return_record_name params body s name depth h
declaration_sound _ s depth h = refl

declarations_sound :
    (nodes : AstNodeList) (s : Analyzer)
    → s.loop_depth ≡ 0
    → (check_declarations nodes s).1.had_error ≡ false
    → crafts_are_sound nodes ≡ true
unfolding check_declarations crafts_are_sound
declarations_sound nil s depth h = refl
declarations_sound (cons node nodes) s depth h =
    let t = (check_declaration node s).1 in
    let clean = no_error_in_pass (check_declarations-Passes nodes t) h in
    let outside = (check_declaration-Passes node s).loop_depth ∙ depth in
    ground (arith, declaration_sound node s depth clean, declarations_sound nodes t outside h)

register_records-OnlyDeclares : (nodes : AstNodeList) → OnlyDeclares (register_records nodes)
unfolding register_records
register_records-OnlyDeclares nil = OnlyDeclares-reports (OnlyReports-pure tt)
register_records-OnlyDeclares (cons (record_decl line name fields) nodes) =
    OnlyDeclares-then (record_type_add-OnlyDeclares line name fields)
      (register_records-OnlyDeclares nodes)
register_records-OnlyDeclares (cons _ nodes) = register_records-OnlyDeclares nodes

register_functions-OnlyDeclares : (nodes : AstNodeList) → OnlyDeclares (register_functions nodes)
unfolding register_functions
register_functions-OnlyDeclares nil = OnlyDeclares-reports (OnlyReports-pure tt)
register_functions-OnlyDeclares
      (cons (func_decl line return_type return_record_name name params body) nodes) =
    OnlyDeclares-then (OnlyDeclares-scope_add line _) (register_functions-OnlyDeclares nodes)
register_functions-OnlyDeclares (cons _ nodes) = register_functions-OnlyDeclares nodes

-- Where the passes end without an error, from a state outside loops.
pub run_passes-crafts :
    (declarations : AstNodeList) (s : Analyzer)
    → s.loop_depth ≡ 0
    → (run_passes declarations s).1.had_error ≡ false
    → crafts_are_sound declarations ≡ true
unfolding run_passes
run_passes-crafts declarations s depth h =
    let r = (register_records declarations s).1 in
    let f = (register_functions declarations r).1 in
    let first = grown s (register_records-OnlyDeclares declarations) in
    let second = grown r (register_functions-OnlyDeclares declarations) in
    declarations_sound declarations f (second.loop_depth ∙ first.loop_depth ∙ depth) h

-- Where the analyzer accepts a program, in each craft of it every `snap` and `push` stands inside a
-- loop, and each craft whose result is no `k_void` yields on every path as `always_returns` finds it.
pub accepts-crafts :
    (declarations : AstNodeList)
    → accepts declarations ≡ true
    → crafts_are_sound declarations ≡ true
unfolding accepts
accepts-crafts declarations h = run_passes-crafts declarations initial refl (ground (arith, h))
