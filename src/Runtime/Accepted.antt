-- ===== src/Runtime/Accepted.antt =====
-- The crafts of a program that src/semantic/semantic.c accepts, run by src/runtime/interp.c.
use mathlib.Core.Path.{subst}
use kratos_lang.Prelude.{
  ℕ, ◌≡◌, refl, ◌⊎◌, inl, inr, Bool, true, false, Bytes, bytes_eq, Option, some, Bool-cases, ◌&&◌,
  ◌||◌, arith, and_left, and_right, and_intro,
}
use kratos_lang.Ast.{AstNode, AstNodeList, nil, cons, func_decl, KratosType, type_void}
use kratos_lang.Semantic.Types.{type_eq}
use kratos_lang.Semantic.Returns.{always_returns}
use kratos_lang.Semantic.Program.{accepts}
use kratos_lang.Semantic.Accepted.{craft_is_sound, crafts_are_sound, accepts-crafts}
use kratos_lang.Runtime.Value.{Numerics}
use kratos_lang.Runtime.State.{
  Flow, flow_ok, flow_snap, flow_push, flow_yield, flow_error, Interp, done, find_function,
}
use kratos_lang.Runtime.Shape.{crafts_built, well_built}
use kratos_lang.Runtime.Good.{allowed}
use kratos_lang.Runtime.Run.{eval_stmt, function_table}
use kratos_lang.Runtime.Flows.{eval_stmt-allowed}

-- What is known of a craft: its jumps stand in loops, it yields on every path, and its body has the shape
-- that the parser builds.
abbrev craft_is_fit : AstNode → Bool
craft_is_fit (func_decl line type record_name name params body) =
    craft_is_sound (func_decl line type record_name name params body) && well_built body
craft_is_fit _ = true

found_fit :
    (declarations : AstNodeList) (name : Bytes) (func : AstNode)
    → crafts_are_sound declarations ≡ true
    → crafts_built declarations ≡ true
    → find_function (function_table declarations) name ≡ some func
    → craft_is_fit func ≡ true
unfolding find_function function_table crafts_are_sound crafts_built
found_fit nil name func c b e = absurd (ground (arith, e))
found_fit (cons (func_decl line type record_name n params body) nodes) name func c b e =
    elim (Bool-cases (bytes_eq n name)) [
      | inl same ↦
          let found : func_decl line type record_name n params body ≡ func = cc (rw same at e) in
          let craft = func_decl line type record_name n params body in
          let fit =
            and_intro (craft_is_sound craft) (well_built body)
              (and_left (craft_is_sound craft) (crafts_are_sound nodes) c)
              (and_left (well_built body) (crafts_built nodes) b) in
          subst (λ f. craft_is_fit f ≡ true) found fit
      | inr other ↦
          let craft = func_decl line type record_name n params body in
          found_fit nodes name func (and_right (craft_is_sound craft) (crafts_are_sound nodes) c)
            (and_right (well_built body) (crafts_built nodes) b) (rw other at e)
    ]
found_fit (cons _ nodes) name func c b e = found_fit nodes name func (and_right _ _ c) b e

-- A craft that ends without an error.
allowed-yield :
    (void returns : Bool) (flow : Flow)
    → (void || returns) ≡ true
    → allowed false returns flow false ≡ true
    → (flow ≡ flow_yield) ⊎ ((flow ≡ flow_ok) × (void ≡ true))
allowed-yield void returns flow_ok h a = inr (refl, ground (arith, h, a))
allowed-yield void returns flow_yield h a = inl refl
allowed-yield void returns flow_snap h a = absurd (ground (arith, a))
allowed-yield void returns flow_push h a = absurd (ground (arith, a))
allowed-yield void returns flow_error h a = absurd (ground (arith, a))

-- A craft of a program whose crafts are sound and have the shape that the parser builds.
pub sound_yield :
    (declarations : AstNodeList)
    → crafts_are_sound declarations ≡ true
    → crafts_built declarations ≡ true
    → (name : Bytes) (line : ℕ) (type : KratosType) (record_name : Option Bytes)
      (craft_name : Bytes) (params : AstNodeList) (body : AstNode)
    → find_function (function_table declarations) name
      ≡ some (func_decl line type record_name craft_name params body)
    → (numerics : Numerics) (fuel : ℕ) (s t : Interp numerics.Double) (flow : Flow)
    → eval_stmt numerics fuel body s ≡ done flow t
    → t.had_error ≡ false
    → (flow ≡ flow_yield) ⊎ ((flow ≡ flow_ok) × (type_eq type type_void ≡ true))
unfolding craft_is_sound
sound_yield declarations acc built name line type record_name craft_name params body found numerics
      fuel s t flow run clean =
    let fit =
      found_fit declarations name (func_decl line type record_name craft_name params body) acc built
        found in
    let sound = and_left _ _ fit in
    let a =
      eval_stmt-allowed numerics fuel false body s t flow (and_right _ _ fit) (and_left _ _ sound)
        run in
    allowed-yield (type_eq type type_void) (always_returns body) flow (and_right _ _ sound)
      (rw clean at a)

-- In a program that the analyzer accepts, with statements of the shape that the parser builds, the body of
-- each craft that a call finds, run from any state: where it ends without an error, it ends with a
-- `yield`, or falls through in a craft of type `k_void`. It never ends with a `snap` or a `push`.
pub accepts-yield :
    (declarations : AstNodeList)
    → accepts declarations ≡ true
    → crafts_built declarations ≡ true
    → (name : Bytes) (line : ℕ) (type : KratosType) (record_name : Option Bytes)
      (craft_name : Bytes) (params : AstNodeList) (body : AstNode)
    → find_function (function_table declarations) name
      ≡ some (func_decl line type record_name craft_name params body)
    → (numerics : Numerics) (fuel : ℕ) (s t : Interp numerics.Double) (flow : Flow)
    → eval_stmt numerics fuel body s ≡ done flow t
    → t.had_error ≡ false
    → (flow ≡ flow_yield) ⊎ ((flow ≡ flow_ok) × (type_eq type type_void ≡ true))
accepts-yield declarations acc built =
    sound_yield declarations (accepts-crafts declarations acc) built
