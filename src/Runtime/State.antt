-- ===== src/Runtime/State.antt =====
-- src/runtime/interp.c: the state of the interpreter. The chain of environments is a list of lists of
-- bindings, the innermost first: an environment stands on the C stack, and none outlives its block.
use kratos_lang.Prelude.{
  ℕ, Bool, true, false, Bytes, bytes_eq, List, [], ◌∷◌, Option, none, some, if◌then◌else◌,
}
use kratos_lang.Ast.{AstNode}
use kratos_lang.Runtime.Value.{Value}

pub record Binding (F : Type 0) : Type 0 where
  pub name : Bytes
  pub is_const : Bool
  pub value : Value F

pub data Flow : Type 0 where
  flow_ok flow_snap flow_push flow_yield flow_error : Flow

pub record FuncEntry : Type 0 where
  pub name : Bytes
  pub func : AstNode

-- `output` is what `shout` printed and `error_lines` the lines of the errors that were printed, the last
-- first.
pub record Interp (F : Type 0) : Type 0 where
  pub had_error : Bool
  pub env : List (List (Binding F))
  pub functions : List FuncEntry
  pub yield_value : Value F
  pub output : List Bytes
  pub error_lines : List ℕ

-- A run may end, need more fuel, or come to a place where C leaves the behaviour undefined, or dependent
-- on the address of a string, an array or a record.
pub data Result (F A : Type 0) : Type 0 where
  done : A → Interp F → Result F A
  out_of_fuel : Result F A
  undefined : Result F A

abbrev pub I : Type 0 → Type 0 → Type 0
I F A = Interp F → Result F A

abbrev pub continue_with : {F A B : Type 0} → Result F A → (A → I F B) → Result F B
continue_with (done a s) f = f a s
continue_with out_of_fuel f = out_of_fuel
continue_with undefined f = undefined

infixl 5 ◌>>=◌ ◌>>◌
abbrev pub ◌>>=◌ : {F A B : Type 0} → I F A → (A → I F B) → I F B
◌>>=◌ m f s = continue_with (m s) f

abbrev pub ◌>>◌ : {F A B : Type 0} → I F A → I F B → I F B
◌>>◌ m k s = continue_with (m s) (λ a. k)

unfoldable pub find_function : List FuncEntry → Bytes → Option AstNode
unfolding bytes_eq
find_function [] name = none
find_function (entry ∷ entries) name =
    let rest = find_function entries name in
    if bytes_eq entry.name name then some entry.func else rest

module _ {F : Type 0} where
  abbrev pub pure : {A : Type 0} → A → I F A
  pure a s = done a s

  abbrev pub get : I F (Interp F)
  get s = done s s

  abbrev pub no_fuel : {A : Type 0} → I F A
  no_fuel s = out_of_fuel

  abbrev pub undefined_behaviour : {A : Type 0} → I F A
  undefined_behaviour s = undefined

  unfoldable pub runtime_error : ℕ → I F (Unit {0})
  runtime_error line s = done tt (record s { had_error = true; error_lines = line ∷ s.error_lines })

  -- `runtime_error(…); return value;`
  abbrev pub failing : {A : Type 0} → ℕ → A → I F A
  failing line a = runtime_error line >> pure a

  unfoldable pub find_binding : List (Binding F) → Bytes → Option (Binding F)
  unfolding bytes_eq
  find_binding [] name = none
  find_binding (binding ∷ bindings) name =
      let rest = find_binding bindings name in
      if bytes_eq binding.name name then some binding else rest

  abbrev pub or_else : Option (Binding F) → Option (Binding F) → Option (Binding F)
  or_else (some binding) other = some binding
  or_else none other = other

  unfoldable pub env_find : List (List (Binding F)) → Bytes → Option (Binding F)
  unfolding find_binding
  env_find [] name = none
  env_find (bindings ∷ env) name = or_else (find_binding bindings name) (env_find env name)

  abbrev pub defined_in : List (List (Binding F)) → Binding F → List (List (Binding F))
  defined_in [] binding = []
  defined_in (bindings ∷ env) binding = (binding ∷ bindings) ∷ env

  unfoldable pub env_define : Bytes → Bool → Value F → I F (Unit {0})
  env_define name is_const value s = done tt (record s {
    env = defined_in s.env (record { name = name; is_const = is_const; value = value });
  })

  -- The chain with another value in the binding that `env_find` finds.
  unfoldable pub set_binding : List (Binding F) → Bytes → Value F → List (Binding F)
  unfolding bytes_eq
  set_binding [] name value = []
  set_binding (binding ∷ bindings) name value =
      let rest = set_binding bindings name value in
      if bytes_eq binding.name name
      then (record binding { value = value }) ∷ bindings
      else binding ∷ rest

  abbrev pub is_found : Option (Binding F) → Bool
  is_found (some binding) = true
  is_found none = false

  unfoldable pub env_set : List (List (Binding F)) → Bytes → Value F → List (List (Binding F))
  unfolding find_binding set_binding
  env_set [] name value = []
  env_set (bindings ∷ env) name value =
      let rest = env_set env name value in
      if is_found (find_binding bindings name)
      then set_binding bindings name value ∷ env
      else bindings ∷ rest

  -- An environment of its own on the stack, and back to the one around it.
  unfoldable pub enter_env : I F (Unit {0})
  enter_env s = done tt (record s { env = [] ∷ s.env })

  abbrev pub parent_of : List (List (Binding F)) → List (List (Binding F))
  parent_of [] = []
  parent_of (bindings ∷ env) = env

  unfoldable pub leave_env : I F (Unit {0})
  leave_env s = done tt (record s { env = parent_of s.env })
