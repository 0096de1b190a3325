-- ===== src/Runtime/Target.antt =====
-- src/runtime/interp.c: `resolve_assignment_target`. The pointer that it returns is the name of a binding
-- with the indices and members that lead from its value to the slot; it is read anew where the C code
-- follows it. What becomes of a pointer into a value that is freed meanwhile is not modelled.
use kratos_lang.Prelude.{ℕ, Bytes, List, [], ◌∷◌, ◌++◌, Option, none, some, ltb, if◌then◌else◌}
use kratos_lang.Prelude.Int.{pos}
use kratos_lang.Ast.{AstNode, line_of, identifier_expr, index_expr, member_expr}
use kratos_lang.Runtime.Value.{
  Value, Values, val_int, val_array, val_record, values_count, value_at, with_value_at, field_value,
  with_field,
}
use kratos_lang.Runtime.State.{Binding, I, done, ◌>>=◌, pure, get, failing, env_find, env_set}

pub data Step : Type 0 where
  at_index : ℕ → Step
  at_member : Bytes → Step

pub record Slot : Type 0 where
  pub name : Bytes
  pub steps : List Step

abbrev pub beyond : Slot → Step → Slot
beyond slot step = record slot { steps = slot.steps ++ (step ∷ []) }

module _ {F : Type 0} where
  abbrev pub step_into : Step → Value F → Option (Value F)
  step_into (at_index i) (val_array type items) = value_at items i
  step_into (at_member name) (val_record record_name members) = field_value members name
  step_into _ _ = none

  abbrev pub steps_into : List Step → Option (Value F) → Option (Value F)
  steps_into [] value = value
  steps_into (step ∷ steps) none = none
  steps_into (step ∷ steps) (some value) = steps_into steps (step_into step value)

  abbrev pub binding_value : Option (Binding F) → Option (Value F)
  binding_value none = none
  binding_value (some binding) = some binding.value

  -- `*slot`
  unfoldable pub slot_value : List (List (Binding F)) → Slot → Option (Value F)
  unfolding env_find field_value
  slot_value env slot = steps_into slot.steps (binding_value (env_find env slot.name))

  abbrev pub replace_in : Step → Value F → Value F → Value F
  replace_in (at_index i) (val_array type items) inner =
      val_array type (with_value_at items i inner)
  replace_in (at_member name) (val_record record_name members) inner =
      val_record record_name (with_field members name inner)
  replace_in _ value inner = value

  -- The value with another one in the slot.
  unfoldable pub with_slot : List Step → Value F → Value F → Value F
  unfolding with_field field_value
  with_slot [] new value = new
  with_slot (step ∷ steps) new value = elim (step_into step value) [
    | some inner ↦ replace_in step value (with_slot steps new inner)
    | none ↦ value
  ]

  abbrev pub with_binding :
      List (List (Binding F)) → Slot → Value F → Option (Binding F) → List (List (Binding F))
  with_binding env slot new (some binding) =
      env_set env slot.name (with_slot slot.steps new binding.value)
  with_binding env slot new none = env

  -- `*slot = value`
  unfoldable pub store : Slot → Value F → I F (Unit {0})
  unfolding env_find env_set with_slot
  store slot new interp =
      done tt
        (record interp { env = with_binding interp.env slot new (env_find interp.env slot.name) })

  abbrev pub name_target : ℕ → Bytes → Option (Binding F) → I F (Option Slot)
  name_target line name (some binding) = pure (some (record { name = name; steps = [] }))
  name_target line name none = failing line none

  abbrev pub checked_index : ℕ → Slot → ℕ → Values F → I F (Option Slot)
  checked_index line slot i items =
      if ltb i (values_count items)
      then pure (some (beyond slot (at_index i)))
      else failing line none

  abbrev pub index_target : ℕ → Slot → Option (Value F) → Value F → I F (Option Slot)
  index_target line slot (some (val_array type items)) (val_int (pos i)) =
      checked_index line slot i items
  index_target line slot _ _ = failing line none

  abbrev pub found_member : ℕ → Slot → Bytes → Option (Value F) → I F (Option Slot)
  found_member line slot member (some value) = pure (some (beyond slot (at_member member)))
  found_member line slot member none = failing line none

  abbrev pub member_target : ℕ → Slot → Bytes → Option (Value F) → I F (Option Slot)
  member_target line slot member (some (val_record name members)) =
      found_member line slot member (field_value members member)
  member_target line slot member _ = failing line none

  -- `*slot`, where there is a slot.
  abbrev pub read_slot :
      (ℕ → Slot → Option (Value F) → I F (Option Slot)) → ℕ → Option Slot → I F (Option Slot)
  read_slot select line none = failing line none
  read_slot select line (some slot) = do interp ← get; select line slot (slot_value interp.env slot)

module _ {F : Type 0} (eval : AstNode → I F (Value F)) where
  unfoldable pub resolve_assignment_target : AstNode → I F (Option Slot)
  unfolding slot_value
  resolve_assignment_target (identifier_expr line name) = do
    interp ← get
    name_target line name (env_find interp.env name)
  resolve_assignment_target (index_expr line array index_node) = do
    slot ← resolve_assignment_target array
    index ← eval index_node
    read_slot (λ line slot value. index_target line slot value index) line slot
  resolve_assignment_target (member_expr line target member) = do
    slot ← resolve_assignment_target target
    read_slot (λ line slot value. member_target line slot member value) line slot
  resolve_assignment_target node = failing (line_of node) none
