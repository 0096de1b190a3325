-- ===== src/Runtime/TargetLeaves.antt =====
-- What an assignment of src/runtime/interp.c keeps of the state.
use mathlib.Core.List.{map}
use kratos_lang.Prelude.{
  Bool-cases, inl, inr, bytes_eq, ℕ, ◌≡◌, refl, Bytes, List, [], ◌∷◌, Option, none, some, ltb,
}
use kratos_lang.Prelude.Int.{pos}
use kratos_lang.Ast.{AstNode, identifier_expr, index_expr, member_expr}
use kratos_lang.Runtime.Value.{Value, val_array, val_int, val_record, values_count}
use kratos_lang.Runtime.State.{Binding, I, env_find, env_set, find_binding, is_found, set_binding}
use kratos_lang.Runtime.Target.{
  Slot, found_member, index_target, member_target, name_target, read_slot,
  resolve_assignment_target, store, with_binding,
}
use kratos_lang.Runtime.Behind.{
  names, Behind-env, Leaves, Leaves-bind, Leaves-failing, Leaves-get, Leaves-if, Leaves-pure,
  leaves,
}

module _ {F : Type 0} where
  names-set_binding :
      (bindings : List (Binding F)) (name : Bytes) (value : Value F)
      → map (λ b. b.name) (set_binding bindings name value) ≡ map (λ b. b.name) bindings
  unfolding set_binding
  names-set_binding [] name value = refl
  names-set_binding (binding ∷ bindings) name value =
      elim (Bool-cases (bytes_eq binding.name name)) [
        | inl e ↦ rw e
        | inr e ↦ rw (e, names-set_binding bindings name value)
      ]

  names-env_set :
      (env : List (List (Binding F))) (name : Bytes) (value : Value F)
      → names (env_set env name value) ≡ names env
  unfolding env_set names
  names-env_set [] name value = refl
  names-env_set (bindings ∷ env) name value =
      elim (Bool-cases (is_found (find_binding bindings name))) [
        | inl e ↦ rw (e, names-set_binding bindings name value)
        | inr e ↦ rw (e, names-env_set env name value)
      ]

  names-with_binding :
      (env : List (List (Binding F))) (slot : Slot) (value : Value F) (b : Option (Binding F))
      → names (with_binding env slot value b) ≡ names env
  names-with_binding env slot value none = refl
  names-with_binding env slot value (some b) = names-env_set env slot.name _

  pub Leaves-store : (slot : Slot) (value : Value F) → Leaves (store slot value)
  unfolding store
  Leaves-store slot value =
      leaves λ s. Behind-env s _ (names-with_binding s.env slot value (env_find s.env slot.name))

  Leaves-name_target :
      (line : ℕ) (name : Bytes) (b : Option (Binding F)) → Leaves (name_target line name b)
  Leaves-name_target line name none = Leaves-failing line _
  Leaves-name_target line name (some b) = Leaves-pure _

  Leaves-index_target :
      (line : ℕ) (slot : Slot) (v : Option (Value F)) (i : Value F)
      → Leaves (index_target line slot v i)
  Leaves-index_target line slot (some (val_array type items)) (val_int (pos i)) =
      Leaves-if (ltb i (values_count items)) (Leaves-pure _) (Leaves-failing line _)
  Leaves-index_target line slot _ _ = Leaves-failing line _

  Leaves-found_member :
      (line : ℕ) (slot : Slot) (member : Bytes) (v : Option (Value F))
      → Leaves (found_member line slot member v)
  Leaves-found_member line slot member none = Leaves-failing line _
  Leaves-found_member line slot member (some v) = Leaves-pure _

  Leaves-member_target :
      (line : ℕ) (slot : Slot) (member : Bytes) (v : Option (Value F))
      → Leaves (member_target line slot member v)
  Leaves-member_target line slot member (some (val_record name members)) =
      Leaves-found_member line slot member _
  Leaves-member_target line slot member _ = Leaves-failing line _

  Leaves-read_slot :
      (select : ℕ → Slot → Option (Value F) → I F (Option Slot)) (line : ℕ) (slot : Option Slot)
      → ((line : ℕ) (slot : Slot) (v : Option (Value F)) → Leaves (select line slot v))
      → Leaves (read_slot select line slot)
  Leaves-read_slot select line none h = Leaves-failing line _
  Leaves-read_slot select line (some slot) h = Leaves-get λ s. h line slot _

module _ {F : Type 0} (eval : AstNode → I F (Value F))
    (Leaves-eval : (node : AstNode) → Leaves (eval node)) where
  pub Leaves-resolve_assignment_target :
      (target : AstNode) → Leaves (resolve_assignment_target eval target)
  unfolding resolve_assignment_target
  Leaves-resolve_assignment_target (identifier_expr line name) =
      Leaves-get λ s. Leaves-name_target line name _
  Leaves-resolve_assignment_target (index_expr line array index_node) =
      Leaves-bind (Leaves-resolve_assignment_target array) λ slot.
        Leaves-bind (Leaves-eval index_node)
          λ i. Leaves-read_slot _ line slot λ line slot v. Leaves-index_target line slot v i
  Leaves-resolve_assignment_target (member_expr line target member) =
      Leaves-bind (Leaves-resolve_assignment_target target)
        λ slot. Leaves-read_slot _ line slot λ line slot v. Leaves-member_target line slot member v
  Leaves-resolve_assignment_target node = Leaves-failing _ _
