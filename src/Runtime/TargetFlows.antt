-- ===== src/Runtime/TargetFlows.antt =====
-- What `resolve_assignment_target` of src/runtime/interp.c gives: a slot, or an error.
use kratos_lang.Prelude.{ℕ, refl, Bool, true, Bytes, Option, none, some, ltb}
use kratos_lang.Prelude.Int.{pos}
use kratos_lang.Ast.{AstNode, identifier_expr, index_expr, member_expr}
use kratos_lang.Runtime.Value.{Value, val_array, val_int, val_record, values_count}
use kratos_lang.Runtime.State.{Binding, I, Interp}
use kratos_lang.Runtime.Target.{
  Slot, found_member, index_target, member_target, name_target, read_slot,
  resolve_assignment_target,
}
use kratos_lang.Runtime.Good.{Good, Good-failing, Good-if, Good-pure, Good-then}

-- A slot, or an error.
abbrev pub got : Option Slot → Bool → Bool
got (some slot) had_error = true
got none had_error = had_error

module _ {F : Type 0} where
  name_target-Good :
      (line : ℕ) (name : Bytes) (b : Option (Binding F)) (s : Interp F)
      → Good got (name_target line name b s)
  name_target-Good line name none s = Good-failing none line s refl
  name_target-Good line name (some b) s = Good-pure _ s refl

  index_target-Good :
      (line : ℕ) (slot : Slot) (v : Option (Value F)) (i : Value F) (s : Interp F)
      → Good got (index_target line slot v i s)
  index_target-Good line slot (some (val_array type items)) (val_int (pos i)) s =
      Good-if (ltb i (values_count items)) _ _ s (λ e. Good-pure _ s refl)
        (λ e. Good-failing none line s refl)
  index_target-Good line slot _ _ s = Good-failing none line s refl

  found_member-Good :
      (line : ℕ) (slot : Slot) (member : Bytes) (v : Option (Value F)) (s : Interp F)
      → Good got (found_member line slot member v s)
  found_member-Good line slot member none s = Good-failing none line s refl
  found_member-Good line slot member (some v) s = Good-pure _ s refl

  member_target-Good :
      (line : ℕ) (slot : Slot) (member : Bytes) (v : Option (Value F)) (s : Interp F)
      → Good got (member_target line slot member v s)
  member_target-Good line slot member (some (val_record name members)) s =
      found_member-Good line slot member _ s
  member_target-Good line slot member _ s = Good-failing none line s refl

  read_slot-Good :
      (select : ℕ → Slot → Option (Value F) → I F (Option Slot)) (line : ℕ) (slot : Option Slot)
      (s : Interp F)
      → ((line : ℕ) (slot : Slot) (v : Option (Value F)) (s : Interp F)
          → Good got (select line slot v s))
      → Good got (read_slot select line slot s)
  read_slot-Good select line none s h = Good-failing none line s refl
  read_slot-Good select line (some slot) s h = h line slot _ s

  pub resolve_assignment_target-Good :
      (eval : AstNode → I F (Value F)) (target : AstNode) (s : Interp F)
      → Good got (resolve_assignment_target eval target s)
  unfolding resolve_assignment_target
  resolve_assignment_target-Good eval (identifier_expr line name) s = name_target-Good line name _ s
  resolve_assignment_target-Good eval (index_expr line array index_node) s =
      Good-then (resolve_assignment_target eval array s) _ λ slot t.
        Good-then (eval index_node t) _
          λ i u. read_slot-Good _ line slot u λ line slot v s. index_target-Good line slot v i s
  resolve_assignment_target-Good eval (member_expr line target member) s =
      Good-then (resolve_assignment_target eval target s) _ λ slot t.
        read_slot-Good _ line slot t λ line slot v s. member_target-Good line slot member v s
  resolve_assignment_target-Good eval node s = Good-failing none _ s refl
