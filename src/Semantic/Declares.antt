-- ===== src/Semantic/Declares.antt =====
-- What a statement may do to the analyzer of src/semantic/semantic.c: declare names in the innermost
-- scope, register record types and report errors. The rules for blocks and loops.
use kratos_lang.Prelude.{
  ℕ, ◌+◌, Bool, true, false, ◌≡◌, refl, ap, if◌then◌else◌, arith, [], ◌∷◌, List,
}
use kratos_lang.Semantic.State.{
  Symbol, Scope, Analyzer, M, ◌>>=◌, ◌>>◌, semantic_error, push_symbol, scope_add, enter_scope,
  leave_scope, parents_of,
}
use kratos_lang.Semantic.Stmt.{enter_loop, leave_loop}
use kratos_lang.Semantic.Keeps.{OnlyReports, run}

pub record Grows (a b : Analyzer) : Type 0 where
  pub parents : parents_of b.scope ≡ parents_of a.scope
  pub loop_depth : b.loop_depth ≡ a.loop_depth
  pub in_function : b.in_function ≡ a.in_function
  pub current_return : b.current_return ≡ a.current_return
  pub wield_stack : b.wield_stack ≡ a.wield_stack
  pub errors : a.had_error ≡ true → b.had_error ≡ true

pub Grows-refl : (a : Analyzer) → Grows a a
Grows-refl a = ground arith

pub Grows-trans : (a b c : Analyzer) → Grows a b → Grows b c → Grows a c
Grows-trans a b c p q = ground arith

-- A computation that only declares and reports.
pub data OnlyDeclares {ℓ} {A : Type ℓ} (m : M A) : Type ℓ where
  declares : ((s : Analyzer) → Grows s (m s).1) → OnlyDeclares m

module _ {ℓ} {A : Type ℓ} where
  pub grown : {m : M A} (s : Analyzer) → OnlyDeclares m → Grows s (m s).1
  grown s (declares h) = h s

  pub OnlyDeclares-reports : {m : M A} → OnlyReports m → OnlyDeclares m
  OnlyDeclares-reports {m} r = declares λ s.
      let k = run s r in
      record {
        parents = ap parents_of k.scope;
        loop_depth = k.loop_depth;
        in_function = k.in_function;
        current_return = k.current_return;
        wield_stack = k.wield_stack;
        errors = k.errors;
      }

  pub OnlyDeclares-if :
      (b : Bool) {m k : M A} → OnlyDeclares m → OnlyDeclares k → OnlyDeclares (if b then m else k)
  OnlyDeclares-if true p q = p
  OnlyDeclares-if false p q = q

module _ {ℓ κ} {A : Type ℓ} {B : Type κ} where
  pub OnlyDeclares-bind :
      {m : M A} {f : A → M B}
      → OnlyDeclares m
      → ((a : A) → OnlyDeclares (f a))
      → OnlyDeclares (m >>= f)
  OnlyDeclares-bind {m} {f} (declares h) k =
      declares λ s. Grows-trans s (m s).1 _ (h s) (grown (m s).1 (k (m s).0))

  pub OnlyDeclares-then :
      {m : M A} {k : M B} → OnlyDeclares m → OnlyDeclares k → OnlyDeclares (m >> k)
  OnlyDeclares-then {m} {k} (declares h) (declares g) =
      declares λ s. Grows-trans s (m s).1 _ (h s) (g (m s).1)

parents-push_symbol :
    (symbol : Symbol) (scopes : List Scope)
    → parents_of (push_symbol symbol scopes) ≡ parents_of scopes
unfolding push_symbol
parents-push_symbol symbol [] = refl
parents-push_symbol symbol (scope ∷ scopes) = refl

pub OnlyDeclares-scope_add : (line : ℕ) (symbol : Symbol) → OnlyDeclares (scope_add line symbol)
unfolding scope_add semantic_error
OnlyDeclares-scope_add line symbol =
    declares λ s. ground (arith, parents-push_symbol symbol s.scope)

module _ {ℓ} {A : Type ℓ} where
  -- Entering and leaving a scope around a computation gives back the scopes as they were.
  pub scope-restored :
      {m : M A} (s : Analyzer)
      → OnlyDeclares m
      → (((enter_scope >> m) >> leave_scope) s).1.scope ≡ s.scope
  unfolding enter_scope leave_scope
  scope-restored s (declares h) = (h (record s { scope = [] ∷ s.scope })).parents

  pub OnlyDeclares-scope :
      {m : M A} → OnlyDeclares m → OnlyDeclares ((enter_scope >> m) >> leave_scope)
  unfolding enter_scope leave_scope
  OnlyDeclares-scope (declares h) = declares λ s.
      let g = h (record s { scope = [] ∷ s.scope }) in
      record {
        parents = ap parents_of g.parents;
        loop_depth = g.loop_depth;
        in_function = g.in_function;
        current_return = g.current_return;
        wield_stack = g.wield_stack;
        errors = g.errors;
      }

  pub OnlyDeclares-loop :
      {m : M A} → OnlyDeclares m → OnlyDeclares ((enter_loop >> m) >> leave_loop)
  unfolding enter_loop leave_loop
  OnlyDeclares-loop (declares h) = declares λ s.
      let g = h (record s { loop_depth = s.loop_depth + 1 }) in
      record {
        parents = g.parents;
        loop_depth = omega (arith, g.loop_depth);
        in_function = g.in_function;
        current_return = g.current_return;
        wield_stack = g.wield_stack;
        errors = g.errors;
      }
