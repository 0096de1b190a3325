-- ===== src/Semantic/Keeps.antt =====
-- What the checks of src/semantic/semantic.c leave alone: an error, once reported, is not taken back.
use kratos_lang.Prelude.{ℕ, Bool, true, false, ◌≡◌, if◌then◌else◌, arith, Bytes}
use kratos_lang.Semantic.State.{Analyzer, M, ◌>>=◌, ◌>>◌, pure, semantic_error, error_if}
use kratos_lang.Semantic.Operators.{get}

-- The scopes, the records and the context are the same, and no error is taken back.
pub record Keeps (a b : Analyzer) : Type 0 where
  pub scope : b.scope ≡ a.scope
  pub loop_depth : b.loop_depth ≡ a.loop_depth
  pub in_function : b.in_function ≡ a.in_function
  pub current_return : b.current_return ≡ a.current_return
  pub records : b.records ≡ a.records
  pub wield_stack : b.wield_stack ≡ a.wield_stack
  pub errors : a.had_error ≡ true → b.had_error ≡ true

pub Keeps-refl : (a : Analyzer) → Keeps a a
Keeps-refl a = ground arith

pub Keeps-trans : (a b c : Analyzer) → Keeps a b → Keeps b c → Keeps a c
Keeps-trans a b c p q = ground arith

-- A computation that only reports errors.
pub data OnlyReports {ℓ} {A : Type ℓ} (m : M A) : Type ℓ where
  reports : ((s : Analyzer) → Keeps s (m s).1) → OnlyReports m

module _ {ℓ} {A : Type ℓ} where
  pub run : {m : M A} (s : Analyzer) → OnlyReports m → Keeps s (m s).1
  run s (reports h) = h s

  pub OnlyReports-pure : (a : A) → OnlyReports (pure a)
  OnlyReports-pure a = reports Keeps-refl

  pub OnlyReports-if :
      (b : Bool) {m k : M A} → OnlyReports m → OnlyReports k → OnlyReports (if b then m else k)
  OnlyReports-if true p q = p
  OnlyReports-if false p q = q

module _ {ℓ κ} {A : Type ℓ} {B : Type κ} where
  pub OnlyReports-bind :
      {m : M A} {f : A → M B}
      → OnlyReports m
      → ((a : A) → OnlyReports (f a))
      → OnlyReports (m >>= f)
  OnlyReports-bind {m} {f} (reports h) k =
      reports λ s. Keeps-trans s (m s).1 _ (h s) (run (m s).1 (k (m s).0))

  pub OnlyReports-then : {m : M A} {k : M B} → OnlyReports m → OnlyReports k → OnlyReports (m >> k)
  OnlyReports-then {m} {k} (reports h) (reports g) =
      reports λ s. Keeps-trans s (m s).1 _ (h s) (g (m s).1)

pub OnlyReports-get : OnlyReports get
OnlyReports-get = reports Keeps-refl

pub OnlyReports-semantic_error : (line : ℕ) (m : Bytes) → OnlyReports (semantic_error line m)
unfolding semantic_error
OnlyReports-semantic_error line m = reports λ s. ground arith

pub OnlyReports-error_if : (test : Bool) (line : ℕ) (m : Bytes) → OnlyReports (error_if test line m)
OnlyReports-error_if true line m = OnlyReports-semantic_error line m
OnlyReports-error_if false line m = OnlyReports-pure tt

pub ruleset reporting = (
  OnlyReports-pure, OnlyReports-if, OnlyReports-bind, OnlyReports-then, OnlyReports-get,
  OnlyReports-semantic_error, OnlyReports-error_if,
)
