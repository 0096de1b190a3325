-- ===== src/Semantic/Compatibility.antt =====
-- The check of the value of an assignment in src/semantic/semantic.c, and the values that a variable may hold.
use kratos_lang.Prelude.{
  ◌≡◌, ◌≢◌, ◌↔◌, refl, sym, ◌∙◌, ap, true, false, Option, some, arith, Bytes, Bool-cases, inl, inr,
  bytes_eq_iff, bytes_eq_refl, ℕ,
}
use kratos_lang.Ast.{
  AstNode, KratosType, type_int, type_float, type_bool, type_char, type_string, type_void,
  type_record,
}
use kratos_lang.Semantic.Types.{TypeInfo, type_eq, names_equal, types_equal, assignable}
use kratos_lang.Semantic.State.{Analyzer, semantic_error}
use kratos_lang.Semantic.Expr.{check_expr}
use kratos_lang.Semantic.Stmt.{check_value}

-- The values of the first type that a variable of the second may hold: those of the same type, where
-- dimensions count, and the names of records; and an integer, for a float, where neither is an array.
pub data Assignable (from to : TypeInfo) : Type 0 where
  same_type :
      from.type ≡ to.type
      → from.type ≢ type_record
      → from.is_array ≡ to.is_array
      → Assignable from to
  same_record :
      (name : Bytes)
      → from.type ≡ type_record
      → to.type ≡ type_record
      → from.record_name ≡ some name
      → to.record_name ≡ some name
      → from.is_array ≡ to.is_array
      → Assignable from to
  widened :
      from.type ≡ type_int
      → to.type ≡ type_float
      → from.is_array ≡ 0
      → to.is_array ≡ 0
      → Assignable from to

type_eq-eq : (a b : KratosType) → type_eq a b ≡ true → a ≡ b
unfolding type_eq
type_eq-eq type_int type_int h = refl
type_eq-eq type_float type_float h = refl
type_eq-eq type_bool type_bool h = refl
type_eq-eq type_char type_char h = refl
type_eq-eq type_string type_string h = refl
type_eq-eq type_void type_void h = refl
type_eq-eq type_record type_record h = refl
type_eq-eq _ _ h = ground (arith, h)

type_eq_refl : (a : KratosType) → type_eq a a ≡ true
unfolding type_eq
type_eq_refl type_int = refl
type_eq_refl type_float = refl
type_eq_refl type_bool = refl
type_eq_refl type_char = refl
type_eq_refl type_string = refl
type_eq_refl type_void = refl
type_eq_refl type_record = refl

eq-type_eq : (a b : KratosType) → a ≡ b → type_eq a b ≡ true
eq-type_eq a b p = rw p (type_eq_refl b)

names_equal-eq : (a b : Option Bytes) → names_equal a b ≡ true → a ≡ b
unfolding names_equal
names_equal-eq (some a) (some b) h = ap some ((bytes_eq_iff a b).0 h)
names_equal-eq _ _ h = ground (arith, h)

names_equal_refl : (a : Bytes) → names_equal (some a) (some a) ≡ true
unfolding names_equal
names_equal_refl a = bytes_eq_refl a

names_some :
    (a b : Option Bytes)
    → names_equal a b ≡ true
    → (name : Bytes) × ((a ≡ some name) × (b ≡ some name))
unfolding names_equal
names_some (some a) (some b) h = (a, (refl, ap some (sym ((bytes_eq_iff a b).0 h))))
names_some _ _ h = absurd (ground (arith, h))

no_record : (a : KratosType) → type_eq a type_record ≡ false → a ≢ type_record
no_record a h e = absurd (ground (arith, h, eq-type_eq a type_record e))

-- By the cases of `types_equal`.
equal-Assignable : (a b : TypeInfo) → types_equal a b ≡ true → Assignable a b
unfolding types_equal
equal-Assignable a b h =
    let kinds : a.type ≡ b.type = type_eq-eq a.type b.type (ground (arith, h)) in
    elim (Bool-cases (type_eq a.type type_record)) [
      | inl r ↦
          let record_type = type_eq-eq a.type type_record r in
          let (name, (p, q)) = names_some a.record_name b.record_name (ground (arith, h, r)) in
          same_record name record_type (sym kinds ∙ record_type) p q (ground (arith, h))
      | inr r ↦ same_type kinds (no_record a.type r) (ground (arith, h))
    ]

assignable-Assignable : (a b : TypeInfo) → assignable a b ≡ true → Assignable a b
unfolding assignable
assignable-Assignable a b h = elim (Bool-cases (types_equal a b)) [
  | inl e ↦ equal-Assignable a b e
  | inr e ↦
      widened (type_eq-eq a.type type_int (ground (arith, h, e)))
        (type_eq-eq b.type type_float (ground (arith, h, e))) (ground (arith, h, e))
        (ground (arith, h, e))
]

type_eq_other : (a b : KratosType) → a ≢ b → type_eq a b ≡ false
type_eq_other a b h = elim (Bool-cases (type_eq a b)) [
  | inl e ↦ absurd (h (type_eq-eq a b e))
  | inr e ↦ e
]

Assignable-assignable : (a b : TypeInfo) → Assignable a b → assignable a b ≡ true
unfolding assignable types_equal
Assignable-assignable a b (same_type kinds no_records dims) =
    let same = eq-type_eq a.type b.type kinds in
    ground (arith, same, dims, type_eq_other a.type type_record no_records)
Assignable-assignable a b (same_record name from to p q dims) =
    let same = eq-type_eq a.type b.type (from ∙ sym to) in
    let names : names_equal a.record_name b.record_name ≡ true =
      rw (p, q) (names_equal_refl name) in
    ground (arith, same, dims, eq-type_eq a.type type_record from, names)
Assignable-assignable a b (widened from to p q) =
    ground (arith, eq-type_eq a.type type_int from, eq-type_eq b.type type_float to, p, q)

-- The value of an assignment to a target of a known type is accepted, with no error reported up to it,
-- if and only if the check of its expression reports none and gives a type whose values the target
-- may hold.
pub check_value-Assignable :
    (line : ℕ) (value : AstNode) (target : TypeInfo) (s : Analyzer)
    → ((check_value line value (some target) s).1.had_error ≡ false)
      ↔ (((check_expr value s).1.had_error ≡ false) × Assignable (check_expr value s).0 target)
unfolding check_value semantic_error
check_value-Assignable line value target s =
    let type = (check_expr value s).0 in
    elim (Bool-cases (assignable type target)) [
      | inl e ↦ (
        λ h. (ground (arith, h, e), assignable-Assignable type target e),
        λ (h, a). ground (arith, h, e),
      )
      | inr e ↦ (
        λ h. absurd (ground (arith, h, e)),
        λ (h, a). absurd (ground (arith, Assignable-assignable type target a, e)),
      )
    ]
