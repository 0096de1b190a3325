-- ===== src/Runtime/Numbers.antt =====
-- The arithmetic of `int64_t`, on integers, with the test that a result is one.
use Prim.Native.Nat.{◌/◌, ◌%◌}
use kratos_lang.Prelude.{
  ℕ, zero, suc, ◌+◌, ◌-◌, ◌*◌, Bool, true, false, not, ltb, leb, ◌==◌, if◌then◌else◌,
}
use kratos_lang.Prelude.Int.{ℤ, pos, negsuc}

abbrev pub int64_max : ℕ
int64_max = 9223372036854775807

-- Between -2^63 and 2^63 - 1.
abbrev pub fits : ℤ → Bool
fits (pos n) = leb n int64_max
fits (negsuc n) = leb n int64_max

abbrev pub is_negative : ℤ → Bool
is_negative (pos n) = false
is_negative (negsuc n) = true

abbrev pub magnitude : ℤ → ℕ
magnitude (pos n) = n
magnitude (negsuc n) = suc n

-- The number with a sign and a magnitude.
abbrev pub signed : Bool → ℕ → ℤ
signed false n = pos n
signed true zero = pos zero
signed true (suc n) = negsuc n

abbrev pub differ : Bool → Bool → Bool
differ true b = not b
differ false b = b

abbrev pub neg : ℤ → ℤ
neg x = signed (not (is_negative x)) (magnitude x)

abbrev pub difference : ℕ → ℕ → ℤ
difference a b = if ltb a b then signed true (b - a) else pos (a - b)

infixl 60 ◌+ℤ◌ ◌-ℤ◌
infixl 70 ◌*ℤ◌
abbrev pub ◌+ℤ◌ : ℤ → ℤ → ℤ
pos a +ℤ pos b = pos (a + b)
pos a +ℤ negsuc b = difference a (suc b)
negsuc a +ℤ pos b = difference b (suc a)
negsuc a +ℤ negsuc b = negsuc (suc (a + b))

abbrev pub ◌-ℤ◌ : ℤ → ℤ → ℤ
a -ℤ b = a +ℤ neg b

abbrev pub ◌*ℤ◌ : ℤ → ℤ → ℤ
a *ℤ b = signed (differ (is_negative a) (is_negative b)) (magnitude a * magnitude b)

-- Division toward zero, and its remainder, with the sign of the dividend.
abbrev pub quotient : ℤ → ℤ → ℤ
quotient a b = signed (differ (is_negative a) (is_negative b)) (magnitude a / magnitude b)

abbrev pub remainder : ℤ → ℤ → ℤ
remainder a b = signed (is_negative a) (magnitude a % magnitude b)

abbrev pub int_less : ℤ → ℤ → Bool
int_less (pos a) (pos b) = ltb a b
int_less (pos a) (negsuc b) = false
int_less (negsuc a) (pos b) = true
int_less (negsuc a) (negsuc b) = ltb b a

abbrev pub int_equal : ℤ → ℤ → Bool
int_equal (pos a) (pos b) = a == b
int_equal (negsuc a) (negsuc b) = a == b
int_equal _ _ = false
