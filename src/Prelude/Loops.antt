-- ===== src/Prelude/Loops.antt =====
-- A `while` loop on fuel, and the rule for it: an invariant, and a measure that the fuel exceeds.
use Prim.Native.Nat.{ℕ, zero, suc, ◌<◌}
use mathlib.Core.Path.{◌≡◌}
use mathlib.Core.Logic.{inl, inr}
use mathlib.Core.Bool.{Bool, true, false}
use native.Mathlib.Omega.{arith}
use kratos_lang.Prelude.Tests.{Bool-cases}

-- `while (going(state)) state = round(state);` with at most `rounds` rounds.
unfoldable pub while {ℓ} :
    {S : Type ℓ} (rounds : ℕ) (going : S → Bool) (round : S → S) (state : S) → S
while zero going round state = state
while (suc rounds) going round state = elim (going state) [
  | false ↦ state
  | true ↦ while rounds going round (round state)
]

module _ {ℓ} {S : Type ℓ} where
  -- Enough fuel: the loop ends by its test.
  pub while-exit :
      (measure : S → ℕ) (test : S → Bool) (body : S → S)
      → ((s : S) → test s ≡ true → measure (body s) < measure s)
      → (fuel : ℕ) (s : S) → measure s < fuel
      → test (while fuel test body s) ≡ false
  unfolding while
  while-exit measure test body falls zero s m = absurd (omega arith)
  while-exit measure test body falls (suc fuel) s m = elim (Bool-cases (test s)) [
    | inl e ↦
        let d = falls s e in
        rw (e, while) (while-exit measure test body falls fuel (body s) (omega arith))
    | inr e ↦ rw (e, while) e
  ]

  -- A relation between the start and the present state that each round keeps.
  pub while_rel {κ} :
      (R : S → S → Type κ) (test : S → Bool) (body : S → S)
      → ((s : S) → R s s)
      → ((s t u : S) → R s t → R t u → R s u)
      → ((s : S) → test s ≡ true → R s (body s))
      → (fuel : ℕ) (s : S) → R s (while fuel test body s)
  unfolding while
  while_rel R test body r t step zero s = r s
  while_rel R test body r t step (suc fuel) s = elim (Bool-cases (test s)) [
    | inl e ↦
        rw (e, while) (t s (body s) _ (step s e) (while_rel R test body r t step fuel (body s)))
    | inr e ↦ rw (e, while) (r s)
  ]

  -- An invariant that each round keeps.
  pub while_inv {κ} :
      (P : S → Type κ) (test : S → Bool) (body : S → S)
      → ((s : S) → test s ≡ true → P s → P (body s))
      → (fuel : ℕ) (s : S) → P s
      → P (while fuel test body s)
  unfolding while
  while_inv P test body keep zero s p = p
  while_inv P test body keep (suc fuel) s p = elim (Bool-cases (test s)) [
    | inl e ↦ rw (e, while) (while_inv P test body keep fuel (body s) (keep s e p))
    | inr e ↦ rw (e, while) p
  ]
