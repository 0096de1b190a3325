-- ===== src/Parser/Forward.antt =====
-- Functions of the parser of src/parser that end: each gives a value, keeps `Forward`, and needs fuel for
-- the states of its bound only. The rules for `do` blocks, branches and tokens.
use kratos_lang.Prelude.{
  ℕ, suc, ◌≤◌, ◌<◌, ◌≡◌, refl, ◌∙◌, Bool, true, false, Option, some, arith, if◌then◌else◌,
}
use kratos_lang.Parser.State.{Parser, P, ◌>>=◌, pure}
use kratos_lang.Parser.Weight.{at_end, weight, Forward, Forward-refl, Forward-trans}

-- A result from state `p`: a value, in a state behind `p`.
pub record Step {ℓ} {A : Type ℓ} (p : Parser) (r : Option (A × Parser)) : Type ℓ where
  pub value : A
  pub next : Parser
  pub done : r ≡ some (value, next)
  pub forward : Forward p next

-- A result that consumes a token, unless the source is at its end.
pub record Taken {ℓ} {A : Type ℓ} (p : Parser) (r : Option (A × Parser)) : Type ℓ where
  pub step : Step p r
  pub strict : at_end p ≡ false → weight step.next < weight p

-- Results for all states of a weight below `n`; for those that are not at the end.
pub data Runs {ℓ} {A : Type ℓ} (n : ℕ) (m : P A) : Type ℓ where
  runs : ((p : Parser) → weight p < n → Step p (m p)) → Runs n m

pub data Takes {ℓ} {A : Type ℓ} (n : ℕ) (m : P A) : Type ℓ where
  takes : ((p : Parser) → weight p < n → Taken p (m p)) → Takes n m

pub data Starts {ℓ} {A : Type ℓ} (n : ℕ) (m : P A) : Type ℓ where
  starts : ((p : Parser) → at_end p ≡ false → weight p < n → Taken p (m p)) → Starts n m

-- A result that leaves the current token.
pub record Peeked {ℓ} {A : Type ℓ} (p : Parser) (r : Option (A × Parser)) : Type ℓ where
  pub step : Step p r
  pub stays : at_end step.next ≡ at_end p

pub data Peeks {ℓ} {A : Type ℓ} (n : ℕ) (m : P A) : Type ℓ where
  peeks : ((p : Parser) → weight p < n → Peeked p (m p)) → Peeks n m

module _ {ℓ} {A : Type ℓ} where
  pub step_of : {n : ℕ} {m : P A} → Runs n m → (p : Parser) → weight p < n → Step p (m p)
  step_of (runs h) = h

  pub Takes-Taken : {n : ℕ} {m : P A} → Takes n m → (p : Parser) → weight p < n → Taken p (m p)
  Takes-Taken (takes h) = h

  pub started :
      {n : ℕ} {m : P A}
      → Starts n m
      → (p : Parser) → at_end p ≡ false
      → weight p < n
      → Taken p (m p)
  started (starts h) = h

  pub peeked : {n : ℕ} {m : P A} → Peeks n m → (p : Parser) → weight p < n → Peeked p (m p)
  peeked (peeks h) = h

  pub Runs-Takes : {n : ℕ} {m : P A} → Takes n m → Runs n m
  Runs-Takes t = runs λ p h. (Takes-Taken t p h).step

  pub Starts-Takes : {n : ℕ} {m : P A} → Takes n m → Starts n m
  Starts-Takes t = starts λ p e h. Takes-Taken t p h

  pub Runs-weaken : {k n : ℕ} {m : P A} → k ≤ n → Runs n m → Runs k m
  Runs-weaken le (runs r) = runs λ p h. r p (omega (arith, le, h))

  pub Takes-weaken : {k n : ℕ} {m : P A} → k ≤ n → Takes n m → Takes k m
  Takes-weaken le (takes r) = takes λ p h. r p (omega (arith, le, h))

  pub Runs-zero : {m : P A} → Runs 0 m
  Runs-zero = runs λ p h. absurd (omega (arith, h))

  pub Takes-zero : {m : P A} → Takes 0 m
  Takes-zero = takes λ p h. absurd (omega (arith, h))

  pub Starts-zero : {m : P A} → Starts 0 m
  Starts-zero = starts λ p e h. absurd (omega (arith, h))

  pub Runs-pure : {n : ℕ} (a : A) → Runs n (pure a)
  Runs-pure a = runs λ p h. record { value = a; next = p; done = refl; forward = Forward-refl p }

  pub Runs-if : {n : ℕ} (b : Bool) {m k : P A} → Runs n m → Runs n k → Runs n (if b then m else k)
  Runs-if true r s = r
  Runs-if false r s = s

  pub Takes-if :
      {n : ℕ} (b : Bool) {m k : P A} → Takes n m → Takes n k → Takes n (if b then m else k)
  Takes-if true r s = r
  Takes-if false r s = s

  pub Starts-if :
      {n : ℕ} (b : Bool) {m k : P A} → Starts n m → Starts n k → Starts n (if b then m else k)
  Starts-if true r s = r
  Starts-if false r s = s

module _ {ℓ κ} {A : Type ℓ} {B : Type κ} where
  abbrev pub then_step :
      (p : Parser) (m : P A) (f : A → P B) (a : Step p (m p))
      → Step a.next (f a.value a.next)
      → Step p ((m >>= f) p)
  then_step p m f a b = record {
    value = b.value;
    next = b.next;
    done = rw a.done b.done;
    forward = Forward-trans p a.next b.next a.forward b.forward;
  }

  pub Runs-bind :
      {n : ℕ} {m : P A} {f : A → P B} → Runs n m → ((a : A) → Runs n (f a)) → Runs n (m >>= f)
  Runs-bind {n} {m} {f} (runs r) k = runs λ p h.
      let a = r p h in
      then_step p m f a (step_of (k a.value) a.next (omega (arith, a.forward.less, h)))

  pub Takes-bind :
      {n : ℕ} {m : P A} {f : A → P B} → Takes n m → ((a : A) → Runs n (f a)) → Takes n (m >>= f)
  Takes-bind {n} {m} {f} (takes r) k = takes λ p h.
      let a = r p h in
      let b = step_of (k a.step.value) a.step.next (omega (arith, a.step.forward.less, h)) in
      record {
        step = then_step p m f a.step b;
        strict = λ e. omega (arith, a.strict e, b.forward.less);
      }

  -- The first consumes a token where one is left, so that the rest has one unit of the bound less.
  pub Starts-bind :
      {n : ℕ} {m : P A} {f : A → P B}
      → Takes (suc n) m
      → ((a : A) → Runs n (f a))
      → Starts (suc n) (m >>= f)
  Starts-bind {n} {m} {f} (takes r) k = starts λ p e h.
      let a = r p h in
      let b = step_of (k a.step.value) a.step.next (omega (arith, a.strict e, h)) in
      record {
        step = then_step p m f a.step b;
        strict = λ e. omega (arith, a.strict e, b.forward.less);
      }

  -- The second consumes a token, if the first has not.
  pub Takes-bind_right :
      {n : ℕ} {m : P A} {f : A → P B} → Runs n m → ((a : A) → Takes n (f a)) → Takes n (m >>= f)
  Takes-bind_right {n} {m} {f} (runs r) k = takes λ p h.
      let a = r p h in
      let b = Takes-Taken (k a.value) a.next (omega (arith, a.forward.less, h)) in
      record {
        step = then_step p m f a b.step;
        strict =
            λ e. ground (arith, a.forward.less, a.forward.same, b.strict, b.step.forward.less, e);
      }

  pub Starts-then :
      {n : ℕ} {m : P A} {f : A → P B}
      → Starts (suc n) m
      → ((a : A) → Runs n (f a))
      → Starts (suc n) (m >>= f)
  Starts-then {n} {m} {f} (starts r) k = starts λ p e h.
      let a = r p e h in
      let b = step_of (k a.step.value) a.step.next (omega (arith, a.strict e, h)) in
      record {
        step = then_step p m f a.step b;
        strict = λ e. omega (arith, a.strict e, b.forward.less);
      }

  -- The first only looks ahead.
  pub Starts-peek :
      {n : ℕ} {m : P A} {f : A → P B} → Peeks n m → ((a : A) → Starts n (f a)) → Starts n (m >>= f)
  Starts-peek {n} {m} {f} (peeks r) k = starts λ p e h.
      let a = r p h in
      let not_end : at_end a.step.next ≡ false = a.stays ∙ e in
      let b =
        started (k a.step.value) a.step.next not_end (omega (arith, a.step.forward.less, h)) in
      record {
        step = then_step p m f a.step b.step;
        strict = λ _. omega (arith, a.step.forward.less, b.strict not_end);
      }

module _ {ℓ} {A : Type ℓ} where
  pub Starts-weaken : {k n : ℕ} {m : P A} → k ≤ n → Starts n m → Starts k m
  Starts-weaken le (starts r) = starts λ p e h. r p e (omega (arith, le, h))
