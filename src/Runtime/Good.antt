-- ===== src/Runtime/Good.antt =====
-- How a statement of src/runtime/interp.c may end, and the rules for `do` blocks.
use kratos_lang.Prelude.{
  ◌&&◌, ℕ, ◌≡◌, refl, Bool, true, false, not, ◌&&◌, ◌||◌, arith, if◌then◌else◌,
}
use kratos_lang.Runtime.State.{
  Flow, flow_ok, flow_snap, flow_push, flow_yield, flow_error, Interp, I, Result, done, out_of_fuel,
  undefined, continue_with, ◌>>◌, pure, failing, runtime_error, enter_env, leave_env,
}
use kratos_lang.Runtime.Stmt.{is_ok, scoped}

-- `snap` and `push` need a loop around the statement. A statement that yields on every path falls through
-- with an error only, and the flow of an error comes with one.
abbrev pub allowed : Bool → Bool → Flow → Bool → Bool
allowed inside returns flow_ok had_error = not returns || had_error
allowed inside returns flow_snap had_error = inside
allowed inside returns flow_push had_error = inside
allowed inside returns flow_yield had_error = true
allowed inside returns flow_error had_error = had_error

pub allowed-stops :
    (inside a b : Bool) (flow : Flow) (err : Bool)
    → allowed inside a flow err ≡ true
    → (not (is_ok flow) || err) ≡ true
    → allowed inside (a || b) flow err ≡ true
allowed-stops inside a b flow_ok err h e = ground (arith, e)
allowed-stops inside a b _ err h e = h

pub allowed-goes_on :
    (inside a b : Bool) (flow : Flow) (err : Bool)
    → allowed inside a flow err ≡ true
    → (not (is_ok flow) || err) ≡ false
    → b ≡ (a || b)
allowed-goes_on inside a b flow_ok err h e = ground (arith, h, e)
allowed-goes_on inside a b _ err h e = absurd (ground (arith, e))

-- Less is asked of a statement that yields on fewer paths, or stands in a loop.
pub allowed-weaken :
    (inside a b : Bool) (flow : Flow) (err : Bool)
    → allowed inside a flow err ≡ true
    → (b ≡ true → a ≡ true)
    → allowed inside b flow err ≡ true
allowed-weaken inside a true flow_ok err h e = ground (arith, h, e)
allowed-weaken inside a false flow_ok err h e = refl
allowed-weaken inside a b _ err h e = h

pub allowed-outside :
    (inside a : Bool) (flow : Flow) (err : Bool)
    → allowed false a flow err ≡ true
    → allowed inside a flow err ≡ true
allowed-outside inside a flow_snap err h = absurd (ground (arith, h))
allowed-outside inside a flow_push err h = absurd (ground (arith, h))
allowed-outside inside a _ err h = h

pub and_drop : (a b c : Bool) → (a && b && c) ≡ true → (b && c) ≡ true
and_drop a b c h = ground (arith, h)

-- The two ways to write that the branches and the `else` of an `if` yield.
pub if_returns :
    (missing a b : Bool) → (a && (not missing && b)) ≡ (if missing then false else a && b)
if_returns true a b = ground arith
if_returns false a b = refl

module _ {F : Type 0} where
  -- A result with a value that is good, given whether there is an error.
  abbrev Holds : {A : Type 0} → (A → Bool → Bool) → Result F A → Type 0
  Holds g (done a t) = g a t.had_error ≡ true
  Holds g _ = Unit {0}

  pub data Good {A : Type 0} (g : A → Bool → Bool) (r : Result F A) : Type 0 where
    good : Holds g r → Good g r

  pub Good-holds :
      {A : Type 0} {g : A → Bool → Bool} {a : A} {t : Interp F}
      → Good g (done a t)
      → g a t.had_error ≡ true
  Good-holds (good h) = h

  pub Good-pure :
      {A : Type 0} {g : A → Bool → Bool} (a : A) (s : Interp F)
      → g a s.had_error ≡ true
      → Good g (pure a s)
  Good-pure a s h = good h

  pub Good-bind :
      {A B : Type 0} {p : A → Bool → Bool} {g : B → Bool → Bool} (r : Result F A) (f : A → I F B)
      → Good p r
      → ((a : A) (t : Interp F) → p a t.had_error ≡ true → Good g (f a t))
      → Good g (continue_with r f)
  Good-bind (done a t) f (good h) k = k a t h
  Good-bind out_of_fuel f h k = good tt
  Good-bind undefined f h k = good tt

  -- Whatever the first part comes to.
  pub Good-then :
      {A B : Type 0} {g : B → Bool → Bool} (r : Result F A) (f : A → I F B)
      → ((a : A) (t : Interp F) → Good g (f a t))
      → Good g (continue_with r f)
  Good-then (done a t) f k = k a t
  Good-then out_of_fuel f k = good tt
  Good-then undefined f k = good tt

  pub Good-undefined : {A : Type 0} {g : A → Bool → Bool} → Good g undefined
  Good-undefined = good tt

  pub Good-out_of_fuel : {A : Type 0} {g : A → Bool → Bool} → Good g out_of_fuel
  Good-out_of_fuel = good tt

  pub Good-if :
      {A : Type 0} {g : A → Bool → Bool} (b : Bool) (m k : I F A) (s : Interp F)
      → (b ≡ true → Good g (m s))
      → (b ≡ false → Good g (k s))
      → Good g ((if b then m else k) s)
  Good-if true m k s h l = h refl
  Good-if false m k s h l = l refl

  pub Good-map :
      {A : Type 0} {p g : A → Bool → Bool} (r : Result F A)
      → Good p r
      → ((a : A) (e : Bool) → p a e ≡ true → g a e ≡ true)
      → Good g r
  Good-map (done a t) (good h) k = good (k a t.had_error h)
  Good-map out_of_fuel h k = good tt
  Good-map undefined h k = good tt

  Good-left :
      {A : Type 0} {g : A → Bool → Bool} (r : Result F A)
      → Good g r
      → Good g (continue_with r (λ a. leave_env >> pure a))
  unfolding leave_env
  Good-left (done a t) (good h) = good h
  Good-left out_of_fuel h = good tt
  Good-left undefined h = good tt

  pub Good-scoped :
      {A : Type 0} {g : A → Bool → Bool} (m : I F A) (s : Interp F)
      → ((s : Interp F) → Good g (m s))
      → Good g (scoped m s)
  unfolding scoped enter_env
  Good-scoped m s h = Good-left (m _) (h _)

  pub Good-failing :
      {A : Type 0} {g : A → Bool → Bool} (a : A) (line : ℕ) (s : Interp F)
      → g a true ≡ true
      → Good g (failing line a s)
  unfolding runtime_error
  Good-failing a line s h = good h
