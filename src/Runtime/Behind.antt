-- ===== src/Runtime/Behind.antt =====
-- What each step of src/runtime/interp.c keeps of the state, and the rules for `do` blocks.
use mathlib.Core.List.{map}
use kratos_lang.Prelude.{
  ℕ, ◌≡◌, refl, ◌∙◌, ap, sym, Bool, true, false, Bytes, List, [], ◌∷◌, ◌++◌, append_assoc,
  if◌then◌else◌,
}
use kratos_lang.Runtime.Value.{Value}
use kratos_lang.Runtime.State.{
  Binding, Interp, I, Result, done, out_of_fuel, undefined, continue_with, ◌>>=◌, ◌>>◌, pure, get,
  no_fuel, undefined_behaviour, runtime_error, failing, env_define, defined_in, leave_env,
  parent_of,
}

-- The names that are bound in each environment of the chain.
unfoldable pub names : {F : Type 0} → List (List (Binding F)) → List (List Bytes)
names [] = []
names (bindings ∷ env) = map (λ b. b.name) bindings ∷ names env

-- The second chain has further names in the innermost environment at most.
abbrev pub Extends : List (List Bytes) → List (List Bytes) → Type 0
Extends [] after = after ≡ []
Extends (inner ∷ outer) after = (new : List Bytes) × (after ≡ (new ++ inner) ∷ outer)

Extends-refl : (a : List (List Bytes)) → Extends a a
Extends-refl [] = refl
Extends-refl (inner ∷ outer) = ([], refl)

Extends-trans : (a b c : List (List Bytes)) → Extends a b → Extends b c → Extends a c
Extends-trans [] [] c h k = k
Extends-trans [] (x ∷ b) c h k = cc
Extends-trans (x ∷ a) [] c (new, e) k = cc
Extends-trans (x ∷ a) (y ∷ b) c (new, e) (more, f) =
    let first : y ≡ new ++ x = cc e in
    let rest : b ≡ a = cc e in
    (more ++ new, f ∙ rw (first, rest) (ap (λ inner. inner ∷ a) (sym (append_assoc more new x))))

-- What a step leaves: names are bound in the innermost environment only, the crafts are the same, no
-- error is taken back, and what was printed stays in front of what is printed.
pub record Behind {F : Type 0} (s t : Interp F) : Type 0 where
  pub scopes : Extends (names s.env) (names t.env)
  pub functions : t.functions ≡ s.functions
  pub errors : s.had_error ≡ true → t.had_error ≡ true
  pub new_output : List Bytes
  pub printed : t.output ≡ new_output ++ s.output

module _ {F : Type 0} where
  pub Behind-refl : (s : Interp F) → Behind s s
  Behind-refl s = record {
    scopes = Extends-refl (names s.env);
    functions = refl;
    errors = λ e. e;
    new_output = [];
    printed = refl;
  }

  pub Behind-trans : {s t u : Interp F} → Behind s t → Behind t u → Behind s u
  Behind-trans {s} {t} {u} a b = record {
    scopes = Extends-trans (names s.env) (names t.env) (names u.env) a.scopes b.scopes;
    functions = b.functions ∙ a.functions;
    errors = λ e. b.errors (a.errors e);
    new_output = b.new_output ++ a.new_output;
    printed =
        b.printed
        ∙ ap (λ o. b.new_output ++ o) a.printed
        ∙ sym (append_assoc b.new_output a.new_output s.output);
  }

  -- A result that ends does so in a state behind the first.
  abbrev pub Ends : {A : Type 0} → Interp F → Result F A → Type 0
  Ends s (done a t) = Behind s t
  Ends s _ = Unit {0}

  pub data Leaves {A : Type 0} (m : I F A) : Type 0 where
    leaves : ((s : Interp F) → Ends s (m s)) → Leaves m

  pub Leaves-Ends : {A : Type 0} {m : I F A} → Leaves m → (s : Interp F) → Ends s (m s)
  Leaves-Ends (leaves h) = h

  Ends-after : {B : Type 0} {s t : Interp F} (r : Result F B) → Behind s t → Ends t r → Ends s r
  Ends-after (done b u) h k = Behind-trans h k
  Ends-after out_of_fuel h k = tt
  Ends-after undefined h k = tt

  Ends-bind :
      {A B : Type 0} (s : Interp F) (r : Result F A) (f : A → I F B)
      → Ends s r
      → ((a : A) → Leaves (f a))
      → Ends s (continue_with r f)
  Ends-bind s (done a t) f h k = Ends-after (f a t) h (Leaves-Ends (k a) t)
  Ends-bind s out_of_fuel f h k = tt
  Ends-bind s undefined f h k = tt

  pub Leaves-bind :
      {A B : Type 0} {m : I F A} {f : A → I F B}
      → Leaves m
      → ((a : A) → Leaves (f a))
      → Leaves (m >>= f)
  Leaves-bind {m = m} {f = f} (leaves h) k = leaves λ s. Ends-bind s (m s) f (h s) k

  pub Leaves-then : {A B : Type 0} {m : I F A} {k : I F B} → Leaves m → Leaves k → Leaves (m >> k)
  Leaves-then a b = Leaves-bind a λ x. b

  pub Leaves-pure : {A : Type 0} (a : A) → Leaves (pure a)
  Leaves-pure a = leaves λ s. Behind-refl s

  pub Leaves-no_fuel : {A : Type 0} → Leaves {A = A} no_fuel
  Leaves-no_fuel = leaves λ s. tt

  pub Leaves-undefined : {A : Type 0} → Leaves {A = A} undefined_behaviour
  Leaves-undefined = leaves λ s. tt

  -- A reading of the state.
  pub Leaves-get :
      {A : Type 0} {f : Interp F → I F A} → ((s : Interp F) → Leaves (f s)) → Leaves (get >>= f)
  Leaves-get k = leaves λ s. Leaves-Ends (k s) s

  pub Leaves-if :
      {A : Type 0} (b : Bool) {m k : I F A} → Leaves m → Leaves k → Leaves (if b then m else k)
  Leaves-if true a c = a
  Leaves-if false a c = c

  -- A state with the same chain and the same crafts.
  pub Behind-report :
      (s t : Interp F) (new : List Bytes)
      → t.env ≡ s.env
      → t.functions ≡ s.functions
      → (s.had_error ≡ true → t.had_error ≡ true)
      → t.output ≡ new ++ s.output
      → Behind s t
  Behind-report s t new e f h o = record {
    scopes = rw e (Extends-refl (names s.env));
    functions = f;
    errors = h;
    new_output = new;
    printed = o;
  }

  pub Leaves-runtime_error : (line : ℕ) → Leaves (runtime_error line)
  unfolding runtime_error
  Leaves-runtime_error line = leaves λ s. Behind-report s _ [] refl refl (λ e. refl) refl

  pub Leaves-failing : {A : Type 0} (line : ℕ) (a : A) → Leaves (failing line a)
  Leaves-failing line a = Leaves-then (Leaves-runtime_error line) (Leaves-pure a)

  -- A change of the chain.
  Behind-scopes :
      (s : Interp F) (env : List (List (Binding F)))
      → Extends (names s.env) (names env)
      → Behind s (record s { env = env })
  Behind-scopes s env e = record {
    scopes = e;
    functions = refl;
    errors = λ e. e;
    new_output = [];
    printed = refl;
  }

  -- A change of the values in the chain.
  pub Behind-env :
      (s : Interp F) (env : List (List (Binding F)))
      → names env ≡ names s.env
      → Behind s (record s { env = env })
  Behind-env s env e = Behind-scopes s env (rw e (Extends-refl (names s.env)))

  Extends-defined_in :
      (env : List (List (Binding F))) (binding : Binding F)
      → Extends (names env) (names (defined_in env binding))
  unfolding names
  Extends-defined_in [] binding = refl
  Extends-defined_in (bindings ∷ env) binding = (binding.name ∷ [], refl)

  pub Leaves-env_define :
      (name : Bytes) (is_const : Bool) (value : Value F) → Leaves (env_define name is_const value)
  unfolding env_define
  Leaves-env_define name is_const value = leaves λ s. Behind-scopes s _ (Extends-defined_in s.env _)

  pub names-parent_of :
      (frame : List Bytes) (outer : List (List Bytes)) (env : List (List (Binding F)))
      → Extends (frame ∷ outer) (names env)
      → names (parent_of env) ≡ outer
  unfolding names
  names-parent_of frame outer [] (new, e) = cc
  names-parent_of frame outer (bindings ∷ env) (new, e) = cc

  -- A computation in an environment of its own, which is left behind it.
  pub Ends-inside :
      {A B : Type 0} (s : Interp F) (frame : List (Binding F)) (r : Result F A) (f : A → I F B)
      → Ends (record s { env = frame ∷ s.env }) r
      → ((a : A) → Leaves (f a))
      → Ends s (continue_with r (λ a. leave_env >> f a))
  unfolding leave_env names
  Ends-inside s frame (done a t) f h k =
      let left : Behind s (record t { env = parent_of t.env }) = record {
        scopes = rw (names-parent_of _ (names s.env) t.env h.scopes) (Extends-refl (names s.env));
        functions = h.functions;
        errors = h.errors;
        new_output = h.new_output;
        printed = h.printed;
      } in
      Ends-after (f a (record t { env = parent_of t.env })) left (Leaves-Ends (k a) _)
  Ends-inside s frame out_of_fuel f h k = tt
  Ends-inside s frame undefined f h k = tt
