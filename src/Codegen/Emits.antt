-- ===== src/Codegen/Emits.antt =====
-- What the emitter of src/codegen/codegen.c leaves as it was, and the rules for `do` blocks.
use kratos_lang.Prelude.{
  ℕ, zero, suc, ◌+◌, ◌-◌, ◌≡◌, refl, ◌∙◌, Bool, true, false, Bytes, ◌∷◌, Option, some,
  if◌then◌else◌, arith,
}
use kratos_lang.Ast.{KratosType}
use kratos_lang.Codegen.Emitter.{
  ◌>>◌, indented, Emit, Emitter, emit_c_type, emit_indent, put, set_indent, skip, spaces, then_emit,
}

-- The emitter goes on, with the indent as it was and no new error.
pub data Emitted (e : Emitter) : Option Emitter → Type 0 where
  emitted : (e' : Emitter) → e'.indent ≡ e.indent → e'.had_error ≡ e.had_error → Emitted e (some e')

abbrev pub Emits : Emit → Type 0
Emits m = (e : Emitter) → Emitted e (m e)

pub Emitted-behind :
    {e : Emitter} (e' : Emitter) (r : Option Emitter)
    → e'.indent ≡ e.indent
    → e'.had_error ≡ e.had_error
    → Emitted e' r
    → Emitted e r
Emitted-behind e' _ i h (emitted e'' j k) = emitted e'' (j ∙ i) (k ∙ h)

Emitted-then :
    {e : Emitter} (r : Option Emitter) (g : Emit)
    → Emitted e r
    → Emits g
    → Emitted e (then_emit r g)
Emitted-then _ g (emitted e' i h) m = Emitted-behind e' (g e') i h (m e')

pub Emits-then : (f g : Emit) → Emits f → Emits g → Emits (f >> g)
Emits-then f g a b e = Emitted-then (f e) g (a e) b

pub Emits-skip : Emits skip
Emits-skip e = emitted e refl refl

pub Emits-put : (text : Bytes) → Emits (put text)
unfolding put
Emits-put text e = emitted (record e { output = text ∷ e.output }) refl refl

pub Emits-if : (b : Bool) (f g : Emit) → Emits f → Emits g → Emits (if b then f else g)
Emits-if true f g a b = a
Emits-if false f g a b = b

-- A text in front.
pub Emits-text : (text : Bytes) (g : Emit) → Emits g → Emits (put text >> g)
Emits-text text g m = Emits-then (put text) g (Emits-put text) m

spaces-Emits : (n : ℕ) → Emits (spaces n)
spaces-Emits zero = Emits-skip
spaces-Emits (suc n) = Emits-text _ (spaces n) (spaces-Emits n)

pub emit_indent-Emits : Emits emit_indent
unfolding emit_indent
emit_indent-Emits e = spaces-Emits e.indent e

-- An indent in front.
pub Emits-line : (g : Emit) → Emits g → Emits (emit_indent >> g)
Emits-line g m = Emits-then emit_indent g emit_indent-Emits m

pub emit_c_type-Emits :
    (type : KratosType) (depth : ℕ) (record_name : Option Bytes)
    → Emits (emit_c_type type depth record_name)
unfolding emit_c_type
emit_c_type-Emits type zero record_name = Emits-put _
emit_c_type-Emits type (suc depth) record_name = Emits-put _

unindented :
    (e : Emitter) (r : Option Emitter)
    → Emitted (record e { indent = e.indent + 1 }) r
    → Emitted e (then_emit r (set_indent (λ n. n - 1)))
unfolding set_indent
unindented e _ (emitted e' i h) =
    emitted (record e' { indent = e'.indent - 1 }) (omega (arith, i)) h

pub Emits-indented : (m : Emit) → Emits m → Emits (indented m)
unfolding set_indent
Emits-indented m a e =
    let inner : Emitter = record e { indent = e.indent + 1 } in unindented e (m inner) (a inner)
