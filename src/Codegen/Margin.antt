-- ===== src/Codegen/Margin.antt =====
-- Emitters of src/codegen/codegen.c that start at the left margin, and the loops over the declarations.
use kratos_lang.Prelude.{◌≡◌, sym, ◌∙◌, true, Bytes, Option, arith, and_left, and_right}
use kratos_lang.Ast.{AstNode, AstNodeList, cons, nil, null}
use kratos_lang.Semantic.Returns.{is_null}
use kratos_lang.Codegen.Emitter.{◌>>◌, Emit, Emitter, then_emit, put, skip, set_indent}
use kratos_lang.Codegen.Program.{body_indented, each}
use kratos_lang.Codegen.Printable.{printable, printable_declaration}
use kratos_lang.Codegen.Emits.{
  Emits, Emits-put, Emits-skip, Emits-then, Emitted, emitted, Emitted-behind,
}

-- From the left margin.
abbrev pub AtMargin : Emit → Type 0
AtMargin m = (e : Emitter) → e.indent ≡ 0 → Emitted e (m e)

pub AtMargin-Emits : (m : Emit) → Emits m → AtMargin m
AtMargin-Emits m h e z = h e

margin_behind :
    (e : Emitter) (r : Option Emitter) (g : Emit)
    → Emitted e r
    → e.indent ≡ 0
    → AtMargin g
    → Emitted e (then_emit r g)
margin_behind e _ g (emitted e' i h) z k = Emitted-behind e' (g e') i h (k e' (i ∙ z))

pub AtMargin-then : (f g : Emit) → AtMargin f → AtMargin g → AtMargin (f >> g)
AtMargin-then f g a b e z = margin_behind e (f e) g (a e z) z b

pub AtMargin-text : (text : Bytes) (g : Emit) → AtMargin g → AtMargin (put text >> g)
AtMargin-text text g m = AtMargin-then (put text) g (AtMargin-Emits _ (Emits-put text)) m

reset :
    (e : Emitter) (r : Option Emitter)
    → e.indent ≡ 0
    → Emitted (record e { indent = 1 }) r
    → Emitted e (then_emit r (set_indent (λ n. 0)))
unfolding set_indent
reset e _ z (emitted e' i h) = emitted (record e' { indent = 0 }) (sym z) h

pub AtMargin-body : (m : Emit) → Emits m → AtMargin (body_indented m)
unfolding set_indent
AtMargin-body m h e z = reset e (m (record e { indent = 1 })) z (h (record e { indent = 1 }))

-- A loop over the declarations keeps what skipping and sequences keep.
pub each-keeps :
    (P : Emit → Type 0) (f : AstNode → Emit) (nodes : AstNodeList)
    → P skip
    → ((a b : Emit) → P a → P b → P (a >> b))
    → ((node : AstNode) → printable_declaration node ≡ true → P (f node))
    → printable nodes ≡ true
    → P (each f nodes)
unfolding printable printable_declaration is_null
each-keeps P f nil s t k h = s
each-keeps P f (cons null nodes) s t k h = absurd (ground (arith, h))
each-keeps P f (cons node nodes) s t k h =
    t (f node) (each f nodes) (k node (and_left _ (printable nodes) h))
      (each-keeps P f nodes s t k (and_right (printable_declaration node) _ h))

pub each-Emits :
    (f : AstNode → Emit) (nodes : AstNodeList)
    → ((node : AstNode) → printable_declaration node ≡ true → Emits (f node))
    → printable nodes ≡ true
    → Emits (each f nodes)
each-Emits f nodes k h = each-keeps Emits f nodes Emits-skip Emits-then k h
