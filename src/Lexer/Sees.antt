-- ===== src/Lexer/Sees.antt =====
-- The scanner by the bytes in front of its cursor.
use mathlib.Core.Path.{subst}
use native.Mathlib.Numerals.{add-one}
use kratos_lang.Prelude.{
  ℕ, zero, suc, ◌+◌, ◌≡◌, refl, ◌∙◌, ap, ◌≢◌, Bytes, [], ◌∷◌, get_or, drop, arith,
}
use kratos_lang.Lexer.Token.{Lexer}
use kratos_lang.Lexer.Cursor.{current_char, advance}

-- The bytes that are not yet consumed are `bytes`.
abbrev pub Sees : Lexer → Bytes → Type 0
Sees l bytes = drop l.position l.source ≡ bytes

get_or-drop : (i : ℕ) (s : Bytes) → get_or s i 0 ≡ get_or (drop i s) 0 0
get_or-drop zero s = refl
get_or-drop (suc i) [] = refl
get_or-drop (suc i) (c ∷ s) = get_or-drop i s

drop-suc : (i : ℕ) (s : Bytes) (c : ℕ) (r : Bytes) → drop i s ≡ c ∷ r → drop (suc i) s ≡ r
drop-suc zero [] c r e = cc
drop-suc zero (x ∷ s) c r e = cc
drop-suc (suc i) [] c r e = cc
drop-suc (suc i) (x ∷ s) c r e = drop-suc i s c r e

pub current_char-Sees : (l : Lexer) (c : ℕ) (r : Bytes) → Sees l (c ∷ r) → current_char l ≡ c
unfolding current_char
current_char-Sees l c r e = get_or-drop l.position l.source ∙ ap (λ b. get_or b 0 0) e

pub current_char-Sees_end : (l : Lexer) → Sees l [] → current_char l ≡ 0
unfolding current_char
current_char-Sees_end l e = get_or-drop l.position l.source ∙ ap (λ b. get_or b 0 0) e

-- Consuming a byte that is not zero: the cursor moves by one, and nothing else changes.
pub advance-Sees :
    (l : Lexer) (c : ℕ) (r : Bytes)
    → c ≢ 0
    → Sees l (c ∷ r)
    → Sees (advance l) r × (advance l ≡ record l { position = l.position + 1 })
unfolding advance
advance-Sees l c r h e =
    let cur = current_char-Sees l c r e in
    let next : drop (l.position + 1) l.source ≡ r =
      rw add-one (drop-suc l.position l.source c r e) in
    ground (arith, cur, next)

pub Sees-eq : {a b : Lexer} (bytes : Bytes) → a ≡ b → Sees a bytes → Sees b bytes
Sees-eq bytes e h = subst (λ l. Sees l bytes) e h

-- The scanner `n` bytes further on.
abbrev pub ahead : ℕ → Lexer → Lexer
ahead n l = record l { position = l.position + n }

pub ahead-ahead : (k m n : ℕ) (l : Lexer) → n ≡ k + m → ahead m (ahead k l) ≡ ahead n l
ahead-ahead k m n l e = ground arith

pub ahead_zero : (l : Lexer) → l ≡ ahead 0 l
ahead_zero l = ground arith
