-- ===== src/Codegen/StringLiterals.antt =====
-- The string literals that src/codegen/codegen.c writes, read by a C compiler.
use Prim.Native.Nat.{◌/◌, ◌%◌}
use mathlib.Core.Path.{subst}
use kratos_lang.Prelude.{
  ==_iff, ◌<◌, ◌-◌, ℕ, ◌+◌, ◌*◌, ◌≡◌, refl, sym, ap, ◌∙◌, true, false, Bytes, codes, [], ◌∷◌, ◌++◌,
  append_assoc, none, some, if◌then◌else◌, ltb, leb, ◌==◌, arith, Bool-cases, inl, inr,
}
use kratos_lang.Codegen.Literals.{escaped, escapes, string_literal, octal}
use kratos_lang.Codegen.CSource.{
  in_text, is_octal, with_byte, c_reads, c_literal, c_source, Marks, no_mark, one_mark, two_marks,
  trigraph, trigraph_behind, has_trigraph, replaced, spliced,
}
use kratos_lang.Codegen.Phases.{replaced-text, spliced-text, has_newline}

-- The text of a C string: up to its first zero.
abbrev pub until_zero : Bytes → Bytes
until_zero [] = []
until_zero (p ∷ text) = if p == 0 then [] else p ∷ until_zero text

abbrev Reads : ℕ → Bytes → Type 0
Reads p written =
    (c : ℕ) (rest : Bytes)
    → c_reads in_text (written ++ (c ∷ rest)) ≡ with_byte p (c_reads in_text (c ∷ rest))

octal_digit : (d : ℕ) → d < 8 → is_octal (48 + d) ≡ true
octal_digit d h = ground arith

octal-Reads : (p : ℕ) → p < 32 → Reads p (b'\\' ∷ octal p)
unfolding c_reads
octal-Reads p h c rest =
    let high : p / 8 < 8 = omega arith in
    let low : p % 8 < 8 = omega arith in
    let value : (0 + (48 + p / 8 - 48)) * 8 + (48 + p % 8 - 48) ≡ p = omega arith in
    let byte : leb p 255 ≡ true = ground (arith, h) in
    rw (octal_digit (p / 8) high, octal_digit (p % 8) low, value, byte)

plain-Reads :
    (p : ℕ) → (p == b'"') ≡ false → (p == b'\\') ≡ false → (p == b'\n') ≡ false → Reads p (p ∷ [])
unfolding c_reads
plain-Reads p quote backslash newline c rest = rw (quote, backslash, newline)

-- What holds of each way to write a byte holds of what `escaped` writes.
escaped-cases :
    (P : ℕ → Bytes → Type 0) (p : ℕ)
    → P b'\\' (codes "\\\\")
    → P b'"' (codes "\\\"")
    → P b'\n' (codes "\\n")
    → P b'\t' (codes "\\t")
    → P b'\r' (codes "\\r")
    → (p < 32 → P p (b'\\' ∷ octal p))
    → ((p == b'"') ≡ false → (p == b'\\') ≡ false → (p == b'\n') ≡ false → P p (p ∷ []))
    → P p (escaped p)
unfolding escaped
escaped-cases P p s q n t r o k = elim (Bool-cases (p == b'\\')) [
  | inl e ↦ subst (λ x. P x (escaped x)) (sym ((==_iff p _).0 e)) s
  | inr backslash ↦ elim (Bool-cases (p == b'"')) [
    | inl e ↦ subst (λ x. P x (escaped x)) (sym ((==_iff p _).0 e)) q
    | inr quote ↦ elim (Bool-cases (p == b'\n')) [
      | inl e ↦ subst (λ x. P x (escaped x)) (sym ((==_iff p _).0 e)) n
      | inr newline ↦ elim (Bool-cases (p == b'\t')) [
        | inl e ↦ subst (λ x. P x (escaped x)) (sym ((==_iff p _).0 e)) t
        | inr tab ↦ elim (Bool-cases (p == b'\r')) [
          | inl e ↦ subst (λ x. P x (escaped x)) (sym ((==_iff p _).0 e)) r
          | inr return ↦ elim (Bool-cases (ltb p 32)) [
            | inl small ↦
                let below : p < 32 = ground arith in
                rw (backslash, quote, newline, tab, return, small) (o below)
            | inr large ↦
                rw (backslash, quote, newline, tab, return, large) (k quote backslash newline)
          ]
        ]
      ]
    ]
  ]
]

escaped-Reads : (p : ℕ) → Reads p (escaped p)
unfolding c_reads
escaped-Reads p =
    escaped-cases Reads p (λ c rest. refl) (λ c rest. refl) (λ c rest. refl) (λ c rest. refl)
      (λ c rest. refl) (octal-Reads p) (plain-Reads p)

-- In front of further text of the literal.
escaped-reads :
    (p : ℕ) (text rest : Bytes)
    → c_reads in_text (escaped p ++ (text ++ (b'"' ∷ rest)))
      ≡ with_byte p (c_reads in_text (text ++ (b'"' ∷ rest)))
escaped-reads p [] rest = escaped-Reads p b'"' rest
escaped-reads p (c ∷ text) rest = escaped-Reads p c (text ++ (b'"' ∷ rest))

-- The text behind an opening quote.
escapes-reads :
    (text rest : Bytes)
    → c_reads in_text (escapes text ++ (b'"' ∷ rest)) ≡ some (until_zero text, rest)
unfolding c_reads escapes
escapes-reads [] rest = refl
escapes-reads (p ∷ text) rest = elim (Bool-cases (p == 0)) [
  | inl zero_byte ↦ rw zero_byte
  | inr other ↦
      rw (other, append_assoc (escaped p) (escapes text) (b'"' ∷ rest))
        (escaped-reads p (escapes text) rest ∙ ap (with_byte p) (escapes-reads text rest))
]

-- What is written for a byte, in front of others, has the trigraphs of the byte.
abbrev Quiet : ℕ → Bytes → Type 0
Quiet p written =
    (seen : Marks) (text : Bytes)
    → trigraph_behind seen (written ++ text) ≡ trigraph_behind seen (p ∷ text)

-- A byte that has no part in a trigraph.
abbrev Aside : ℕ → Type 0
Aside p = ((p == b'?') ≡ false) × (trigraph p ≡ none)

aside :
    (p : ℕ) (seen : Marks) (text : Bytes)
    → Aside p
    → trigraph_behind seen (p ∷ text) ≡ trigraph_behind no_mark text
unfolding trigraph_behind
aside p no_mark text (e, t) = rw e
aside p one_mark text (e, t) = rw e
aside p two_marks text (e, t) = rw (e, t)

backslash_Aside : Aside b'\\'
unfolding trigraph
backslash_Aside = (refl, refl)

octal_Aside : (d : ℕ) → d < 8 → Aside (48 + d)
unfolding trigraph
octal_Aside d h = ground arith

small_Aside : (p : ℕ) → p < 32 → Aside p
unfolding trigraph
small_Aside p h = ground arith

-- A backslash and another byte.
pair-Quiet : (p b : ℕ) → Aside p → Aside b → Quiet p (b'\\' ∷ b ∷ [])
pair-Quiet p b h k seen text =
    aside b'\\' seen (b ∷ text) backslash_Aside ∙ aside b no_mark text k ∙ sym (aside p seen text h)

octal-Quiet : (p : ℕ) → p < 32 → Quiet p (b'\\' ∷ octal p)
octal-Quiet p h seen text =
    let high = octal_Aside (p / 8) (omega arith) in
    let low = octal_Aside (p % 8) (omega arith) in
    aside b'\\' seen _ backslash_Aside
    ∙ aside 48 no_mark _ (octal_Aside 0 (omega arith))
    ∙ aside (48 + p / 8) no_mark _ high
    ∙ aside (48 + p % 8) no_mark text low
    ∙ sym (aside p seen text (small_Aside p h))

escaped-Quiet : (p : ℕ) → Quiet p (escaped p)
unfolding trigraph
escaped-Quiet p =
    escaped-cases Quiet p (pair-Quiet b'\\' b'\\' (refl, refl) (refl, refl))
      (pair-Quiet b'"' b'"' (refl, refl) (refl, refl))
      (pair-Quiet b'\n' b'n' (refl, refl) (refl, refl))
      (pair-Quiet b'\t' b't' (refl, refl) (refl, refl))
      (pair-Quiet b'\r' b'r' (refl, refl) (refl, refl)) (octal-Quiet p)
      (λ quote backslash newline seen text. refl)

same_behind :
    (seen : Marks) (p : ℕ) (a b : Bytes)
    → ((s : Marks) → trigraph_behind s a ≡ trigraph_behind s b)
    → trigraph_behind seen (p ∷ a) ≡ trigraph_behind seen (p ∷ b)
unfolding trigraph_behind
same_behind no_mark p a b h = rw (h one_mark, h no_mark)
same_behind one_mark p a b h = rw (h two_marks, h no_mark)
same_behind two_marks p a b h = rw (h two_marks, h no_mark)

-- The trigraphs of what is written for a text are those of the text.
escapes-trigraphs :
    (seen : Marks) (text : Bytes)
    → trigraph_behind seen (escapes text) ≡ trigraph_behind seen (until_zero text)
unfolding escapes trigraph_behind
escapes-trigraphs seen [] = refl
escapes-trigraphs seen (p ∷ text) = elim (Bool-cases (p == 0)) [
  | inl zero_byte ↦ rw zero_byte
  | inr other ↦
      rw other (
        escaped-Quiet p seen (escapes text)
        ∙ same_behind seen p _ _ (λ s. escapes-trigraphs s text))
]

abbrev Lineless : ℕ → Bytes → Type 0
Lineless p written = (text : Bytes) → has_newline (written ++ text) ≡ has_newline text

octal-Lineless : (p : ℕ) → p < 32 → Lineless p (b'\\' ∷ octal p)
unfolding has_newline
octal-Lineless p h text =
    let high : (48 + p / 8 == b'\n') ≡ false = ground arith in
    let low : (48 + p % 8 == b'\n') ≡ false = ground arith in rw (high, low)

escaped-Lineless : (p : ℕ) → Lineless p (escaped p)
unfolding has_newline
escaped-Lineless p =
    escaped-cases Lineless p (λ text. refl) (λ text. refl) (λ text. refl) (λ text. refl)
      (λ text. refl) (octal-Lineless p) (λ quote backslash newline text. rw newline)

escapes_lineless : (text : Bytes) → has_newline (escapes text) ≡ false
unfolding escapes has_newline
escapes_lineless [] = refl
escapes_lineless (p ∷ text) = elim (Bool-cases (p == 0)) [
  | inl zero_byte ↦ rw zero_byte
  | inr other ↦ rw other (escaped-Lineless p (escapes text) ∙ escapes_lineless text)
]

-- The literal stays as it is in the source.
string_literal-c_source :
    (text rest : Bytes)
    → has_trigraph (until_zero text) ≡ false
    → c_source (string_literal text ++ rest) ≡ b'"' ∷ (escapes text ++ (b'"' ∷ c_source rest))
unfolding c_source string_literal replaced spliced
string_literal-c_source text rest h =
    let w = escapes text in
    let first = replaced-text no_mark w rest (escapes-trigraphs no_mark text ∙ h) in
    let second = spliced-text false w (replaced no_mark rest) (escapes_lineless text) in
    rw (append_assoc w (b'"' ∷ []) rest)
      (ap (λ bytes. b'"' ∷ bytes) (ap (spliced false) first ∙ second))

-- A text without a trigraph up to its first zero, in the source of a C program: the literal that is written for it is read, by
-- the rules of standard C, trigraphs and spliced lines included, as a string literal for the text up to its first
-- zero, which ends where it was written to end, whatever stands behind it.
pub string_literal-c_literal :
    (text rest : Bytes)
    → has_trigraph (until_zero text) ≡ false
    → c_literal (c_source (string_literal text ++ rest)) ≡ some (until_zero text, c_source rest)
unfolding c_literal
string_literal-c_literal text rest h =
    ap c_literal (string_literal-c_source text rest h) ∙ escapes-reads text (c_source rest)
