-- ===== src/Codegen/Phases.antt =====
-- A literal with no trigraph and no newline, in a C source: replacing trigraphs and splicing lines leave
-- it as it is.
use kratos_lang.Prelude.{
  ℕ, ◌≡◌, refl, ◌∙◌, ap, Bool, true, false, ◌||◌, Bytes, [], ◌∷◌, ◌++◌, Option, none, some, ◌==◌,
  ==_iff, arith, Bool-cases, inl, inr, sym,
}
use kratos_lang.Codegen.CSource.{
  trigraph, Marks, no_mark, one_mark, two_marks, marks, instead, replaced, spliced, is_trigraph,
  trigraph_behind,
}

no_trigraph : (t : Option ℕ) → is_trigraph t ≡ false → t ≡ none
no_trigraph none h = refl
no_trigraph (some byte) h = absurd (ground (arith, h))

left_false : (a b : Bool) → (a || b) ≡ false → a ≡ false
left_false a b h = ground (arith, h)

right_false : (a b : Bool) → (a || b) ≡ false → b ≡ false
right_false a b h = ground (arith, h)

-- A text in front of a closing quote.
pub replaced-text :
    (seen : Marks) (text rest : Bytes)
    → trigraph_behind seen text ≡ false
    → replaced seen (text ++ (b'"' ∷ rest)) ≡ marks seen ++ (text ++ (b'"' ∷ replaced no_mark rest))
unfolding replaced trigraph_behind trigraph
replaced-text no_mark [] rest h = refl
replaced-text one_mark [] rest h = refl
replaced-text two_marks [] rest h = refl
replaced-text no_mark (c ∷ text) rest h = elim (Bool-cases (c == b'?')) [
  | inl e ↦
      let mark = (==_iff c b'?').0 e in
      rw e (
        replaced-text one_mark text rest (rw e at h)
        ∙ ap (λ x. x ∷ (text ++ (b'"' ∷ replaced no_mark rest))) (sym mark))
  | inr e ↦ rw e (ap (λ bytes. c ∷ bytes) (replaced-text no_mark text rest (rw e at h)))
]
replaced-text one_mark (c ∷ text) rest h = elim (Bool-cases (c == b'?')) [
  | inl e ↦
      let mark = (==_iff c b'?').0 e in
      rw e (
        replaced-text two_marks text rest (rw e at h)
        ∙ ap (λ x. b'?' ∷ x ∷ (text ++ (b'"' ∷ replaced no_mark rest))) (sym mark))
  | inr e ↦ rw e (ap (λ bytes. b'?' ∷ c ∷ bytes) (replaced-text no_mark text rest (rw e at h)))
]
replaced-text two_marks (c ∷ text) rest h = elim (Bool-cases (c == b'?')) [
  | inl e ↦
      let mark = (==_iff c b'?').0 e in
      rw e (
        ap (λ bytes. b'?' ∷ bytes) (replaced-text two_marks text rest (rw e at h))
        ∙ ap (λ x. b'?' ∷ b'?' ∷ x ∷ (text ++ (b'"' ∷ replaced no_mark rest))) (sym mark))
  | inr e ↦
      let both : (is_trigraph (trigraph c) || trigraph_behind no_mark text) ≡ false = rw e at h in
      let plain = no_trigraph (trigraph c) (left_false _ (trigraph_behind no_mark text) both) in
      let tail = replaced-text no_mark text rest (right_false (is_trigraph (trigraph c)) _ both) in
      rw e (
        ap (λ x. instead x c (replaced no_mark (text ++ (b'"' ∷ rest)))) plain
        ∙ ap (λ bytes. b'?' ∷ b'?' ∷ c ∷ bytes) tail)
]

-- A newline in a text.
unfoldable pub has_newline : Bytes → Bool
has_newline [] = false
has_newline (c ∷ text) = c == b'\n' || has_newline text

abbrev slash : Bool → Bytes
slash false = []
slash true = b'\\' ∷ []

pub spliced-text :
    (behind : Bool) (text rest : Bytes)
    → has_newline text ≡ false
    → spliced behind (text ++ (b'"' ∷ rest)) ≡ slash behind ++ (text ++ (b'"' ∷ spliced false rest))
unfolding spliced has_newline
spliced-text false [] rest h = refl
spliced-text true [] rest h = refl
spliced-text false (c ∷ text) rest h = elim (Bool-cases (c == b'\\')) [
  | inl e ↦
      let same = (==_iff c b'\\').0 e in
      rw e (
        spliced-text true text rest (right_false (c == b'\n') _ h)
        ∙ ap (λ x. x ∷ (text ++ (b'"' ∷ spliced false rest))) (sym same))
  | inr e ↦
      rw e (ap (λ bytes. c ∷ bytes) (spliced-text false text rest (right_false (c == b'\n') _ h)))
]
spliced-text true (c ∷ text) rest h =
    let line = left_false (c == b'\n') (has_newline text) h in
    let tail = right_false (c == b'\n') (has_newline text) h in
    elim (Bool-cases (c == b'\\')) [
      | inl e ↦
          let same = (==_iff c b'\\').0 e in
          rw (line, e)
            (ap (λ bytes. b'\\' ∷ bytes) (spliced-text true text rest tail)
              ∙ ap (λ x. b'\\' ∷ x ∷ (text ++ (b'"' ∷ spliced false rest))) (sym same))
      | inr e ↦ rw (line, e) (ap (λ bytes. b'\\' ∷ c ∷ bytes) (spliced-text false text rest tail))
    ]
