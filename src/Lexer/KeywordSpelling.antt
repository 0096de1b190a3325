-- ===== src/Lexer/KeywordSpelling.antt =====
-- `identifier_type` of src/lexer/lexer.c against the table of the keywords' spellings.
use kratos_lang.Prelude.{
  ◌≡◌, refl, ◌≢◌, Bool, true, false, Bytes, [], codes, bytes_eq, bytes_eq_iff, if◌then◌else◌,
  Bool-cases, inl, inr, arith,
}
use kratos_lang.Lexer.Token.{
  TokenType, token_identifier, token_k_int, token_k_float, token_k_bool, token_k_char,
  token_k_string, token_k_const, token_k_void, token_not, token_if, token_elif, token_else,
  token_hold, token_press, token_drive, token_sweep, token_snap, token_push, token_in, token_craft,
  token_yield, token_shout, token_wield, token_record, token_true, token_false,
}
use kratos_lang.Lexer.Keywords.{identifier_type}

-- How the documentation spells the keywords; the other kinds have no fixed spelling as a word.
unfoldable pub spelling : TokenType → Bytes
spelling token_k_int = codes "k_int"
spelling token_k_float = codes "k_float"
spelling token_k_bool = codes "k_bool"
spelling token_k_char = codes "k_char"
spelling token_k_string = codes "k_string"
spelling token_k_const = codes "k_const"
spelling token_k_void = codes "k_void"
spelling token_not = codes "not"
spelling token_if = codes "if"
spelling token_elif = codes "elif"
spelling token_else = codes "else"
spelling token_hold = codes "hold"
spelling token_press = codes "press"
spelling token_drive = codes "drive"
spelling token_sweep = codes "sweep"
spelling token_snap = codes "snap"
spelling token_push = codes "push"
spelling token_in = codes "in"
spelling token_craft = codes "craft"
spelling token_yield = codes "yield"
spelling token_shout = codes "shout"
spelling token_wield = codes "wield"
spelling token_record = codes "record"
spelling token_true = codes "true"
spelling token_false = codes "false"
spelling _ = []

abbrev Spells : Bytes → TokenType → Type 0
Spells s type = type ≢ token_identifier → spelling type ≡ s

keyword :
    (s k : Bytes) (type rest : TokenType)
    → spelling type ≡ k
    → Spells s rest
    → Spells s (if bytes_eq s k then type else rest)
keyword s k type rest e h = elim (Bool-cases (bytes_eq s k)) [
  | inl same ↦ rw same (λ _. rw ((bytes_eq_iff s k).0 same) e)
  | inr other ↦ rw other h
]

-- A word that is not an identifier is spelled like its kind.
pub spelling-identifier_type :
    (s : Bytes) → identifier_type s ≢ token_identifier → spelling (identifier_type s) ≡ s
unfolding identifier_type spelling
spelling-identifier_type s = keyword s (codes "k_int") token_k_int _ refl (
    keyword s (codes "k_float") token_k_float _ refl (
      keyword s (codes "k_bool") token_k_bool _ refl (
        keyword s (codes "k_char") token_k_char _ refl (
          keyword s (codes "k_string") token_k_string _ refl (
            keyword s (codes "k_const") token_k_const _ refl (
              keyword s (codes "k_void") token_k_void _ refl (
                keyword s (codes "not") token_not _ refl (
                  keyword s (codes "if") token_if _ refl (
                    keyword s (codes "elif") token_elif _ refl (
                      keyword s (codes "else") token_else _ refl (
                        keyword s (codes "hold") token_hold _ refl (
                          keyword s (codes "press") token_press _ refl (
                            keyword s (codes "drive") token_drive _ refl (
                              keyword s (codes "sweep") token_sweep _ refl (
                                keyword s (codes "snap") token_snap _ refl (
                                  keyword s (codes "push") token_push _ refl (
                                    keyword s (codes "in") token_in _ refl (
                                      keyword s (codes "craft") token_craft _ refl (
                                        keyword s (codes "yield") token_yield _ refl (
                                          keyword s (codes "shout") token_shout _ refl (
                                            keyword s (codes "wield") token_wield _ refl (
                                              keyword s (codes "record") token_record _ refl (
                                                keyword s (codes "true") token_true _ refl (
                                                  keyword s (codes "false") token_false _ refl
                                                    (λ h. absurd (h refl))))))))))))))))))))))))))

-- The kinds that have a spelling.
abbrev pub is_keyword : TokenType → Bool
is_keyword token_k_int = true
is_keyword token_k_float = true
is_keyword token_k_bool = true
is_keyword token_k_char = true
is_keyword token_k_string = true
is_keyword token_k_const = true
is_keyword token_k_void = true
is_keyword token_not = true
is_keyword token_if = true
is_keyword token_elif = true
is_keyword token_else = true
is_keyword token_hold = true
is_keyword token_press = true
is_keyword token_drive = true
is_keyword token_sweep = true
is_keyword token_snap = true
is_keyword token_push = true
is_keyword token_in = true
is_keyword token_craft = true
is_keyword token_yield = true
is_keyword token_shout = true
is_keyword token_wield = true
is_keyword token_record = true
is_keyword token_true = true
is_keyword token_false = true
is_keyword _ = false

-- Each keyword is recognised by its spelling.
pub identifier_type-spelling :
    (type : TokenType) → is_keyword type ≡ true → identifier_type (spelling type) ≡ type
unfolding identifier_type spelling bytes_eq
identifier_type-spelling token_k_int h = refl
identifier_type-spelling _ h = ground arith
