-- ===== src/Semantic/Scopes.antt =====
-- The symbol tables of src/semantic/semantic.c: `scope_add` against `scope_find`.
use kratos_lang.Prelude.{
  ℕ, false, ◌≡◌, refl, none, some, if◌then◌else◌, arith, Bytes, bytes_eq, bytes_eq_iff, List, [],
  ◌∷◌, ◌++◌, Option-cases, Bool-cases, inl, inr,
}
use kratos_lang.Semantic.State.{
  Symbol, Scope, Analyzer, semantic_error, or_else, scope_find_local, scope_find, push_symbol,
  scope_add,
}

-- Looking a name up in a scope that has one more symbol at its end.
find_local-append :
    (scope : Scope) (symbol : Symbol) (name : Bytes)
    → scope_find_local (scope ++ (symbol ∷ [])) name
      ≡ or_else
          (scope_find_local scope name)
          (if bytes_eq symbol.name name then some symbol else none)
unfolding scope_find_local
find_local-append [] symbol name = refl
find_local-append (first ∷ scope) symbol name = ground (arith, find_local-append scope symbol name)

find_local-found :
    (scope : Scope) (symbol : Symbol) (name : Bytes)
    → scope_find_local scope name ≡ some symbol
    → symbol.name ≡ name
unfolding scope_find_local
find_local-found (first ∷ scope) symbol name h = elim (Bool-cases (bytes_eq first.name name)) [
  | inl e ↦ ground (arith, (bytes_eq_iff first.name name).0 e, h)
  | inr e ↦ find_local-found scope symbol name (ground (arith, h, e))
]
find_local-found [] symbol name h = ground (arith, h)

-- What a scope chain answers once a symbol is put at the end of the innermost scope.
find-push :
    (scope : Scope) (parents : List Scope) (symbol : Symbol) (name : Bytes)
    → scope_find_local scope symbol.name ≡ none
    → scope_find (push_symbol symbol (scope ∷ parents)) name
      ≡ (if bytes_eq symbol.name name then some symbol else scope_find (scope ∷ parents) name)
unfolding scope_find push_symbol
find-push scope parents symbol name fresh = elim (Bool-cases (bytes_eq symbol.name name)) [
  | inl e ↦
      let free : scope_find_local scope name ≡ none =
        rw ((bytes_eq_iff symbol.name name).0 e) at fresh in
      ground (arith, find_local-append scope symbol name, e, free)
  | inr e ↦ ground (arith, find_local-append scope symbol name, e)
]

-- In an analyzer without an error, and with an open scope: where `scope_add` reports none, looking a
-- name up finds the new symbol under its name, and what it found before under any other name.
pub scope_add-scope_find :
    (line : ℕ) (symbol : Symbol) (name : Bytes) (s : Analyzer) (scope : Scope)
    (parents : List Scope)
    → s.scope ≡ scope ∷ parents
    → (scope_add line symbol s).1.had_error ≡ false
    → scope_find (scope_add line symbol s).1.scope name
      ≡ (if bytes_eq symbol.name name then some symbol else scope_find s.scope name)
unfolding scope_add semantic_error
scope_add-scope_find line symbol name s scope parents nonempty h =
    elim (Option-cases (scope_find_local scope symbol.name)) [
      | inl e ↦ ground (arith, nonempty, e, h, find-push scope parents symbol name e)
      | inr (old, e) ↦ ground (arith, nonempty, e, h)
    ]
