-- ===== src/Semantic/State.antt =====
-- src/semantic/semantic.c: symbols, scopes, record types and the state of the analyzer, and the
-- operations on scopes. The chain of scopes is a list, the innermost scope first; a scope lists its
-- symbols in the order in which they were added. What `diag_emitf` prints is kept as a list of
-- codes with their lines, the last one first.
use Prim.Native.String.{String}
use kratos_lang.Prelude.{
  ℕ, Bool, true, false, ◌&&◌, ◌||◌, Bytes, codes, Option, none, some, List, [], ◌∷◌, ◌++◌, bytes_eq,
  if◌then◌else◌, ◌==◌,
}
use kratos_lang.Ast.{AstNode}
use kratos_lang.Semantic.Types.{TypeInfo}

pub record Symbol : Type 0 where
  pub name : Bytes
  pub type : TypeInfo
  pub is_const : Bool
  pub is_function : Bool
  pub func : AstNode

abbrev pub Scope : Type 0
Scope = List Symbol

pub record RecordFieldInfo : Type 0 where
  pub name : Bytes
  pub type : TypeInfo

pub record RecordTypeInfo : Type 0 where
  pub name : Bytes
  pub fields : List RecordFieldInfo

pub record Analyzer : Type 0 where
  pub had_error : Bool
  pub diagnostics : List (ℕ × ℕ)
  pub scope : List Scope
  pub loop_depth : ℕ
  pub in_function : Bool
  pub current_return : TypeInfo
  pub records : List RecordTypeInfo
  pub wield_stack : List Bytes

-- A computation of the analyzer: it reads and changes the state, and returns a value.
abbrev pub M {ℓ} : Type ℓ → Type ℓ
M A = Analyzer → A × Analyzer

infixl 5 ◌>>=◌ ◌>>◌
abbrev pub ◌>>=◌ {ℓ κ} : {A : Type ℓ} {B : Type κ} → M A → (A → M B) → M B
◌>>=◌ m f s = f (m s).0 (m s).1

abbrev pub ◌>>◌ {ℓ κ} : {A : Type ℓ} {B : Type κ} → M A → M B → M B
◌>>◌ m k s = k (m s).1

abbrev pub pure {ℓ} : {A : Type ℓ} → A → M A
pure a s = (a, s)

-- The text of a diagnostic.
unfoldable pub message : String → Bytes
message text = codes text

starts_with : Bytes → Bytes → Bool
starts_with s [] = true
starts_with [] (c ∷ part) = false
starts_with (d ∷ s) (c ∷ part) = d == c && starts_with s part

-- `strstr(s, part) != NULL`
unfoldable pub strstr : Bytes → Bytes → Bool
unfolding starts_with
strstr [] part = starts_with [] part
strstr (c ∷ s) part = starts_with (c ∷ s) part || strstr s part

-- The diagnostic code that `semantic_error` finds from the text.
unfoldable pub semantic_code : Bytes → ℕ
unfolding message
semantic_code m =
    if strstr m (message "gia' dichiarato")
    then 301
    else if strstr m (message "dichiarato") || strstr m (message "dichiarata")
    then 302
    else if strstr m (message "craft") && strstr m (message "valore")
    then 303
    else if strstr m (message "condizion")
    then 305
    else if strstr m (message "snap/push")
    then 306
    else if strstr m (message "yield")
    then 307
    else if strstr m (message "wield") || strstr m (message "file di")
    then 308
    else if strstr m (message "k_const")
    then 309
    else if strstr m (message "ogni cammino")
    then 310
    else if strstr m (message "k_void")
    then 311
    else if strstr m (message "livello")
    then 312
    else if strstr m (message "array")
    then 313
    else if strstr m (message "craft inesistente")
        || strstr m (message "argomenti")
        || strstr m (message "chiamata")
    then 314
    else if strstr m (message "record") || strstr m (message "campo")
    then 315
    else 304

unfoldable pub semantic_error : ℕ → Bytes → M (Unit {0})
semantic_error line m s =
    (tt, record s { had_error = true; diagnostics = (semantic_code m, line) ∷ s.diagnostics })

-- `if (test) semantic_error(analyzer, line, m);`
abbrev pub error_if : Bool → ℕ → Bytes → M (Unit {0})
error_if test line m = if test then semantic_error line m else pure tt

unfoldable pub scope_find_local : Scope → Bytes → Option Symbol
scope_find_local [] name = none
scope_find_local (symbol ∷ scope) name =
    if bytes_eq symbol.name name then some symbol else scope_find_local scope name

abbrev pub or_else {ℓ} : {A : Type ℓ} → Option A → Option A → Option A
or_else (some a) b = some a
or_else none b = b

unfoldable pub scope_find : List Scope → Bytes → Option Symbol
scope_find [] name = none
scope_find (scope ∷ parents) name = or_else (scope_find_local scope name) (scope_find parents name)

-- The new symbol behind those of the innermost scope.
unfoldable pub push_symbol : Symbol → List Scope → List Scope
push_symbol symbol [] = []
push_symbol symbol (scope ∷ parents) = (scope ++ (symbol ∷ [])) ∷ parents

abbrev pub current_scope : List Scope → Scope
current_scope [] = []
current_scope (scope ∷ parents) = scope

abbrev pub is_some {ℓ} : {A : Type ℓ} → Option A → Bool
is_some none = false
is_some (some a) = true

unfoldable pub scope_add : ℕ → Symbol → M (Unit {0})
scope_add line symbol s =
    if is_some (scope_find_local (current_scope s.scope) symbol.name)
    then semantic_error line (message "nome gia' dichiarato in questo ambito") s
    else (tt, record s { scope = push_symbol symbol s.scope })

-- `scope_init(&inner, analyzer->scope); analyzer->scope = &inner;` and its undoing.
unfoldable pub enter_scope : M (Unit {0})
enter_scope s = (tt, record s { scope = [] ∷ s.scope })

abbrev pub parents_of : List Scope → List Scope
parents_of [] = []
parents_of (scope ∷ parents) = parents

unfoldable pub leave_scope : M (Unit {0})
leave_scope s = (tt, record s { scope = parents_of s.scope })

unfoldable pub find_record : List RecordTypeInfo → Bytes → Option RecordTypeInfo
find_record [] name = none
find_record (info ∷ infos) name =
    if bytes_eq info.name name then some info else find_record infos name

-- `record_type_find`; the name may be a null pointer.
unfoldable pub record_type_find : List RecordTypeInfo → Option Bytes → Option RecordTypeInfo
record_type_find infos none = none
record_type_find infos (some name) = find_record infos name

unfoldable pub find_field : List RecordFieldInfo → Bytes → Option RecordFieldInfo
find_field [] name = none
find_field (field ∷ fields) name =
    if bytes_eq field.name name then some field else find_field fields name
