-- ===== src/Wield/Paths.antt =====
-- src/utils/file.c: the directory of a path, and a path relative to a directory.
use kratos_lang.Prelude.{
  ℕ, zero, suc, Bool, false, ◌||◌, Bytes, [], ◌∷◌, ◌++◌, Option, none, some, take, codes, bytes_eq,
  ◌==◌, if◌then◌else◌,
}

-- `strrchr(path, '/')`, as an index.
unfoldable pub last_slash : Bytes → Option ℕ
last_slash [] = none
last_slash (c ∷ path) = elim (last_slash path) [
  | some i ↦ some (suc i)
  | none ↦ if c == b'/' then some 0 else none
]

abbrev pub directory_at : Bytes → Option ℕ → Bytes
directory_at path none = codes "."
directory_at path (some zero) = codes "/"
directory_at path (some (suc i)) = take (suc i) path

unfoldable pub kratos_dirname_dup : Bytes → Bytes
unfolding last_slash
kratos_dirname_dup path = directory_at path (last_slash path)

abbrev pub is_absolute : Bytes → Bool
is_absolute [] = false
is_absolute (c ∷ path) = c == b'/'

-- `dir[dir_len - 1] == '/'`
unfoldable pub ends_in_slash : Bytes → Bool
ends_in_slash [] = false
ends_in_slash (c ∷ []) = c == b'/'
ends_in_slash (c ∷ d ∷ dir) = ends_in_slash (d ∷ dir)

unfoldable pub kratos_join_path : Bytes → Bytes → Bytes
unfolding ends_in_slash bytes_eq
kratos_join_path dir rel =
    if is_absolute rel
    then rel
    else if bytes_eq dir [] || bytes_eq dir (codes ".")
    then rel
    else if ends_in_slash dir
    then dir ++ rel
    else dir ++ (b'/' ∷ rel)
