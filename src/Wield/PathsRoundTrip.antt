-- ===== src/Wield/PathsRoundTrip.antt =====
-- A file in a directory: src/utils/file.c joins the two and finds the directory again.
use kratos_lang.Prelude.{
  ℕ, Bool, true, false, not, ◌&&◌, ◌≡◌, refl, Bytes, [], ◌∷◌, ◌++◌, none, some, length, take-append,
  codes, bytes_eq, ◌==◌, arith,
}
use kratos_lang.Wield.Paths.{last_slash, kratos_dirname_dup, ends_in_slash, kratos_join_path}

abbrev pub no_slash : Bytes → Bool
no_slash [] = true
no_slash (c ∷ path) = not (c == b'/') && no_slash path

last_slash-no_slash : (path : Bytes) → no_slash path ≡ true → last_slash path ≡ none
unfolding last_slash
last_slash-no_slash [] h = refl
last_slash-no_slash (c ∷ path) h = ground (arith, last_slash-no_slash path)

last_slash-append :
    (dir name : Bytes)
    → no_slash name ≡ true
    → last_slash (dir ++ (b'/' ∷ name)) ≡ some (length dir)
unfolding last_slash
last_slash-append [] name h = rw (last_slash-no_slash name h)
last_slash-append (c ∷ dir) name h = rw (last_slash-append dir name h)

dirname_lem :
    (c : ℕ) (dir name : Bytes)
    → no_slash name ≡ true
    → kratos_dirname_dup (c ∷ dir ++ (b'/' ∷ name)) ≡ c ∷ dir
unfolding kratos_dirname_dup
dirname_lem c dir name h =
    rw (last_slash-append (c ∷ dir) name h) (take-append (c ∷ dir) (b'/' ∷ name))

-- A file name with no slash, joined to a directory that is not empty, not `.` and does not end in a
-- slash: the directory of the path is the directory again.
pub kratos_dirname_dup-kratos_join_path :
    (dir name : Bytes)
    → bytes_eq dir [] ≡ false
    → bytes_eq dir (codes ".") ≡ false
    → ends_in_slash dir ≡ false
    → no_slash name ≡ true
    → kratos_dirname_dup (kratos_join_path dir name) ≡ dir
unfolding kratos_join_path
kratos_dirname_dup-kratos_join_path [] name e p s h = ground (arith, e)
kratos_dirname_dup-kratos_join_path (c ∷ dir) name e p s h =
    ground (arith, e, p, s, h, dirname_lem c dir name h)
