-- ===== src/Driver/Arguments.antt =====
-- src/main.c: the loop over the arguments of `main`, without what it prints.
use kratos_lang.Prelude.{
  ℕ, Bool, true, false, not, Bytes, codes, bytes_eq, List, [], ◌∷◌, Option, none, some, get_or,
  ◌==◌, ◌&&◌, ◌||◌, if◌then◌else◌,
}

pub data Mode : Type 0 where
  mode_run mode_tokens mode_ast mode_check mode_emit_c : Mode

pub record Options : Type 0 where
  pub mode : Mode
  pub path : Option Bytes
  pub output_path : Option Bytes

-- `main` returns with a status, or goes on; and the same of one argument, of which `-o` wants another.
pub data Arguments : Type 0 where
  returns : ℕ → Arguments
  goes_on : Options → Arguments

pub data Argument : Type 0 where
  stops : ℕ → Argument
  sets : Options → Argument
  wants_output : Options → Argument

abbrev pub is_some {ℓ} : {A : Type ℓ} → Option A → Bool
is_some none = false
is_some (some a) = true

-- The body of the loop.
unfoldable pub read_argument : Options → Bytes → Argument
unfolding bytes_eq
read_argument options arg =
    if bytes_eq arg (codes "--help")
      || bytes_eq arg (codes "-h")
      || bytes_eq arg (codes "--version")
    then stops 0
    else if bytes_eq arg (codes "--tokens")
    then sets (record options { mode = mode_tokens })
    else if bytes_eq arg (codes "--ast")
    then sets (record options { mode = mode_ast })
    else if bytes_eq arg (codes "--emit-c")
    then sets (record options { mode = mode_emit_c })
    else if bytes_eq arg (codes "--check")
    then sets (record options { mode = mode_check })
    else if bytes_eq arg (codes "-o")
    then wants_output options
    else if get_or arg 0 0 == b'-' || is_some options.path
    then stops 2
    else sets (record options { path = some arg })

abbrev pub takes_output : Mode → Bool
takes_output mode_tokens = false
takes_output mode_ast = false
takes_output mode_check = false
takes_output _ = true

-- The check behind the loop.
unfoldable pub checked_options : Options → Arguments
checked_options options =
    if is_some options.output_path && not (takes_output options.mode)
    then returns 2
    else goes_on options

unfoldable pub read_arguments : Argument → List Bytes → Arguments
unfolding read_argument checked_options
read_arguments (stops status) args = returns status
read_arguments (wants_output options) [] = returns 2
read_arguments (wants_output options) (path ∷ args) =
    read_arguments (sets (record options { output_path = some path })) args
read_arguments (sets options) [] = checked_options options
read_arguments (sets options) (arg ∷ args) = read_arguments (read_argument options arg) args

abbrev pub no_options : Options
no_options = record { mode = mode_run; path = none; output_path = none }
