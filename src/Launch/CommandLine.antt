-- ===== src/Launch/CommandLine.antt =====
-- `AppendArg`, `UserArgs` and the command line of `Run` in pkgs/la/launch/src/launch.cc, on Windows. A string is a
-- list of UTF-16 units.
use corepkgs_v.Prelude.{
  ℕ, ◌+◌, ◌*◌, ◌||◌, none, some, List, [], ◌∷◌, ◌++◌, ◌==◌, if◌then◌else◌, Bytes, codes,
  starts_with, find_byte, drop, replicate,
}

-- The loop of `AppendArg`, with the backslashes that are not written yet.
unfoldable pub quote_loop : ℕ → Bytes → Bytes
quote_loop slashes [] = replicate (slashes * 2) b'\\' ++ b'"' ∷ []
quote_loop slashes (c ∷ arg) =
    let slash = quote_loop (slashes + 1) arg in
    let written = if c == b'"' then slashes * 2 + 1 else slashes in
    let other = replicate written b'\\' ++ (c ∷ quote_loop 0 arg) in
    if c == b'\\' then slash else other

-- `AppendArg`
unfoldable pub append_arg : Bytes → Bytes → Bytes
unfolding quote_loop
append_arg line arg = line ++ (b' ' ∷ b'"' ∷ quote_loop 0 arg)

unfoldable pub append_args : Bytes → List Bytes → Bytes
append_args line [] = line
append_args line (arg ∷ args) = append_args (append_arg line arg) args

-- From the first byte on that ends the program's name.
unfoldable pub from_blank : Bytes → Bytes
from_blank [] = []
from_blank (c ∷ line) =
    let rest = from_blank line in if c == b' ' || c == b'\t' then c ∷ line else rest

-- `UserArgs`: what stands behind the program's name in our own command line.
unfoldable pub user_args : Bytes → Bytes
unfolding find_byte from_blank starts_with
user_args line =
    let quoted : Bytes = elim (find_byte b'"' (drop 1 line)) [
      | none ↦ []
      | some (name, at) ↦ drop 1 at
    ] in
    if starts_with line (codes "\"") then quoted else from_blank line

-- The command line that `Run` passes on: the first blank is skipped.
unfoldable pub command_line : Bytes → List Bytes → Bytes → Bytes
unfolding append_args user_args
command_line argv0 pre own = drop 1 (append_args [] (argv0 ∷ pre) ++ user_args own)
