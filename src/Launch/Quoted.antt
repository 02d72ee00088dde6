-- ===== src/Launch/Quoted.antt =====
-- The command line that `AppendArg` of pkgs/la/launch/src/launch.cc writes, read by the documented rules of
-- CommandLineToArgvW.
use corepkgs_v.Prelude.{
  ℕ, zero, suc, ◌+◌, ◌*◌, ◌/◌, ◌%◌, ◌≡◌, refl, sym, ap, ◌∙◌, inl, inr, Bool, true, false, not, ◌&&◌,
  ◌||◌, List, [], ◌∷◌, ◌++◌, append_assoc, append-nil, arith, ◌==◌, if◌then◌else◌, Bool-cases,
  Bytes, length, replicate,
}
use mathlib.Core.Path.{subst}
use corepkgs_v.Launch.CommandLine.{quote_loop, append_arg, append_args}

abbrev slashes_of : ℕ → Bytes
slashes_of n = replicate n b'\\'

abbrev is_blank : ℕ → Bool
is_blank c = c == b' ' || c == b'\t'

-- An argument from its first unit on, in or outside quotes, with the backslashes read last: the argument, and
-- what follows. Before a quote two backslashes stand for one, and an odd one makes the quote a part of the
-- argument; other quotes open and close the quoted mode. Before anything else backslashes stand for
-- themselves. An argument ends at a blank outside quotes, or with the line.
unfoldable pub read_arg : Bool → ℕ → Bytes → Bytes × Bytes
read_arg quoted slashes [] = (slashes_of slashes, [])
read_arg quoted slashes (c ∷ line) =
    let more = read_arg quoted (slashes + 1) line in
    let rest = read_arg quoted 0 line in
    let toggled = read_arg (not quoted) 0 line in
    if c == b'\\'
    then more
    else if c == b'"'
    then (if slashes % 2 == 0
        then (slashes_of (slashes / 2) ++ toggled.0, toggled.1)
        else (slashes_of (slashes / 2) ++ (c ∷ rest.0), rest.1))
    else if not quoted && is_blank c
    then (slashes_of slashes, c ∷ line)
    else (slashes_of slashes ++ (c ∷ rest.0), rest.1)

unfoldable pub skip_blanks : Bytes → Bytes
skip_blanks [] = []
skip_blanks (c ∷ line) = let rest = skip_blanks line in if is_blank c then rest else c ∷ line

-- A number of arguments behind blanks, and what follows.
unfoldable pub read_args : ℕ → Bytes → List Bytes × Bytes
read_args zero line = ([], line)
read_args (suc n) line =
    let (arg, after) = read_arg false 0 (skip_blanks line) in
    let (args, rest) = read_args n after in (arg ∷ args, rest)

-- A text in front of which an argument ends.
abbrev pub Ends : Bytes → Type 0
Ends [] = Unit
Ends (c ∷ line) = is_blank c ≡ true

read_arg-slashes :
    (quoted : Bool) (n m : ℕ) (line : Bytes)
    → read_arg quoted n (slashes_of m ++ line) ≡ read_arg quoted (n + m) line
unfolding read_arg
read_arg-slashes quoted n zero line = ap (λ k. read_arg quoted k line) (omega arith)
read_arg-slashes quoted n (suc m) line =
    read_arg-slashes quoted (n + 1) m line ∙ ap (λ k. read_arg quoted k line) (omega arith)

slashes_shift : (k : ℕ) (s : Bytes) → slashes_of (k + 1) ++ s ≡ slashes_of k ++ (b'\\' ∷ s)
slashes_shift zero s = refl
slashes_shift (suc k) s =
    let one_more : suc k + 1 ≡ suc (k + 1) = omega arith in
    ap (λ n. slashes_of n ++ s) one_more ∙ ap (◌∷◌ b'\\') (slashes_shift k s)

-- An argument ends here.
read_arg-Ends : (rest : Bytes) → Ends rest → read_arg false 0 rest ≡ ([], rest)
unfolding read_arg
read_arg-Ends [] h = refl
read_arg-Ends (c ∷ rest) h =
    let no_slash : (c == b'\\') ≡ false = ground arith in
    let no_quote : (c == b'"') ≡ false = ground arith in rw (no_slash, no_quote, h, read_arg) refl

-- The opening quote.
read_arg_opens : (line : Bytes) → read_arg false 0 (b'"' ∷ line) ≡ read_arg true 0 line
unfolding read_arg
read_arg_opens line = refl

module _ (k : ℕ) (line : Bytes) where
  -- The closing quote.
  read_arg_closes : Ends line → read_arg true (k * 2) (b'"' ∷ line) ≡ (slashes_of k, line)
  unfolding read_arg
  read_arg_closes h =
      let even : (k * 2 % 2 == 0) ≡ true = ground arith in
      let half : k * 2 / 2 ≡ k = omega arith in
      rw even (
        ap (λ n. (slashes_of n ++ (read_arg false 0 line).0, (read_arg false 0 line).1)) half
        ∙ ap (λ r. (slashes_of k ++ r.0, r.1)) (read_arg-Ends line h)
        ∙ ap (λ s. (s, line)) (append-nil (slashes_of k)))

  module _ (arg after : Bytes) (h : read_arg true 0 line ≡ (arg, after)) where
    -- A quote of the argument.
    read_arg_quote : read_arg true (k * 2 + 1) (b'"' ∷ line) ≡ (slashes_of k ++ (b'"' ∷ arg), after)
    unfolding read_arg
    read_arg_quote =
        let odd : ((k * 2 + 1) % 2 == 0) ≡ false = ground arith in
        let half : (k * 2 + 1) / 2 ≡ k = omega arith in
        rw odd (
          ap (λ n. (slashes_of n ++ (b'"' ∷ (read_arg true 0 line).0), (read_arg true 0 line).1))
            half
          ∙ ap (λ r. (slashes_of k ++ (b'"' ∷ r.0), r.1)) h)

    read_arg_plain :
        (c : ℕ)
        → (c == b'\\') ≡ false
        → (c == b'"') ≡ false
        → read_arg true k (c ∷ line) ≡ (slashes_of k ++ (c ∷ arg), after)
    unfolding read_arg
    read_arg_plain c no_slash no_quote =
        rw (no_slash, no_quote) (ap (λ r. (slashes_of k ++ (c ∷ r.0), r.1)) h)

-- What is written of an argument is read as it.
read_arg-quote_loop :
    (k : ℕ) (arg rest : Bytes)
    → Ends rest
    → read_arg true 0 (quote_loop k arg ++ rest) ≡ (slashes_of k ++ arg, rest)
unfolding quote_loop
read_arg-quote_loop k [] rest h =
    ap (read_arg true 0) (append_assoc (slashes_of (k * 2)) (b'"' ∷ []) rest)
    ∙ read_arg-slashes true 0 (k * 2) (b'"' ∷ rest)
    ∙ ap (λ n. read_arg true n (b'"' ∷ rest)) (omega arith)
    ∙ read_arg_closes k rest h
    ∙ ap (λ s. (s, rest)) (sym (append-nil (slashes_of k)))
read_arg-quote_loop k (c ∷ arg) rest h = elim (Bool-cases (c == b'\\')) [
  | inl slash ↦
      let same : b'\\' ≡ c = ground arith in
      rw (slash, quote_loop)
        (read_arg-quote_loop (k + 1) arg rest h
          ∙ ap (λ s. (s, rest)) (slashes_shift k arg ∙ ap (λ d. slashes_of k ++ (d ∷ arg)) same))
  | inr plain ↦ elim (Bool-cases (c == b'"')) [
    | inl quote ↦
        let same : b'"' ≡ c = ground arith in
        rw (plain, quote, quote_loop)
          (ap (read_arg true 0) (append_assoc (slashes_of (k * 2 + 1)) (c ∷ quote_loop 0 arg) rest)
            ∙ read_arg-slashes true 0 (k * 2 + 1) (c ∷ (quote_loop 0 arg ++ rest))
            ∙ ap (λ d. read_arg true (0 + (k * 2 + 1)) (d ∷ (quote_loop 0 arg ++ rest))) (sym same)
            ∙ ap (λ n. read_arg true n (b'"' ∷ (quote_loop 0 arg ++ rest))) (omega arith)
            ∙ read_arg_quote k (quote_loop 0 arg ++ rest) arg rest
                (read_arg-quote_loop 0 arg rest h)
            ∙ ap (λ d. (slashes_of k ++ (d ∷ arg), rest)) same)
    | inr other ↦
        rw (plain, other, quote_loop)
          (ap (read_arg true 0) (append_assoc (slashes_of k) (c ∷ quote_loop 0 arg) rest)
            ∙ read_arg-slashes true 0 k (c ∷ (quote_loop 0 arg ++ rest))
            ∙ ap (λ n. read_arg true n (c ∷ (quote_loop 0 arg ++ rest))) (omega arith)
            ∙ read_arg_plain k (quote_loop 0 arg ++ rest) arg rest
                (read_arg-quote_loop 0 arg rest h) c plain other)
  ]
]

append_args-line :
    (line : Bytes) (args : List Bytes) → append_args line args ≡ line ++ append_args [] args
unfolding append_args append_arg
append_args-line line [] = sym (append-nil line)
append_args-line line (arg ∷ args) =
    append_args-line (append_arg line arg) args
    ∙ append_assoc line (b' ' ∷ b'"' ∷ quote_loop 0 arg) (append_args [] args)
    ∙ ap (λ s. line ++ s) (sym (append_args-line (append_arg [] arg) args))

append_args-Ends :
    (args : List Bytes) (rest : Bytes) → Ends rest → Ends (append_args [] args ++ rest)
unfolding append_args append_arg
append_args-Ends [] rest h = h
append_args-Ends (arg ∷ args) rest h =
    let line = b' ' ∷ b'"' ∷ quote_loop 0 arg in
    subst (λ s. Ends (s ++ rest)) (sym (append_args-line line args)) refl

skip_blanks_one :
    (c : ℕ) (line : Bytes) → is_blank c ≡ false → skip_blanks (b' ' ∷ c ∷ line) ≡ c ∷ line
unfolding skip_blanks
skip_blanks_one c line h = rw (h, skip_blanks) refl

-- The arguments that are written on a command line, whatever units they hold, are the ones that
-- CommandLineToArgvW reads there, if what stands behind them is empty or begins with a blank.
pub read_args-append_args :
    (args : List Bytes) (rest : Bytes)
    → Ends rest
    → read_args (length args) (append_args [] args ++ rest) ≡ (args, rest)
unfolding read_args
read_args-append_args [] rest h = unfold append_args in refl
read_args-append_args (arg ∷ args) rest h =
    let behind = append_args [] args ++ rest in
    let whole : append_args [] (arg ∷ args) ++ rest ≡ b' ' ∷ b'"' ∷ (quote_loop 0 arg ++ behind) =
      unfold append_args append_arg in
      ap (λ s. s ++ rest) (append_args-line (append_arg [] arg) args)
      ∙ append_assoc (b' ' ∷ b'"' ∷ quote_loop 0 arg) (append_args [] args) rest in
    let one : read_arg false 0 (skip_blanks (append_args [] (arg ∷ args) ++ rest)) ≡ (arg, behind) =
      ap (λ s. read_arg false 0 (skip_blanks s)) whole
      ∙ ap (read_arg false 0) (skip_blanks_one b'"' (quote_loop 0 arg ++ behind) refl)
      ∙ read_arg_opens (quote_loop 0 arg ++ behind)
      ∙ read_arg-quote_loop 0 arg behind (append_args-Ends args rest h) in
    ap (λ r. (r.0 ∷ (read_args (length args) r.1).0, (read_args (length args) r.1).1)) one
    ∙ ap (λ r. (arg ∷ r.0, r.1)) (read_args-append_args args rest h)
