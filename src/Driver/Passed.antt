-- ===== src/Driver/Passed.antt =====
-- What `ScanUserArgs` of pkgs/ji/jig/src/driver.cc passes on for ELF, round by round.
use corepkgs_v.Prelude.{
  ℕ, zero, suc, ◌≤◌, ◌≡◌, refl, sym, ap, ◌∙◌, inl, inr, Bool, true, false, ◌&&◌, ◌||◌, Option, none,
  some, List, [], ◌∷◌, ◌++◌, append_assoc, append-nil, arith, Bool-cases, Option-cases, Bytes,
  codes, starts_with, length,
}
use corepkgs_v.Driver.Args.{
  is, k_elf, cut_prefix, rpath_spellings, take_xlinker, take_glued_rpath, take_rpath_arg, elf_arg,
  policy_arg, takes_rpath, UserArgs, note_arg, note_output, pass_arg, scan_user_arg, scan_user_loop,
  first_user_args, scan_user_args, flag_value,
}
use corepkgs_v.Driver.Runpath.{add_verbatim}

-- A request for a dynamic linker.
abbrev pub asks_linker : Bytes → Bool
asks_linker arg =
    starts_with arg (codes "-Wl,--dynamic-linker") || starts_with arg (codes "-Wl,-dynamic-linker")

-- The spellings of a request for an rpath: -Wl,-rpath and -Wl,<value>, also with two dashes ...
abbrev pub is_spaced : Bytes → List Bytes → Bool
is_spaced arg [] = false
is_spaced arg (value ∷ rest) =
    (is arg (codes "-Wl,-rpath") || is arg (codes "-Wl,--rpath"))
    && starts_with value (codes "-Wl,")

-- ... with the value behind a comma or an equals sign ...
abbrev pub is_glued : Bytes → Bool
is_glued arg =
    starts_with arg (codes "-Wl,-rpath,")
    || starts_with arg (codes "-Wl,--rpath,")
    || starts_with arg (codes "-Wl,-rpath=")
    || starts_with arg (codes "-Wl,--rpath=")

-- ... and in four arguments, -Xlinker -rpath -Xlinker <value>.
abbrev pub is_xlinker : Bytes → List Bytes → Bool
is_xlinker arg [] = false
is_xlinker arg (option ∷ []) = false
is_xlinker arg (option ∷ again ∷ []) = false
is_xlinker arg (option ∷ again ∷ value ∷ rest) =
    is arg (codes "-Xlinker")
    && (is option (codes "-rpath") || is option (codes "--rpath"))
    && is again (codes "-Xlinker")

abbrev pub asks_rpath : Bytes → List Bytes → Bool
asks_rpath arg rest = is_spaced arg rest || is_glued arg || is_xlinker arg rest

-- The arguments of a command line that reach the compiler, in their order: exactly those that are neither
-- requests for an rpath, with their values, nor for a dynamic linker.
pub data Passes : List Bytes → List Bytes → Type 0 where
  done : Passes [] []
  spaced :
      {left args : List Bytes} (arg value : Bytes)
      → is_spaced arg (value ∷ left) ≡ true
      → Passes left args
      → Passes (arg ∷ value ∷ left) args
  glued :
      {left args : List Bytes} (arg : Bytes)
      → is_glued arg ≡ true
      → Passes left args
      → Passes (arg ∷ left) args
  xlinker :
      {left args : List Bytes} (arg option again value : Bytes)
      → is_xlinker arg (option ∷ again ∷ value ∷ left) ≡ true
      → Passes left args
      → Passes (arg ∷ option ∷ again ∷ value ∷ left) args
  dynamic_linker :
      {rest args : List Bytes} (arg : Bytes)
      → asks_rpath arg rest ≡ false
      → asks_linker arg ≡ true
      → Passes rest args
      → Passes (arg ∷ rest) args
  keeps :
      {rest args : List Bytes} (arg : Bytes)
      → asks_rpath arg rest ≡ false
      → asks_linker arg ≡ false
      → Passes rest args
      → Passes (arg ∷ rest) (arg ∷ args)

-- What `TakeRpathArg` returns: nothing if there is no request, or what is left behind one.
abbrev Requested : Bytes → List Bytes → Option (Bytes × List Bytes) → Type 0
Requested arg rest none = asks_rpath arg rest ≡ false
Requested arg rest (some (value, left)) =
    ((args : List Bytes) → Passes left args → Passes (arg ∷ rest) args)
    × (length left ≤ length rest)

take_xlinker-Requested :
    (arg : Bytes) (rest : List Bytes)
    → (is_spaced arg rest || is_glued arg) ≡ false
    → Requested arg rest (take_xlinker arg rest)
unfolding take_xlinker
take_xlinker-Requested arg [] h = ground arith
take_xlinker-Requested arg (a ∷ []) h = ground arith
take_xlinker-Requested arg (a ∷ b ∷ []) h = ground arith
take_xlinker-Requested arg (a ∷ b ∷ c ∷ rest) h =
    elim (Bool-cases (is_xlinker arg (a ∷ b ∷ c ∷ rest))) [
      | inl e ↦ rw (e, take_xlinker) (λ args x. xlinker arg a b c e x, omega arith)
      | inr e ↦ rw (e, take_xlinker) (ground arith)
    ]

-- Each glued spelling is cut off, and nothing else.
cut_prefix-is_glued :
    (arg : Bytes)
    → (elim (cut_prefix rpath_spellings arg) [ none ↦ false | some value ↦ true ]) ≡ is_glued arg
unfolding cut_prefix
cut_prefix-is_glued arg = ground arith

take_glued_rpath-Requested :
    (arg : Bytes) (rest : List Bytes)
    → is_spaced arg rest ≡ false
    → Requested arg rest (take_glued_rpath arg rest)
unfolding take_glued_rpath
take_glued_rpath-Requested arg rest h = elim (Option-cases (cut_prefix rpath_spellings arg)) [
  | inl e ↦
      let no_glued : is_glued arg ≡ false =
        sym (cut_prefix-is_glued arg) ∙ ap (λ o. elim o [ none ↦ false | some value ↦ true ]) e in
      rw (e, take_glued_rpath) (take_xlinker-Requested arg rest (ground arith))
  | inr (value, e) ↦
      let is_one : is_glued arg ≡ true =
        sym (cut_prefix-is_glued arg) ∙ ap (λ o. elim o [ none ↦ false | some value ↦ true ]) e in
      rw (e, take_glued_rpath) (λ args x. glued arg is_one x, omega arith)
]

take_rpath_arg-Requested :
    (arg : Bytes) (rest : List Bytes) → Requested arg rest (take_rpath_arg arg rest)
unfolding take_rpath_arg
take_rpath_arg-Requested arg [] = take_glued_rpath-Requested arg [] refl
take_rpath_arg-Requested arg (value ∷ rest) = elim (Bool-cases (is_spaced arg (value ∷ rest))) [
  | inl e ↦ rw (e, take_rpath_arg) (λ args x. spaced arg value e x, omega arith)
  | inr e ↦ rw (e, take_rpath_arg) (take_glued_rpath-Requested arg (value ∷ rest) e)
]

-- A part of the scan: the arguments that it adds, and the entries that it leaves alone.
pub record Scanned (before : UserArgs) (raw : List Bytes) (after : UserArgs) : Type 0 where
  pub passed : List Bytes
  pub added : after.args ≡ before.args ++ passed
  pub passes : Passes raw passed
  pub same_entries : after.runpath.entries ≡ before.runpath.entries

note_output-args :
    (user : UserArgs) (arg : Bytes) (rest : List Bytes)
    → (note_output user arg rest).args ≡ user.args
note_output-args user arg rest = elim (Option-cases (flag_value (codes "-o") arg rest)) [
  | inl e ↦ rw (e, note_output) refl
  | inr (out, e) ↦ rw (e, note_output) refl
]

note_output-entries :
    (user : UserArgs) (arg : Bytes) (rest : List Bytes)
    → (note_output user arg rest).runpath.entries ≡ user.runpath.entries
note_output-entries user arg rest = elim (Option-cases (flag_value (codes "-o") arg rest)) [
  | inl e ↦ rw (e, note_output) refl
  | inr (out, e) ↦ rw (e, note_output) refl
]

pass_arg-Scanned :
    (user after : UserArgs) (arg : Bytes) (rest : List Bytes)
    → asks_rpath arg rest ≡ false
    → Scanned (pass_arg k_elf user arg rest) rest after
    → Scanned user (arg ∷ rest) after
unfolding pass_arg policy_arg elf_arg note_arg
pass_arg-Scanned user after arg rest no_rpath s =
    elim (Bool-cases (
      starts_with arg (codes "-Wl,--dynamic-linker")
      || starts_with arg (codes "-Wl,-dynamic-linker"))) [
        | inl e ↦ record {
          passed = s.passed;
          added =
              s.added
              ∙ ap (λ a. a ++ s.passed)
                  (simp (pass_arg, policy_arg, elf_arg, e) (note_output-args user arg rest));
          passes = dynamic_linker arg no_rpath e s.passes;
          same_entries =
              s.same_entries
              ∙ simp (pass_arg, policy_arg, elf_arg, e) (note_output-entries user arg rest);
        }
        | inr e ↦ record {
          passed = arg ∷ s.passed;
          added =
              s.added
              ∙ ap (λ a. a ++ s.passed)
                  (simp (pass_arg, policy_arg, elf_arg, e)
                    (ap (λ a. a ++ arg ∷ []) (note_output-args user arg rest)))
              ∙ append_assoc user.args (arg ∷ []) s.passed;
          passes = keeps arg no_rpath e s.passes;
          same_entries =
              s.same_entries
              ∙ simp (pass_arg, policy_arg, elf_arg, e, note_arg)
                  (note_output-entries user arg rest);
        }
      ]

scan_user_arg-Scanned :
    (user after : UserArgs) (arg : Bytes) (rest : List Bytes)
    → Scanned (scan_user_arg k_elf user arg rest).0 (scan_user_arg k_elf user arg rest).1 after
    → Scanned user (arg ∷ rest) after
unfolding scan_user_arg takes_rpath add_verbatim
scan_user_arg-Scanned user after arg rest =
    go (take_rpath_arg arg rest) (take_rpath_arg-Requested arg rest)
  where
    go :
        (o : Option (Bytes × List Bytes))
        → Requested arg rest o
        → let step : UserArgs × List Bytes = elim o [
          | some (value, left) ↦ (record user { runpath = add_verbatim user.runpath value }, left)
          | none ↦ (pass_arg k_elf user arg rest, rest)
        ] in
          Scanned step.0 step.1 after → Scanned user (arg ∷ rest) after
    go none e s = pass_arg-Scanned user after arg rest e s
    go (some (value, left)) e s = record {
      passed = s.passed;
      added = s.added;
      passes = e.0 _ s.passes;
      same_entries = s.same_entries;
    }

scan_user_arg-shorter :
    (user : UserArgs) (arg : Bytes) (rest : List Bytes)
    → length (scan_user_arg k_elf user arg rest).1 ≤ length rest
unfolding scan_user_arg takes_rpath
scan_user_arg-shorter user arg rest =
    go (take_rpath_arg arg rest) (take_rpath_arg-Requested arg rest)
  where
    go :
        (o : Option (Bytes × List Bytes))
        → Requested arg rest o
        → let step : UserArgs × List Bytes = elim o [
          | some (value, left) ↦ (record user { runpath = add_verbatim user.runpath value }, left)
          | none ↦ (pass_arg k_elf user arg rest, rest)
        ] in
          length step.1 ≤ length rest
    go none e = omega arith
    go (some (value, left)) e = e.1

Scanned-nil : (user : UserArgs) → Scanned user [] user
Scanned-nil user = record {
  passed = [];
  added = sym (append-nil user.args);
  passes = done;
  same_entries = refl;
}

scan_user_loop-Scanned :
    (f : ℕ) (user : UserArgs) (raw : List Bytes)
    → length raw ≤ f
    → Scanned user raw (scan_user_loop f k_elf user raw)
unfolding scan_user_loop
scan_user_loop-Scanned zero user [] h = Scanned-nil user
scan_user_loop-Scanned zero user (arg ∷ raw) h = absurd (omega arith)
scan_user_loop-Scanned (suc f) user [] h = Scanned-nil user
scan_user_loop-Scanned (suc f) user (arg ∷ raw) h = scan_user_arg-Scanned user _ arg raw (
    scan_user_loop-Scanned f (scan_user_arg k_elf user arg raw).0
      (scan_user_arg k_elf user arg raw).1 (omega (arith, scan_user_arg-shorter user arg raw)))

pub scan_user_args-Scanned :
    (raw : List Bytes) → Scanned first_user_args raw (scan_user_args k_elf raw)
unfolding scan_user_args
scan_user_args-Scanned raw = scan_user_loop-Scanned (length raw) first_user_args raw (omega arith)
