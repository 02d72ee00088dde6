-- ===== src/Rustc/Keyed/Takes.antt =====
-- Which options of rustc take the argument behind them, in `ParseRustInvocation` of
-- pkgs/ji/jig/src/rustc_mode.cc.
use corepkgs_v.Prelude.{
  ℕ, ◌≡◌, refl, sym, ◌∙◌, inl, inr, Bool, true, false, not, ◌&&◌, ◌||◌, Option, none, some, List,
  [], ◌∷◌, map, arith, Bool-cases, or_false, Option-cases, Bytes, codes, equal, equal_iff,
  starts_with, ends_with, any, All,
}
use mathlib.Core.Path.{subst}
use corepkgs_v.Rustc.{
  two_token_options, RustInvocation, take_named, take_named_option, named_options, glued_value,
  take_value, is_two_token, full_option, take_codegen_option, is_query, parse_plain, parse_arg,
}

abbrev pub named_flags : List Bytes
named_flags = map (λ o. o.0) named_options

-- The options whose value is the next argument.
abbrev pub takes_next : Bytes → Bool
takes_next arg = is_two_token arg || any (equal arg) named_flags

-- Options.
any_member :
    (P : Bytes → Type 0) (arg : Bytes) (options : List Bytes)
    → any (equal arg) options ≡ true
    → All P options
    → P arg
any_member P arg [] h p = cc
any_member P arg (o ∷ options) h p = elim (Bool-cases (equal arg o)) [
  | inl e ↦ subst P (sym ((equal_iff arg o).0 e)) p.0
  | inr e ↦ any_member P arg options (ground arith) p.1
]

-- The next argument is used up.
abbrev pub Takes : Bytes → Type 0
Takes arg =
    (value : Bytes) (inv : RustInvocation) (n : ℕ) → (parse_arg arg (some value) (inv, n)).0 ≡ true

abbrev always : Bytes → RustInvocation → ℕ → true ≡ true
always value inv n = refl

two_token-Takes : All Takes two_token_options
unfolding parse_arg parse_plain take_codegen_option full_option take_named_option take_named equal
    starts_with take_value glued_value ends_with
two_token-Takes = (
  always,
  (
    always,
    (
      always,
      (
        always,
        (
          always,
          (
            always,
            (
              always,
              (
                always,
                (
                  always,
                  (
                    always,
                    (always, (always, (always, (always, (always, (always, (always, tt))))))),
                  ),
                ),
              ),
            ),
          ),
        ),
      ),
    ),
  ),
)

named-Takes : All Takes named_flags
unfolding parse_arg parse_plain take_codegen_option full_option take_named_option take_named equal
    starts_with take_value glued_value ends_with
named-Takes = (always, (always, (always, (always, (always, (always, tt))))))

pub takes_next-Takes : (arg : Bytes) → takes_next arg ≡ true → Takes arg
takes_next-Takes arg h = elim (Bool-cases (is_two_token arg)) [
  | inl e ↦ any_member Takes arg two_token_options e two_token-Takes
  | inr e ↦ any_member Takes arg named_flags (ground arith) named-Takes
]

glued-free :
    (flag arg : Bytes) (value : Bytes) (took : Bool)
    → glued_value flag arg ≡ some (value, took)
    → took ≡ false
unfolding glued_value
glued-free flag arg value took h = ground arith

-- Without an argument behind it, none is used up.
took-none :
    (options : List (Bytes × (RustInvocation → Bytes → RustInvocation))) (arg : Bytes)
    (inv after : RustInvocation) (took : Bool)
    → take_named options arg none inv ≡ some (took, after)
    → took ≡ false
unfolding take_named
took-none [] arg inv after took h = cc h
took-none ((flag, apply) ∷ options) arg inv after took h =
    elim (Option-cases (glued_value flag arg)) [
      | inl e ↦ took-none options arg inv after took (simp (take_named, e) at h)
      | inr ((value, took'), e) ↦
          let same : took' ≡ took = ground (arith, simp (take_named, e) at h) in
          sym same ∙ glued-free flag arg value took' e
    ]

-- A named option that is not the whole argument leaves the next one.
take_named-alone :
    (options : List (Bytes × (RustInvocation → Bytes → RustInvocation))) (arg : Bytes)
    (next : Option Bytes) (inv : RustInvocation)
    → any (equal arg) (map (λ o. o.0) options) ≡ false
    → take_named options arg next inv ≡ take_named options arg none inv
unfolding take_named
take_named-alone [] arg next inv h = refl
take_named-alone ((flag, apply) ∷ options) arg none inv h = refl
take_named-alone ((flag, apply) ∷ options) arg (some value) inv h =
    let apart : equal arg flag ≡ false = ground arith in
    let rest = take_named-alone options arg (some value) inv (ground arith) in
    let same : take_value flag arg (some value) ≡ take_value flag arg none =
      unfold take_value in rw apart refl in
    elim (Option-cases (take_value flag arg none)) [
      | inl e ↦ rw (same, e, take_named) rest
      | inr (r, e) ↦ rw (same, e, take_named) refl
    ]

full_option-alone :
    (arg : Bytes) (next : Option Bytes)
    → is_two_token arg ≡ false
    → (full_option arg next ≡ full_option arg none) × ((full_option arg none).1 ≡ false)
unfolding full_option
full_option-alone arg none h = (refl, refl)
full_option-alone arg (some value) h = (rw h refl, refl)

parse_plain-alone :
    (arg : Bytes) (next : Option Bytes) (inv : RustInvocation) (n : ℕ)
    → is_two_token arg ≡ false
    → (parse_plain arg next inv n ≡ parse_plain arg none inv n)
      × ((parse_plain arg none inv n).0 ≡ false)
unfolding parse_plain take_codegen_option
parse_plain-alone arg next inv n h =
    let (same, free) = full_option-alone arg next h in
    (rw (same, parse_plain, take_codegen_option) refl, go free)
  where
    go : (full_option arg none).1 ≡ false → (parse_plain arg none inv n).0 ≡ false
    go free = elim (Bool-cases (is_query arg)) [
      | inl a ↦ simp (parse_plain, a)
      | inr a ↦ elim (Bool-cases (equal arg (codes "-o"))) [
        | inl b ↦ simp (parse_plain, a, b)
        | inr b ↦
            elim (Bool-cases (not (starts_with arg (codes "-")) && ends_with arg (codes ".rs"))) [
              | inl c ↦ simp (parse_plain, a, b, c)
              | inr c ↦ simp (parse_plain, a, b, c) free
            ]
      ]
    ]

-- An argument that takes none is read alike whatever stands behind it, and leaves that.
pub parse_arg-alone :
    (arg : Bytes) (next : Option Bytes) (inv : RustInvocation) (n : ℕ)
    → takes_next arg ≡ false
    → (parse_arg arg next (inv, n) ≡ parse_arg arg none (inv, n))
      × ((parse_arg arg none (inv, n)).0 ≡ false)
unfolding parse_arg take_named_option
parse_arg-alone arg next inv n h =
    let (no_two, no_named) = or_false (is_two_token arg) (any (equal arg) named_flags) h in
    let named = take_named-alone named_options arg next inv no_named in
    let (same, free) = parse_plain-alone arg next inv n no_two in
    elim (Option-cases (take_named named_options arg none inv)) [
      | inl e ↦ (rw (named, e, parse_arg) same, rw (e, parse_arg) free)
      | inr ((took, after), e) ↦ (
        rw (named, e, parse_arg) refl,
        rw (e, parse_arg) (took-none named_options arg inv after took e),
      )
    ]
