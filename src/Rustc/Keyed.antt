-- ===== src/Rustc/Keyed.antt =====
-- What cargo's metadata hash changes in `ParseRustInvocation` of pkgs/ji/jig/src/rustc_mode.cc.
pub mod Takes
pub mod Stem
use corepkgs_v.Prelude.{
  ℕ, zero, suc, ◌+◌, ◌-◌, ◌*◌, ◌/◌, ◌%◌, ◌^◌, ◌≤◌, ◌<◌, min, max, ◌≡◌, ◌≢◌, refl, sym, ap, ◌∙◌, ◌⊎◌,
  ◌↔◌, inl, inr, Bool, true, false, not, ◌&&◌, ◌||◌, Option, none, some, List, [], ◌∷◌, ◌++◌, map,
  append_assoc, append-nil, arith, ltb, leb, ◌==◌, if◌then◌else◌, ==_iff, Bool-cases, Option-cases,
  Bytes, codes, Lacks, IsBytes, equal, equal_iff, starts_with, starts_with-append,
  eq_of_starts_with, ends_with, find, find_byte, find_byte-first, has, contains, find-append,
  length, take, drop, get_elem?, replicate, any, all, All, All-append, length-append,
  take-append-drop, drop-append_length, take-append_length, length-take, length-drop,
  length-replicate,
}
use mathlib.Core.Path.{subst}
use corepkgs_v.Rustc.{
  two_token_options, RustInvocation, take_named, take_named_option, named_options, glued_value,
  take_value, add_extern, is_two_token, full_option, links_as, add_option, take_codegen_option,
  is_query, parse_plain, parse_arg, parse_args, start, settle, parse_rust_invocation,
}

-- The invocation without the metadata stem.
abbrev pub unnamed : RustInvocation → RustInvocation
unnamed inv = record inv { extra_filename = [] }

-- A function that neither reads nor, but for the stem, writes it.
abbrev Ignores : (RustInvocation → RustInvocation) → Type 0
Ignores f = (inv : RustInvocation) → unnamed (f inv) ≡ f (unnamed inv)

named_options-Ignores : All (λ o. (value : Bytes) → Ignores (λ inv. o.1 inv value)) named_options
unfolding add_extern
named_options-Ignores = (
  λ value inv. refl,
  (
    λ value inv. refl,
    (
      λ value inv. refl,
      (
        λ value inv. elim (Option-cases (find_byte b'=' value)) [
          | inl e ↦ rw (e, add_extern) refl
          | inr (r, e) ↦ rw (e, add_extern) refl
        ],
        (λ value inv. refl, (λ value inv. refl, tt)),
      ),
    ),
  ),
)

-- What a step answers without the stem.
abbrev forget : Option (Bool × RustInvocation) → Option (Bool × RustInvocation)
forget none = none
forget (some (took, inv)) = some (took, unnamed inv)

take_named-unnamed :
    (options : List (Bytes × (RustInvocation → Bytes → RustInvocation))) (arg : Bytes)
    (next : Option Bytes) (inv : RustInvocation)
    → All (λ o. (value : Bytes) → Ignores (λ i. o.1 i value)) options
    → forget (take_named options arg next inv) ≡ take_named options arg next (unnamed inv)
unfolding take_named
take_named-unnamed [] arg next inv h = refl
take_named-unnamed ((flag, apply) ∷ options) arg next inv h =
    elim (Option-cases (take_value flag arg next)) [
      | inl e ↦ rw (e, take_named) (take_named-unnamed options arg next inv h.1)
      | inr ((value, took), e) ↦ rw (e, take_named) (ap (λ i. some (took, i)) (h.0 value inv))
    ]

pub add_option-unnamed :
    (full : Bytes) (inv : RustInvocation)
    → unnamed (add_option full inv) ≡ unnamed (add_option full (unnamed inv))
unfolding add_option
add_option-unnamed full inv = elim (Bool-cases (starts_with full (codes "-C=incremental="))) [
  | inl a ↦ simp (add_option, a)
  | inr a ↦ elim (Bool-cases (starts_with full (codes "-C=extra-filename="))) [
    | inl b ↦ simp (add_option, a, b)
    | inr b ↦ elim (Bool-cases (starts_with full (codes "-C=metadata="))) [
      | inl c ↦ simp (add_option, a, b, c)
      | inr c ↦ simp (add_option, a, b, c)
    ]
  ]
]

-- A step's answer without the stem.
abbrev pub view : Bool × (RustInvocation × ℕ) → Bool × (RustInvocation × ℕ)
view (took, (inv, sources)) = (took, (unnamed inv, sources))

parse_plain-unnamed :
    (arg : Bytes) (next : Option Bytes) (inv : RustInvocation) (n : ℕ)
    → view (parse_plain arg next inv n) ≡ view (parse_plain arg next (unnamed inv) n)
unfolding parse_plain take_codegen_option
parse_plain-unnamed arg next inv n = elim (Bool-cases (is_query arg)) [
  | inl a ↦ simp (parse_plain, a)
  | inr a ↦ elim (Bool-cases (equal arg (codes "-o"))) [
    | inl b ↦ simp (parse_plain, a, b)
    | inr b ↦ elim (Bool-cases (not (starts_with arg (codes "-")) && ends_with arg (codes ".rs"))) [
      | inl c ↦ simp (parse_plain, a, b, c)
      | inr c ↦
          simp (parse_plain, a, b, c)
            (ap (λ i. ((full_option arg next).1, (i, n)))
              (add_option-unnamed (full_option arg next).0 inv))
    ]
  ]
]

pub parse_arg-unnamed :
    (arg : Bytes) (next : Option Bytes) (inv : RustInvocation) (n : ℕ)
    → view (parse_arg arg next (inv, n)) ≡ view (parse_arg arg next (unnamed inv, n))
unfolding parse_arg take_named_option
parse_arg-unnamed arg next inv n =
    let named = take_named-unnamed named_options arg next inv named_options-Ignores in
    elim (Option-cases (take_named named_options arg next inv)) [
      | inl e ↦
          let other : take_named named_options arg next (unnamed inv) ≡ none =
            sym named ∙ ap forget e in
          rw (e, other, parse_arg) (parse_plain-unnamed arg next inv n)
      | inr ((took, after), e) ↦
          let other : take_named named_options arg next (unnamed inv) ≡ some (took, unnamed after) =
            sym named ∙ ap forget e in
          rw (e, other, parse_arg) refl
    ]
