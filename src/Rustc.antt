-- ===== src/Rustc.antt =====
-- pkgs/ji/jig/src/rustc_mode.cc: cargo's RUSTC_WRAPPER. This file reads rustc's command line; the
-- children pack and unpack a crate's files, make its key and run it through the cache.
pub mod DepInfo
pub mod Pack
pub mod Unpacked
pub mod Renamed
pub mod Key
pub mod Keyed
pub mod Run
pub mod Twice
pub mod Served
use corepkgs_v.Prelude.{
  ℕ, zero, suc, ◌+◌, ◌-◌, ◌*◌, ◌/◌, ◌%◌, ◌^◌, ◌≤◌, ◌<◌, min, max, ◌≡◌, ◌≢◌, refl, sym, ap, ◌∙◌, ◌⊎◌,
  ◌↔◌, inl, inr, Bool, true, false, not, ◌&&◌, ◌||◌, Option, none, some, List, [], ◌∷◌, ◌++◌, map,
  append_assoc, append-nil, arith, ltb, leb, ◌==◌, if◌then◌else◌, ==_iff, Bool-cases, Option-cases,
  Bytes, codes, Lacks, IsBytes, equal, equal_iff, starts_with, starts_with-append,
  eq_of_starts_with, ends_with, find, find_byte, has, contains, find-append, length, take, drop,
  get_elem?, replicate, any, all, All, All-append, length-append, take-append-drop,
  drop-append_length, take-append_length, length-take, length-drop, length-replicate,
}

-- `kTwoTokenOptions`
abbrev pub two_token_options : List Bytes
two_token_options =
    codes "-C"
    ∷ codes "--cfg"
    ∷ codes "--check-cfg"
    ∷ codes "--cap-lints"
    ∷ codes "--edition"
    ∷ codes "--target"
    ∷ codes "--crate-type"
    ∷ codes "-Z"
    ∷ codes "-W"
    ∷ codes "-A"
    ∷ codes "-D"
    ∷ codes "-F"
    ∷ codes "--error-format"
    ∷ codes "--json"
    ∷ codes "--diagnostic-width"
    ∷ codes "--remap-path-prefix"
    ∷ codes "-l"
    ∷ []

-- `struct RustInvocation`, less the copy of the arguments.
pub record RustInvocation : Type 0 where
  pub key_args : List Bytes
  pub externs : List Bytes
  pub source : Bytes
  pub crate_name : Bytes
  pub out_dir : Bytes
  pub sysroot : Bytes
  pub extra_filename : Bytes
  pub links : Bool
  pub has_crate_type : Bool
  pub cacheable : Bool
  pub query : Bool
  pub has_dep_info : Bool

abbrev pub keyed : RustInvocation → Bytes → RustInvocation
keyed inv arg = record inv { key_args = inv.key_args ++ arg ∷ [] }

-- `--flag=value`
glued_value : Bytes → Bytes → Option (Bytes × Bool)
unfolding starts_with
glued_value flag arg =
    if starts_with arg flag && starts_with (drop (length flag) arg) (codes "=")
    then some (drop (length flag + 1) arg, false)
    else none

-- The lambda `take`: the value, and whether it is the next token.
take_value : Bytes → Bytes → Option Bytes → Option (Bytes × Bool)
unfolding equal glued_value
take_value flag arg none = glued_value flag arg
take_value flag arg (some value) =
    if equal arg flag then some (value, true) else glued_value flag arg

-- The files that `--extern name=file` names.
add_extern : RustInvocation → Bytes → RustInvocation
unfolding find_byte
add_extern inv value = elim (find_byte b'=' value) [
  | none ↦ inv
  | some (name, at) ↦ record inv { externs = inv.externs ++ drop 1 at ∷ [] }
]

-- What each named option does with its value.
abbrev named_options : List (Bytes × (RustInvocation → Bytes → RustInvocation))
named_options =
    (codes "--out-dir", λ inv value. record inv { out_dir = value })
    ∷ (
      codes "--sysroot",
      λ inv value. record (keyed inv (codes "--sysroot=" ++ value)) { sysroot = value },
    )
    ∷ (
      codes "--crate-name",
      λ inv value. record (keyed inv (codes "--crate-name=" ++ value)) { crate_name = value },
    )
    ∷ (codes "--extern", λ inv value. keyed (add_extern inv value) (codes "--extern=" ++ value))
    ∷ (
      codes "--emit",
      λ inv value.
          keyed
            (record inv { has_dep_info = inv.has_dep_info || contains value (codes "dep-info") })
            (codes "--emit=" ++ value),
    )
    ∷ (codes "-L", λ inv value. inv)
    ∷ []

-- `TakeNamedOption`: the first option of the chain that takes the argument.
take_named :
    List (Bytes × (RustInvocation → Bytes → RustInvocation))
    → Bytes
    → Option Bytes
    → RustInvocation
    → Option (Bool × RustInvocation)
unfolding take_value
take_named [] arg next inv = none
take_named ((flag, apply) ∷ options) arg next inv =
    let others = take_named options arg next inv in
    elim (take_value flag arg next) [
      | none ↦ others
      | some (value, took) ↦ some (took, apply inv value)
    ]

unfoldable pub take_named_option :
    Bytes → Option Bytes → RustInvocation → Option (Bool × RustInvocation)
unfolding take_named contains find starts_with add_extern
take_named_option arg next inv = take_named named_options arg next inv

abbrev pub is_two_token : Bytes → Bool
is_two_token arg = any (equal arg) two_token_options

-- The option with its value, and whether that is the next token.
unfoldable pub full_option : Bytes → Option Bytes → Bytes × Bool
unfolding equal starts_with
full_option arg next =
    let glued =
      if starts_with arg (codes "-C") && not (starts_with arg (codes "-C="))
      then codes "-C=" ++ drop 2 arg
      else arg in
    elim next [
      | none ↦ (glued, false)
      | some value ↦
          if is_two_token arg then (arg ++ (codes "=" ++ value), true) else (glued, false)
    ]

abbrev pub links_as : Bytes → Bool
links_as full =
    equal full (codes "--crate-type=bin")
    || equal full (codes "--crate-type=proc-macro")
    || equal full (codes "--crate-type=cdylib")
    || equal full (codes "--crate-type=dylib")

-- What `TakeCodegenOption` does with the full option.
unfoldable pub add_option : Bytes → RustInvocation → RustInvocation
unfolding equal starts_with
add_option full inv =
    if starts_with full (codes "-C=incremental=")
    then record inv { cacheable = false }
    else if starts_with full (codes "-C=extra-filename=")
    then record inv { extra_filename = drop (length (codes "-C=extra-filename=")) full }
    else if starts_with full (codes "-C=metadata=")
    then inv
    else keyed
        (record inv {
          links = inv.links || links_as full;
          has_crate_type = inv.has_crate_type || starts_with full (codes "--crate-type=");
        })
        full

-- `TakeCodegenOption`
unfoldable pub take_codegen_option : Bytes → Option Bytes → RustInvocation → Bool × RustInvocation
unfolding full_option add_option
take_codegen_option arg next inv =
    let (full, took) = full_option arg next in (took, add_option full inv)

-- The arguments with which cargo asks rustc about itself.
abbrev pub is_query : Bytes → Bool
is_query arg =
    equal arg (codes "--print")
    || starts_with arg (codes "--print=")
    || equal arg (codes "-")
    || equal arg (codes "-vV")
    || equal arg (codes "--version")

-- The loop body of `ParseRustInvocation` behind its call of `TakeNamedOption`, on an argument and the one
-- behind it: whether that is used up, the invocation and the count of sources.
unfoldable pub parse_plain : Bytes → Option Bytes → RustInvocation → ℕ → Bool × (RustInvocation × ℕ)
unfolding take_codegen_option equal starts_with ends_with
parse_plain arg next inv sources =
    let (took, after) = take_codegen_option arg next inv in
    if is_query arg
    then (false, (record inv { query = true }, sources))
    else if equal arg (codes "-o")
    then (false, (record inv { cacheable = false }, sources))
    else if not (starts_with arg (codes "-")) && ends_with arg (codes ".rs")
    then (false, (record inv { source = arg }, sources + 1))
    else (took, (after, sources))

-- The loop body.
unfoldable pub parse_arg : Bytes → Option Bytes → RustInvocation × ℕ → Bool × (RustInvocation × ℕ)
unfolding take_named_option parse_plain
parse_arg arg next (inv, sources) =
    let plain = parse_plain arg next inv sources in
    elim (take_named_option arg next inv) [
      | none ↦ plain
      | some (took, after) ↦ (took, (after, sources))
    ]

unfoldable pub parse_args : List Bytes → RustInvocation × ℕ → RustInvocation × ℕ
unfolding parse_arg
parse_args [] s = s
parse_args (arg ∷ []) s = (parse_arg arg none s).1
parse_args (arg ∷ value ∷ rest) s =
    let (took, after) = parse_arg arg (some value) s in
    let past = parse_args rest after in
    let from_value = parse_args (value ∷ rest) after in if took then past else from_value

abbrev pub start : RustInvocation
start = record {
  key_args = [];
  externs = [];
  source = [];
  crate_name = [];
  out_dir = [];
  sysroot = [];
  extra_filename = [];
  links = false;
  has_crate_type = false;
  cacheable = true;
  query = false;
  has_dep_info = false;
}

-- The tests behind the loop.
unfoldable pub settle : RustInvocation × ℕ → RustInvocation
unfolding equal
settle (inv, sources) =
    let links' = inv.links || not inv.has_crate_type in
    let refused =
      inv.query || links' || not (sources == 1) || equal inv.out_dir [] || not inv.has_dep_info in
    record inv { links = links'; cacheable = inv.cacheable && not refused }

-- `ParseRustInvocation`
unfoldable pub parse_rust_invocation : List Bytes → RustInvocation
unfolding parse_args settle
parse_rust_invocation args = settle (parse_args args (start, 0))
