-- ===== src/Cc/Invocation.antt =====
-- `ParseInvocation` of pkgs/ji/jig/src/cc_mode.cc: a command line classified for the cache.
use corepkgs_v.Prelude.{
  ℕ, zero, suc, ◌+◌, Bool, true, false, not, ◌&&◌, ◌||◌, Option, none, some, List, [], ◌∷◌, ◌++◌,
  ltb, ◌==◌, if◌then◌else◌, Bytes, codes, equal, starts_with, find_byte, length, drop, get_elem?,
}
use corepkgs_v.Text.{print_uint}
use corepkgs_v.FilePath
use corepkgs_v.FilePath.{filename, stem, extension, replace_extension}
use corepkgs_v.Cc.Options.{is_source_file, is_object_input, is_no_output_option, is_replayable}

-- `struct Invocation`
pub record Invocation : Type 0 where
  pub args : List Bytes
  pub key_args : List Bytes
  pub source : Bytes
  pub inputs : List Bytes
  pub pch : List Bytes
  pub output : Bytes
  pub compile_only : Bool
  pub to_stdout : Bool
  pub link_one : Bool
  pub link : Bool
  pub cacheable : Bool
  pub query : Bool
  pub wants_depfile : Bool
  pub depfile : Bytes
  pub depfile_target : Bytes

abbrev pub is : Bytes → Bytes → Bool
is arg word = equal arg word

-- What stands behind the first ',' from position 5 on.
abbrev pub wp_depfile : Bytes → Bytes
wp_depfile arg = elim (find_byte b',' (drop 5 arg)) [ none ↦ arg | some (before, at) ↦ drop 1 at ]

abbrev pub is_wp : Bytes → Bool
is_wp arg = starts_with arg (codes "-Wp,-MD,") || starts_with arg (codes "-Wp,-MMD,")

abbrev pub is_md : Bytes → Bool
is_md arg = is arg (codes "-MD") || is arg (codes "-MMD") || is arg (codes "-MP")

-- The branches of `TakeDepfileOption` that do not look at a next argument.
unfoldable pub depfile_alone : Bytes → Invocation → Option Invocation
unfolding starts_with equal
depfile_alone arg inv =
    if is_wp arg
    then some (record inv { depfile = wp_depfile arg; wants_depfile = true })
    else if is_md arg
    then some (record inv { wants_depfile = true })
    else none

-- `TakeDepfileOption`: the arguments that are left, if `arg` was such an option.
unfoldable pub take_depfile_option :
    Bytes → List Bytes → Invocation → Option (Invocation × List Bytes)
unfolding depfile_alone equal
take_depfile_option arg [] inv = elim (depfile_alone arg inv) [
  | none ↦ none
  | some inv' ↦ some (inv', [])
]
take_depfile_option arg (value ∷ rest) inv =
    if is arg (codes "-MF")
    then some (record inv { depfile = value; wants_depfile = true }, rest)
    else if is arg (codes "-MT") || is arg (codes "-MQ")
    then some (record inv { depfile_target = value; wants_depfile = true }, rest)
    else (elim (depfile_alone arg inv) [ none ↦ none | some inv' ↦ some (inv', value ∷ rest) ])

abbrev pub add_key : Bytes → Invocation → Invocation
add_key arg inv = record inv { key_args = inv.key_args ++ arg ∷ [] }

-- The loop and the end of `TakePchOption`, behind "-include-pch".
unfoldable pub take_pch : List Bytes → Invocation → Invocation × List Bytes
unfolding equal
take_pch [] inv = (inv, [])
take_pch (arg ∷ rest) inv =
    let further = take_pch rest (add_key arg inv) in
    if is arg (codes "-Xclang")
    then further
    else (record inv { key_args = inv.key_args ++ arg ∷ []; pch = inv.pch ++ arg ∷ [] }, rest)

-- The local variables of `ParseInvocation`.
pub record Scan : Type 0 where
  pub inv : Invocation
  pub objects : Bool
  pub sources : ℕ
  pub stop : ℕ

abbrev pub is_stop : Bytes → Bool
is_stop arg = is arg (codes "-c") || is arg (codes "-S") || is arg (codes "-E")

-- `arg.at(1)`
abbrev pub second : Bytes → ℕ
second arg = elim (get_elem? arg 1) [ none ↦ 0 | some c ↦ c ]

abbrev pub with_output : Scan → Bytes → Scan
with_output s output = record s { inv = record (s.inv) { output = output } }

-- The branches of the loop from `IsNoOutputOption` on, in order.
unfoldable pub scan_plain : Scan → Bytes → List Bytes → Scan × List Bytes
unfolding take_pch equal
scan_plain s arg rest =
    if is_no_output_option arg
    then (record s { inv = record (s.inv) { cacheable = false; query = true } }, rest)
    else if is_source_file arg
    then (record s { inv = record (s.inv) { source = arg }; sources = s.sources + 1 }, rest)
    else if is arg (codes "-include-pch")
    then (let (inv', left) = take_pch rest (add_key arg s.inv) in (record s { inv = inv' }, left))
    else if is_object_input arg
    then (
      record s {
        inv = record (add_key arg s.inv) { inputs = s.inv.inputs ++ arg ∷ [] };
        objects = true;
      },
      rest,
    )
    else (
      record s {
        inv = record (add_key arg s.inv) { cacheable = s.inv.cacheable && is_replayable arg };
        objects = s.objects || is arg (codes "-shared") || is arg (codes "-r");
      },
      rest,
    )

-- The branches for -c, -S, -E and -o. `-o` as the last argument is a glued one without a value.
unfoldable pub scan_option : Scan → Bytes → List Bytes → Scan × List Bytes
unfolding scan_plain starts_with equal
scan_option s arg rest =
    let separate : Scan × List Bytes = elim rest [
      | [] ↦ scan_plain s arg []
      | value ∷ rest' ↦ (with_output s value, rest')
    ] in
    if is_stop arg
    then (
      record s { inv = record (add_key arg s.inv) { compile_only = true }; stop = second arg },
      rest,
    )
    else if is arg (codes "-o")
    then separate
    else if starts_with arg (codes "-o") && ltb 2 (length arg)
    then (with_output s (drop 2 arg), rest)
    else scan_plain s arg rest

-- One round of the loop.
unfoldable pub scan_arg : Scan → Bytes → List Bytes → Scan × List Bytes
unfolding take_depfile_option scan_option
scan_arg s arg rest = elim (take_depfile_option arg rest s.inv) [
  | some (inv', left) ↦ (record s { inv = inv' }, left)
  | none ↦ scan_option s arg rest
]

-- The loop: a round takes one argument at least.
unfoldable pub scan_loop : ℕ → Scan → List Bytes → Scan
unfolding scan_arg
scan_loop zero s args = s
scan_loop (suc f) s [] = s
scan_loop (suc f) s (arg ∷ rest) = let (s', left) = scan_arg s arg rest in scan_loop f s' left

abbrev pub is_empty : Bytes → Bool
is_empty text = equal text []

-- `Classify`, for -c, -S and -E. `tmpdir` and `pid` are `$TMPDIR` and the process id.
unfoldable pub classify_stop : Bytes → ℕ → Scan → Invocation
unfolding equal print_uint FilePath.append filename FilePath.stem_extension
classify_stop tmpdir pid s =
    let inv = s.inv in
    let preprocess = s.stop == b'E' in
    let stdout = preprocess && (is_empty inv.output || is inv.output (codes "-")) in
    let temporary = FilePath.append tmpdir (codes "jig" ++ (print_uint 10 pid ++ codes ".i")) in
    let named = stem inv.source ++ (if s.stop == b'S' then codes ".s" else codes ".o") in
    record inv {
      cacheable = inv.cacheable && s.sources == 1;
      query = inv.query || (preprocess && (s.sources == 0 || is inv.source (codes "/dev/null")));
      to_stdout = stdout;
      output = if stdout then temporary else if is_empty inv.output then named else inv.output;
    }

-- `Classify`, for a link.
unfoldable pub classify_link : Scan → Invocation
unfolding equal filename
classify_link s =
    let inv = s.inv in
    let one = not s.objects && s.sources == 1 in
    let many = s.objects && s.sources == 0 && not (length inv.inputs == 0) in
    let output = if is_empty inv.output then codes "a.out" else inv.output in
    record inv {
      link_one = one;
      link = many;
      cacheable = inv.cacheable && (one || many);
      output = output;
      source = if many then filename output else inv.source;
    }

-- -MD without -MF: the depfile stands beside the output.
unfoldable pub default_depfile : Invocation → Invocation
unfolding equal
default_depfile inv =
    if inv.wants_depfile && is_empty inv.depfile
    then record inv { depfile = replace_extension inv.output (codes ".d") }
    else inv

-- `Classify`
unfoldable pub classify : Bytes → ℕ → Scan → Invocation
classify tmpdir pid s =
    default_depfile (if s.inv.compile_only then classify_stop tmpdir pid s else classify_link s)

abbrev pub start : List Bytes → Invocation
start args = record {
  args = args;
  key_args = [];
  source = [];
  inputs = [];
  pch = [];
  output = [];
  compile_only = false;
  to_stdout = false;
  link_one = false;
  link = false;
  cacheable = true;
  query = false;
  wants_depfile = false;
  depfile = [];
  depfile_target = [];
}

-- Outputs that are never replayed.
unfoldable pub is_kept_output : Bytes → Bool
unfolding equal filename FilePath.stem_extension FilePath.same
is_kept_output output =
    not (is (extension output) (codes ".pch"))
    && not (is (extension output) (codes ".gch"))
    && not (FilePath.same output (codes "/dev/null"))

-- `ParseInvocation`
unfoldable pub parse_invocation : Bytes → ℕ → List Bytes → Invocation
parse_invocation tmpdir pid args =
    let s =
      scan_loop (length args) (record { inv = start args; objects = false; sources = 0; stop = 0 })
        args in
    classify tmpdir pid (record s {
      inv = record (s.inv) { cacheable = s.inv.cacheable && is_kept_output s.inv.output };
    })
