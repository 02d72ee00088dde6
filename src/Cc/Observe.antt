-- ===== src/Cc/Observe.antt =====
-- `RunObserved`, `ComputeRequestKey` and `PrimaryIdentity` of pkgs/ji/jig/src/cc_mode.cc. The compiler
-- and the files after its run are arguments.
use corepkgs_v.Prelude.{
  ℕ, Bool, false, not, ◌&&◌, ◌||◌, Option, none, some, List, [], ◌∷◌, ◌++◌, map, if◌then◌else◌,
  Bytes, codes, equal, starts_with, has, contains, length, drop,
}
use corepkgs_v.Text.{split, print_uint}
use corepkgs_v.Keys.{Hasher, field, finish, k_cc, request_key}
use corepkgs_v.FilePath
use corepkgs_v.FilePath.{parent_path}
use corepkgs_v.Store.{Store, key, mask_out, mask_for_replay}
use corepkgs_v.Manifest.Depfile.{parse_depfile}
use corepkgs_v.Cc.Options.{is_assembly, is_plain_assembly}
use corepkgs_v.Cc.Invocation.{Invocation, is_empty}
use corepkgs_v.Cc.Result.{RunResult, Observed, links}

-- The names of the temporary files beside the output.
unfoldable pub temp_base : ℕ → Invocation → Bytes
unfolding parent_path FilePath.append print_uint equal
temp_base pid inv =
    let parent = parent_path inv.output in
    FilePath.append (if is_empty parent then codes "." else parent)
      (codes ".jig" ++ print_uint 10 pid)

abbrev pub own_depfile : Invocation → Bool
own_depfile inv = not inv.wants_depfile && not inv.link

abbrev pub depfile_path : ℕ → Invocation → Bytes
depfile_path pid inv = if own_depfile inv then temp_base pid inv ++ codes ".d" else inv.depfile

abbrev pub link_depfile : ℕ → Invocation → Bytes
link_depfile pid inv = temp_base pid inv ++ codes ".link.d"

-- The command line that `RunObserved` gives to the compiler.
unfoldable pub observed_args : ℕ → Invocation → List Bytes
unfolding is_assembly is_plain_assembly temp_base
observed_args pid inv =
    let depfile : List Bytes =
      if own_depfile inv && not (is_plain_assembly inv.source)
      then codes "-MD" ∷ codes "-MF" ∷ depfile_path pid inv ∷ []
      else if not (own_depfile inv) && not inv.link && not (is_assembly inv.source)
      then codes "-Xclang" ∷ codes "-sys-header-deps" ∷ []
      else [] in
    let stdout : List Bytes = if inv.to_stdout then codes "-o" ∷ inv.output ∷ [] else [] in
    let link : List Bytes =
      if links inv then (codes "-Wl,--dependency-file=" ++ link_depfile pid inv) ∷ [] else [] in
    inv.args ++ (depfile ++ (stdout ++ link))

-- The driver's temporary object stands right in `tmp`, which ends in '/'.
unfoldable pub is_driver_temp : Bytes → Bytes → Bool
unfolding starts_with has
is_driver_temp tmp input = starts_with input tmp && not (has b'/' (drop (length tmp) input))

unfoldable pub link_inputs : Bytes → List Bytes → List Bytes
unfolding is_driver_temp
link_inputs tmp [] = []
link_inputs tmp (input ∷ inputs) =
    let rest = link_inputs tmp inputs in if is_driver_temp tmp input then rest else input ∷ rest

-- The prerequisites in a depfile that may not have been read.
abbrev pub inputs_of : Option Bytes → List Bytes
inputs_of none = []
inputs_of (some text) = parse_depfile text

-- `RunObserved`, and `ReadFile` of the output.
unfoldable pub run_observed :
    ℕ → Bytes → (List Bytes → RunResult) → (Bytes → Option Bytes) → Invocation → Observed
unfolding observed_args link_inputs parse_depfile split temp_base
run_observed pid tmp compile read_file inv =
    let dep_text : Option Bytes =
      if inv.link
      then some []
      else if own_depfile inv && is_plain_assembly inv.source
      then some (codes "o: " ++ inv.source)
      else read_file (depfile_path pid inv) in
    let link_text : Option Bytes = if links inv then read_file (link_depfile pid inv) else none in
    let absent : List Bytes = elim (read_file (temp_base pid inv ++ codes ".absent")) [
      | none ↦ []
      | some text ↦ split text b'\n' false
    ] in
    record {
      run = compile (observed_args pid inv);
      dep_text = dep_text;
      link_dep_text = link_text;
      inputs = inputs_of dep_text ++ link_inputs tmp (inputs_of link_text);
      absent = absent;
      output = read_file inv.output;
    }

unfoldable pub pch_ids : (Bytes → Option Bytes) → List Bytes → Option Bytes → Option Bytes
pch_ids input_id [] text = text
pch_ids input_id (pch ∷ pchs) none = none
pch_ids input_id (pch ∷ pchs) (some text) = elim (input_id pch) [
  | none ↦ none
  | some id ↦ pch_ids input_id pchs (some (text ++ (codes "\npch=" ++ id)))
]

unfoldable pub link_ids : (Bytes → Option Bytes) → List Bytes → Bytes → Option Bytes
link_ids input_id [] ids = some ids
link_ids input_id (input ∷ inputs) ids = elim (input_id input) [
  | none ↦ none
  | some id ↦ link_ids input_id inputs (ids ++ (input ++ (b'=' ∷ (id ++ b'\n' ∷ []))))
]

-- `PrimaryIdentity`
unfoldable pub primary_identity :
    (Bytes → Option Bytes) → (Bytes → Option Bytes) → Invocation → Option Bytes
unfolding pch_ids link_ids
primary_identity read_file input_id inv =
    if inv.link
    then link_ids input_id inv.inputs []
    else pch_ids input_id inv.pch (read_file inv.source)

abbrev pub mode_of : Invocation → Bytes
mode_of inv =
    if inv.link
    then codes "mode=link"
    else if inv.link_one
    then codes "mode=link-one"
    else codes "mode=compile"

-- An argument as the key has it: what a link embeds is not masked but for the own output path.
unfoldable pub key_arg : Store → Invocation → Bytes → Bytes
unfolding contains
key_arg s inv arg =
    if links inv && (contains arg (codes "dynamic-linker") || contains arg (codes "rpath"))
    then mask_out s arg
    else key s (mask_out s arg)

-- The fields of `ComputeRequestKey`, in order. `tool`, `cwd` and `library_path` are what ToolId, the
-- working directory and $LIBRARY_PATH say.
unfoldable pub request_fields : Store → Bytes → Bytes → Bytes → Invocation → Bytes → List Bytes
unfolding key_arg
request_fields s tool cwd library_path inv primary =
    let source : List Bytes =
      if inv.link then [] else (codes "src=" ++ key s (mask_out s inv.source)) ∷ [] in
    let library : List Bytes =
      if links inv then (codes "LIBRARY_PATH=" ++ mask_for_replay s library_path) ∷ [] else [] in
    (codes "cc=" ++ tool)
    ∷ (codes "cwd=" ++ key s cwd)
    ∷ (source
        ++ (mode_of inv
            ∷ (library ++ (map (key_arg s inv) inv.key_args ++ mask_out s primary ∷ []))))

unfoldable pub add_fields : Hasher → List Bytes → Hasher
unfolding field
add_fields h [] = h
add_fields h (f ∷ fs) = add_fields (field h f) fs

-- `ComputeRequestKey`
unfoldable pub compute_request_key :
    (Bytes → Bytes) → Store → Bytes → Bytes → Bytes → Invocation → Bytes → Bytes
unfolding request_fields add_fields finish request_key
compute_request_key blake3 s tool cwd library_path inv primary =
    request_key k_cc
      (finish blake3 (add_fields [] (request_fields s tool cwd library_path inv primary)))
