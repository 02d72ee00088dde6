-- ===== src/Manifest.antt =====
-- pkgs/ji/jig/src/manifest.cc: the inputs of a compile as a text that a later build checks.
-- What the code asks of the store and the file system is the record `Files`; `files_of` makes it of
-- a `Store`. BLAKE3 and the daemon's answers are arguments.
pub mod Depfile
pub mod Lines
pub mod RoundTrip
pub mod Validity
use corepkgs_v.Prelude.{
  ℕ, zero, suc, ◌+◌, ◌-◌, ◌*◌, ◌/◌, ◌%◌, ◌^◌, ◌≤◌, ◌<◌, min, max, ◌≡◌, ◌≢◌, refl, sym, ap, ◌∙◌, ◌⊎◌,
  ◌↔◌, inl, inr, Bool, true, false, not, ◌&&◌, ◌||◌, Option, none, some, List, [], ◌∷◌, ◌++◌, map,
  append_assoc, append-nil, arith, ltb, leb, ◌==◌, if◌then◌else◌, ==_iff, Bool-cases, Option-cases,
  Bytes, codes, Lacks, IsBytes, equal, equal_iff, starts_with, starts_with-append,
  eq_of_starts_with, ends_with, find, find_byte, has, contains, find-append, length, take, drop,
  get_elem?, replicate, any, all, All, All-append, length-append, take-append-drop,
  drop-append_length, take-append_length, length-take, length-drop, length-replicate,
}
use corepkgs_v.Text.{split}
use corepkgs_v.Keys.{Hasher, field, finish, result_key}
use corepkgs_v.Store.{Store, key, is_store_path}
use corepkgs_v.Store.Resolve.{resolve}
use corepkgs_v.Store.Identity.{input_id, daemon_may_identify, remember_identity}

-- The calls that BuildManifest and ValidateManifest make.
pub record Files : Type 0 where
  pub key_of : Bytes → Bytes
  pub path_of : Bytes → Option Bytes
  pub identity : Bytes → Option Bytes
  pub in_store : Bytes → Bool
  pub present : Bytes → Bool

-- The store's methods and `std::filesystem::exists`.
unfoldable pub files_of : (Bytes → Bytes) → (Bytes → Option Bytes) → (Bytes → Bool) → Store → Files
files_of blake3 read_file exists s = record {
  key_of = key s;
  path_of = resolve s;
  identity = input_id blake3 read_file s;
  in_store = is_store_path s.dir;
  present = exists;
}

-- The paths that the daemon is asked about.
unfoldable pub asked : Store → List Bytes → List Bytes
asked s [] = []
asked s (path ∷ paths) = if daemon_may_identify s path then path ∷ asked s paths else asked s paths

unfoldable pub remember_all : Store → List Bytes → List Bytes → Store
remember_all s (path ∷ paths) ([] ∷ ids) = remember_all s paths ids
remember_all s (path ∷ paths) ((c ∷ id) ∷ ids) =
    remember_all (remember_identity s path (c ∷ id)) paths ids
remember_all s _ _ = s

-- `PrefetchIdentities`: the daemon's answers that are not empty are remembered.
unfoldable pub prefetch_identities : (List Bytes → List Bytes) → Store → List Bytes → Store
unfolding asked remember_all
prefetch_identities daemon s paths = let ask = asked s paths in remember_all s ask (daemon ask)

-- The two values that `BuildManifest` builds side by side.
pub record Builder : Type 0 where
  pub text : Bytes
  pub hasher : Hasher

-- The lambda `add`
abbrev pub add : Builder → Bytes → Builder
add b line = record { text = b.text ++ (line ++ b'\n' ∷ []); hasher = field b.hasher line }

abbrev pub input_line : Bytes → Bytes → Bytes
input_line masked identity = masked ++ (b'\t' ∷ identity)

-- The first loop: the primary source and unreadable paths get no line.
unfoldable pub add_inputs : Files → Bytes → List Bytes → Builder → Builder
unfolding equal
add_inputs files primary [] b = b
add_inputs files primary (path ∷ paths) b =
    let line : Builder = elim (files.identity path) [
      | none ↦ b
      | some id ↦ add b (input_line (files.key_of path) id)
    ] in
    add_inputs files primary paths (if equal path primary then b else line)

unfoldable pub member : Bytes → List Bytes → Bool
unfolding equal
member k seen = any (λ j. equal j k) seen

-- The test of the second loop, for a path that may be recorded as absent.
abbrev pub skipped : Files → Bytes → Bool
skipped files path = equal path [] || files.in_store path || files.present path

-- The second loop: each absent path gets one line; `seen` is the set of lines added.
unfoldable pub add_absent : Files → List Bytes → List Bytes → Builder → Builder
unfolding equal member
add_absent files [] seen b = b
add_absent files (path ∷ paths) seen b =
    let line = b'!' ∷ files.key_of path in
    let skip = skipped files path || member line seen in
    add_absent files paths (if skip then seen else line ∷ seen) (if skip then b else add b line)

pub record Manifest : Type 0 where
  pub text : Bytes
  pub key : Bytes

-- `BuildManifest`, behind its call of `PrefetchIdentities`
unfoldable pub build_manifest :
    (Bytes → Bytes) → Files → Bytes → List Bytes → Bytes → List Bytes → Manifest
unfolding add_inputs add_absent
build_manifest blake3 files request inputs primary absent =
    let b =
      add_absent files absent []
        (add_inputs files primary inputs (record { text = []; hasher = field [] request })) in
    record { text = b.text; key = result_key (finish blake3 b.hasher) }

-- An `Entry`: `tab` is none for a line of an absent path.
pub record Entry : Type 0 where
  pub path : Bytes
  pub line : Bytes
  pub tab : Option ℕ

abbrev pub or_empty : Option Bytes → Bytes
or_empty none = []
or_empty (some path) = path

-- A line of `ParseManifest`; a line with neither mark is passed over.
unfoldable pub parse_line : Files → Bytes → Option Entry
unfolding find_byte starts_with
parse_line files line =
    let entry : Option Entry = elim (find_byte b'\t' line) [
      | none ↦ none
      | some (masked, rest) ↦ some (record {
        path = or_empty (files.path_of masked);
        line = line;
        tab = some (length masked);
      })
    ] in
    if starts_with line (b'!' ∷ [])
    then some (record { path = or_empty (files.path_of (drop 1 line)); line = line; tab = none })
    else entry

unfoldable pub parse_lines : Files → List Bytes → List Entry
unfolding parse_line
parse_lines files [] = []
parse_lines files (line ∷ lines) = elim (parse_line files line) [
  | none ↦ parse_lines files lines
  | some entry ↦ entry ∷ parse_lines files lines
]

-- `ParseManifest`
unfoldable pub parse_manifest : Files → Bytes → List Entry
unfolding parse_lines
parse_manifest files text = parse_lines files (split text b'\n' false)

-- `std::expected<_, std::string>`
pub data Expected {ℓ} (A : Type ℓ) : Type ℓ where
  ok : A → Expected A
  unexpected : Bytes → Expected A

-- What the loop of `ValidateManifest` finds wrong with an entry.
unfoldable pub objection : Files → Entry → Option Bytes
unfolding equal
objection files entry = elim entry.tab [
  | none ↦ if files.present entry.path then some (codes "appeared:" ++ drop 1 entry.line) else none
  | some tab ↦
      let changed : Option Bytes = some (codes "inputs-changed:" ++ take tab entry.line) in
      elim (files.identity entry.path) [
        | none ↦ changed
        | some id ↦ if equal id (drop (tab + 1) entry.line) then none else changed
      ]
]

unfoldable pub validate_entries : Files → List Entry → Hasher → Expected Hasher
unfolding objection
validate_entries files [] h = ok h
validate_entries files (entry ∷ entries) h =
    let rest = validate_entries files entries (field h entry.line) in
    elim (objection files entry) [ some why ↦ unexpected why | none ↦ rest ]

-- The paths that `ValidateManifest` prefetches.
unfoldable pub input_paths : List Entry → List Bytes
input_paths [] = []
input_paths (entry ∷ entries) = elim entry.tab [
  | none ↦ input_paths entries
  | some tab ↦ entry.path ∷ input_paths entries
]

-- `ValidateManifest`, behind its call of `PrefetchIdentities`
unfoldable pub validate_manifest : (Bytes → Bytes) → Files → Bytes → Bytes → Expected Bytes
unfolding validate_entries parse_manifest
validate_manifest blake3 files request text =
    elim (validate_entries files (parse_manifest files text) (field [] request)) [
      | unexpected why ↦ unexpected why
      | ok h ↦ ok (result_key (finish blake3 h))
    ]
