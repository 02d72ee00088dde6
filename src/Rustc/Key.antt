-- ===== src/Rustc/Key.antt =====
-- The request key of a crate in `RunRustcMode` of pkgs/ji/jig/src/rustc_mode.cc, with `OnPath` of base.cc and
-- `Store::ToolId` of store.cc, which it calls. What is asked of the machine is the record `Machine`.
use corepkgs_v.Prelude.{
  Bool, true, false, ◌&&◌, ◌||◌, Option, none, some, List, [], ◌∷◌, ◌++◌, map, ltb, ◌==◌,
  if◌then◌else◌, Bytes, codes, starts_with, ends_with, has,
}
use corepkgs_v.Text.{split}
use corepkgs_v.Keys.{field, finish, k_rustc, request_key}
use corepkgs_v.FilePath.{append, filename, parent_path}
use corepkgs_v.Store.{Store, key}
use corepkgs_v.Store.Identity.{input_id}
use corepkgs_v.Manifest.{prefetch_identities}
use corepkgs_v.Rustc.{RustInvocation}

-- The environment, the file system and the daemon.
pub record Machine : Type 0 where
  pub env : Bytes → Bytes
  pub exists : Bytes → Bool
  pub canonical : Bytes → Option Bytes
  pub weakly_canonical : Bytes → Bytes
  pub list_dir : Bytes → List Bytes
  pub read_file : Bytes → Option Bytes
  pub cwd : Bytes
  pub blake3 : Bytes → Bytes
  pub daemon_ids : List Bytes → List Bytes

first_on_path : (Bytes → Bool) → Bytes → List Bytes → Bytes
unfolding append
first_on_path exists name [] = name
first_on_path exists name (dir ∷ dirs) =
    let rest = first_on_path exists name dirs in
    if exists (append dir name) then append dir name else rest

-- `OnPath`
unfoldable pub on_path : Machine → Bytes → Bytes
unfolding first_on_path
on_path m name =
    if has b'/' name
    then name
    else first_on_path m.exists name (split (m.env (codes "PATH")) b':' false)

-- `Store::ToolId`
unfoldable pub tool_id : Machine → Store → Bytes → Bytes
unfolding append
tool_id m s path = elim (m.canonical (parent_path path)) [
  | none ↦ key s path
  | some dir ↦ key s (append dir (filename path))
]

-- `<` on strings
unfoldable pub less : Bytes → Bytes → Bool
less s [] = false
less [] (d ∷ t) = true
less (c ∷ s) (d ∷ t) = ltb c d || (c == d && less s t)

insert : Bytes → List Bytes → List Bytes
unfolding less
insert x [] = x ∷ []
insert x (y ∷ ys) = let rest = insert x ys in if less y x then y ∷ rest else x ∷ y ∷ ys

-- `std::ranges::sort`
unfoldable pub sort : List Bytes → List Bytes
unfolding insert
sort [] = []
sort (x ∷ xs) = insert x (sort xs)

-- The name of a file of libstd or libcore.
abbrev pub is_stdlib : Bytes → Bool
is_stdlib name =
    (starts_with name (codes "libstd-") || starts_with name (codes "libcore-"))
    && ends_with name (codes ".rlib")

unfoldable pub stdlib_in : Machine → List Bytes → List Bytes
unfolding starts_with ends_with
stdlib_in m [] = []
stdlib_in m (entry ∷ entries) =
    let rest = stdlib_in m entries in
    if is_stdlib (filename entry) then m.weakly_canonical entry ∷ rest else rest

-- The inner loop: the libraries of each target triple.
unfoldable pub stdlib_of_triples : Machine → List Bytes → List Bytes
unfolding stdlib_in append
stdlib_of_triples m [] = []
stdlib_of_triples m (triple ∷ triples) =
    stdlib_in m (m.list_dir (append triple (codes "lib"))) ++ stdlib_of_triples m triples

unfoldable pub stdlib_of_roots : Machine → List Bytes → List Bytes
unfolding stdlib_of_triples append
stdlib_of_roots m [] = []
stdlib_of_roots m (root ∷ roots) =
    stdlib_of_triples m (m.list_dir (append (append root (codes "lib")) (codes "rustlib")))
    ++ stdlib_of_roots m roots

abbrev pub or_unknown : Option Bytes → Bytes
or_unknown none = codes "?"
or_unknown (some id) = id

unfoldable pub join_ids : Machine → Store → List Bytes → Bytes
join_ids m s [] = []
join_ids m s (lib ∷ libs) =
    (or_unknown (input_id m.blake3 m.read_file s lib) ++ codes ",") ++ join_ids m s libs

-- `StdlibIds`: the store as the daemon's answers leave it, and the identities of the libraries under
-- rustc and under `--sysroot`.
unfoldable pub stdlib_ids : Machine → Store → Bytes → Bytes → Store × Bytes
unfolding on_path stdlib_of_roots sort join_ids parent_path
stdlib_ids m s rustc sysroot = elim (m.canonical (on_path m rustc)) [
  | none ↦ (s, codes "?")
  | some real ↦
      let own = parent_path (parent_path real) in
      let roots : List Bytes = elim sysroot [ [] ↦ own ∷ [] | c ∷ dir ↦ own ∷ (c ∷ dir) ∷ [] ] in
      let libs = sort (stdlib_of_roots m roots) in
      let s' = prefetch_identities m.daemon_ids s libs in (s', join_ids m s' libs)
]

-- The environment variables in the key.
abbrev pub keyed_variables : List Bytes
keyed_variables =
    codes "CARGO_PKG_NAME"
    ∷ codes "CARGO_PKG_VERSION"
    ∷ codes "CARGO_CFG_TARGET_FEATURE"
    ∷ codes "RUSTFLAGS"
    ∷ codes "CARGO_ENCODED_RUSTFLAGS"
    ∷ []

-- The texts that `RunRustcMode` feeds its hasher, in order; `s` is the store behind `StdlibIds`.
unfoldable pub key_fields : Machine → Store → Bytes → Bytes → RustInvocation → Bytes → List Bytes
key_fields m s rustc stdlib inv source_bytes =
    codes "rs-schema=7"
    ∷ (codes "rustc=" ++ tool_id m s (on_path m rustc))
    ∷ (codes "stdlib=" ++ stdlib)
    ∷ (codes "cwd=" ++ key s m.cwd)
    ∷ (codes "src=" ++ key s inv.source)
    ∷ (map (key s) inv.key_args
        ++ map (λ rlib. codes "extern:" ++ or_unknown (input_id m.blake3 m.read_file s rlib))
            inv.externs
        ++ map (λ name. name ++ (codes "=" ++ m.env name)) keyed_variables
        ++ source_bytes ∷ [])

unfoldable pub hash_fields : List Bytes → Bytes → Bytes
hash_fields [] h = h
hash_fields (text ∷ texts) h = hash_fields texts (field h text)

-- The request key, and the store with the identities that were asked for.
unfoldable pub crate_key : Machine → Store → Bytes → RustInvocation → Bytes → Store × Bytes
unfolding stdlib_ids key_fields hash_fields request_key
crate_key m s rustc inv source_bytes =
    let (s', stdlib) = stdlib_ids m s rustc inv.sysroot in
    (
      s',
      request_key k_rustc
          (finish m.blake3 (hash_fields (key_fields m s' rustc stdlib inv source_bytes) [])),
    )
