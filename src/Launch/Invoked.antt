-- ===== src/Launch/Invoked.antt =====
-- `Argv0Path` and `InvokedPath` of pkgs/la/launch/src/launch.cc: which program the launcher was started as.
use corepkgs_v.Prelude.{
  ℕ, zero, suc, Bool, Option, none, some, List, [], ◌∷◌, ◌++◌, ◌==◌, if◌then◌else◌, Bytes, codes,
  equal, has,
}
use corepkgs_v.FilePath.{append, filename, parent_path}
use corepkgs_v.Launch.{Try, done, die, ◌>>=◌}

-- The file system: links, real paths and what may be executed.
pub record Disk : Type 0 where
  pub cwd : Bytes
  pub executable : Bytes → Bool
  pub read_symlink : Bytes → Option Bytes
  pub canonical : Bytes → Try Bytes

-- The entries of PATH, empty ones too.
unfoldable pub path_entries : Bytes → Bytes → List Bytes
path_entries cur [] = cur ∷ []
path_entries cur (c ∷ path) =
    let next = path_entries [] path in
    let more = path_entries (cur ++ c ∷ []) path in if c == b':' then cur ∷ next else more

-- The loop of `Argv0Path` over them.
unfoldable pub find_on_path : Disk → Bytes → List Bytes → Try Bytes
find_on_path disk argv0 [] = die (codes "not found on PATH") argv0
find_on_path disk argv0 (dir ∷ dirs) =
    let rest = find_on_path disk argv0 dirs in
    if disk.executable (append dir argv0) then done (append disk.cwd (append dir argv0)) else rest

-- `Argv0Path`, with the variable PATH.
unfoldable pub argv0_path : Disk → Option Bytes → Bytes → Try Bytes
unfolding find_on_path path_entries
argv0_path disk path argv0 = if has b'/' argv0 then done (append disk.cwd argv0) else elim path [
  | none ↦ die (codes "argv[0] has no '/' and PATH is unset") argv0
  | some dirs ↦ find_on_path disk argv0 (path_entries [] dirs)
]

-- `kMaxHops`
abbrev pub max_hops : ℕ
max_hops = 32

abbrev pub is_launcher : Bytes → Bool
is_launcher target = equal (filename target) (codes "launch")

-- Where a link leads; `append` keeps an absolute target.
abbrev pub hop_to : Bytes → Bytes → Bytes
hop_to cur target = append (parent_path cur) target

-- The directory is made canonical, the name is kept.
unfoldable pub name_in_place : Disk → Bytes → Try Bytes
name_in_place disk cur =
    disk.canonical (parent_path cur) >>= λ dir. done (append dir (filename cur))

-- The loop of `InvokedPath` with `hops` of `kMaxHops` to go.
unfoldable pub follow : Disk → Bytes → ℕ → Bytes → Try Bytes
unfolding equal
follow disk argv0 zero cur = die (codes "symlink loop") argv0
follow disk argv0 (suc hops) cur = elim (disk.read_symlink cur) [
  | none ↦ die (codes "not a launcher symlink") cur
  | some target ↦
      let next = follow disk argv0 hops (hop_to cur target) in
      if is_launcher target then name_in_place disk cur else next
]

-- `InvokedPath`
unfoldable pub invoked_path : Disk → Option Bytes → Bytes → Try Bytes
unfolding argv0_path follow
invoked_path disk path argv0 = argv0_path disk path argv0 >>= λ cur. follow disk argv0 max_hops cur
