-- ===== src/NixStore/Mode.antt =====
-- `DaemonConnection::Connect`, `Store` and `RunNixStoreMode` of pkgs/ji/jig/src/nix_store_mode.cc.
use corepkgs_v.Prelude.{
  ℕ, Bool, true, not, ◌&&◌, ◌||◌, Option, none, some, List, [], ◌∷◌, ◌++◌, leb, if◌then◌else◌,
  Bytes, codes, equal, starts_with, length, drop,
}
use corepkgs_v.NixStore.{Daemon, Step, ◌>>=◌, give, fail, print}
use corepkgs_v.NixStore.Session.{handshake, add_to_store, submit_output}
use corepkgs_v.NixStore.Path.{fixed_output_path, text_path}
use corepkgs_v.NixStore.Aterm.{Derivation, File, derivation_to_aterm, fetchurl_derivation}

-- What a run is given: the environment, `JIG_STORE_DIR`, whether the daemon's socket can be reached, the
-- standard input, and the JSON library.
pub record Setting : Type 0 where
  pub nix_remote : Bytes
  pub offline_env : Bytes
  pub store_dir : Bytes
  pub reachable : Bytes → Bool
  pub stdin : Bytes
  pub parse_derivation : Bytes → Option Derivation
  pub parse_files : Bytes → Option (List File)
  pub dump : List (Bytes × Bytes) → Bytes

-- `kScheme`
abbrev scheme : Bytes
scheme = codes "unix://"

-- The size of `sun_path`
abbrev sun_path_size : ℕ
sun_path_size = 108

abbrev print_and_fail : {A : Type 0} → Bytes → Step A
print_and_fail line = print line >>= λ done. fail

-- `DaemonConnection::Connect`
unfoldable pub connect : Setting → Step Bool
connect s =
    if starts_with s.nix_remote scheme
    then (let path = drop (length scheme) s.nix_remote in
        if leb sun_path_size (length path)
        then fail
        else if s.reachable path
        then handshake
        else print_and_fail (codes "jig nix-store: cannot connect to " ++ path))
    else print_and_fail (
        codes "jig nix-store: NIX_REMOTE="
        ++ (s.nix_remote ++ codes " is not a unix:// socket (builder-rpc-v0 missing?)"))

-- `offline_` of a `Store`
abbrev pub offline : Setting → Bool
offline s = not (equal s.offline_env [])

-- `Store::Open`
unfoldable pub open_store : Setting → Step Bool
open_store s = if offline s then give true else connect s

-- `Store::AddText`
unfoldable pub add_text : Setting → Bytes → List Bytes → Bytes → Step Bytes
add_text s name references contents =
    if offline s
    then give (text_path s.store_dir name references contents)
    else add_to_store name (codes "text:sha256") references contents

-- `Store::Submit`
unfoldable pub submit : Setting → Bytes → Bytes → Step Bool
submit s drv output = if offline s then give true else submit_output drv output

-- The exit status and what is printed on the standard output.
abbrev pub Outcome : Type 0
Outcome = ℕ × List Bytes

abbrev exit : ℕ → Daemon → Outcome × Daemon
exit code d = ((code, []), d)

abbrev complain : ℕ → Bytes → Daemon → Outcome × Daemon
complain code line d = ((code, []), record d { printed = d.printed ++ line ∷ [] })

-- The end of a verb: a failure is status 1.
abbrev pub finish : {A : Type 0} → Step A → (A → List Bytes) → Daemon → Outcome × Daemon
finish m lines d =
    let (result, d') = m d in elim result [ none ↦ ((1, []), d') | some a ↦ ((0, lines a), d') ]

-- `add-text` and `add-drv`
unfoldable pub add_verb : Setting → Bool → Bytes → List Bytes → Daemon → Outcome × Daemon
add_verb s is_drv name references d =
    let contents = if is_drv then derivation_to_aterm (s.parse_derivation s.stdin) else s.stdin in
    if is_drv && equal contents []
    then complain 1 (codes "jig nix-store: derivation JSON did not parse") d
    else finish (add_text s name references contents) (λ path. path ∷ []) d

-- The loop of `fetchurls`
unfoldable pub fetch_loop : Setting → List File → List (Bytes × Bytes) → Step (List (Bytes × Bytes))
fetch_loop s [] result = give result
fetch_loop s (file ∷ files) result =
    let out = fixed_output_path s.store_dir file.name file.algo file.hex in
    add_text s (file.name ++ codes ".drv") [] (fetchurl_derivation file out) >>= λ drv.
    fetch_loop s files (result ++ (drv, out) ∷ [])

-- `fetchurls`
unfoldable pub fetch_verb : Setting → Daemon → Outcome × Daemon
fetch_verb s d = elim (s.parse_files s.stdin) [
  | none ↦ complain 1 (codes "jig nix-store fetchurls: expected a JSON array") d
  | some files ↦ finish (fetch_loop s files []) (λ result. s.dump result ∷ []) d
]

bad_arguments : Daemon → Outcome × Daemon
bad_arguments = complain 2 (codes "jig nix-store: bad arguments")

-- The verbs behind an open store, by the number of their arguments.
unfoldable pub run_verb : Setting → Bytes → List Bytes → Daemon → Outcome × Daemon
unfolding bad_arguments
run_verb s verb [] d = if equal verb (codes "fetchurls") then fetch_verb s d else bad_arguments d
run_verb s verb (name ∷ references) d =
    if equal verb (codes "add-text") || equal verb (codes "add-drv")
    then add_verb s (equal verb (codes "add-drv")) name references d
    else submit_verb references
  where
    submit_verb : List Bytes → Outcome × Daemon
    submit_verb [] = bad_arguments d
    submit_verb (output ∷ []) =
        if equal verb (codes "submit")
        then finish (submit s name output) (λ done. []) d
        else bad_arguments d
    submit_verb (output ∷ more ∷ others) = bad_arguments d

-- `RunNixStoreMode`
unfoldable pub run_nix_store_mode : Setting → List Bytes → Daemon → Outcome × Daemon
run_nix_store_mode s [] d =
    complain 2
      (codes "usage: jig nix-store add-text|add-drv|fetchurls|submit " ++ 0xe2 ∷ 0x80 ∷ 0xa6 ∷ []) d
run_nix_store_mode s (verb ∷ args) d =
    let (opened, d') = open_store s d in
    elim opened [ none ↦ exit 1 d' | some done ↦ run_verb s verb args d' ]
