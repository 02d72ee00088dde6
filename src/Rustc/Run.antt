-- ===== src/Rustc/Run.antt =====
-- `RunRustcMode` of pkgs/ji/jig/src/rustc_mode.cc behind its request key: a crate from the cache, or compiled
-- and stored. What a run of rustc leaves behind is the record `Observed`.
use corepkgs_v.Prelude.{
  ℕ, Bool, true, false, not, Option, none, some, List, [], ◌∷◌, ◌++◌, ◌==◌, if◌then◌else◌, Bytes,
  codes,
}
use corepkgs_v.FilePath.{append}
use corepkgs_v.Keys.{manifest, object, stderr, slot_key}
use corepkgs_v.Daemon.{CacheServer}
use corepkgs_v.Store.{Store}
use corepkgs_v.Manifest.{Files, Manifest, build_manifest, ok, unexpected, or_empty}
use corepkgs_v.Cc.Result.{
  RunResult, Outcome, k_hit, k_miss_fail, k_miss_stored, k_miss_unstored, k_plain_compile,
  k_plain_link, k_plain_no_source, k_plain_no_socket, k_plain_query, find_result,
}
use corepkgs_v.Rustc.{RustInvocation, parse_rust_invocation}
use corepkgs_v.Rustc.Key.{Machine, crate_key}
use corepkgs_v.Rustc.DepInfo.{DepInfo, parse_dep_info, absolute_normal}
use corepkgs_v.Rustc.Pack.{Disk, Written, pack_files, unpack_files}

-- The result of rustc, and the disk behind it.
pub record Observed : Type 0 where
  pub run : RunResult
  pub disk : Disk

-- What `RunRustcMode` leaves: the server's state, the exit status, the files that it wrote itself, what it
-- printed to standard error and the outcome that it logs.
pub record Ran (S : Type 0) : Type 0 where
  pub server : S
  pub status : ℕ
  pub written : List Written
  pub printed : Bytes
  pub outcome : Option Outcome

-- The outcome that `RunUncached` logs.
unfoldable pub plain_outcome : RustInvocation → Bool → Outcome
plain_outcome inv have_source =
    if inv.query
    then k_plain_query
    else if not inv.cacheable
    then (if inv.links then k_plain_link else k_plain_compile)
    else if not have_source
    then k_plain_no_source
    else k_plain_no_socket

-- The dep-info that cargo has rustc write.
unfoldable pub dep_info_path : RustInvocation → Bytes
dep_info_path inv = append inv.out_dir ((inv.crate_name ++ inv.extra_filename) ++ codes ".d")

module _ {S : Type 0} (server : CacheServer S) (blake3 : Bytes → Bytes) (files : Files) (s : Store)
    (can_write : Bytes → Bool) (cwd request : Bytes) where
  unfoldable pub crate_manifest : RustInvocation → DepInfo → Manifest
  crate_manifest inv info =
      build_manifest blake3 files request info.inputs (absolute_normal cwd inv.source) []

  -- The three entries of a crate.
  unfoldable pub store_crate : S → RustInvocation → Observed → DepInfo → S
  unfolding crate_manifest
  store_crate st inv obs info =
      let m = crate_manifest inv info in
      let st1 = server.put st (slot_key (manifest request)) m.text in
      let st2 =
        server.put st1 (slot_key (object m.key))
          (pack_files obs.disk inv.extra_filename info.outputs) in
      server.put st2 (slot_key (stderr m.key)) obs.run.stderr_text

  -- From the run of rustc on; `left` is what a failed unpacking has written before.
  unfoldable pub compile_crate : S → RustInvocation → Observed → List Written → Ran S
  unfolding store_crate
  compile_crate st inv obs left =
      let ends : S → ℕ → Outcome → Ran S = λ st' status outcome. record {
        server = st';
        status = status;
        written = left;
        printed = obs.run.stderr_text;
        outcome = some outcome;
      } in
      let succeeded : Ran S = elim (obs.disk.read_file (dep_info_path inv)) [
        | none ↦ ends st 0 k_miss_unstored
        | some text ↦ ends (store_crate st inv obs (parse_dep_info cwd text)) 0 k_miss_stored
      ] in
      if obs.run.status == 0 then succeeded else ends st obs.run.status k_miss_fail

  -- `FindResult`, the blob of the result and its files.
  unfoldable pub run_crate : S → RustInvocation → Observed → Ran S
  unfolding compile_crate
  run_crate st inv obs =
      let miss = compile_crate st inv obs in
      elim (find_result server blake3 files s st request) [
        | unexpected why ↦ miss []
        | ok k ↦ elim (server.get st (slot_key (object k))) [
          | none ↦ miss []
          | some blob ↦
              let (complete, written) =
                unpack_files can_write inv.out_dir inv.extra_filename blob in
              if complete
              then record {
                server = st;
                status = 0;
                written = written;
                printed = or_empty (server.get st (slot_key (stderr k)));
                outcome = some k_hit;
              }
              else miss written
        ]
      ]

-- The line that `RunRustcMode` prints without arguments.
abbrev pub usage : Bytes
usage = codes "rustcwrap: usage: rustcwrap <rustc> args..." ++ b'\n' ∷ []

-- The source, read if the crate can be cached.
unfoldable pub source_bytes_of : Machine → RustInvocation → Option Bytes
source_bytes_of m inv = if inv.cacheable then m.read_file inv.source else none

module _ {S : Type 0} (server : CacheServer S) (files : Store → Files) (can_write : Bytes → Bool)
    (m : Machine) (s : Store) where
  -- `RunUncached`: rustc prints for itself.
  abbrev pub run_uncached : S → RustInvocation → Observed → Bool → Ran S
  run_uncached st inv obs have_source = record {
    server = st;
    status = obs.run.status;
    written = [];
    printed = [];
    outcome = some (plain_outcome inv have_source);
  }

  -- `RunRustcMode` on rustc and its arguments; `connects` tells if the daemon is there.
  unfoldable pub run_rustc_mode : Bool → S → List Bytes → Observed → Ran S
  run_rustc_mode connects st [] obs = record {
    server = st;
    status = 1;
    written = [];
    printed = usage;
    outcome = none;
  }
  run_rustc_mode connects st (rustc ∷ args) obs =
      let inv = parse_rust_invocation args in
      elim (source_bytes_of m inv) [
        | none ↦ run_uncached st inv obs false
        | some source_bytes ↦
            let (s', request) = crate_key m s rustc inv source_bytes in
            let cached =
              run_crate server m.blake3 (files s') s' can_write m.cwd request st inv obs in
            if connects then cached else run_uncached st inv obs true
      ]
