-- ===== src/Rustc/Twice.antt =====
-- A crate that `RunRustcMode` of pkgs/ji/jig/src/rustc_mode.cc has stored, asked for again.
use corepkgs_v.Prelude.{◌≡◌, refl, ◌∙◌, Bool, some, [], Bytes, equal, All}
use corepkgs_v.Keys.{manifest, object, stderr, slot_key}
use corepkgs_v.Daemon.{CacheServer}
use corepkgs_v.Store.{Store}
use corepkgs_v.Manifest.{Files, Manifest, ok, unexpected}
use corepkgs_v.Manifest.RoundTrip.{KeptInput, validate_manifest-build_manifest}
use corepkgs_v.Cc.Result.{k_hit, k_miss_stored, find_result}
use corepkgs_v.Rustc.{RustInvocation}
use corepkgs_v.Rustc.DepInfo.{DepInfo, parse_dep_info, absolute_normal}
use corepkgs_v.Rustc.Pack.{pack_files}
use corepkgs_v.Rustc.Unpacked.{IsPackable, unpacked, unpack_files-pack_files}
use corepkgs_v.Rustc.Run.{
  Observed, dep_info_path, crate_manifest, store_crate, compile_crate, run_crate,
}

-- A run of rustc that is stored.
pub record Storable (inv : RustInvocation) (obs : Observed) (text : Bytes) : Type 0 where
  pub status : obs.run.status ≡ 0
  pub dep_info : obs.disk.read_file (dep_info_path inv) ≡ some text

module _ {S : Type 0} (server : CacheServer S) (blake3 : Bytes → Bytes) (f g : Files) (s : Store)
    (can_write : Bytes → Bool) (cwd request : Bytes) (inv later : RustInvocation)
    (obs again : Observed) (st : S) (text : Bytes) where
  abbrev info : DepInfo
  info = parse_dep_info cwd text

  abbrev made : Manifest
  made = crate_manifest server blake3 f s can_write cwd request inv info

  abbrev stored : S
  stored = store_crate server blake3 f s can_write cwd request st inv obs info

  stored_manifest : server.get stored (slot_key (manifest request)) ≡ some made.text
  unfolding store_crate slot_key equal
  stored_manifest =
      server.get_put_other _ _ _ _ refl ∙ server.get_put_other _ _ _ _ refl ∙ server.get_put _ _ _

  stored_object :
      server.get stored (slot_key (object made.key))
      ≡ some (pack_files obs.disk inv.extra_filename info.outputs)
  unfolding store_crate slot_key equal
  stored_object = server.get_put_other _ _ _ _ refl ∙ server.get_put _ _ _

  stored_stderr : server.get stored (slot_key (stderr made.key)) ≡ some obs.run.stderr_text
  unfolding store_crate
  stored_stderr = server.get_put _ _ _

  found :
      All (KeptInput f g) info.inputs → find_result server blake3 g s stored request ≡ ok made.key
  unfolding find_result crate_manifest
  found same =
      rw
        (
          stored_manifest,
          find_result,
          validate_manifest-build_manifest blake3 f g request (absolute_normal cwd inv.source)
              info.inputs [] same tt,
        )
        refl

  first_run :
      {why : Bytes}
      → find_result server blake3 f s st request ≡ unexpected why
      → Storable inv obs text
      → run_crate server blake3 f s can_write cwd request st inv obs ≡ record {
        server = stored;
        status = 0;
        written = [];
        printed = obs.run.stderr_text;
        outcome = some k_miss_stored;
      }
  unfolding run_crate compile_crate
  first_run miss h = rw (miss, run_crate) (simp (compile_crate, h.status, h.dep_info))

  -- A crate that missed and compiled is served to the next command line with its request key that sees
  -- the same inputs, whatever rustc would do and whatever the metadata stem: the daemon's state stays,
  -- the status is 0, every output that could be read is written to the later directory under the later
  -- stem, rustc's messages are printed again, and a hit is logged. Every output can be packed and
  -- written; the daemon keeps what it is given.
  pub run_crate-twice :
      {why : Bytes}
      → find_result server blake3 f s st request ≡ unexpected why
      → Storable inv obs text
      → All (KeptInput f g) info.inputs
      → All
          (IsPackable can_write obs.disk later.out_dir inv.extra_filename later.extra_filename)
          info.outputs
      → let st' = (run_crate server blake3 f s can_write cwd request st inv obs).server in
        run_crate server blake3 g s can_write cwd request st' later again ≡ record {
          server = st';
          status = 0;
          written =
              unpacked can_write obs.disk later.out_dir inv.extra_filename later.extra_filename
                info.outputs;
          printed = obs.run.stderr_text;
          outcome = some k_hit;
        }
  unfolding run_crate
  run_crate-twice miss h same packs = rw (first_run miss h) (
      rw
        (
          found same,
          run_crate,
          stored_object,
          unpack_files-pack_files can_write obs.disk later.out_dir inv.extra_filename
              later.extra_filename info.outputs packs,
          stored_stderr,
        )
        refl)
