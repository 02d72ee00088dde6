-- ===== src/Tests/Rustc.antt =====
-- pkgs/ji/jig/src/rustc_mode.cc
use corepkgs_v.Prelude.{
  ◌^◌, ◌<◌, ◌≡◌, refl, Bool, true, false, none, some, List, [], ◌∷◌, arith, if◌then◌else◌, Bytes,
  codes, equal, starts_with, ends_with, find, length,
}
use mathlib.Core.Path.{subst}
use corepkgs_v.Store.{Store}
use corepkgs_v.Manifest.{Files, unexpected}
use corepkgs_v.Cc.Result.{k_hit, find_result}
use corepkgs_v.Text.{replace_all}
use corepkgs_v.Rustc.{RustInvocation, parse_rust_invocation}
use corepkgs_v.Rustc.DepInfo.{parse_dep_info}
use corepkgs_v.Rustc.Key.{Machine, crate_key}
use corepkgs_v.Rustc.Keyed.Stem.{Renames, done, alone, valued, hashed, crate_key-Renames}
use corepkgs_v.Rustc.Pack.{Disk, pack_files, unpack_files, unpack_loop}
use corepkgs_v.Rustc.Unpacked.{IsPackable, unpacked, unpack_files-pack_files, unpack_loop_enough}
use corepkgs_v.Rustc.Run.{Observed, run_rustc_mode}
use corepkgs_v.Rustc.Served.{run_rustc_mode-twice}
use corepkgs_v.Tests.Store.{here}
use corepkgs_v.Tests.Manifest.{disk, plain_hash, kept}
use corepkgs_v.Tests.Cached.{server}

abbrev library : Bytes → Bytes → List Bytes
library metadata extra =
    codes "--crate-name"
    ∷ codes "foo"
    ∷ codes "src/lib.rs"
    ∷ codes "--emit=dep-info,link"
    ∷ codes "--crate-type"
    ∷ codes "lib"
    ∷ codes "-C"
    ∷ metadata
    ∷ codes "-C"
    ∷ extra
    ∷ codes "--out-dir"
    ∷ codes "out"
    ∷ []

abbrev left : List Bytes
left = library (codes "metadata=aa") (codes "extra-filename=-aa")

abbrev right : List Bytes
right = library (codes "metadata=bb") (codes "extra-filename=-bb")

left_read : parse_rust_invocation left ≡ record {
  key_args =
      codes "--crate-name=foo" ∷ codes "--emit=dep-info,link" ∷ codes "--crate-type=lib" ∷ [];
  externs = [];
  source = codes "src/lib.rs";
  crate_name = codes "foo";
  out_dir = codes "out";
  sysroot = [];
  extra_filename = codes "-aa";
  links = false;
  has_crate_type = true;
  cacheable = true;
  query = false;
  has_dep_info = true;
}
unfolding parse_rust_invocation
left_read = refl

binary_not_cached :
    (parse_rust_invocation
      (codes "a.rs" ∷ codes "--emit=dep-info" ∷ codes "--out-dir=o" ∷ [])).cacheable
    ≡ false
unfolding parse_rust_invocation
binary_not_cached = refl

left-Renames : Renames left right
unfolding equal starts_with
left-Renames = valued (codes "--crate-name") (codes "foo") refl (
    alone (codes "src/lib.rs") refl (
      alone (codes "--emit=dep-info,link") refl (
        valued (codes "--crate-type") (codes "lib") refl (
          hashed (codes "metadata=aa") (codes "metadata=bb") refl refl (
            hashed (codes "extra-filename=-aa") (codes "extra-filename=-bb") refl refl
              (valued (codes "--out-dir") (codes "out") refl done))))))

abbrev machine : Machine
machine = record {
  env = λ name. [];
  exists = λ path. false;
  canonical = λ path. none;
  weakly_canonical = λ path. path;
  list_dir = λ path. [];
  read_file = λ path. some (codes "fn f() {}");
  cwd = codes "/w";
  blake3 = plain_hash;
  daemon_ids = λ paths. [];
}

crate_key-Renames_example :
    crate_key machine here (codes "rustc") (parse_rust_invocation left) (codes "fn f() {}")
    ≡ crate_key machine here (codes "rustc") (parse_rust_invocation right) (codes "fn f() {}")
crate_key-Renames_example =
    crate_key-Renames machine here (codes "rustc") (codes "fn f() {}") left-Renames

abbrev rlib : Bytes
rlib = codes "out/libfoo-aa.rlib"

abbrev dep_text : Bytes
dep_text = codes "out/libfoo-aa.rlib: src/lib.rs src/a.rs\n\nsrc/a.rs:\n# env-dep:X\n"

-- Only these two files can be read, and every file has one mode.
abbrev compiled : Disk
compiled = record {
  read_file = λ path.
      if equal path (codes "out/foo-aa.d")
      then some dep_text
      else if equal path rlib
      then some (codes "RLIB\n2")
      else none;
  mode_of = λ path. 33188;
}

dep_info_read :
    parse_dep_info (codes "/w") dep_text
    ≡ record { outputs = rlib ∷ []; inputs = codes "/w/src/lib.rs" ∷ codes "/w/src/a.rs" ∷ [] }
unfolding parse_dep_info corepkgs_v.Text.split corepkgs_v.Manifest.Depfile.parse_depfile
    corepkgs_v.FilePath.lexically_normal corepkgs_v.FilePath.append
dep_info_read = refl

abbrev every : Bytes → Bool
every path = true

fits : (bytes : Bytes) → compiled.read_file rlib ≡ some bytes → length bytes < 2 ^ 64
unfolding equal
fits bytes h =
    let same : codes "RLIB\n2" ≡ bytes = ground arith in
    subst (λ b. length b < 2 ^ 64) same (omega arith)

packable : (later : Bytes) → IsPackable every compiled (codes "out") (codes "-aa") later rlib
unfolding replace_all corepkgs_v.FilePath.filename find starts_with
packable later = record {
  part = (omega arith, λ e. cc e);
  one_line = omega arith;
  fits = fits;
  writes = refl;
}

unpack_files-pack_files_example :
    unpack_files every (codes "out") (codes "-bb") (pack_files compiled (codes "-aa") (rlib ∷ []))
    ≡ (true, unpacked every compiled (codes "out") (codes "-aa") (codes "-bb") (rlib ∷ []))
unpack_files-pack_files_example =
    unpack_files-pack_files every compiled (codes "out") (codes "-aa") (codes "-bb") (rlib ∷ [])
      (packable (codes "-bb"), tt)

unpacked_there :
    unpacked every compiled (codes "out") (codes "-aa") (codes "-bb") (rlib ∷ [])
    ≡ record { path = codes "out/libfoo-bb.rlib"; mode = 420; bytes = codes "RLIB\n2" } ∷ []
unfolding unpacked equal corepkgs_v.FilePath.append starts_with replace_all find
    corepkgs_v.FilePath.filename ends_with
unpacked_there = refl

unpack_loop_enough_example :
    unpack_loop every (codes "out") (codes "-bb") 20 (codes "a 644 1\nxb 644") []
    ≡ unpack_loop every (codes "out") (codes "-bb") 15 (codes "a 644 1\nxb 644") []
unpack_loop_enough_example =
    unpack_loop_enough every (codes "out") (codes "-bb") 20 15 (codes "a 644 1\nxb 644") []
      (omega arith) (omega arith)

broken_blob :
    unpack_files every (codes "out") (codes "-bb") (codes "a 644 1\nxb 644")
    ≡ (false, record { path = codes "out/a"; mode = 420; bytes = codes "x" } ∷ [])
unfolding unpack_files corepkgs_v.Text.split corepkgs_v.Text.parse_uint corepkgs_v.FilePath.append
    starts_with replace_all find ends_with equal
broken_blob = refl

-- Every path has its own key, and every file the same identity.
abbrev files : Store → Files
files s = disk

abbrev obs : Observed
obs = record { run = record { status = 0; stderr_text = codes "warning" }; disk = compiled }

abbrev failing : Observed
failing = record obs { run = record { status = 1; stderr_text = codes "no rustc" } }

run_rustc_mode-twice_example :
    let st =
      (run_rustc_mode server files every machine here true [] (codes "rustc" ∷ left) obs).server in
    run_rustc_mode server files every machine here true st (codes "rustc" ∷ right) failing
    ≡ record {
      server = st;
      status = 0;
      written = unpacked every compiled (codes "out") (codes "-aa") (codes "-bb") (rlib ∷ []);
      printed = codes "warning";
      outcome = some k_hit;
    }
unfolding parse_rust_invocation parse_dep_info find_result corepkgs_v.Store.lookup
    corepkgs_v.Rustc.Run.dep_info_path corepkgs_v.FilePath.append corepkgs_v.Text.split
    corepkgs_v.Manifest.Depfile.parse_depfile corepkgs_v.FilePath.lexically_normal
run_rustc_mode-twice_example =
    run_rustc_mode-twice server every machine here (codes "rustc") files files left right obs
      failing [] (codes "fn f() {}") dep_text left-Renames refl refl refl
      (record { status = refl; dep_info = refl })
      (
        kept (codes "/w/src/lib.rs") (omega arith) (omega arith) refl,
        (kept (codes "/w/src/a.rs") (omega arith) (omega arith) refl, tt),
      )
      (packable (codes "-bb"), tt)
