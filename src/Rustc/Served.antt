-- ===== src/Rustc/Served.antt =====
-- `RunRustcMode` of pkgs/ji/jig/src/rustc_mode.cc from its arguments on, for two builds whose command lines differ
-- in cargo's metadata hash.
use corepkgs_v.Prelude.{◌≡◌, refl, sym, ap, ◌∙◌, Bool, true, some, List, ◌∷◌, Bytes, All}
use corepkgs_v.Daemon.{CacheServer}
use corepkgs_v.Store.{Store}
use corepkgs_v.Manifest.{Files, unexpected}
use corepkgs_v.Manifest.RoundTrip.{KeptInput}
use corepkgs_v.Cc.Result.{k_hit, find_result}
use corepkgs_v.Rustc.{RustInvocation, parse_rust_invocation}
use corepkgs_v.Rustc.DepInfo.{parse_dep_info}
use corepkgs_v.Rustc.Key.{Machine, crate_key}
use corepkgs_v.Rustc.Keyed.Stem.{Renames, parse_rust_invocation-Renames, crate_key-Renames}
use corepkgs_v.Rustc.Unpacked.{IsPackable, unpacked}
use corepkgs_v.Rustc.Run.{Observed, run_crate, source_bytes_of, run_rustc_mode}
use corepkgs_v.Rustc.Twice.{Storable, run_crate-twice}

module _ {S : Type 0} (server : CacheServer S) (can_write : Bytes → Bool) (m : Machine) (s : Store)
    (rustc : Bytes) where
  run_rustc_mode-cached :
      (files : Store → Files) (args : List Bytes) (st : S) (obs : Observed) (source_bytes : Bytes)
      → let inv = parse_rust_invocation args in
        inv.cacheable ≡ true
        → m.read_file inv.source ≡ some source_bytes
        → run_rustc_mode server files can_write m s true st (rustc ∷ args) obs ≡ (
            let (s', request) = crate_key m s rustc inv source_bytes in
            run_crate server m.blake3 (files s') s' can_write m.cwd request st inv obs)
  unfolding run_rustc_mode source_bytes_of
  run_rustc_mode-cached files args st obs source_bytes cacheable reads =
      let read : source_bytes_of m (parse_rust_invocation args) ≡ some source_bytes =
        simp (source_bytes_of, cacheable, reads) in
      rw (read, run_rustc_mode) refl

  module _ (f g : Store → Files) (left right : List Bytes) (obs again : Observed) (st : S)
      (source_bytes text : Bytes) where
    abbrev inv : RustInvocation
    inv = parse_rust_invocation left

    abbrev later : RustInvocation
    later = parse_rust_invocation right

    abbrev keyed_store : Store
    keyed_store = (crate_key m s rustc inv source_bytes).0

    -- A crate that can be cached, missed and compiled is served to a second build whose command line
    -- differs in cargo's metadata hash only and that sees the same source and inputs: whatever rustc
    -- would do, the status is 0, the daemon's state stays, every output that could be read is written
    -- under the later hash, and rustc's messages are printed again. Every output can be packed and
    -- written; the daemon is there and keeps what it is given.
    pub run_rustc_mode-twice :
        {why : Bytes}
        → Renames left right
        → inv.cacheable ≡ true
        → m.read_file inv.source ≡ some source_bytes
        → find_result server m.blake3
            (f keyed_store)
            keyed_store
            st
            (crate_key m s rustc inv source_bytes).1
          ≡ unexpected why
        → Storable inv obs text
        → All (KeptInput (f keyed_store) (g keyed_store)) (parse_dep_info m.cwd text).inputs
        → All
            (IsPackable can_write obs.disk later.out_dir inv.extra_filename later.extra_filename)
            (parse_dep_info m.cwd text).outputs
        → let st' = (run_rustc_mode server f can_write m s true st (rustc ∷ left) obs).server in
          run_rustc_mode server g can_write m s true st' (rustc ∷ right) again ≡ record {
            server = st';
            status = 0;
            written =
                unpacked can_write obs.disk later.out_dir inv.extra_filename later.extra_filename
                  (parse_dep_info m.cwd text).outputs;
            printed = obs.run.stderr_text;
            outcome = some k_hit;
          }
    run_rustc_mode-twice renames cacheable reads miss stores same packs =
        let seen = parse_rust_invocation-Renames renames in
        let cacheable' : later.cacheable ≡ true = sym (ap (λ i. i.cacheable) seen) ∙ cacheable in
        let reads' : m.read_file later.source ≡ some source_bytes =
          sym (ap (λ i. m.read_file i.source) seen) ∙ reads in
        let first = run_rustc_mode-cached f left st obs source_bytes cacheable reads in
        let stored =
          (run_crate server m.blake3 (f keyed_store) keyed_store can_write m.cwd
            (crate_key m s rustc inv source_bytes).1 st inv obs).server in
        let second = run_rustc_mode-cached g right stored again source_bytes cacheable' reads' in
        let one_key = crate_key-Renames m s rustc source_bytes renames in
        let twice =
          run_crate-twice server m.blake3 (f keyed_store) (g keyed_store) keyed_store can_write
            m.cwd (crate_key m s rustc inv source_bytes).1 inv later obs again st text miss stores
            same packs in
        rw first (
          second
          ∙ ap (λ k. run_crate server m.blake3 (g k.0) k.0 can_write m.cwd k.1 stored later again)
              (sym one_key)
          ∙ twice)
