-- ===== src/Tests/Mode.antt =====
-- pkgs/ji/jig/src/cc_mode.cc: a miss, then a hit.
use corepkgs_v.Prelude.{
  ◌≡◌, refl, Bool, true, some, [], Bytes, codes, equal, starts_with, find, contains,
}
use corepkgs_v.Store.{lookup, mask_for_replay}
use corepkgs_v.Store.Resolve.{resolve_all}
use corepkgs_v.Manifest.{unexpected}
use corepkgs_v.Cc.Invocation.{Invocation}
use corepkgs_v.Cc.Result.{find_result, lookup_result}
use corepkgs_v.Cc.Replay.{World, retarget_depfile}
use corepkgs_v.Cc.Mode.{run_cached, run_cached-twice}
use corepkgs_v.Tests.Store.{here, here-IsOwn}
use corepkgs_v.Tests.Manifest.{disk, plain_hash}
use corepkgs_v.Tests.Cached.{server, inv, good, same_good, request}

abbrev later : Invocation
later = record inv { output = codes "b.o"; depfile = codes "b.d" }

abbrev world : World
world = record { files = []; executable = []; stdout = []; stderr_text = codes "log " }

abbrev every : Bytes → Bool
every path = true

miss : lookup_result server plain_hash disk here [] request inv ≡ unexpected (codes "new-key")
unfolding lookup_result find_result lookup
miss = refl

run_cached-twice_example :
    let st = (run_cached server plain_hash disk here every [] request inv good world [] world).0 in
    let (last, status, after) =
      run_cached server plain_hash disk here every [] request later good world st world in
    (last ≡ st)
    × (status ≡ 0)
    × (lookup (codes "b.o") after.files ≡ some (codes "ELF"))
    × (lookup (codes "b.d") after.files
        ≡ some (
            retarget_depfile
              (resolve_all here (mask_for_replay here (codes "a.o: a.c b.h")))
              later))
    × (after.stderr_text ≡ codes "log warning")
unfolding contains find starts_with lookup mask_for_replay equal corepkgs_v.Store.mask_hashes
run_cached-twice_example =
    run_cached-twice server plain_hash disk disk here here-IsOwn every [] request inv later good
      good world world [] world world (codes "ELF") (codes "a.o: a.c b.h") miss
      (record { status = refl; dep_text = refl; output = refl; link = refl }) same_good refl refl
      refl refl refl refl refl refl refl refl
