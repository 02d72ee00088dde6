-- ===== src/Tests/Cached.antt =====
-- pkgs/ji/jig/src/cc_mode.cc: what is stored is found again.
use corepkgs_v.Prelude.{
  ◌≡◌, refl, true, false, none, some, List, [], ◌∷◌, Bytes, codes, equal, equal_iff, starts_with,
  find, contains,
}
use corepkgs_v.Store.Maps.{equal_comm}
use corepkgs_v.Store.{Store, lookup, mask_for_replay}
use corepkgs_v.Manifest.{ok}
use corepkgs_v.Cc.Invocation.{Invocation, start}
use corepkgs_v.Daemon.{CacheServer}
use corepkgs_v.Cc.Result.{deterministic, Observed, unreplayable, lookup_result, compile_and_store}
use corepkgs_v.Cc.Stored.{SameInputs}
use corepkgs_v.Cc.Replayed.{lookup_result-compiled, lookup_result-failed}
use corepkgs_v.Tests.Store.{here, here-IsOwn}
use corepkgs_v.Tests.Manifest.{
  disk, plain_hash, read_files, absent_files, read_files-Kept, absent_files-StillAbsent,
}

abbrev pub Entries : Type 0
Entries = List (Bytes × Bytes)

pub get_put : (st : Entries) (k v : Bytes) → lookup k ((k, v) ∷ st) ≡ some v
unfolding lookup
get_put st k v = rw (lookup, (equal_iff k k).1 refl) refl

pub get_put_other :
    (st : Entries) (j k v : Bytes) → equal j k ≡ false → lookup j ((k, v) ∷ st) ≡ lookup j st
unfolding lookup
get_put_other st j k v h = rw (lookup, equal_comm k j, h) refl

-- A daemon that keeps a list of entries.
abbrev pub server : CacheServer Entries
server = record {
  get = λ st k. lookup k st;
  put = λ st k v. (k, v) ∷ st;
  get_put = get_put;
  get_put_other = get_put_other;
}

abbrev pub inv : Invocation
inv = record (start (codes "-c" ∷ codes "a.c" ∷ [])) {
  key_args = codes "-c" ∷ [];
  source = codes "a.c";
  compile_only = true;
  output = codes "a.o";
  wants_depfile = true;
}

abbrev pub good : Observed
good = record {
  run = record { status = 0; stderr_text = codes "warning" };
  dep_text = some (codes "a.o: a.c b.h");
  link_dep_text = none;
  inputs = read_files;
  absent = absent_files;
  output = some (codes "ELF");
}

abbrev bad : Observed
bad = record good { run = record { status = 1; stderr_text = codes "error" }; output = none }

pub same_good : SameInputs disk disk good
same_good = record { inputs = read_files-Kept; absent = absent_files-StillAbsent }

same_bad : SameInputs disk disk bad
same_bad = record { inputs = read_files-Kept; absent = absent_files-StillAbsent }

abbrev pub request : Bytes
request = codes "00"

lookup_result-compiled_example :
    lookup_result server plain_hash disk here
      (compile_and_store server plain_hash disk here [] request inv good).0
      request
      inv
    ≡ ok (record {
      status = 0;
      object = some (codes "ELF");
      depfile = some (mask_for_replay here (codes "a.o: a.c b.h"));
      stderr_text = codes "warning";
    })
unfolding contains find starts_with lookup mask_for_replay corepkgs_v.Store.mask_hashes
lookup_result-compiled_example =
    lookup_result-compiled server plain_hash disk disk here here-IsOwn [] request inv inv good
      (codes "ELF") (codes "a.o: a.c b.h")
      (record { status = refl; dep_text = refl; output = refl; link = refl }) same_good refl refl
      refl refl (λ h. refl)

lookup_result-failed_example :
    lookup_result server plain_hash disk here
      (compile_and_store server plain_hash disk here [] request inv bad).0
      request
      inv
    ≡ ok (record { status = 1; object = none; depfile = none; stderr_text = codes "error" })
unfolding contains find starts_with unreplayable deterministic
lookup_result-failed_example =
    lookup_result-failed server plain_hash disk disk here here-IsOwn [] request inv inv bad refl
      refl same_bad refl refl
