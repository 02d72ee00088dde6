-- ===== src/Tests/Served.antt =====
-- pkgs/ji/jig/src/cc_mode.cc: what a replay leaves behind.
use corepkgs_v.Prelude.{
  ◌≡◌, refl, arith, Bool, true, false, some, [], ◌∷◌, Bytes, codes, equal, starts_with,
}
use corepkgs_v.Cc.Invocation.{Invocation, start}
use corepkgs_v.Cc.Result.{CachedResult}
use corepkgs_v.Cc.Replay.{World, retarget_depfile}
use corepkgs_v.Cc.Observe.{observed_args, is_driver_temp}
use corepkgs_v.Cc.Served.{retarget_depfile-rule}

abbrev inv : Invocation
inv = record (start (codes "-c" ∷ codes "a.c" ∷ [])) {
  source = codes "a.c";
  compile_only = true;
  output = codes "b.o";
  wants_depfile = true;
  depfile = codes "b.d";
}

abbrev result : CachedResult
result = record {
  status = 0;
  object = some (codes "ELF");
  depfile = some (codes "a.o: a.c");
  stderr_text = codes "warning";
}

abbrev world : World
world = record { files = []; executable = []; stdout = []; stderr_text = [] }

abbrev every : Bytes → Bool
every path = true

abbrev never : Bytes → Bool
never path = false

retarget_depfile-rule_example : retarget_depfile (codes "a.o: a.c a.h") inv ≡ codes "b.o: a.c a.h"
unfolding equal
retarget_depfile-rule_example =
    retarget_depfile-rule (codes "a.o") (codes "a.c a.h") inv (ground arith) (ground arith)

with_depfile :
    observed_args 7 (record inv { wants_depfile = false })
    ≡ codes "-c" ∷ codes "a.c" ∷ codes "-MD" ∷ codes "-MF" ∷ codes "./.jig7.d" ∷ []
unfolding observed_args starts_with
with_depfile = refl

temporary :
    (is_driver_temp (codes "/tmp/") (codes "/tmp/a-1.o") ≡ true)
    × (is_driver_temp (codes "/tmp/") (codes "/tmp/src/a.o") ≡ false)
unfolding is_driver_temp
temporary = (refl, refl)
