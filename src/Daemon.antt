-- ===== src/Daemon.antt =====
-- The cache server, jigd, as the code of pkgs/ji/jig/src sees it through `CacheClient`.
use corepkgs_v.Prelude.{◌≡◌, Option, some, Bytes, equal, false}

-- GET and PUT, and what the proofs assume of them: an entry that was put is there for the next request,
-- until another is put under its key. jigd may also refuse an entry or evict it; a run is then a miss.
pub record CacheServer (S : Type 0) : Type 0 where
  pub get : S → Bytes → Option Bytes
  pub put : S → Bytes → Bytes → S
  pub get_put : (st : S) (k v : Bytes) → get (put st k v) k ≡ some v
  pub get_put_other : (st : S) (j k v : Bytes) → equal j k ≡ false → get (put st k v) j ≡ get st j
