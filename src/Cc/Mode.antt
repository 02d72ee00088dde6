-- ===== src/Cc/Mode.antt =====
-- The end of `RunCcMode` in pkgs/ji/jig/src/cc_mode.cc: a command line that can be cached, from its
-- request key to its exit status.
use corepkgs_v.Prelude.{
  ℕ, ◌≡◌, refl, Bool, true, false, none, some, ◌++◌, if◌then◌else◌, Bytes, equal,
}
use corepkgs_v.Keys.{slot_key, exit_status}
use corepkgs_v.Daemon.{CacheServer}
use corepkgs_v.Store.{Store, lookup, mask_for_replay}
use corepkgs_v.Store.Resolve.{resolve_all}
use corepkgs_v.Store.OwnHash.{IsOwn}
use corepkgs_v.Manifest.{Files, Expected, ok, unexpected}
use corepkgs_v.Cc.Invocation.{Invocation}
use corepkgs_v.Cc.Result.{CachedResult, Observed, lookup_result, manifest_of, compile_and_store}
use corepkgs_v.Cc.Stored.{IsPlain, SameInputs, Replayable}
use corepkgs_v.Cc.Replayed.{lookup_result-compiled}
use corepkgs_v.Cc.Replay.{World, retarget_depfile, replay}
use corepkgs_v.Cc.Served.{replay_lem}

-- The two ways through the cache. `obs` is what a run of the compiler would leave, `compiled` the files
-- and streams after it.
unfoldable pub run_cached :
    {S : Type 0}
    → CacheServer S
    → (Bytes → Bytes)
    → Files
    → Store
    → (Bytes → Bool)
    → Bytes
    → Bytes
    → Invocation
    → Observed
    → World
    → S
    → World
    → S × ℕ × World
run_cached server blake3 files s can_write message request inv obs compiled st w =
    elim (lookup_result server blake3 files s st request inv) [
      | ok result ↦
          let (status, after) = replay can_write message s result inv w in (st, status, after)
      | unexpected why ↦
          let (st', status, outcome) = compile_and_store server blake3 files s st request inv obs in
          (st', status, compiled)
    ]

module _ {S : Type 0} (server : CacheServer S) (blake3 : Bytes → Bytes) (f g : Files) (s : Store)
    (own : IsOwn s) (can_write : Bytes → Bool) (message request : Bytes) (inv later : Invocation)
    (obs again : Observed) (compiled compiled_again : World) (st : S) (w w' : World) where
  first_run :
      {why : Bytes}
      → lookup_result server blake3 f s st request inv ≡ unexpected why
      → (run_cached server blake3 f s can_write message request inv obs compiled st w).0
        ≡ (compile_and_store server blake3 f s st request inv obs).0
  unfolding run_cached
  first_run miss = rw (miss, run_cached) refl

  second_run :
      (st' : S) (result : CachedResult)
      → lookup_result server blake3 g s st' request later ≡ ok result
      → run_cached server blake3 g s can_write message request later again compiled_again st' w' ≡ (
        st',
        (replay can_write message s result later w').0,
        (replay can_write message s result later w').1,
      )
  unfolding run_cached
  second_run st' result hit = rw (hit, run_cached) refl

  abbrev cached : Bytes → Bytes → CachedResult
  cached text dep = record {
    status = 0;
    object = some text;
    depfile = some (mask_for_replay s dep);
    stderr_text = obs.run.stderr_text;
  }

  hit_with_depfile :
      (text dep : Bytes) (r : Expected CachedResult)
      → later.wants_depfile ≡ true
      → r
        ≡ ok (record {
          status = 0;
          object = some text;
          depfile = if later.wants_depfile then some (mask_for_replay s dep) else none;
          stderr_text = obs.run.stderr_text;
        })
      → r ≡ ok (cached text dep)
  hit_with_depfile text dep r wants h = simp wants at h

  -- A compile that missed and succeeded is replayed by the next command line with its request key
  -- that sees the same inputs: the daemon's state stays, the status is 0, the object is at the new
  -- output, the depfile at its own other path, resolved and retargeted, and the diagnostics are printed
  -- again. Both ask for a depfile, the second not for standard output, and both its files can be
  -- written; the daemon keeps what it is given and holds no failure under the result key; the store
  -- directory has no '-' and the texts do not hold the placeholder path.
  pub run_cached-twice :
      (text dep : Bytes) {why : Bytes}
      → lookup_result server blake3 f s st request inv ≡ unexpected why
      → Replayable inv obs text dep
      → SameInputs f g obs
      → server.get st (slot_key (exit_status (manifest_of server blake3 f s request inv obs).key))
        ≡ none
      → IsPlain s text
      → IsPlain s (mask_for_replay s dep)
      → IsPlain s obs.run.stderr_text
      → inv.wants_depfile ≡ true
      → later.wants_depfile ≡ true
      → later.to_stdout ≡ false
      → can_write later.output ≡ true
      → can_write later.depfile ≡ true
      → equal later.depfile later.output ≡ false
      → let st' =
          (run_cached server blake3 f s can_write message request inv obs compiled st w).0 in
        let (last, status, after) =
          run_cached server blake3 g s can_write message request later again compiled_again st'
            w' in
        (last ≡ st')
        × (status ≡ 0)
        × (lookup later.output after.files ≡ some text)
        × (lookup later.depfile after.files
            ≡ some (retarget_depfile (resolve_all s (mask_for_replay s dep)) later))
        × (after.stderr_text ≡ w'.stderr_text ++ obs.run.stderr_text)
  run_cached-twice text dep miss r same fresh pt pd pe wants wants' no_stdout writes writes_depfile
        apart =
      let st' = (compile_and_store server blake3 f s st request inv obs).0 in
      let hit =
        hit_with_depfile text dep (lookup_result server blake3 g s st' request later) wants' (
          lookup_result-compiled server blake3 f g s own st request inv later obs text dep r same
            fresh pt pd pe (λ h. wants)) in
      let replayed =
        replay_lem can_write message s (cached text dep) later w' text (mask_for_replay s dep)
          no_stdout writes writes_depfile refl refl apart in
      rw (first_run miss, second_run st' (cached text dep) hit)
        (refl, replayed.0, replayed.1, replayed.2, replayed.3)
