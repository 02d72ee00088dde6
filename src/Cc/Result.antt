-- ===== src/Cc/Result.antt =====
-- The path of a compile through the cache, in pkgs/ji/jig/src/cc_mode.cc: `Lookup`, `Replay` and
-- `CompileAndStore`. The daemon is the argument `CacheServer`; what a run of the compiler left behind
-- is the record `Observed`.
use corepkgs_v.Prelude.{
  ℕ, ◌%◌, ◌^◌, Bool, true, false, not, ◌&&◌, ◌||◌, Option, none, some, List, ltb, ◌==◌,
  if◌then◌else◌, Bytes, codes, contains,
}
use corepkgs_v.Text.{print_uint, parse_uint}
use corepkgs_v.Keys.{manifest, object, stderr, depfile, exit_status, slot_key}
use corepkgs_v.Daemon.{CacheServer}
use corepkgs_v.Store.{Store, mask_out, unmask_out, mask_for_replay}
use corepkgs_v.Manifest.{
  Files, Manifest, build_manifest, Expected, ok, unexpected, or_empty, validate_manifest,
}
use corepkgs_v.Cc.Invocation.{Invocation}

abbrev pub links : Invocation → Bool
links inv = inv.link_one || inv.link

-- `struct RunResult`
pub record RunResult : Type 0 where
  pub status : ℕ
  pub stderr_text : Bytes

-- `Deterministic` of process.cc
unfoldable pub deterministic : RunResult → Bool
unfolding contains
deterministic run =
    ltb run.status 128
    && not (contains run.stderr_text (codes "unable to execute command"))
    && not (contains run.stderr_text (codes "PLEASE submit a bug report"))

-- `struct CachedResult`
pub record CachedResult : Type 0 where
  pub status : ℕ
  pub object : Option Bytes
  pub depfile : Option Bytes
  pub stderr_text : Bytes

-- The status of a cached failure; `static_cast<int>` keeps 32 bits.
unfoldable pub cached_status : Invocation → Option Bytes → ℕ
cached_status inv none = 0
cached_status inv (some text) =
    if links inv then 0 else (elim (parse_uint 10 text) [ none ↦ 1 | some n ↦ n % 2 ^ 32 ])

abbrev pub object_gone : Expected CachedResult
object_gone = unexpected (codes "object-gone")

-- What `Lookup` makes of the server's four answers: status, object, depfile and stderr.
unfoldable pub cached_result :
    Store
    → Invocation
    → Option Bytes
    → Option Bytes
    → Option Bytes
    → Option Bytes
    → Expected CachedResult
unfolding cached_status
cached_result s inv status_text object_text depfile_text stderr_text =
    let code = cached_status inv status_text in
    let shown = unmask_out s (or_empty stderr_text) in
    let compiled : Bytes → Option Bytes → Expected CachedResult = λ text dep. ok (record {
      status = 0;
      object = some (unmask_out s text);
      depfile = dep;
      stderr_text = shown;
    }) in
    let success : Expected CachedResult = elim object_text [
      | none ↦ object_gone
      | some text ↦
          if inv.wants_depfile
          then (elim depfile_text [
            | none ↦ object_gone
            | some dep ↦ compiled text (some (unmask_out s dep))
          ])
          else compiled text none
    ] in
    if code == 0
    then success
    else ok (record { status = code; object = none; depfile = none; stderr_text = shown })

-- `struct Observed`, and the bytes of the output file.
pub record Observed : Type 0 where
  pub run : RunResult
  pub dep_text : Option Bytes
  pub link_dep_text : Option Bytes
  pub inputs : List Bytes
  pub absent : List Bytes
  pub output : Option Bytes

-- `enum class Outcome` of keys.h
pub data Outcome : Type 0 where
  k_hit k_hit_fail k_miss_stored k_miss_stored_fail k_miss_fail k_miss_unstored : Outcome
  k_plain_compile k_plain_link k_plain_no_source k_plain_query k_plain_no_socket : Outcome

abbrev pub is_some {ℓ} : {A : Type ℓ} → Option A → Bool
is_some none = false
is_some (some a) = true

-- The failures that are not stored.
unfoldable pub unreplayable : Invocation → Observed → Bool
unfolding contains deterministic
unreplayable inv obs =
    not (is_some obs.dep_text)
    || links inv
    || contains obs.run.stderr_text (codes "file not found")
    || not (deterministic obs.run)

module _ {S : Type 0} (server : CacheServer S) (blake3 : Bytes → Bytes) (files : Files)
    (s : Store) where
  -- `FindResult`
  unfoldable pub find_result : S → Bytes → Expected Bytes
  find_result st request = elim (server.get st (slot_key (manifest request))) [
    | none ↦ unexpected (codes "new-key")
    | some text ↦ validate_manifest blake3 files request text
  ]

  -- `Lookup`
  unfoldable pub lookup_result : S → Bytes → Invocation → Expected CachedResult
  unfolding find_result
  lookup_result st request inv = elim (find_result st request) [
    | unexpected why ↦ unexpected why
    | ok k ↦
        cached_result s inv (server.get st (slot_key (exit_status k)))
          (server.get st (slot_key (object k))) (server.get st (slot_key (depfile k)))
          (server.get st (slot_key (stderr k)))
  ]

  -- The `BuildManifest` call of `CompileAndStore`.
  unfoldable pub manifest_of : Bytes → Invocation → Observed → Manifest
  manifest_of request inv obs = build_manifest blake3 files request obs.inputs inv.source obs.absent

  -- The entries of a failure.
  unfoldable pub store_failure : S → Bytes → Observed → Manifest → S
  store_failure st request obs m =
      let st1 = server.put st (slot_key (manifest request)) m.text in
      let st2 = server.put st1 (slot_key (exit_status m.key)) (print_uint 10 obs.run.status) in
      server.put st2 (slot_key (stderr m.key)) (mask_out s obs.run.stderr_text)

  -- The entries of a success.
  unfoldable pub store_success : S → Bytes → Invocation → Observed → Bytes → Bytes → Manifest → S
  store_success st request inv obs text dep m =
      let st1 = server.put st (slot_key (manifest request)) m.text in
      let st2 = server.put st1 (slot_key (object m.key)) (mask_out s text) in
      let st3 = server.put st2 (slot_key (stderr m.key)) (mask_out s obs.run.stderr_text) in
      if inv.wants_depfile
      then server.put st3 (slot_key (depfile m.key)) (mask_out s (mask_for_replay s dep))
      else st3

  -- `CompileAndStore` behind its call of `RunObserved`: the server's state, the status and the outcome.
  unfoldable pub compile_and_store : S → Bytes → Invocation → Observed → S × ℕ × Outcome
  unfolding unreplayable store_failure store_success manifest_of
  compile_and_store st request inv obs =
      let m = manifest_of request inv obs in
      let failed : S × ℕ × Outcome =
        if unreplayable inv obs
        then (st, obs.run.status, k_miss_fail)
        else (store_failure st request obs m, obs.run.status, k_miss_stored_fail) in
      let unstored : S × ℕ × Outcome = (st, 0, k_miss_unstored) in
      let compiled : S × ℕ × Outcome = elim obs.dep_text [
        | none ↦ unstored
        | some dep ↦ elim obs.output [
          | none ↦ unstored
          | some text ↦
              if links inv && not (is_some obs.link_dep_text)
              then unstored
              else (store_success st request inv obs text dep m, 0, k_miss_stored)
        ]
      ] in
      if obs.run.status == 0 then compiled else failed
