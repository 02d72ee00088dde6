-- ===== src/Cc/Replayed.antt =====
-- A run that `CompileAndStore` of pkgs/ji/jig/src/cc_mode.cc stored, as a later `Lookup` sees it.
use corepkgs_v.Prelude.{
  ℕ, ◌%◌, ◌^◌, ◌<◌, ◌≡◌, ap, ◌∙◌, inl, inr, true, false, not, ◌&&◌, Option, none, some, arith, ◌==◌,
  if◌then◌else◌, Bool-cases, Option-cases, Bytes,
}
use native.Mathlib.Nat.{mod-eq_of_lt}
use corepkgs_v.Text.{print_uint}
use corepkgs_v.Text.Numbers.{parse_uint-print_uint}
use corepkgs_v.Keys.{manifest, exit_status, slot_key}
use corepkgs_v.Store.{Store, mask_out, mask_for_replay}
use corepkgs_v.Store.OwnHash.{IsOwn, unmask_out-mask_out}
use corepkgs_v.Manifest.{Files, Manifest, ok}
use corepkgs_v.Manifest.RoundTrip.{validate_manifest-build_manifest}
use corepkgs_v.Cc.Invocation.{Invocation}
use corepkgs_v.Daemon.{CacheServer}
use corepkgs_v.Cc.Result.{
  links, deterministic, cached_status, cached_result, Observed, is_some, unreplayable, find_result,
  lookup_result, manifest_of, compile_and_store,
}
use corepkgs_v.Cc.Stored.{
  IsPlain, SameInputs, Replayable, compiled, compiled_manifest, compiled_status, compiled_object,
  compiled_stderr, compiled_depfile, failed, failed_manifest, failed_status, failed_stderr,
}

module _ (s : Store) (own : IsOwn s) (later : Invocation) where
  cached_result-compiled :
      (text dep err : Bytes) (d : Option Bytes)
      → (later.wants_depfile ≡ true → d ≡ some (mask_out s dep))
      → IsPlain s text
      → IsPlain s dep
      → IsPlain s err
      → cached_result s later none (some (mask_out s text)) d (some (mask_out s err))
        ≡ ok (record {
          status = 0;
          object = some text;
          depfile = if later.wants_depfile then some dep else none;
          stderr_text = err;
        })
  unfolding cached_result cached_status
  cached_result-compiled text dep err d h pt pd pe = elim (Bool-cases later.wants_depfile) [
    | inl w ↦ simp (
      cached_result,
      w,
      h w,
      unmask_out-mask_out s own text pt,
      unmask_out-mask_out s own dep pd,
      unmask_out-mask_out s own err pe,
    )
    | inr w ↦
        simp (cached_result, w, unmask_out-mask_out s own text pt, unmask_out-mask_out s own err pe)
  ]

  to_int : (n : ℕ) → n < 128 → n % 2 ^ 32 ≡ n
  to_int n h = mod-eq_of_lt (omega (arith, h))

  cached_status-printed :
      (n : ℕ) → n < 128 → links later ≡ false → cached_status later (some (print_uint 10 n)) ≡ n
  unfolding cached_status
  cached_status-printed n small l = simp (
    cached_status,
    l,
    parse_uint-print_uint 10 n (omega arith) (omega arith) (omega (arith, small)),
    to_int n small,
  )

  cached_result-failed :
      (n : ℕ) (err : Bytes) (o d : Option Bytes)
      → n < 128
      → (n == 0) ≡ false
      → links later ≡ false
      → IsPlain s err
      → cached_result s later (some (print_uint 10 n)) o d (some (mask_out s err))
        ≡ ok (record { status = n; object = none; depfile = none; stderr_text = err })
  unfolding cached_result
  cached_result-failed n err o d small fails l pe =
      simp (cached_result, cached_status-printed n small l, fails, unmask_out-mask_out s own err pe)

module _ {S : Type 0} (server : CacheServer S) (blake3 : Bytes → Bytes) (f g : Files) (s : Store)
    (own : IsOwn s) (st : S) (request : Bytes) (inv later : Invocation) (obs : Observed) where
  abbrev m : Manifest
  m = manifest_of server blake3 f s request inv obs

  found_key :
      (st' : S)
      → SameInputs f g obs
      → server.get st' (slot_key (manifest request)) ≡ some m.text
      → find_result server blake3 g s st' request ≡ ok m.key
  unfolding find_result manifest_of
  found_key st' same h = simp (
    find_result,
    h,
    validate_manifest-build_manifest blake3 f g request inv.source obs.inputs obs.absent same.inputs
        same.absent,
  )

  after_compiled :
      (text dep : Bytes)
      → Replayable inv obs text dep
      → (compile_and_store server blake3 f s st request inv obs).0
        ≡ compiled server blake3 f s st request obs m inv text dep
  unfolding compile_and_store compiled
  after_compiled text dep r = simp (compile_and_store, r.status, r.dep_text, r.output, r.link)

  -- A successful run whose output and depfile could be read is replayed by every later build that
  -- sees the same inputs: `Lookup` finds its object, its diagnostics and, where the later command line
  -- asks for one, its depfile with the store paths masked for replay. It takes that the daemon keeps
  -- what it is given and holds no failure under this result key, that the store directory has no '-'
  -- and the texts do not hold the placeholder path, and that a later command line with a depfile
  -- follows one with a depfile.
  pub lookup_result-compiled :
      (text dep : Bytes)
      → Replayable inv obs text dep
      → SameInputs f g obs
      → server.get st (slot_key (exit_status m.key)) ≡ none
      → IsPlain s text
      → IsPlain s (mask_for_replay s dep)
      → IsPlain s obs.run.stderr_text
      → (later.wants_depfile ≡ true → inv.wants_depfile ≡ true)
      → lookup_result server blake3 g s
          (compile_and_store server blake3 f s st request inv obs).0
          request
          later
        ≡ ok (record {
          status = 0;
          object = some text;
          depfile = if later.wants_depfile then some (mask_for_replay s dep) else none;
          stderr_text = obs.run.stderr_text;
        })
  unfolding lookup_result
  lookup_result-compiled text dep r same fresh pt pd pe wants =
      let stored = after_compiled text dep r in
      let st' = compiled server blake3 f s st request obs m inv text dep in
      ap (λ st'. lookup_result server blake3 g s st' request later) stored
      ∙ rw
          (
            lookup_result,
            found_key st' same (compiled_manifest server blake3 f s st request obs m inv text dep),
            compiled_status server blake3 f s st request obs m inv text dep,
            fresh,
            compiled_object server blake3 f s st request obs m inv text dep,
            compiled_stderr server blake3 f s st request obs m inv text dep,
          )
          (cached_result-compiled s own later text (mask_for_replay s dep) obs.run.stderr_text _
            (λ w. compiled_depfile server blake3 f s st request obs m inv text dep (wants w)) pt pd
            pe)

  after_failed :
      (obs.run.status == 0) ≡ false
      → unreplayable inv obs ≡ false
      → (compile_and_store server blake3 f s st request inv obs).0
        ≡ failed server blake3 f s st request obs m
  unfolding compile_and_store failed
  after_failed fails kept = simp (compile_and_store, fails, kept)

  kept_status : unreplayable inv obs ≡ false → obs.run.status < 128
  unfolding unreplayable deterministic
  kept_status kept = ground arith

  -- A failed run that is replayable (its depfile could be read, it is no link, no file was missing
  -- and it did not crash) is replayed by every later build that sees the same inputs, if that is no
  -- link either: `Lookup` finds its status and its diagnostics, and no output. It takes that the
  -- daemon keeps what it is given, that the store directory has no '-' and that the diagnostics do
  -- not hold the placeholder path.
  pub lookup_result-failed :
      (obs.run.status == 0) ≡ false
      → unreplayable inv obs ≡ false
      → SameInputs f g obs
      → links later ≡ false
      → IsPlain s obs.run.stderr_text
      → lookup_result server blake3 g s
          (compile_and_store server blake3 f s st request inv obs).0
          request
          later
        ≡ ok (record {
          status = obs.run.status;
          object = none;
          depfile = none;
          stderr_text = obs.run.stderr_text;
        })
  unfolding lookup_result
  lookup_result-failed fails kept same l pe =
      let stored = after_failed fails kept in
      let st' = failed server blake3 f s st request obs m in
      ap (λ st'. lookup_result server blake3 g s st' request later) stored
      ∙ rw
          (
            lookup_result,
            found_key st' same (failed_manifest server blake3 f s st request obs m),
            failed_status server blake3 f s st request obs m,
            failed_stderr server blake3 f s st request obs m,
          )
          (cached_result-failed s own later obs.run.status obs.run.stderr_text _ _
            (kept_status kept) fails l pe)

module _ {S : Type 0} (server : CacheServer S) (blake3 : Bytes → Bytes) (f : Files) (s : Store)
    (st : S) (request : Bytes) (inv : Invocation) (obs : Observed) where
  status_kept : (n : ℕ) → (n == 0) ≡ true → n ≡ 0
  status_kept n e = ground arith

  link_unreplayable : links inv ≡ true → unreplayable inv obs ≡ true
  unfolding unreplayable
  link_unreplayable l = ground arith

  -- `CompileAndStore` returns the compiler's status on every path, stored or not. The daemon's state
  -- is unchanged when a link fails.
  pub compile_and_store_lem :
      ((compile_and_store server blake3 f s st request inv obs).1 ≡ obs.run.status)
      × (links inv ≡ true
          → (obs.run.status == 0) ≡ false
          → (compile_and_store server blake3 f s st request inv obs).0 ≡ st)
  unfolding compile_and_store
  compile_and_store_lem = (
    elim (Bool-cases (obs.run.status == 0)) [
      | inl z ↦ elim (Option-cases obs.dep_text) [
        | inl d ↦ simp (compile_and_store, d, status_kept _ z)
        | inr (dep, d) ↦ elim (Option-cases obs.output) [
          | inl o ↦ simp (compile_and_store, d, o, status_kept _ z)
          | inr (text, o) ↦ elim (Bool-cases (links inv && not (is_some obs.link_dep_text))) [
            | inl l ↦ simp (compile_and_store, d, o, l, status_kept _ z)
            | inr l ↦ simp (compile_and_store, d, o, l, status_kept _ z)
          ]
        ]
      ]
      | inr z ↦ elim (Bool-cases (unreplayable inv obs)) [
        | inl u ↦ simp (compile_and_store, z, u)
        | inr u ↦ simp (compile_and_store, z, u)
      ]
    ],
    λ l z. simp (compile_and_store, z, link_unreplayable l),
  )
