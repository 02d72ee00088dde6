-- ===== src/NixStore/Offline.antt =====
-- `RunNixStoreMode` of pkgs/ji/jig/src/nix_store_mode.cc with JIG_NIX_STORE_OFFLINE.
use corepkgs_v.Prelude.{
  ◌≡◌, refl, sym, ap, ◌∙◌, inl, inr, Bool, true, false, ◌&&◌, ◌||◌, none, some, List, [], ◌∷◌, ◌++◌,
  map, append_assoc, append-nil, if◌then◌else◌, Option-cases, Bytes, codes, equal,
}
use corepkgs_v.NixStore.{Daemon, Step, ◌>>=◌}
use corepkgs_v.NixStore.Path.{fixed_output_path, text_path}
use corepkgs_v.NixStore.Aterm.{File, derivation_to_aterm, fetchurl_derivation}
use corepkgs_v.NixStore.Mode.{
  Setting, offline, open_store, add_text, submit, Outcome, finish, add_verb, fetch_loop, fetch_verb,
  run_verb, run_nix_store_mode,
}

-- The connection is as it was.
abbrev pub Untouched : Daemon → Daemon → Type 0
Untouched d after =
    (after.input ≡ d.input)
    × (after.out ≡ d.out)
    × (after.accepts ≡ d.accepts)
    × (after.written ≡ d.written)

abbrev Quiet : Daemon → Outcome × Daemon → Type 0
Quiet d result = Untouched d result.1

same : (d : Daemon) → Untouched d d
same d = (refl, refl, refl, refl)

kept :
    (d : Daemon) (outcome : Outcome) (result : Outcome × Daemon)
    → result ≡ (outcome, d)
    → Quiet d result
kept d outcome result e =
    (ap (λ r. r.1.input) e, ap (λ r. r.1.out) e, ap (λ r. r.1.accepts) e, ap (λ r. r.1.written) e)

then_lem :
    {A B : Type 0} (m : Step A) (f : A → Step B) (d d' : Daemon) (a : A)
    → m d ≡ (some a, d')
    → (m >>= f) d ≡ f a d'
then_lem m f d d' a e = ap (λ r. elim r.0 [ none ↦ (none, r.1) | some x ↦ f x r.1 ]) e

finish_lem :
    {A : Type 0} (m : Step A) (lines : A → List Bytes) (d d' : Daemon) (a : A)
    → m d ≡ (some a, d')
    → finish m lines d ≡ ((0, lines a), d')
finish_lem m lines d d' a e =
    ap (λ r. elim r.0 [ none ↦ ((1, []), r.1) | some x ↦ ((0, lines x), r.1) ]) e

if-Quiet :
    (d : Daemon) (b : Bool) (x y : Outcome × Daemon)
    → Quiet d x
    → Quiet d y
    → Quiet d (if b then x else y)
if-Quiet d true x y hx hy = hx
if-Quiet d false x y hx hy = hy

-- A file of `fetchurls`, with its derivation and its output.
abbrev pub planned : Setting → File → Bytes × Bytes
planned s file =
    let out = fixed_output_path s.store_dir file.name file.algo file.hex in
    (text_path s.store_dir (file.name ++ codes ".drv") [] (fetchurl_derivation file out), out)

module _ (s : Setting) (off : offline s ≡ true) (d : Daemon) where
  open_store-offline : open_store s d ≡ (some true, d)
  unfolding open_store
  open_store-offline = rw off refl

  add_text-offline :
      (name : Bytes) (references : List Bytes) (contents : Bytes)
      → add_text s name references contents d
        ≡ (some (text_path s.store_dir name references contents), d)
  unfolding add_text
  add_text-offline name references contents = rw off refl

  submit-offline : (drv output : Bytes) → submit s drv output d ≡ (some true, d)
  unfolding submit
  submit-offline drv output = rw off refl

  fetch_loop-offline :
      (files : List File) (result : List (Bytes × Bytes))
      → fetch_loop s files result d ≡ (some (result ++ map (planned s) files), d)
  unfolding fetch_loop
  fetch_loop-offline [] result = ap (λ r. (some r, d)) (sym (append-nil result))
  fetch_loop-offline (file ∷ files) result =
      let (drv, out) = planned s file in
      let made = fetchurl_derivation file out in
      then_lem (add_text s (file.name ++ codes ".drv") [] made)
        (λ x. fetch_loop s files (result ++ (x, out) ∷ [])) d d drv
        (add_text-offline (file.name ++ codes ".drv") [] made)
      ∙ fetch_loop-offline files (result ++ (drv, out) ∷ [])
      ∙ ap (λ r. (some r, d)) (append_assoc result ((drv, out) ∷ []) (map (planned s) files))

  add_verb-Quiet :
      (is_drv : Bool) (name : Bytes) (references : List Bytes)
      → Quiet d (add_verb s is_drv name references d)
  unfolding add_verb
  add_verb-Quiet is_drv name references =
      let contents = if is_drv then derivation_to_aterm (s.parse_derivation s.stdin) else s.stdin in
      if-Quiet d (is_drv && equal contents []) _ _ (same d) (
        kept d _ _ (
          finish_lem (add_text s name references contents) (λ path. path ∷ []) d d _
            (add_text-offline name references contents)))

  fetch_verb-offline :
      (files : List File)
      → s.parse_files s.stdin ≡ some files
      → fetch_verb s d ≡ ((0, s.dump (map (planned s) files) ∷ []), d)
  unfolding fetch_verb
  fetch_verb-offline files parsed =
      rw (parsed, fetch_verb)
        (finish_lem (fetch_loop s files []) (λ result. s.dump result ∷ []) d d
          (map (planned s) files) (fetch_loop-offline files []))

  fetch_verb-Quiet : Quiet d (fetch_verb s d)
  unfolding fetch_verb
  fetch_verb-Quiet = elim (Option-cases (s.parse_files s.stdin)) [
    | inl none_there ↦ rw (none_there, fetch_verb) (same d)
    | inr (files, parsed) ↦ kept d _ _ (fetch_verb-offline files parsed)
  ]

  run_verb-Quiet : (verb : Bytes) (args : List Bytes) → Quiet d (run_verb s verb args d)
  unfolding run_verb
  run_verb-Quiet verb [] = if-Quiet d (equal verb (codes "fetchurls")) _ _ fetch_verb-Quiet (same d)
  run_verb-Quiet verb (name ∷ []) =
      if-Quiet d (equal verb (codes "add-text") || equal verb (codes "add-drv")) _ _
        (add_verb-Quiet (equal verb (codes "add-drv")) name []) (same d)
  run_verb-Quiet verb (name ∷ output ∷ []) =
      if-Quiet d (equal verb (codes "add-text") || equal verb (codes "add-drv")) _ _
        (add_verb-Quiet (equal verb (codes "add-drv")) name (output ∷ []))
        (if-Quiet d (equal verb (codes "submit")) _ _
          (kept d _ _
            (finish_lem (submit s name output) (λ done. []) d d true (submit-offline name output)))
          (same d))
  run_verb-Quiet verb (name ∷ output ∷ more ∷ others) =
      if-Quiet d (equal verb (codes "add-text") || equal verb (codes "add-drv")) _ _
        (add_verb-Quiet (equal verb (codes "add-drv")) name (output ∷ more ∷ others)) (same d)

  run_opened :
      (verb : Bytes) (args : List Bytes)
      → run_nix_store_mode s (verb ∷ args) d ≡ run_verb s verb args d
  unfolding run_nix_store_mode
  run_opened verb args =
      ap (λ r. elim r.0 [ none ↦ ((1, []), r.1) | some done ↦ run_verb s verb args r.1 ])
        open_store-offline

  -- With JIG_NIX_STORE_OFFLINE set no verb reads from the daemon's connection or writes to it, whatever the
  -- arguments.
  pub run_nix_store_mode_offline : (args : List Bytes) → Untouched d (run_nix_store_mode s args d).1
  unfolding run_nix_store_mode
  run_nix_store_mode_offline [] = same d
  run_nix_store_mode_offline (verb ∷ args) = rw (run_opened verb args) (run_verb-Quiet verb args)

  -- With JIG_NIX_STORE_OFFLINE set `fetchurls` leaves the connection and prints, with status 0, what the
  -- library writes of one pair for each file of the standard input, in order: the path of the derivation
  -- that `FetchurlDerivation` makes, as a text of that name, and the file's fixed output.
  pub fetchurls_offline :
      (files : List File)
      → s.parse_files s.stdin ≡ some files
      → run_nix_store_mode s (codes "fetchurls" ∷ []) d
        ≡ ((0, s.dump (map (planned s) files) ∷ []), d)
  unfolding run_verb equal
  fetchurls_offline files parsed =
      run_opened (codes "fetchurls") [] ∙ fetch_verb-offline files parsed
