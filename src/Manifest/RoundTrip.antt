-- ===== src/Manifest/RoundTrip.antt =====
-- A manifest that one build wrote is found valid by a later one that sees the same inputs.
use native.Mathlib.Numerals.{add-one}
use corepkgs_v.Prelude.{
  or_false, find_byte-first, ℕ, ◌+◌, ◌≡◌, ◌≢◌, refl, inl, inr, false, ◌||◌, none, some, List, [],
  ◌∷◌, ◌++◌, arith, Bool-cases, Option-cases, Bytes, Lacks, equal, equal_iff, starts_with, length,
  drop, All, All-append,
}
use corepkgs_v.Text.Split.{IsPart, split-terminated_parts}
use corepkgs_v.Keys.{Hasher, field}
use corepkgs_v.Keys.Frame.{fields}
use corepkgs_v.Manifest.{
  Files, input_line, skipped, member, build_manifest, Entry, or_empty, parse_line, parse_lines,
  parse_manifest, ok, objection, validate_entries, validate_manifest,
}
use corepkgs_v.Manifest.Lines.{input_lines, absent_lines, lines_of, build_manifest-lines}

-- A masked path that a line can hold.
pub record IsLinePath (masked : Bytes) : Type 0 where
  pub no_newline : Lacks b'\n' masked
  pub no_tab : Lacks b'\t' masked
  pub not_absent : starts_with masked (b'!' ∷ []) ≡ false

module _ (f g : Files) where
  -- `f` wrote a line for this input, and `g` reads the same identity behind the masked path.
  pub record Kept (path id : Bytes) : Type 0 where
    pub line_path : IsLinePath (f.key_of path)
    pub line_id : Lacks b'\n' id
    pub path_again : Bytes
    pub resolves : g.path_of (f.key_of path) ≡ some path_again
    pub same : g.identity path_again ≡ some id

  abbrev pub KeptInput : Bytes → Type 0
  KeptInput path = (id : Bytes) → f.identity path ≡ some id → Kept path id

  -- `f` recorded this path as absent, and it is still absent for `g`.
  abbrev pub StillAbsent : Bytes → Type 0
  StillAbsent path =
      skipped f path ≡ false
      → Lacks b'\n' (f.key_of path) × (g.present (or_empty (g.path_of (f.key_of path))) ≡ false)

-- A line that `g` finds nothing wrong with.
record Holds (g : Files) (line : Bytes) : Type 0 where
  part : IsPart b'\n' line
  entry : Entry
  parsed : parse_line g line ≡ some entry
  whole : entry.line ≡ line
  valid : objection g entry ≡ none

not_absent_line :
    (k id : Bytes)
    → starts_with k (b'!' ∷ []) ≡ false
    → starts_with (input_line k id) (b'!' ∷ []) ≡ false
unfolding starts_with
not_absent_line [] id h = refl
not_absent_line (c ∷ k) id h = h

drop_tab : (k id : Bytes) → drop (length k + 1) (input_line k id) ≡ id
drop_tab [] id = refl
drop_tab (c ∷ k) id = simp add-one (simp add-one at (drop_tab k id))

append_cons-ne-nil : (k : Bytes) (c : ℕ) (id : Bytes) → k ++ (c ∷ id) ≢ []
append_cons-ne-nil [] c id e = cc
append_cons-ne-nil (d ∷ k) c id e = cc

module _ (f g : Files) where
  input-Holds : (path id : Bytes) → Kept f g path id → Holds g (input_line (f.key_of path) id)
  unfolding parse_line objection
  input-Holds path id kept =
      let k = f.key_of path in
      record {
        part = (
          All-append (λ c. c ≢ b'\n') k (b'\t' ∷ id) kept.line_path.no_newline
              (omega arith, kept.line_id),
          append_cons-ne-nil k b'\t' id,
        );
        entry = record { path = kept.path_again; line = input_line k id; tab = some (length k) };
        parsed =
            rw
              (
                parse_line,
                not_absent_line k id kept.line_path.not_absent,
                find_byte-first b'\t' k id kept.line_path.no_tab,
                kept.resolves,
              )
              refl;
        whole = refl;
        valid = rw (objection, kept.same, drop_tab k id, (equal_iff id id).1 refl) refl;
      }

  absent-Holds :
      (path : Bytes)
      → Lacks b'\n' (f.key_of path) × (g.present (or_empty (g.path_of (f.key_of path))) ≡ false)
      → Holds g (b'!' ∷ f.key_of path)
  unfolding parse_line objection
  absent-Holds path h = record {
    part = ((omega arith, h.0), cc);
    entry = record {
      path = or_empty (g.path_of (f.key_of path));
      line = b'!' ∷ f.key_of path;
      tab = none;
    };
    parsed = refl;
    whole = refl;
    valid = rw (objection, h.1) refl;
  }

  input_lines-Holds :
      (primary : Bytes) (paths : List Bytes)
      → All (KeptInput f g) paths
      → All (Holds g) (input_lines f primary paths)
  unfolding input_lines
  input_lines-Holds primary [] h = tt
  input_lines-Holds primary (path ∷ paths) h = elim (Bool-cases (equal path primary)) [
    | inl e ↦ rw (e, input_lines) (input_lines-Holds primary paths h.1)
    | inr e ↦ elim (Option-cases (f.identity path)) [
      | inl n ↦ rw (e, n, input_lines) (input_lines-Holds primary paths h.1)
      | inr (id, n) ↦
          rw (e, n, input_lines)
            (input-Holds path id (h.0 id n), input_lines-Holds primary paths h.1)
    ]
  ]

  absent_lines-Holds :
      (paths seen : List Bytes)
      → All (StillAbsent f g) paths
      → All (Holds g) (absent_lines f paths seen)
  unfolding absent_lines
  absent_lines-Holds [] seen h = tt
  absent_lines-Holds (path ∷ paths) seen h =
      elim (Bool-cases (skipped f path || member (b'!' ∷ f.key_of path) seen)) [
        | inl e ↦ rw (e, absent_lines) (absent_lines-Holds paths seen h.1)
        | inr e ↦
            rw (e, absent_lines)
              (
                absent-Holds path (h.0 (or_false _ _ e).0),
                absent_lines-Holds paths ((b'!' ∷ f.key_of path) ∷ seen) h.1,
              )
      ]

module _ (g : Files) where
  Holds-parts : (lines : List Bytes) → All (Holds g) lines → All (IsPart b'\n') lines
  Holds-parts [] h = tt
  Holds-parts (l ∷ lines) (x, h) = (x.part, Holds-parts lines h)

  validate_entries-Holds :
      (lines : List Bytes) (h : Hasher)
      → All (Holds g) lines
      → validate_entries g (parse_lines g lines) h ≡ ok (fields h lines)
  unfolding validate_entries parse_lines
  validate_entries-Holds [] h all_hold = refl
  validate_entries-Holds (l ∷ lines) h (x, all_hold) =
      rw (x.parsed, parse_lines, validate_entries, x.valid, x.whole)
        (validate_entries-Holds lines (field h l) all_hold)

-- A manifest is valid, with the result key that it was built with, for every later build that
-- reads the same identity behind each masked input path and finds each absent path still absent.
-- The masked paths hold no newline and no tab and do not begin with '!'; the identities hold no newline.
pub validate_manifest-build_manifest :
    (blake3 : Bytes → Bytes) (f g : Files) (request primary : Bytes) (inputs absent : List Bytes)
    → All (KeptInput f g) inputs
    → All (StillAbsent f g) absent
    → validate_manifest blake3 g request
        (build_manifest blake3 f request inputs primary absent).text
      ≡ ok (build_manifest blake3 f request inputs primary absent).key
unfolding validate_manifest
validate_manifest-build_manifest blake3 f g request primary inputs absent hi ha =
    let built = build_manifest-lines blake3 f request inputs primary absent in
    let lines = lines_of f inputs primary absent in
    let hold : All (Holds g) lines =
      unfold lines_of in
      All-append (Holds g) _ _ (input_lines-Holds f g primary inputs hi)
        (absent_lines-Holds f g absent [] ha) in
    rw
      (
        built.0,
        built.1,
        validate_manifest,
        parse_manifest,
        split-terminated_parts b'\n' lines (Holds-parts g lines hold),
        validate_entries-Holds g lines (field [] request) hold,
      )
      refl
