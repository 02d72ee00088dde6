-- ===== src/Manifest/Validity.antt =====
-- What `ValidateManifest` promises: a key only for entries that are all as recorded, and the first
-- entry that is not as the reason.
use corepkgs_v.Prelude.{
  ℕ, ◌+◌, ◌≡◌, refl, ap, ◌∙◌, ◌⊎◌, inl, inr, false, Option, none, some, List, [], ◌∷◌, ◌++◌, arith,
  Bool-cases, Option-cases, Bytes, codes, equal, equal_iff, take, drop, All,
}
use corepkgs_v.Keys.{Hasher, field, finish}
use corepkgs_v.Keys.Frame.{fields}
use corepkgs_v.Manifest.{
  Files, Entry, parse_manifest, Expected, ok, unexpected, objection, validate_entries,
  validate_manifest,
}

abbrev pub IsCurrentAt : Files → Entry → Option ℕ → Type 0
IsCurrentAt files entry none = files.present entry.path ≡ false
IsCurrentAt files entry (some tab) = files.identity entry.path ≡ some (drop (tab + 1) entry.line)

-- What an entry recorded is so for `files`: an absent path is not there, an input has the identity
-- that stands behind the tab.
abbrev pub IsCurrent : Files → Entry → Type 0
IsCurrent files entry = IsCurrentAt files entry entry.tab

-- The reason that an entry which is not current gives: the path as the line spells it.
abbrev pub reason_at : Entry → Option ℕ → Bytes
reason_at entry none = codes "appeared:" ++ drop 1 entry.line
reason_at entry (some tab) = codes "inputs-changed:" ++ take tab entry.line

abbrev pub reason : Entry → Bytes
reason entry = reason_at entry entry.tab

unfoldable pub lines : List Entry → List Bytes
lines [] = []
lines (e ∷ es) = e.line ∷ lines es

no_equal : (a b : Bytes) → equal a b ≡ false → a ≡ b → ⊥
no_equal a b h e = cc ((equal_iff a b).1 e)

-- `objection` on an entry whose tab is known.
objection_at :
    (files : Files) (path line : Bytes) (tab : Option ℕ)
    → let e : Entry = record { path = path; line = line; tab = tab } in
      (objection files e ≡ none × IsCurrentAt files e tab)
      ⊎ (objection files e ≡ some (reason_at e tab) × (¬ (IsCurrentAt files e tab)))
unfolding objection
objection_at files path line none = elim (Bool-cases (files.present path)) [
  | inl there ↦ inr (rw (there, objection) refl, λ h. cc)
  | inr gone ↦ inl (rw (gone, objection) refl, gone)
]
objection_at files path line (some tab) = elim (Option-cases (files.identity path)) [
  | inl n ↦ inr (rw (n, objection) refl, λ h. cc)
  | inr (id, n) ↦ elim (Bool-cases (equal id (drop (tab + 1) line))) [
    | inl same ↦ inl (rw (n, objection, same) refl, n ∙ ap some ((equal_iff _ _).0 same))
    | inr other ↦
        inr (rw (n, objection, other) refl, λ h. no_equal id (drop (tab + 1) line) other (cc))
  ]
]

objection-cases :
    (files : Files) (e : Entry)
    → (objection files e ≡ none × IsCurrent files e)
      ⊎ (objection files e ≡ some (reason e) × (¬ (IsCurrent files e)))
objection-cases files e = objection_at files e.path e.line e.tab

validate_entries-ok :
    (files : Files) (es : List Entry) (h h' : Hasher)
    → validate_entries files es h ≡ ok h'
    → All (IsCurrent files) es × (h' ≡ fields h (lines es))
unfolding validate_entries lines
validate_entries-ok files [] h h' e = (tt, ground arith)
validate_entries-ok files (x ∷ es) h h' e = elim (objection-cases files x) [
  | inl (n, current) ↦
      let rest = validate_entries-ok files es (field h x.line) h' (ground arith) in
      ((current, rest.0), rest.1)
  | inr (s, other) ↦ absurd (ground arith)
]

-- Where a list of entries first goes wrong.
pub record FirstChange (files : Files) (es : List Entry) (why : Bytes) : Type 0 where
  pub before : List Entry
  pub entry : Entry
  pub after : List Entry
  pub splits : es ≡ before ++ entry ∷ after
  pub current : All (IsCurrent files) before
  pub changed : ¬ (IsCurrent files entry)
  pub names : why ≡ reason entry

validate_entries-unexpected :
    (files : Files) (es : List Entry) (h : Hasher) (why : Bytes)
    → validate_entries files es h ≡ unexpected why
    → FirstChange files es why
unfolding validate_entries
validate_entries-unexpected files [] h why e = absurd (ground arith)
validate_entries-unexpected files (x ∷ es) h why e = elim (objection-cases files x) [
  | inl (n, current) ↦
      let rest = validate_entries-unexpected files es (field h x.line) why (ground arith) in
      record {
        before = x ∷ rest.before;
        entry = rest.entry;
        after = rest.after;
        splits = ap (◌∷◌ x) rest.splits;
        current = (current, rest.current);
        changed = rest.changed;
        names = rest.names;
      }
  | inr (s, other) ↦ record {
    before = [];
    entry = x;
    after = es;
    splits = refl;
    current = tt;
    changed = other;
    names = ground arith;
  }
]

-- `ValidateManifest` gives a result key only if every entry is current, and the key is then the hash of the
-- request and of the entries' lines in order.
pub validate_manifest_ok :
    (blake3 : Bytes → Bytes) (files : Files) (request text : Bytes) {k : Bytes}
    → validate_manifest blake3 files request text ≡ ok k
    → All (IsCurrent files) (parse_manifest files text)
      × (k ≡ finish blake3 (fields [] (request ∷ lines (parse_manifest files text))))
unfolding validate_manifest
validate_manifest_ok blake3 files request text h =
    let es = parse_manifest files text in
    let (h', e, named) = finished (validate_entries files es (field [] request)) h in
    let (current, hashed) = validate_entries-ok files es (field [] request) h' e in
    (current, cc (hashed, named))
  where
    finished :
        (r : Expected Hasher) {k : Bytes}
        → (elim r [ unexpected why ↦ unexpected why | ok h ↦ ok (finish blake3 h) ]) ≡ ok k
        → (h : Hasher) × (r ≡ ok h) × (k ≡ finish blake3 h)
    finished (ok h) e = (h, refl, ground arith)
    finished (unexpected why) e = absurd (ground arith)

-- The reason for a miss names the first entry that is not current; all entries before it are.
pub validate_manifest_unexpected :
    (blake3 : Bytes → Bytes) (files : Files) (request text : Bytes) {why : Bytes}
    → validate_manifest blake3 files request text ≡ unexpected why
    → FirstChange files (parse_manifest files text) why
unfolding validate_manifest
validate_manifest_unexpected blake3 files request text {why} h =
    validate_entries-unexpected files (parse_manifest files text) (field [] request) why
      (failed (validate_entries files (parse_manifest files text) (field [] request)) h)
  where
    failed :
        (r : Expected Hasher)
        → (elim r [ unexpected why ↦ unexpected why | ok h ↦ ok (finish blake3 h) ])
          ≡ unexpected why
        → r ≡ unexpected why
    failed (ok h) e = absurd (ground arith)
    failed (unexpected why) e = ground arith
