-- ===== src/Manifest/Lines.antt =====
-- What `BuildManifest` writes, as a list of lines: the text is the lines with a newline behind each,
-- and the key hashes the request and the lines.
use corepkgs_v.Prelude.{
  ◌≡◌, refl, sym, ap, ◌∙◌, inl, inr, ◌||◌, none, some, List, [], ◌∷◌, ◌++◌, append_assoc,
  append-nil, if◌then◌else◌, Bool-cases, Option-cases, Bytes, equal,
}
use corepkgs_v.Text.Split.{terminated}
use corepkgs_v.Keys.{field, finish}
use corepkgs_v.Keys.Frame.{fields}
use corepkgs_v.Manifest.{
  Files, Builder, add, input_line, add_inputs, member, skipped, add_absent, build_manifest,
}

-- The lines of the first loop.
unfoldable pub input_lines : Files → Bytes → List Bytes → List Bytes
input_lines files primary [] = []
input_lines files primary (path ∷ paths) =
    let rest = input_lines files primary paths in
    if equal path primary then rest else elim (files.identity path) [
      | none ↦ rest
      | some id ↦ input_line (files.key_of path) id ∷ rest
    ]

-- The lines of the second loop, behind the lines `seen`.
unfoldable pub absent_lines : Files → List Bytes → List Bytes → List Bytes
absent_lines files [] seen = []
absent_lines files (path ∷ paths) seen =
    let line = b'!' ∷ files.key_of path in
    let more = line ∷ absent_lines files paths (line ∷ seen) in
    let rest = absent_lines files paths seen in
    if skipped files path || member line seen then rest else more

unfoldable pub lines_of : Files → List Bytes → Bytes → List Bytes → List Bytes
unfolding input_lines absent_lines
lines_of files inputs primary absent =
    input_lines files primary inputs ++ absent_lines files absent []

abbrev add_all : Builder → List Bytes → Builder
add_all b [] = b
add_all b (line ∷ lines) = add_all (add b line) lines

add_inputs-lines :
    (files : Files) (primary : Bytes) (paths : List Bytes) (b : Builder)
    → add_inputs files primary paths b ≡ add_all b (input_lines files primary paths)
unfolding add_inputs input_lines
add_inputs-lines files primary [] b = refl
add_inputs-lines files primary (path ∷ paths) b = elim (Bool-cases (equal path primary)) [
  | inl e ↦ rw (e, add_inputs, input_lines) (add_inputs-lines files primary paths b)
  | inr e ↦ elim (Option-cases (files.identity path)) [
    | inl n ↦ rw (e, n, add_inputs, input_lines) (add_inputs-lines files primary paths b)
    | inr (id, n) ↦
        rw (e, n, add_inputs, input_lines)
          (add_inputs-lines files primary paths (add b (input_line (files.key_of path) id)))
  ]
]

add_absent-lines :
    (files : Files) (paths seen : List Bytes) (b : Builder)
    → add_absent files paths seen b ≡ add_all b (absent_lines files paths seen)
unfolding add_absent absent_lines
add_absent-lines files [] seen b = refl
add_absent-lines files (path ∷ paths) seen b =
    elim (Bool-cases (skipped files path || member (b'!' ∷ files.key_of path) seen)) [
      | inl e ↦ rw (e, add_absent, absent_lines) (add_absent-lines files paths seen b)
      | inr e ↦
          rw (e, add_absent, absent_lines)
            (add_absent-lines files paths ((b'!' ∷ files.key_of path) ∷ seen)
              (add b (b'!' ∷ files.key_of path)))
    ]

add_all-append :
    (ls ms : List Bytes) (b : Builder) → add_all (add_all b ls) ms ≡ add_all b (ls ++ ms)
add_all-append [] ms b = refl
add_all-append (l ∷ ls) ms b = add_all-append ls ms (add b l)

text-add_all : (ls : List Bytes) (b : Builder) → (add_all b ls).text ≡ b.text ++ terminated b'\n' ls
text-add_all [] b = sym (append-nil b.text)
text-add_all (l ∷ ls) b = text-add_all ls (add b l) ∙ simp append_assoc

hasher-add_all : (ls : List Bytes) (b : Builder) → (add_all b ls).hasher ≡ fields b.hasher ls
hasher-add_all [] b = refl
hasher-add_all (l ∷ ls) b = hasher-add_all ls (add b l)

-- The manifest of a compile, whatever the files are.
pub build_manifest-lines :
    (blake3 : Bytes → Bytes) (files : Files) (request : Bytes) (inputs : List Bytes)
    (primary : Bytes) (absent : List Bytes)
    → let lines = lines_of files inputs primary absent in
      let m = build_manifest blake3 files request inputs primary absent in
      (m.text ≡ terminated b'\n' lines) × (m.key ≡ finish blake3 (fields [] (request ∷ lines)))
unfolding build_manifest lines_of
build_manifest-lines blake3 files request inputs primary absent =
    let b : Builder = record { text = []; hasher = field [] request } in
    let ins = input_lines files primary inputs in
    let all_added =
      add_absent-lines files absent [] (add_inputs files primary inputs b)
      ∙ ap (λ c. add_all c (absent_lines files absent [])) (add_inputs-lines files primary inputs b)
      ∙ add_all-append ins (absent_lines files absent []) b in
    (
      ap (λ (c : Builder). c.text) all_added ∙ text-add_all (ins ++ absent_lines files absent []) b,
      ap (λ (c : Builder). finish blake3 c.hasher) all_added
          ∙ ap (finish blake3) (hasher-add_all (ins ++ absent_lines files absent []) b),
    )
