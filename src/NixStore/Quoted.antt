-- ===== src/NixStore/Quoted.antt =====
-- `Quote` of pkgs/ji/jig/src/nix_store_mode.cc is undone by a reader of quoted texts.
use corepkgs_v.Prelude.{
  ℕ, ◌≡◌, refl, ap, ◌∙◌, Bool, true, false, Option, none, some, [], ◌∷◌, ◌++◌, append_assoc, arith,
  ◌==◌, if◌then◌else◌, Bytes,
}
use corepkgs_v.NixStore.Aterm.{quote_byte, quote_loop, quote}
use corepkgs_v.NixStore.Reader.{Reader, after, Reads, Reads-after}

-- What stands for a byte behind a backslash.
unfoldable pub unescape : ℕ → ℕ
unescape c =
    if c == b'n' then b'\n' else if c == b'r' then b'\r' else if c == b't' then b'\t' else c

abbrev prepend : ℕ → Option (Bytes × Bytes) → Option (Bytes × Bytes)
prepend c none = none
prepend c (some (text, rest)) = some (c ∷ text, rest)

-- A text up to its quote; the flag is set behind a backslash.
unfoldable pub read_text : Bool → Reader Bytes
read_text escaped [] = none
read_text true (c ∷ s) = prepend (unescape c) (read_text false s)
read_text false (c ∷ s) =
    let rest = read_text (c == b'\\') s in
    if c == b'"' then some ([], s) else if c == b'\\' then rest else prepend c rest

abbrev pub read_quoted : Reader Bytes
read_quoted = after b'"' (read_text false)

read_text-quote_byte :
    (c : ℕ) (s : Bytes) → read_text false (quote_byte c ++ s) ≡ prepend c (read_text false s)
unfolding read_text quote_byte unescape
read_text-quote_byte c s = ground arith

read_text-Reads : (text : Bytes) → Reads (read_text false) (quote_loop text ++ b'"' ∷ []) text
unfolding read_text quote_loop
read_text-Reads [] rest = refl
read_text-Reads (c ∷ text) rest =
    ap (λ s. read_text false (s ++ rest))
      (append_assoc (quote_byte c) (quote_loop text) (b'"' ∷ []))
    ∙ ap (read_text false) (append_assoc (quote_byte c) (quote_loop text ++ b'"' ∷ []) rest)
    ∙ read_text-quote_byte c _
    ∙ ap (prepend c) (read_text-Reads text rest)

pub read_quoted-Reads : (text : Bytes) → Reads read_quoted (quote text) text
unfolding quote
read_quoted-Reads text =
    Reads-after b'"' (read_text false) (quote_loop text ++ b'"' ∷ []) (read_text-Reads text)
